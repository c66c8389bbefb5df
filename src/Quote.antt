-- ===== src/Quote.antt =====
-- contracts/router-quote/src/lib.rs: fees of routes and quotes. This file has the stored data; the children
-- have the fees, the quotes and the proofs.
--
-- `Quote` has one field for each kind of `DataKey`. Amounts are `i128`; route names and tokens are compared
-- and stored, never inspected, so they are numbers.
pub mod Fees
pub mod Quotes
pub mod Invariant
pub mod Price
pub mod Best
mod Tests
use stellar_router.Prelude.{
  ℕ, suc, ◌+◌, ◌-◌, ◌^◌, Bool, true, false, Option, none, List, [], ◌∷◌, ◌++◌, Map, empty, leb, ltb,
  if◌then◌else◌,
}
use stellar_router.Common.{Address, Outcome}

abbrev pub Route : Type 0
Route = ℕ

-- `negsuc n` is `-(n + 1)`.
pub data ℤ : Type 0 where
  pos negsuc : ℕ → ℤ

abbrev pub leb_ℤ : ℤ → ℤ → Bool
leb_ℤ (pos a) (pos b) = leb a b
leb_ℤ (pos a) (negsuc b) = false
leb_ℤ (negsuc a) (pos b) = true
leb_ℤ (negsuc a) (negsuc b) = leb b a

abbrev pub ltb_ℤ : ℤ → ℤ → Bool
ltb_ℤ (pos a) (pos b) = ltb a b
ltb_ℤ (pos a) (negsuc b) = false
ltb_ℤ (negsuc a) (pos b) = true
ltb_ℤ (negsuc a) (negsuc b) = ltb b a

-- The difference of two numbers that are not negative.
abbrev pub minus : ℕ → ℕ → ℤ
minus a b = if leb b a then pos (a - b) else negsuc (b - (a + 1))

-- One more than `i128::MAX`.
abbrev pub i128_limit : ℕ
i128_limit = 2 ^ 127

pub record QuoteRequest : Type 0 where
  pub route : Route
  pub token_in : Address
  pub token_out : Address
  pub amount_in : ℤ

pub record QuoteResponse : Type 0 where
  pub route : Route
  pub token_in : Address
  pub token_out : Address
  pub amount_in : ℤ
  pub amount_out : ℤ
  pub fee_amount : ℤ
  pub fee_bps : ℕ

pub record FeeTier : Type 0 where
  pub min_amount : ℤ
  pub fee_bps : ℕ

pub data QuoteError : Type 0 where
  already_initialized not_initialized unauthorized invalid_amount invalid_fee_bps : QuoteError
  no_quotes_provided arithmetic_overflow too_many_routes invalid_fee_tier : QuoteError
  too_many_tiers : QuoteError

pub data Event : Type 0 where
  initialized : Address → ℕ → Event
  route_fee_set : Route → ℕ → Event
  route_fee_unset : Route → Event
  route_fee_tiers_set : Route → List FeeTier → Event
  quote_calculated : Route → ℤ → ℤ → Event
  best_quote_selected : Route → ℤ → Event
  default_fee_updated : ℕ → Event
  admin_transferred : Address → Address → Event

pub record Quote : Type 0 where
  pub admin : Option Address
  pub route_fee : Map ℕ
  pub route_fee_tiers : Map (List FeeTier)
  pub default_fee : Option ℕ
  pub configured_routes : Option (List Route)
  pub events : List Event

-- The storage of a contract that has just been deployed.
abbrev pub deployed : Quote
deployed = record {
  admin = none;
  route_fee = empty;
  route_fee_tiers = empty;
  default_fee = none;
  configured_routes = none;
  events = [];
}

-- The result of a call that may fail.
abbrev pub Call : Type 0 → Type 0
Call A = Outcome QuoteError A

-- `env.events().publish(..)`
abbrev pub publish : Quote → Event → Quote
publish s e = record s { events = s.events ++ e ∷ [] }

-- `BPS_DENOMINATOR`, `MAX_TRACKED_ROUTES` and `MAX_FEE_TIERS_PER_ROUTE`.
abbrev pub bps_denominator : ℕ
bps_denominator = 10000

abbrev pub max_tracked_routes : ℕ
max_tracked_routes = 500

abbrev pub max_fee_tiers_per_route : ℕ
max_fee_tiers_per_route = 100
