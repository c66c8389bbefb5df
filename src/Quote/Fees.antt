-- ===== src/Quote/Fees.antt =====
-- The calls of contracts/router-quote/src/lib.rs that change the fees, and the fee that applies.
use stellar_router.Prelude.{
  ℕ, zero, suc, Bool, Option, none, some, List, [], ◌∷◌, ◌++◌, length, leb, ltb, if◌then◌else◌,
  is_some, unwrap_or, contains, insert, remove,
}
use stellar_router.Common.{
  Address, Env, ok, err, panic, ◌>>=◌, ◌>>◌, fail_if, ok_or, require_auth, require_admin,
}
use stellar_router.Quote
use stellar_router.Quote.{
  Route, ℤ, pos, leb_ℤ, ltb_ℤ, FeeTier, QuoteError, Call, Event, publish, bps_denominator,
  max_tracked_routes, max_fee_tiers_per_route,
}

abbrev State : Type 0
State = Quote.Quote

-- `require_auth` followed by `require_admin_simple!`, as the calls of the administrator begin.
unfoldable pub authorize : Env → State → Address → Call (Unit {0})
authorize env s caller = do
  require_auth env caller
  require_admin s.admin caller QuoteError.not_initialized QuoteError.unauthorized

abbrev pub read_configured_routes : State → List Route
read_configured_routes s = unwrap_or s.configured_routes []

abbrev pub write_configured_routes : State → List Route → State
write_configured_routes s routes = record s { configured_routes = some routes }

unfoldable pub track_configured_route : State → Route → Call State
track_configured_route s route = if contains (read_configured_routes s) route then ok s else (do
  fail_if (leb max_tracked_routes (length (read_configured_routes s))) QuoteError.too_many_routes
  ok (write_configured_routes s (read_configured_routes s ++ route ∷ [])))

unfoldable pub initialize : State → Address → ℕ → Call State
initialize s admin default_fee_bps = do
  fail_if (is_some s.admin) QuoteError.already_initialized
  fail_if (ltb bps_denominator default_fee_bps) QuoteError.invalid_fee_bps
  ok (
      publish (record s { admin = some admin; default_fee = some default_fee_bps })
        (Event.initialized admin default_fee_bps))

unfoldable pub set_route_fee : Env → State → Address → Route → ℕ → Call State
unfolding authorize track_configured_route
set_route_fee env s caller route fee_bps = do
  authorize env s caller
  fail_if (ltb bps_denominator fee_bps) QuoteError.invalid_fee_bps
  t ← track_configured_route s route
  ok (
      publish (record t { route_fee = insert t.route_fee route fee_bps })
        (Event.route_fee_set route fee_bps))

unfoldable pub unset_route_fee : Env → State → Address → Route → Call State
unfolding authorize
unset_route_fee env s caller route = do
  authorize env s caller
  ok (
      publish
        (record s {
          route_fee = remove s.route_fee route;
          route_fee_tiers = remove s.route_fee_tiers route;
        })
        (Event.route_fee_unset route))

-- The first index at which the test holds, or the length.
abbrev pub find_insertion_index {ℓ} : {A : Type ℓ} → List A → (A → Bool) → ℕ
find_insertion_index [] before = 0
find_insertion_index (x ∷ xs) before =
    let rest = find_insertion_index xs before in if before x then 0 else suc rest

-- `Vec::insert`
abbrev pub insert_nth {ℓ} : {A : Type ℓ} → List A → ℕ → A → List A
insert_nth xs zero a = a ∷ xs
insert_nth [] (suc i) a = a ∷ []
insert_nth (x ∷ xs) (suc i) a = x ∷ insert_nth xs i a

-- The loop of `set_route_fee_tiers`.
unfoldable pub sort_tiers : List FeeTier → List FeeTier → Call (List FeeTier)
sort_tiers sorted [] = ok sorted
sort_tiers sorted (tier ∷ tiers) =
    let position = find_insertion_index sorted (λ t. ltb_ℤ tier.min_amount t.min_amount) in
    fail_if (ltb_ℤ tier.min_amount (pos 0)) QuoteError.invalid_fee_tier
    >> (fail_if (ltb bps_denominator tier.fee_bps) QuoteError.invalid_fee_bps
        >> sort_tiers (insert_nth sorted position tier) tiers)

unfoldable pub set_route_fee_tiers : Env → State → Address → Route → List FeeTier → Call State
unfolding authorize sort_tiers track_configured_route
set_route_fee_tiers env s caller route tiers = do
  authorize env s caller
  fail_if (ltb max_fee_tiers_per_route (length tiers)) QuoteError.too_many_tiers
  sorted_tiers ← sort_tiers [] tiers
  t ← track_configured_route s route
  ok (
      publish (record t { route_fee_tiers = insert t.route_fee_tiers route sorted_tiers })
        (Event.route_fee_tiers_set route sorted_tiers))

unfoldable pub set_default_fee : Env → State → Address → ℕ → Call State
unfolding authorize
set_default_fee env s caller fee_bps = do
  authorize env s caller
  fail_if (ltb bps_denominator fee_bps) QuoteError.invalid_fee_bps
  ok (publish (record s { default_fee = some fee_bps }) (Event.default_fee_updated fee_bps))

unfoldable pub transfer_admin : Env → State → Address → Address → Call State
unfolding authorize
transfer_admin env s current new_admin = do
  authorize env s current
  ok (publish (record s { admin = some new_admin }) (Event.admin_transferred current new_admin))

unfoldable pub admin : State → Call Address
admin s = ok_or s.admin QuoteError.not_initialized

unfoldable pub get_default_fee : State → Call ℕ
get_default_fee s = ok_or s.default_fee QuoteError.not_initialized

abbrev pub fee_or : Option ℕ → Call ℕ → Call ℕ
fee_or (some fee) other = ok fee
fee_or none other = other

unfoldable pub get_route_fee : State → Route → Call ℕ
unfolding get_default_fee
get_route_fee s route = fee_or (s.route_fee route) (get_default_fee s)

unfoldable pub get_route_fee_tiers : State → Route → Call (List FeeTier)
get_route_fee_tiers s route =
    if is_some s.admin
    then ok (unwrap_or (s.route_fee_tiers route) [])
    else err QuoteError.not_initialized

-- The loop of `resolve_route_fee_bps` over the tiers, with the fee that matches so far.
unfoldable pub matching_fee : ℤ → Option ℕ → List FeeTier → Option ℕ
matching_fee amount_in fee [] = fee
matching_fee amount_in fee (tier ∷ tiers) =
    let rest = matching_fee amount_in (some tier.fee_bps) tiers in
    if leb_ℤ tier.min_amount amount_in then rest else fee

unfoldable pub resolve_route_fee_bps : State → Route → ℤ → Call ℕ
unfolding get_route_fee_tiers matching_fee get_route_fee
resolve_route_fee_bps s route amount_in = do
  tiers ← get_route_fee_tiers s route
  fee_or (matching_fee amount_in none tiers) (get_route_fee s route)

abbrev pub tiers_or_none : Call (List FeeTier) → List FeeTier
tiers_or_none (ok tiers) = tiers
tiers_or_none (err e) = []
tiers_or_none panic = []

abbrev pub first_fee : List FeeTier → Call ℕ → Call ℕ
first_fee [] other = other
first_fee (lowest ∷ tiers) other = ok lowest.fee_bps

abbrev pub push_fee : Route → Call ℕ → List (Route × ℕ) → List (Route × ℕ)
push_fee route (ok fee) rest = (route, fee) ∷ rest
push_fee route (err e) rest = rest
push_fee route panic rest = rest

-- The loop of `get_all_configured_routes`.
unfoldable pub fees_of : State → List Route → List (Route × ℕ)
unfolding get_route_fee_tiers get_route_fee
fees_of s [] = []
fees_of s (route ∷ routes) =
    push_fee route (first_fee (tiers_or_none (get_route_fee_tiers s route)) (get_route_fee s route))
      (fees_of s routes)

unfoldable pub get_all_configured_routes : State → List (Route × ℕ)
unfolding fees_of
get_all_configured_routes s = fees_of s (read_configured_routes s)
