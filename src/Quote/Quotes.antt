-- ===== src/Quote/Quotes.antt =====
-- The quotes of contracts/router-quote/src/lib.rs.
use stellar_router.Prelude.{
  ℕ, ◌*◌, ◌/◌, Bool, true, false, not, Option, none, some, List, [], ◌∷◌, ◌++◌, ltb, if◌then◌else◌,
  is_some,
}
use stellar_router.Common.{ok, err, panic, ◌>>=◌, ◌>>◌, fail_if, ok_or}
use stellar_router.Quote
use stellar_router.Quote.{
  ℤ, pos, negsuc, leb_ℤ, ltb_ℤ, minus, i128_limit, QuoteRequest, QuoteResponse, QuoteError, Call,
  Event, publish, bps_denominator,
}
use stellar_router.Quote.Fees.{resolve_route_fee_bps, find_insertion_index, insert_nth}

abbrev State : Type 0
State = Quote.Quote

-- `checked_mul` and `checked_div` for an amount that is not negative; a negative one has been refused.
abbrev pub fee_of : ℤ → ℕ → Option ℕ
fee_of (pos n) fee_bps =
    if ltb (n * fee_bps) i128_limit then some (n * fee_bps / bps_denominator) else none
fee_of (negsuc n) fee_bps = none

-- `amount_in - fee_amount`
abbrev pub less_fee : ℤ → ℕ → ℤ
less_fee (pos n) fee_amount = minus n fee_amount
less_fee (negsuc n) fee_amount = negsuc n

unfoldable pub get_quote : State → QuoteRequest → Call (State × QuoteResponse)
unfolding resolve_route_fee_bps
get_quote s request = do
  fail_if (leb_ℤ request.amount_in (pos 0)) QuoteError.invalid_amount
  fee_bps ← resolve_route_fee_bps s request.route request.amount_in
  fee_amount ← ok_or (fee_of request.amount_in fee_bps) QuoteError.arithmetic_overflow
  let amount_out = less_fee request.amount_in fee_amount
  let response : QuoteResponse = record {
    route = request.route;
    token_in = request.token_in;
    token_out = request.token_out;
    amount_in = request.amount_in;
    amount_out = amount_out;
    fee_amount = pos fee_amount;
    fee_bps = fee_bps;
  }
  ok (publish s (Event.quote_calculated request.route amount_out (pos fee_amount)), response)

-- The loop of `get_quotes`.
unfoldable pub quote_each :
    State → List QuoteResponse → List QuoteRequest → Call (State × List QuoteResponse)
unfolding get_quote
quote_each s responses [] = ok (s, responses)
quote_each s responses (request ∷ requests) = get_quote s request >>= λ (r : State × QuoteResponse).
    quote_each r.0 (responses ++ r.1 ∷ []) requests

abbrev pub is_empty : List QuoteRequest → Bool
is_empty [] = true
is_empty (r ∷ rs) = false

unfoldable pub get_quotes : State → List QuoteRequest → Call (State × List QuoteResponse)
unfolding quote_each
get_quotes s requests = do
  fail_if (is_empty requests) QuoteError.no_quotes_provided
  quote_each s [] requests

-- The loop of `get_best_quote`.
unfoldable pub better : QuoteResponse → List QuoteResponse → QuoteResponse
better best [] = best
better best (quote ∷ quotes) =
    better (if ltb_ℤ best.amount_out quote.amount_out then quote else best) quotes

-- `get(0).unwrap()` panics on an empty vector.
unfoldable pub best_of : List QuoteResponse → Call QuoteResponse
unfolding better
best_of [] = panic
best_of (quote ∷ quotes) = ok (better quote quotes)

unfoldable pub get_best_quote : State → List QuoteRequest → Call (State × QuoteResponse)
unfolding get_quotes best_of
get_best_quote s requests = do
  r ← get_quotes s requests
  best ← best_of r.1
  ok (publish r.0 (Event.best_quote_selected best.route best.amount_out), best)

-- A quote that fails is skipped, and else comes after those that are at least as large.
abbrev pub insert_quote :
    State → List QuoteResponse → Call (State × QuoteResponse) → Call (State × List QuoteResponse)
insert_quote s sorted (ok (t, response)) = ok (
  t,
  insert_nth sorted
      (find_insertion_index sorted (λ quote. ltb_ℤ quote.amount_out response.amount_out)) response,
)
insert_quote s sorted (err e) = ok (s, sorted)
insert_quote s sorted panic = panic

-- The loop of `get_quotes_sorted`.
unfoldable pub quote_sorted :
    State → List QuoteResponse → List QuoteRequest → Call (State × List QuoteResponse)
unfolding get_quote
quote_sorted s sorted [] = ok (s, sorted)
quote_sorted s sorted (request ∷ requests) =
    insert_quote s sorted (get_quote s request) >>= λ (r : State × List QuoteResponse).
    quote_sorted r.0 r.1 requests

unfoldable pub get_quotes_sorted : State → List QuoteRequest → Call (State × List QuoteResponse)
unfolding quote_sorted
get_quotes_sorted s requests = do
  fail_if (is_empty requests) QuoteError.no_quotes_provided
  fail_if (not (is_some s.admin)) QuoteError.not_initialized
  quote_sorted s [] requests
