-- ===== src/Quote/Tests.antt =====
-- Runs of router-quote, and its theorems at concrete inputs.
use stellar_router.Prelude.{ℕ, true, some, List, [], ◌∷◌, ◌≡◌, refl, arith}
use stellar_router.Common.{Env, ok}
use stellar_router.Quote
use stellar_router.Quote.{ℤ, pos, FeeTier, QuoteRequest, QuoteResponse, Event, publish, deployed}
use stellar_router.Quote.Fees
use stellar_router.Quote.Quotes.{get_quote, get_quotes, get_best_quote}
use stellar_router.Quote.Price.{Request, priced_by, Priced, get_quote-Priced}
use stellar_router.Quote.Best.{IsFirstBest, get_best_quote-IsFirstBest}

abbrev State : Type 0
State = Quote.Quote

abbrev signed : Env
signed = record { timestamp = 0; authorized = λ a. true }

abbrev tier : ℕ → ℕ → FeeTier
tier least fee_bps = record { min_amount = pos least; fee_bps = fee_bps }

-- A default fee of 1%, and two tiers for the route 5, given out of order.
abbrev past : List (Env × Request)
past =
    (signed, Request.initialize 1 100)
    ∷ (signed, Request.set_route_fee_tiers 1 5 (tier 1000 30 ∷ tier 100 50 ∷ []))
    ∷ []

abbrev present : State
present = priced_by past deployed

abbrev request : ℕ → ℕ → QuoteRequest
request route amount = record { route = route; token_in = 8; token_out = 9; amount_in = pos amount }

abbrev quote : ℕ → ℕ → ℕ → ℕ → ℕ → QuoteResponse
quote route amount out fee bps = record {
  route = route;
  token_in = 8;
  token_out = 9;
  amount_in = pos amount;
  amount_out = pos out;
  fee_amount = pos fee;
  fee_bps = bps;
}

-- The storage after quotes of the route 5 and of the route 6 for 2000.
abbrev asked : State
asked =
    publish (publish present (Event.quote_calculated 5 (pos 1994) (pos 6)))
      (Event.quote_calculated 6 (pos 1980) (pos 20))

present-admin : present.admin ≡ some 1
unfolding priced_by Fees.initialize Fees.set_route_fee_tiers
present-admin = refl

quotes_run :
    get_quotes present (request 5 2000 ∷ request 6 2000 ∷ [])
    ≡ ok (asked, quote 5 2000 1994 6 30 ∷ quote 6 2000 1980 20 100 ∷ [])
unfolding priced_by Fees.initialize Fees.set_route_fee_tiers get_quotes get_quote
quotes_run = refl

get_quote-Priced_example :
    (t : State) × (q : QuoteResponse) × (get_quote present (request 5 2000) ≡ ok (t, q))
    × Priced 2000 q
get_quote-Priced_example =
    get_quote-Priced past 1 (request 5 2000) 2000 present-admin refl (omega arith) (omega arith)

get_best_quote-IsFirstBest_example :
    (best : QuoteResponse) × (get_best_quote present (request 5 2000 ∷ request 6 2000 ∷ [])
      ≡ ok (publish asked (Event.best_quote_selected best.route best.amount_out), best))
    × IsFirstBest (quote 5 2000 1994 6 30 ∷ quote 6 2000 1980 20 100 ∷ []) best
get_best_quote-IsFirstBest_example =
    get_best_quote-IsFirstBest present asked (request 5 2000 ∷ request 6 2000 ∷ [])
      (quote 5 2000 1994 6 30 ∷ quote 6 2000 1980 20 100 ∷ []) quotes_run
