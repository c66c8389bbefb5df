-- ===== src/Quote/Best.antt =====
-- `get_best_quote` of contracts/router-quote/src/lib.rs.
use stellar_router.Prelude.{
  ℕ, zero, suc, ◌<◌, ◌++◌, true, false, ◌≡◌, refl, sym, ap, ◌∙◌, inl, inr, arith, some, List, [],
  ◌∷◌, length, length-append, if◌then◌else◌, Bool-cases,
}
use mathlib.Core.Path.{subst}
use stellar_router.Prelude.Sequence.{get_elem?}
use stellar_router.Common.{ok, ◌>>=◌}
use stellar_router.Common.Holds.{Holds, Holds-ok, bind-Holds, ok-Holds}
use stellar_router.Quote
use stellar_router.Quote.{
  ℤ, pos, negsuc, ltb_ℤ, QuoteRequest, QuoteResponse, QuoteError, Call, Event, publish,
}
use stellar_router.Quote.Quotes.{get_quote, quote_each, get_quotes, better, best_of, get_best_quote}

abbrev State : Type 0
State = Quote.Quote

ltb_step : (a b c : ℤ) → ltb_ℤ a b ≡ true → ltb_ℤ c b ≡ false → ltb_ℤ a c ≡ true
ltb_step (pos a) (pos b) (pos c) h k = ground arith
ltb_step (pos a) (pos b) (negsuc c) h k = absurd (ground arith)
ltb_step (pos a) (negsuc b) c h k = absurd (ground arith)
ltb_step (negsuc a) (pos b) (pos c) h k = refl
ltb_step (negsuc a) (pos b) (negsuc c) h k = absurd (ground arith)
ltb_step (negsuc a) (negsuc b) (pos c) h k = refl
ltb_step (negsuc a) (negsuc b) (negsuc c) h k = ground arith

ltb_back : (a b c : ℤ) → ltb_ℤ a b ≡ false → ltb_ℤ a c ≡ true → ltb_ℤ b c ≡ true
ltb_back (pos a) (pos b) (pos c) h k = ground arith
ltb_back (pos a) (pos b) (negsuc c) h k = absurd (ground arith)
ltb_back (pos a) (negsuc b) (pos c) h k = refl
ltb_back (pos a) (negsuc b) (negsuc c) h k = absurd (ground arith)
ltb_back (negsuc a) (pos b) c h k = absurd (ground arith)
ltb_back (negsuc a) (negsuc b) (pos c) h k = refl
ltb_back (negsuc a) (negsuc b) (negsuc c) h k = ground arith

ltb_asym : (a b : ℤ) → ltb_ℤ a b ≡ true → ltb_ℤ b a ≡ false
ltb_asym (pos a) (pos b) h = ground arith
ltb_asym (pos a) (negsuc b) h = absurd (ground arith)
ltb_asym (negsuc a) (pos b) h = refl
ltb_asym (negsuc a) (negsuc b) h = ground arith

ltb_irrefl : (a : ℤ) → ltb_ℤ a a ≡ false
ltb_irrefl (pos a) = ground arith
ltb_irrefl (negsuc a) = ground arith

-- The first of the quotes with the greatest output.
pub record IsFirstBest (quotes : List QuoteResponse) (best : QuoteResponse) : Type 0 where
  pub place : ℕ
  pub found : get_elem? quotes place ≡ some best
  pub greatest :
      (j : ℕ) (q : QuoteResponse)
      → get_elem? quotes j ≡ some q
      → ltb_ℤ best.amount_out q.amount_out ≡ false
  pub first :
      (j : ℕ) (q : QuoteResponse)
      → j < place
      → get_elem? quotes j ≡ some q
      → ltb_ℤ q.amount_out best.amount_out ≡ true

module _ {κ} (P : QuoteResponse → Type κ) (x : QuoteResponse) (xs : List QuoteResponse)
    (px : P x) where
  -- What holds at the head and at every place behind it.
  at_cons :
      ((k : ℕ) (q : QuoteResponse) → get_elem? xs k ≡ some q → P q)
      → (j : ℕ) (q : QuoteResponse) → get_elem? (x ∷ xs) j ≡ some q
      → P q
  at_cons f zero q e = let same : x ≡ q = ground arith in subst P same px
  at_cons f (suc k) q e = f k q e

  before_cons :
      (n : ℕ)
      → ((k : ℕ) (q : QuoteResponse) → k < n → get_elem? xs k ≡ some q → P q)
      → (j : ℕ) (q : QuoteResponse) → j < suc n
      → get_elem? (x ∷ xs) j ≡ some q
      → P q
  before_cons n f zero q l e = let same : x ≡ q = ground arith in subst P same px
  before_cons n f (suc k) q l e = f k q (omega arith) e

module _ (best quote r : QuoteResponse) (quotes : List QuoteResponse) where
  abbrev Below : QuoteResponse → Type 0
  Below q = ltb_ℤ q.amount_out r.amount_out ≡ true

  abbrev NotAbove : QuoteResponse → Type 0
  NotAbove q = ltb_ℤ r.amount_out q.amount_out ≡ false

  -- A greater quote after the best so far.
  overtaken :
      ltb_ℤ best.amount_out quote.amount_out ≡ true
      → IsFirstBest (quote ∷ quotes) r
      → IsFirstBest (best ∷ quote ∷ quotes) r
  overtaken h f =
      let lt : ltb_ℤ best.amount_out r.amount_out ≡ true =
        ltb_step best.amount_out quote.amount_out r.amount_out h (f.greatest 0 quote refl) in
      record {
        place = suc f.place;
        found = f.found;
        greatest =
            at_cons NotAbove best (quote ∷ quotes) (ltb_asym best.amount_out r.amount_out lt)
              f.greatest;
        first = before_cons Below best (quote ∷ quotes) lt f.place f.first;
      }

  module _ (h : ltb_ℤ best.amount_out quote.amount_out ≡ false) where
    not_above : NotAbove best → NotAbove quote
    not_above k = elim (Bool-cases (ltb_ℤ r.amount_out quote.amount_out)) [
      | inl t ↦ absurd (ground (arith, ltb_step r.amount_out quote.amount_out best.amount_out t h))
      | inr f ↦ f
    ]

    -- A quote that is not greater, by the place of the best one.
    kept_at :
        (p : ℕ)
        → get_elem? (best ∷ quotes) p ≡ some r
        → ((j : ℕ) (q : QuoteResponse) → get_elem? (best ∷ quotes) j ≡ some q → NotAbove q)
        → ((j : ℕ) (q : QuoteResponse) → j < p → get_elem? (best ∷ quotes) j ≡ some q → Below q)
        → IsFirstBest (best ∷ quote ∷ quotes) r
    kept_at zero e g b = record {
      place = zero;
      found = e;
      greatest =
          at_cons NotAbove best (quote ∷ quotes) (g 0 best refl)
            (at_cons NotAbove quote quotes (not_above (g 0 best refl)) (λ k q x. g (suc k) q x));
      first = λ j q l x. absurd (omega arith);
    }
    kept_at (suc p) e g b =
        let lt : ltb_ℤ best.amount_out r.amount_out ≡ true = b 0 best (omega arith) refl in
        record {
          place = suc (suc p);
          found = e;
          greatest =
              at_cons NotAbove best (quote ∷ quotes) (g 0 best refl) (
                at_cons NotAbove quote quotes (not_above (g 0 best refl)) (λ k q x. g (suc k) q x));
          first = before_cons Below best (quote ∷ quotes) lt (suc p) (
              before_cons Below quote quotes
                (ltb_back best.amount_out quote.amount_out r.amount_out h lt) p
                (λ k q l x. b (suc k) q (omega arith) x));
        }

better-IsFirstBest :
    (quotes : List QuoteResponse) (best : QuoteResponse)
    → IsFirstBest (best ∷ quotes) (better best quotes)
unfolding better
better-IsFirstBest [] best = record {
  place = 0;
  found = refl;
  greatest =
      at_cons (λ q. ltb_ℤ best.amount_out q.amount_out ≡ false) best [] (ltb_irrefl best.amount_out)
        (λ k q e. absurd (ground arith));
  first = λ j q l e. absurd (omega arith);
}
better-IsFirstBest (quote ∷ quotes) best =
    elim (Bool-cases (ltb_ℤ best.amount_out quote.amount_out)) [
      | inl t ↦
          subst
            (λ b. IsFirstBest (best ∷ quote ∷ quotes) (better (if b then quote else best) quotes))
            (sym t)
            (overtaken best quote (better quote quotes) quotes t (better-IsFirstBest quotes quote))
      | inr f ↦
          let i : IsFirstBest (best ∷ quotes) (better best quotes) =
            better-IsFirstBest quotes best in
          subst
            (λ b. IsFirstBest (best ∷ quote ∷ quotes) (better (if b then quote else best) quotes))
            (sym f)
            (kept_at best quote (better best quotes) quotes f i.place i.found i.greatest i.first)
    ]

-- A batch of quotes that succeeds has a quote.
quote_each-positive :
    (requests : List QuoteRequest) (s : State) (responses : List QuoteResponse)
    → 0 < length responses
    → Holds (λ (r : State × List QuoteResponse). 0 < length r.1) (quote_each s responses requests)
unfolding quote_each
quote_each-positive [] s responses h = h
quote_each-positive (request ∷ requests) s responses h =
    bind-Holds (λ r. Unit {0}) (λ (r : State × List QuoteResponse). 0 < length r.1)
      (get_quote s request)
      (λ (r : State × QuoteResponse). quote_each r.0 (responses ++ r.1 ∷ []) requests)
      (ok-Holds _ _ (λ r e. tt))
      (λ r u.
        quote_each-positive requests r.0 (responses ++ r.1 ∷ [])
          (omega (arith, length-append responses (r.1 ∷ []))))

get_quotes-positive :
    (requests : List QuoteRequest) (s : State)
    → Holds (λ (r : State × List QuoteResponse). 0 < length r.1) (get_quotes s requests)
unfolding get_quotes quote_each
get_quotes-positive [] s = tt
get_quotes-positive (request ∷ requests) s =
    bind-Holds (λ r. Unit {0}) (λ (r : State × List QuoteResponse). 0 < length r.1)
      (get_quote s request) (λ (r : State × QuoteResponse). quote_each r.0 (r.1 ∷ []) requests)
      (ok-Holds _ _ (λ r e. tt)) (λ r u. quote_each-positive requests r.0 (r.1 ∷ []) (omega arith))

best_of-IsFirstBest :
    (quotes : List QuoteResponse)
    → 0 < length quotes
    → (best : QuoteResponse) × (best_of quotes ≡ ok best) × IsFirstBest quotes best
unfolding best_of
best_of-IsFirstBest [] h = elim h [ ]
best_of-IsFirstBest (quote ∷ quotes) h =
    (better quote quotes, refl, better-IsFirstBest quotes quote)

-- Where `get_quotes` gives quotes, `get_best_quote` gives the first of those with the greatest output, and
-- publishes it after the events of the quotes; it does not panic.
pub get_best_quote-IsFirstBest :
    (s t : State) (requests : List QuoteRequest) (quotes : List QuoteResponse)
    → get_quotes s requests ≡ ok (t, quotes)
    → (best : QuoteResponse) × (get_best_quote s requests
        ≡ ok (publish t (Event.best_quote_selected best.route best.amount_out), best))
      × IsFirstBest quotes best
unfolding get_best_quote
get_best_quote-IsFirstBest s t requests quotes h =
    let finish : State → QuoteResponse → Call (State × QuoteResponse) =
      λ u best. ok (publish u (Event.best_quote_selected best.route best.amount_out), best) in
    let next : State × List QuoteResponse → Call (State × QuoteResponse) =
      λ r. best_of r.1 >>= finish r.0 in
    let (best, e, f) = best_of-IsFirstBest quotes (
      Holds-ok (λ (r : State × List QuoteResponse). 0 < length r.1) (get_quotes s requests)
        (t, quotes) (get_quotes-positive requests s) h) in
    (best, ap (λ m. m >>= next) h ∙ ap (λ m. m >>= finish t) e, f)
