-- ===== src/Quote/Price.antt =====
-- The quotes of router-quote after any history of calls.
use stellar_router.Prelude.{
  ℕ, ◌+◌, ◌-◌, ◌*◌, ◌/◌, ◌≤◌, ◌<◌, true, false, ◌≡◌, refl, sym, ap, ◌∙◌, inl, inr, arith, Option,
  none, some, List, [], ◌∷◌, ltb, leb, if◌then◌else◌, is_some, unwrap_or, Bool-cases, Option-cases,
  All,
}
use mathlib.Core.Path.{subst}
use stellar_router.Common.{Address, Env, ok, err, panic, ◌>>=◌, ◌>>◌, fail_if, ok_or}
use stellar_router.Quote
use stellar_router.Quote.{
  Route, ℤ, pos, negsuc, leb_ℤ, minus, i128_limit, FeeTier, QuoteRequest, QuoteResponse, QuoteError,
  Call, Event, publish, deployed, bps_denominator,
}
use stellar_router.Quote.Fees
use stellar_router.Quote.Fees.{
  fee_or, get_default_fee, get_route_fee, get_route_fee_tiers, matching_fee, resolve_route_fee_bps,
}
use stellar_router.Quote.Quotes.{fee_of, less_fee, get_quote}
use stellar_router.Quote.Invariant.{
  IsShare, IsValid, Keeps, deployed-IsValid, initialize-IsValid, set_route_fee-IsValid,
  unset_route_fee-IsValid, set_route_fee_tiers-IsValid, set_default_fee-IsValid,
  transfer_admin-IsValid,
}

abbrev State : Type 0
State = Quote.Quote

-- A fee that is a share of the whole.
abbrev Shares : Call ℕ → Type 0
Shares m = (f : ℕ) × (m ≡ ok f) × (f ≤ 10000)

module _ (s : State) (v : IsValid s) (a : Address) (h : s.admin ≡ some a) where
  get_route_fee-Shares : (route : Route) → Shares (get_route_fee s route)
  unfolding get_route_fee get_default_fee
  get_route_fee-Shares route = elim (Option-cases (s.route_fee route)) [
    | inl e ↦
        let (f, d) = v.started a h in
        (
          f,
          ap (λ o. fee_or o (get_default_fee s)) e ∙ ap (λ o. ok_or o QuoteError.not_initialized) d,
          v.default_bound f d,
        )
    | inr (f, e) ↦ (f, ap (λ o. fee_or o (get_default_fee s)) e, v.route_bound route f e)
  ]

  -- The fee of the last tier that matches, or the fee so far.
  matching_fee-Shares :
      (route : Route) (amount : ℤ) (tiers : List FeeTier) (fee : Option ℕ)
      → All IsShare tiers
      → Shares (fee_or fee (get_route_fee s route))
      → Shares (fee_or (matching_fee amount fee tiers) (get_route_fee s route))
  unfolding matching_fee
  matching_fee-Shares route amount [] fee b k = k
  matching_fee-Shares route amount (tier ∷ tiers) fee b k =
      let rest : Option ℕ = matching_fee amount (some tier.fee_bps) tiers in
      elim (Bool-cases (leb_ℤ tier.min_amount amount)) [
        | inl t ↦
            subst (λ c. Shares (fee_or (if c then rest else fee) (get_route_fee s route))) (sym t)
              (matching_fee-Shares route amount tiers (some tier.fee_bps) b.1
                (tier.fee_bps, refl, b.0))
        | inr f ↦
            subst (λ c. Shares (fee_or (if c then rest else fee) (get_route_fee s route))) (sym f) k
      ]

  tiers-All : (route : Route) → All IsShare (unwrap_or (s.route_fee_tiers route) [])
  tiers-All route = elim (Option-cases (s.route_fee_tiers route)) [
    | inl e ↦ subst (λ o. All IsShare (unwrap_or o [])) (sym e) tt
    | inr (ts, e) ↦ subst (λ o. All IsShare (unwrap_or o [])) (sym e) (v.tier_bound route ts e)
  ]

  resolve_route_fee_bps-Shares :
      (route : Route) (amount : ℤ) → Shares (resolve_route_fee_bps s route amount)
  unfolding resolve_route_fee_bps get_route_fee_tiers
  resolve_route_fee_bps-Shares route amount =
      let tiers : List FeeTier = unwrap_or (s.route_fee_tiers route) [] in
      let next : List FeeTier → Call ℕ =
        λ ts. fee_or (matching_fee amount none ts) (get_route_fee s route) in
      subst
        (λ o. Shares ((if is_some o then ok tiers else err QuoteError.not_initialized) >>= next))
        (sym h)
        (matching_fee-Shares route amount tiers none (tiers-All route) (get_route_fee-Shares route))

-- A quote for `n`: the fee is the share of `n`, rounded down, and the rest comes out.
pub record Priced (n : ℕ) (q : QuoteResponse) : Type 0 where
  pub share : q.fee_bps ≤ 10000
  pub amount : q.amount_in ≡ pos n
  pub fee : q.fee_amount ≡ pos (n * q.fee_bps / 10000)
  pub out : ℕ
  pub out_amount : q.amount_out ≡ pos out
  pub conserved : out + n * q.fee_bps / 10000 ≡ n

below : (n f d : ℕ) → f + d ≡ 10000 → n * f + n * d ≡ n * 10000
below n f d h = grind (arith, ap (λ (k : ℕ). n * k) h)

fee-le : (n f : ℕ) → f ≤ 10000 → n * f / 10000 ≤ n
fee-le n f b = omega (arith, below n f (10000 - f) (omega arith))

-- The calls that change the fees, with their arguments. A quote publishes an event and writes no fee.
pub data Request : Type 0 where
  initialize : Address → ℕ → Request
  set_route_fee : Address → Route → ℕ → Request
  unset_route_fee : Address → Route → Request
  set_route_fee_tiers : Address → Route → List FeeTier → Request
  set_default_fee : Address → ℕ → Request
  transfer_admin : Address → Address → Request

abbrev pub call : Env → Request → State → Call State
call env (initialize admin fee) s = Fees.initialize s admin fee
call env (set_route_fee caller route fee) s = Fees.set_route_fee env s caller route fee
call env (unset_route_fee caller route) s = Fees.unset_route_fee env s caller route
call env (set_route_fee_tiers caller route tiers) s =
    Fees.set_route_fee_tiers env s caller route tiers
call env (set_default_fee caller fee) s = Fees.set_default_fee env s caller fee
call env (transfer_admin current new_admin) s = Fees.transfer_admin env s current new_admin

-- The storage after a call: the host rolls a failed call back.
abbrev pub settle : State → Call State → State
settle s (ok t) = t
settle s (err e) = s
settle s panic = s

unfoldable pub priced_by : List (Env × Request) → State → State
priced_by [] s = s
priced_by ((env, r) ∷ rs) s = priced_by rs (settle s (call env r s))

call-IsValid : (env : Env) (r : Request) (s : State) → IsValid s → Keeps (call env r s)
call-IsValid env (initialize admin fee) s v = initialize-IsValid s v admin fee
call-IsValid env (set_route_fee caller route fee) s v =
    set_route_fee-IsValid s v env caller route fee
call-IsValid env (unset_route_fee caller route) s v = unset_route_fee-IsValid s v env caller route
call-IsValid env (set_route_fee_tiers caller route tiers) s v =
    set_route_fee_tiers-IsValid s v env caller route tiers
call-IsValid env (set_default_fee caller fee) s v = set_default_fee-IsValid s v env caller fee
call-IsValid env (transfer_admin current new_admin) s v =
    transfer_admin-IsValid s v env current new_admin

settle-IsValid : (s : State) (m : Call State) → IsValid s → Keeps m → IsValid (settle s m)
settle-IsValid s (ok t) v k = k
settle-IsValid s (err e) v k = v
settle-IsValid s panic v k = v

priced_by-IsValid : (rs : List (Env × Request)) (s : State) → IsValid s → IsValid (priced_by rs s)
unfolding priced_by
priced_by-IsValid [] s v = v
priced_by-IsValid ((env, r) ∷ rs) s v =
    priced_by-IsValid rs (settle s (call env r s))
      (settle-IsValid s (call env r s) v (call-IsValid env r s v))

narrow : (n f : ℕ) → f ≤ 10000 → n * 10000 < i128_limit → ltb (n * f) i128_limit ≡ true
narrow n f b l = ground (arith, below n f (10000 - f) (omega arith))

priced_out : (n f : ℕ) → f ≤ 10000 → minus n (n * f / 10000) ≡ pos (n - n * f / 10000)
priced_out n f b = ground (arith, fee-le n f b)

not_zero : (n : ℕ) → 0 < n → leb n 0 ≡ false
not_zero n h = ground arith

module _ (s : State) (request : QuoteRequest) (n : ℕ) (e : request.amount_in ≡ pos n) where
  abbrev quoted : ℕ → QuoteResponse
  quoted f = record {
    route = request.route;
    token_in = request.token_in;
    token_out = request.token_out;
    amount_in = request.amount_in;
    amount_out = less_fee request.amount_in (n * f / 10000);
    fee_amount = pos (n * f / 10000);
    fee_bps = f;
  }

  abbrev announced : ℕ → State
  announced f = publish s (
      Event.quote_calculated request.route (less_fee request.amount_in (n * f / 10000))
        (pos (n * f / 10000)))

  get_quote-quoted :
      (f : ℕ)
      → 0 < n
      → resolve_route_fee_bps s request.route request.amount_in ≡ ok f
      → fee_of (pos n) f ≡ some (n * f / 10000)
      → get_quote s request ≡ ok (announced f, quoted f)
  unfolding get_quote
  get_quote-quoted f p r o =
      let finish : ℕ → ℕ → Call (State × QuoteResponse) = λ bps fee. ok (
        publish s (Event.quote_calculated request.route (less_fee request.amount_in fee) (pos fee)),
        record {
          route = request.route;
          token_in = request.token_in;
          token_out = request.token_out;
          amount_in = request.amount_in;
          amount_out = less_fee request.amount_in fee;
          fee_amount = pos fee;
          fee_bps = bps;
        },
      ) in
      let next : ℕ → Call (State × QuoteResponse) =
        λ bps. ok_or (fee_of request.amount_in bps) QuoteError.arithmetic_overflow >>= finish bps in
      ap
        (λ b.
          fail_if b QuoteError.invalid_amount
          >> (resolve_route_fee_bps s request.route request.amount_in >>= next))
        (ap (λ a. leb_ℤ a (pos 0)) e ∙ not_zero n p)
      ∙ ap (λ m. m >>= next) r
      ∙ ap (λ m. ok_or m QuoteError.arithmetic_overflow >>= finish f) (ap (λ a. fee_of a f) e ∙ o)

-- After any history of calls on a new contract that leaves it with an administrator, a quote for a positive
-- amount is given, if ten thousand times the amount fits in 128 bits: its fee is the share of the amount
-- that its basis points say, at most the whole, rounded down, and fee and output add up to the amount.
pub get_quote-Priced :
    (rs : List (Env × Request)) (a : Address) (request : QuoteRequest) (n : ℕ)
    → (priced_by rs deployed).admin ≡ some a
    → request.amount_in ≡ pos n
    → 0 < n
    → n * 10000 < i128_limit
    → (t : State) × (q : QuoteResponse) × (get_quote (priced_by rs deployed) request ≡ ok (t, q))
      × Priced n q
get_quote-Priced rs a request n h e p l =
    let s : State = priced_by rs deployed in
    let v : IsValid s = priced_by-IsValid rs deployed deployed-IsValid in
    let (f, r, b) = resolve_route_fee_bps-Shares s v a h request.route request.amount_in in
    (
      announced s request n e f,
      quoted s request n e f,
      get_quote-quoted s request n e f p r
          (ap (λ c. if c then some (n * f / 10000) else none) (narrow n f b l)),
      record {
        share = b;
        amount = e;
        fee = refl;
        out = n - n * f / 10000;
        out_amount = ap (λ x. less_fee x (n * f / 10000)) e ∙ priced_out n f b;
        conserved = omega (arith, fee-le n f b);
      },
    )
