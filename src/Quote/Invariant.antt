-- ===== src/Quote/Invariant.antt =====
-- Every stored fee of router-quote is a share, and the calls keep it so.
use stellar_router.Prelude.{
  ℕ, zero, suc, ◌≤◌, ◌++◌, ◌≡◌, refl, sym, inl, inr, arith, Option, some, List, [], ◌∷◌, ◌==◌,
  if◌then◌else◌, is_some, insert, insert-cases, ltb, leb, length, contains, Bool-cases,
  Option-cases, All,
}
use mathlib.Core.Path.{subst}
use stellar_router.Common.{Address, Env, ok, ◌>>=◌, ◌>>◌, fail_if}
use stellar_router.Common.Holds.{Holds, bind-Holds, then-Holds, check-Holds}
use stellar_router.Quote
use stellar_router.Quote.{
  Route, ℤ, pos, ltb_ℤ, leb_ℤ, FeeTier, QuoteError, Call, Event, publish, deployed, bps_denominator,
  max_tracked_routes, max_fee_tiers_per_route,
}
use stellar_router.Quote.Fees
use stellar_router.Quote.Fees.{
  authorize, read_configured_routes, write_configured_routes, track_configured_route,
  find_insertion_index, insert_nth, sort_tiers,
}

abbrev State : Type 0
State = Quote.Quote

abbrev pub IsShare : FeeTier → Type 0
IsShare tier = tier.fee_bps ≤ 10000

-- Every fee is at most the whole, and a contract with an administrator has a default fee.
pub record IsValid (s : State) : Type 0 where
  pub default_bound : (f : ℕ) → s.default_fee ≡ some f → f ≤ 10000
  pub route_bound : (r : Route) (f : ℕ) → s.route_fee r ≡ some f → f ≤ 10000
  pub tier_bound : (r : Route) (ts : List FeeTier) → s.route_fee_tiers r ≡ some ts → All IsShare ts
  pub started : (a : Address) → s.admin ≡ some a → (f : ℕ) × (s.default_fee ≡ some f)

abbrev pub Keeps : Call State → Type 0
Keeps m = Holds IsValid m

pub deployed-IsValid : IsValid deployed
deployed-IsValid = record {
  default_bound = λ f h. absurd (ground arith);
  route_bound = λ r f h. absurd (ground arith);
  tier_bound = λ r ts h. absurd (ground arith);
  started = λ a h. absurd (ground arith);
}

insert_nth-All :
    (xs : List FeeTier) (i : ℕ) (a : FeeTier)
    → All IsShare xs
    → IsShare a
    → All IsShare (insert_nth xs i a)
insert_nth-All xs zero a h k = (k, h)
insert_nth-All [] (suc i) a h k = (k, tt)
insert_nth-All (x ∷ xs) (suc i) a h k = (h.0, insert_nth-All xs i a h.1 k)

sort_tiers-All :
    (tiers sorted : List FeeTier)
    → All IsShare sorted
    → Holds (All IsShare) (sort_tiers sorted tiers)
unfolding sort_tiers
sort_tiers-All [] sorted h = h
sort_tiers-All (tier ∷ tiers) sorted h =
    let position : ℕ = find_insertion_index sorted (λ t. ltb_ℤ tier.min_amount t.min_amount) in
    let rest : Call (List FeeTier) = sort_tiers (insert_nth sorted position tier) tiers in
    let below : Call (Unit {0}) =
      fail_if (ltb_ℤ tier.min_amount (pos 0)) QuoteError.invalid_fee_tier in
    let check : Call (Unit {0}) =
      fail_if (ltb bps_denominator tier.fee_bps) QuoteError.invalid_fee_bps in
    then-Holds (All IsShare) below (check >> rest) (
      check-Holds (All IsShare) check rest (λ c.
        sort_tiers-All tiers (insert_nth sorted position tier)
          (insert_nth-All sorted position tier h (ground arith))))

-- Neither the routes that are tracked nor the events matter.
module _ (s : State) (v : IsValid s) where
  pub untouched :
      (routes : Option (List Route)) (events : List Event)
      → IsValid (record s { configured_routes = routes; events = events })
  untouched routes events = record {
    default_bound = v.default_bound;
    route_bound = v.route_bound;
    tier_bound = v.tier_bound;
    started = v.started;
  }

  track_configured_route-IsValid : (route : Route) → Keeps (track_configured_route s route)
  unfolding track_configured_route
  track_configured_route-IsValid route =
      let check : Call (Unit {0}) =
        fail_if (leb max_tracked_routes (length (read_configured_routes s)))
          QuoteError.too_many_routes in
      let more : State = write_configured_routes s (read_configured_routes s ++ route ∷ []) in
      elim (Bool-cases (contains (read_configured_routes s) route)) [
        | inl b ↦ subst (λ c. Keeps (if c then ok s else (check >> ok more))) (sym b) v
        | inr b ↦
            subst (λ c. Keeps (if c then ok s else (check >> ok more))) (sym b)
              (then-Holds IsValid check (ok more)
                (untouched (some (read_configured_routes s ++ route ∷ [])) s.events))
      ]

fee_written :
    (s : State) (route : Route) (fee_bps : ℕ) (events : List Event)
    → IsValid s
    → fee_bps ≤ 10000
    → IsValid (record s { route_fee = insert s.route_fee route fee_bps; events = events })
fee_written s route fee_bps events v b = record {
  default_bound = v.default_bound;
  route_bound = λ r f h. elim (insert-cases s.route_fee route fee_bps r f h) [
    | inl (er, ef) ↦ omega arith
    | inr (n, h') ↦ v.route_bound r f h'
  ];
  tier_bound = v.tier_bound;
  started = v.started;
}

tiers_written :
    (s : State) (route : Route) (tiers : List FeeTier) (events : List Event)
    → IsValid s
    → All IsShare tiers
    → IsValid (record s { route_fee_tiers = insert s.route_fee_tiers route tiers; events = events })
tiers_written s route tiers events v b = record {
  default_bound = v.default_bound;
  route_bound = v.route_bound;
  tier_bound = λ r ts h. elim (insert-cases s.route_fee_tiers route tiers r ts h) [
    | inl (er, et) ↦ subst (All IsShare) et b
    | inr (n, h') ↦ v.tier_bound r ts h'
  ];
  started = v.started;
}

module _ (s : State) (v : IsValid s) where
  pub initialize-IsValid : (admin : Address) (fee : ℕ) → Keeps (Fees.initialize s admin fee)
  unfolding Fees.initialize
  initialize-IsValid admin fee =
      let new : Call (Unit {0}) = fail_if (is_some s.admin) QuoteError.already_initialized in
      let check : Call (Unit {0}) = fail_if (ltb bps_denominator fee) QuoteError.invalid_fee_bps in
      let rest : Call State = ok (
        publish (record s { admin = some admin; default_fee = some fee })
          (Event.initialized admin fee)) in
      then-Holds IsValid new (check >> rest) (
        check-Holds IsValid check rest (λ c. record {
          default_bound = λ f h. ground arith;
          route_bound = v.route_bound;
          tier_bound = v.tier_bound;
          started = λ a h. (fee, refl);
        }))

  module _ (env : Env) (caller : Address) where
    pub set_route_fee-IsValid :
        (route : Route) (fee : ℕ) → Keeps (Fees.set_route_fee env s caller route fee)
    unfolding Fees.set_route_fee
    set_route_fee-IsValid route fee =
        let check : Call (Unit {0}) =
          fail_if (ltb bps_denominator fee) QuoteError.invalid_fee_bps in
        let finish : State → Call State = λ t. ok (
          publish (record t { route_fee = insert t.route_fee route fee })
            (Event.route_fee_set route fee)) in
        let rest : Call State = track_configured_route s route >>= finish in
        then-Holds IsValid (authorize env s caller) (check >> rest) (
          check-Holds IsValid check rest (λ c.
            bind-Holds IsValid IsValid (track_configured_route s route) finish
              (track_configured_route-IsValid s v route)
              (λ t w.
                fee_written t route fee (t.events ++ Event.route_fee_set route fee ∷ []) w
                  (ground arith))))

    pub unset_route_fee-IsValid : (route : Route) → Keeps (Fees.unset_route_fee env s caller route)
    unfolding Fees.unset_route_fee
    unset_route_fee-IsValid route = then-Holds IsValid (authorize env s caller) (ok _) (record {
      default_bound = v.default_bound;
      route_bound = λ r f h. ground (arith, v.route_bound r f);
      tier_bound = λ r ts h. elim (Bool-cases (r == route)) [
        | inl t ↦ absurd (ground arith)
        | inr f ↦ v.tier_bound r ts (ground arith)
      ];
      started = v.started;
    })

    pub set_route_fee_tiers-IsValid :
        (route : Route) (tiers : List FeeTier)
        → Keeps (Fees.set_route_fee_tiers env s caller route tiers)
    unfolding Fees.set_route_fee_tiers
    set_route_fee_tiers-IsValid route tiers =
        let check : Call (Unit {0}) =
          fail_if (ltb max_fee_tiers_per_route (length tiers)) QuoteError.too_many_tiers in
        let finish : List FeeTier → State → Call State = λ sorted t. ok (
          publish (record t { route_fee_tiers = insert t.route_fee_tiers route sorted })
            (Event.route_fee_tiers_set route sorted)) in
        let store : List FeeTier → Call State =
          λ sorted. track_configured_route s route >>= finish sorted in
        let rest : Call State = sort_tiers [] tiers >>= store in
        then-Holds IsValid (authorize env s caller) (check >> rest) (
          then-Holds IsValid check rest (
            bind-Holds (All IsShare) IsValid (sort_tiers [] tiers) store
              (sort_tiers-All tiers [] tt)
              (λ sorted b.
                bind-Holds IsValid IsValid (track_configured_route s route) (finish sorted)
                  (track_configured_route-IsValid s v route)
                  (λ t w.
                    tiers_written t route sorted
                      (t.events ++ Event.route_fee_tiers_set route sorted ∷ []) w b))))

    pub set_default_fee-IsValid : (fee : ℕ) → Keeps (Fees.set_default_fee env s caller fee)
    unfolding Fees.set_default_fee
    set_default_fee-IsValid fee =
        let check : Call (Unit {0}) =
          fail_if (ltb bps_denominator fee) QuoteError.invalid_fee_bps in
        let rest : Call State =
          ok (publish (record s { default_fee = some fee }) (Event.default_fee_updated fee)) in
        then-Holds IsValid (authorize env s caller) (check >> rest) (
          check-Holds IsValid check rest (λ c. record {
            default_bound = λ f h. ground arith;
            route_bound = v.route_bound;
            tier_bound = v.tier_bound;
            started = λ a h. (fee, refl);
          }))

    pub transfer_admin-IsValid : (admin : Address) → Keeps (Fees.transfer_admin env s caller admin)
    unfolding Fees.transfer_admin authorize
    transfer_admin-IsValid admin =
        let t : State =
          publish (record s { admin = some admin }) (Event.admin_transferred caller admin) in
        check-Holds IsValid (authorize env s caller) (ok t) (λ c. record {
          default_bound = v.default_bound;
          route_bound = v.route_bound;
          tier_bound = v.tier_bound;
          started = λ a h. elim (Option-cases s.admin) [
            | inl e ↦ absurd (ground arith)
            | inr (b, e) ↦ v.started b e
          ];
        })
