-- ===== src/Middleware/PreCall.antt =====
-- `pre_call` of router-middleware keeps the storage well formed, and never leaves its guard set.
use stellar_router.Prelude.{
  ℕ, true, false, not, Option, none, some, ◌≡◌, sym, ap, ◌∙◌, inl, inr, arith, unwrap_or, insert,
  insert-cases, remove,
}
use mathlib.Core.Path.{subst}
use stellar_router.Common.{Address, Env, ok, ◌>>=◌, ◌>>◌, fail_if, require_auth, add_u64}
use stellar_router.Common.Holds.{bind-Holds, then-Holds, ok-Holds}
use stellar_router.Middleware
use stellar_router.Middleware.{
  Route, RouteConfig, RouteCallState, MiddlewareError, Call, Event, publish,
}
use stellar_router.Middleware.CallLog.{empty_log}
use stellar_router.Middleware.Calls.{check_route, store_state, is_enabled_route, pre_call}
use stellar_router.Middleware.Ring.{IsRing}
use stellar_router.Middleware.Invariant.{IsValid, Keeps}
use stellar_router.Middleware.Hooks.{IsApart, Checked, check_route-keeps, stored-IsApart}

abbrev State : Type 0
State = Middleware.Middleware

-- The storage while the hook runs.
abbrev pub guarded : State → Route → State
guarded s route = record s { executing = insert s.executing route true }

-- The storage that the hook leaves.
abbrev pub finished : State → Address → Route → ℕ → State
finished s caller route total =
    let t = publish (record s { total_calls = some total }) (Event.pre_call caller route) in
    record t { executing = remove t.executing route }

module _ (s : State) (v : IsValid s) (caller : Address) (route : Route) where
  finished-IsValid :
      (t : State)
      → t.executing ≡ insert s.executing route true
      → ((r : Route) (st : RouteCallState) → t.route_call_state r ≡ some st → IsApart st)
      → t.route_config ≡ s.route_config
      → t.call_log ≡ s.call_log
      → (total : ℕ) → IsValid (finished t caller route total)
  finished-IsValid t f a c l total = record {
    free = λ r. ground (arith, ap (λ m. m r) f, v.free r);
    apart = a;
    ring = λ r config e p.
        subst (λ (m : Route → Option _). IsRing config.log_retention (unwrap_or (m r) empty_log))
          (sym l) (v.ring r config (ap (λ m. m r) (sym c) ∙ e) p);
  }

  stored-keeps :
      (t : State) (o : Option RouteCallState)
      → Checked (guarded s route) (o, t)
      → (total : ℕ) → IsValid (finished (store_state t route o) caller route total)
  stored-keeps t none (c, l) total =
      finished-IsValid t l.executing
        (λ r st e. v.apart r st (ap (λ m. m r) (sym l.route_call_state) ∙ e)) l.route_config
        l.call_log total
  stored-keeps t (some st) (c, l) total =
      finished-IsValid (store_state t route (some st)) l.executing
        (λ r st' e. elim (insert-cases t.route_call_state route st r st' e) [
          | inl (er, es) ↦ subst IsApart es c
          | inr (n, e') ↦ v.apart r st' (ap (λ m. m r) (sym l.route_call_state) ∙ e')
        ])
        l.route_config l.call_log total

pub pre_call-IsValid :
    (s : State)
    → IsValid s
    → (env : Env) (caller : Address) (route : Route) → Keeps (pre_call env s caller route)
unfolding pre_call
pre_call-IsValid s v env caller route =
    let s₁ = guarded s route in
    let auth : Call (Unit {0}) = require_auth env caller in
    let busy : Call (Unit {0}) =
      fail_if (unwrap_or (s.executing route) false) MiddlewareError.reentrancy in
    let off : State → Call (Unit {0}) =
      λ t. fail_if (not (unwrap_or t.global_enabled true)) MiddlewareError.middleware_disabled in
    let disabled : State → Call (Unit {0}) =
      λ t. fail_if (not (is_enabled_route (t.route_config route))) MiddlewareError.route_disabled in
    let count : State → Call ℕ = λ t. add_u64 (unwrap_or t.total_calls 0) 1 in
    let last : State → ℕ → Call State = λ t total. ok (finished t caller route total) in
    let end : State → Call State = λ t. count t >>= last t in
    let rest : Option RouteCallState × State → Call State =
      λ r. off r.1 >> (disabled r.1 >> end (store_state r.1 route r.0)) in
    let checks = check_route env s₁ caller route (s.route_config route) in
    then-Holds IsValid auth (busy >> (off s₁ >> (checks >>= rest))) (
      then-Holds IsValid busy (off s₁ >> (checks >>= rest)) (
        then-Holds IsValid (off s₁) (checks >>= rest) (
          bind-Holds (Checked s₁) IsValid checks rest
            (check_route-keeps env s₁ caller route (s.route_config route)
              (stored-IsApart s (s.route_call_state route) (v.apart route)))
            (λ r h. then-Holds IsValid (off r.1) (disabled r.1 >> end (store_state r.1 route r.0)) (
              then-Holds IsValid (disabled r.1) (end (store_state r.1 route r.0)) (
                bind-Holds (λ _. Unit {0}) IsValid (count (store_state r.1 route r.0))
                  (last (store_state r.1 route r.0)) (ok-Holds _ _ (λ n e. tt))
                  (λ n u. stored-keeps s v caller route r.1 r.0 h n)))))))
