-- ===== src/Middleware/PostCall.antt =====
-- `post_call` of router-middleware keeps the storage well formed.
use stellar_router.Prelude.{
  Bool, true, false, ◌&&◌, Option, none, some, List, ◌≡◌, refl, ap, inl, inr, arith, ltb, ==→eq,
  ◌==◌, if◌then◌else◌, unwrap_or, insert, insert-cases,
}
use mathlib.Core.Path.{subst}
use stellar_router.Common.{Address, Env, ok, ◌>>=◌, require_auth}
use stellar_router.Common.Holds.{Holds, bind-Holds, then-Holds, if-Holds, ok-Holds}
use stellar_router.Middleware
use stellar_router.Middleware.{
  Route, RouteConfig, RouteCallState, CircuitBreakerState, CallLogEntry, CallLogState,
  CallLogSummary, Call, Event, publish,
}
use stellar_router.Middleware.CircuitBreaker.{
  default_route_call_state, handle_failure, handle_success,
}
use stellar_router.Middleware.CallLog.{append}
use stellar_router.Middleware.Calls.{publish_all, settle_breaker, post_call_route, post_call}
use stellar_router.Middleware.Ring.{IsRing}
use stellar_router.Middleware.Invariant.{IsValid, Keeps, if-IsRing}
use stellar_router.Middleware.Append.{append-Holds}
use stellar_router.Middleware.Hooks.{IsApart, stored-IsApart}

abbrev State : Type 0
State = Middleware.Middleware

-- What the append keeps besides the form of the storage.
abbrev Appends : State → State → Type 0
Appends s t = IsValid t × (t.route_call_state ≡ s.route_call_state)

same-retention :
    (s : State) (q route : Route) (config conf : RouteConfig)
    → s.route_config route ≡ some config
    → s.route_config q ≡ some conf
    → q ≡ route
    → config.log_retention ≡ conf.log_retention
same-retention s q route config conf c e h = ground (arith, ap s.route_config h)

logged-IsValid :
    (s : State) (route : Route) (config : RouteConfig) (log : CallLogState) (sum : CallLogSummary)
    → IsValid s
    → s.route_config route ≡ some config
    → IsRing config.log_retention log
    → IsValid (record s {
      call_log = insert s.call_log route log;
      call_log_summary = insert s.call_log_summary route sum;
    })
logged-IsValid s route config log sum v c r = record {
  free = v.free;
  apart = v.apart;
  ring = λ q conf e p.
      if-IsRing (q == route) conf.log_retention (some log) (s.call_log q)
        (λ b.
          subst (λ n. IsRing n log) {y = conf.log_retention}
            (same-retention s q route config conf c e (==→eq q route b)) r)
        (λ b. v.ring q conf e p);
}

append-keeps :
    (env : Env) (s : State) (caller : Address) (route : Route) (success : Bool)
    (config : RouteConfig)
    → IsValid s
    → s.route_config route ≡ some config
    → Holds (Appends s) (append env s caller route success config)
append-keeps env s caller route success config v c =
    append-Holds env s caller route success config (Appends s) (λ p. v.ring route config c p)
      (λ z. (v, refl)) (λ log sum r. (logged-IsValid s route config log sum v c r.0, refl))

settle_breaker-IsApart :
    (env : Env) (route : Route) (config : RouteConfig) (success : Bool) (st : RouteCallState)
    → IsApart st
    → Holds
        (λ (r : CircuitBreakerState × List Event). r.0.is_open && r.0.is_half_open ≡ false)
        (settle_breaker env route config success st.circuit_breaker)
unfolding handle_success handle_failure
settle_breaker-IsApart env route config true st a = ground (arith, a)
settle_breaker-IsApart env route config false st a =
    ok-Holds (λ (r : CircuitBreakerState × List Event). r.0.is_open && r.0.is_half_open ≡ false)
      (settle_breaker env route config false st.circuit_breaker) (λ r e. ground (arith, a))

-- The route's state with a sound breaker is written back.
settled-IsValid :
    (s : State) (route : Route) (st : RouteCallState) (cb : CircuitBreakerState) (es : List Event)
    → IsValid s
    → cb.is_open && cb.is_half_open ≡ false
    → IsValid (record (publish_all s es) {
      route_call_state = insert s.route_call_state route (record st { circuit_breaker = cb });
    })
settled-IsValid s route st cb es v a = record {
  free = v.free;
  apart = λ r st' e. elim (insert-cases s.route_call_state route _ r st' e) [
    | inl (er, es) ↦ subst IsApart es a
    | inr (n, e') ↦ v.apart r st' e'
  ];
  ring = v.ring;
}

post_call_route-Keeps :
    (env : Env) (s : State) (caller : Address) (route : Route) (success : Bool)
    (o : Option RouteConfig)
    → IsValid s
    → s.route_config route ≡ o
    → Keeps (post_call_route env s caller route success o)
unfolding post_call_route
post_call_route-Keeps env s caller route success none v h = v
post_call_route-Keeps env s caller route success (some config) v h =
    let st : State → RouteCallState =
      λ t. unwrap_or (t.route_call_state route) default_route_call_state in
    let settle : State → Call (CircuitBreakerState × List Event) =
      λ t. settle_breaker env route config success (st t).circuit_breaker in
    let write : State → CircuitBreakerState × List Event → Call State = λ t r.
      ok (record (publish_all t r.1) {
        route_call_state =
            insert t.route_call_state route (record (st t) { circuit_breaker = r.0 });
      }) in
    let on : Bool = ltb 0 config.failure_threshold in
    let rest : State → Call State = λ t. if on then settle t >>= write t else ok t in
    bind-Holds (Appends s) IsValid (append env s caller route success config) rest
      (append-keeps env s caller route success config v h)
      (λ t w.
        if-Holds IsValid on (settle t >>= write t) (ok t)
          (bind-Holds
            (λ (r : CircuitBreakerState × List Event). r.0.is_open && r.0.is_half_open ≡ false)
            IsValid (settle t) (write t)
            (settle_breaker-IsApart env route config success (st t)
              (stored-IsApart t (t.route_call_state route) (w.0.apart route)))
            (λ r a. settled-IsValid t route (st t) r.0 r.1 w.0 a))
          w.0)

pub post_call-IsValid :
    (s : State)
    → IsValid s
    → (env : Env) (caller : Address) (route : Route) (success : Bool)
    → Keeps (post_call env s caller route success)
unfolding post_call
post_call-IsValid s v env caller route success =
    let t : State = publish s (Event.post_call caller route success) in
    then-Holds IsValid (require_auth env caller)
      (post_call_route env t caller route success (s.route_config route))
      (post_call_route-Keeps env t caller route success (s.route_config route)
        (record { free = v.free; apart = v.apart; ring = v.ring }) refl)
