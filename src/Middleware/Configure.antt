-- ===== src/Middleware/Configure.antt =====
-- `configure_route` of router-middleware keeps the storage well formed.
use stellar_router.Prelude.{
  insert-cases, ◌≤◌, ◌<◌, Bool, true, false, ◌&&◌, Option, none, some, List, [], ◌∷◌, ◌++◌, ◌≡◌,
  refl, sym, ap, ◌∙◌, inl, inr, arith, ltb, ◌==◌, if◌then◌else◌, unwrap_or, insert, contains,
  ltb→le,
}
use mathlib.Core.Path.{subst}
use stellar_router.Common.{Address, Env, ok, ◌>>◌, fail_if}
use stellar_router.Common.Holds.{Holds, then-Holds}
use stellar_router.Middleware
use stellar_router.Middleware.{
  Route, RouteConfig, CallLogState, MiddlewareError, Call, Event, publish,
}
use stellar_router.Middleware.CallLog.{empty_log, empty_call_log, clear}
use stellar_router.Middleware.Calls.{
  authorize, configure_route, configured, track_route, create_log, renew_log, retention_of,
  max_log_retention,
}
use stellar_router.Middleware.Ring.{IsRing, empty_call_log-IsRing}
use stellar_router.Middleware.Invariant.{IsValid, Keeps, log_of, if-IsRing}

abbrev State : Type 0
State = Middleware.Middleware

-- A check that passes leaves its condition false.
fail_if-Holds :
    (P : State → Type 0) (b : Bool) (e : MiddlewareError) (k : Call State)
    → (b ≡ false → Holds P k)
    → Holds P (fail_if b e >> k)
fail_if-Holds P true e k f = tt
fail_if-Holds P false e k f = f refl

-- The storage under a new configuration of a route, before its log is renewed.
abbrev reconfigured : State → Route → RouteConfig → Option (List Route) → State
reconfigured s route config routes = record s {
  route_config = insert s.route_config route config;
  configured_routes = routes;
}

module _ (s : State) (v : IsValid s) (caller : Address) (route : Route) (config : RouteConfig)
    (narrow : config.log_retention ≤ max_log_retention) where
  -- Whatever log the route has then, if the others have theirs.
  relogged :
      (t : State)
      → ((r : Route) → t.executing r ≡ none)
      → t.route_call_state ≡ s.route_call_state
      → t.route_config ≡ insert s.route_config route config
      → ((r : Route) → (r == route) ≡ false → t.call_log r ≡ s.call_log r)
      → (0 < config.log_retention → IsRing config.log_retention (log_of t route))
      → IsValid t
  relogged t f a c o g = record {
    free = f;
    apart = λ r st e. v.apart r st (ap (λ m. m r) (sym a) ∙ e);
    ring = λ r conf e p.
        elim (insert-cases s.route_config route config r conf (ap (λ m. m r) (sym c) ∙ e)) [
          | inl (er, ec) ↦
              subst (λ x. IsRing x.log_retention (log_of t r)) ec
                (subst (λ q. IsRing config.log_retention (log_of t q)) (sym er)
                  (g (subst (λ x. 0 < x.log_retention) (sym ec) p)))
          | inr (ne, ec) ↦
              subst (λ x. IsRing conf.log_retention (unwrap_or x empty_log)) (sym (o r ne))
                (v.ring r conf ec p)
        ];
  }

  abbrev before : Option (List Route) → State
  before routes = reconfigured s route config routes

  created :
      (u : State)
      → u.executing ≡ s.executing
      → u.route_call_state ≡ s.route_call_state
      → u.route_config ≡ insert s.route_config route config
      → ((r : Route) → (r == route) ≡ false → u.call_log r ≡ s.call_log r)
      → (b : Bool) → ltb 0 config.log_retention ≡ b
      → (e : Event)
      → IsValid (
          publish
            (if b
              then record u {
                call_log =
                    insert u.call_log route (empty_call_log caller route config.log_retention);
              }
              else u)
            e)
  created u f a c o true h e =
      relogged _ (λ r. ap (λ m. m r) f ∙ v.free r) a c (λ r n. ground (arith, o r n))
        (λ p.
          if-IsRing (route == route) config.log_retention
            (some (empty_call_log caller route config.log_retention)) (u.call_log route)
            (λ t. empty_call_log-IsRing caller route config.log_retention p (omega arith))
            (λ t. absurd (ground arith)))
  created u f a c o false h e =
      relogged _ (λ r. ap (λ m. m r) f ∙ v.free r) a c o (λ p. absurd (ground arith))

  -- The log is renewed by the retention before, `b` being whether it is the same.
  renewed :
      (routes : Option (List Route)) (e : Event) (c : RouteConfig)
      → s.route_config route ≡ some c
      → (b : Bool) → (c.log_retention == config.log_retention) ≡ b
      → IsValid (
          publish
            (if b
              then before routes
              else create_log (clear (before routes) route) caller route config.log_retention)
            e)
  unfolding clear
  renewed routes e c h true k =
      relogged _ v.free refl refl (λ r n. refl)
        (λ p.
          subst (λ n. IsRing n (log_of s route)) {y = config.log_retention} (ground arith)
            (v.ring route c h (ground arith)))
  renewed routes e c h false k =
      created (clear (before routes) route) refl refl refl (λ r n. ground arith)
        (ltb 0 config.log_retention) refl e

  renew_log-IsValid :
      (routes : Option (List Route)) (e : Event) (o : Option RouteConfig)
      → s.route_config route ≡ o
      → IsValid
          (publish (renew_log (before routes) caller route config.log_retention (retention_of o)) e)
  unfolding renew_log
  renew_log-IsValid routes e none h =
      created (before routes) refl refl refl (λ r n. refl) (ltb 0 config.log_retention) refl e
  renew_log-IsValid routes e (some c) h =
      renewed routes e c h (c.log_retention == config.log_retention) refl

  -- The same, whether the route is known or new, which is `b`.
  tracked :
      (e : Event) (b : Bool)
      → IsValid (
          publish
            (renew_log
              (if b
                then record s { route_config = insert s.route_config route config }
                else before (some (configured s ++ route ∷ [])))
              caller
              route
              config.log_retention
              (retention_of (s.route_config route)))
            e)
  tracked e true = renew_log-IsValid s.configured_routes e (s.route_config route) refl
  tracked e false = renew_log-IsValid _ e (s.route_config route) refl

pub configure_route-IsValid :
    (s : State)
    → IsValid s
    → (env : Env) (caller : Address) (route : Route) (config : RouteConfig)
    → Keeps (configure_route env s caller route config)
unfolding configure_route
configure_route-IsValid s v env caller route config =
    let t : State =
      publish
        (renew_log
          (track_route (record s { route_config = insert s.route_config route config }) route)
          caller route config.log_retention (retention_of (s.route_config route)))
        (Event.route_configured route config) in
    let unlimited : Bool = config.window_seconds == 0 && ltb 0 config.max_calls_per_window in
    let long : Bool = ltb max_log_retention config.log_retention in
    let check : Call (Unit {0}) = fail_if long MiddlewareError.invalid_config in
    then-Holds IsValid (authorize env s caller)
      (fail_if unlimited MiddlewareError.invalid_config >> (check >> ok t))
      (then-Holds IsValid (fail_if unlimited MiddlewareError.invalid_config) (check >> ok t) (
        fail_if-Holds IsValid long MiddlewareError.invalid_config (ok t) (λ n.
          tracked s v caller route config (ltb→le max_log_retention config.log_retention n)
            (Event.route_configured route config) (contains (configured s) route))))
