-- ===== src/Middleware/Admission.antt =====
-- One call of `pre_call` of contracts/router-middleware/src/lib.rs on a route whose breaker is not open, by
-- what the rate limit's part says.
use stellar_router.Prelude.{
  ℕ, ◌+◌, ◌<◌, true, false, Option, some, List, ◌≡◌, refl, arith, leb, unwrap_or,
}
use stellar_router.Prelude.Words.{u64_mod, saturating_add_u64}
use stellar_router.Prelude.Assoc.{get, get-set}
use stellar_router.Common.{Address, Env, ok, err}
use stellar_router.Middleware
use stellar_router.Middleware.{
  Route, RouteConfig, RouteCallState, CallerRateLimitConfig, RateLimitState, RateLimitStrategy,
  Call, MiddlewareError, Event, reject, throttle, log_only,
}
use stellar_router.Middleware.RateLimit.{window_elapsed, prune_interval}
use stellar_router.Middleware.CircuitBreaker.{check_and_transition}
use stellar_router.Middleware.Calls.{
  store_state, effective_limit, pre_call, check_route, prune_due, pass_breaker, pass_limit,
}
use stellar_router.Middleware.Window.{with_limit}
use stellar_router.Middleware.PreCall.{guarded, finished}

abbrev State : Type 0
State = Middleware.Middleware

module _ (caller : Address) (route : Route) (config : RouteConfig)
    (override : Option CallerRateLimitConfig) (strategy : RateLimitStrategy)
    (pruned_at start : ℕ) where
  -- A storage in which the route takes calls: the breaker is not open, and the caller has made `calls`
  -- calls in the window from `start` and `violations` violations before.
  pub record Standing (calls violations total : ℕ) (s : State) : Type 0 where
    pub not_executing : unwrap_or (s.executing route) false ≡ false
    pub is_on : unwrap_or s.global_enabled true ≡ true
    pub configured : s.route_config route ≡ some config
    pub own_limit : s.caller_rate_limit route caller ≡ override
    pub reaction : unwrap_or (s.rate_limit_strategy route) reject ≡ strategy
    pub pruned : unwrap_or (s.last_rate_limit_prune route) 0 ≡ pruned_at
    pub counted_total : unwrap_or s.total_calls 0 ≡ total
    pub st : RouteCallState
    pub has_state : s.route_call_state route ≡ some st
    pub not_open : st.circuit_breaker.is_open ≡ false
    pub has_limit :
        get st.rate_limits caller
        ≡ some (record {
          calls_in_window = calls;
          window_start = start;
          total_violations = violations;
        })

  -- A call that the caller signed, before the window ends and before the next prune is due.
  pub record InWindow (env : Env) : Type 0 where
    pub signed : env.authorized caller ≡ true
    pub inside : window_elapsed env.timestamp start (effective_limit config override).1 ≡ false
    pub no_prune : leb (saturating_add_u64 pruned_at prune_interval) env.timestamp ≡ false

  -- The checks of the route, when the prune is not due and the breaker is not open.
  module _ (env : Env) (s : State) (st : RouteCallState) (enabled : config.enabled ≡ true)
      (has_state : s.route_call_state route ≡ some st)
      (not_open : st.circuit_breaker.is_open ≡ false)
      (no_prune : leb
          (saturating_add_u64 (unwrap_or (s.last_rate_limit_prune route) 0) prune_interval)
          env.timestamp
        ≡ false) where
    prune_due-none : prune_due env s route config st ≡ (st, false, s)
    unfolding prune_due
    prune_due-none = rw no_prune refl

    pass_breaker-passes : pass_breaker env config st ≡ ok (st, false)
    unfolding pass_breaker check_and_transition
    pass_breaker-passes = ground arith

    check_route-ok :
        (st' : RouteCallState) (t : State)
        → pass_limit env s caller route config st ≡ ok (st', true, t)
        → check_route env s caller route (some config) ≡ ok (some st', t)
    unfolding check_route
    check_route-ok st' t h = rw (enabled, has_state, prune_due-none, pass_breaker-passes, h) refl

    check_route-err :
        (e : MiddlewareError)
        → pass_limit env s caller route config st ≡ err e
        → check_route env s caller route (some config) ≡ err e
    unfolding check_route
    check_route-err e h = rw (enabled, has_state, prune_due-none, pass_breaker-passes, h) refl

  -- The storage in the hook, with other events.
  abbrev in_hook : State → List Event → State
  in_hook s events = record (guarded s route) { events = events }

  module _ (env : Env) (s : State) (calls violations total : ℕ)
      (x : Standing calls violations total s) (w : InWindow env)
      (enabled : config.enabled ≡ true) where
    pre_call-ok :
        (events : List Event) (st' : RouteCallState)
        → total + 1 < u64_mod
        → check_route env (guarded s route) caller route (some config)
          ≡ ok (some st', in_hook s events)
        → pre_call env s caller route
          ≡ ok (finished (store_state (in_hook s events) route (some st')) caller route (total + 1))
    unfolding pre_call
    pre_call-ok events st' m h =
        rw
          (
            w.signed, x.not_executing, x.is_on, x.configured, h, x.is_on, x.configured, enabled,
            x.counted_total,
          )
          (ground arith)

    pre_call-err :
        (e : MiddlewareError)
        → check_route env (guarded s route) caller route (some config) ≡ err e
        → pre_call env s caller route ≡ err e
    unfolding pre_call
    pre_call-err e h = rw (w.signed, x.not_executing, x.is_on, x.configured, h) refl

    finished-Standing :
        (events : List Event) (st' : RouteCallState) (calls' violations' : ℕ)
        → st'.circuit_breaker.is_open ≡ false
        → get st'.rate_limits caller
          ≡ some (record {
            calls_in_window = calls';
            window_start = start;
            total_violations = violations';
          })
        → Standing calls' violations'
            (total + 1)
            (finished (store_state (in_hook s events) route (some st')) caller route (total + 1))
    finished-Standing events st' calls' violations' o g = record {
      not_executing = ground arith;
      is_on = x.is_on;
      configured = x.configured;
      own_limit = x.own_limit;
      reaction = x.reaction;
      pruned = x.pruned;
      counted_total = refl;
      st = st';
      has_state = ground arith;
      not_open = o;
      has_limit = g;
    }

    -- A call that the rate limit's part lets through, whatever events it publishes.
    pub pre_call-passes :
        (events : List Event) (calls' violations' : ℕ)
        → total + 1 < u64_mod
        → pass_limit env (guarded s route) caller route config x.st
          ≡ ok (
            with_limit x.st caller (record {
              calls_in_window = calls';
              window_start = start;
              total_violations = violations';
            }),
            true,
            in_hook s events,
          )
        → (t : State) × (pre_call env s caller route ≡ ok t)
          × Standing calls' violations' (total + 1) t
    pre_call-passes events calls' violations' m h = (
      _,
      pre_call-ok events _ m (
          check_route-ok env (guarded s route) x.st enabled x.has_state x.not_open
            (rw x.pruned w.no_prune) _ _ h),
      finished-Standing events _ calls' violations' x.not_open
          (rw (get-set x.st.rate_limits caller caller) (ground arith)),
    )

    pub pre_call-fails :
        (e : MiddlewareError)
        → pass_limit env (guarded s route) caller route config x.st ≡ err e
        → pre_call env s caller route ≡ err e
    pre_call-fails e h = pre_call-err e (
        check_route-err env (guarded s route) x.st enabled x.has_state x.not_open
          (rw x.pruned w.no_prune) e h)
