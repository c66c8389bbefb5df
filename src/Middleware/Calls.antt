-- ===== src/Middleware/Calls.antt =====
-- The calls of contracts/router-middleware/src/lib.rs that change the storage.
use stellar_router.Prelude.{
  ℕ, ◌++◌, Bool, true, false, not, ◌&&◌, ◌||◌, Option, none, some, List, [], ◌∷◌, ltb, leb, ◌==◌,
  is_some, unwrap_or, if◌then◌else◌, insert, remove, contains, Map,
}
use stellar_router.Prelude.Words.{saturating_add_u64, saturating_add_u32}
use stellar_router.Prelude.Assoc.{set}
use stellar_router.Common.{
  Address, Env, ok, err, ◌>>=◌, ◌>>◌, fail_if, require_auth, require_admin, add_u64,
}
use stellar_router.Middleware
use stellar_router.Middleware.{
  Route, RouteConfig, RouteCallState, CircuitBreakerState, RateLimitStrategy, CallerRateLimitConfig,
  MiddlewareError, Call, Event, reject, throttle, log_only, publish,
}
use stellar_router.Middleware.RateLimit.{
  RateLimitCheck, check_and_increment, reset_for_caller, prune_stale_rate_limits, prune_interval,
}
use stellar_router.Middleware.CircuitBreaker.{
  default_route_call_state, check_and_transition, handle_failure, handle_success, reset,
}
use stellar_router.Middleware.CallLog.{append, clear, empty_call_log}

abbrev State : Type 0
State = Middleware.Middleware

-- `require_auth` followed by `require_admin_simple!`, as the calls of the administrator begin.
unfoldable pub authorize : Env → State → Address → Call (Unit {0})
authorize env s caller = do
  require_auth env caller
  require_admin s.admin caller MiddlewareError.not_initialized MiddlewareError.unauthorized

unfoldable pub initialize : State → Address → Call State
initialize s admin = do
  fail_if (is_some s.admin) MiddlewareError.already_initialized
  ok (record s { admin = some admin; global_enabled = some true; total_calls = some 0 })

-- `RouterMiddleware::MAX_LOG_RETENTION`
abbrev pub max_log_retention : ℕ
max_log_retention = 10000

abbrev pub configured : State → List Route
configured s = unwrap_or s.configured_routes []

abbrev pub track_route : State → Route → State
track_route s route =
    if contains (configured s) route
    then s
    else record s { configured_routes = some (configured s ++ route ∷ []) }

abbrev pub create_log : State → Address → Route → ℕ → State
create_log s caller route retention =
    if ltb 0 retention
    then record s { call_log = insert s.call_log route (empty_call_log caller route retention) }
    else s

-- The call log after a configuration, by the retention before it.
unfoldable pub renew_log : State → Address → Route → ℕ → Option ℕ → State
unfolding clear
renew_log s caller route retention none = create_log s caller route retention
renew_log s caller route retention (some p) =
    if p == retention then s else create_log (clear s route) caller route retention

abbrev pub retention_of : Option RouteConfig → Option ℕ
retention_of none = none
retention_of (some c) = some c.log_retention

unfoldable pub configure_route : Env → State → Address → Route → RouteConfig → Call State
unfolding authorize renew_log
configure_route env s caller route config = do
  authorize env s caller
  fail_if (config.window_seconds == 0 && ltb 0 config.max_calls_per_window)
      MiddlewareError.invalid_config
  fail_if (ltb max_log_retention config.log_retention) MiddlewareError.invalid_config
  let previous = retention_of (s.route_config route)
  let s₁ = track_route (record s { route_config = insert s.route_config route config }) route
  ok (
      publish (renew_log s₁ caller route config.log_retention previous)
        (Event.route_configured route config))

-- The prune at the head of `pre_call`: the state of the route, whether it changed, and the storage.
unfoldable pub prune_due :
    Env → State → Route → RouteConfig → RouteCallState → RouteCallState × Bool × State
unfolding prune_stale_rate_limits
prune_due env s route config st =
    let due =
      leb (saturating_add_u64 (unwrap_or (s.last_rate_limit_prune route) 0) prune_interval)
        env.timestamp in
    let pruned =
      prune_stale_rate_limits s route st.rate_limits env.timestamp config.window_seconds in
    if due
    then (
      record st { rate_limits = pruned.0 },
      pruned.1,
      record s { last_rate_limit_prune = insert s.last_rate_limit_prune route env.timestamp },
    )
    else (st, false, s)

-- The circuit breaker's part: the state and whether the breaker changed, which is whether it went from
-- open to half open.
unfoldable pub pass_breaker : Env → RouteConfig → RouteCallState → Call (RouteCallState × Bool)
unfolding check_and_transition
pass_breaker env config st =
    let checked = check_and_transition env.timestamp config st.circuit_breaker in
    if ltb 0 config.failure_threshold
    then (do
      fail_if checked.0 MiddlewareError.circuit_open
      ok (record st { circuit_breaker = checked.1 }, st.circuit_breaker.is_open))
    else ok (st, false)

abbrev pub is_active : Option CallerRateLimitConfig → Bool
is_active none = false
is_active (some c) = ltb 0 c.max_calls

-- An override that allows any number of calls.
abbrev pub is_unlimited : Option CallerRateLimitConfig → Bool
is_unlimited none = false
is_unlimited (some c) = not (ltb 0 c.max_calls)

-- The limit and the window that apply, by the caller's override.
abbrev pub effective_limit : RouteConfig → Option CallerRateLimitConfig → ℕ × ℕ
effective_limit config none =
    (saturating_add_u32 config.max_calls_per_window config.burst_allowance, config.window_seconds)
effective_limit config (some c) = if ltb 0 c.max_calls then (c.max_calls, c.window_secs) else (
  saturating_add_u32 config.max_calls_per_window config.burst_allowance,
  config.window_seconds,
)

-- The reaction to a call over its limit.
abbrev pub react : State → Address → Route → RateLimitStrategy → Call State
react s caller route reject = err MiddlewareError.rate_limit_exceeded
react s caller route throttle = ok (publish s (Event.rate_limit_throttled caller route))
react s caller route log_only = ok (publish s (Event.rate_limit_exceeded caller route))

-- The rate limit's part: the state, whether it changed, and the storage.
unfoldable pub pass_limit :
    Env
    → State
    → Address
    → Route
    → RouteConfig
    → RouteCallState
    → Call (RouteCallState × Bool × State)
pass_limit env s caller route config st = do
  let override = s.caller_rate_limit route caller
  let limit = effective_limit config override
  let enforced = check_and_increment env caller st limit.0 limit.1 >>= λ (check : RateLimitCheck).
      (do
        let st' = record st { rate_limits = set st.rate_limits caller check.updated_state }
        let strategy = unwrap_or (s.rate_limit_strategy route) reject
        s' ← if check.exceeded then react s caller route strategy else ok s
        ok (st', true, s'))
  if not (is_unlimited override) && (ltb 0 config.max_calls_per_window || is_active override)
      then enforced
      else ok (st, false, s)

abbrev pub commit : Bool → RouteCallState → Option RouteCallState
commit true st = some st
commit false st = none

-- The checks of a configured route: what to commit, and the storage.
unfoldable pub check_route :
    Env → State → Address → Route → Option RouteConfig → Call (Option RouteCallState × State)
unfolding prune_due pass_breaker pass_limit
check_route env s caller route none = ok (none, s)
check_route env s caller route (some config) = do
  fail_if (not config.enabled) MiddlewareError.route_disabled
  let st = unwrap_or (s.route_call_state route) default_route_call_state
  let (st₁, pruned, s₁) = prune_due env s route config st
  (st₂, moved) ← pass_breaker env config st₁
  (st₃, counted, s₂) ← pass_limit env s₁ caller route config st₂
  ok (commit (pruned || moved || counted) st₃, s₂)

abbrev pub is_enabled_route : Option RouteConfig → Bool
is_enabled_route none = true
is_enabled_route (some config) = config.enabled

abbrev pub store_state : State → Route → Option RouteCallState → State
store_state s route none = s
store_state s route (some st) = record s { route_call_state = insert s.route_call_state route st }

unfoldable pub pre_call : Env → State → Address → Route → Call State
unfolding check_route
pre_call env s caller route = do
  require_auth env caller
  fail_if (unwrap_or (s.executing route) false) MiddlewareError.reentrancy
  let s₁ = record s { executing = insert s.executing route true }
  fail_if (not (unwrap_or s₁.global_enabled true)) MiddlewareError.middleware_disabled
  (committed, s₂) ← check_route env s₁ caller route (s₁.route_config route)
  fail_if (not (unwrap_or s₂.global_enabled true)) MiddlewareError.middleware_disabled
  fail_if (not (is_enabled_route (s₂.route_config route))) MiddlewareError.route_disabled
  let s₃ = store_state s₂ route committed
  total ← add_u64 (unwrap_or s₃.total_calls 0) 1
  let s₄ = publish (record s₃ { total_calls = some total }) (Event.pre_call caller route)
  ok (record s₄ { executing = remove s₄.executing route })

abbrev pub publish_all : State → List Event → State
publish_all s events = record s { events = s.events ++ events }

-- The breaker after the call, and the events.
abbrev pub settle_breaker :
    Env → Route → RouteConfig → Bool → CircuitBreakerState → Call (CircuitBreakerState × List Event)
unfolding handle_failure handle_success
settle_breaker env route config true cb = ok (handle_success route cb)
settle_breaker env route config false cb = handle_failure env.timestamp route config cb

unfoldable pub post_call_route :
    Env → State → Address → Route → Bool → Option RouteConfig → Call State
unfolding append handle_failure handle_success
post_call_route env s caller route success none = ok s
post_call_route env s caller route success (some config) = do
  s₁ ← append env s caller route success config
  let st = unwrap_or (s₁.route_call_state route) default_route_call_state
  let settled =
      settle_breaker env route config success st.circuit_breaker
      >>= λ (r : CircuitBreakerState × List Event). ok (record (publish_all s₁ r.1) {
        route_call_state = insert s₁.route_call_state route (record st { circuit_breaker = r.0 });
      })
  if ltb 0 config.failure_threshold then settled else ok s₁

unfoldable pub post_call : Env → State → Address → Route → Bool → Call State
unfolding post_call_route
post_call env s caller route success = do
  require_auth env caller
  post_call_route env (publish s (Event.post_call caller route success)) caller route success
      (s.route_config route)

unfoldable pub set_global_enabled : Env → State → Address → Bool → Call State
unfolding authorize
set_global_enabled env s caller enabled = do
  authorize env s caller
  ok (publish (record s { global_enabled = some enabled }) (Event.middleware_enabled enabled))

unfoldable pub reset_route_call_log : Env → State → Address → Route → Call State
unfolding authorize clear
reset_route_call_log env s caller route = do authorize env s caller; ok (clear s route)

unfoldable pub reset_rate_limit : Env → State → Address → Route → Address → Call State
unfolding authorize reset_for_caller
reset_rate_limit env s caller route target = do
  authorize env s caller
  ok (reset_for_caller s route target)

unfoldable pub set_rate_limit_strategy :
    Env → State → Address → Route → RateLimitStrategy → Call State
unfolding authorize
set_rate_limit_strategy env s caller route strategy = do
  authorize env s caller
  ok (
      publish (record s { rate_limit_strategy = insert s.rate_limit_strategy route strategy })
        (Event.rate_limit_strategy_set route strategy))

unfoldable pub reset_circuit_breaker : Env → State → Address → Route → Call State
unfolding authorize reset
reset_circuit_breaker env s caller route = do authorize env s caller; ok (reset s route)

unfoldable pub reset_guard : Env → State → Address → Route → Call State
unfolding authorize
reset_guard env s caller route = do
  authorize env s caller
  ok (publish (record s { executing = remove s.executing route }) (Event.guard_reset route))

unfoldable pub transfer_admin : Env → State → Address → Address → Call State
unfolding authorize
transfer_admin env s current new_admin = do
  authorize env s current
  ok (publish (record s { admin = some new_admin }) (Event.admin_transferred current new_admin))

-- One entry of the overrides, which are keyed by route and caller.
abbrev pub set_override :
    (Route → Map CallerRateLimitConfig)
    → Route
    → Map CallerRateLimitConfig
    → Route
    → Map CallerRateLimitConfig
set_override overrides route m r = if r == route then m else overrides r

unfoldable pub configure_caller_rate_limit :
    Env → State → Address → Route → Address → CallerRateLimitConfig → Call State
unfolding authorize
configure_caller_rate_limit env s caller route target config = do
  authorize env s caller
  fail_if (config.window_secs == 0 && ltb 0 config.max_calls) MiddlewareError.invalid_config
  ok (
      publish
        (record s {
          caller_rate_limit =
              set_override s.caller_rate_limit route
                (insert (s.caller_rate_limit route) target config);
        })
        (Event.caller_rate_limit_set route target config))

unfoldable pub remove_caller_rate_limit : Env → State → Address → Route → Address → Call State
unfolding authorize
remove_caller_rate_limit env s caller route target = do
  authorize env s caller
  ok (
      publish
        (record s {
          caller_rate_limit =
              set_override s.caller_rate_limit route (remove (s.caller_rate_limit route) target);
        })
        (Event.caller_rate_limit_removed route target))
