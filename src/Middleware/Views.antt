-- ===== src/Middleware/Views.antt =====
-- The queries of contracts/router-middleware/src/lib.rs, but for those of the call log. The file
-- defines four of them twice, the second time as aliases of functions that it does not have; these are the
-- first definitions.
use stellar_router.Prelude.{
  ℕ, Bool, true, false, ◌&&◌, Option, none, some, List, [], ◌∷◌, ltb, ◌==◌, unwrap_or,
  if◌then◌else◌,
}
use stellar_router.Prelude.Words.{u64_max}
use stellar_router.Prelude.Assoc.{Assoc, get}
use stellar_router.Common.{Address, Env, ok, ◌>>=◌, add_u32, ok_or}
use stellar_router.Middleware
use stellar_router.Middleware.{
  Route, RouteConfig, RouteCallState, RateLimitState, RouteRateLimitStats, CircuitBreakerState,
  RateLimitStrategy, CallerRateLimitConfig, MiddlewareError, Call, reject,
}
use stellar_router.Middleware.RateLimit.{window_elapsed, resolve_effective_window, fresh_limit}
use stellar_router.Middleware.CircuitBreaker.{default_route_call_state, recovery_elapsed}

abbrev State : Type 0
State = Middleware.Middleware

unfoldable pub get_global_enabled : State → Bool
get_global_enabled s = unwrap_or s.global_enabled true

unfoldable pub get_total_calls : State → ℕ
get_total_calls s = unwrap_or s.total_calls 0

-- A caller's state as the next check would see it.
abbrev pub rolled :
    Env → State → Route → Address → Option RouteConfig → RateLimitState → RateLimitState
unfolding window_elapsed resolve_effective_window
rolled env s route caller none state = state
rolled env s route caller (some config) state =
    if window_elapsed env.timestamp state.window_start
      (resolve_effective_window s route caller config.window_seconds)
    then record state { calls_in_window = 0; window_start = env.timestamp }
    else state

abbrev pub limit_of : Option RouteCallState → Address → Option RateLimitState
limit_of none caller = none
limit_of (some st) caller = get st.rate_limits caller

unfoldable pub get_rate_limit_state : Env → State → Route → Address → Option RateLimitState
unfolding window_elapsed resolve_effective_window
get_rate_limit_state env s route caller = elim (limit_of (s.route_call_state route) caller) [
  | none ↦ none
  | some state ↦ some (rolled env s route caller (s.route_config route) state)
]

-- The sums over the callers, and the earliest start of a window.
abbrev pub add_stats :
    Env
    → State
    → Route
    → Option RouteConfig
    → ℕ × RateLimitState
    → RouteRateLimitStats
    → Call RouteRateLimitStats
unfolding window_elapsed resolve_effective_window
add_stats env s route config (caller, state) stats = do
  let seen = rolled env s route caller config state
  calls ← add_u32 stats.total_calls_in_window seen.calls_in_window
  violations ← add_u32 stats.total_violations state.total_violations
  ok (record {
    total_calls_in_window = calls;
    window_start =
        if ltb seen.window_start stats.window_start then seen.window_start else stats.window_start;
    total_violations = violations;
  })

unfoldable pub sum_stats :
    Env
    → State
    → Route
    → Option RouteConfig
    → Assoc RateLimitState
    → RouteRateLimitStats
    → Call RouteRateLimitStats
unfolding window_elapsed resolve_effective_window
sum_stats env s route config [] stats = ok stats
sum_stats env s route config (e ∷ m) stats =
    add_stats env s route config e stats >>= sum_stats env s route config m

abbrev pub stats_of :
    Env → State → Route → Option RouteCallState → Call (Option RouteRateLimitStats)
unfolding sum_stats
stats_of env s route none = ok none
stats_of env s route (some st) = elim st.rate_limits [
  | [] ↦ ok none
  | e ∷ m ↦
      sum_stats env s route (s.route_config route) (e ∷ m)
        (record { total_calls_in_window = 0; window_start = u64_max; total_violations = 0 })
      >>= λ (stats : RouteRateLimitStats). ok (
          some (record stats {
            window_start =
                if stats.window_start == u64_max then env.timestamp else stats.window_start;
          }))
]

unfoldable pub get_route_rate_limit_stats : Env → State → Route → Call (Option RouteRateLimitStats)
unfolding sum_stats
get_route_rate_limit_stats env s route = stats_of env s route (s.route_call_state route)

unfoldable pub get_route_config : State → Route → Option RouteConfig
get_route_config s route = s.route_config route

unfoldable pub get_configured_routes : State → List Route
get_configured_routes s = unwrap_or s.configured_routes []

abbrev pub breaker_of : Env → Option RouteConfig → CircuitBreakerState → CircuitBreakerState
unfolding recovery_elapsed
breaker_of env none cb = cb
breaker_of env (some config) cb =
    if cb.is_open && recovery_elapsed cb config env.timestamp
    then record cb { is_open = false; is_half_open = true }
    else cb

unfoldable pub get_circuit_breaker_state : Env → State → Route → Option CircuitBreakerState
unfolding recovery_elapsed
get_circuit_breaker_state env s route = elim (s.route_call_state route) [
  | none ↦ none
  | some st ↦ some (breaker_of env (s.route_config route) st.circuit_breaker)
]

unfoldable pub get_admin : State → Call Address
get_admin s = ok_or s.admin MiddlewareError.not_initialized

unfoldable pub get_rate_limit_strategy : State → Route → RateLimitStrategy
get_rate_limit_strategy s route = unwrap_or (s.rate_limit_strategy route) reject

unfoldable pub get_caller_rate_limit : State → Route → Address → Option CallerRateLimitConfig
get_caller_rate_limit s route caller = s.caller_rate_limit route caller

-- Whether the caller's own limit leaves room for a call.
unfoldable pub check_caller_rate_limit : Env → State → Route → Address → Bool
unfolding window_elapsed
check_caller_rate_limit env s route caller = elim (s.caller_rate_limit route caller) [
  | none ↦ true
  | some config ↦
      let st = unwrap_or (s.route_call_state route) default_route_call_state in
      let state = unwrap_or (get st.rate_limits caller) (fresh_limit env.timestamp) in
      let calls =
        if window_elapsed env.timestamp state.window_start config.window_secs
        then 0
        else state.calls_in_window in
      if config.max_calls == 0 then true else ltb calls config.max_calls
]
