-- ===== src/Middleware/Override.antt =====
-- A caller's own rate limit in router-middleware: the query against the check.
use stellar_router.Prelude.{
  ℕ, ◌<◌, not, Option, some, ◌≡◌, sym, ◌∙◌, inl, inr, arith, leb, ltb, if◌then◌else◌, Bool-cases,
  unwrap_or,
}
use stellar_router.Prelude.Assoc.{get}
use stellar_router.Common.{Address, Env, ok}
use stellar_router.Middleware
use stellar_router.Middleware.{Route, RateLimitState, RouteCallState, CallerRateLimitConfig}
use stellar_router.Middleware.RateLimit.{
  RateLimitCheck, window_elapsed, count_call, check_and_increment, fresh_limit,
}
use stellar_router.Middleware.CircuitBreaker.{default_route_call_state}
use stellar_router.Middleware.Views.{check_caller_rate_limit}

abbrev State : Type 0
State = Middleware.Middleware

-- The calls that count in the window.
abbrev calls_now : ℕ → ℕ → RateLimitState → ℕ
calls_now now window state =
    if window_elapsed now state.window_start window then 0 else state.calls_in_window

count_call-exceeded :
    (now limit window : ℕ) (state : RateLimitState) (check : RateLimitCheck)
    → count_call now state limit window ≡ ok check
    → not check.exceeded ≡ ltb (calls_now now window state) limit
unfolding count_call
count_call-exceeded now limit window state check h =
    elim (Bool-cases (leb limit (calls_now now window state))) [
      | inl t ↦ ground arith
      | inr f ↦ ground arith
    ]

-- The state of a caller as the check finds it.
abbrev found : Env → Address → Option RouteCallState → RateLimitState
found env caller o =
    unwrap_or (get (unwrap_or o default_route_call_state).rate_limits caller)
      (fresh_limit env.timestamp)

view_lem :
    (env : Env) (s : State) (route : Route) (caller : Address) (config : CallerRateLimitConfig)
    → s.caller_rate_limit route caller ≡ some config
    → 0 < config.max_calls
    → check_caller_rate_limit env s route caller
      ≡ ltb
          (calls_now env.timestamp config.window_secs (found env caller (s.route_call_state route)))
          config.max_calls
unfolding check_caller_rate_limit
view_lem env s route caller config c p = ground arith

-- For a caller with a limit of its own, the query answers whether the check of the next call, on the
-- state that is stored for the route, is within that limit.
pub check_caller_rate_limit-check_and_increment :
    (env : Env) (s : State) (route : Route) (caller : Address) (config : CallerRateLimitConfig)
    (check : RateLimitCheck)
    → s.caller_rate_limit route caller ≡ some config
    → 0 < config.max_calls
    → check_and_increment env caller
        (unwrap_or (s.route_call_state route) default_route_call_state)
        config.max_calls
        config.window_secs
      ≡ ok check
    → check_caller_rate_limit env s route caller ≡ not check.exceeded
unfolding check_and_increment
check_caller_rate_limit-check_and_increment env s route caller config check c p h =
    view_lem env s route caller config c p
    ∙ sym (
        count_call-exceeded env.timestamp config.max_calls config.window_secs
          (found env caller (s.route_call_state route)) check h)
