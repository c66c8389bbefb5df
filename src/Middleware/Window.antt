-- ===== src/Middleware/Window.antt =====
-- The fixed window of contracts/router-middleware/src/rate_limit.rs: one call of `pre_call` against the
-- limit, in the window that has begun.
use stellar_router.Prelude.{
  ℕ, ◌+◌, ◌≤◌, ◌<◌, Bool, true, false, not, ◌&&◌, ◌||◌, Option, some, ◌≡◌, arith, ltb, unwrap_or,
}
use stellar_router.Prelude.Words.{u32_max}
use stellar_router.Prelude.Assoc.{get, set}
use stellar_router.Common.{Address, Env, ok, ◌>>=◌}
use stellar_router.Middleware
use stellar_router.Middleware.{
  Route, RouteConfig, RouteCallState, CallerRateLimitConfig, RateLimitState, reject,
}
use stellar_router.Middleware.RateLimit.{window_elapsed, count_call, check_and_increment}
use stellar_router.Middleware.Calls.{is_active, is_unlimited, effective_limit, react, pass_limit}

abbrev State : Type 0
State = Middleware.Middleware

-- Whether a limit applies, by the configuration and the caller's override.
abbrev pub is_limited : RouteConfig → Option CallerRateLimitConfig → Bool
is_limited config override =
    not (is_unlimited override) && (ltb 0 config.max_calls_per_window || is_active override)

-- The state with other counts.
abbrev pub counted : ℕ → ℕ → RateLimitState → RateLimitState
counted calls violations state = record state {
  calls_in_window = calls;
  total_violations = violations;
}

count_call-within :
    (now limit window : ℕ) (state : RateLimitState)
    → window_elapsed now state.window_start window ≡ false
    → state.calls_in_window < limit
    → limit ≤ u32_max
    → count_call now state limit window
      ≡ ok (record {
        exceeded = false;
        updated_state = counted (state.calls_in_window + 1) state.total_violations state;
      })
unfolding count_call
count_call-within now limit window state e l m = ground arith

count_call-over :
    (now limit window : ℕ) (state : RateLimitState)
    → window_elapsed now state.window_start window ≡ false
    → limit ≤ state.calls_in_window
    → state.total_violations < u32_max
    → count_call now state limit window
      ≡ ok (record {
        exceeded = true;
        updated_state = counted state.calls_in_window (state.total_violations + 1) state;
      })
unfolding count_call
count_call-over now limit window state e l m = ground arith

-- The state of the route after a check of the caller's limit.
abbrev pub with_limit : RouteCallState → Address → RateLimitState → RouteCallState
with_limit st caller state = record st { rate_limits = set st.rate_limits caller state }

module _ (env : Env) (s : State) (caller : Address) (route : Route) (config : RouteConfig)
    (st : RouteCallState) (state : RateLimitState) (found : get st.rate_limits caller ≡ some state)
    (limited : is_limited config (s.caller_rate_limit route caller) ≡ true)
    (inside : window_elapsed env.timestamp state.window_start
        (effective_limit config (s.caller_rate_limit route caller)).1
      ≡ false) where
  pub pass_limit-within :
      state.calls_in_window < (effective_limit config (s.caller_rate_limit route caller)).0
      → (effective_limit config (s.caller_rate_limit route caller)).0 ≤ u32_max
      → pass_limit env s caller route config st
        ≡ ok (
          with_limit st caller (counted (state.calls_in_window + 1) state.total_violations state),
          true,
          s,
        )
  unfolding pass_limit check_and_increment
  pass_limit-within l m = ground (
    arith,
    count_call-within env.timestamp (effective_limit config (s.caller_rate_limit route caller)).0
        (effective_limit config (s.caller_rate_limit route caller)).1 state inside l m,
  )

  pub pass_limit-over :
      (effective_limit config (s.caller_rate_limit route caller)).0 ≤ state.calls_in_window
      → state.total_violations < u32_max
      → pass_limit env s caller route config st ≡ (
          react s caller route (unwrap_or (s.rate_limit_strategy route) reject) >>= λ (t : State).
          ok (
            with_limit st caller (counted state.calls_in_window (state.total_violations + 1) state),
            true,
            t,
          ))
  unfolding pass_limit check_and_increment
  pass_limit-over l m = ground (
    arith,
    count_call-over env.timestamp (effective_limit config (s.caller_rate_limit route caller)).0
        (effective_limit config (s.caller_rate_limit route caller)).1 state inside l m,
  )
