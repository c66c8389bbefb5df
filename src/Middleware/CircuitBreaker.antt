-- ===== src/Middleware/CircuitBreaker.antt =====
-- contracts/router-middleware/src/circuit_breaker.rs.
use stellar_router.Prelude.{
  ℕ, Bool, true, false, not, ◌&&◌, Option, none, some, List, [], ◌∷◌, ltb, leb, if◌then◌else◌,
  insert,
}
use stellar_router.Prelude.Words.{saturating_add_u64}
use stellar_router.Common.{ok, ◌>>=◌, add_u32}
use stellar_router.Middleware
use stellar_router.Middleware.{
  Route, RouteConfig, CircuitBreakerState, RouteCallState, Call, Event, circuit_opened,
  circuit_closed, circuit_reset, publish,
}

abbrev State : Type 0
State = Middleware.Middleware

abbrev pub closed_breaker : CircuitBreakerState
closed_breaker = record { failure_count = 0; opened_at = 0; is_open = false; is_half_open = false }

abbrev pub default_route_call_state : RouteCallState
default_route_call_state = record { rate_limits = []; circuit_breaker = closed_breaker }

unfoldable pub recovery_elapsed : CircuitBreakerState → RouteConfig → ℕ → Bool
recovery_elapsed cb config now =
    ltb 0 config.recovery_window_seconds
    && leb (saturating_add_u64 cb.opened_at config.recovery_window_seconds) now

-- Whether the call is blocked, and the breaker after the check.
unfoldable pub check_and_transition :
    ℕ → RouteConfig → CircuitBreakerState → Bool × CircuitBreakerState
unfolding recovery_elapsed
check_and_transition now config cb =
    if cb.is_open
    then if recovery_elapsed cb config now
      then (false, record cb { is_open = false; is_half_open = true })
      else (true, cb)
    else (false, cb)

-- The breaker after a failure, and the events that it publishes.
unfoldable pub handle_failure :
    ℕ → Route → RouteConfig → CircuitBreakerState → Call (CircuitBreakerState × List Event)
handle_failure now route config cb =
    if cb.is_half_open
    then ok (
      record cb { is_half_open = false; is_open = true; opened_at = now; failure_count = 1 },
      circuit_opened route 1 ∷ [],
    )
    else (do
      count ← add_u32 cb.failure_count 1
      let cb' = record cb { failure_count = count }
      if leb config.failure_threshold count
          then ok (record cb' { is_open = true; opened_at = now }, circuit_opened route count ∷ [])
          else ok (cb', []))

-- The breaker after a success, and the events that it publishes.
unfoldable pub handle_success : Route → CircuitBreakerState → CircuitBreakerState × List Event
handle_success route cb =
    if cb.is_half_open
    then (
      record cb { is_half_open = false; failure_count = 0; opened_at = 0 },
      circuit_closed route ∷ [],
    )
    else if not cb.is_open && ltb 0 cb.failure_count
    then (record cb { failure_count = 0 }, [])
    else (cb, [])

abbrev pub reset_breaker : State → Route → Option RouteCallState → State
reset_breaker s route none = s
reset_breaker s route (some st) = record s {
  route_call_state =
      insert s.route_call_state route (record st { circuit_breaker = closed_breaker });
}

unfoldable pub reset : State → Route → State
reset s route = publish (reset_breaker s route (s.route_call_state route)) (circuit_reset route)
