-- ===== src/Middleware/Breaker.antt =====
-- The circuit breaker of contracts/router-middleware/src/circuit_breaker.rs as a state machine.
use stellar_router.Prelude.{
  ℕ, ◌+◌, ◌≤◌, ◌<◌, ◌++◌, Bool, true, false, not, ◌&&◌, none, some, List, [], ◌∷◌, ◌≡◌, ap, ◌∙◌,
  ◌⊎◌, inl, inr, arith, length, Bool-cases,
}
use stellar_router.Prelude.Words.{u32_max, u64_max}
use stellar_router.Common.{Env, ok, err}
use stellar_router.Middleware
use stellar_router.Middleware.{
  Route, RouteConfig, CircuitBreakerState, RouteCallState, Call, Event, MiddlewareError,
}
use stellar_router.Middleware.CircuitBreaker.{
  closed_breaker, recovery_elapsed, check_and_transition, handle_failure, handle_success,
}
use stellar_router.Middleware.Calls.{pass_breaker}
use stellar_router.Middleware.Views.{breaker_of, get_circuit_breaker_state}

abbrev State : Type 0
State = Middleware.Middleware

-- What can happen to the breaker of a route.
pub data Signal : Type 0 where
  check failure success : ℕ → Signal

-- The breaker after a signal at a time; a count that overflows stops the call and leaves the breaker.
abbrev after_failure :
    CircuitBreakerState → Call (CircuitBreakerState × List Event) → CircuitBreakerState
after_failure cb (ok r) = r.0
after_failure cb m = cb

unfoldable pub signal : Route → RouteConfig → Signal → CircuitBreakerState → CircuitBreakerState
unfolding check_and_transition handle_failure handle_success
signal route config (check now) cb = (check_and_transition now config cb).1
signal route config (failure now) cb = after_failure cb (handle_failure now route config cb)
signal route config (success now) cb = (handle_success route cb).0

unfoldable pub signals :
    Route → RouteConfig → List Signal → CircuitBreakerState → CircuitBreakerState
unfolding signal
signals route config [] cb = cb
signals route config (x ∷ xs) cb = signals route config xs (signal route config x cb)

-- The breaker is not open and half open at once, and while it is neither, the failures in a row are
-- fewer than the threshold.
pub record IsSound (config : RouteConfig) (cb : CircuitBreakerState) : Type 0 where
  pub apart : cb.is_open && cb.is_half_open ≡ false
  pub below :
      cb.is_open ≡ false → cb.is_half_open ≡ false → cb.failure_count < config.failure_threshold

abbrev pub failures : List ℕ → List Signal
failures [] = []
failures (now ∷ times) = failure now ∷ failures times

failure-closed :
    (route : Route) (config : RouteConfig) (now : ℕ) (cb : CircuitBreakerState)
    → cb.is_open ≡ false
    → cb.is_half_open ≡ false
    → cb.failure_count + 1 < config.failure_threshold
    → config.failure_threshold ≤ u32_max
    → signal route config (failure now) cb ≡ record cb { failure_count = cb.failure_count + 1 }
unfolding signal handle_failure
failure-closed route config now cb o h l t = ground arith

failure-opens :
    (route : Route) (config : RouteConfig) (now : ℕ) (cb : CircuitBreakerState)
    → cb.is_open ≡ false
    → cb.is_half_open ≡ false
    → cb.failure_count + 1 ≡ config.failure_threshold
    → config.failure_threshold ≤ u32_max
    → signal route config (failure now) cb ≡ record {
      failure_count = config.failure_threshold;
      opened_at = now;
      is_open = true;
      is_half_open = false;
    }
unfolding signal handle_failure
failure-opens route config now cb o h l t = ground arith

-- Under a threshold of 32 bits, a closed breaker stays closed for as long as the failures in a row are
-- fewer than the threshold, and opens at the failure that reaches it, with that failure's time.
pub failures-open :
    (route : Route) (config : RouteConfig) (times : List ℕ) (last : ℕ) (cb : CircuitBreakerState)
    → cb.is_open ≡ false
    → cb.is_half_open ≡ false
    → cb.failure_count + length times + 1 ≡ config.failure_threshold
    → config.failure_threshold ≤ u32_max
    → (signals route config (failures times) cb).is_open ≡ false
      × (signals route config (failures times ++ failure last ∷ []) cb ≡ record {
        failure_count = config.failure_threshold;
        opened_at = last;
        is_open = true;
        is_half_open = false;
      })
unfolding signals
failures-open route config [] last cb o h e t =
    (o, failure-opens route config last cb o h (omega arith) t)
failures-open route config (now ∷ times) last cb o h e t =
    let next : CircuitBreakerState = record cb { failure_count = cb.failure_count + 1 } in
    let step = failure-closed route config now cb o h (omega arith) t in
    let rest = failures-open route config times last next o h (omega arith) t in
    (
      ap (λ c. (signals route config (failures times) c).is_open) step ∙ rest.0,
      ap (signals route config (failures times ++ failure last ∷ [])) step ∙ rest.1,
    )

-- An open breaker with a recovery window that ends within 64 bits blocks every call before its end and
-- does not change. From then on a call is let through; a success after it closes the breaker, and a
-- failure opens it anew from that failure's time.
pub open_breaker-recovers :
    (route : Route) (config : RouteConfig) (cb : CircuitBreakerState) (now : ℕ)
    → cb.is_open ≡ true
    → 0 < config.recovery_window_seconds
    → cb.opened_at + config.recovery_window_seconds ≤ u64_max
    → (now < cb.opened_at + config.recovery_window_seconds
        → check_and_transition now config cb ≡ (true, cb))
      × (cb.opened_at + config.recovery_window_seconds ≤ now
          → (check_and_transition now config cb).0 ≡ false
            × ((later : ℕ)
                → signals route config (check now ∷ success later ∷ []) cb ≡ closed_breaker)
            × ((later : ℕ)
                → signals route config (check now ∷ failure later ∷ []) cb ≡ record {
                  failure_count = 1;
                  opened_at = later;
                  is_open = true;
                  is_half_open = false;
                }))
unfolding signals signal check_and_transition handle_failure handle_success
open_breaker-recovers route config cb now o r m =
    (λ b. ground arith, λ a. (ground arith, λ later. ground arith, λ later. ground arith))

view_lem :
    (env : Env) (s : State) (route : Route) (config : RouteConfig) (st : RouteCallState)
    → s.route_config route ≡ some config
    → s.route_call_state route ≡ some st
    → get_circuit_breaker_state env s route ≡ some (breaker_of env (some config) st.circuit_breaker)
unfolding get_circuit_breaker_state
view_lem env s route config st c r =
    ap
      (λ o. elim o [
        | none ↦ none
        | some st ↦ some (breaker_of env (s.route_config route) st.circuit_breaker)
      ])
      r
    ∙ ap (λ o. some (breaker_of env o st.circuit_breaker)) c

breaker-passes :
    (env : Env) (config : RouteConfig) (st : RouteCallState)
    → 0 < config.failure_threshold
    → (pass_breaker env config st
        ≡ ok (
          record st { circuit_breaker = breaker_of env (some config) st.circuit_breaker },
          st.circuit_breaker.is_open,
        ))
      ⊎ ((pass_breaker env config st ≡ err MiddlewareError.circuit_open)
          × (breaker_of env (some config) st.circuit_breaker ≡ st.circuit_breaker)
          × (st.circuit_breaker.is_open ≡ true))
unfolding pass_breaker check_and_transition
breaker-passes env config st p =
    elim (Bool-cases (
      st.circuit_breaker.is_open
      && not (recovery_elapsed st.circuit_breaker config env.timestamp))) [
        | inl t ↦ inr (ground arith)
        | inr f ↦ inl (ground arith)
      ]

-- On a configured route with a threshold and a stored state, the query of the breaker shows what the next
-- check of the breaker leaves: the breaker that a call which passes stores, and an open one when the call
-- is blocked.
pub get_circuit_breaker_state-pass_breaker :
    (env : Env) (s : State) (route : Route) (config : RouteConfig) (st : RouteCallState)
    → s.route_config route ≡ some config
    → s.route_call_state route ≡ some st
    → 0 < config.failure_threshold
    → ((moved : Bool) × (st' : RouteCallState) × (pass_breaker env config st ≡ ok (st', moved))
        × (get_circuit_breaker_state env s route ≡ some st'.circuit_breaker))
      ⊎ ((pass_breaker env config st ≡ err MiddlewareError.circuit_open)
          × (get_circuit_breaker_state env s route ≡ some st.circuit_breaker)
          × (st.circuit_breaker.is_open ≡ true))
get_circuit_breaker_state-pass_breaker env s route config st c r p =
    let view = view_lem env s route config st c r in
    elim (breaker-passes env config st p) [
      | inl e ↦ inl (_, _, e, view)
      | inr (e, b, o) ↦ inr (e, view ∙ ap some b, o)
    ]
