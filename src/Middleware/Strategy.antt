-- ===== src/Middleware/Strategy.antt =====
-- The reaction of a route to calls over its limit, `RateLimitStrategy` in contracts/router-middleware/src/lib.rs.
use stellar_router.Prelude.{ℕ, suc, ◌+◌, ◌≤◌, ◌≡◌, refl, ◌⊎◌, inl, inr, arith}
use stellar_router.Common.{Address, ok}
use stellar_router.Middleware
use stellar_router.Middleware.{Route, RateLimitStrategy, Event, publish, reject, throttle, log_only}
use stellar_router.Middleware.Calls.{react}

abbrev State : Type 0
State = Middleware.Middleware

-- The calls that a strategy lets through, and counts as violations, of `k` calls over the limit.
abbrev pub tolerated : RateLimitStrategy → ℕ → ℕ
tolerated reject k = 0
tolerated throttle k = k
tolerated log_only k = k

-- A strategy rejects the calls over the limit, or publishes an event for them.
pub strategy_cases :
    (s : State) (caller : Address) (route : Route) (strategy : RateLimitStrategy)
    → ((strategy ≡ reject)
        ⊎ ((event : Event) × (react s caller route strategy ≡ ok (publish s event))
            × ((k : ℕ) → tolerated strategy k ≡ k)))
strategy_cases s caller route reject = inl refl
strategy_cases s caller route throttle = inr (_, refl, λ k. refl)
strategy_cases s caller route log_only = inr (_, refl, λ k. refl)

pub tolerated-zero : (strategy : RateLimitStrategy) (k : ℕ) → k ≡ 0 → tolerated strategy k ≡ 0
tolerated-zero reject k h = refl
tolerated-zero throttle k h = h
tolerated-zero log_only k h = h

pub tolerated-suc :
    (strategy : RateLimitStrategy) (k : ℕ)
    → tolerated strategy (suc k) ≡ tolerated strategy 1 + tolerated strategy k
tolerated-suc reject k = refl
tolerated-suc throttle k = omega arith
tolerated-suc log_only k = omega arith

pub tolerated_one : (strategy : RateLimitStrategy) → tolerated strategy 1 ≤ 1
tolerated_one reject = omega arith
tolerated_one throttle = omega arith
tolerated_one log_only = omega arith
