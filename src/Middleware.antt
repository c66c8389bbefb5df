-- ===== src/Middleware.antt =====
-- contracts/router-middleware/src: hooks around a routed call. This file has the stored data; the
-- children have rate limiting, the circuit breaker, the call log, the calls and their proofs.
--
-- `Middleware` has one field for each kind of `DataKey`. Route names are compared and stored, never
-- inspected, so they are numbers, as addresses are.
pub mod RateLimit
pub mod CircuitBreaker
pub mod CallLog
pub mod Calls
pub mod Views
pub mod Ring
pub mod Push
pub mod Readers
pub mod Window
pub mod Admission
pub mod Strategy
pub mod Quota
pub mod Breaker
pub mod Invariant
pub mod Configure
pub mod Hooks
pub mod PreCall
pub mod Append
pub mod PostCall
pub mod History
pub mod Remembers
pub mod Override
mod Tests
use stellar_router.Prelude.{ℕ, Bool, Option, List, ◌∷◌, [], ◌++◌, Map, none, empty}
use stellar_router.Prelude.Assoc.{Assoc}
use stellar_router.Common.{Address, Outcome}

abbrev pub Route : Type 0
Route = ℕ

pub record RateLimitState : Type 0 where
  pub calls_in_window : ℕ
  pub window_start : ℕ
  pub total_violations : ℕ

pub record RouteRateLimitStats : Type 0 where
  pub total_calls_in_window : ℕ
  pub window_start : ℕ
  pub total_violations : ℕ

pub record RouteConfig : Type 0 where
  pub max_calls_per_window : ℕ
  pub window_seconds : ℕ
  pub enabled : Bool
  pub failure_threshold : ℕ
  pub recovery_window_seconds : ℕ
  pub log_retention : ℕ
  pub burst_allowance : ℕ

pub record CircuitBreakerState : Type 0 where
  pub failure_count : ℕ
  pub opened_at : ℕ
  pub is_open : Bool
  pub is_half_open : Bool

pub record RouteCallState : Type 0 where
  pub rate_limits : Assoc RateLimitState
  pub circuit_breaker : CircuitBreakerState

pub record CallLogEntry : Type 0 where
  pub caller : Address
  pub timestamp : ℕ
  pub success : Bool
  pub route : Route

pub record CallLogState : Type 0 where
  pub entries : List CallLogEntry
  pub head : ℕ
  pub count : ℕ

pub record CallLogSummary : Type 0 where
  pub total_calls : ℕ
  pub success_count : ℕ
  pub failure_count : ℕ
  pub last_call_timestamp : ℕ

pub data MiddlewareError : Type 0 where
  already_initialized not_initialized unauthorized rate_limit_exceeded : MiddlewareError
  route_disabled middleware_disabled invalid_config circuit_open reentrancy : MiddlewareError

pub record CallerRateLimitConfig : Type 0 where
  pub max_calls : ℕ
  pub window_secs : ℕ

pub data RateLimitStrategy : Type 0 where
  reject throttle log_only : RateLimitStrategy

pub data Event : Type 0 where
  route_configured : Route → RouteConfig → Event
  pre_call : Address → Route → Event
  post_call : Address → Route → Bool → Event
  circuit_opened : Route → ℕ → Event
  circuit_closed circuit_reset call_log_cleared guard_reset : Route → Event
  middleware_enabled : Bool → Event
  rate_limit_throttled rate_limit_exceeded : Address → Route → Event
  rate_limit_reset : Route → Address → Event
  rate_limit_strategy_set : Route → RateLimitStrategy → Event
  caller_rate_limit_set : Route → Address → CallerRateLimitConfig → Event
  caller_rate_limit_removed : Route → Address → Event
  admin_transferred : Address → Address → Event

pub record Middleware : Type 0 where
  pub admin : Option Address
  pub route_call_state : Map RouteCallState
  pub route_config : Map RouteConfig
  pub global_enabled : Option Bool
  pub total_calls : Option ℕ
  pub call_log : Map CallLogState
  pub configured_routes : Option (List Route)
  pub call_log_summary : Map CallLogSummary
  pub rate_limit_strategy : Map RateLimitStrategy
  pub caller_rate_limit : Route → Map CallerRateLimitConfig
  pub executing : Map Bool
  pub last_rate_limit_prune : Map ℕ
  pub events : List Event

-- The storage of a contract that has just been deployed.
abbrev pub deployed : Middleware
deployed = record {
  admin = none;
  route_call_state = empty;
  route_config = empty;
  global_enabled = none;
  total_calls = none;
  call_log = empty;
  configured_routes = none;
  call_log_summary = empty;
  rate_limit_strategy = empty;
  caller_rate_limit = λ route. empty;
  executing = empty;
  last_rate_limit_prune = empty;
  events = [];
}

-- The result of a call that may fail.
abbrev pub Call : Type 0 → Type 0
Call A = Outcome MiddlewareError A

-- `env.events().publish(..)`
abbrev pub publish : Middleware → Event → Middleware
publish s e = record s { events = s.events ++ e ∷ [] }
