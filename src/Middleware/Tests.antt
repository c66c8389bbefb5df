-- ===== src/Middleware/Tests.antt =====
-- Runs of router-middleware, and its theorems at concrete inputs.
use stellar_router.Prelude.{
  not, List, ℕ, ◌<◌, ◌≤◌, Bool, true, false, none, some, [], ◌∷◌, ◌++◌, ◌≡◌, ◌⊎◌, ◌==◌, refl, arith,
  All, insert, filter,
}
use stellar_router.Common.{Env, ok, err}
use stellar_router.Middleware
use stellar_router.Middleware.{
  CallerRateLimitConfig, RateLimitState, RouteConfig, CircuitBreakerState, RouteCallState,
  CallLogEntry, CallLogState, MiddlewareError, Call, deployed, reject,
}
use stellar_router.Middleware.History.{Request, replay, settle, replay-deployed-IsValid}
use stellar_router.Middleware.Invariant.{IsValid}
use stellar_router.Middleware.Remembers.{post_call-remembers}
use stellar_router.Middleware.Override.{check_caller_rate_limit-check_and_increment}
use stellar_router.Middleware.RateLimit.{
  RateLimitCheck, window_elapsed, count_call, check_and_increment, stale_callers, remove_callers,
  prune_stale_rate_limits,
}
use stellar_router.Middleware.CircuitBreaker.{
  closed_breaker, check_and_transition, handle_failure, handle_success,
}
use stellar_router.Middleware.CallLog.{
  push_entry, count_entry, append, get_call_log, ordered_entries, collect, included, empty_call_log,
}
use stellar_router.Middleware.Calls.{
  pass_breaker, pre_call, configure_route, initialize, authorize, renew_log, check_route, prune_due,
  pass_limit, post_call, post_call_route,
}
use stellar_router.Middleware.Views.{check_caller_rate_limit, get_circuit_breaker_state}
use stellar_router.Middleware.Ring.{IsRing, turns, contents, remember, Pushes}
use stellar_router.Middleware.Push.{push_entry-Pushes}
use stellar_router.Middleware.Readers.{ordered_entries-IsRing}
use stellar_router.Middleware.Admission.{Standing, InWindow}
use stellar_router.Middleware.Quota.{pre_calls, pre_calls-Admits}
use stellar_router.Middleware.Breaker.{
  check, failure, success, signals, failures, failures-open, open_breaker-recovers,
  get_circuit_breaker_state-pass_breaker,
}

abbrev State : Type 0
State = Middleware.Middleware

abbrev entry_at : ℕ → Bool → CallLogEntry
entry_at now b = record { caller = 7; timestamp = now; success = b; route = 1 }

-- A full log for two entries that has gone round once.
abbrev full_log : CallLogState
full_log = record { entries = entry_at 30 true ∷ entry_at 20 false ∷ []; head = 1; count = 2 }

full_log-IsRing : IsRing 2 full_log
full_log-IsRing = record {
  positive = omega arith;
  narrow = omega arith;
  place = turns refl refl (omega arith);
}

push_runs :
    push_entry full_log (entry_at 40 true) 2
    ≡ ok (record { entries = entry_at 30 true ∷ entry_at 40 true ∷ []; head = 0; count = 2 })
unfolding push_entry
push_runs = refl

read_runs : ordered_entries none full_log ≡ entry_at 20 false ∷ entry_at 30 true ∷ []
unfolding ordered_entries collect
read_runs = refl

push_entry-Pushes_example :
    Pushes 2 full_log (entry_at 40 true) (push_entry full_log (entry_at 40 true) 2)
push_entry-Pushes_example = push_entry-Pushes 2 full_log (entry_at 40 true) full_log-IsRing

ordered_entries-IsRing_example :
    ordered_entries (some true) full_log ≡ filter (included (some true)) (contents full_log)
ordered_entries-IsRing_example = ordered_entries-IsRing (some true) 2 full_log full_log-IsRing

-- One call made in the window that began at 100.
abbrev one_call : RateLimitState
one_call = record { calls_in_window = 1; window_start = 100; total_violations = 0 }

abbrev guarded : RouteConfig
guarded = record {
  max_calls_per_window = 3;
  window_seconds = 60;
  enabled = true;
  failure_threshold = 3;
  recovery_window_seconds = 30;
  log_retention = 2;
  burst_allowance = 0;
}

abbrev signed_at : ℕ → Env
signed_at now = record { timestamp = now; authorized = λ a. a == 7 }

-- Route 1 takes three calls in a window of 60 seconds, and caller 7 has made one at the time 100.
abbrev serving : State
serving = record deployed {
  route_config = insert deployed.route_config 1 guarded;
  route_call_state =
      insert deployed.route_call_state 1
        (record { rate_limits = (7, one_call) ∷ []; circuit_breaker = closed_breaker });
  total_calls = some 1;
}

serving-Standing : Standing 7 1 guarded none reject 0 100 1 0 1 serving
serving-Standing = record {
  not_executing = refl;
  is_on = refl;
  configured = refl;
  own_limit = refl;
  reaction = refl;
  pruned = refl;
  counted_total = refl;
  st = record { rate_limits = (7, one_call) ∷ []; circuit_breaker = closed_breaker };
  has_state = refl;
  not_open = refl;
  has_limit = refl;
}

abbrev three_calls : List Env
three_calls = signed_at 110 ∷ signed_at 120 ∷ signed_at 159 ∷ []

in_window : All (InWindow 7 1 guarded none reject 0 100) three_calls
unfolding window_elapsed
in_window = (
  record { signed = refl; inside = refl; no_prune = refl },
  (
    record { signed = refl; inside = refl; no_prune = refl },
    (record { signed = refl; inside = refl; no_prune = refl }, tt),
  ),
)

pre_calls-Admits_example :
    ((pre_calls three_calls serving 7 1).0 ≡ 2)
    × Standing 7 1 guarded none reject 0 100 3 0 3 (pre_calls three_calls serving 7 1).1
pre_calls-Admits_example =
    pre_calls-Admits 7 1 guarded none reject 0 100 three_calls serving 1 0 1 refl refl (omega arith)
      serving-Standing in_window (omega arith) (omega arith)

abbrev opened : CircuitBreakerState
opened = record { failure_count = 3; opened_at = 100; is_open = true; is_half_open = false }

failures-open_example :
    (signals 1 guarded (failures (80 ∷ 90 ∷ [])) closed_breaker).is_open ≡ false
    × (signals 1 guarded (failures (80 ∷ 90 ∷ []) ++ failure 100 ∷ []) closed_breaker ≡ opened)
failures-open_example =
    failures-open 1 guarded (80 ∷ 90 ∷ []) 100 closed_breaker refl refl refl (omega arith)

open_breaker-recovers_example :
    (129 < 130 → check_and_transition 129 guarded opened ≡ (true, opened))
    × (130 ≤ 129
        → (check_and_transition 129 guarded opened).0 ≡ false
          × ((later : ℕ)
              → signals 1 guarded (check 129 ∷ success later ∷ []) opened ≡ closed_breaker)
          × ((later : ℕ)
              → signals 1 guarded (check 129 ∷ failure later ∷ []) opened ≡ record {
                failure_count = 1;
                opened_at = later;
                is_open = true;
                is_half_open = false;
              }))
open_breaker-recovers_example =
    open_breaker-recovers 1 guarded opened 129 refl (omega arith) (omega arith)

abbrev at : ℕ → Env
at now = record { timestamp = now; authorized = λ a. true }

abbrev opened_state : RouteCallState
opened_state = record { rate_limits = []; circuit_breaker = opened }

-- Route 1 is configured and its breaker is open.
abbrev opened_route : State
opened_route = record deployed {
  route_config = insert deployed.route_config 1 guarded;
  route_call_state = insert deployed.route_call_state 1 opened_state;
}

get_circuit_breaker_state-pass_breaker_example :
    ((moved : Bool) × (st' : RouteCallState) × (pass_breaker (at 130) guarded opened_state
        ≡ ok (st', moved))
      × (get_circuit_breaker_state (at 130) opened_route 1 ≡ some st'.circuit_breaker))
    ⊎ ((pass_breaker (at 130) guarded opened_state ≡ err MiddlewareError.circuit_open)
        × (get_circuit_breaker_state (at 130) opened_route 1 ≡ some opened)
        × (true ≡ true))
get_circuit_breaker_state-pass_breaker_example =
    get_circuit_breaker_state-pass_breaker (at 130) opened_route 1 guarded opened_state refl refl
      (omega arith)

-- A new contract with an administrator and one route, and calls on that route.
abbrev history : List (Env × Request)
history =
    (at 1, Request.initialize 9)
    ∷ (at 2, Request.configure_route 9 1 guarded)
    ∷ (at 3, Request.pre_call 7 1)
    ∷ (at 3, Request.post_call 7 1 false)
    ∷ []

replay-deployed-IsValid_example : IsValid (replay history deployed)
replay-deployed-IsValid_example = replay-deployed-IsValid history

-- The storage that the history leaves keeps the route's configuration and has one entry.
history_configured : (replay history deployed).route_config 1 ≡ some guarded
unfolding replay initialize authorize configure_route renew_log pre_call check_route prune_due
    pass_breaker pass_limit check_and_increment count_call window_elapsed check_and_transition
    prune_stale_rate_limits stale_callers remove_callers post_call post_call_route append push_entry
    count_entry handle_failure handle_success empty_call_log
history_configured = refl

abbrev after_history : State
after_history =
    settle (replay history deployed) (post_call (at 4) (replay history deployed) 8 1 true)

history_goes_on : post_call (at 4) (replay history deployed) 8 1 true ≡ ok after_history
unfolding replay initialize authorize configure_route renew_log pre_call check_route prune_due
    pass_breaker pass_limit check_and_increment count_call window_elapsed check_and_transition
    prune_stale_rate_limits stale_callers remove_callers post_call post_call_route append push_entry
    count_entry handle_failure handle_success empty_call_log
history_goes_on = refl

post_call-remembers_example :
    get_call_log after_history 1
    ≡ remember 2
        (get_call_log (replay history deployed) 1)
        (record { caller = 8; timestamp = 4; success = true; route = 1 })
post_call-remembers_example =
    post_call-remembers (at 4) (replay history deployed) 8 1 true guarded after_history
      (replay-deployed-IsValid history) history_configured (omega arith) history_goes_on

abbrev own_limit : CallerRateLimitConfig
own_limit = record { max_calls = 2; window_secs = 60 }

-- Caller 7 has a limit of its own on route 1 and has made one call.
abbrev limited : State
limited = record deployed {
  caller_rate_limit = λ route. insert (deployed.caller_rate_limit route) 7 own_limit;
  route_call_state =
      insert deployed.route_call_state 1
        (record { rate_limits = (7, one_call) ∷ []; circuit_breaker = closed_breaker });
}

abbrev second_call : RateLimitCheck
second_call = record {
  exceeded = false;
  updated_state = record { calls_in_window = 2; window_start = 100; total_violations = 0 };
}

second_call_runs :
    check_and_increment
      (at 110)
      7
      (record { rate_limits = (7, one_call) ∷ []; circuit_breaker = closed_breaker })
      2
      60
    ≡ ok second_call
unfolding check_and_increment count_call window_elapsed
second_call_runs = refl

check_caller_rate_limit-check_and_increment_example :
    check_caller_rate_limit (at 110) limited 1 7 ≡ not second_call.exceeded
check_caller_rate_limit-check_and_increment_example =
    check_caller_rate_limit-check_and_increment (at 110) limited 1 7 own_limit second_call refl
      (omega arith) second_call_runs
