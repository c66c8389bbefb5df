-- ===== src/Middleware/Invariant.antt =====
-- Well-formedness of the storage of router-middleware between calls, and the calls of the administrator.
use stellar_router.Prelude.{
  ℕ, ◌<◌, Bool, true, false, ◌&&◌, Option, none, some, ◌≡◌, refl, arith, ltb, ◌==◌, if◌then◌else◌,
  is_some, unwrap_or, insert, remove, Map,
}
use stellar_router.Common.{Address, Env, ok, ◌>>◌, fail_if}
use stellar_router.Common.Holds.{Holds, then-Holds}
use stellar_router.Middleware
use stellar_router.Middleware.{
  Route, RouteConfig, RouteCallState, RateLimitStrategy, CallerRateLimitConfig, CallLogState,
  MiddlewareError, Call, Event, deployed, publish,
}
use stellar_router.Middleware.RateLimit.{reset_for_caller, reset_limits}
use stellar_router.Middleware.CircuitBreaker.{reset, reset_breaker}
use stellar_router.Middleware.CallLog.{empty_log, clear}
use stellar_router.Middleware.Calls.{
  authorize, initialize, set_override, set_global_enabled, reset_route_call_log, reset_rate_limit,
  set_rate_limit_strategy, reset_circuit_breaker, reset_guard, transfer_admin,
  configure_caller_rate_limit, remove_caller_rate_limit,
}
use stellar_router.Middleware.Ring.{IsRing, empty_log-IsRing}

abbrev State : Type 0
State = Middleware.Middleware

-- The log of a route as `append` finds it.
abbrev pub log_of : State → Route → CallLogState
log_of s route = unwrap_or (s.call_log route) empty_log

-- Between calls no route is guarded as executing, no breaker is open and half open at once, and a
-- route that keeps a log has a ring buffer of its configured size, or none yet.
pub record IsValid (s : State) : Type 0 where
  pub free : (route : Route) → s.executing route ≡ none
  pub apart :
      (route : Route) (st : RouteCallState)
      → s.route_call_state route ≡ some st
      → st.circuit_breaker.is_open && st.circuit_breaker.is_half_open ≡ false
  pub ring :
      (route : Route) (config : RouteConfig)
      → s.route_config route ≡ some config
      → 0 < config.log_retention
      → IsRing config.log_retention (log_of s route)

-- The log that is stored for one route and not for another.
pub if-IsRing :
    (b : Bool) (cap : ℕ) (x o : Option CallLogState)
    → (b ≡ true → IsRing cap (unwrap_or x empty_log))
    → (b ≡ false → IsRing cap (unwrap_or o empty_log))
    → IsRing cap (unwrap_or (if b then x else o) empty_log)
if-IsRing true cap x o h k = h refl
if-IsRing false cap x o h k = k refl

pub deployed-IsValid : IsValid deployed
deployed-IsValid = record {
  free = λ r. refl;
  apart = λ r st e. ground arith;
  ring = λ r config e p. ground arith;
}

-- A call keeps the storage well formed when it succeeds.
abbrev pub Keeps : Call State → Type 0
Keeps m = Holds IsValid m

module _ (s : State) (v : IsValid s) where
  -- The calls of the administrator that write one storage.
  admin-Keeps :
      (env : Env) (caller : Address) (t : State)
      → IsValid t
      → Keeps (authorize env s caller >> ok t)
  admin-Keeps env caller t w = then-Holds IsValid (authorize env s caller) (ok t) w

  pub initialize-IsValid : (admin : Address) → Keeps (initialize s admin)
  unfolding initialize
  initialize-IsValid admin =
      let t : State = record s {
        admin = some admin;
        global_enabled = some true;
        total_calls = some 0;
      } in
      then-Holds IsValid (fail_if (is_some s.admin) MiddlewareError.already_initialized) (ok t)
        (record { free = v.free; apart = v.apart; ring = v.ring })

  pub set_global_enabled-IsValid :
      (env : Env) (caller : Address) (enabled : Bool)
      → Keeps (set_global_enabled env s caller enabled)
  unfolding set_global_enabled
  set_global_enabled-IsValid env caller enabled =
      admin-Keeps env caller
        (publish (record s { global_enabled = some enabled }) (Event.middleware_enabled enabled))
        (record { free = v.free; apart = v.apart; ring = v.ring })

  pub set_rate_limit_strategy-IsValid :
      (env : Env) (caller : Address) (route : Route) (strategy : RateLimitStrategy)
      → Keeps (set_rate_limit_strategy env s caller route strategy)
  unfolding set_rate_limit_strategy
  set_rate_limit_strategy-IsValid env caller route strategy =
      admin-Keeps env caller
        (publish (record s { rate_limit_strategy = insert s.rate_limit_strategy route strategy })
          (Event.rate_limit_strategy_set route strategy))
        (record { free = v.free; apart = v.apart; ring = v.ring })

  pub transfer_admin-IsValid :
      (env : Env) (current new_admin : Address) → Keeps (transfer_admin env s current new_admin)
  unfolding transfer_admin
  transfer_admin-IsValid env current new_admin =
      admin-Keeps env current
        (publish (record s { admin = some new_admin }) (Event.admin_transferred current new_admin))
        (record { free = v.free; apart = v.apart; ring = v.ring })

  -- The overrides and the events are not part of the invariant.
  overrides-IsValid :
      (overrides : Route → Map CallerRateLimitConfig) (e : Event)
      → IsValid (publish (record s { caller_rate_limit = overrides }) e)
  overrides-IsValid overrides e = record { free = v.free; apart = v.apart; ring = v.ring }

  pub configure_caller_rate_limit-IsValid :
      (env : Env) (caller : Address) (route : Route) (target : Address)
      (config : CallerRateLimitConfig)
      → Keeps (configure_caller_rate_limit env s caller route target config)
  unfolding configure_caller_rate_limit
  configure_caller_rate_limit-IsValid env caller route target config =
      let t : State =
        publish
          (record s {
            caller_rate_limit =
                set_override s.caller_rate_limit route
                  (insert (s.caller_rate_limit route) target config);
          })
          (Event.caller_rate_limit_set route target config) in
      let invalid : Bool = config.window_secs == 0 && ltb 0 config.max_calls in
      let check : Call (Unit {0}) = fail_if invalid MiddlewareError.invalid_config in
      then-Holds IsValid (authorize env s caller) (check >> ok t)
        (then-Holds IsValid check (ok t) (overrides-IsValid _ _))

  pub remove_caller_rate_limit-IsValid :
      (env : Env) (caller : Address) (route : Route) (target : Address)
      → Keeps (remove_caller_rate_limit env s caller route target)
  unfolding remove_caller_rate_limit
  remove_caller_rate_limit-IsValid env caller route target =
      admin-Keeps env caller
        (publish
          (record s {
            caller_rate_limit =
                set_override s.caller_rate_limit route (remove (s.caller_rate_limit route) target);
          })
          (Event.caller_rate_limit_removed route target))
        (overrides-IsValid _ _)

  pub reset_guard-IsValid :
      (env : Env) (caller : Address) (route : Route) → Keeps (reset_guard env s caller route)
  unfolding reset_guard
  reset_guard-IsValid env caller route =
      admin-Keeps env caller
        (publish (record s { executing = remove s.executing route }) (Event.guard_reset route))
        (record { free = λ r. ground (arith, v.free r); apart = v.apart; ring = v.ring })

  -- A route's state may be replaced when its breaker stays sound.
  pub insert-IsValid :
      (route : Route) (st : RouteCallState) (e : Event)
      → st.circuit_breaker.is_open && st.circuit_breaker.is_half_open ≡ false
      → IsValid (publish (record s { route_call_state = insert s.route_call_state route st }) e)
  insert-IsValid route st e h = record {
    free = v.free;
    apart = λ r st' k. ground (arith, v.apart r st');
    ring = v.ring;
  }

  publish-IsValid : (e : Event) → IsValid (publish s e)
  publish-IsValid e = record { free = v.free; apart = v.apart; ring = v.ring }

  reset-IsValid :
      (route : Route) (o : Option RouteCallState)
      → IsValid (publish (reset_breaker s route o) (Event.circuit_reset route))
  reset-IsValid route none = publish-IsValid _
  reset-IsValid route (some st) = insert-IsValid route _ _ refl

  pub reset_circuit_breaker-IsValid :
      (env : Env) (caller : Address) (route : Route)
      → Keeps (reset_circuit_breaker env s caller route)
  unfolding reset_circuit_breaker reset
  reset_circuit_breaker-IsValid env caller route =
      admin-Keeps env caller (reset s route) (reset-IsValid route (s.route_call_state route))

  reset_limits-IsValid :
      (route : Route) (target : Address) (o : Option RouteCallState)
      → s.route_call_state route ≡ o
      → IsValid (publish (reset_limits s route target o) (Event.rate_limit_reset route target))
  reset_limits-IsValid route target none e = publish-IsValid _
  reset_limits-IsValid route target (some st) e = insert-IsValid route _ _ (v.apart route st e)

  pub reset_rate_limit-IsValid :
      (env : Env) (caller : Address) (route : Route) (target : Address)
      → Keeps (reset_rate_limit env s caller route target)
  unfolding reset_rate_limit reset_for_caller
  reset_rate_limit-IsValid env caller route target =
      admin-Keeps env caller (reset_for_caller s route target)
        (reset_limits-IsValid route target (s.route_call_state route) refl)

  clear-IsValid : (route : Route) → IsValid (clear s route)
  unfolding clear
  clear-IsValid route = record {
    free = v.free;
    apart = v.apart;
    ring = λ r config e p.
        if-IsRing (r == route) config.log_retention none (s.call_log r)
          (λ b. empty_log-IsRing config.log_retention p (v.ring r config e p).narrow)
          (λ b. v.ring r config e p);
  }

  pub reset_route_call_log-IsValid :
      (env : Env) (caller : Address) (route : Route)
      → Keeps (reset_route_call_log env s caller route)
  unfolding reset_route_call_log
  reset_route_call_log-IsValid env caller route =
      admin-Keeps env caller (clear s route) (clear-IsValid route)
