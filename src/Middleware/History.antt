-- ===== src/Middleware/History.antt =====
-- Histories of router-middleware: a call at a time, an error or a panic leaves the storage as it was.
use stellar_router.Prelude.{Bool, List, [], ◌∷◌}
use stellar_router.Common.{Address, Env, ok, err, panic}
use stellar_router.Middleware
use stellar_router.Middleware.{
  Route, RouteConfig, RateLimitStrategy, CallerRateLimitConfig, Call, deployed,
}
use stellar_router.Middleware.Calls
use stellar_router.Middleware.Invariant.{
  IsValid, Keeps, deployed-IsValid, initialize-IsValid, set_global_enabled-IsValid,
  set_rate_limit_strategy-IsValid, transfer_admin-IsValid, configure_caller_rate_limit-IsValid,
  remove_caller_rate_limit-IsValid, reset_guard-IsValid, reset_circuit_breaker-IsValid,
  reset_rate_limit-IsValid, reset_route_call_log-IsValid,
}
use stellar_router.Middleware.Configure.{configure_route-IsValid}
use stellar_router.Middleware.PreCall.{pre_call-IsValid}
use stellar_router.Middleware.PostCall.{post_call-IsValid}

abbrev State : Type 0
State = Middleware.Middleware

-- The calls that change the storage, with their arguments.
pub data Request : Type 0 where
  initialize : Address → Request
  configure_route : Address → Route → RouteConfig → Request
  pre_call : Address → Route → Request
  post_call : Address → Route → Bool → Request
  set_global_enabled : Address → Bool → Request
  reset_route_call_log reset_circuit_breaker reset_guard : Address → Route → Request
  reset_rate_limit remove_caller_rate_limit : Address → Route → Address → Request
  set_rate_limit_strategy : Address → Route → RateLimitStrategy → Request
  transfer_admin : Address → Address → Request
  configure_caller_rate_limit : Address → Route → Address → CallerRateLimitConfig → Request

abbrev pub call : Env → Request → State → Call State
call env (initialize admin) s = Calls.initialize s admin
call env (configure_route caller route config) s = Calls.configure_route env s caller route config
call env (pre_call caller route) s = Calls.pre_call env s caller route
call env (post_call caller route success) s = Calls.post_call env s caller route success
call env (set_global_enabled caller enabled) s = Calls.set_global_enabled env s caller enabled
call env (reset_route_call_log caller route) s = Calls.reset_route_call_log env s caller route
call env (reset_circuit_breaker caller route) s = Calls.reset_circuit_breaker env s caller route
call env (reset_guard caller route) s = Calls.reset_guard env s caller route
call env (reset_rate_limit caller route target) s = Calls.reset_rate_limit env s caller route target
call env (remove_caller_rate_limit caller route target) s =
    Calls.remove_caller_rate_limit env s caller route target
call env (set_rate_limit_strategy caller route strategy) s =
    Calls.set_rate_limit_strategy env s caller route strategy
call env (transfer_admin current new_admin) s = Calls.transfer_admin env s current new_admin
call env (configure_caller_rate_limit caller route target config) s =
    Calls.configure_caller_rate_limit env s caller route target config

-- The storage after a call: the host rolls a failed call back.
abbrev pub settle : State → Call State → State
settle s (ok t) = t
settle s (err e) = s
settle s panic = s

unfoldable pub replay : List (Env × Request) → State → State
replay [] s = s
replay ((env, r) ∷ rs) s = replay rs (settle s (call env r s))

call-IsValid : (env : Env) (r : Request) (s : State) → IsValid s → Keeps (call env r s)
call-IsValid env (initialize admin) s v = initialize-IsValid s v admin
call-IsValid env (configure_route caller route config) s v =
    configure_route-IsValid s v env caller route config
call-IsValid env (pre_call caller route) s v = pre_call-IsValid s v env caller route
call-IsValid env (post_call caller route success) s v =
    post_call-IsValid s v env caller route success
call-IsValid env (set_global_enabled caller enabled) s v =
    set_global_enabled-IsValid s v env caller enabled
call-IsValid env (reset_route_call_log caller route) s v =
    reset_route_call_log-IsValid s v env caller route
call-IsValid env (reset_circuit_breaker caller route) s v =
    reset_circuit_breaker-IsValid s v env caller route
call-IsValid env (reset_guard caller route) s v = reset_guard-IsValid s v env caller route
call-IsValid env (reset_rate_limit caller route target) s v =
    reset_rate_limit-IsValid s v env caller route target
call-IsValid env (remove_caller_rate_limit caller route target) s v =
    remove_caller_rate_limit-IsValid s v env caller route target
call-IsValid env (set_rate_limit_strategy caller route strategy) s v =
    set_rate_limit_strategy-IsValid s v env caller route strategy
call-IsValid env (transfer_admin current new_admin) s v =
    transfer_admin-IsValid s v env current new_admin
call-IsValid env (configure_caller_rate_limit caller route target config) s v =
    configure_caller_rate_limit-IsValid s v env caller route target config

settle-IsValid : (s : State) (m : Call State) → IsValid s → Keeps m → IsValid (settle s m)
settle-IsValid s (ok t) v k = k
settle-IsValid s (err e) v k = v
settle-IsValid s panic v k = v

replay-IsValid : (rs : List (Env × Request)) (s : State) → IsValid s → IsValid (replay rs s)
unfolding replay
replay-IsValid [] s v = v
replay-IsValid ((env, r) ∷ rs) s v =
    replay-IsValid rs (settle s (call env r s))
      (settle-IsValid s (call env r s) v (call-IsValid env r s v))

-- Whatever calls are made on a new contract, at any times and by anyone, the storage is well formed
-- after them: no route is left guarded as executing, no breaker is open and half open at once, and
-- every route that is configured to keep a log has a ring buffer of the configured size, or none yet.
pub replay-deployed-IsValid : (rs : List (Env × Request)) → IsValid (replay rs deployed)
replay-deployed-IsValid rs = replay-IsValid rs deployed deployed-IsValid
