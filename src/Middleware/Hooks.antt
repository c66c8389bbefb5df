-- ===== src/Middleware/Hooks.antt =====
-- `pre_call` and `post_call` of router-middleware keep the storage well formed.
use stellar_router.Prelude.{
  ℕ, Bool, true, false, not, ◌&&◌, ◌||◌, Option, none, some, ◌≡◌, refl, ◌∙◌, arith, ltb,
  if◌then◌else◌, unwrap_or,
}
use stellar_router.Prelude.Assoc.{set}
use stellar_router.Common.{Address, Env, ok, ◌>>=◌, fail_if}
use stellar_router.Common.Holds.{Holds, bind-Holds, then-Holds, if-Holds, ok-Holds}
use stellar_router.Middleware
use stellar_router.Middleware.{
  Route, RouteConfig, RouteCallState, RateLimitState, RateLimitStrategy, CircuitBreakerState,
  CallLogState, CallLogSummary, CallLogEntry, MiddlewareError, Call, Event, publish, reject,
  throttle, log_only,
}
use stellar_router.Middleware.RateLimit.{RateLimitCheck, check_and_increment}
use stellar_router.Middleware.CircuitBreaker.{default_route_call_state, check_and_transition}
use stellar_router.Middleware.Calls.{
  prune_due, pass_breaker, pass_limit, react, effective_limit, is_unlimited, is_active, check_route,
  commit,
}

abbrev State : Type 0
State = Middleware.Middleware

abbrev pub IsApart : RouteCallState → Type 0
IsApart st = st.circuit_breaker.is_open && st.circuit_breaker.is_half_open ≡ false

-- What the checks of `pre_call` may change in the storage.
pub record IsLike (s t : State) : Type 0 where
  pub executing : t.executing ≡ s.executing
  pub route_call_state : t.route_call_state ≡ s.route_call_state
  pub route_config : t.route_config ≡ s.route_config
  pub call_log : t.call_log ≡ s.call_log

-- The breakers of what is to be committed.
abbrev pub Commits : Option RouteCallState → Type 0
Commits none = Unit
Commits (some st) = IsApart st

prune_due-keeps :
    (env : Env) (s : State) (route : Route) (config : RouteConfig) (st : RouteCallState)
    → IsApart st
    → IsApart (prune_due env s route config st).0 × IsLike s (prune_due env s route config st).2
unfolding prune_due
prune_due-keeps env s route config st a = (
  ground (arith, a),
  record {
    executing = ground arith;
    route_call_state = ground arith;
    route_config = ground arith;
    call_log = ground arith;
  },
)

pass_breaker-keeps :
    (env : Env) (config : RouteConfig) (st : RouteCallState)
    → IsApart st
    → Holds (λ (r : RouteCallState × Bool). IsApart r.0) (pass_breaker env config st)
unfolding pass_breaker check_and_transition
pass_breaker-keeps env config st a =
    let P : RouteCallState × Bool → Type 0 = λ r. IsApart r.0 in
    ok-Holds P (pass_breaker env config st) (λ r e. ground (arith, a))

IsLike-refl : (s : State) → IsLike s s
IsLike-refl s = record {
  executing = refl;
  route_call_state = refl;
  route_config = refl;
  call_log = refl;
}

react-IsLike :
    (s : State) (caller : Address) (route : Route) (strategy : RateLimitStrategy)
    → Holds (IsLike s) (react s caller route strategy)
react-IsLike s caller route reject = tt
react-IsLike s caller route throttle = record {
  executing = refl;
  route_call_state = refl;
  route_config = refl;
  call_log = refl;
}
react-IsLike s caller route log_only = record {
  executing = refl;
  route_call_state = refl;
  route_config = refl;
  call_log = refl;
}

pass_limit-keeps :
    (env : Env) (s : State) (caller : Address) (route : Route) (config : RouteConfig)
    (st : RouteCallState)
    → IsApart st
    → Holds
        (λ (r : RouteCallState × Bool × State). IsApart r.0 × IsLike s r.2)
        (pass_limit env s caller route config st)
unfolding pass_limit
pass_limit-keeps env s caller route config st a =
    let override = s.caller_rate_limit route caller in
    let limit : ℕ × ℕ = effective_limit config override in
    let on : Bool =
      not (is_unlimited override) && (ltb 0 config.max_calls_per_window || is_active override) in
    let strategy = unwrap_or (s.rate_limit_strategy route) reject in
    let P : RouteCallState × Bool × State → Type 0 = λ r. IsApart r.0 × IsLike s r.2 in
    let react_if : Bool → Call State = λ b. if b then react s caller route strategy else ok s in
    let finish : RateLimitCheck → State → Call (RouteCallState × Bool × State) = λ check s'.
      ok (record st { rate_limits = set st.rate_limits caller check.updated_state }, true, s') in
    if-Holds P on
      (check_and_increment env caller st limit.0 limit.1 >>= λ (check : RateLimitCheck).
        react_if check.exceeded >>= finish check)
      (ok (st, false, s))
      (bind-Holds (λ _. Unit {0}) P (check_and_increment env caller st limit.0 limit.1)
        (λ (check : RateLimitCheck). react_if check.exceeded >>= finish check)
        (ok-Holds _ _ (λ c e. tt))
        (λ check u.
          bind-Holds (IsLike s) P (react_if check.exceeded) (finish check)
            (if-Holds (IsLike s) check.exceeded (react s caller route strategy) (ok s)
              (react-IsLike s caller route strategy) (IsLike-refl s))
            (λ s' l. (a, l))))
      (a, IsLike-refl s)

commit-Commits : (b : Bool) (st : RouteCallState) → IsApart st → Commits (commit b st)
commit-Commits true st a = a
commit-Commits false st a = tt

-- The state that the checks begin with.
pub stored-IsApart :
    (s : State) (o : Option RouteCallState)
    → ((st : RouteCallState) → o ≡ some st → IsApart st)
    → IsApart (unwrap_or o default_route_call_state)
stored-IsApart s none h = refl
stored-IsApart s (some st) h = h st refl

IsLike-trans : (s t u : State) → IsLike s t → IsLike t u → IsLike s u
IsLike-trans s t u l m = record {
  executing = m.executing ∙ l.executing;
  route_call_state = m.route_call_state ∙ l.route_call_state;
  route_config = m.route_config ∙ l.route_config;
  call_log = m.call_log ∙ l.call_log;
}

-- What the checks of a call end with.
abbrev pub Checked : State → Option RouteCallState × State → Type 0
Checked s r = Commits r.0 × IsLike s r.1

pub check_route-keeps :
    (env : Env) (s : State) (caller : Address) (route : Route) (o : Option RouteConfig)
    → IsApart (unwrap_or (s.route_call_state route) default_route_call_state)
    → Holds (Checked s) (check_route env s caller route o)
unfolding check_route
check_route-keeps env s caller route none a = (tt, IsLike-refl s)
check_route-keeps env s caller route (some config) a =
    let st = unwrap_or (s.route_call_state route) default_route_call_state in
    let pruned = prune_due env s route config st in
    let (a₁, l₁) = prune_due-keeps env s route config st a in
    let last : Bool → RouteCallState × Bool × State → Call (Option RouteCallState × State) =
      λ moved r. ok (commit (pruned.1 || moved || r.1) r.0, r.2) in
    let rest : RouteCallState × Bool → Call (Option RouteCallState × State) =
      λ q. pass_limit env pruned.2 caller route config q.0 >>= last q.1 in
    then-Holds (Checked s) (fail_if (not config.enabled) MiddlewareError.route_disabled)
      (pass_breaker env config pruned.0 >>= rest)
      (bind-Holds (λ (q : RouteCallState × Bool). IsApart q.0) (Checked s)
        (pass_breaker env config pruned.0) rest (pass_breaker-keeps env config pruned.0 a₁)
        (λ q a₂.
          bind-Holds (λ (r : RouteCallState × Bool × State). IsApart r.0 × IsLike pruned.2 r.2)
            (Checked s) (pass_limit env pruned.2 caller route config q.0) (last q.1)
            (pass_limit-keeps env pruned.2 caller route config q.0 a₂)
            (λ r h. (commit-Commits _ r.0 h.0, IsLike-trans s pruned.2 r.2 l₁ h.1))))
