-- ===== src/Middleware/Remembers.antt =====
-- The call log of router-middleware as its callers see it.
use stellar_router.Prelude.{
  Map, ℕ, ◌<◌, Bool, true, Option, none, some, List, [], ◌∷◌, ◌≡◌, refl, sym, ap, ◌∙◌, arith, ltb,
  ==_refl, ◌==◌, if◌then◌else◌, unwrap_or, insert, filter,
}
use mathlib.Core.Path.{subst}
use stellar_router.Common.{Address, Env, ok, ◌>>=◌, require_auth}
use stellar_router.Common.Holds.{Holds, Holds-ok, bind-Holds, then-Holds, if-Holds, ok-Holds}
use stellar_router.Middleware
use stellar_router.Middleware.{
  Route, RouteConfig, RouteCallState, CircuitBreakerState, CallLogEntry, CallLogState,
  CallLogSummary, Call, Event, publish,
}
use stellar_router.Middleware.CircuitBreaker.{default_route_call_state}
use stellar_router.Middleware.CallLog.{append, empty_log, included, ordered_of, get_call_log}
use stellar_router.Middleware.Calls.{publish_all, settle_breaker, post_call_route, post_call}
use stellar_router.Middleware.Ring.{IsRing, contents, remember}
use stellar_router.Middleware.Append.{append-Holds, logged}
use stellar_router.Middleware.Readers.{ordered_entries-IsRing}
use stellar_router.Middleware.Invariant.{IsValid, log_of}

abbrev State : Type 0
State = Middleware.Middleware

filter-all : (xs : List CallLogEntry) → filter (included none) xs ≡ xs
filter-all [] = refl
filter-all (x ∷ xs) = ap (λ ys. x ∷ ys) (filter-all xs)

ordered_of-contents :
    (cap : ℕ) (o : Option CallLogState)
    → IsRing cap (unwrap_or o empty_log)
    → ordered_of none o ≡ contents (unwrap_or o empty_log)
unfolding ordered_of
ordered_of-contents cap none r = refl
ordered_of-contents cap (some log) r =
    ordered_entries-IsRing none cap log r ∙ filter-all (contents log)

get_call_log-contents :
    (cap : ℕ) (s : State) (route : Route)
    → IsRing cap (log_of s route)
    → get_call_log s route ≡ contents (log_of s route)
unfolding get_call_log
get_call_log-contents cap s route r = ordered_of-contents cap (s.call_log route) r

-- The log of a route after an entry.
abbrev Logs : ℕ → State → Route → CallLogEntry → State → Type 0
Logs cap s route entry t = get_call_log t route ≡ remember cap (get_call_log s route) entry

stored_log :
    (s : State) (route : Route) (log : CallLogState)
    → unwrap_or (insert s.call_log route log route) empty_log ≡ log
stored_log s route log = ground (arith, ==_refl route)

zero_size : (n : ℕ) → 0 < n → (n == 0) ≡ true → ⊥
zero_size n p h = ground arith

append-Logs :
    (env : Env) (s : State) (caller : Address) (route : Route) (success : Bool)
    (config : RouteConfig)
    → IsRing config.log_retention (log_of s route)
    → Holds
        (Logs config.log_retention s route
          (record { caller = caller; timestamp = env.timestamp; success = success; route = route }))
        (append env s caller route success config)
append-Logs env s caller route success config r =
    let cap : ℕ = config.log_retention in
    let entry : CallLogEntry = record {
      caller = caller;
      timestamp = env.timestamp;
      success = success;
      route = route;
    } in
    append-Holds env s caller route success config (Logs cap s route entry) (λ p. r)
      (λ z. absurd (zero_size cap r.positive z))
      (λ log sum w.
        get_call_log-contents cap (logged s route log sum) route
          (subst (IsRing cap) (sym (stored_log s route log)) w.0)
        ∙ ap contents (stored_log s route log)
        ∙ w.1
        ∙ ap (λ es. remember cap es entry) (sym (get_call_log-contents cap s route r)))

-- The breaker's part of `post_call` leaves the log.
settle-Logs :
    (cap : ℕ) (s t : State) (route : Route) (entry : CallLogEntry) (o : Map RouteCallState)
    (es : List Event)
    → Logs cap s route entry t
    → Logs cap s route entry (record (publish_all t es) { route_call_state = o })
unfolding get_call_log
settle-Logs cap s t route entry o es h = h

post_call_route-Logs :
    (env : Env) (s : State) (caller : Address) (route : Route) (success : Bool)
    (config : RouteConfig)
    → IsRing config.log_retention (log_of s route)
    → Holds
        (Logs config.log_retention s route
          (record { caller = caller; timestamp = env.timestamp; success = success; route = route }))
        (post_call_route env s caller route success (some config))
unfolding post_call_route
post_call_route-Logs env s caller route success config r =
    let cap : ℕ = config.log_retention in
    let entry : CallLogEntry = record {
      caller = caller;
      timestamp = env.timestamp;
      success = success;
      route = route;
    } in
    let P : State → Type 0 = Logs cap s route entry in
    let st : State → RouteCallState =
      λ t. unwrap_or (t.route_call_state route) default_route_call_state in
    let settle : State → Call (CircuitBreakerState × List Event) =
      λ t. settle_breaker env route config success (st t).circuit_breaker in
    let write : State → CircuitBreakerState × List Event → Call State = λ t r.
      ok (record (publish_all t r.1) {
        route_call_state =
            insert t.route_call_state route (record (st t) { circuit_breaker = r.0 });
      }) in
    let on : Bool = ltb 0 config.failure_threshold in
    let rest : State → Call State = λ t. if on then settle t >>= write t else ok t in
    bind-Holds P P (append env s caller route success config) rest
      (append-Logs env s caller route success config r)
      (λ t w.
        if-Holds P on (settle t >>= write t) (ok t)
          (bind-Holds (λ _. Unit {0}) P (settle t) (write t) (ok-Holds _ _ (λ n e. tt))
            (λ q u. settle-Logs cap s t route entry _ q.1 w))
          w)

-- After a `post_call` that succeeds on a well-formed storage, the call log of a configured route that
-- keeps a log has the entry of the call at its end, after the newest entries that it had before, up to
-- its configured size.
pub post_call-remembers :
    (env : Env) (s : State) (caller : Address) (route : Route) (success : Bool)
    (config : RouteConfig) (t : State)
    → IsValid s
    → s.route_config route ≡ some config
    → 0 < config.log_retention
    → post_call env s caller route success ≡ ok t
    → get_call_log t route
      ≡ remember config.log_retention
          (get_call_log s route)
          (record { caller = caller; timestamp = env.timestamp; success = success; route = route })
unfolding post_call get_call_log
post_call-remembers env s caller route success config t v c p h =
    let entry : CallLogEntry = record {
      caller = caller;
      timestamp = env.timestamp;
      success = success;
      route = route;
    } in
    let P : State → Type 0 = Logs config.log_retention s route entry in
    let u : State = publish s (Event.post_call caller route success) in
    let body : Option RouteConfig → Call State = post_call_route env u caller route success in
    Holds-ok P (post_call env s caller route success) t
      (then-Holds P (require_auth env caller) (body (s.route_config route)) (
        subst (λ o. Holds P (body o)) (sym c)
          (post_call_route-Logs env u caller route success config (v.ring route config c p))))
      h
