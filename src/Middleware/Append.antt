-- ===== src/Middleware/Append.antt =====
-- `append` of contracts/router-middleware/src/call_log.rs over a well-formed ring buffer.
use stellar_router.Prelude.{
  ℕ, ◌<◌, Bool, true, false, ◌≡◌, refl, sym, arith, ◌==◌, if◌then◌else◌, unwrap_or, insert,
}
use mathlib.Core.Path.{subst}
use stellar_router.Common.{Address, Env, ok, ◌>>=◌}
use stellar_router.Common.Holds.{Holds, bind-Holds, ok-Holds}
use stellar_router.Middleware
use stellar_router.Middleware.{Route, RouteConfig, CallLogEntry, CallLogState, CallLogSummary, Call}
use stellar_router.Middleware.CallLog.{push_entry, count_entry, append, empty_summary}
use stellar_router.Middleware.Ring.{IsRing, contents, remember}
use stellar_router.Middleware.Push.{push_entry-Pushes}
use stellar_router.Middleware.Invariant.{log_of}

abbrev State : Type 0
State = Middleware.Middleware

-- The ring buffer that stands for `log` with one more entry.
abbrev pub Follows : ℕ → CallLogState → CallLogEntry → CallLogState → Type 0
Follows cap log entry log' = IsRing cap log' × (contents log' ≡ remember cap (contents log) entry)

abbrev pub logged : State → Route → CallLogState → CallLogSummary → State
logged s route log sum = record s {
  call_log = insert s.call_log route log;
  call_log_summary = insert s.call_log_summary route sum;
}

module _ (env : Env) (s : State) (caller : Address) (route : Route) (success : Bool)
    (config : RouteConfig) (P : State → Type 0) where
  abbrev pub entry : CallLogEntry
  entry = record { caller = caller; timestamp = env.timestamp; success = success; route = route }

  -- The append, `b` being whether the route keeps no log.
  append-body :
      (b : Bool)
      → (config.log_retention == 0) ≡ b
      → (0 < config.log_retention → IsRing config.log_retention (log_of s route))
      → (b ≡ true → P s)
      → ((log : CallLogState) (sum : CallLogSummary)
          → Follows config.log_retention (log_of s route) entry log
          → P (logged s route log sum))
      → Holds P (
          if b
          then ok s
          else (push_entry (log_of s route) entry config.log_retention >>= λ (log : CallLogState).
              count_entry env.timestamp success (unwrap_or (s.call_log_summary route) empty_summary)
              >>= λ (sum : CallLogSummary). ok (logged s route log sum)))
  append-body true h r z k = z refl
  append-body false h r z k =
      let count : Call CallLogSummary =
        count_entry env.timestamp success (unwrap_or (s.call_log_summary route) empty_summary) in
      let store : CallLogState → CallLogSummary → Call State =
        λ log sum. ok (logged s route log sum) in
      let Next : CallLogState → Type 0 = Follows config.log_retention (log_of s route) entry in
      let (log', e, r', c) =
        push_entry-Pushes config.log_retention (log_of s route) entry (r (ground arith)) in
      bind-Holds Next P (push_entry (log_of s route) entry config.log_retention)
        (λ log. count >>= store log) (subst (Holds Next) (sym e) (r', c))
        (λ log f.
          bind-Holds (λ _. Unit {0}) P count (store log) (ok-Holds _ _ (λ n e. tt))
            (λ sum u. k log sum f))

  -- An append to a ring buffer does nothing for a route without a log, and else stores the ring buffer
  -- with the entry.
  pub append-Holds :
      (0 < config.log_retention → IsRing config.log_retention (log_of s route))
      → ((config.log_retention == 0) ≡ true → P s)
      → ((log : CallLogState) (sum : CallLogSummary)
          → Follows config.log_retention (log_of s route) entry log
          → P (logged s route log sum))
      → Holds P (append env s caller route success config)
  unfolding append
  append-Holds r z k = append-body (config.log_retention == 0) refl r z k
