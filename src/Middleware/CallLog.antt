-- ===== src/Middleware/CallLog.antt =====
-- contracts/router-middleware/src/call_log.rs, and the reads of the call log in lib.rs.
use stellar_router.Prelude.{
  ℕ, zero, suc, ◌+◌, ◌%◌, ◌++◌, Bool, true, false, not, Option, none, some, List, [], ◌∷◌, ltb,
  ◌==◌, unwrap_or, if◌then◌else◌, insert, remove, length,
}
use Prim.Native.Nat.{min}
use stellar_router.Prelude.Words.{saturating_add_u32}
use stellar_router.Prelude.Sequence.{get_elem?, set, replicate}
use stellar_router.Common.{Address, Env, ok, panic, ◌>>=◌, add_u32}
use stellar_router.Middleware
use stellar_router.Middleware.{
  Route, RouteConfig, CallLogEntry, CallLogState, CallLogSummary, Call, call_log_cleared, publish,
}

abbrev State : Type 0
State = Middleware.Middleware

abbrev pub empty_log : CallLogState
empty_log = record { entries = []; head = 0; count = 0 }

-- `count` after one more entry.
abbrev pub raise_count : CallLogState → ℕ → CallLogState
raise_count log cap = record log { count = min (saturating_add_u32 log.count 1) cap }

-- The ring buffer after one more entry, under a capacity that is not 0. `Vec::set` panics out of bounds.
unfoldable pub push_entry : CallLogState → CallLogEntry → ℕ → Call CallLogState
push_entry log entry cap =
    if ltb (length log.entries) cap
    then ok (raise_count (record log { entries = log.entries ++ entry ∷ [] }) cap)
    else if ltb log.head (length log.entries)
    then ok (
        raise_count
          (record log { entries = set log.entries log.head entry; head = (log.head + 1) % cap })
          cap)
    else panic

abbrev pub empty_summary : CallLogSummary
empty_summary = record {
  total_calls = 0;
  success_count = 0;
  failure_count = 0;
  last_call_timestamp = 0;
}

unfoldable pub count_entry : ℕ → Bool → CallLogSummary → Call CallLogSummary
count_entry now success summary = do
  total ← add_u32 summary.total_calls 1
  let successes = add_u32 summary.success_count 1
  let failures = add_u32 summary.failure_count 1
  if success
      then (do
        n ← successes
        ok (record summary { total_calls = total; success_count = n; last_call_timestamp = now }))
      else (do
        n ← failures
        ok (record summary { total_calls = total; failure_count = n; last_call_timestamp = now }))

unfoldable pub append : Env → State → Address → Route → Bool → RouteConfig → Call State
unfolding push_entry count_entry
append env s caller route success config =
    let entry : CallLogEntry = record {
      caller = caller;
      timestamp = env.timestamp;
      success = success;
      route = route;
    } in
    let log = push_entry (unwrap_or (s.call_log route) empty_log) entry config.log_retention in
    let summary =
      count_entry env.timestamp success (unwrap_or (s.call_log_summary route) empty_summary) in
    if config.log_retention == 0 then ok s else (do
      log' ← log
      summary' ← summary
      ok (record s {
        call_log = insert s.call_log route log';
        call_log_summary = insert s.call_log_summary route summary';
      }))

unfoldable pub clear : State → Route → State
clear s route =
    publish
      (record s {
        call_log = remove s.call_log route;
        call_log_summary = remove s.call_log_summary route;
      })
      (call_log_cleared route)

unfoldable pub empty_call_log : Address → Route → ℕ → CallLogState
empty_call_log caller route capacity = record {
  entries =
      replicate capacity
        (record { caller = caller; timestamp = 0; success = false; route = route });
  head = 0;
  count = 0;
}

-- Whether an entry passes the filter of the query.
abbrev pub included : Option Bool → CallLogEntry → Bool
included none entry = true
included (some true) entry = entry.success
included (some false) entry = not entry.success

abbrev pub push_if : Option Bool → Option CallLogEntry → List CallLogEntry → List CallLogEntry
push_if wanted none ordered = ordered
push_if wanted (some entry) ordered =
    if included wanted entry then ordered ++ entry ∷ [] else ordered

-- `for i in i..i+n`, where the entry of a round stands at `index i`.
unfoldable pub collect :
    Option Bool → List CallLogEntry → (ℕ → ℕ) → ℕ → ℕ → List CallLogEntry → List CallLogEntry
collect wanted entries index zero i ordered = ordered
collect wanted entries index (suc n) i ordered =
    collect wanted entries index n (i + 1) (push_if wanted (get_elem? entries (index i)) ordered)

unfoldable pub ordered_entries : Option Bool → CallLogState → List CallLogEntry
unfolding collect
ordered_entries wanted log =
    let cap = length log.entries in
    let from_start = collect wanted log.entries (λ i. i) log.count 0 [] in
    let from_head = collect wanted log.entries (λ i. (log.head + i) % cap) cap 0 [] in
    if log.count == 0
    then []
    else if cap == 0
    then []
    else if ltb log.count cap
    then from_start
    else from_head

unfoldable pub ordered_of : Option Bool → Option CallLogState → List CallLogEntry
unfolding ordered_entries
ordered_of wanted none = []
ordered_of wanted (some log) = ordered_entries wanted log

unfoldable pub get_call_log : State → Route → List CallLogEntry
unfolding ordered_of
get_call_log s route = ordered_of none (s.call_log route)

unfoldable pub get_call_log_filtered : State → Route → Bool → List CallLogEntry
unfolding ordered_of
get_call_log_filtered s route success_only = ordered_of (some success_only) (s.call_log route)

abbrev pub count_of : Option CallLogState → ℕ
count_of none = 0
count_of (some log) = log.count

unfoldable pub get_call_log_length : State → Route → ℕ
get_call_log_length s route = count_of (s.call_log route)

unfoldable pub get_call_log_summary : State → Route → Option CallLogSummary
get_call_log_summary s route = s.call_log_summary route
