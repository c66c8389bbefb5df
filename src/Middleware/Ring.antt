-- ===== src/Middleware/Ring.antt =====
-- The ring buffer of contracts/router-middleware/src/call_log.rs refines a bounded list.
use stellar_router.Prelude.{
  ℕ, ◌+◌, ◌%◌, ◌≤◌, ◌<◌, ◌++◌, List, [], ◌∷◌, ◌≡◌, refl, ap, ◌∙◌, arith, length, ltb, if◌then◌else◌,
}
use Prim.Native.Nat.{min}
use mathlib.Core.List.{append-nil}
use stellar_router.Prelude.Words.{u32_max, saturating_add_u32}
use stellar_router.Prelude.Sequence.{set, take, drop, rotate, length-replicate}
use stellar_router.Common.{Address, ok}
use stellar_router.Middleware.{Route, CallLogEntry, CallLogState, Call}
use stellar_router.Middleware.CallLog.{push_entry, empty_log, empty_call_log}

-- Where the ring buffer stands: it grows from nothing; or it was created with its size, and fills up
-- from the start; or it is full, and the head goes round.
pub data Place (cap : ℕ) (log : CallLogState) : Type 0 where
  grows : length log.entries ≡ log.count → log.count < cap → log.head ≡ 0 → Place cap log
  fills : length log.entries ≡ cap → log.count < cap → log.head ≡ log.count → Place cap log
  turns : length log.entries ≡ cap → log.count ≡ cap → log.head < cap → Place cap log

-- A ring buffer for `cap` entries.
pub record IsRing (cap : ℕ) (log : CallLogState) : Type 0 where
  pub positive : 0 < cap
  pub narrow : cap ≤ u32_max
  pub place : Place cap log

-- The entries, oldest first.
abbrev pub contents : CallLogState → List CallLogEntry
contents log =
    if ltb log.count (length log.entries)
    then take log.count log.entries
    else rotate log.head log.entries

-- A list of at most `cap` entries after one more: a full one loses its oldest.
abbrev pub remember : ℕ → List CallLogEntry → CallLogEntry → List CallLogEntry
remember cap entries entry =
    if ltb (length entries) cap then entries ++ entry ∷ [] else drop 1 entries ++ entry ∷ []

pub empty_log-IsRing : (cap : ℕ) → 0 < cap → cap ≤ u32_max → IsRing cap empty_log
empty_log-IsRing cap p n = record { positive = p; narrow = n; place = grows refl p refl }

pub empty_call_log-IsRing :
    (caller : Address) (route : Route) (cap : ℕ)
    → 0 < cap
    → cap ≤ u32_max
    → IsRing cap (empty_call_log caller route cap)
unfolding empty_call_log
empty_call_log-IsRing caller route cap p n = record {
  positive = p;
  narrow = n;
  place = fills (length-replicate cap _) p refl;
}

-- Up to the width, the count only stops at the capacity.
raise_count-narrow :
    (count cap : ℕ)
    → count ≤ cap
    → cap ≤ u32_max
    → min (saturating_add_u32 count 1) cap ≡ min (count + 1) cap
raise_count-narrow count cap h n = ground arith

-- What a push does: the new buffer stands for the list that remembers one more entry.
abbrev pub Pushes : ℕ → CallLogState → CallLogEntry → Call CallLogState → Type 0
Pushes cap log entry result =
    (log' : CallLogState) × (result ≡ ok log')
    × IsRing cap log'
    × (contents log' ≡ remember cap (contents log) entry)

-- The log after a push that makes the vector longer, and after one that writes over the head.
abbrev pub appended : CallLogState → CallLogEntry → CallLogState
appended log entry = record log { entries = log.entries ++ entry ∷ []; count = log.count + 1 }

abbrev pub written : ℕ → CallLogState → CallLogEntry → CallLogState
written cap log entry = record log {
  entries = set log.entries log.head entry;
  head = (log.head + 1) % cap;
  count = min (log.count + 1) cap;
}

pub push_entry-appended :
    (cap : ℕ) (log : CallLogState) (entry : CallLogEntry)
    → cap ≤ u32_max
    → length log.entries ≡ log.count
    → log.count < cap
    → push_entry log entry cap ≡ ok (appended log entry)
unfolding push_entry
push_entry-appended cap log entry n l c = ground arith

pub push_entry-written :
    (cap : ℕ) (log : CallLogState) (entry : CallLogEntry)
    → cap ≤ u32_max
    → length log.entries ≡ cap
    → log.count ≤ cap
    → log.head < cap
    → push_entry log entry cap ≡ ok (written cap log entry)
unfolding push_entry
push_entry-written cap log entry n l c h = ground (arith, raise_count-narrow log.count cap c n)

pub contents-full :
    (log : CallLogState)
    → length log.entries ≤ log.count
    → contents log ≡ rotate log.head log.entries
contents-full log h = ground arith

pub contents-filling :
    (log : CallLogState)
    → log.count < length log.entries
    → contents log ≡ take log.count log.entries
contents-filling log h = ground arith

pub contents-grows :
    (log : CallLogState)
    → length log.entries ≡ log.count
    → log.head ≡ 0
    → contents log ≡ log.entries
contents-grows log l h =
    contents-full log (omega arith) ∙ ap (λ n. rotate n log.entries) h ∙ append-nil log.entries

pub remember-short :
    (cap : ℕ) (entries : List CallLogEntry) (entry : CallLogEntry)
    → length entries < cap
    → remember cap entries entry ≡ entries ++ entry ∷ []
remember-short cap entries entry h = ground arith

pub remember-full :
    (cap : ℕ) (entries : List CallLogEntry) (entry : CallLogEntry)
    → cap ≤ length entries
    → remember cap entries entry ≡ drop 1 entries ++ entry ∷ []
remember-full cap entries entry h = ground arith
