-- ===== src/Middleware/Push.antt =====
-- A push into the ring buffer of contracts/router-middleware/src/call_log.rs, by where the buffer stands.
use stellar_router.Prelude.{
  ℕ, suc, ◌+◌, ◌%◌, ◌≤◌, ◌<◌, ◌++◌, [], ◌∷◌, ◌≡◌, sym, ap, ◌∙◌, inl, inr, arith, length,
  length-append, ltb, Bool-cases,
}
use native.Mathlib.Nat.{mod-lt, mod-eq_of_lt}
use stellar_router.Prelude.Words.{u32_max}
use stellar_router.Prelude.Sequence.{
  set, take, rotate, length-set, take-set, take-length, length-take, length-rotate, rotate-set,
  rotate-suc, rotate-length,
}
use stellar_router.Middleware.{CallLogEntry, CallLogState}
use stellar_router.Middleware.CallLog.{push_entry}
use stellar_router.Middleware.Ring.{
  Place, grows, fills, turns, IsRing, contents, remember, Pushes, appended, written,
  push_entry-appended, push_entry-written, contents-full, contents-filling, contents-grows,
  remember-short, remember-full,
}

length-appended :
    (log : CallLogState) (entry : CallLogEntry)
    → length log.entries ≡ log.count
    → length (log.entries ++ entry ∷ []) ≡ log.count + 1
length-appended log entry l = omega (arith, length-append log.entries (entry ∷ []))

appended-Place :
    (cap : ℕ) (log : CallLogState) (entry : CallLogEntry)
    → length log.entries ≡ log.count
    → log.count < cap
    → log.head ≡ 0
    → Place cap (appended log entry)
appended-Place cap log entry l c h = elim (Bool-cases (ltb (log.count + 1) cap)) [
  | inl t ↦ grows (length-appended log entry l) (ground arith) h
  | inr f ↦
      let e : log.count + 1 ≡ cap = ground arith in
      turns (length-appended log entry l ∙ e) e (ground arith)
]

push_grows :
    (cap : ℕ) (log : CallLogState) (entry : CallLogEntry)
    → cap ≤ u32_max
    → length log.entries ≡ log.count
    → log.count < cap
    → log.head ≡ 0
    → Pushes cap log entry (push_entry log entry cap)
push_grows cap log entry n l c h = (
  appended log entry,
  push_entry-appended cap log entry n l c,
  record { positive = omega arith; narrow = n; place = appended-Place cap log entry l c h },
  contents-grows (appended log entry) (length-appended log entry l) h
      ∙ sym (remember-short cap log.entries entry (omega arith))
      ∙ ap (λ es. remember cap es entry) (sym (contents-grows log l h)),
)

length-written :
    (cap : ℕ) (log : CallLogState) (entry : CallLogEntry)
    → length log.entries ≡ cap
    → length (set log.entries log.head entry) ≡ cap
length-written cap log entry l = length-set log.entries log.head entry ∙ l

-- The written log is full: it has turned by one.
contents-turned :
    (cap : ℕ) (log : CallLogState) (entry : CallLogEntry)
    → length log.entries ≡ cap
    → log.head < cap
    → cap ≤ log.count + 1
    → contents (written cap log entry) ≡ rotate (suc log.head) (set log.entries log.head entry)
contents-turned cap log entry l h c =
    contents-full (written cap log entry) (omega (arith, length-written cap log entry l))
    ∙ ap (λ k. rotate ((log.head + 1) % k) (set log.entries log.head entry))
        (sym (length-written cap log entry l))
    ∙ rotate-suc log.head (set log.entries log.head entry)
        (omega (arith, length-written cap log entry l))

push_turns :
    (cap : ℕ) (log : CallLogState) (entry : CallLogEntry)
    → cap ≤ u32_max
    → length log.entries ≡ cap
    → log.count ≡ cap
    → log.head < cap
    → Pushes cap log entry (push_entry log entry cap)
push_turns cap log entry n l c h = (
  written cap log entry,
  push_entry-written cap log entry n l (omega arith) h,
  record {
    positive = omega arith;
    narrow = n;
    place =
        turns (length-written cap log entry l) (omega arith) (mod-lt (log.head + 1) (omega arith));
  },
  contents-turned cap log entry l h (omega arith)
      ∙ rotate-set log.head log.entries entry (omega arith)
      ∙ sym (
          remember-full cap (rotate log.head log.entries) entry
            (omega (arith, length-rotate log.head log.entries (omega arith))))
      ∙ ap (λ es. remember cap es entry) (sym (contents-full log (omega arith))),
)

written-Place :
    (cap : ℕ) (log : CallLogState) (entry : CallLogEntry)
    → length log.entries ≡ cap
    → log.count < cap
    → log.head ≡ log.count
    → Place cap (written cap log entry)
written-Place cap log entry l c h = elim (Bool-cases (ltb (log.count + 1) cap)) [
  | inl t ↦
      fills (length-written cap log entry l) (ground arith)
        (mod-eq_of_lt (ground arith) ∙ ground arith)
  | inr f ↦
      turns (length-written cap log entry l) (ground arith) (mod-lt (log.head + 1) (omega arith))
]

-- The written log has been filled up to the head.
contents-advanced :
    (cap : ℕ) (log : CallLogState) (entry : CallLogEntry)
    → length log.entries ≡ cap
    → log.count < cap
    → log.head ≡ log.count
    → contents (written cap log entry) ≡ take (suc log.head) (set log.entries log.head entry)
contents-advanced cap log entry l c h = elim (Bool-cases (ltb (log.count + 1) cap)) [
  | inl t ↦
      contents-filling (written cap log entry) (ground (arith, length-written cap log entry l))
      ∙ ap (λ n. take n (set log.entries log.head entry)) {y = suc log.head} (ground arith)
  | inr f ↦
      let e : suc log.head ≡ length (set log.entries log.head entry) =
        ground (arith, length-written cap log entry l) in
      contents-turned cap log entry l (omega arith) (ground arith)
      ∙ rotate-length (suc log.head) (set log.entries log.head entry) e
      ∙ sym (take-length (suc log.head) (set log.entries log.head entry) (omega arith))
]

contents-filled :
    (cap : ℕ) (log : CallLogState) (entry : CallLogEntry)
    → length log.entries ≡ cap
    → log.count < cap
    → log.head ≡ log.count
    → contents (written cap log entry) ≡ take log.count log.entries ++ entry ∷ []
contents-filled cap log entry l c h =
    contents-advanced cap log entry l c h
    ∙ take-set log.head log.entries entry (omega arith)
    ∙ ap (λ n. take n log.entries ++ entry ∷ []) h

push_fills :
    (cap : ℕ) (log : CallLogState) (entry : CallLogEntry)
    → cap ≤ u32_max
    → length log.entries ≡ cap
    → log.count < cap
    → log.head ≡ log.count
    → Pushes cap log entry (push_entry log entry cap)
push_fills cap log entry n l c h = (
  written cap log entry,
  push_entry-written cap log entry n l (omega arith) (omega arith),
  record { positive = omega arith; narrow = n; place = written-Place cap log entry l c h },
  contents-filled cap log entry l c h
      ∙ sym (
          remember-short cap (take log.count log.entries) entry
            (omega (arith, length-take log.count log.entries (omega arith))))
      ∙ ap (λ es. remember cap es entry) (sym (contents-filling log (omega arith))),
)

push-at :
    (cap : ℕ) (log : CallLogState) (entry : CallLogEntry)
    → cap ≤ u32_max
    → Place cap log
    → Pushes cap log entry (push_entry log entry cap)
push-at cap log entry n (grows l c h) = push_grows cap log entry n l c h
push-at cap log entry n (fills l c h) = push_fills cap log entry n l c h
push-at cap log entry n (turns l c h) = push_turns cap log entry n l c h

-- A push into a ring buffer of capacity `cap` does not fail: it gives a ring buffer again, and its
-- contents are those before with the entry at the end, without the oldest when there were `cap`.
pub push_entry-Pushes :
    (cap : ℕ) (log : CallLogState) (entry : CallLogEntry)
    → IsRing cap log
    → Pushes cap log entry (push_entry log entry cap)
push_entry-Pushes cap log entry r = push-at cap log entry r.narrow r.place
