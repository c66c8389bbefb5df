-- ===== src/Registry/InOrder.antt =====
-- A fail-fast batch of contracts/router-registry/src/lib.rs against registering its entries in order.
use stellar_router.Prelude.{
  ℕ, zero, suc, ◌+◌, ◌≤◌, ◌++◌, true, false, Option, none, some, List, [], ◌∷◌, ◌≡◌, refl, sym, ap,
  ◌∙◌, ◌⊎◌, inl, inr, arith, ltb, length,
}
use mathlib.Core.List.{append_assoc, append-nil}
use stellar_router.Common.{Address, Env, IsAdmin, ok, err, ◌>>=◌, ◌>>◌, fail_if}
use stellar_router.Common.Batch.{
  BatchSuccess, BatchItemError, BatchResult, empty_result, record_success, record_failure,
}
use stellar_router.Registry
use stellar_router.Registry.{
  Name, BulkRegistrationInput, RegistryError, Call, Event, max_bulk_batch_size, batch_too_large,
}
use stellar_router.Registry.Entries.{validate_registration, write_entry, register_entry}
use stellar_router.Registry.Calls.{authorize}
use stellar_router.Registry.Bulk.{
  registry_error_to_batch, emit_completed, completed, finish_fail_fast, check_entry, stop_at,
  check_all, write_all, bulk_register,
}
use stellar_router.Registry.Tracks.{
  Tracks, Tracks-refl, check_entry-validate_registration, write_entry-Tracks,
}

abbrev State : Type 0
State = Registry.Registry

-- One entry after the other, each by `register_entry`.
unfoldable pub register_in_order : State → Address → List BulkRegistrationInput → Call State
register_in_order s caller [] = ok s
register_in_order s caller (entry ∷ entries) =
    register_entry s caller entry.name entry.address entry.version >>= λ (t : State).
    register_in_order t caller entries

-- Registering the entries in order fails first at index `k`.
pub data FailsAt (caller : Address) : State → List BulkRegistrationInput → ℕ → Type 0 where
  here :
      (s : State) (entry : BulkRegistrationInput) (entries : List BulkRegistrationInput)
      (e : RegistryError)
      → register_entry s caller entry.name entry.address entry.version ≡ err e
      → FailsAt caller s (entry ∷ entries) zero
  later :
      (s t : State) (entry : BulkRegistrationInput) (entries : List BulkRegistrationInput) (k : ℕ)
      → register_entry s caller entry.name entry.address entry.version ≡ ok t
      → FailsAt caller t entries k
      → FailsAt caller s (entry ∷ entries) (suc k)

-- The successes at `n` indices from `idx` on.
abbrev pub success_range : ℕ → ℕ → List BatchSuccess
success_range idx zero = []
success_range idx (suc n) = record { index = idx } ∷ success_range (idx + 1) n

write_all-successes :
    (s : State) (caller : Address) (idx : ℕ) (r : BatchResult)
    (entries : List BulkRegistrationInput)
    → (write_all s caller idx r entries).1
      ≡ record r { successes = r.successes ++ success_range idx (length entries) }
unfolding write_all
write_all-successes s caller idx r [] =
    ap (λ l. record r { successes = l }) (sym (append-nil r.successes))
write_all-successes s caller idx r (entry ∷ entries) =
    write_all-successes (write_entry s caller entry.name entry.address entry.version) caller
      (idx + 1) (record_success r idx) entries
    ∙ ap (λ l. record r { successes = l })
        (append_assoc r.successes (record { index = idx } ∷ [])
          (success_range (idx + 1) (length entries)))

-- What the checks find: all entries can be registered in order, or the first that cannot.
unfoldable pub Finds :
    State
    → Address
    → ℕ
    → BatchResult
    → BatchResult
    → List BulkRegistrationInput
    → Call (Option BatchResult)
    → Type 0
Finds t caller idx r w entries m =
    ((m ≡ ok none)
      × (register_in_order t caller entries ≡ ok ((write_all t caller idx w entries).0)))
    ⊎ ((k : ℕ) × (e : BatchItemError) × (m ≡ ok (some (record_failure r (idx + k) e)))
        × FailsAt caller t entries k)

registered :
    (t : State) (caller : Address) (entry : BulkRegistrationInput)
    → validate_registration t entry.name entry.version ≡ ok tt
    → register_entry t caller entry.name entry.address entry.version
      ≡ ok (write_entry t caller entry.name entry.address entry.version)
unfolding register_entry
registered t caller entry h =
    ap (λ m. m >> ok (write_entry t caller entry.name entry.address entry.version)) h

refused :
    (t : State) (caller : Address) (entry : BulkRegistrationInput) (e : RegistryError)
    → validate_registration t entry.name entry.version ≡ err e
    → register_entry t caller entry.name entry.address entry.version ≡ err e
unfolding register_entry
refused t caller entry e h =
    ap (λ m. m >> ok (write_entry t caller entry.name entry.address entry.version)) h

pub check_all-Finds :
    (s : State) (caller : Address) (r : BatchResult) (entries : List BulkRegistrationInput)
    (seen : List (Name × ℕ)) (idx : ℕ) (w : BatchResult) (t : State)
    → Tracks s seen t
    → Finds t caller idx r w entries (check_all s seen idx r entries)
unfolding check_all register_in_order write_all Finds
check_all-Finds s caller r [] seen idx w t k = inl (refl, refl)
check_all-Finds s caller r (entry ∷ entries) seen idx w t k =
    let next : State = write_entry t caller entry.name entry.address entry.version in
    let rest : Call (Option BatchResult) =
      check_all s (seen ++ (entry.name, entry.version) ∷ []) (idx + 1) r entries in
    let ih : (check_entry s seen entry ≡ ok tt)
        → Finds next caller (idx + 1) r (record_success w idx) entries rest =
      λ m.
        check_all-Finds s caller r entries (seen ++ (entry.name, entry.version) ∷ []) (idx + 1)
          (record_success w idx) next (write_entry-Tracks s seen t k caller entry m) in
    elim (check_entry-validate_registration s seen t k entry) [
      | inl (m, v) ↦ elim (ih m) [
        | inl (a, b) ↦ inl (
          ap (λ c. stop_at r idx c rest) m ∙ a,
          ap (λ c. c >>= λ (u : State). register_in_order u caller entries)
                (registered t caller entry v)
              ∙ b,
        )
        | inr (j, e, a, f) ↦ inr (
          suc j,
          e,
          ap (λ c. stop_at r idx c rest) m
              ∙ a
              ∙ ap (λ i. ok (some (record_failure r i e))) {x = idx + 1 + j} {y = idx + suc j}
                  (omega arith),
          FailsAt.later t next entry entries j (registered t caller entry v) f,
        )
      ]
      | inr (e, f, m, v) ↦ inr (
        zero,
        registry_error_to_batch e,
        ap (λ c. stop_at r idx c rest) m
            ∙ ap (λ i. ok (some (record_failure r i (registry_error_to_batch e)))) {x = idx}
                {y = idx + zero} (omega arith),
        FailsAt.here t entry entries f (refused t caller entry f v),
      )
    ]

pub authorize-IsAdmin :
    (env : Env) (s : State) (caller : Address)
    → IsAdmin env s.admin caller
    → authorize env s caller ≡ ok tt
unfolding authorize
authorize-IsAdmin env s caller a = ground (arith, a.signed, a.stored_admin)

pub bulk_register-check_all :
    (env : Env) (s : State) (caller : Address) (entries : List BulkRegistrationInput)
    → IsAdmin env s.admin caller
    → length entries ≤ 50
    → bulk_register env s caller entries true
      ≡ (check_all s [] 0 empty_result entries >>= finish_fail_fast s caller entries)
unfolding bulk_register
bulk_register-check_all env s caller entries a l =
    let fast : Call (State × BatchResult) =
      check_all s [] 0 empty_result entries >>= finish_fail_fast s caller entries in
    ap (λ m. m >> (fail_if (ltb 50 (length entries)) batch_too_large >> fast))
      (authorize-IsAdmin env s caller a)
    ∙ ap (λ b. fail_if b batch_too_large >> fast) {x = ltb 50 (length entries)} {y = false}
        (ground arith)

-- How a fail-fast batch ends.
pub Atomic : State → Address → List BulkRegistrationInput → Call (State × BatchResult) → Type 0
Atomic s caller entries m =
    ((t : State) × (register_in_order s caller entries ≡ ok t)
      × (m
          ≡ ok (
            emit_completed t caller "bulk_register"
                (record { successes = success_range 0 (length entries); failures = [] }),
            record { successes = success_range 0 (length entries); failures = [] },
          )))
    ⊎ ((k : ℕ) × (e : BatchItemError) × FailsAt caller s entries k
        × (m
            ≡ ok (
              emit_completed s caller "bulk_register" (record_failure empty_result k e),
              record_failure empty_result k e,
            )))

-- A fail-fast batch of at most 50 entries, by the administrator, is all or nothing: either registering
-- its entries in order succeeds, and then the batch leaves that storage and reports every index as a
-- success; or registering in order fails first at some index, and then the batch writes no entry and
-- reports that index alone, as a failure.
pub bulk_register-Atomic :
    (env : Env) (s : State) (caller : Address) (entries : List BulkRegistrationInput)
    → IsAdmin env s.admin caller
    → length entries ≤ 50
    → Atomic s caller entries (bulk_register env s caller entries true)
unfolding Atomic Finds finish_fail_fast
bulk_register-Atomic env s caller entries a l =
    let all : State × BatchResult = write_all s caller 0 empty_result entries in
    let finish : Option BatchResult → Call (State × BatchResult) =
      finish_fail_fast s caller entries in
    elim (check_all-Finds s caller empty_result entries [] 0 empty_result s (Tracks-refl s)) [
      | inl (h, o) ↦ inl (
        all.0,
        o,
        bulk_register-check_all env s caller entries a l
            ∙ ap (λ m. m >>= finish) h
            ∙ ap (λ r. completed caller "bulk_register" (all.0, r))
                (write_all-successes s caller 0 empty_result entries),
      )
      | inr (k, e, h, f) ↦ inr (
        k,
        e,
        f,
        bulk_register-check_all env s caller entries a l
            ∙ ap (λ m. m >>= finish) h
            ∙ ap (λ i. finish (some (record_failure empty_result i e))) {x = 0 + k} {y = k}
                (omega arith),
      )
    ]
