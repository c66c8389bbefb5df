-- ===== src/Registry/Bulk.antt =====
-- The batches of contracts/router-registry/src/lib.rs.
use stellar_router.Prelude.{
  ℕ, ◌+◌, String, Bool, false, ◌&&◌, ◌||◌, Option, none, some, List, [], ◌∷◌, ◌++◌, length, ltb,
  ◌==◌, if◌then◌else◌,
}
use Prim.Native.Nat.{max}
use stellar_router.Common.{Address, Env, ok, err, panic, ◌>>=◌, ◌>>◌, fail_if}
use stellar_router.Common.Batch.{
  BatchItemError, BatchResult, already_exists, invalid_name, invalid_metadata, custom, empty_result,
  record_success, record_failure,
}
use stellar_router.Registry
use stellar_router.Registry.{
  Name, BulkRegistrationInput, RegistryError, Call, Event, publish, max_bulk_batch_size,
  already_initialized, not_initialized, unauthorized, not_found, already_registered,
  already_deprecated, invalid_version, version_not_found, invalid_constraint,
  all_versions_deprecated, contract_unreachable, invalid_health_fn, batch_too_large,
}
use stellar_router.Registry.Entries.{
  not_above, validate_registration, write_entry, register_entry, deprecate_one,
}
use stellar_router.Registry.Calls.{authorize}

abbrev State : Type 0
State = Registry.Registry

abbrev pub registry_error_to_batch : RegistryError → BatchItemError
registry_error_to_batch already_registered = already_exists
registry_error_to_batch invalid_version = invalid_name
registry_error_to_batch unauthorized = BatchItemError.unauthorized
registry_error_to_batch invalid_constraint = invalid_metadata
registry_error_to_batch not_initialized = custom "NotInitialized"
registry_error_to_batch already_initialized = custom "AlreadyInitialized"
registry_error_to_batch not_found = custom "NotFound"
registry_error_to_batch already_deprecated = custom "AlreadyDeprecated"
registry_error_to_batch version_not_found = custom "VersionNotFound"
registry_error_to_batch all_versions_deprecated = custom "AllVersionsDeprecated"
registry_error_to_batch contract_unreachable = custom "ContractUnreachable"
registry_error_to_batch invalid_health_fn = custom "InvalidHealthFn"
registry_error_to_batch batch_too_large = custom "BatchTooLarge"

abbrev pub emit_completed : State → Address → String → BatchResult → State
emit_completed s caller what result =
    publish s (Event.batch_executed caller what (length result.successes) (length result.failures))

-- `seen.iter().any(..)`
abbrev pub is_seen : List (Name × ℕ) → Name → ℕ → Bool
is_seen [] name version = false
is_seen (p ∷ seen) name version = (p.0 == name && p.1 == version) || is_seen seen name version

abbrev pub larger : ℕ → Option ℕ → Option ℕ
larger v none = some v
larger v (some w) = some (max v w)

-- The highest version of a name earlier in the batch.
abbrev pub highest_in_batch : List (Name × ℕ) → Name → Option ℕ
highest_in_batch [] name = none
highest_in_batch (p ∷ seen) name =
    let rest = highest_in_batch seen name in if p.0 == name then larger p.1 rest else rest

-- An entry against the entries before it in the batch and the storage.
unfoldable pub check_entry : State → List (Name × ℕ) → BulkRegistrationInput → Call (Unit {0})
unfolding validate_registration
check_entry s seen entry = do
  fail_if (is_seen seen entry.name entry.version) already_registered
  fail_if (not_above entry.version (highest_in_batch seen entry.name)) invalid_version
  validate_registration s entry.name entry.version

-- The next round of a loop that stops at the first error, which is recorded at `idx`.
abbrev pub stop_at :
    BatchResult → ℕ → Call (Unit {0}) → Call (Option BatchResult) → Call (Option BatchResult)
stop_at result idx (ok u) rest = rest
stop_at result idx (err e) rest = ok (some (record_failure result idx (registry_error_to_batch e)))
stop_at result idx panic rest = panic

-- The first loop of the fail-fast mode: the result with the first failure, or nothing.
unfoldable pub check_all :
    State
    → List (Name × ℕ)
    → ℕ
    → BatchResult
    → List BulkRegistrationInput
    → Call (Option BatchResult)
unfolding check_entry
check_all s seen idx result [] = ok none
check_all s seen idx result (entry ∷ entries) =
    stop_at result idx (check_entry s seen entry)
      (check_all s (seen ++ (entry.name, entry.version) ∷ []) (idx + 1) result entries)

-- The second loop of the fail-fast mode.
unfoldable pub write_all :
    State → Address → ℕ → BatchResult → List BulkRegistrationInput → State × BatchResult
unfolding write_entry
write_all s caller idx result [] = (s, result)
write_all s caller idx result (entry ∷ entries) =
    write_all (write_entry s caller entry.name entry.address entry.version) caller (idx + 1)
      (record_success result idx) entries

-- An item of a batch that goes on after an error, which has written nothing.
abbrev pub settle_item : State → BatchResult → ℕ → Call State → Call (State × BatchResult)
settle_item s result idx (ok t) = ok (t, record_success result idx)
settle_item s result idx (err e) = ok (s, record_failure result idx (registry_error_to_batch e))
settle_item s result idx panic = panic

-- The loop of the other mode.
unfoldable pub register_each :
    State → Address → ℕ → BatchResult → List BulkRegistrationInput → Call (State × BatchResult)
unfolding validate_registration register_entry
register_each s caller idx result [] = ok (s, result)
register_each s caller idx result (entry ∷ entries) =
    settle_item s result idx (
      validate_registration s entry.name entry.version
      >> register_entry s caller entry.name entry.address entry.version)
    >>= λ (r : State × BatchResult). register_each r.0 caller (idx + 1) r.1 entries

abbrev pub completed : Address → String → State × BatchResult → Call (State × BatchResult)
completed caller what r = ok (emit_completed r.0 caller what r.1, r.1)

unfoldable pub finish_fail_fast :
    State → Address → List BulkRegistrationInput → Option BatchResult → Call (State × BatchResult)
unfolding write_all
finish_fail_fast s caller entries (some result) = completed caller "bulk_register" (s, result)
finish_fail_fast s caller entries none =
    completed caller "bulk_register" (write_all s caller 0 empty_result entries)

unfoldable pub bulk_register :
    Env → State → Address → List BulkRegistrationInput → Bool → Call (State × BatchResult)
unfolding authorize check_all write_all register_each finish_fail_fast
bulk_register env s caller entries fail_fast = do
  authorize env s caller
  fail_if (ltb max_bulk_batch_size (length entries)) batch_too_large
  let fast = check_all s [] 0 empty_result entries >>= finish_fail_fast s caller entries
  let slow = register_each s caller 0 empty_result entries >>= completed caller "bulk_register"
  if fail_fast then fast else slow

-- The rest of the loop of `deprecate_many` after an item: it stops at an error in the fail-fast mode.
abbrev pub after_item :
    Bool
    → State
    → BatchResult
    → ℕ
    → Call State
    → (State → BatchResult → Call (State × BatchResult))
    → Call (State × BatchResult)
after_item fail_fast s result idx (ok t) rest = rest t (record_success result idx)
after_item fail_fast s result idx (err e) rest =
    let failed = record_failure result idx (registry_error_to_batch e) in
    if fail_fast then ok (s, failed) else rest s failed
after_item fail_fast s result idx panic rest = panic

unfoldable pub deprecate_items :
    Bool → ℕ → List (Name × ℕ × Option String) → State → BatchResult → Call (State × BatchResult)
unfolding deprecate_one
deprecate_items fail_fast idx [] s result = ok (s, result)
deprecate_items fail_fast idx ((name, version, reason) ∷ items) s result =
    after_item fail_fast s result idx (deprecate_one s name version reason)
      (deprecate_items fail_fast (idx + 1) items)

unfoldable pub deprecate_many :
    Env → State → Address → List (Name × ℕ × Option String) → Bool → Call (State × BatchResult)
unfolding authorize deprecate_items
deprecate_many env s caller items fail_fast = do
  authorize env s caller
  fail_if (ltb max_bulk_batch_size (length items)) batch_too_large
  r ← deprecate_items fail_fast 0 items s empty_result
  completed caller "deprecate_many" r
