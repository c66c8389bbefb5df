-- ===== src/Registry/BatchWrites.antt =====
-- The batches of contracts/router-registry/src/lib.rs as sequences of elementary writes.
use stellar_router.Prelude.{
  ℕ, ◌+◌, String, Bool, true, false, sym, inl, inr, Option, List, [], ◌∷◌, length, ltb,
  if◌then◌else◌,
}
use mathlib.Core.Path.{subst}
use stellar_router.Common.{Address, Env, ok, err, panic, ◌>>=◌, ◌>>◌, fail_if}
use stellar_router.Common.Batch.{BatchResult, empty_result, record_success, record_failure}
use stellar_router.Common.Holds.{Holds, Holds-ok, bind-Holds, then-Holds, if-Holds}
use stellar_router.Registry
use stellar_router.Registry.{
  Name, BulkRegistrationInput, RegistryError, Call, Event, publish, max_bulk_batch_size,
  batch_too_large,
}
use stellar_router.Registry.Entries.{validate_registration, register_entry, deprecate_one}
use stellar_router.Registry.Calls.{authorize}
use stellar_router.Registry.Bulk.{
  registry_error_to_batch, completed, finish_fail_fast, check_all, write_all, register_each,
  settle_item, bulk_register, after_item, deprecate_items, deprecate_many,
}
use stellar_router.Registry.Tracks.{Tracks-refl}
use stellar_router.Registry.InOrder.{register_in_order, Finds, check_all-Finds}
use stellar_router.Registry.Writes.{Write, Writes, Leads, register_entry-Leads, deprecate_one-Leads}

abbrev State : Type 0
State = Registry.Registry

-- Where a call with a report leads.
abbrev pub LeadsWith : State → Call (State × BatchResult) → Type 0
LeadsWith o m = Holds (λ r. Writes o r.0) m

settle_item-Leads :
    (o s : State) (r : BatchResult) (idx : ℕ) (m : Call State)
    → Writes o s
    → Leads o m
    → LeadsWith o (settle_item s r idx m)
settle_item-Leads o s r idx (ok t) w h = h
settle_item-Leads o s r idx (err e) w h = w
settle_item-Leads o s r idx panic w h = tt

register_each-Leads :
    (o s : State) (caller : Address) (idx : ℕ) (r : BatchResult)
    (entries : List BulkRegistrationInput)
    → Writes o s
    → LeadsWith o (register_each s caller idx r entries)
unfolding register_each
register_each-Leads o s caller idx r [] w = w
register_each-Leads o s caller idx r (entry ∷ entries) w =
    let step : Call State = register_entry s caller entry.name entry.address entry.version in
    let check : Call (Unit {0}) = validate_registration s entry.name entry.version in
    bind-Holds (λ q. Writes o q.0) (λ q. Writes o q.0) (settle_item s r idx (check >> step))
      (λ (q : State × BatchResult). register_each q.0 caller (idx + 1) q.1 entries)
      (settle_item-Leads o s r idx (check >> step) w (
        then-Holds (Writes o) check step
          (register_entry-Leads o s w caller entry.name entry.address entry.version)))
      (λ q u. register_each-Leads o q.0 caller (idx + 1) q.1 entries u)

after_item-Leads :
    (fail_fast : Bool) (o s : State) (r : BatchResult) (idx : ℕ) (m : Call State)
    (rest : State → BatchResult → Call (State × BatchResult))
    → Writes o s
    → Leads o m
    → ((t : State) (q : BatchResult) → Writes o t → LeadsWith o (rest t q))
    → LeadsWith o (after_item fail_fast s r idx m rest)
after_item-Leads fail_fast o s r idx (ok t) rest w h k = k t (record_success r idx) h
after_item-Leads true o s r idx (err e) rest w h k = w
after_item-Leads false o s r idx (err e) rest w h k =
    k s (record_failure r idx (registry_error_to_batch e)) w
after_item-Leads fail_fast o s r idx panic rest w h k = tt

deprecate_items-Leads :
    (fail_fast : Bool) (o : State) (items : List (Name × ℕ × Option String)) (idx : ℕ) (s : State)
    (r : BatchResult)
    → Writes o s
    → LeadsWith o (deprecate_items fail_fast idx items s r)
unfolding deprecate_items
deprecate_items-Leads fail_fast o [] idx s r w = w
deprecate_items-Leads fail_fast o ((name, version, reason) ∷ items) idx s r w =
    after_item-Leads fail_fast o s r idx (deprecate_one s name version reason)
      (deprecate_items fail_fast (idx + 1) items) w (deprecate_one-Leads o s w name version reason)
      (λ t q u. deprecate_items-Leads fail_fast o items (idx + 1) t q u)

register_in_order-Leads :
    (o s : State) (caller : Address) (entries : List BulkRegistrationInput)
    → Writes o s
    → Leads o (register_in_order s caller entries)
unfolding register_in_order
register_in_order-Leads o s caller [] w = w
register_in_order-Leads o s caller (entry ∷ entries) w =
    bind-Holds (Writes o) (Writes o)
      (register_entry s caller entry.name entry.address entry.version)
      (λ t. register_in_order t caller entries)
      (register_entry-Leads o s w caller entry.name entry.address entry.version)
      (λ t u. register_in_order-Leads o t caller entries u)

completed-Leads :
    (o : State) (caller : Address) (what : String) (r : State × BatchResult)
    → Writes o r.0
    → LeadsWith o (completed caller what r)
completed-Leads o caller what r w = Writes.and_then r.0 _ w (Write.announce r.0 _)

module _ (s : State) (caller : Address) (entries : List BulkRegistrationInput) where
  fast-Leads :
      LeadsWith s (check_all s [] 0 empty_result entries >>= finish_fail_fast s caller entries)
  unfolding Finds finish_fail_fast
  fast-Leads =
      let finish : Option BatchResult → Call (State × BatchResult) =
        finish_fail_fast s caller entries in
      elim (check_all-Finds s caller empty_result entries [] 0 empty_result s (Tracks-refl s)) [
        | inl (h, o) ↦
            subst (λ m. LeadsWith s (m >>= finish)) (sym h)
              (completed-Leads s caller "bulk_register" (write_all s caller 0 empty_result entries)
                (Holds-ok (Writes s) (register_in_order s caller entries) _
                  (register_in_order-Leads s s caller entries Writes.nothing) o))
        | inr (k, e, h, f) ↦
            subst (λ m. LeadsWith s (m >>= finish)) (sym h)
              (completed-Leads s caller "bulk_register" (s, record_failure empty_result (0 + k) e)
                Writes.nothing)
      ]

  slow-Leads :
      LeadsWith s
        (register_each s caller 0 empty_result entries >>= completed caller "bulk_register")
  slow-Leads =
      bind-Holds (λ r. Writes s r.0) (λ r. Writes s r.0)
        (register_each s caller 0 empty_result entries) (completed caller "bulk_register")
        (register_each-Leads s s caller 0 empty_result entries Writes.nothing)
        (λ r w. completed-Leads s caller "bulk_register" r w)

  pub bulk_register-Leads :
      (env : Env) (fail_fast : Bool) → LeadsWith s (bulk_register env s caller entries fail_fast)
  unfolding bulk_register
  bulk_register-Leads env fail_fast =
      let fast : Call (State × BatchResult) =
        check_all s [] 0 empty_result entries >>= finish_fail_fast s caller entries in
      let slow : Call (State × BatchResult) =
        register_each s caller 0 empty_result entries >>= completed caller "bulk_register" in
      let check : Call (Unit {0}) =
        fail_if (ltb max_bulk_batch_size (length entries)) batch_too_large in
      then-Holds (λ r. Writes s r.0) (authorize env s caller)
        (check >> (if fail_fast then fast else slow))
        (then-Holds (λ r. Writes s r.0) check (if fail_fast then fast else slow)
          (if-Holds (λ r. Writes s r.0) fail_fast fast slow fast-Leads slow-Leads))

pub deprecate_many-Leads :
    (env : Env) (s : State) (caller : Address) (items : List (Name × ℕ × Option String))
    (fail_fast : Bool)
    → LeadsWith s (deprecate_many env s caller items fail_fast)
unfolding deprecate_many
deprecate_many-Leads env s caller items fail_fast =
    let each : Call (State × BatchResult) = deprecate_items fail_fast 0 items s empty_result in
    let finish : State × BatchResult → Call (State × BatchResult) =
      completed caller "deprecate_many" in
    let check : Call (Unit {0}) =
      fail_if (ltb max_bulk_batch_size (length items)) batch_too_large in
    then-Holds (λ r. Writes s r.0) (authorize env s caller) (check >> (each >>= finish))
      (then-Holds (λ r. Writes s r.0) check (each >>= finish)
        (bind-Holds (λ r. Writes s r.0) (λ r. Writes s r.0) each finish
          (deprecate_items-Leads fail_fast s items 0 s empty_result Writes.nothing)
          (λ r w. completed-Leads s caller "deprecate_many" r w)))
