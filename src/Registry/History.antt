-- ===== src/Registry/History.antt =====
-- Histories of router-registry: a call at a time, an error or a panic leaves the storage as it was.
use stellar_router.Prelude.{ℕ, String, Bool, Option, some, List, [], ◌∷◌, ◌≡◌}
use stellar_router.Common.{Address, Env, ok, err, panic, ◌>>=◌}
use stellar_router.Registry
use stellar_router.Registry.{
  Name, ContractEntry, BulkRegistrationInput, RegistryError, Call, deployed,
}
use stellar_router.Common.Batch.{BatchResult}
use stellar_router.Registry.Calls
use stellar_router.Registry.Bulk
use stellar_router.Registry.Invariant.{IsValid, deployed-IsValid}
use stellar_router.Registry.Writes.{
  Writes, Writes-trans, Leads, initialize-Leads, register-Leads, register_with_check-Leads,
  deprecate-Leads, deprecate_all_versions-Leads, transfer_admin-Leads,
}
use stellar_router.Registry.BatchWrites.{LeadsWith, bulk_register-Leads, deprecate_many-Leads}
use stellar_router.Registry.Valid.{Writes-IsValid, Writes-Lasts, Lasts}

abbrev State : Type 0
State = Registry.Registry

-- The calls that change the storage, with their arguments.
pub data Request : Type 0 where
  initialize : Address → Request
  register : Address → Name → Address → ℕ → Request
  register_with_check : Address → Name → Address → ℕ → Option String → Request
  deprecate : Address → Name → ℕ → Option String → Request
  deprecate_all_versions : Address → Name → Option String → Request
  transfer_admin : Address → Address → Request
  bulk_register : Address → List BulkRegistrationInput → Bool → Request
  deprecate_many : Address → List (Name × ℕ × Option String) → Bool → Request

-- The storage that a call with a report leaves.
abbrev pub stored_of : Call (State × BatchResult) → Call State
stored_of m = m >>= λ (r : State × BatchResult). ok r.0

-- What a call of a contract without arguments answers, and who signs, changes from call to call.
pub record Surroundings : Type 0 where
  pub env : Env
  pub answers : Address → String → Bool

abbrev pub call : Surroundings → Request → State → Call State
call h (initialize admin) s = Calls.initialize s admin
call h (register caller name address version) s = Calls.register h.env s caller name address version
call h (register_with_check caller name address version fn_sym) s =
    Calls.register_with_check h.env h.answers s caller name address version fn_sym
call h (deprecate caller name version reason) s = Calls.deprecate h.env s caller name version reason
call h (deprecate_all_versions caller name reason) s =
    Calls.deprecate_all_versions h.env s caller name reason
call h (transfer_admin current new_admin) s = Calls.transfer_admin h.env s current new_admin
call h (bulk_register caller entries fail_fast) s =
    stored_of (Bulk.bulk_register h.env s caller entries fail_fast)
call h (deprecate_many caller items fail_fast) s =
    stored_of (Bulk.deprecate_many h.env s caller items fail_fast)

-- The storage after a call: the host rolls a failed call back.
abbrev pub settle : State → Call State → State
settle s (ok t) = t
settle s (err e) = s
settle s panic = s

unfoldable pub evolve : List (Surroundings × Request) → State → State
evolve [] s = s
evolve ((h, r) ∷ rs) s = evolve rs (settle s (call h r s))

stored_of-Leads :
    (o : State) (m : Call (State × BatchResult)) → LeadsWith o m → Leads o (stored_of m)
stored_of-Leads o (ok r) w = w
stored_of-Leads o (err e) w = tt
stored_of-Leads o panic w = tt

call-Leads : (h : Surroundings) (r : Request) (s : State) → Leads s (call h r s)
call-Leads h (initialize admin) s = initialize-Leads s admin
call-Leads h (register caller name address version) s =
    register-Leads s h.env caller name address version
call-Leads h (register_with_check caller name address version fn_sym) s =
    register_with_check-Leads s h.env h.answers caller name address version fn_sym
call-Leads h (deprecate caller name version reason) s =
    deprecate-Leads s h.env caller name version reason
call-Leads h (deprecate_all_versions caller name reason) s =
    deprecate_all_versions-Leads s h.env caller name reason
call-Leads h (transfer_admin current new_admin) s = transfer_admin-Leads s h.env current new_admin
call-Leads h (bulk_register caller entries fail_fast) s =
    stored_of-Leads s (Bulk.bulk_register h.env s caller entries fail_fast)
      (bulk_register-Leads s caller entries h.env fail_fast)
call-Leads h (deprecate_many caller items fail_fast) s =
    stored_of-Leads s (Bulk.deprecate_many h.env s caller items fail_fast)
      (deprecate_many-Leads h.env s caller items fail_fast)

settle-Writes : (s : State) (m : Call State) → Leads s m → Writes s (settle s m)
settle-Writes s (ok t) w = w
settle-Writes s (err e) w = Writes.nothing
settle-Writes s panic w = Writes.nothing

evolve-Writes : (rs : List (Surroundings × Request)) (s : State) → Writes s (evolve rs s)
unfolding evolve
evolve-Writes [] s = Writes.nothing
evolve-Writes ((h, r) ∷ rs) s =
    Writes-trans s (settle s (call h r s)) (evolve rs (settle s (call h r s)))
      (settle-Writes s (call h r s) (call-Leads h r s)) (evolve-Writes rs (settle s (call h r s)))

-- Whatever calls are made on a new contract, by anyone, batches included, the storage is well formed
-- after them: the versions of each name strictly ascend and are exactly those under which an entry is
-- filed, each entry is filed under its own name and a positive version, the list of names has every
-- registered name once and no other, and what the address index names is an entry with that address.
pub evolve-deployed-IsValid : (rs : List (Surroundings × Request)) → IsValid (evolve rs deployed)
evolve-deployed-IsValid rs =
    Writes-IsValid deployed (evolve rs deployed) (evolve-Writes rs deployed) deployed-IsValid

-- An entry that is registered at some point of a history of a new contract is there at every later
-- point, with the same address, name, version and registrar; and if it was deprecated it is unchanged,
-- so that a deprecation is never taken back and its reason never replaced.
pub evolve-Lasts :
    (rs rs' : List (Surroundings × Request)) (name : Name) (version : ℕ) (entry : ContractEntry)
    → (evolve rs deployed).entries name version ≡ some entry
    → Lasts entry ((evolve rs' (evolve rs deployed)).entries name version)
evolve-Lasts rs rs' name version entry h =
    Writes-Lasts (evolve rs deployed) (evolve rs' (evolve rs deployed)) name version entry
      (evolve-Writes rs' (evolve rs deployed)) (evolve-deployed-IsValid rs) h
