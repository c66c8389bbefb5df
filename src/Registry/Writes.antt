-- ===== src/Registry/Writes.antt =====
-- Every call of router-registry is a sequence of elementary writes.
use stellar_router.Prelude.{
  ℕ, String, Bool, false, ◌≡◌, arith, Option, some, List, [], ◌∷◌, is_some, insert_at,
}
use stellar_router.Common.{Address, Env, ok, err, panic, ◌>>◌, fail_if}
use stellar_router.Common.Holds.{Holds, bind-Holds, then-Holds, check-Holds, ok_or-Holds}
use stellar_router.Registry
use stellar_router.Registry.{Name, ContractEntry, RegistryError, Call, Event, publish}
use stellar_router.Registry.Entries.{
  get_versions_list, is_empty, validate_registration, write_entry, register_entry, retired,
  deprecate_one,
}
use stellar_router.Registry.Calls
use stellar_router.Registry.Calls.{authorize, probe, ignore, deprecate_each}
use stellar_router.Registry.Invariant.{Admits, validate_registration-Admits}

abbrev State : Type 0
State = Registry.Registry

-- The storage after the deprecation of an entry.
abbrev pub retire_at : State → Name → ℕ → ContractEntry → Option String → State
retire_at s name version entry reason =
    publish (record s { entries = insert_at s.entries name version (retired entry reason) })
      (Event.contract_deprecated name version reason)

-- The elementary writes, with what the calls have found before them.
pub data Write : State → State → Type 0 where
  register :
      (s : State) (caller : Address) (name : Name) (address : Address) (version : ℕ)
      → Admits s name version
      → Write s (write_entry s caller name address version)
  deprecate :
      (s : State) (name : Name) (version : ℕ) (entry : ContractEntry) (reason : Option String)
      → s.entries name version ≡ some entry
      → entry.deprecated ≡ false
      → Write s (retire_at s name version entry reason)
  set_admin : (s : State) (admin : Address) → Write s (record s { admin = some admin })
  announce : (s : State) (event : Event) → Write s (publish s event)

pub data Writes (s : State) : State → Type 0 where
  nothing : Writes s s
  and_then : (t u : State) → Writes s t → Write t u → Writes s u

pub Writes-trans : (s t u : State) → Writes s t → Writes t u → Writes s u
Writes-trans s t u w Writes.nothing = w
Writes-trans s t u w (Writes.and_then m v k l) = Writes.and_then m v (Writes-trans s t m w k) l

abbrev pub Leads : State → Call State → Type 0
Leads s m = Holds (Writes s) m

module _ (o s : State) (w : Writes o s) where
  pub register_entry-Leads :
      (caller : Address) (name : Name) (address : Address) (version : ℕ)
      → Leads o (register_entry s caller name address version)
  unfolding register_entry
  register_entry-Leads caller name address version =
      check-Holds (Writes o) (validate_registration s name version)
        (ok (write_entry s caller name address version))
        (λ h. Writes.and_then s _ w (
          Write.register s caller name address version
            (validate_registration-Admits s name version h)))

  pub deprecate_one-Leads :
      (name : Name) (version : ℕ) (reason : Option String)
      → Leads o (deprecate_one s name version reason)
  unfolding deprecate_one
  deprecate_one-Leads name version reason =
      ok_or-Holds (Writes o) (s.entries name version) RegistryError.version_not_found
        (λ entry.
          fail_if entry.deprecated RegistryError.already_deprecated
          >> ok (retire_at s name version entry reason))
        (λ entry h.
          check-Holds (Writes o) (fail_if entry.deprecated RegistryError.already_deprecated)
            (ok (retire_at s name version entry reason))
            (λ p.
              Writes.and_then s _ w (Write.deprecate s name version entry reason h (ground arith))))

pub ignore-Leads : (o s : State) (m : Call State) → Writes o s → Leads o m → Leads o (ignore s m)
ignore-Leads o s (ok t) w h = h
ignore-Leads o s (err e) w h = w
ignore-Leads o s panic w h = tt

pub deprecate_each-Leads :
    (o s : State) (name : Name) (reason : Option String) (vs : List ℕ)
    → Writes o s
    → Leads o (deprecate_each s name reason vs)
unfolding deprecate_each
deprecate_each-Leads o s name reason [] w = w
deprecate_each-Leads o s name reason (v ∷ vs) w =
    bind-Holds (Writes o) (Writes o) (ignore s (deprecate_one s name v reason))
      (λ t. deprecate_each t name reason vs)
      (ignore-Leads o s (deprecate_one s name v reason) w (deprecate_one-Leads o s w name v reason))
      (λ t u. deprecate_each-Leads o t name reason vs u)

module _ (s : State) where
  pub initialize-Leads : (admin : Address) → Leads s (Calls.initialize s admin)
  unfolding Calls.initialize
  initialize-Leads admin =
      then-Holds (Writes s) (fail_if (is_some s.admin) RegistryError.already_initialized)
        (ok (record s { admin = some admin }))
        (Writes.and_then s _ Writes.nothing (Write.set_admin s admin))

  module _ (env : Env) where
    pub register-Leads :
        (caller : Address) (name : Name) (address : Address) (version : ℕ)
        → Leads s (Calls.register env s caller name address version)
    unfolding Calls.register
    register-Leads caller name address version =
        then-Holds (Writes s) (authorize env s caller)
          (register_entry s caller name address version)
          (register_entry-Leads s s Writes.nothing caller name address version)

    pub register_with_check-Leads :
        (answers : Address → String → Bool) (caller : Address) (name : Name) (address : Address)
        (version : ℕ) (health_fn : Option String)
        → Leads s (Calls.register_with_check env answers s caller name address version health_fn)
    unfolding Calls.register_with_check
    register_with_check-Leads answers caller name address version health_fn =
        let stored : Call State = ok (write_entry s caller name address version) in
        then-Holds (Writes s) (authorize env s caller)
          (validate_registration s name version >> (probe answers address health_fn >> stored))
          (check-Holds (Writes s) (validate_registration s name version)
            (probe answers address health_fn >> stored)
            (λ h. then-Holds (Writes s) (probe answers address health_fn) stored (
              Writes.and_then s _ Writes.nothing (
                Write.register s caller name address version
                  (validate_registration-Admits s name version h)))))

    pub deprecate-Leads :
        (caller : Address) (name : Name) (version : ℕ) (reason : Option String)
        → Leads s (Calls.deprecate env s caller name version reason)
    unfolding Calls.deprecate
    deprecate-Leads caller name version reason =
        then-Holds (Writes s) (authorize env s caller) (deprecate_one s name version reason)
          (deprecate_one-Leads s s Writes.nothing name version reason)

    pub deprecate_all_versions-Leads :
        (caller : Address) (name : Name) (reason : Option String)
        → Leads s (Calls.deprecate_all_versions env s caller name reason)
    unfolding Calls.deprecate_all_versions
    deprecate_all_versions-Leads caller name reason =
        let check : Call (Unit {0}) =
          fail_if (is_empty (get_versions_list s name)) RegistryError.not_found in
        let each : Call State = deprecate_each s name reason (get_versions_list s name) in
        then-Holds (Writes s) (authorize env s caller) (check >> each) (
          then-Holds (Writes s) check each
            (deprecate_each-Leads s s name reason (get_versions_list s name) Writes.nothing))

    pub transfer_admin-Leads :
        (current new_admin : Address) → Leads s (Calls.transfer_admin env s current new_admin)
    unfolding Calls.transfer_admin
    transfer_admin-Leads current new_admin =
        let t : State = record s { admin = some new_admin } in
        then-Holds (Writes s) (authorize env s current)
          (ok (publish t (Event.admin_transferred current new_admin)))
          (Writes.and_then t _ (Writes.and_then s t Writes.nothing (Write.set_admin s new_admin))
            (Write.announce t (Event.admin_transferred current new_admin)))
