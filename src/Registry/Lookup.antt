-- ===== src/Registry/Lookup.antt =====
-- The reads of contracts/router-registry/src/lib.rs.
use stellar_router.Prelude.{
  ℕ, zero, suc, Bool, true, false, not, Option, none, some, List, [], ◌∷◌, length, if◌then◌else◌,
}
use stellar_router.Prelude.Sequence.{get_elem?}
use stellar_router.Common.{Address, ok, err, ◌>>=◌, ◌>>◌, fail_if, ok_or}
use stellar_router.Registry
use stellar_router.Registry.{Name, ContractEntry, RegistryError, Call}
use stellar_router.Registry.Entries.{get_versions_list, is_empty, names}
use stellar_router.Registry.Constraint.{Bytes, validate_constraint, version_matches_constraint}

abbrev State : Type 0
State = Registry.Registry

-- The loop of `latest_matching` with `i` places left, the newest first.
unfoldable pub latest_from :
    State → Name → List ℕ → (ℕ → Call Bool) → ℕ → Bool → Call (Option ContractEntry × Bool)
latest_from s name versions matches zero any_match = ok (none, any_match)
latest_from s name versions matches (suc i) any_match =
    let skip = latest_from s name versions matches i any_match in
    let older = latest_from s name versions matches i true in
    (do
      v ← ok_or (get_elem? versions i) RegistryError.not_found
      m ← matches v
      if not m then skip else (do
        entry ← ok_or (s.entries name v) RegistryError.not_found
        if not entry.deprecated then ok (some entry, true) else older))

unfoldable pub latest_matching :
    State → Name → List ℕ → (ℕ → Call Bool) → Call (Option ContractEntry × Bool)
unfolding latest_from
latest_matching s name versions matches =
    latest_from s name versions matches (length versions) false

unfoldable pub latest_non_deprecated : State → Name → List ℕ → Call ContractEntry
unfolding latest_matching
latest_non_deprecated s name versions = do
  r ← latest_matching s name versions (λ v. ok true)
  ok_or r.0 RegistryError.all_versions_deprecated

unfoldable pub get_latest : State → Name → Call ContractEntry
unfolding latest_non_deprecated
get_latest s name = do
  fail_if (is_empty (get_versions_list s name)) RegistryError.not_found
  latest_non_deprecated s name (get_versions_list s name)

abbrev pub found_or : Option ContractEntry × Bool → Call ContractEntry
found_or (some entry, any_match) = ok entry
found_or (none, true) = err RegistryError.all_versions_deprecated
found_or (none, false) = err RegistryError.not_found

unfoldable pub get_latest_with_constraint : State → Name → Option Bytes → Call ContractEntry
unfolding latest_matching latest_non_deprecated
get_latest_with_constraint s name none = do
  fail_if (is_empty (get_versions_list s name)) RegistryError.not_found
  latest_non_deprecated s name (get_versions_list s name)
get_latest_with_constraint s name (some constraint) = do
  validate_constraint constraint
  fail_if (is_empty (get_versions_list s name)) RegistryError.not_found
  r ←
      latest_matching s name (get_versions_list s name)
        (λ v. version_matches_constraint v constraint)
  found_or r

unfoldable pub get : State → Name → ℕ → Call ContractEntry
get s name version = ok_or (s.entries name version) RegistryError.not_found

abbrev deprecated_of : Option ContractEntry → Option Bool
deprecated_of none = none
deprecated_of (some entry) = some entry.deprecated

unfoldable pub is_deprecated : State → Name → ℕ → Call Bool
is_deprecated s name version =
    ok_or (deprecated_of (s.entries name version)) RegistryError.not_found

unfoldable pub admin : State → Call Address
admin s = ok_or s.admin RegistryError.not_initialized

unfoldable pub versions : State → Name → List ℕ
versions s name = get_versions_list s name

abbrev pub push_entry : Option ContractEntry → List ContractEntry → List ContractEntry
push_entry none entries = entries
push_entry (some entry) entries = entry ∷ entries

-- The loop of `get_all_versions`.
unfoldable pub stored_entries : State → Name → List ℕ → List ContractEntry
stored_entries s name [] = []
stored_entries s name (v ∷ vs) = push_entry (s.entries name v) (stored_entries s name vs)

unfoldable pub get_all_versions : State → Name → List ContractEntry
unfolding stored_entries
get_all_versions s name = stored_entries s name (get_versions_list s name)

unfoldable pub get_all_names : State → List Name
get_all_names s = names s

abbrev pub entry_at : State → Option (Name × ℕ) → Option ContractEntry
entry_at s none = none
entry_at s (some (name, version)) = s.entries name version

unfoldable pub get_entry_by_address : State → Address → Option ContractEntry
get_entry_by_address s address = entry_at s (s.address_index address)
