-- ===== src/Registry/Entries.antt =====
-- How contracts/router-registry/src/lib.rs checks, writes and deprecates a single entry.
use stellar_router.Prelude.{
  ℕ, String, Bool, true, false, Option, none, some, List, [], ◌∷◌, ◌++◌, leb, ◌==◌, if◌then◌else◌,
  is_some, unwrap_or, insert, insert_at,
}
use stellar_router.Prelude.Sequence.{last}
use stellar_router.Common.{Address, ok, ◌>>=◌, ◌>>◌, fail_if, ok_or}
use stellar_router.Registry
use stellar_router.Registry.{Name, ContractEntry, RegistryError, Call, Event, publish}

abbrev State : Type 0
State = Registry.Registry

abbrev pub get_versions_list : State → Name → List ℕ
get_versions_list s name = unwrap_or (s.versions name) []

abbrev pub not_above : ℕ → Option ℕ → Bool
not_above version none = false
not_above version (some l) = leb version l

unfoldable pub validate_registration : State → Name → ℕ → Call (Unit {0})
validate_registration s name version = do
  fail_if (version == 0) RegistryError.invalid_version
  fail_if (is_some (s.entries name version)) RegistryError.already_registered
  fail_if (not_above version (last (get_versions_list s name))) RegistryError.invalid_version

abbrev pub is_empty : List ℕ → Bool
is_empty [] = true
is_empty (x ∷ xs) = false

abbrev pub names : State → List Name
names s = unwrap_or s.contract_names []

unfoldable pub write_entry : State → Address → Name → Address → ℕ → State
write_entry s caller name address version =
    let versions = get_versions_list s name in
    let entry : ContractEntry = record {
      address = address;
      name = name;
      version = version;
      deprecated = false;
      registered_by = caller;
      deprecation_reason = none;
    } in
    publish
      (record s {
        entries = insert_at s.entries name version entry;
        versions = insert s.versions name (versions ++ version ∷ []);
        contract_names =
            if is_empty versions then some (names s ++ name ∷ []) else s.contract_names;
        address_index = insert s.address_index address (name, version);
      })
      (Event.contract_registered name version address)

unfoldable pub register_entry : State → Address → Name → Address → ℕ → Call State
unfolding validate_registration write_entry
register_entry s caller name address version = do
  validate_registration s name version
  ok (write_entry s caller name address version)

-- An entry after its deprecation.
abbrev pub retired : ContractEntry → Option String → ContractEntry
retired e reason = record e { deprecated = true; deprecation_reason = reason }

unfoldable pub deprecate_one : State → Name → ℕ → Option String → Call State
deprecate_one s name version reason = do
  entry ← ok_or (s.entries name version) RegistryError.version_not_found
  fail_if entry.deprecated RegistryError.already_deprecated
  ok (
      publish (record s { entries = insert_at s.entries name version (retired entry reason) })
        (Event.contract_deprecated name version reason))
