-- ===== src/Registry/Invariant.antt =====
-- Well-formedness of the storage of router-registry, and the writes of one entry.
use stellar_router.Prelude.{
  ℕ, ◌<◌, not, none, some, ◌≡◌, refl, inl, inr, arith, contains, IsDistinct, Option-cases,
}
use stellar_router.Prelude.Sequence.{get_elem?, last}
use stellar_router.Prelude.Ascending.{IsAscending}
use stellar_router.Common.{Address, ok}
use stellar_router.Registry
use stellar_router.Registry.{Name, ContractEntry, RegistryError, Call, Event, deployed, publish}
use stellar_router.Registry.Entries.{get_versions_list, is_empty, names, validate_registration}

abbrev State : Type 0
State = Registry.Registry

-- An entry is filed under its own name and version, which is positive and listed.
pub record IsFiled (s : State) (name : Name) (version : ℕ) (entry : ContractEntry) : Type 0 where
  pub same_name : entry.name ≡ name
  pub same_version : entry.version ≡ version
  pub positive : 0 < version
  pub place : ℕ
  pub listed : get_elem? (get_versions_list s name) place ≡ some version

-- The storage between calls: the versions of a name ascend and are those of its entries, the names are
-- those with versions, each once, and the address index leads to entries with the address.
pub record IsValid (s : State) : Type 0 where
  pub ascending : (name : Name) → IsAscending (get_versions_list s name)
  pub stored :
      (name : Name) (i version : ℕ)
      → get_elem? (get_versions_list s name) i ≡ some version
      → (entry : ContractEntry) × (s.entries name version ≡ some entry)
  pub filed :
      (name : Name) (version : ℕ) (entry : ContractEntry)
      → s.entries name version ≡ some entry
      → IsFiled s name version entry
  pub named : (name : Name) → contains (names s) name ≡ not (is_empty (get_versions_list s name))
  pub distinct : IsDistinct (names s)
  pub indexed :
      (address : Address) (name : Name) (version : ℕ)
      → s.address_index address ≡ some (name, version)
      → (entry : ContractEntry) × (s.entries name version ≡ some entry) × (entry.address ≡ address)

pub deployed-IsValid : IsValid deployed
deployed-IsValid = record {
  ascending = λ n i j a b l e f. ground arith;
  stored = λ n i v e. ground arith;
  filed = λ n v x e. ground arith;
  named = λ n. refl;
  distinct = tt;
  indexed = λ a n v e. ground arith;
}

-- What a registration that is not refused has found.
pub record Admits (s : State) (name : Name) (version : ℕ) : Type 0 where
  pub positive : 0 < version
  pub fresh : s.entries name version ≡ none
  pub above : (l : ℕ) → last (get_versions_list s name) ≡ some l → l < version

pub validate_registration-Admits :
    (s : State) (name : Name) (version : ℕ)
    → validate_registration s name version ≡ ok tt
    → Admits s name version
unfolding validate_registration
validate_registration-Admits s name version h = record {
  positive = ground arith;
  fresh = elim (Option-cases (s.entries name version)) [
    | inl e ↦ e
    | inr (a, e) ↦ absurd (ground arith)
  ];
  above = λ l e. ground arith;
}

pub Admits-validate_registration :
    (s : State) (name : Name) (version : ℕ)
    → Admits s name version
    → validate_registration s name version ≡ ok tt
unfolding validate_registration
Admits-validate_registration s name version a =
    elim (Option-cases (last (get_versions_list s name))) [
      | inl e ↦ ground (arith, a.positive, a.fresh)
      | inr (l, e) ↦ ground (arith, a.positive, a.fresh, a.above l e)
    ]
