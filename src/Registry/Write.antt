-- ===== src/Registry/Write.antt =====
-- The writes of router-registry keep the storage well formed.
use stellar_router.Prelude.{
  ◌⊎◌, ℕ, ◌++◌, true, false, not, ◌&&◌, Option, none, some, List, [], ◌∷◌, ◌≡◌, refl, sym, ap, ◌∙◌,
  inl, inr, arith, ◌==◌, if◌then◌else◌, insert, insert-cases, insert_at-cases, contains,
  contains-snoc, IsDistinct, snoc-IsDistinct, length, Bool-cases, ==_refl, ==→eq,
}
use mathlib.Core.Path.{subst}
use stellar_router.Prelude.Sequence.{get_elem?}
use stellar_router.Prelude.Ascending.{
  IsAscending, get_elem?-append, append-IsAscending, get_elem?-append_cases, get_elem?-lt,
}
use stellar_router.Common.{Address}
use stellar_router.Registry
use stellar_router.Registry.{Name, ContractEntry, RegistryError, Call, Event, publish}
use stellar_router.Registry.Entries.{get_versions_list, is_empty, names, write_entry}
use stellar_router.Registry.Invariant.{IsFiled, IsValid, Admits}

abbrev State : Type 0
State = Registry.Registry

is_empty-snoc : (xs : List ℕ) (v : ℕ) → is_empty (xs ++ v ∷ []) ≡ false
is_empty-snoc [] v = refl
is_empty-snoc (x ∷ xs) v = refl

module _ (s : State) (caller : Address) (name : Name) (address : Address) (version : ℕ) where
  abbrev pub new_entry : ContractEntry
  new_entry = record {
    address = address;
    name = name;
    version = version;
    deprecated = false;
    registered_by = caller;
    deprecation_reason = none;
  }

  pub get_versions_list-write_entry :
      (n : Name)
      → get_versions_list (write_entry s caller name address version) n
        ≡ (if n == name then get_versions_list s name ++ version ∷ [] else get_versions_list s n)
  unfolding write_entry
  get_versions_list-write_entry n = ground arith

  pub entries-write_entry :
      (n : Name) (v : ℕ)
      → (write_entry s caller name address version).entries n v
        ≡ (if n == name && v == version then some new_entry else s.entries n v)
  unfolding write_entry
  entries-write_entry n v = refl

  names-write_entry :
      names (write_entry s caller name address version)
      ≡ (if is_empty (get_versions_list s name) then names s ++ name ∷ [] else names s)
  unfolding write_entry
  names-write_entry = ground arith

  address_index-write_entry :
      (b : Address)
      → (write_entry s caller name address version).address_index b
        ≡ insert s.address_index address (name, version) b
  unfolding write_entry
  address_index-write_entry b = refl

  module _ (w : IsValid s) (a : Admits s name version) where
    abbrev after : State
    after = write_entry s caller name address version

    written-IsAscending : (n : Name) → IsAscending (get_versions_list after n)
    written-IsAscending n = elim (Bool-cases (n == name)) [
      | inl t ↦
          subst IsAscending (sym (get_versions_list-write_entry n ∙ ground arith))
            (append-IsAscending (get_versions_list s name) version (w.ascending name) a.above)
      | inr f ↦
          subst IsAscending (sym (get_versions_list-write_entry n ∙ ground arith)) (w.ascending n)
    ]

    versions_at :
        (n : Name)
        → (n == name) ≡ true
        → get_versions_list after n ≡ get_versions_list s n ++ version ∷ []
    versions_at n t =
        ground (arith, get_versions_list-write_entry n, ap (get_versions_list s) (==→eq n name t))

    -- An index of the versions leads to an old version or to the new one.
    listed_cases :
        (n : Name) (i v : ℕ)
        → get_elem? (get_versions_list after n) i ≡ some v
        → ((n ≡ name) × (v ≡ version)) ⊎ (get_elem? (get_versions_list s n) i ≡ some v)
    listed_cases n i v e = elim (Bool-cases (n == name)) [
      | inl t ↦
          elim (get_elem?-append_cases (get_versions_list s n) version i v
            (ap (λ l. get_elem? l i) (sym (versions_at n t)) ∙ e)) [
              | inl (l, e') ↦ inr e'
              | inr (l, e') ↦ inl (==→eq n name t, sym e')
            ]
      | inr f ↦ inr (ground (arith, get_versions_list-write_entry n))
    ]

    -- What is listed stays listed.
    listed_still :
        (n : Name) (i v : ℕ)
        → get_elem? (get_versions_list s n) i ≡ some v
        → get_elem? (get_versions_list after n) i ≡ some v
    listed_still n i v e = elim (Bool-cases (n == name)) [
      | inl t ↦
          ap (λ l. get_elem? l i) (versions_at n t)
          ∙ ground (
            arith,
            get_elem?-append (get_versions_list s n) version i,
            get_elem?-lt (get_versions_list s n) i v e,
          )
      | inr f ↦ ground (arith, get_versions_list-write_entry n)
    ]

    -- What is filed stays filed, beside the new entry.
    pub entry_still :
        (n : Name) (v : ℕ) (e : ContractEntry) → s.entries n v ≡ some e → after.entries n v ≡ some e
    entry_still n v e h = elim (Bool-cases (n == name && v == version)) [
      | inl t ↦
          let fn : ContractEntry → Option ContractEntry = some in
          let same : s.entries n v ≡ s.entries name version = ground (
            arith,
            ap (λ k. s.entries k v) {x = n} {y = name} (==→eq n name (ground arith)),
            ap (s.entries name) {x = v} {y = version} (==→eq v version (ground arith)),
          ) in
          absurd (ground (arith, a.fresh))
      | inr f ↦ ground (arith, entries-write_entry n v)
    ]

    entry_new : after.entries name version ≡ some new_entry
    entry_new = ground (arith, entries-write_entry name version)

    written_stored :
        (n : Name) (i v : ℕ)
        → get_elem? (get_versions_list after n) i ≡ some v
        → (e : ContractEntry) × (after.entries n v ≡ some e)
    written_stored n i v e = elim (listed_cases n i v e) [
      | inl (en, ev) ↦
          (new_entry, ap (λ k. after.entries k v) en ∙ ap (after.entries name) ev ∙ entry_new)
      | inr e' ↦ let (x, h) = w.stored n i v e' in (x, entry_still n v x h)
    ]

    IsFiled-still : (n : Name) (v : ℕ) (e : ContractEntry) → IsFiled s n v e → IsFiled after n v e
    IsFiled-still n v e h = record {
      same_name = h.same_name;
      same_version = h.same_version;
      positive = h.positive;
      place = h.place;
      listed = listed_still n h.place v h.listed;
    }

    IsFiled-new : IsFiled after name version new_entry
    IsFiled-new = record {
      same_name = refl;
      same_version = refl;
      positive = a.positive;
      place = length (get_versions_list s name);
      listed = ground (
        arith,
        versions_at name (==_refl name),
        get_elem?-append (get_versions_list s name) version (length (get_versions_list s name)),
      );
    }

    written-IsFiled :
        (n : Name) (v : ℕ) (e : ContractEntry) → after.entries n v ≡ some e → IsFiled after n v e
    unfolding write_entry
    written-IsFiled n v e h = elim (insert_at-cases s.entries name version new_entry n v e h) [
      | inl (en, ev, ee) ↦
          subst (λ x. IsFiled after n v x) ee
            (subst (λ k. IsFiled after n k new_entry) (sym ev)
              (subst (λ k. IsFiled after k version new_entry) (sym en) IsFiled-new))
      | inr (f, h') ↦ IsFiled-still n v e (w.filed n v e h')
    ]

    written_named :
        (n : Name) → contains (names after) n ≡ not (is_empty (get_versions_list after n))
    written_named n = elim (Bool-cases (n == name)) [
      | inl t ↦
          ap (λ l. contains l n) names-write_entry
          ∙ ground (
            arith,
            contains-snoc (names s) name n,
            w.named n,
            versions_at n t,
            is_empty-snoc (get_versions_list s n) version,
            ap (λ k. is_empty (get_versions_list s k)) (==→eq n name t),
          )
      | inr f ↦
          ap (λ l. contains l n) names-write_entry
          ∙ ground
              (arith, contains-snoc (names s) name n, w.named n, get_versions_list-write_entry n)
    ]

    written-IsDistinct : IsDistinct (names after)
    written-IsDistinct = elim (Bool-cases (is_empty (get_versions_list s name))) [
      | inl t ↦
          subst IsDistinct (sym (names-write_entry ∙ ground (arith)))
            (snoc-IsDistinct (names s) name w.distinct (ground (arith, w.named name)))
      | inr f ↦ subst IsDistinct (sym (names-write_entry ∙ ground arith)) w.distinct
    ]

    indexed_new :
        (b : Address) (n : Name) (v : ℕ)
        → b ≡ address
        → ◌≡◌ {A = Name × ℕ} (name, version) (n, v)
        → (e : ContractEntry) × (after.entries n v ≡ some e) × (e.address ≡ b)
    indexed_new b n v eb ep = (
      new_entry,
      subst (λ (p : Name × ℕ). after.entries p.0 p.1 ≡ some new_entry) ep entry_new,
      sym eb,
    )

    written_indexed :
        (b : Address) (n : Name) (v : ℕ)
        → after.address_index b ≡ some (n, v)
        → (e : ContractEntry) × (after.entries n v ≡ some e) × (e.address ≡ b)
    written_indexed b n v h =
        elim (insert-cases s.address_index address (name, version) b (n, v)
          (sym (address_index-write_entry b) ∙ h)) [
            | inl (eb, ep) ↦ indexed_new b n v eb ep
            | inr (f, h') ↦ let (e, he, ea) = w.indexed b n v h' in (e, entry_still n v e he, ea)
          ]

    pub write_entry-IsValid : IsValid after
    write_entry-IsValid = record {
      ascending = written-IsAscending;
      stored = written_stored;
      filed = written-IsFiled;
      named = written_named;
      distinct = written-IsDistinct;
      indexed = written_indexed;
    }
