-- ===== src/Registry/Latest.antt =====
-- `get_latest` and `get_latest_with_constraint` of contracts/router-registry/src/lib.rs against what they
-- are to find.
use stellar_router.Prelude.{
  ℕ, ◌<◌, Bool, true, false, ◌≡◌, refl, sym, ap, ◌∙◌, ◌⊎◌, inl, inr, arith, Option, some, List, [],
  ◌∷◌, length, ltb, Bool-cases,
}
use mathlib.Core.Path.{subst, fun_ext}
use stellar_router.Prelude.Sequence.{get_elem?}
use stellar_router.Prelude.Ascending.{get_elem?-lt, le_of_index}
use stellar_router.Common.{ok, err, ◌>>=◌, ◌>>◌, ok_or, fail_if}
use stellar_router.Registry
use stellar_router.Registry.{
  Name, ContractEntry, RegistryError, Call, all_versions_deprecated, not_found,
}
use stellar_router.Registry.Entries.{get_versions_list, is_empty}
use stellar_router.Registry.Lookup.{
  latest_from, latest_matching, latest_non_deprecated, get_latest, get_latest_with_constraint,
  found_or,
}
use stellar_router.Registry.Constraint.{Bytes, validate_constraint, version_matches_constraint}
use stellar_router.Registry.Invariant.{IsFiled, IsValid}
use stellar_router.Registry.Scan.{Matches, Skipped, Found, Some, Ends, scan, scan-Ends}

abbrev State : Type 0
State = Registry.Registry

module _ (s : State) (name : Name) (p : ℕ → Bool) where
  -- The entry with the greatest of the versions that match and are not deprecated.
  pub record IsLatest (e : ContractEntry) : Type 0 where
    pub named : e.name ≡ name
    pub filed : s.entries name e.version ≡ some e
    pub matching : p e.version ≡ true
    pub live : e.deprecated ≡ false
    pub newest :
        (v : ℕ) (x : ContractEntry)
        → s.entries name v ≡ some x
        → p v ≡ true
        → e.version < v
        → x.deprecated ≡ true

  -- Every registered version that matches is deprecated.
  abbrev pub AllDeprecated : Type 0
  AllDeprecated =
      (v : ℕ) (x : ContractEntry) → s.entries name v ≡ some x → p v ≡ true → x.deprecated ≡ true

  -- A registered version matches.
  abbrev pub AnyMatch : Type 0
  AnyMatch = (v : ℕ) × (x : ContractEntry) × (s.entries name v ≡ some x) × (p v ≡ true)

  -- The answer is the latest match, or says that all matches are deprecated or that there is none.
  abbrev pub Selects : Call ContractEntry → Type 0
  Selects m =
      ((e : ContractEntry) × (m ≡ ok e) × IsLatest e)
      ⊎ (((m ≡ err all_versions_deprecated) × AnyMatch × AllDeprecated)
          ⊎ ((m ≡ err not_found) × (¬ AnyMatch)))

  module _ (w : IsValid s) where
    abbrev vs : List ℕ
    vs = get_versions_list s name

    matches :
        (v : ℕ) (x : ContractEntry) (h : s.entries name v ≡ some x)
        → p v ≡ true
        → Matches s name vs p (w.filed name v x h).place v x
    matches v x h t = record { at_place = (w.filed name v x h).listed; matching = t; filed = h }

    Found-IsLatest : (e : ContractEntry) → Found s name vs p (length vs) e → IsLatest e
    Found-IsLatest e f =
        let i : IsFiled s name f.version e = w.filed name f.version e f.found.filed in
        record {
          named = i.same_name;
          filed = ap (s.entries name) i.same_version ∙ f.found.filed;
          matching = ap p i.same_version ∙ f.found.matching;
          live = f.live;
          newest = λ v x h t l.
              let j : IsFiled s name v x = w.filed name v x h in
              elim (Bool-cases (ltb f.place j.place)) [
                | inl b ↦
                    f.skipped j.place v x (ground arith) (get_elem?-lt vs j.place v j.listed)
                      (matches v x h t)
                | inr b ↦ absurd (
                    omega (
                      arith,
                      i.same_version,
                      le_of_index vs j.place f.place v f.version (w.ascending name) j.listed
                          f.found.at_place (ground arith),
                    ))
              ];
        }

    missed_deprecated : Skipped s name vs p 0 (length vs) → AllDeprecated
    missed_deprecated k v x h t =
        let j : IsFiled s name v x = w.filed name v x h in
        k j.place v x (omega arith) (get_elem?-lt vs j.place v j.listed) (matches v x h t)

    some_any : Some s name vs p (length vs) → AnyMatch
    some_any (k, u, x, l, m) = (u, x, m.filed, m.matching)

    any_some : AnyMatch → Some s name vs p (length vs)
    any_some (v, x, h, t) =
        let j : IsFiled s name v x = w.filed name v x h in
        (j.place, v, x, get_elem?-lt vs j.place v j.listed, matches v x h t)

    abbrev scanned : Call (Option ContractEntry × Bool)
    scanned = scan s name vs p (length vs) false

    scanned-Ends : Ends s name vs p (length vs) false scanned
    scanned-Ends = scan-Ends s name vs p (w.stored name) (length vs) (omega arith) false

    -- The answer that tells a missing match from deprecated ones.
    pub found_or-Selects : Selects (scanned >>= found_or)
    found_or-Selects = elim scanned-Ends [
      | inl (e, m, f) ↦ inl (e, ap (λ r. r >>= found_or) m, Found-IsLatest e f)
      | inr (true, m, k, to, from) ↦ elim (from refl) [
        | inl z ↦ absurd (ground arith)
        | inr z ↦ inr (inl (ap (λ r. r >>= found_or) m, some_any z, missed_deprecated k))
      ]
      | inr (false, m, k, to, from) ↦
          inr
            (inr (ap (λ r. r >>= found_or) m, λ a. absurd (ground (arith, to (inr (any_some a))))))
    ]

pub nonempty : (vs : List ℕ) → is_empty vs ≡ false → (v : ℕ) × (get_elem? vs 0 ≡ some v)
nonempty [] h = absurd (ground arith)
nonempty (v ∷ rest) h = (v, refl)

pub nowhere : (vs : List ℕ) (i v : ℕ) → is_empty vs ≡ true → get_elem? vs i ≡ some v → ⊥
nowhere [] i v h e = ground arith
nowhere (x ∷ rest) i v h e = ground arith

-- Every version.
abbrev pub always : ℕ → Bool
always v = true

module _ (s : State) (name : Name) (w : IsValid s) where
  none_registered :
      (p : ℕ → Bool) → is_empty (get_versions_list s name) ≡ true → ¬ AnyMatch s name p
  none_registered p h (v, x, e, t) =
      nowhere (get_versions_list s name) (w.filed name v x e).place v h (w.filed name v x e).listed

  -- With every version a match, no match means deprecation.
  latest_non_deprecated-Selects :
      is_empty (get_versions_list s name) ≡ false
      → Selects s name always (latest_non_deprecated s name (get_versions_list s name))
  unfolding latest_non_deprecated latest_matching
  latest_non_deprecated-Selects h =
      let answer : Option ContractEntry × Bool → Call ContractEntry =
        λ r. ok_or r.0 all_versions_deprecated in
      let (v, e) = nonempty (get_versions_list s name) h in
      let (x, k) = w.stored name 0 v e in
      elim (scanned-Ends s name always w) [
        | inl (e, m, f) ↦ inl (e, ap (λ r. r >>= answer) m, Found-IsLatest s name always w e f)
        | inr (b, m, k', to, from) ↦
            inr (
              inl (ap (λ r. r >>= answer) m, (v, x, k, refl), missed_deprecated s name always w k'))
      ]

  -- On a well-formed storage `get_latest` gives the registered entry of the name with the greatest
  -- version that is not deprecated; it fails with `AllVersionsDeprecated` exactly when the name has
  -- versions and all are deprecated, and with `NotFound` exactly when the name has no version.
  pub get_latest-Selects : Selects s name always (get_latest s name)
  unfolding get_latest
  get_latest-Selects = elim (Bool-cases (is_empty (get_versions_list s name))) [
    | inl t ↦ inr (
        inr (
          ap (λ b. fail_if b not_found >> latest_non_deprecated s name (get_versions_list s name))
              t,
          none_registered always t,
        ))
    | inr f ↦
        subst (Selects s name always)
          (sym (
            ap (λ b. fail_if b not_found >> latest_non_deprecated s name (get_versions_list s name))
              f))
          (latest_non_deprecated-Selects f)
  ]

  pub constrained-Selects :
      (constraint : Bytes) (p : ℕ → Bool)
      → validate_constraint constraint ≡ ok tt
      → ((v : ℕ) → version_matches_constraint v constraint ≡ ok (p v))
      → Selects s name p (get_latest_with_constraint s name (some constraint))
  unfolding get_latest_with_constraint latest_matching
  constrained-Selects constraint p h m =
      let vs : List ℕ = get_versions_list s name in
      let search_by : (ℕ → Call Bool) → Call ContractEntry =
        λ f. latest_from s name vs f (length vs) false >>= found_or in
      let searched : (ℕ → Call Bool) → Call ContractEntry =
        λ f. fail_if (is_empty vs) not_found >> search_by f in
      let same : (λ v. version_matches_constraint v constraint) ≡ (λ v. ok (p v)) = fun_ext m in
      let eq : get_latest_with_constraint s name (some constraint) ≡ searched (λ v. ok (p v)) =
        ap (λ c. c >> searched (λ v. version_matches_constraint v constraint)) h
        ∙ ap searched same in
      subst (Selects s name p) (sym eq) (elim (Bool-cases (is_empty vs)) [
        | inl t ↦ inr (
            inr (ap (λ b. fail_if b not_found >> search_by (λ v. ok (p v))) t, none_registered p t))
        | inr f ↦
            subst (Selects s name p)
              (sym (ap (λ b. fail_if b not_found >> search_by (λ v. ok (p v))) f))
              (found_or-Selects s name p w)
      ])
