-- ===== src/Registry/Retire.antt =====
-- `deprecate_all_versions` of contracts/router-registry/src/lib.rs, and the list of a name's entries.
use stellar_router.Prelude.{
  ℕ, zero, suc, String, true, false, ◌≡◌, refl, sym, ap, ◌∙◌, inl, inr, arith, Option, some, List,
  [], ◌∷◌, ◌==◌, contains, unwrap_or, Bool-cases, Option-cases, ==→eq,
}
use mathlib.Core.Path.{subst}
use stellar_router.Prelude.Sequence.{get_elem?}
use stellar_router.Prelude.Ascending.{IsAscending}
use stellar_router.Common.{Address, Env, IsAdmin, ok, err, ◌>>=◌, ◌>>◌, fail_if}
use stellar_router.Registry
use stellar_router.Registry.{
  Name, ContractEntry, RegistryError, Call, all_versions_deprecated, not_found, publish,
}
use stellar_router.Registry.Entries.{get_versions_list, is_empty, deprecate_one, retired}
use stellar_router.Registry.Calls.{ignore, deprecate_each, deprecate_all_versions}
use stellar_router.Registry.Lookup.{get_latest, push_entry, stored_entries, get_all_versions}
use stellar_router.Registry.Invariant.{IsFiled, IsValid}
use stellar_router.Registry.Writes.{Write, Writes, Writes-trans, retire_at}
use stellar_router.Registry.Valid.{Writes-IsValid, Writes-Lasts}
use stellar_router.Registry.Latest.{nonempty, get_latest-Selects}
use stellar_router.Registry.InOrder.{authorize-IsAdmin}

abbrev State : Type 0
State = Registry.Registry

-- A stored entry that is deprecated.
abbrev pub Retired : State → Name → ℕ → Type 0
Retired s name v = (x : ContractEntry) × (s.entries name v ≡ some x) × (x.deprecated ≡ true)

abbrev Stored : State → Name → ℕ → Type 0
Stored s name v = (x : ContractEntry) × (s.entries name v ≡ some x)

-- What a call that deprecates leaves: `t`, by elementary writes that leave the lists of versions alone.
record Retires (s t : State) (name : Name) (vs : List ℕ) : Type 0 where
  writes : Writes s t
  same_versions : t.versions ≡ s.versions
  all_retired : (v : ℕ) → contains vs v ≡ true → Retired t name v

deprecate_one-Retired :
    (s : State) (name : Name) (v : ℕ) (reason : Option String) (e : ContractEntry)
    → s.entries name v ≡ some e
    → (t : State) × (ignore s (deprecate_one s name v reason) ≡ ok t)
      × Writes s t
      × (t.versions ≡ s.versions)
      × Retired t name v
unfolding deprecate_one
deprecate_one-Retired s name v reason e h = elim (Bool-cases e.deprecated) [
  | inl d ↦ (s, ground arith, Writes.nothing, refl, (e, h, d))
  | inr d ↦ (
    retire_at s name v e reason,
    ground arith,
    Writes.and_then s _ Writes.nothing (Write.deprecate s name v e reason h d),
    refl,
    (retired e reason, ground arith, refl),
  )
]

Retired-still :
    (s t : State) (name : Name) (v : ℕ)
    → Writes s t
    → IsValid s
    → Retired s name v
    → Retired t name v
Retired-still s t name v w i (x, h, d) =
    let (y, k, l) = Writes-Lasts s t name v x w i h in
    (y, k, ap (λ (z : ContractEntry). z.deprecated) (l.deprecated d) ∙ d)

deprecate_each-Retires :
    (name : Name) (reason : Option String) (vs : List ℕ) (s : State)
    → IsValid s
    → ((v : ℕ) → contains vs v ≡ true → Stored s name v)
    → (t : State) × (deprecate_each s name reason vs ≡ ok t) × Retires s t name vs
unfolding deprecate_each
deprecate_each-Retires name reason [] s i h = (
  s,
  refl,
  record {
    writes = Writes.nothing;
    same_versions = refl;
    all_retired = λ v c. absurd (ground arith);
  },
)
deprecate_each-Retires name reason (v ∷ vs) s i h =
    let (e, he) = h v (ground arith) in
    let (u, eu, w, sv, r) = deprecate_one-Retired s name v reason e he in
    let iu : IsValid u = Writes-IsValid s u w i in
    let (t, et, k) = deprecate_each-Retires name reason vs u iu (λ x c.
      let (y, hy) = h x (ground arith) in
      let (z, hz, l) = Writes-Lasts s u name x y w i hy in (z, hz)) in
    (
      t,
      ap (λ m. m >>= λ (a : State). deprecate_each a name reason vs) eu ∙ et,
      record {
        writes = Writes-trans s u t w k.writes;
        same_versions = k.same_versions ∙ sv;
        all_retired = λ x c. elim (Bool-cases (x == v)) [
          | inl b ↦
              subst (Retired t name) (sym (==→eq x v b)) (Retired-still u t name v k.writes iu r)
          | inr b ↦ k.all_retired x (ground arith)
        ];
      },
    )

get_elem?-contains : (vs : List ℕ) (i v : ℕ) → get_elem? vs i ≡ some v → contains vs v ≡ true
get_elem?-contains [] i v h = absurd (ground arith)
get_elem?-contains (x ∷ vs) zero v h = ground arith
get_elem?-contains (x ∷ vs) (suc i) v h = ground (arith, get_elem?-contains vs i v h)

contains-get_elem? :
    (vs : List ℕ) (v : ℕ) → contains vs v ≡ true → (i : ℕ) × (get_elem? vs i ≡ some v)
contains-get_elem? [] v h = absurd (ground arith)
contains-get_elem? (x ∷ vs) v h = elim (Bool-cases (v == x)) [
  | inl t ↦ (zero, ground arith)
  | inr f ↦ let (i, e) = contains-get_elem? vs v (ground arith) in (suc i, e)
]

module _ (s t : State) (name : Name) (w : IsValid s)
    (k : Retires s t name (get_versions_list s name)) where
  same_list : get_versions_list t name ≡ get_versions_list s name
  same_list = ap (λ (m : Name → Option (List ℕ)). unwrap_or (m name) []) k.same_versions

  -- No entry of the name is left that is not deprecated, so the newest is not found.
  get_latest-Retires :
      is_empty (get_versions_list s name) ≡ false → get_latest t name ≡ err all_versions_deprecated
  get_latest-Retires f =
      let wt : IsValid t = Writes-IsValid s t k.writes w in
      let all : (v : ℕ) (x : ContractEntry) → t.entries name v ≡ some x → x.deprecated ≡ true =
        λ v x h.
          let l : IsFiled t name v x = wt.filed name v x h in
          let (y, hy, d) = k.all_retired v (
            ap (λ vs. contains vs v) (sym same_list)
            ∙ get_elem?-contains (get_versions_list t name) l.place v l.listed) in
          ground (arith, d, hy, h) in
      let (v, e) = nonempty (get_versions_list s name) f in
      let (y, hy, d) = k.all_retired v (get_elem?-contains (get_versions_list s name) 0 v e) in
      elim (get_latest-Selects t name wt) [
        | inl (x, m, l) ↦ absurd (ground (arith, all x.version x l.filed, l.live))
        | inr (inl (m, a, l)) ↦ m
        | inr (inr (m, unmatched)) ↦ absurd (unmatched (v, y, hy, refl))
      ]

-- On a well-formed storage the administrator can deprecate all versions of a registered name, whatever
-- versions are deprecated already, and then `get_latest` of the name fails with `AllVersionsDeprecated`.
pub deprecate_all_versions-get_latest :
    (env : Env) (s : State) (caller : Address) (name : Name) (reason : Option String)
    → IsValid s
    → IsAdmin env s.admin caller
    → is_empty (get_versions_list s name) ≡ false
    → (t : State) × (deprecate_all_versions env s caller name reason ≡ ok t)
      × (get_latest t name ≡ err all_versions_deprecated)
unfolding deprecate_all_versions
deprecate_all_versions-get_latest env s caller name reason w a f =
    let vs : List ℕ = get_versions_list s name in
    let (t, et, k) =
      deprecate_each-Retires name reason vs s w
        (λ v c. let (i, e) = contains-get_elem? vs v c in w.stored name i v e) in
    (
      t,
      ap (λ m. m >> (fail_if (is_empty vs) not_found >> deprecate_each s name reason vs))
            (authorize-IsAdmin env s caller a)
          ∙ ap (λ b. fail_if b not_found >> deprecate_each s name reason vs) f
          ∙ et,
      get_latest-Retires s t name w k f,
    )

-- The versions of the entries in a list.
abbrev pub versions_of : List ContractEntry → List ℕ
versions_of [] = []
versions_of (e ∷ es) = e.version ∷ versions_of es

stored_entries-versions :
    (s : State) (name : Name) (vs : List ℕ)
    → IsValid s
    → ((i v : ℕ) → get_elem? vs i ≡ some v → Stored s name v)
    → versions_of (stored_entries s name vs) ≡ vs
unfolding stored_entries
stored_entries-versions s name [] w h = refl
stored_entries-versions s name (v ∷ vs) w h =
    let (e, he) = h 0 v refl in
    let rest : List ContractEntry = stored_entries s name vs in
    ap (λ o. versions_of (push_entry o rest)) he
    ∙ ap (λ k. k ∷ versions_of rest) (w.filed name v e he).same_version
    ∙ ap (λ l. v ∷ l) (stored_entries-versions s name vs w (λ i u g. h (suc i) u g))

filed_first :
    (s : State) (name : Name) (v : ℕ) (x : ContractEntry)
    → IsValid s
    → s.entries name v ≡ some x
    → (rest : List ContractEntry) (e : ContractEntry)
    → ((j : ℕ) → get_elem? rest j ≡ some e → s.entries name e.version ≡ some e)
    → (i : ℕ) → get_elem? (x ∷ rest) i ≡ some e
    → s.entries name e.version ≡ some e
filed_first s name v x w hx rest e f zero h =
    let same : x ≡ e = ground arith in
    subst (λ y. s.entries name y.version ≡ some y) same
      (ap (s.entries name) (w.filed name v x hx).same_version ∙ hx)
filed_first s name v x w hx rest e f (suc i) h = f i h

stored_entries-filed :
    (s : State) (name : Name) (vs : List ℕ)
    → IsValid s
    → (i : ℕ) (e : ContractEntry) → get_elem? (stored_entries s name vs) i ≡ some e
    → s.entries name e.version ≡ some e
unfolding stored_entries
stored_entries-filed s name [] w i e h = absurd (ground arith)
stored_entries-filed s name (v ∷ vs) w i e h = elim (Option-cases (s.entries name v)) [
  | inl n ↦
      stored_entries-filed s name vs w i e
        (ap (λ o. get_elem? (push_entry o (stored_entries s name vs)) i) (sym n) ∙ h)
  | inr (x, hx) ↦
      filed_first s name v x w hx (stored_entries s name vs) e
        (λ j k. stored_entries-filed s name vs w j e k) i
        (ap (λ o. get_elem? (push_entry o (stored_entries s name vs)) i) (sym hx) ∙ h)
]

-- On a well-formed storage `get_all_versions` lists one entry for each version of the name, in ascending
-- order of the versions, and each listed entry is the one filed under its version.
pub get_all_versions-versions :
    (s : State) (name : Name)
    → IsValid s
    → (versions_of (get_all_versions s name) ≡ get_versions_list s name)
      × IsAscending (versions_of (get_all_versions s name))
      × ((i : ℕ) (e : ContractEntry)
          → get_elem? (get_all_versions s name) i ≡ some e
          → s.entries name e.version ≡ some e)
unfolding get_all_versions
get_all_versions-versions s name w =
    let same : versions_of (stored_entries s name (get_versions_list s name))
        ≡ get_versions_list s name =
      stored_entries-versions s name (get_versions_list s name) w (w.stored name) in
    (
      same,
      subst IsAscending (sym same) (w.ascending name),
      λ i e h. stored_entries-filed s name (get_versions_list s name) w i e h,
    )
