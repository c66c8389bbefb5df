-- ===== src/Registry/Scan.antt =====
-- The loop of `latest_matching` in contracts/router-registry/src/lib.rs, over versions that are stored.
use stellar_router.Prelude.{
  ℕ, zero, suc, ◌<◌, ◌≤◌, Bool, true, false, not, ◌≡◌, refl, ap, ◌∙◌, ◌⊎◌, inl, inr, arith, Option,
  none, some, List, length, ◌==◌, if◌then◌else◌, Bool-cases,
}
use stellar_router.Prelude.Sequence.{get_elem?}
use stellar_router.Prelude.Ascending.{lt-get_elem?}
use stellar_router.Common.{ok}
use stellar_router.Registry
use stellar_router.Registry.{Name, ContractEntry, Call}
use stellar_router.Registry.Lookup.{latest_from}

abbrev State : Type 0
State = Registry.Registry

module _ (s : State) (name : Name) (vs : List ℕ) (p : ℕ → Bool) where
  abbrev pub scan : ℕ → Bool → Call (Option ContractEntry × Bool)
  scan i any = latest_from s name vs (λ v. ok (p v)) i any

  -- A stored entry under a matching version at a place of the versions.
  pub record Matches (k u : ℕ) (x : ContractEntry) : Type 0 where
    pub at_place : get_elem? vs k ≡ some u
    pub matching : p u ≡ true
    pub filed : s.entries name u ≡ some x

  -- Every match from place `lo` up to `hi` is deprecated.
  abbrev pub Skipped : ℕ → ℕ → Type 0
  Skipped lo hi =
      (k u : ℕ) (x : ContractEntry) → lo ≤ k → k < hi → Matches k u x → x.deprecated ≡ true

  -- The newest match below `i` that is not deprecated.
  pub record Found (i : ℕ) (e : ContractEntry) : Type 0 where
    pub place : ℕ
    pub version : ℕ
    pub below : place < i
    pub found : Matches place version e
    pub live : e.deprecated ≡ false
    pub skipped : Skipped (suc place) i

  -- Some place below `i` matches.
  abbrev pub Some : ℕ → Type 0
  Some i = (k : ℕ) × (u : ℕ) × (x : ContractEntry) × (k < i) × Matches k u x

  -- The loop ends with the newest match that is not deprecated, or says whether it has met a match.
  abbrev pub Ends : ℕ → Bool → Call (Option ContractEntry × Bool) → Type 0
  Ends i any m =
      ((e : ContractEntry) × (m ≡ ok (some e, true)) × Found i e)
      ⊎ ((b : Bool) × (m ≡ ok (none, b))
          × Skipped 0 i
          × ((any ≡ true) ⊎ Some i → b ≡ true)
          × (b ≡ true → (any ≡ true) ⊎ Some i))

  module _ (i v : ℕ) (e : ContractEntry) (at_place : get_elem? vs i ≡ some v)
      (filed : s.entries name v ≡ some e) where
    scan-suc :
        (any : Bool)
        → scan (suc i) any ≡ (
            if not (p v)
            then scan i any
            else if not e.deprecated
            then ok (some e, true)
            else scan i true)
    unfolding latest_from
    scan-suc any = ground arith

    -- A match at the next place.
    at_next : (k u : ℕ) (x : ContractEntry) → Matches k u x → k ≡ i → (u ≡ v) × (x ≡ e)
    at_next k u x m eq =
        let ev : u ≡ v = ground (arith, ap (get_elem? vs) eq, m.at_place) in
        (ev, ground (arith, m.filed, ap (s.entries name) ev))

    module _ (d : p v ≡ false ⊎ ((p v ≡ true) × (e.deprecated ≡ true))) where
      skip_next : (lo : ℕ) → Skipped lo i → Skipped lo (suc i)
      skip_next lo h k u x l r m = elim (Bool-cases (k == i)) [
        | inl t ↦
            let (ev, ex) = at_next k u x m (ground arith) in
            elim d [
              | inl f ↦ absurd (ground (arith, m.matching, ap p ev))
              | inr (t', f) ↦ ap (λ (y : ContractEntry). y.deprecated) ex ∙ f
            ]
        | inr f ↦ h k u x l (ground arith) m
      ]

      Found-next : (x : ContractEntry) → Found i x → Found (suc i) x
      Found-next x f = record {
        place = f.place;
        version = f.version;
        below = omega (arith, f.below);
        found = f.found;
        live = f.live;
        skipped = skip_next (suc f.place) f.skipped;
      }

    some_next : Some i → Some (suc i)
    some_next (k, u, x, l, m) = (k, u, x, omega arith, m)

    some_last : p v ≡ false → Some (suc i) → Some i
    some_last f (k, u, x, l, m) = elim (Bool-cases (k == i)) [
      | inl t ↦
          let (ev, ex) = at_next k u x m (ground arith) in
          absurd (ground (arith, m.matching, ap p ev))
      | inr g ↦ (k, u, x, ground arith, m)
    ]

  module _
      (stored : (i v : ℕ)
        → get_elem? vs i ≡ some v
        → (e : ContractEntry) × (s.entries name v ≡ some e)) where
    -- The ends of the loop by the version at the last place.
    go_past :
        (i v : ℕ) (e : ContractEntry)
        → get_elem? vs i ≡ some v
        → s.entries name v ≡ some e
        → (any : Bool) → p v ≡ false
        → Ends i any (scan i any)
        → Ends (suc i) any (scan (suc i) any)
    go_past i v e a h any f r =
        let eq : scan (suc i) any ≡ scan i any = scan-suc i v e a h any ∙ ground arith in
        elim r [
          | inl (x, m, c) ↦ inl (x, eq ∙ m, Found-next i v e a h (inl f) x c)
          | inr (b, m, k, to, from) ↦ inr (
            b,
            eq ∙ m,
            skip_next i v e a h (inl f) 0 k,
            (λ o. to (elim o [ inl y ↦ inl y | inr y ↦ inr (some_last i v e a h f y) ])),
            (λ y. elim (from y) [ inl z ↦ inl z | inr z ↦ inr (some_next i v e a h z) ]),
          )
        ]

    go_on :
        (i v : ℕ) (e : ContractEntry)
        → get_elem? vs i ≡ some v
        → s.entries name v ≡ some e
        → (any : Bool) → p v ≡ true
        → e.deprecated ≡ true
        → Ends i true (scan i true)
        → Ends (suc i) any (scan (suc i) any)
    go_on i v e a h any t d r =
        let eq : scan (suc i) any ≡ scan i true = scan-suc i v e a h any ∙ ground arith in
        elim r [
          | inl (x, m, c) ↦ inl (x, eq ∙ m, Found-next i v e a h (inr (t, d)) x c)
          | inr (b, m, k, to, from) ↦ inr (
            b,
            eq ∙ m,
            skip_next i v e a h (inr (t, d)) 0 k,
            (λ o. to (inl refl)),
            (λ y. inr (i, v, e, omega arith, record { at_place = a; matching = t; filed = h })),
          )
        ]

    stop_here :
        (i v : ℕ) (e : ContractEntry)
        → get_elem? vs i ≡ some v
        → s.entries name v ≡ some e
        → (any : Bool) → p v ≡ true
        → e.deprecated ≡ false
        → Ends (suc i) any (scan (suc i) any)
    stop_here i v e a h any t d = inl (
      e,
      scan-suc i v e a h any ∙ ground arith,
      record {
        place = i;
        version = v;
        below = omega arith;
        found = record { at_place = a; matching = t; filed = h };
        live = d;
        skipped = λ k u x l r m. absurd (omega arith);
      },
    )

    pub scan-Ends : (i : ℕ) → i ≤ length vs → (any : Bool) → Ends i any (scan i any)
    unfolding latest_from
    scan-Ends zero l any = inr (
      any,
      refl,
      (λ k u x l r m. absurd (omega arith)),
      (λ o. elim o [ inl y ↦ y | inr (k, u, x, r, m) ↦ absurd (omega arith) ]),
      (λ y. inl y),
    )
    scan-Ends (suc i) l any =
        let (v, a) = lt-get_elem? vs i (omega arith) in
        let (e, h) = stored i v a in
        elim (Bool-cases (p v)) [
          | inr f ↦ go_past i v e a h any f (scan-Ends i (omega arith) any)
          | inl t ↦ elim (Bool-cases e.deprecated) [
            | inl d ↦ go_on i v e a h any t d (scan-Ends i (omega arith) true)
            | inr d ↦ stop_here i v e a h any t d
          ]
        ]
