-- ===== src/Registry/Valid.antt =====
-- What the elementary writes of router-registry keep: the storage stays well formed, and an entry, once
-- registered, stays, and stays deprecated.
use stellar_router.Prelude.{
  ℕ, String, true, false, ◌&&◌, ◌≡◌, refl, sym, ap, ◌∙◌, inl, inr, arith, Option, some, List, [],
  ◌∷◌, ◌++◌, ◌==◌, insert_at-cases, Bool-cases, ==→eq,
}
use mathlib.Core.Path.{subst}
use stellar_router.Prelude.Sequence.{get_elem?}
use stellar_router.Common.{Address}
use stellar_router.Registry
use stellar_router.Registry.{Name, ContractEntry, Event, publish}
use stellar_router.Registry.Entries.{get_versions_list, retired}
use stellar_router.Registry.Invariant.{IsFiled, IsValid}
use stellar_router.Registry.Write.{write_entry-IsValid, entry_still}
use stellar_router.Registry.Writes.{Write, Writes, retire_at}

abbrev State : Type 0
State = Registry.Registry

-- What an entry keeps for ever.
pub record Descends (old new : ContractEntry) : Type 0 where
  pub address : new.address ≡ old.address
  pub name : new.name ≡ old.name
  pub version : new.version ≡ old.version
  pub registered_by : new.registered_by ≡ old.registered_by
  pub deprecated : old.deprecated ≡ true → new ≡ old

Descends-refl : (e : ContractEntry) → Descends e e
Descends-refl e = record {
  address = refl;
  name = refl;
  version = refl;
  registered_by = refl;
  deprecated = λ h. refl;
}

-- The entry that an entry of before has become.
abbrev pub Lasts : ContractEntry → Option ContractEntry → Type 0
Lasts old o = (e : ContractEntry) × (o ≡ some e) × Descends old e

module _ (s : State) (name : Name) (version : ℕ) (entry : ContractEntry) (reason : Option String)
    (h : s.entries name version ≡ some entry) where
  abbrev after : State
  after = retire_at s name version entry reason

  at_key :
      (n : Name) (v : ℕ) (e : ContractEntry)
      → (n == name && v == version) ≡ true
      → s.entries n v ≡ some e
      → entry ≡ e
  at_key n v e t k =
      let same : s.entries n v ≡ s.entries name version =
        ap (λ m. s.entries m v) {x = n} {y = name} (==→eq n name (ground arith))
        ∙ ap (s.entries name) {x = v} {y = version} (==→eq v version (ground arith)) in
      ground (arith, sym h ∙ sym same ∙ k)

  retire-Lasts :
      entry.deprecated ≡ false
      → (n : Name) (v : ℕ) (e : ContractEntry) → s.entries n v ≡ some e
      → Lasts e (after.entries n v)
  retire-Lasts d n v e k = elim (Bool-cases (n == name && v == version)) [
    | inl t ↦
        subst (λ x. Lasts x (after.entries n v)) (at_key n v e t k)
          (
            retired entry reason,
            ground arith,
            record {
              address = refl;
              name = refl;
              version = refl;
              registered_by = refl;
              deprecated = λ p. absurd (ground arith);
            },
          )
    | inr f ↦ (e, ground arith, Descends-refl e)
  ]

  module _ (w : IsValid s) where
    retired_stored :
        (n : Name) (i v : ℕ)
        → get_elem? (get_versions_list s n) i ≡ some v
        → (x : ContractEntry) × (after.entries n v ≡ some x)
    retired_stored n i v g = elim (Bool-cases (n == name && v == version)) [
      | inl t ↦ (retired entry reason, ground arith)
      | inr f ↦ let (x, k) = w.stored n i v g in (x, ground arith)
    ]

    IsFiled-still :
        (n : Name) (v : ℕ) (x y : ContractEntry)
        → IsFiled s n v x
        → y.name ≡ x.name
        → y.version ≡ x.version
        → IsFiled after n v y
    IsFiled-still n v x y f en ev = record {
      same_name = en ∙ f.same_name;
      same_version = ev ∙ f.same_version;
      positive = f.positive;
      place = f.place;
      listed = f.listed;
    }

    retired-IsFiled :
        (n : Name) (v : ℕ) (x : ContractEntry) → after.entries n v ≡ some x → IsFiled after n v x
    retired-IsFiled n v x k =
        elim (insert_at-cases s.entries name version (retired entry reason) n v x k) [
          | inl (en, ev, ex) ↦
              IsFiled-still n v entry x
                (w.filed n v entry (ap (λ m. s.entries m v) en ∙ ap (s.entries name) ev ∙ h))
                (sym (ap (λ (y : ContractEntry). y.name) ex))
                (sym (ap (λ (y : ContractEntry). y.version) ex))
          | inr (f, k') ↦ IsFiled-still n v x x (w.filed n v x k') refl refl
        ]

    retired_indexed :
        (b : Address) (n : Name) (v : ℕ)
        → s.address_index b ≡ some (n, v)
        → (x : ContractEntry) × (after.entries n v ≡ some x) × (x.address ≡ b)
    retired_indexed b n v g =
        let (e, k, a) = w.indexed b n v g in
        elim (Bool-cases (n == name && v == version)) [
          | inl t ↦ (
            retired entry reason,
            ground arith,
            ap (λ (y : ContractEntry). y.address) (at_key n v e t k) ∙ a,
          )
          | inr f ↦ (e, ground arith, a)
        ]

    retire_at-IsValid : IsValid after
    retire_at-IsValid = record {
      ascending = w.ascending;
      stored = retired_stored;
      filed = retired-IsFiled;
      named = w.named;
      distinct = w.distinct;
      indexed = retired_indexed;
    }

-- Neither the administrator nor the events matter.
untouched :
    (s : State) (admin : Option Address) (events : List Event)
    → IsValid s
    → IsValid (record s { admin = admin; events = events })
untouched s admin events w = record {
  ascending = w.ascending;
  stored = w.stored;
  filed = λ n v e h.
      let f : IsFiled s n v e = w.filed n v e h in
      record {
        same_name = f.same_name;
        same_version = f.same_version;
        positive = f.positive;
        place = f.place;
        listed = f.listed;
      };
  named = w.named;
  distinct = w.distinct;
  indexed = w.indexed;
}

Write-IsValid : (s t : State) → Write s t → IsValid s → IsValid t
Write-IsValid s t (Write.register o caller name address version a) w =
    write_entry-IsValid o caller name address version w a
Write-IsValid s t (Write.deprecate o name version entry reason h d) w =
    retire_at-IsValid o name version entry reason h w
Write-IsValid s t (Write.set_admin o admin) w = untouched o (some admin) o.events w
Write-IsValid s t (Write.announce o event) w = untouched o o.admin (o.events ++ event ∷ []) w

pub Writes-IsValid : (s t : State) → Writes s t → IsValid s → IsValid t
Writes-IsValid s t Writes.nothing w = w
Writes-IsValid s t (Writes.and_then m u h k) w = Write-IsValid m t k (Writes-IsValid s m h w)

Write-Lasts :
    (s t : State) (n : Name) (v : ℕ) (e : ContractEntry)
    → Write s t
    → IsValid s
    → s.entries n v ≡ some e
    → Lasts e (t.entries n v)
Write-Lasts s t n v e (Write.register o caller name address version a) w h =
    (e, entry_still o caller name address version w a n v e h, Descends-refl e)
Write-Lasts s t n v e (Write.deprecate o name version entry reason p d) w h =
    retire-Lasts o name version entry reason p d n v e h
Write-Lasts s t n v e (Write.set_admin o admin) w h = (e, h, Descends-refl e)
Write-Lasts s t n v e (Write.announce o event) w h = (e, h, Descends-refl e)

Descends-trans : (a b c : ContractEntry) → Descends a b → Descends b c → Descends a c
Descends-trans a b c p q = record {
  address = q.address ∙ p.address;
  name = q.name ∙ p.name;
  version = q.version ∙ p.version;
  registered_by = q.registered_by ∙ p.registered_by;
  deprecated = λ h.
      q.deprecated (ap (λ (x : ContractEntry). x.deprecated) (p.deprecated h) ∙ h) ∙ p.deprecated h;
}

pub Writes-Lasts :
    (s t : State) (n : Name) (v : ℕ) (e : ContractEntry)
    → Writes s t
    → IsValid s
    → s.entries n v ≡ some e
    → Lasts e (t.entries n v)
Writes-Lasts s t n v e Writes.nothing w h = (e, h, Descends-refl e)
Writes-Lasts s t n v e (Writes.and_then m u g k) w h =
    let (x, hx, d) = Writes-Lasts s m n v e g w h in
    let (y, hy, d') = Write-Lasts m t n v x k (Writes-IsValid s m g w) hx in
    (y, hy, Descends-trans e x y d d')
