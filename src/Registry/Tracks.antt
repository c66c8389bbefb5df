-- ===== src/Registry/Tracks.antt =====
-- The checks of a batch in contracts/router-registry/src/lib.rs, which look at the storage before the
-- batch and at the entries earlier in the batch, against the storage that these entries leave behind.
use stellar_router.Prelude.{
  ℕ, ◌++◌, Bool, true, false, ◌&&◌, ◌||◌, Option, none, some, List, [], ◌∷◌, ◌≡◌, refl, sym, ap,
  ◌∙◌, ◌⊎◌, inl, inr, arith, leb, ◌==◌, if◌then◌else◌, is_some, Bool-cases, ==→eq,
}
use mathlib.Core.Path.{subst}
use Prim.Native.Nat.{max}
use stellar_router.Prelude.Sequence.{last}
use stellar_router.Prelude.Ascending.{last-append}
use stellar_router.Common.{Address, ok, err, ◌>>◌, fail_if}
use stellar_router.Registry
use stellar_router.Registry.{
  Name, BulkRegistrationInput, RegistryError, Call, already_registered, invalid_version,
}
use stellar_router.Registry.Entries.{
  get_versions_list, not_above, validate_registration, write_entry,
}
use stellar_router.Registry.Bulk.{is_seen, larger, highest_in_batch, check_entry}
use stellar_router.Registry.Write.{get_versions_list-write_entry, entries-write_entry}

abbrev State : Type 0
State = Registry.Registry

pub is_seen-snoc :
    (seen : List (Name × ℕ)) (n v name version : ℕ)
    → is_seen (seen ++ (n, v) ∷ []) name version
      ≡ (is_seen seen name version || (n == name && v == version))
is_seen-snoc [] n v name version = ground arith
is_seen-snoc (p ∷ seen) n v name version = ground (arith, is_seen-snoc seen n v name version)

larger_comm : (a b : ℕ) (o : Option ℕ) → larger a (larger b o) ≡ larger b (larger a o)
larger_comm a b none = ap (λ k. some k) {x = max a b} {y = max b a} (ground arith)
larger_comm a b (some c) =
    ap (λ k. some k) {x = max a (max b c)} {y = max b (max a c)} (ground arith)

pub highest_in_batch-snoc :
    (seen : List (Name × ℕ)) (n v name : ℕ)
    → highest_in_batch (seen ++ (n, v) ∷ []) name
      ≡ (if n == name then larger v (highest_in_batch seen name) else highest_in_batch seen name)
highest_in_batch-snoc [] n v name = refl
highest_in_batch-snoc (p ∷ seen) n v name =
    ground
      (arith, highest_in_batch-snoc seen n v name, larger_comm p.1 v (highest_in_batch seen name))

-- A version above the highest of the batch and above the last one stored is the new highest.
not_above-larger :
    (x v : ℕ) (o o' : Option ℕ)
    → not_above v o ≡ false
    → not_above v o' ≡ false
    → (not_above x (larger v o) || not_above x o') ≡ leb x v
not_above-larger x v none none h k = ground arith
not_above-larger x v (some w) none h k = ground arith
not_above-larger x v none (some u) h k = ground arith
not_above-larger x v (some w) (some u) h k = ground arith

-- The storage `t` holds what `s` holds and what was seen in the batch.
pub record Tracks (s : State) (seen : List (Name × ℕ)) (t : State) : Type 0 where
  pub held : (n v : ℕ) → is_some (t.entries n v) ≡ (is_seen seen n v || is_some (s.entries n v))
  pub above :
      (n v : ℕ)
      → not_above v (last (get_versions_list t n))
        ≡ (not_above v (highest_in_batch seen n) || not_above v (last (get_versions_list s n)))

pub Tracks-refl : (s : State) → Tracks s [] s
Tracks-refl s = record { held = λ n v. refl; above = λ n v. refl }

-- An entry is refused by the checks of the batch exactly when it is refused after the entries before it.
abbrev pub Agree : Call (Unit {0}) → Call (Unit {0}) → Type 0
Agree m k =
    ((m ≡ ok tt) × (k ≡ ok tt))
    ⊎ ((e : RegistryError) × (f : RegistryError) × (m ≡ err e) × (k ≡ err f))

checks-Agree :
    (seen high zero_version stored low : Bool)
    → Agree
        (fail_if seen already_registered
          >> (fail_if high invalid_version
              >> (fail_if zero_version invalid_version
                  >> (fail_if stored already_registered >> fail_if low invalid_version))))
        (fail_if zero_version invalid_version
          >> (fail_if (seen || stored) already_registered >> fail_if (high || low) invalid_version))
checks-Agree true high true stored low = inr (_, _, refl, refl)
checks-Agree true high false stored low = inr (_, _, refl, refl)
checks-Agree false true true stored low = inr (_, _, refl, refl)
checks-Agree false true false true low = inr (_, _, refl, refl)
checks-Agree false true false false low = inr (_, _, refl, refl)
checks-Agree false false true stored low = inr (_, _, refl, refl)
checks-Agree false false false true low = inr (_, _, refl, refl)
checks-Agree false false false false true = inr (_, _, refl, refl)
checks-Agree false false false false false = inl (refl, refl)

module _ (s : State) (seen : List (Name × ℕ)) (t : State) (k : Tracks s seen t) where
  pub check_entry-validate_registration :
      (entry : BulkRegistrationInput)
      → Agree (check_entry s seen entry) (validate_registration t entry.name entry.version)
  unfolding check_entry validate_registration
  check_entry-validate_registration entry =
      subst
        (λ b. Agree (check_entry s seen entry) (
          fail_if (entry.version == 0) invalid_version
          >> (fail_if b already_registered
              >> fail_if (not_above entry.version (last (get_versions_list t entry.name)))
                  invalid_version)))
        (sym (k.held entry.name entry.version))
        (subst
          (λ b. Agree (check_entry s seen entry) (
            fail_if (entry.version == 0) invalid_version
            >> (fail_if
                  (is_seen seen entry.name entry.version
                    || is_some (s.entries entry.name entry.version))
                  already_registered
                >> fail_if b invalid_version)))
          (sym (k.above entry.name entry.version)) (checks-Agree _ _ _ _ _))

  module _ (caller : Address) (entry : BulkRegistrationInput)
      (h : check_entry s seen entry ≡ ok tt) where
    abbrev seen' : List (Name × ℕ)
    seen' = seen ++ (entry.name, entry.version) ∷ []

    abbrev after : State
    after = write_entry t caller entry.name entry.address entry.version

    held_after :
        (n v : ℕ) → is_some (after.entries n v) ≡ (is_seen seen' n v || is_some (s.entries n v))
    held_after n v = ground (
      arith,
      entries-write_entry t caller entry.name entry.address entry.version n v,
      is_seen-snoc seen entry.name entry.version n v,
      k.held n v,
    )

    not_high : not_above entry.version (highest_in_batch seen entry.name) ≡ false
    unfolding check_entry
    not_high = ground arith

    not_low : not_above entry.version (last (get_versions_list s entry.name)) ≡ false
    unfolding check_entry validate_registration
    not_low = ground arith

    above_after :
        (n v : ℕ)
        → not_above v (last (get_versions_list after n))
          ≡ (not_above v (highest_in_batch seen' n) || not_above v (last (get_versions_list s n)))
    above_after n v = elim (Bool-cases (n == entry.name)) [
      | inl b ↦
          let e : n ≡ entry.name = ==→eq n entry.name b in
          ap (λ l. not_above v (last l)) {y = get_versions_list t entry.name ++ entry.version ∷ []}
            (get_versions_list-write_entry t caller entry.name entry.address entry.version n
              ∙ ground arith)
          ∙ ap (not_above v) (last-append (get_versions_list t entry.name) entry.version)
          ∙ sym (
              not_above-larger v entry.version (highest_in_batch seen entry.name)
                (last (get_versions_list s entry.name)) not_high not_low)
          ∙ ap
              (λ m.
                not_above v (larger entry.version (highest_in_batch seen m))
                || not_above v (last (get_versions_list s m)))
              (sym e)
          ∙ ap (λ m. not_above v m || not_above v (last (get_versions_list s n)))
              (sym (highest_in_batch-snoc seen entry.name entry.version n ∙ ground arith))
      | inr f ↦
          ap (λ l. not_above v (last l)) {y = get_versions_list t n}
            (get_versions_list-write_entry t caller entry.name entry.address entry.version n
              ∙ ground arith)
          ∙ k.above n v
          ∙ ap (λ m. not_above v m || not_above v (last (get_versions_list s n)))
              (sym (highest_in_batch-snoc seen entry.name entry.version n ∙ ground arith))
    ]

    pub write_entry-Tracks : Tracks s seen' after
    write_entry-Tracks = record { held = held_after; above = above_after }
