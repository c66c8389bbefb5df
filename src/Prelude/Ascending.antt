-- ===== src/Prelude/Ascending.antt =====
-- Strictly ascending vectors, by index.
use stellar_router.Prelude.{
  ℕ, zero, suc, ◌-◌, ◌<◌, ◌≤◌, ◌++◌, ◌≡◌, refl, ◌∙◌, ap, arith, length, none, some, List, [], ◌∷◌,
  ltb, ◌==◌, if◌then◌else◌, Bool-cases, inl, inr, ◌⊎◌,
}
use stellar_router.Prelude.Sequence.{get_elem?, last}

abbrev pub IsAscending : List ℕ → Type 0
IsAscending xs = (i j a b : ℕ) → i < j → get_elem? xs i ≡ some a → get_elem? xs j ≡ some b → a < b

module _ {ℓ} {A : Type ℓ} where
  pub get_elem?-append :
      (xs : List A) (v : A) (i : ℕ)
      → get_elem? (xs ++ v ∷ []) i
        ≡ (if ltb i (length xs) then get_elem? xs i else if i == length xs then some v else none)
  get_elem?-append [] v zero = refl
  get_elem?-append [] v (suc i) = ground arith
  get_elem?-append (x ∷ xs) v zero = ground arith
  get_elem?-append (x ∷ xs) v (suc i) = ground (arith, get_elem?-append xs v i)

  pub get_elem?-lt : (xs : List A) (i : ℕ) (v : A) → get_elem? xs i ≡ some v → i < length xs
  get_elem?-lt [] i v h = ground arith
  get_elem?-lt (x ∷ xs) zero v h = omega arith
  get_elem?-lt (x ∷ xs) (suc i) v h = omega (arith, get_elem?-lt xs i v h)

  pub lt-get_elem? : (xs : List A) (i : ℕ) → i < length xs → (v : A) × (get_elem? xs i ≡ some v)
  lt-get_elem? [] i h = elim h [ ]
  lt-get_elem? (x ∷ xs) zero h = (x, refl)
  lt-get_elem? (x ∷ xs) (suc i) h = lt-get_elem? xs i (omega arith)

  -- The last element stands at the end.
  pub last-get_elem? : (xs : List A) (i : ℕ) → length xs ≡ suc i → last xs ≡ get_elem? xs i
  last-get_elem? [] i h = absurd (omega arith)
  last-get_elem? (x ∷ []) zero h = refl
  last-get_elem? (x ∷ []) (suc i) h = absurd (omega arith)
  last-get_elem? (x ∷ y ∷ ys) zero h = absurd (omega arith)
  last-get_elem? (x ∷ y ∷ ys) (suc i) h = last-get_elem? (y ∷ ys) i (omega arith)

pub le_of_index :
    (xs : List ℕ) (i n a l : ℕ)
    → IsAscending xs
    → get_elem? xs i ≡ some a
    → get_elem? xs n ≡ some l
    → i ≤ n
    → a ≤ l
le_of_index xs i n a l h e f le = elim (Bool-cases (ltb i n)) [
  | inl t ↦ omega (arith, h i n a l (ground arith) e f)
  | inr b ↦
      let same : i ≡ n = ground arith in
      let eq : a ≡ l = ground (arith, ap (get_elem? xs) same) in omega arith
]

-- An element is at most the last one.
pub get_elem?-le-last :
    (xs : List ℕ) (i a : ℕ)
    → IsAscending xs
    → get_elem? xs i ≡ some a
    → (l : ℕ) × (last xs ≡ some l) × (a ≤ l)
get_elem?-le-last xs i a h e =
    let n : ℕ = length xs - 1 in
    let lt : i < length xs = get_elem?-lt xs i a e in
    let (l, el) = lt-get_elem? xs n (omega arith) in
    (l, last-get_elem? xs n (omega arith) ∙ el, le_of_index xs i n a l h e el (omega arith))

pub get_elem?-append_cases :
    (xs : List ℕ) (v i a : ℕ)
    → get_elem? (xs ++ v ∷ []) i ≡ some a
    → ((i < length xs) × (get_elem? xs i ≡ some a)) ⊎ ((i ≡ length xs) × (v ≡ a))
get_elem?-append_cases xs v i a h = elim (Bool-cases (ltb i (length xs))) [
  | inl t ↦ inl (ground arith, ground (arith, get_elem?-append xs v i))
  | inr f ↦ inr (ground (arith, get_elem?-append xs v i))
]

pub append-IsAscending :
    (xs : List ℕ) (v : ℕ)
    → IsAscending xs
    → ((l : ℕ) → last xs ≡ some l → l < v)
    → IsAscending (xs ++ v ∷ [])
append-IsAscending xs v h k i j a b lt e f = elim (get_elem?-append_cases xs v j b f) [
  | inl (lj, fj) ↦ elim (get_elem?-append_cases xs v i a e) [
    | inl (li, ei) ↦ h i j a b lt ei fj
    | inr (li, ev) ↦ absurd (omega arith)
  ]
  | inr (lj, ev) ↦ elim (get_elem?-append_cases xs v i a e) [
    | inl (li, ei) ↦ let (l, el, le) = get_elem?-le-last xs i a h ei in omega (arith, k l el)
    | inr (li, ew) ↦ absurd (omega arith)
  ]
]

pub last-append {ℓ} : {A : Type ℓ} (xs : List A) (v : A) → last (xs ++ v ∷ []) ≡ some v
last-append [] v = refl
last-append (x ∷ []) v = refl
last-append (x ∷ y ∷ ys) v = last-append (y ∷ ys) v
