-- ===== src/Prelude/Sequence.antt =====
-- Vectors indexed by numbers.
use native.Mathlib.Nat.{mod-eq_of_lt, mod_self}
use mathlib.Core.List.{append_assoc, append-nil}
use stellar_router.Prelude.{
  sym, length-append, ltb, Bool-cases, inl, inr, false, ℕ, zero, suc, ◌+◌, ◌-◌, ◌%◌, ◌∙◌, ◌≤◌, ◌<◌,
  ◌++◌, ◌≡◌, refl, ap, arith, length, Option, none, some, List, [], ◌∷◌,
}

module _ {ℓ} {A : Type ℓ} where
  abbrev pub get_elem? : List A → ℕ → Option A
  get_elem? [] i = none
  get_elem? (x ∷ xs) zero = some x
  get_elem? (x ∷ xs) (suc i) = get_elem? xs i

  -- A write out of bounds changes nothing.
  abbrev pub set : List A → ℕ → A → List A
  set [] i v = []
  set (x ∷ xs) zero v = v ∷ xs
  set (x ∷ xs) (suc i) v = x ∷ set xs i v

  -- `Vec::last`
  abbrev pub last : List A → Option A
  last [] = none
  last (x ∷ []) = some x
  last (x ∷ y ∷ ys) = last (y ∷ ys)

  abbrev pub replicate : ℕ → A → List A
  replicate zero a = []
  replicate (suc n) a = a ∷ replicate n a

  abbrev pub drop : ℕ → List A → List A
  drop zero xs = xs
  drop (suc n) [] = []
  drop (suc n) (x ∷ xs) = drop n xs

  abbrev pub take : ℕ → List A → List A
  take zero xs = []
  take (suc n) [] = []
  take (suc n) (x ∷ xs) = x ∷ take n xs

module _ {ℓ} {A : Type ℓ} where
  pub length-set : (xs : List A) (i : ℕ) (v : A) → length (set xs i v) ≡ length xs
  length-set [] i v = refl
  length-set (x ∷ xs) zero v = refl
  length-set (x ∷ xs) (suc i) v = ap suc (length-set xs i v)

  pub length-replicate : (n : ℕ) (a : A) → length (replicate n a) ≡ n
  length-replicate zero a = refl
  length-replicate (suc n) a = ap suc (length-replicate n a)

  pub take-set :
      (i : ℕ) (xs : List A) (v : A)
      → i < length xs
      → take (suc i) (set xs i v) ≡ take i xs ++ v ∷ []
  take-set i [] v h = elim h [ ]
  take-set zero (x ∷ xs) v h = refl
  take-set (suc i) (x ∷ xs) v h = ap (λ ys. x ∷ ys) (take-set i xs v (omega arith))

  pub drop-set : (i : ℕ) (xs : List A) (v : A) → drop (suc i) (set xs i v) ≡ drop (suc i) xs
  drop-set i [] v = refl
  drop-set zero (x ∷ xs) v = refl
  drop-set (suc i) (x ∷ xs) v = drop-set i xs v

  -- The rest of a vector begins with the element at that place.
  pub drop-eq-cons :
      (i : ℕ) (xs : List A)
      → i < length xs
      → (a : A) × (get_elem? xs i ≡ some a) × (drop i xs ≡ a ∷ drop (suc i) xs)
  drop-eq-cons i [] h = elim h [ ]
  drop-eq-cons zero (x ∷ xs) h = (x, refl, refl)
  drop-eq-cons (suc i) (x ∷ xs) h = drop-eq-cons i xs (omega arith)

  pub take-length : (n : ℕ) (xs : List A) → length xs ≤ n → take n xs ≡ xs
  take-length zero [] h = refl
  take-length zero (x ∷ xs) h = elim h [ ]
  take-length (suc n) [] h = refl
  take-length (suc n) (x ∷ xs) h = ap (λ ys. x ∷ ys) (take-length n xs (omega arith))

  pub drop-length : (n : ℕ) (xs : List A) → length xs ≤ n → drop n xs ≡ []
  drop-length zero [] h = refl
  drop-length zero (x ∷ xs) h = elim h [ ]
  drop-length (suc n) [] h = refl
  drop-length (suc n) (x ∷ xs) h = drop-length n xs (omega arith)

  pub length-take : (n : ℕ) (xs : List A) → n ≤ length xs → length (take n xs) ≡ n
  length-take zero xs h = refl
  length-take (suc n) [] h = elim h [ ]
  length-take (suc n) (x ∷ xs) h = ap suc (length-take n xs (omega arith))

  pub length-drop : (n : ℕ) (xs : List A) → length (drop n xs) ≡ length xs - n
  length-drop zero xs = omega arith
  length-drop (suc n) [] = omega arith
  length-drop (suc n) (x ∷ xs) = length-drop n xs ∙ omega arith

ltb_around : (n m : ℕ) → n < m → ltb (n + 1) m ≡ false → n + 1 ≡ m
ltb_around n m h f = ground arith

-- The vector from place `n` on, and then its beginning.
module _ {ℓ} {A : Type ℓ} where
  abbrev pub rotate : ℕ → List A → List A
  rotate n xs = drop n xs ++ take n xs

  pub rotate-length : (n : ℕ) (xs : List A) → n ≡ length xs → rotate n xs ≡ xs
  rotate-length n xs h =
      ap (λ ys. ys ++ take n xs) (drop-length n xs (omega arith)) ∙ take-length n xs (omega arith)

  pub rotate-set :
      (n : ℕ) (xs : List A) (v : A)
      → n < length xs
      → rotate (suc n) (set xs n v) ≡ drop 1 (rotate n xs) ++ v ∷ []
  rotate-set n xs v h =
      ap (λ ys. ys ++ take (suc n) (set xs n v)) (drop-set n xs v)
      ∙ ap (λ ys. drop (suc n) xs ++ ys) (take-set n xs v h)
      ∙ sym (append_assoc (drop (suc n) xs) (take n xs) (v ∷ []))
      ∙ ap (λ ys. drop 1 (ys ++ take n xs) ++ v ∷ []) (sym (drop-eq-cons n xs h).2)

  -- One place on, around the end.
  pub rotate-suc :
      (n : ℕ) (xs : List A) → n < length xs → rotate ((n + 1) % length xs) xs ≡ rotate (suc n) xs
  rotate-suc n xs h = elim (Bool-cases (ltb (n + 1) (length xs))) [
    | inl t ↦ ap (λ k. rotate k xs) {y = suc n} (mod-eq_of_lt (ground arith) ∙ omega arith)
    | inr f ↦
        ap (λ k. rotate (k % length xs) xs) (ltb_around n (length xs) h f)
        ∙ ap (λ k. rotate k xs) (mod_self (length xs))
        ∙ append-nil xs
        ∙ sym (rotate-length (suc n) xs (ground arith))
  ]

  pub length-rotate : (n : ℕ) (xs : List A) → n ≤ length xs → length (rotate n xs) ≡ length xs
  length-rotate n xs h =
      omega (arith, length-append (drop n xs) (take n xs), length-drop n xs, length-take n xs h)
