-- ===== src/Prelude/Lists.antt =====
-- Lists of numbers as the programs use them: length, membership, removal, loops that test.
use Prim.Native.Nat.{ℕ, suc, ◌+◌, ◌≤◌}
use mathlib.Core.Path.{◌≡◌, refl}
use mathlib.Core.Bool.{Bool, true, false, ◌||◌, ◌&&◌}
use mathlib.Core.List.{List, [], ◌∷◌, ◌++◌}
use native.Mathlib.Omega.{arith}
use stellar_router.Prelude.Tests.{◌==◌, if◌then◌else◌}

module _ {ℓ} {A : Type ℓ} where
  abbrev pub length : List A → ℕ
  length [] = 0
  length (x ∷ xs) = suc (length xs)

  pub length-append : (xs ys : List A) → length (xs ++ ys) ≡ length xs + length ys
  length-append [] ys = omega arith
  length-append (x ∷ xs) ys = omega (arith, length-append xs ys)

  -- `iter().any(p)`
  abbrev pub any : (A → Bool) → List A → Bool
  any p [] = false
  any p (x ∷ xs) = p x || any p xs

  abbrev pub all : (A → Bool) → List A → Bool
  all p [] = true
  all p (x ∷ xs) = p x && all p xs

  -- A loop that pushes the elements which pass a test onto a new vector.
  abbrev pub filter : (A → Bool) → List A → List A
  filter p [] = []
  filter p (x ∷ xs) = if p x then x ∷ filter p xs else filter p xs

  abbrev pub All {κ} : (A → Type κ) → List A → Type κ
  All P [] = Unit
  All P (x ∷ xs) = P x × All P xs

  pub All-append {κ} : (P : A → Type κ) (xs ys : List A) → All P xs → All P ys → All P (xs ++ ys)
  All-append P [] ys h k = k
  All-append P (x ∷ xs) ys h k = (h.0, All-append P xs ys h.1 k)

  pub All-mono {κ ι} :
      (P : A → Type κ) (Q : A → Type ι) (xs : List A) → ((a : A) → P a → Q a) → All P xs → All Q xs
  All-mono P Q [] f h = tt
  All-mono P Q (x ∷ xs) f h = (f x h.0, All-mono P Q xs f h.1)

-- `Vec::contains`, for identifiers.
abbrev pub contains : List ℕ → ℕ → Bool
contains [] a = false
contains (x ∷ xs) a = (a == x) || contains xs a

-- No identifier occurs twice.
abbrev pub IsDistinct : List ℕ → Type 0
IsDistinct [] = Unit
IsDistinct (x ∷ xs) = (contains xs x ≡ false) × IsDistinct xs

pub contains-append :
    (xs ys : List ℕ) (a : ℕ) → contains (xs ++ ys) a ≡ (contains xs a || contains ys a)
contains-append [] ys a = refl
contains-append (x ∷ xs) ys a = ground (arith, contains-append xs ys a)

pub contains-snoc :
    (xs : List ℕ) (b a : ℕ) → contains (xs ++ b ∷ []) a ≡ (contains xs a || (a == b))
contains-snoc [] b a = ground arith
contains-snoc (x ∷ xs) b a = ground (arith, contains-snoc xs b a)

pub snoc-IsDistinct :
    (xs : List ℕ) (b : ℕ) → IsDistinct xs → contains xs b ≡ false → IsDistinct (xs ++ b ∷ [])
snoc-IsDistinct [] b h n = (refl, tt)
snoc-IsDistinct (x ∷ xs) b h n = ground (arith, snoc-IsDistinct xs b h.1, contains-snoc xs b x)

-- `remove_from_pending_ops` and its like keep every identifier but one.
abbrev pub without : ℕ → List ℕ → List ℕ
without a [] = []
without a (x ∷ xs) = if x == a then without a xs else x ∷ without a xs

pub contains-without :
    (a : ℕ) (xs : List ℕ) (b : ℕ)
    → contains (without a xs) b ≡ (if b == a then false else contains xs b)
contains-without a [] b = ground arith
contains-without a (x ∷ xs) b = ground (arith, contains-without a xs b)

pub without-IsDistinct : (a : ℕ) (xs : List ℕ) → IsDistinct xs → IsDistinct (without a xs)
without-IsDistinct a [] h = tt
without-IsDistinct a (x ∷ xs) h =
    ground (arith, without-IsDistinct a xs h.1, contains-without a xs x)

pub length-without-le : (a : ℕ) (xs : List ℕ) → length (without a xs) ≤ length xs
length-without-le a [] = omega arith
length-without-le a (x ∷ xs) = ground (arith, length-without-le a xs)
