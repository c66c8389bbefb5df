-- ===== src/Prelude/Bytes.antt =====
-- Facts about byte strings: a number is read back from its big-endian bytes, and suffixes of one length
-- of equal strings are equal.
use stellar_router.Prelude.{
  ℕ, zero, suc, ◌+◌, ◌*◌, ◌/◌, ◌%◌, ◌<◌, List, [], ◌∷◌, ◌++◌, ◌≡◌, refl, ◌∙◌, ap, sym, arith,
  length, length-append,
}
use stellar_router.Prelude.Words.{be_digits, to_be_bytes, u64_mod}

-- The number that big-endian bytes stand for, after those already read.
abbrev value_from : ℕ → List ℕ → ℕ
value_from acc [] = acc
value_from acc (b ∷ bs) = value_from (acc * 256 + b) bs

value_from-append :
    (xs ys : List ℕ) (acc : ℕ) → value_from acc (xs ++ ys) ≡ value_from (value_from acc xs) ys
value_from-append [] ys acc = refl
value_from-append (x ∷ xs) ys acc = value_from-append xs ys (acc * 256 + x)

length-be_digits : (n x : ℕ) → length (be_digits n x) ≡ n
unfolding be_digits
length-be_digits zero x = refl
length-be_digits (suc n) x =
    omega
      (arith, length-append (be_digits n (x / 256)) ((x % 256) ∷ []), length-be_digits n (x / 256))

-- Reading `n` digits back adds what lies above them.
abbrev pow256 : ℕ → ℕ
pow256 zero = 1
pow256 (suc n) = 256 * pow256 n

value-be_digits : (n x : ℕ) → x < pow256 n → value_from 0 (be_digits n x) ≡ x
unfolding be_digits
value-be_digits zero x h = omega arith
value-be_digits (suc n) x h =
    value_from-append (be_digits n (x / 256)) ((x % 256) ∷ []) 0
    ∙ (ap (λ v. v * 256 + x % 256) (value-be_digits n (x / 256) (omega arith)) ∙ omega arith)

-- A 64-bit number is read back from `to_be_bytes`.
pub value-to_be_bytes : (x : ℕ) → x < u64_mod → value_from 0 (to_be_bytes x) ≡ x
unfolding to_be_bytes
value-to_be_bytes x h = value-be_digits 8 x h

pub length-to_be_bytes : (x : ℕ) → length (to_be_bytes x) ≡ 8
unfolding to_be_bytes
length-to_be_bytes x = length-be_digits 8 x

pub to_be_bytes-injective :
    (x y : ℕ) → x < u64_mod → y < u64_mod → to_be_bytes x ≡ to_be_bytes y → x ≡ y
to_be_bytes-injective x y p q e =
    sym (value-to_be_bytes x p) ∙ (ap (value_from 0) e ∙ value-to_be_bytes y q)

pub append-suffix : (xs ys us vs : List ℕ) → length us ≡ length vs → xs ++ us ≡ ys ++ vs → us ≡ vs
append-suffix [] [] us vs l e = e
append-suffix [] (y ∷ ys) us vs l e = absurd (omega (arith, ap length e, length-append ys vs))
append-suffix (x ∷ xs) [] us vs l e = absurd (omega (arith, ap length e, length-append xs us))
append-suffix (x ∷ xs) (y ∷ ys) us vs l e = append-suffix xs ys us vs l (cc)
