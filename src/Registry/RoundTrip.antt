-- ===== src/Registry/RoundTrip.antt =====
-- Version constraints of contracts/router-registry/src/lib.rs, printed and read.
use stellar_router.Prelude.{
  ℕ, zero, suc, ◌+◌, ◌*◌, ◌<◌, ◌≤◌, ◌++◌, Bool, true, false, not, ◌≡◌, refl, sym, ap, ◌∙◌, inl, inr,
  arith, Option, none, some, [], ◌∷◌, length, length-append, ltb, ◌==◌, if◌then◌else◌, Bool-cases,
  All, All-append, All-mono,
}
use Prim.Native.Nat.{◌/◌, ◌%◌}
use mathlib.Core.Path.{subst}
use stellar_router.Prelude.Words.{u32_max}
use stellar_router.Common.{ok, ◌>>=◌, ◌>>◌, ok_or, fail_if}
use stellar_router.Registry
use stellar_router.Registry.{
  Name, RegistryError, Call, ConstraintOperator, gte, lte, gt, lt, caret, tilde, exact,
}
use stellar_router.Registry.Constraint.{
  Bytes, lead, utf8_from, constraint_str_buf, parse_digits, parse_unsigned, parse_u32,
  split_operator, parse_constraint, validate_constraint, satisfies, version_matches_constraint,
}
use stellar_router.Registry.Lookup.{get_latest_with_constraint}
use stellar_router.Registry.Invariant.{IsValid}
use stellar_router.Registry.Latest.{Selects, constrained-Selects}

abbrev State : Type 0
State = Registry.Registry

-- The decimal digits of a number, before `out`, at most `places` of them.
unfoldable pub digits : ℕ → ℕ → Bytes → Bytes
digits zero n out = out
digits (suc places) n out =
    let more = digits places (n / 10) ((b'0' + n % 10) ∷ out) in
    if ltb n 10 then (b'0' + n % 10) ∷ out else more

-- The numbers with at most that many digits are below this one.
abbrev limit : ℕ → ℕ
limit zero = 1
limit (suc places) = 10 * limit places

unfoldable pub print_u32 : ℕ → Bytes
unfolding digits
print_u32 n = digits 10 n []

abbrev pub print_operator : ConstraintOperator → Bytes
print_operator gte = b'>' ∷ b'=' ∷ []
print_operator lte = b'<' ∷ b'=' ∷ []
print_operator gt = b'>' ∷ []
print_operator lt = b'<' ∷ []
print_operator caret = b'^' ∷ []
print_operator tilde = b'~' ∷ []
print_operator exact = []

abbrev pub print_constraint : ConstraintOperator → ℕ → Bytes
print_constraint op base = print_operator op ++ print_u32 base

parse_last :
    (n : ℕ) (out : Bytes)
    → n ≤ u32_max
    → parse_digits (n / 10) ((b'0' + n % 10) ∷ out) ≡ parse_digits n out
unfolding parse_digits
parse_last n out h = ground arith

parse_digits-digits :
    (places n : ℕ) (out : Bytes)
    → n < limit places
    → n ≤ u32_max
    → parse_digits 0 (digits places n out) ≡ parse_digits n out
unfolding digits
parse_digits-digits zero n out f h = ap (λ k. parse_digits k out) {x = 0} {y = n} (omega arith)
parse_digits-digits (suc places) n out f h = elim (Bool-cases (ltb n 10)) [
  | inl t ↦
      ap (parse_digits 0) {y = (b'0' + n % 10) ∷ out} (ground arith)
      ∙ ap (λ k. parse_digits k ((b'0' + n % 10) ∷ out)) {x = 0} {y = n / 10} (ground arith)
      ∙ parse_last n out h
  | inr b ↦
      ap (parse_digits 0) {y = digits places (n / 10) ((b'0' + n % 10) ∷ out)} (ground arith)
      ∙ parse_digits-digits places (n / 10) ((b'0' + n % 10) ∷ out) (omega arith) (omega arith)
      ∙ parse_last n out h
]

-- The digits are digits, and there is one of them at least.
abbrev IsDigit : ℕ → Type 0
IsDigit b = (b'0' ≤ b) × (b ≤ b'9')

digits-IsDigit : (places n : ℕ) (out : Bytes) → All IsDigit out → All IsDigit (digits places n out)
unfolding digits
digits-IsDigit zero n out h = h
digits-IsDigit (suc places) n out h = elim (Bool-cases (ltb n 10)) [
  | inl t ↦ subst (All IsDigit) {x = (b'0' + n % 10) ∷ out} (ground arith) (omega arith, h)
  | inr b ↦
      subst (All IsDigit) {x = digits places (n / 10) ((b'0' + n % 10) ∷ out)} (ground arith)
        (digits-IsDigit places (n / 10) ((b'0' + n % 10) ∷ out) (omega arith, h))
]

length-digits : (places n : ℕ) (out : Bytes) → length (digits places n out) ≤ places + length out
unfolding digits
length-digits zero n out = omega arith
length-digits (suc places) n out =
    ground (arith, length-digits places (n / 10) ((b'0' + n % 10) ∷ out))

abbrev IsHead : Bytes → Type 0
IsHead bs = (c : ℕ) × (rest : Bytes) × (bs ≡ c ∷ rest)

digits-IsHead : (places n : ℕ) (out : Bytes) → IsHead out → IsHead (digits places n out)
unfolding digits
digits-IsHead zero n out h = h
digits-IsHead (suc places) n out h = elim (Bool-cases (ltb n 10)) [
  | inl t ↦ (b'0' + n % 10, out, ground arith)
  | inr b ↦
      let (c, rest, e) =
        digits-IsHead places (n / 10) ((b'0' + n % 10) ∷ out) (b'0' + n % 10, out, refl) in
      (c, rest, ground arith)
]

print_u32-IsHead : (n : ℕ) → IsHead (print_u32 n)
unfolding print_u32 digits
print_u32-IsHead n = elim (Bool-cases (ltb n 10)) [
  | inl t ↦ (b'0' + n % 10, [], ground arith)
  | inr b ↦
      let (c, rest, e) =
        digits-IsHead 9 (n / 10) ((b'0' + n % 10) ∷ []) (b'0' + n % 10, [], refl) in
      (c, rest, ground arith)
]

parse_u32-digit :
    (c : ℕ) (rest : Bytes) → IsDigit c → parse_u32 (c ∷ rest) ≡ parse_digits 0 (c ∷ rest)
unfolding parse_u32 parse_unsigned
parse_u32-digit c rest d =
    ap (λ b. if b then parse_unsigned rest else parse_digits 0 (c ∷ rest)) {x = c == b'+'}
      {y = false} (ground arith)

print_u32-digits : (n : ℕ) → print_u32 n ≡ digits 10 n []
unfolding print_u32
print_u32-digits n = refl

print_u32-IsDigit : (n : ℕ) → All IsDigit (print_u32 n)
unfolding print_u32
print_u32-IsDigit n = digits-IsDigit 10 n [] tt

parse_u32-print_u32 : (n : ℕ) → n ≤ u32_max → parse_u32 (print_u32 n) ≡ some n
unfolding parse_digits
parse_u32-print_u32 n h =
    let (c, rest, e) = print_u32-IsHead n in
    let d : All IsDigit (c ∷ rest) = subst (All IsDigit) e (print_u32-IsDigit n) in
    ap parse_u32 e
    ∙ parse_u32-digit c rest d.0
    ∙ ap (parse_digits 0) (sym e ∙ print_u32-digits n)
    ∙ parse_digits-digits 10 n [] (omega arith) h

split_digit :
    (op : ConstraintOperator) (c : ℕ) (rest : Bytes)
    → IsDigit c
    → split_operator (print_operator op ++ c ∷ rest) ≡ (op, c ∷ rest)
unfolding split_operator
split_digit gte c rest d = refl
split_digit lte c rest d = refl
split_digit gt c rest d = ground arith
split_digit lt c rest d = ground arith
split_digit caret c rest d = refl
split_digit tilde c rest d = refl
split_digit exact c [] d = ground arith
split_digit exact c (b ∷ rest) d = ground arith

split_operator-print_constraint :
    (op : ConstraintOperator) (n : ℕ) → split_operator (print_constraint op n) ≡ (op, print_u32 n)
split_operator-print_constraint op n =
    let (c, rest, e) = print_u32-IsHead n in
    let d : All IsDigit (c ∷ rest) = subst (All IsDigit) e (print_u32-IsDigit n) in
    ap (λ bs. split_operator (print_operator op ++ bs)) e
    ∙ split_digit op c rest d.0
    ∙ ap {B = ConstraintOperator × Bytes} (λ (bs : Bytes). (op, bs)) (sym e)

-- A constraint that is printed as an operator and the decimal digits of a 32-bit base, without leading
-- zeros, is parsed back to that operator and that base.
pub parse_constraint-print_constraint :
    (op : ConstraintOperator) (base : ℕ)
    → base ≤ u32_max
    → parse_constraint (print_constraint op base) ≡ ok (op, base)
unfolding parse_constraint
parse_constraint-print_constraint op base h =
    let read : ConstraintOperator × Bytes → Call (ConstraintOperator × ℕ) = λ q.
      ok_or (parse_u32 q.1) RegistryError.invalid_constraint >>= λ (value : ℕ). ok (q.0, value) in
    ap read (split_operator-print_constraint op base)
    ∙ ap (λ o. ok_or o RegistryError.invalid_constraint >>= λ (value : ℕ). ok (op, value))
        (parse_u32-print_u32 base h)

-- Bytes of ASCII.
abbrev IsAscii : ℕ → Type 0
IsAscii b = b < 0x80

lead-ascii : (b : ℕ) → IsAscii b → lead b ≡ some (0, 0, 0)
lead-ascii b h = ground arith

utf8_from-ascii : (bs : Bytes) → All IsAscii bs → utf8_from 0 0 0 bs ≡ true
unfolding utf8_from
utf8_from-ascii [] h = refl
utf8_from-ascii (b ∷ bs) h =
    let after : Option (ℕ × ℕ × ℕ) → Bool =
      λ o. elim o [ none ↦ false | some (n, lo, hi) ↦ utf8_from n lo hi bs ] in
    ap after (lead-ascii b h.0) ∙ utf8_from-ascii bs h.1

print_operator-IsAscii : (op : ConstraintOperator) → All IsAscii (print_operator op)
print_operator-IsAscii gte = omega arith
print_operator-IsAscii lte = omega arith
print_operator-IsAscii gt = omega arith
print_operator-IsAscii lt = omega arith
print_operator-IsAscii caret = omega arith
print_operator-IsAscii tilde = omega arith
print_operator-IsAscii exact = tt

print_constraint-IsAscii : (op : ConstraintOperator) (n : ℕ) → All IsAscii (print_constraint op n)
print_constraint-IsAscii op n =
    All-append IsAscii (print_operator op) (print_u32 n) (print_operator-IsAscii op)
      (All-mono IsDigit IsAscii (print_u32 n) (λ b d. omega arith) (print_u32-IsDigit n))

length-print_operator : (op : ConstraintOperator) → length (print_operator op) ≤ 2
length-print_operator gte = omega arith
length-print_operator lte = omega arith
length-print_operator gt = omega arith
length-print_operator lt = omega arith
length-print_operator caret = omega arith
length-print_operator tilde = omega arith
length-print_operator exact = omega arith

length-print_constraint :
    (op : ConstraintOperator) (n : ℕ) → ltb 32 (length (print_constraint op n)) ≡ false
unfolding print_u32
length-print_constraint op n = ground (
  arith,
  length-append (print_operator op) (print_u32 n),
  length-print_operator op,
  length-digits 10 n [],
)

constraint_str_buf-print_constraint :
    (op : ConstraintOperator) (n : ℕ)
    → constraint_str_buf (print_constraint op n) ≡ ok (print_constraint op n)
unfolding constraint_str_buf
constraint_str_buf-print_constraint op n =
    let bs : Bytes = print_constraint op n in
    let e : RegistryError = RegistryError.invalid_constraint in
    ap (λ b. fail_if b e >> (fail_if (not (utf8_from 0 0 0 bs)) e >> ok bs))
      (length-print_constraint op n)
    ∙ ap (λ b. fail_if (not b) e >> ok bs) (utf8_from-ascii bs (print_constraint-IsAscii op n))

module _ (op : ConstraintOperator) (base : ℕ) (h : base ≤ u32_max) where
  abbrev text : Bytes
  text = print_constraint op base

  validate_constraint-print_constraint : validate_constraint text ≡ ok tt
  unfolding validate_constraint
  validate_constraint-print_constraint =
      ap (λ m. m >>= λ (bs : Bytes). parse_constraint bs >>= λ (p : ConstraintOperator × ℕ). ok tt)
        (constraint_str_buf-print_constraint op base)
      ∙ ap (λ m. m >>= λ (p : ConstraintOperator × ℕ). ok tt)
          (parse_constraint-print_constraint op base h)

  version_matches-print_constraint :
      (v : ℕ) → version_matches_constraint v text ≡ ok (satisfies op base v)
  unfolding version_matches_constraint
  version_matches-print_constraint v =
      ap
        (λ m. m >>= λ (bs : Bytes).
          parse_constraint bs >>= λ (p : ConstraintOperator × ℕ). ok (satisfies p.0 p.1 v))
        (constraint_str_buf-print_constraint op base)
      ∙ ap (λ m. m >>= λ (p : ConstraintOperator × ℕ). ok (satisfies p.0 p.1 v))
          (parse_constraint-print_constraint op base h)

-- On a well-formed storage `get_latest_with_constraint`, given the text of an operator and a 32-bit base,
-- gives the registered entry of the name with the greatest version that satisfies the operator against
-- the base and is not deprecated; or it fails with `AllVersionsDeprecated`, and then a registered
-- version satisfies it and all that do are deprecated; or it fails with `NotFound`, and then no
-- registered version satisfies it.
pub get_latest_with_constraint-Selects :
    (s : State) (name : Name) (op : ConstraintOperator) (base : ℕ)
    → IsValid s
    → base ≤ u32_max
    → Selects s name
        (satisfies op base)
        (get_latest_with_constraint s name (some (print_constraint op base)))
get_latest_with_constraint-Selects s name op base w h =
    constrained-Selects s name w (print_constraint op base) (satisfies op base)
      (validate_constraint-print_constraint op base h) (version_matches-print_constraint op base h)
