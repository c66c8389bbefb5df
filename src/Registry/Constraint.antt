-- ===== src/Registry/Constraint.antt =====
-- The version constraints of contracts/router-registry/src/lib.rs, over the bytes of their texts.
--
-- `utf8_from` and `parse_u32` are `core::str::from_utf8` and `str::parse::<u32>`, which the contract uses.
use stellar_router.Prelude.{
  ℕ, zero, suc, ◌+◌, ◌-◌, ◌*◌, Bool, true, false, not, ◌&&◌, Option, none, some, List, [], ◌∷◌,
  length, leb, ltb, ◌==◌, if◌then◌else◌,
}
use stellar_router.Prelude.Words.{u32_max}
use stellar_router.Common.{ok, ◌>>=◌, ◌>>◌, fail_if, ok_or}
use stellar_router.Registry.{
  RegistryError, Call, ConstraintOperator, gte, lte, gt, lt, caret, tilde, exact,
  max_constraint_len,
}

abbrev pub Bytes : Type 0
Bytes = List ℕ

abbrev within : ℕ → ℕ → ℕ → Bool
within lo hi b = leb lo b && leb b hi

-- What may follow a first byte: how many bytes, and the range of the next one.
abbrev pub lead : ℕ → Option (ℕ × ℕ × ℕ)
lead b =
    if ltb b 0x80
    then some (0, 0, 0)
    else if within 0xC2 0xDF b
    then some (1, 0x80, 0xBF)
    else if b == 0xE0
    then some (2, 0xA0, 0xBF)
    else if b == 0xED
    then some (2, 0x80, 0x9F)
    else if within 0xE1 0xEF b
    then some (2, 0x80, 0xBF)
    else if b == 0xF0
    then some (3, 0x90, 0xBF)
    else if within 0xF1 0xF3 b
    then some (3, 0x80, 0xBF)
    else if b == 0xF4
    then some (3, 0x80, 0x8F)
    else none

-- Whether the bytes are UTF-8, when `n` more bytes of a character are due, the next from `lo` to `hi`.
unfoldable pub utf8_from : ℕ → ℕ → ℕ → Bytes → Bool
utf8_from zero lo hi [] = true
utf8_from (suc n) lo hi [] = false
utf8_from zero lo hi (b ∷ bs) = elim (lead b) [
  | none ↦ false
  | some (n, lo', hi') ↦ utf8_from n lo' hi' bs
]
utf8_from (suc n) lo hi (b ∷ bs) =
    let rest = utf8_from n 0x80 0xBF bs in if within lo hi b then rest else false

-- `constraint_str_buf` and `from_utf8`, which are always used together.
unfoldable pub constraint_str_buf : Bytes → Call Bytes
unfolding utf8_from
constraint_str_buf constraint = do
  fail_if (ltb max_constraint_len (length constraint)) RegistryError.invalid_constraint
  fail_if (not (utf8_from 0 0 0 constraint)) RegistryError.invalid_constraint
  ok constraint

abbrev pub is_digit : ℕ → Bool
is_digit b = within b'0' b'9' b

-- The digits after the value that has been read.
unfoldable pub parse_digits : ℕ → Bytes → Option ℕ
parse_digits value [] = some value
parse_digits value (b ∷ bs) =
    let value' = value * 10 + (b - b'0') in
    let rest = parse_digits value' bs in
    if not (is_digit b) then none else if ltb u32_max value' then none else rest

unfoldable pub parse_unsigned : Bytes → Option ℕ
unfolding parse_digits
parse_unsigned [] = none
parse_unsigned (b ∷ bs) = parse_digits 0 (b ∷ bs)

-- A sign `+` is accepted before the digits.
unfoldable pub parse_u32 : Bytes → Option ℕ
unfolding parse_unsigned
parse_u32 [] = none
parse_u32 (b ∷ bs) = if b == b'+' then parse_unsigned bs else parse_unsigned (b ∷ bs)

-- The operator of a constraint and the text after it.
unfoldable pub split_operator : Bytes → ConstraintOperator × Bytes
split_operator [] = (exact, [])
split_operator (b ∷ []) =
    if b == b'>'
    then (gt, [])
    else if b == b'<'
    then (lt, [])
    else if b == b'^'
    then (caret, [])
    else if b == b'~'
    then (tilde, [])
    else (exact, b ∷ [])
split_operator (b ∷ c ∷ bs) =
    if b == b'>' && c == b'='
    then (gte, bs)
    else if b == b'<' && c == b'='
    then (lte, bs)
    else if b == b'>'
    then (gt, c ∷ bs)
    else if b == b'<'
    then (lt, c ∷ bs)
    else if b == b'^'
    then (caret, c ∷ bs)
    else if b == b'~'
    then (tilde, c ∷ bs)
    else (exact, b ∷ c ∷ bs)

unfoldable pub parse_constraint : Bytes → Call (ConstraintOperator × ℕ)
unfolding split_operator parse_u32
parse_constraint s = do
  value ← ok_or (parse_u32 (split_operator s).1) RegistryError.invalid_constraint
  ok ((split_operator s).0, value)

unfoldable pub validate_constraint : Bytes → Call (Unit {0})
unfolding constraint_str_buf parse_constraint
validate_constraint constraint = do s ← constraint_str_buf constraint; p ← parse_constraint s; ok tt

-- The match on the operator.
abbrev pub satisfies : ConstraintOperator → ℕ → ℕ → Bool
satisfies gte base version = leb base version
satisfies lte base version = leb version base
satisfies gt base version = ltb base version
satisfies lt base version = ltb version base
satisfies caret base version = version == base
satisfies tilde base version = version == base
satisfies exact base version = version == base

unfoldable pub version_matches_constraint : ℕ → Bytes → Call Bool
unfolding constraint_str_buf parse_constraint
version_matches_constraint version constraint = do
  s ← constraint_str_buf constraint
  p ← parse_constraint s
  ok (satisfies p.0 p.1 version)
