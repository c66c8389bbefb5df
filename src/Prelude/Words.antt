-- ===== src/Prelude/Words.antt =====
-- Machine integers of the contracts. The crates are built with overflow checks, so a plain `+` that
-- leaves the width stops the call, and the other additions are written out here.
use stellar_router.Prelude.{
  ℕ, zero, suc, ◌+◌, ◌-◌, ◌*◌, ◌^◌, ◌/◌, ◌%◌, List, [], ◌∷◌, ◌++◌, Option, none, some, ltb,
  if◌then◌else◌,
}

abbrev pub u32_mod : ℕ
u32_mod = 2 ^ 32

abbrev pub u64_mod : ℕ
u64_mod = 2 ^ 64

-- `u64::MAX`
abbrev pub u64_max : ℕ
u64_max = u64_mod - 1

-- `u64::checked_add`
abbrev pub checked_add_u64 : ℕ → ℕ → Option ℕ
checked_add_u64 a b = if ltb (a + b) u64_mod then some (a + b) else none

-- `u64::saturating_add`
abbrev pub saturating_add_u64 : ℕ → ℕ → ℕ
saturating_add_u64 a b = if ltb (a + b) u64_mod then a + b else u64_max

-- The last `n` base-256 digits of `x`, most significant first.
unfoldable pub be_digits : ℕ → ℕ → List ℕ
be_digits zero x = []
be_digits (suc n) x = be_digits n (x / 256) ++ (x % 256) ∷ []

-- `u64::to_be_bytes`
unfoldable pub to_be_bytes : ℕ → List ℕ
unfolding be_digits
to_be_bytes x = be_digits 8 x

-- `u64::saturating_mul`
abbrev pub saturating_mul_u64 : ℕ → ℕ → ℕ
saturating_mul_u64 a b = if ltb (a * b) u64_mod then a * b else u64_max

-- `u32::MAX` and `u32::saturating_add`
abbrev pub u32_max : ℕ
u32_max = u32_mod - 1

abbrev pub saturating_add_u32 : ℕ → ℕ → ℕ
saturating_add_u32 a b = if ltb (a + b) u32_mod then a + b else u32_max
