-- ===== src/Common.antt =====
-- contracts/router-common and the Soroban host as the contracts see it: addresses, the outcome of a
-- call, authorization and the administrator check.
--
-- A contract call ends in a value, in an error of the contract's error type, or in a panic. The host
-- rolls back the storage and the events of a call that ends in an error or a panic, so a call returns
-- a new state only with a value.
pub mod Holds
pub mod Batch
use stellar_router.Prelude.Words.{u32_mod, u64_mod}
use stellar_router.Prelude.{
  ◌+◌, ltb, List, [], ◌∷◌, ℕ, String, Bool, true, false, Option, none, some, ◌≡◌, ◌==◌, not,
  if◌then◌else◌,
}

-- Addresses are compared and stored, never inspected.
abbrev pub Address : Type 0
Address = ℕ

pub data Outcome {ℓ κ} (E : Type κ) (A : Type ℓ) : Type (ℓ ⊔ κ) where
  ok : A → Outcome E A
  err : E → Outcome E A
  panic : Outcome E A

infixl 5 ◌>>=◌ ◌>>◌
abbrev pub ◌>>=◌ {ℓ κ ι} :
    {E : Type ι} {A : Type ℓ} {B : Type κ} → Outcome E A → (A → Outcome E B) → Outcome E B
ok a >>= f = f a
err e >>= f = err e
panic >>= f = panic

abbrev pub ◌>>◌ {κ ι} : {E : Type ι} {B : Type κ} → Outcome E (Unit {0}) → Outcome E B → Outcome E B
m >> k = m >>= λ _. k

-- `if b { return Err(e); }`
abbrev pub fail_if {ι} : {E : Type ι} → Bool → E → Outcome E (Unit {0})
fail_if true e = err e
fail_if false e = ok tt

-- `o.ok_or(e)?`
abbrev pub ok_or {ℓ ι} : {E : Type ι} {A : Type ℓ} → Option A → E → Outcome E A
ok_or none e = err e
ok_or (some a) e = ok a

-- `o.expect(..)`
abbrev pub expect {ℓ ι} : {E : Type ι} {A : Type ℓ} → Option A → Outcome E A
expect none = panic
expect (some a) = ok a

-- `for x in xs { body(x)?; }`
abbrev pub try_for_each {ℓ ι} :
    {E : Type ι} {A : Type ℓ} → (A → Outcome E (Unit {0})) → List A → Outcome E (Unit {0})
try_for_each body [] = ok tt
try_for_each body (x ∷ xs) = body x >> try_for_each body xs

-- What the host tells a call: the ledger's time, and which addresses authorized the call.
pub record Env : Type 0 where
  pub timestamp : ℕ
  pub authorized : Address → Bool

-- `address.require_auth()`
abbrev pub require_auth {ι} : {E : Type ι} → Env → Address → Outcome E (Unit {0})
require_auth env a = if env.authorized a then ok tt else panic

-- The macros `require_admin!` and `require_admin_simple!`.
abbrev pub require_admin {ι} :
    {E : Type ι} → Option Address → Address → E → E → Outcome E (Unit {0})
require_admin stored caller not_init unauth = do
  admin ← ok_or stored not_init
  fail_if (not (admin == caller)) unauth

-- An authorized call of the stored administrator.
pub record IsAdmin (env : Env) (stored : Option Address) (caller : Address) : Type 0 where
  pub signed : env.authorized caller ≡ true
  pub stored_admin : stored ≡ some caller

-- The host's hash and its serialization of values, which the contracts call and do not implement.
pub record Crypto : Type 0 where
  pub sha256 : List ℕ → ℕ
  pub string_xdr : String → List ℕ
  pub address_xdr : Address → List ℕ

-- A plain `+` on `u32` or `u64` under overflow checks.
abbrev pub add_u32 {ι} : {E : Type ι} → ℕ → ℕ → Outcome E ℕ
add_u32 a b = if ltb (a + b) u32_mod then ok (a + b) else panic

abbrev pub add_u64 {ι} : {E : Type ι} → ℕ → ℕ → Outcome E ℕ
add_u64 a b = if ltb (a + b) u64_mod then ok (a + b) else panic
