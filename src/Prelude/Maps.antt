-- ===== src/Prelude/Maps.antt =====
-- A family of storage entries under one kind of key: what is stored at each identifier.
use Prim.Native.Nat.{ℕ}
use mathlib.Core.Path.{◌≡◌}
use mathlib.Core.Logic.{◌⊎◌, inl, inr}
use mathlib.Core.Bool.{false, ◌&&◌}
use native.Mathlib.Omega.{arith}
use mathlib.Core.Option.{Option, none, some}
use stellar_router.Prelude.Tests.{Bool-cases, ◌==◌, if◌then◌else◌}

abbrev pub Map {ℓ} : Type ℓ → Type ℓ
Map V = ℕ → Option V

module _ {ℓ} {V : Type ℓ} where
  abbrev pub empty : Map V
  empty k = none

  -- `storage().set(key, value)`
  abbrev pub insert : Map V → ℕ → V → Map V
  insert m k v j = if j == k then some v else m j

  -- `storage().remove(key)`
  abbrev pub remove : Map V → ℕ → Map V
  remove m k j = if j == k then none else m j

  -- `storage().set((k, l), value)`, for keys of two parts.
  abbrev pub insert_at : (ℕ → Map V) → ℕ → ℕ → V → ℕ → Map V
  insert_at m k l v i j = if i == k && j == l then some v else m i j

  abbrev pub remove_at : (ℕ → Map V) → ℕ → ℕ → ℕ → Map V
  remove_at m k l i j = if i == k && j == l then none else m i j

  -- What is stored after an insertion is what was inserted, or was stored elsewhere before.
  pub insert-cases :
      (m : Map V) (k : ℕ) (v : V) (j : ℕ) (w : V)
      → insert m k v j ≡ some w
      → ((j ≡ k) × (v ≡ w)) ⊎ (((j == k) ≡ false) × (m j ≡ some w))
  insert-cases m k v j w h = elim (Bool-cases (j == k)) [
    | inl t ↦ inl (ground arith)
    | inr f ↦ inr (ground arith)
  ]

  pub insert_at-cases :
      (m : ℕ → Map V) (k l : ℕ) (v : V) (i j : ℕ) (w : V)
      → insert_at m k l v i j ≡ some w
      → ((i ≡ k) × (j ≡ l) × (v ≡ w)) ⊎ (((i == k && j == l) ≡ false) × (m i j ≡ some w))
  insert_at-cases m k l v i j w h = elim (Bool-cases (i == k && j == l)) [
    | inl t ↦ inl (ground arith)
    | inr f ↦ inr (ground arith)
  ]
