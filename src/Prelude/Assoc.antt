-- ===== src/Prelude/Assoc.antt =====
-- A map value (`soroban_sdk::Map`) as a list of entries. The contracts read such a map by key, or fold
-- over it in ways that do not depend on the order.
use stellar_router.Prelude.{
  ℕ, Option, none, some, List, [], ◌∷◌, ◌≡◌, refl, arith, ◌==◌, if◌then◌else◌,
}

abbrev pub Assoc {ℓ} : Type ℓ → Type ℓ
Assoc V = List (ℕ × V)

module _ {ℓ} {V : Type ℓ} where
  -- `map.get(key)`
  abbrev pub get : Assoc V → ℕ → Option V
  get [] k = none
  get (e ∷ m) k = if e.0 == k then some e.1 else get m k

  -- `map.set(key, value)`
  abbrev pub set : Assoc V → ℕ → V → Assoc V
  set [] k v = (k, v) ∷ []
  set (e ∷ m) k v = if e.0 == k then (k, v) ∷ m else e ∷ set m k v

  -- `map.remove(key)`
  abbrev pub erase : Assoc V → ℕ → Assoc V
  erase [] k = []
  erase (e ∷ m) k = let rest = erase m k in if e.0 == k then rest else e ∷ rest

  pub get-set :
      (m : Assoc V) (k j : ℕ) (v : V) → get (set m k v) j ≡ (if k == j then some v else get m j)
  get-set [] k j v = refl
  get-set (e ∷ m) k j v = ground (arith, get-set m k j v)

  pub get-erase : (m : Assoc V) (k j : ℕ) → get (erase m k) j ≡ (if k == j then none else get m j)
  get-erase [] k j = ground arith
  get-erase (e ∷ m) k j = ground (arith, get-erase m k j)
