-- ===== src/Access/Hierarchy.antt =====
-- The parents of roles in contracts/router-access/src/lib.rs: who inherits a role, and that every chain of
-- parents ends.
use stellar_router.Prelude.{
  ℕ, zero, suc, ◌<◌, ◌≤◌, true, false, ◌≡◌, sym, ap, ◌∙◌, inl, inr, ◌↔◌, arith, none, some, ◌==◌,
  if◌then◌else◌, Map, insert, Bool-cases, Option-cases, ==→eq,
}
use mathlib.Core.Path.{subst}
use stellar_router.Common.{Address, Env, ok}
use stellar_router.Access
use stellar_router.Access.{Role, Call}
use stellar_router.Access.Roles.{
  is_blacklisted_internal, has_direct_role_internal, climb, has_role_internal, climb_from,
  ensure_no_role_parent_cycle,
}

abbrev State : Type 0
State = Access.Access

-- `a` stands `n` parents above a role.
pub data Above (f : Map Role) : ℕ → Role → Role → Type 0 where
  self : (r : Role) → Above f zero r r
  up : (n : ℕ) (r q a : Role) → f r ≡ some q → Above f n q a → Above f (suc n) r a

-- A role that the address holds itself, less than `n` parents up.
abbrev pub Inherits : Env → State → Address → ℕ → Role → Type 0
Inherits env s account n role =
    (k : ℕ) × (a : Role) × (k < n)
    × Above s.role_parent k role a
    × (has_direct_role_internal env s account a ≡ true)

climb-Inherits :
    (env : Env) (s : State) (account : Address) (n : ℕ) (role : Role)
    → climb env s account n role ≡ true
    → Inherits env s account n role
unfolding climb
climb-Inherits env s account zero role h = absurd (ground arith)
climb-Inherits env s account (suc n) role h =
    elim (Bool-cases (has_direct_role_internal env s account role)) [
      | inl d ↦ (zero, role, omega arith, Above.self role, d)
      | inr d ↦ elim (Option-cases (s.role_parent role)) [
        | inl e ↦ absurd (ground arith)
        | inr (q, e) ↦
            let (k, a, l, u, d') = climb-Inherits env s account n q (ground arith) in
            (suc k, a, omega arith, Above.up k role q a e u, d')
      ]
    ]

Inherits-climb :
    (env : Env) (s : State) (account : Address) (n k : ℕ) (role a : Role)
    → k < n
    → Above s.role_parent k role a
    → has_direct_role_internal env s account a ≡ true
    → climb env s account n role ≡ true
unfolding climb
Inherits-climb env s account zero k role a l u d = absurd (omega arith)
Inherits-climb env s account (suc n) k role a l (Above.self r) d = ground arith
Inherits-climb env s account (suc n) k role a l (Above.up m r q b e u) d =
    ground (arith, Inherits-climb env s account n m q a (omega arith) u d)

-- An address has a role exactly when it is not blacklisted and holds, itself and not expired, the role or
-- one that stands at most 15 parents above it.
pub has_role_internal_iff :
    (env : Env) (s : State) (account : Address) (role : Role)
    → (has_role_internal env s account role ≡ true)
      ↔ ((is_blacklisted_internal s account ≡ false) × Inherits env s account 16 role)
unfolding has_role_internal
has_role_internal_iff env s account role = (
  (λ h. elim (Bool-cases (is_blacklisted_internal s account)) [
    | inl b ↦ absurd (ground arith)
    | inr b ↦ (b, climb-Inherits env s account 16 role (ground arith))
  ]),
  (λ (b, (k, a, l, u, d)).
      ap (λ t. if t then false else climb env s account 16 role) b
      ∙ Inherits-climb env s account 16 k role a l u d),
)

-- The chain of parents of a role ends after `n` parents.
pub data Tops (f : Map Role) : ℕ → Role → Type 0 where
  top : (r : Role) → f r ≡ none → Tops f zero r
  under : (n : ℕ) (r q : Role) → f r ≡ some q → Tops f n q → Tops f (suc n) r

abbrev pub IsGrounded : Map Role → Type 0
IsGrounded f = (r : Role) → (n : ℕ) × Tops f n r

-- What the check of a new parent has walked: at most `n` parents up, and never to the role itself.
pub data Clear (f : Map Role) (role : Role) : ℕ → Role → Type 0 where
  clear_top : (r : Role) → (r == role) ≡ false → f r ≡ none → Clear f role zero r
  clear_under :
      (n : ℕ) (r q : Role)
      → (r == role) ≡ false
      → f r ≡ some q
      → Clear f role n q
      → Clear f role (suc n) r

climb_from-Clear :
    (s : State) (role : Role) (n : ℕ) (current : Role)
    → climb_from s role n current ≡ ok tt
    → (k : ℕ) × (k < n) × Clear s.role_parent role k current
unfolding climb_from
climb_from-Clear s role zero current h = elim (Bool-cases (current == role)) [
  | inl b ↦ absurd (ground arith)
  | inr b ↦ absurd (ground arith)
]
climb_from-Clear s role (suc n) current h = elim (Bool-cases (current == role)) [
  | inl b ↦ absurd (ground arith)
  | inr b ↦ elim (Option-cases (s.role_parent current)) [
    | inl e ↦ (zero, omega arith, Clear.clear_top current b e)
    | inr (q, e) ↦
        let (k, l, c) = climb_from-Clear s role n q (ground arith) in
        (suc k, omega arith, Clear.clear_under k current q b e c)
  ]
]

module _ (f : Map Role) (role parent : Role) where
  abbrev with_parent : Map Role
  with_parent = insert f role parent

  Clear-Tops : (n : ℕ) (r : Role) → Clear f role n r → Tops with_parent n r
  Clear-Tops n r (Clear.clear_top o b e) = Tops.top o (ground arith)
  Clear-Tops n r (Clear.clear_under m o q b e c) =
      Tops.under m o q (ground arith) (Clear-Tops m q c)

  -- The role itself, and then every role, has a chain that ends.
  role-Tops : (n : ℕ) → Clear f role n parent → Tops with_parent (suc n) role
  role-Tops n c = Tops.under n role parent (ground arith) (Clear-Tops n parent c)

  Tops-still :
      (k : ℕ)
      → Tops with_parent k role
      → (n : ℕ) (r : Role) → Tops f n r
      → (m : ℕ) × Tops with_parent m r
  Tops-still k t n r (Tops.top o e) = elim (Bool-cases (o == role)) [
    | inl b ↦ (k, subst (Tops with_parent k) (sym (==→eq o role b)) t)
    | inr b ↦ (zero, Tops.top o (ground arith))
  ]
  Tops-still k t n r (Tops.under m o q e c) = elim (Bool-cases (o == role)) [
    | inl b ↦ (k, subst (Tops with_parent k) (sym (==→eq o role b)) t)
    | inr b ↦ let (j, u) = Tops-still k t m q c in (suc j, Tops.under j o q (ground arith) u)
  ]

-- A new parent that passes the check keeps every chain of parents finite.
pub ensure_no_role_parent_cycle-IsGrounded :
    (s : State) (role parent : Role)
    → IsGrounded s.role_parent
    → ensure_no_role_parent_cycle s role parent ≡ ok tt
    → IsGrounded (insert s.role_parent role parent)
      × ((n : ℕ) × (n < 16) × Tops (insert s.role_parent role parent) n role)
unfolding ensure_no_role_parent_cycle
ensure_no_role_parent_cycle-IsGrounded s role parent g h =
    let (k, l, c) = climb_from-Clear s role 15 parent h in
    let t : Tops (insert s.role_parent role parent) (suc k) role =
      role-Tops s.role_parent role parent k c in
    (
      (λ r. let (n, u) = g r in Tops-still s.role_parent role parent (suc k) t n r u),
      (suc k, omega arith, t),
    )

-- Nothing stands above the end of a chain.
pub Above-le : (f : Map Role) (n k : ℕ) (r a : Role) → Tops f n r → Above f k r a → k ≤ n
Above-le f n k r a t (Above.self o) = omega arith
Above-le f n k r a (Tops.top o e) (Above.up m p q b h u) = absurd (ground arith)
Above-le f n k r a (Tops.under j o x e c) (Above.up m p q b h u) =
    let same : x ≡ q = ground arith in omega (arith, Above-le f j m q a (subst (Tops f j) same c) u)
