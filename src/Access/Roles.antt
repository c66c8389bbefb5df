-- ===== src/Access/Roles.antt =====
-- The private checks of contracts/router-access/src/lib.rs: blacklist, roles held, the parents of a role.
use stellar_router.Prelude.{
  ℕ, zero, suc, ◌-◌, Bool, true, false, not, ◌&&◌, Option, none, some, List, [], ◌∷◌, ◌++◌, length,
  leb, ltb, ◌==◌, if◌then◌else◌, unwrap_or, contains,
}
use stellar_router.Common.{Address, Env, ok, err, ◌>>=◌, ◌>>◌, fail_if, ok_or}
use stellar_router.Access
use stellar_router.Access.{
  Role, AccessError, Call, max_hierarchy_depth, default_max_roles, default_max_grants_per_role,
}

abbrev State : Type 0
State = Access.Access

abbrev pub is_blacklisted_internal : State → Address → Bool
is_blacklisted_internal s target = unwrap_or (s.blacklisted target) false

-- A stored expiry that has passed.
abbrev pub has_passed : Option ℕ → ℕ → Bool
has_passed none now = false
has_passed (some expires_at) now = ltb expires_at now

abbrev pub has_direct_role_internal : Env → State → Address → Role → Bool
has_direct_role_internal env s account role =
    unwrap_or (s.has_role role account) false
    && not (has_passed (s.role_expiry role account) env.timestamp)

-- The loop of `has_role_internal` with `n` roles left to look at.
unfoldable pub climb : Env → State → Address → ℕ → Role → Bool
climb env s account zero role = false
climb env s account (suc n) role =
    let inherited : Bool = elim (s.role_parent role) [
      | none ↦ false
      | some parent ↦ climb env s account n parent
    ] in
    if has_direct_role_internal env s account role then true else inherited

unfoldable pub has_role_internal : Env → State → Address → Role → Bool
unfolding climb
has_role_internal env s account role =
    if is_blacklisted_internal s account
    then false
    else climb env s account max_hierarchy_depth role

-- The loop of `ensure_no_role_parent_cycle` with `n` steps up left, to the depth of 16.
unfoldable pub climb_from : State → Role → ℕ → Role → Call (Unit {0})
climb_from s role zero current =
    if current == role then err AccessError.hierarchy_cycle else err AccessError.hierarchy_too_deep
climb_from s role (suc n) current =
    let rest : Call (Unit {0}) = elim (s.role_parent current) [
      | none ↦ ok tt
      | some parent ↦ climb_from s role n parent
    ] in
    if current == role then err AccessError.hierarchy_cycle else rest

unfoldable pub ensure_no_role_parent_cycle : State → Role → Role → Call (Unit {0})
unfolding climb_from
ensure_no_role_parent_cycle s role parent_role =
    climb_from s role (max_hierarchy_depth - 1) parent_role

abbrev pub role_limits_internal : State → ℕ × ℕ
role_limits_internal s = unwrap_or s.role_limits (default_max_roles, default_max_grants_per_role)

abbrev pub roles_of : State → List Role
roles_of s = unwrap_or s.all_roles []

unfoldable pub track_role_in_all_roles : State → Role → Call State
track_role_in_all_roles s role = if contains (roles_of s) role then ok s else (do
  fail_if (leb (role_limits_internal s).0 (length (roles_of s))) AccessError.max_roles_exceeded
  ok (record s { all_roles = some (roles_of s ++ role ∷ []) }))

unfoldable pub require_super_admin : State → Address → Call (Unit {0})
require_super_admin s caller = do
  fail_if (is_blacklisted_internal s caller) AccessError.account_blacklisted
  admin ← ok_or s.super_admin AccessError.not_initialized
  fail_if (not (admin == caller)) AccessError.unauthorized

abbrev pub is_address : Option Address → Address → Bool
is_address none caller = false
is_address (some a) caller = a == caller

unfoldable pub require_role_manager : State → Address → Role → Call (Unit {0})
require_role_manager s caller role = do
  fail_if (is_blacklisted_internal s caller) AccessError.account_blacklisted
  admin ← ok_or s.super_admin AccessError.not_initialized
  if admin == caller
      then ok tt
      else if is_address (s.role_admin role) caller
      then ok tt
      else err AccessError.unauthorized
