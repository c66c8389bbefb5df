-- ===== src/Access/Views.antt =====
-- The queries of contracts/router-access/src/lib.rs.
use stellar_router.Prelude.{ℕ, Bool, false, Option, List, if◌then◌else◌, filter}
use stellar_router.Common.{Address, Env, ok_or}
use stellar_router.Access
use stellar_router.Access.{Role, AccessError, Call}
use stellar_router.Access.Roles.{
  is_blacklisted_internal, has_passed, has_role_internal, role_limits_internal, roles_of,
}
use stellar_router.Access.Grants.{members_of, held_by, count_of}

abbrev State : Type 0
State = Access.Access

abbrev pub get_role_limits : State → ℕ × ℕ
get_role_limits s = role_limits_internal s

unfoldable pub has_role : Env → State → Address → Role → Bool
unfolding has_role_internal
has_role env s account role = has_role_internal env s account role

unfoldable pub is_role_expired : Env → State → Role → Address → Bool
unfolding has_role_internal
is_role_expired env s role target =
    if has_role_internal env s target role
    then false
    else has_passed (s.role_expiry role target) env.timestamp

abbrev pub get_role_member_count : State → Role → ℕ
get_role_member_count s role = count_of s role

abbrev pub get_role_expiry : State → Role → Address → Option ℕ
get_role_expiry s role target = s.role_expiry role target

abbrev pub get_role_admin : State → Role → Option Address
get_role_admin s role = s.role_admin role

abbrev pub get_role_parent : State → Role → Option Role
get_role_parent s role = s.role_parent role

abbrev pub list_all_roles : State → List Role
list_all_roles s = roles_of s

abbrev pub is_blacklisted : State → Address → Bool
is_blacklisted s target = is_blacklisted_internal s target

unfoldable pub get_role_members : Env → State → Role → List Address
unfolding has_role_internal
get_role_members env s role =
    filter (λ member. has_role_internal env s member role) (members_of s role)

abbrev pub get_roles_for_address : State → Address → List Role
get_roles_for_address s addr = held_by s addr

unfoldable pub super_admin : State → Call Address
super_admin s = ok_or s.super_admin AccessError.not_initialized
