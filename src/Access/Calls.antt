-- ===== src/Access/Calls.antt =====
-- The calls of contracts/router-access/src/lib.rs that change the storage, but for `grant_role` and
-- `grant_role_batch`.
use stellar_router.Prelude.{
  ℕ, true, false, not, Option, some, ◌==◌, if◌then◌else◌, is_some, unwrap_or, insert, remove,
}
use stellar_router.Common.{Address, Env, ok, ◌>>=◌, ◌>>◌, fail_if, ok_or, require_auth}
use stellar_router.Access
use stellar_router.Access.{
  Role, AccessError, Call, Event, publish, default_max_roles, default_max_grants_per_role,
}
use stellar_router.Access.Roles.{
  is_blacklisted_internal, has_role_internal, ensure_no_role_parent_cycle, track_role_in_all_roles,
  require_super_admin, require_role_manager,
}
use stellar_router.Access.Grants.{
  deactivate_role_grant, activate_role_grant, adjust_role_member_counts_for_blacklist_change,
}

abbrev State : Type 0
State = Access.Access

-- How the calls of the super-admin begin, and those of a role's manager.
unfoldable pub as_super_admin : Env → State → Address → Call (Unit {0})
unfolding require_super_admin
as_super_admin env s caller = do require_auth env caller; require_super_admin s caller

unfoldable pub as_role_manager : Env → State → Address → Role → Call (Unit {0})
unfolding require_role_manager
as_role_manager env s caller role = do require_auth env caller; require_role_manager s caller role

unfoldable pub initialize : State → Address → Call State
initialize s super_admin = do
  fail_if (is_some s.super_admin) AccessError.already_initialized
  ok (record s { super_admin = some super_admin })

unfoldable pub set_role_limits : Env → State → Address → Option ℕ → Option ℕ → Call State
unfolding as_super_admin
set_role_limits env s caller max_roles max_grants_per_role = do
  as_super_admin env s caller
  let effective_max_roles = unwrap_or max_roles default_max_roles
  let effective_max_grants = unwrap_or max_grants_per_role default_max_grants_per_role
  ok (
      publish (record s { role_limits = some (effective_max_roles, effective_max_grants) })
        (Event.role_limits_set effective_max_roles effective_max_grants))

unfoldable pub revoke_role : Env → State → Address → Role → Address → Call State
unfolding as_role_manager deactivate_role_grant
revoke_role env s caller role target = do
  as_role_manager env s caller role
  fail_if (not (is_some (s.has_role role target))) AccessError.role_not_found
  ok (publish (deactivate_role_grant env s role target) (Event.role_revoked role target))

unfoldable pub set_role_admin : Env → State → Address → Role → Address → Call State
unfolding as_super_admin track_role_in_all_roles
set_role_admin env s caller role admin = do
  as_super_admin env s caller
  fail_if (is_blacklisted_internal s admin) AccessError.account_blacklisted
  t ← track_role_in_all_roles s role
  ok (
      publish (record t { role_admin = insert t.role_admin role admin })
        (Event.role_admin_set role admin))

unfoldable pub set_role_parent : Env → State → Address → Role → Role → Call State
unfolding as_super_admin ensure_no_role_parent_cycle track_role_in_all_roles
set_role_parent env s caller role parent_role = do
  as_super_admin env s caller
  ensure_no_role_parent_cycle s role parent_role
  t ← track_role_in_all_roles s role
  u ← track_role_in_all_roles t parent_role
  ok (
      publish (record u { role_parent = insert u.role_parent role parent_role })
        (Event.role_parent_set role parent_role))

-- The storage with an address on the blacklist, and with it off.
unfoldable pub put_on : Env → State → Address → State
unfolding adjust_role_member_counts_for_blacklist_change
put_on env s target =
    let t = adjust_role_member_counts_for_blacklist_change env s target false in
    publish (record t { blacklisted = insert t.blacklisted target true })
      (Event.address_blacklisted target)

unfoldable pub take_off : Env → State → Address → State
unfolding adjust_role_member_counts_for_blacklist_change
take_off env s target =
    publish
      (adjust_role_member_counts_for_blacklist_change env
        (record s { blacklisted = remove s.blacklisted target }) target true)
      (Event.address_unblacklisted target)

unfoldable pub blacklist : Env → State → Address → Address → Call State
unfolding as_super_admin put_on
blacklist env s caller target = do
  as_super_admin env s caller
  fail_if (target == caller) AccessError.cannot_blacklist_admin
  if is_blacklisted_internal s target then ok s else ok (put_on env s target)

unfoldable pub unblacklist : Env → State → Address → Address → Call State
unfolding as_super_admin take_off
unblacklist env s caller target = do
  as_super_admin env s caller
  if is_blacklisted_internal s target then ok (take_off env s target) else ok s

-- The move of a grant with its expiry from one address to another.
unfoldable pub move_grant : Env → State → Role → Address → Address → ℕ → Call State
unfolding deactivate_role_grant track_role_in_all_roles activate_role_grant
move_grant env s role source destination expiry = do
  t ← track_role_in_all_roles (deactivate_role_grant env s role source) role
  ok (
      publish
        (publish (activate_role_grant t role destination expiry false)
          (Event.role_granted destination role expiry))
        (Event.role_revoked role source))

unfoldable pub transfer_role_membership :
    Env → State → Address → Role → Address → Address → Call State
unfolding as_role_manager has_role_internal move_grant
transfer_role_membership env s caller role source destination = do
  as_role_manager env s caller role
  fail_if (not (has_role_internal env s source role)) AccessError.role_not_found
  if source == destination then ok s else (do
    fail_if (has_role_internal env s destination role) AccessError.destination_already_has_role
    expiry ← ok_or (s.role_expiry role source) AccessError.role_not_found
    fail_if (is_blacklisted_internal s destination) AccessError.account_blacklisted
    move_grant env s role source destination expiry)

unfoldable pub transfer_super_admin : Env → State → Address → Address → Call State
unfolding as_super_admin
transfer_super_admin env s current new_admin = do
  as_super_admin env s current
  fail_if (is_blacklisted_internal s new_admin) AccessError.account_blacklisted
  ok (
      publish (record s { super_admin = some new_admin })
        (Event.admin_transferred current new_admin))

unfoldable pub expire_role : Env → State → Address → Role → Address → Call State
unfolding as_super_admin deactivate_role_grant
expire_role env s caller role target = do
  as_super_admin env s caller
  fail_if (not (is_some (s.has_role role target))) AccessError.role_not_found
  ok (publish (deactivate_role_grant env s role target) (Event.role_expired role target))
