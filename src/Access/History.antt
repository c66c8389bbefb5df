-- ===== src/Access/History.antt =====
-- Histories of router-access without new grants: a call at a time, an error or a panic leaves the storage
-- as it was.
use stellar_router.Prelude.{ℕ, Option, List, [], ◌∷◌}
use stellar_router.Common.{Address, Env, ok, err, panic}
use stellar_router.Access
use stellar_router.Access.{Role, Call, deployed}
use stellar_router.Access.Calls
use stellar_router.Access.Invariant.{IsValid, Keeps}
use stellar_router.Access.Keeps.{
  initialize-IsValid, set_role_limits-IsValid, revoke_role-IsValid, expire_role-IsValid,
  set_role_admin-IsValid, blacklist-IsValid, unblacklist-IsValid, transfer_super_admin-IsValid,
  set_role_parent-IsValid, transfer_role_membership-IsValid,
}

abbrev State : Type 0
State = Access.Access

-- The calls that change the storage, with their arguments, but for new grants.
pub data Request : Type 0 where
  initialize : Address → Request
  set_role_limits : Address → Option ℕ → Option ℕ → Request
  revoke_role expire_role set_role_admin : Address → Role → Address → Request
  set_role_parent : Address → Role → Role → Request
  blacklist unblacklist transfer_super_admin : Address → Address → Request
  transfer_role_membership : Address → Role → Address → Address → Request

abbrev pub call : Env → Request → State → Call State
call env (initialize admin) s = Calls.initialize s admin
call env (set_role_limits caller max_roles max_grants) s =
    Calls.set_role_limits env s caller max_roles max_grants
call env (revoke_role caller role target) s = Calls.revoke_role env s caller role target
call env (expire_role caller role target) s = Calls.expire_role env s caller role target
call env (set_role_admin caller role admin) s = Calls.set_role_admin env s caller role admin
call env (set_role_parent caller role parent) s = Calls.set_role_parent env s caller role parent
call env (blacklist caller target) s = Calls.blacklist env s caller target
call env (unblacklist caller target) s = Calls.unblacklist env s caller target
call env (transfer_super_admin current new_admin) s =
    Calls.transfer_super_admin env s current new_admin
call env (transfer_role_membership caller role source destination) s =
    Calls.transfer_role_membership env s caller role source destination

-- The storage after a call: the host rolls a failed call back.
abbrev pub settle : State → Call State → State
settle s (ok t) = t
settle s (err e) = s
settle s panic = s

unfoldable pub unfold_calls : List (Env × Request) → State → State
unfold_calls [] s = s
unfold_calls ((env, r) ∷ rs) s = unfold_calls rs (settle s (call env r s))

call-IsValid : (env : Env) (r : Request) (s : State) → IsValid s → Keeps (call env r s)
call-IsValid env (initialize admin) s v = initialize-IsValid s v admin
call-IsValid env (set_role_limits caller max_roles max_grants) s v =
    set_role_limits-IsValid s v env caller max_roles max_grants
call-IsValid env (revoke_role caller role target) s v =
    revoke_role-IsValid s v env caller role target
call-IsValid env (expire_role caller role target) s v =
    expire_role-IsValid s v env caller role target
call-IsValid env (set_role_admin caller role admin) s v =
    set_role_admin-IsValid s v env caller role admin
call-IsValid env (set_role_parent caller role parent) s v =
    set_role_parent-IsValid s v env caller role parent
call-IsValid env (blacklist caller target) s v = blacklist-IsValid s v env caller target
call-IsValid env (unblacklist caller target) s v = unblacklist-IsValid s v env caller target
call-IsValid env (transfer_super_admin current new_admin) s v =
    transfer_super_admin-IsValid s v env current new_admin
call-IsValid env (transfer_role_membership caller role source destination) s v =
    transfer_role_membership-IsValid s v env caller role source destination

settle-IsValid : (s : State) (m : Call State) → IsValid s → Keeps m → IsValid (settle s m)
settle-IsValid s (ok t) v k = k
settle-IsValid s (err e) v k = v
settle-IsValid s panic v k = v

-- Whatever calls but new grants are made on a well-formed storage, by anyone and at any times, it stays
-- well formed: the list of a role's members, the list of an address's roles and the stored expiries name
-- exactly the grants, no list names anything twice, every chain of parent roles ends, and the super-admin
-- is not blacklisted.
pub unfold_calls-IsValid :
    (rs : List (Env × Request)) (s : State) → IsValid s → IsValid (unfold_calls rs s)
unfolding unfold_calls
unfold_calls-IsValid [] s v = v
unfold_calls-IsValid ((env, r) ∷ rs) s v =
    unfold_calls-IsValid rs (settle s (call env r s))
      (settle-IsValid s (call env r s) v (call-IsValid env r s v))
