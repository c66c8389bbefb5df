-- ===== src/Access/Expiry.antt =====
-- What `expire_role` of contracts/router-access/src/lib.rs takes back of a grant, before and after its expiry.
use stellar_router.Prelude.{
  ℕ, ◌+◌, ◌<◌, false, not, none, List, [], ◌∷◌, ◌++◌, ◌≡◌, arith, ltb, contains, is_some,
  if◌then◌else◌,
}
use stellar_router.Prelude.Words.{u32_max}
use stellar_router.Common.{Address, Env, ok, ◌>>◌, fail_if}
use stellar_router.Common.Holds.{Holds-ok, then-Holds}
use stellar_router.Access
use stellar_router.Access.{Role, AccessError, Call, Event, publish}
use stellar_router.Access.Roles.{is_blacklisted_internal, has_role_internal}
use stellar_router.Access.Grants.{
  count_of, members_of, remove_first, push_new, deactivate_role_grant, activate_role_grant,
}
use stellar_router.Access.Calls.{as_super_admin, expire_role}

abbrev State : Type 0
State = Access.Access

remove_first-push_new :
    (xs : List ℕ) (a : ℕ) → contains xs a ≡ false → remove_first a (push_new xs a) ≡ xs
remove_first-push_new xs a h = rw h (go xs h)
  where
    go : (ys : List ℕ) → contains ys a ≡ false → remove_first a (ys ++ a ∷ []) ≡ ys
    go [] e = ground arith
    go (y ∷ ys) e = ground (arith, go ys)

module _ (env : Env) (s : State) (role : Role) (account : Address) (expiry : ℕ)
    (root : s.role_parent role ≡ none) (listed : is_blacklisted_internal s account ≡ false)
    (absent : contains (members_of s role) account ≡ false) (room : count_of s role < u32_max) where
  abbrev given : State
  given = activate_role_grant s role account expiry false

  abbrev Restores : State → Type 0
  Restores t =
      (t.has_role role account ≡ none)
      × (t.role_expiry role account ≡ none)
      × (members_of t role ≡ members_of s role)
      × (count_of t role
          ≡ (if ltb expiry env.timestamp then count_of s role + 1 else count_of s role))

  given-active : has_role_internal env given account role ≡ not (ltb expiry env.timestamp)
  unfolding has_role_internal activate_role_grant
  given-active = ground arith

  deactivated-Restores : Restores (deactivate_role_grant env given role account)
  unfolding deactivate_role_grant activate_role_grant
  deactivated-Restores = (
    ground arith,
    ground arith,
    ground (arith, remove_first-push_new (members_of s role) account absent),
    ground (arith, given-active),
  )

-- After `activate_role_grant` for a new grant of a role without a parent to an address that is neither a
-- member nor blacklisted, with a count of members below 2^32 - 1,
-- `expire_role`, when it succeeds, takes back the grant and its expiry and restores the list of members. It
-- restores the count of members too unless the expiry has passed: then the count stays one higher than
-- before the grant.
pub expire_role-activate_role_grant :
    (env : Env) (s : State) (caller : Address) (role : Role) (account : Address) (expiry : ℕ)
    (t : State)
    → s.role_parent role ≡ none
    → is_blacklisted_internal s account ≡ false
    → contains (members_of s role) account ≡ false
    → count_of s role < u32_max
    → expire_role env (activate_role_grant s role account expiry false) caller role account ≡ ok t
    → (t.has_role role account ≡ none)
      × (t.role_expiry role account ≡ none)
      × (members_of t role ≡ members_of s role)
      × (count_of t role
          ≡ (if ltb expiry env.timestamp then count_of s role + 1 else count_of s role))
unfolding expire_role
expire_role-activate_role_grant env s caller role account expiry t root clear absent room h =
    let u = activate_role_grant s role account expiry false in
    let P : State → Type 0 = Restores env s role account expiry root clear absent room in
    let check : Call (Unit {0}) =
      fail_if (not (is_some (u.has_role role account))) AccessError.role_not_found in
    let rest : Call State =
      ok (publish (deactivate_role_grant env u role account) (Event.role_expired role account)) in
    Holds-ok P (as_super_admin env u caller >> (check >> rest)) t
      (then-Holds P (as_super_admin env u caller) (check >> rest) (
        then-Holds P check rest
          (deactivated-Restores env s role account expiry root clear absent room)))
      h
