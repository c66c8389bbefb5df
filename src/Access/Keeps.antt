-- ===== src/Access/Keeps.antt =====
-- The calls of router-access keep the storage well formed.
use stellar_router.Prelude.{
  ℕ, Bool, true, false, not, ◌≡◌, refl, sym, ap, ◌∙◌, inl, inr, arith, Option, none, some, List, [],
  ◌∷◌, ◌++◌, ◌==◌, if◌then◌else◌, is_some, unwrap_or, Map, insert, remove, Option-cases,
}
use mathlib.Core.Path.{subst}
use stellar_router.Common.{Address, Env, ok, ◌>>=◌, ◌>>◌, fail_if, ok_or}
use stellar_router.Common.Holds.{
  Holds-mono, bind-Holds, then-Holds, check-Holds, ok_or-Holds, if-Holds,
}
use stellar_router.Access
use stellar_router.Access.{
  Role, AccessError, Call, Event, publish, default_max_roles, default_max_grants_per_role,
}
use stellar_router.Access.Roles.{
  is_blacklisted_internal, has_role_internal, track_role_in_all_roles,
}
use stellar_router.Access.Grants.{
  held_by, deactivate_role_grant, activate_role_grant,
  adjust_role_member_counts_for_blacklist_change,
}
use stellar_router.Access.Calls
use stellar_router.Access.Calls.{as_super_admin, as_role_manager, put_on, take_off, move_grant}
use stellar_router.Access.Hierarchy.{IsGrounded}
use stellar_router.Access.Parents.{
  Tracked, track_role_in_all_roles-Tracked, Reparents, set_role_parent-Reparents,
}
use stellar_router.Access.Members.{
  deactivate_role_grant-IsConsistent, activate_role_grant-IsConsistent,
}
use stellar_router.Access.Invariant.{
  IsValid, Keeps, remade, untouched, regranted, as_super_admin-admin, adjust_counts-only,
}

abbrev State : Type 0
State = Access.Access

Tracked-IsValid : (s : State) (role : Role) (t : State) → IsValid s → Tracked s role t → IsValid t
Tracked-IsValid s role t v k =
    subst IsValid (sym k.only)
      (untouched s v s.role_admin s.role_member_count k.all_roles s.role_limits s.events)

published : (s : State) (event : Event) → IsValid s → IsValid (publish s event)
published s event v =
    untouched s v s.role_admin s.role_member_count s.all_roles s.role_limits
      (s.events ++ event ∷ [])

pub activated-IsValid :
    (s : State) (role : Role) (account : Address) (expiry : ℕ) (b : Bool)
    → IsValid s
    → IsValid (activate_role_grant s role account expiry b)
unfolding activate_role_grant
activated-IsValid s role account expiry b v =
    regranted s v (activate_role_grant s role account expiry b) refl refl refl
      (activate_role_grant-IsConsistent s v.consistent role account expiry b)

module _ (s : State) (v : IsValid s) where
  deactivated-IsValid :
      (env : Env) (role : Role) (target : Address)
      → IsValid (deactivate_role_grant env s role target)
  unfolding deactivate_role_grant
  deactivated-IsValid env role target =
      regranted s v (deactivate_role_grant env s role target) refl refl refl
        (deactivate_role_grant-IsConsistent s v.consistent role target env)

  -- Another blacklist that leaves the super-admin alone.
  relisted :
      (blacklisted : Map Bool) (counts : Map ℕ) (events : List Event) (caller : Address)
      → s.super_admin ≡ some caller
      → unwrap_or (blacklisted caller) false ≡ false
      → IsValid
          (record s { blacklisted = blacklisted; role_member_count = counts; events = events })
  relisted blacklisted counts events caller h b = record {
    consistent =
        remade s v.consistent s.super_admin blacklisted s.role_admin counts s.role_parent
          s.all_roles s.role_limits events;
    grounded = v.grounded;
    admin_clear = λ a e.
        let same : a ≡ caller = ground arith in ap (λ x. unwrap_or (blacklisted x) false) same ∙ b;
    nobody = λ e a. absurd (ground arith);
  }

  put_on-IsValid :
      (env : Env) (caller target : Address)
      → s.super_admin ≡ some caller
      → (target == caller) ≡ false
      → IsValid (put_on env s target)
  unfolding put_on adjust_role_member_counts_for_blacklist_change
  put_on-IsValid env caller target h n =
      let (m, e) = adjust_counts-only env target false (held_by s target) s in
      let listed : State → State = λ t.
        publish (record t { blacklisted = insert t.blacklisted target true })
          (Event.address_blacklisted target) in
      subst IsValid (sym (ap listed e)) (
        relisted (insert s.blacklisted target true) m
          (s.events ++ Event.address_blacklisted target ∷ []) caller h
          (ground (arith, v.admin_clear caller h)))

  take_off-IsValid :
      (env : Env) (caller target : Address)
      → s.super_admin ≡ some caller
      → IsValid (take_off env s target)
  unfolding take_off adjust_role_member_counts_for_blacklist_change
  take_off-IsValid env caller target h =
      let t : State = record s { blacklisted = remove s.blacklisted target } in
      let (m, e) = adjust_counts-only env target true (held_by s target) t in
      let event : Event = Event.address_unblacklisted target in
      subst IsValid (sym (ap (λ (x : State). publish x event) e)) (
        relisted (remove s.blacklisted target) m (s.events ++ event ∷ []) caller h
          (ground (arith, v.admin_clear caller h)))

  pub initialize-IsValid : (admin : Address) → Keeps (Calls.initialize s admin)
  unfolding Calls.initialize
  initialize-IsValid admin =
      check-Holds IsValid (fail_if (is_some s.super_admin) AccessError.already_initialized)
        (ok (record s { super_admin = some admin }))
        (λ h.
          let none_yet : s.super_admin ≡ none = elim (Option-cases s.super_admin) [
            | inl e ↦ e
            | inr (a, e) ↦ absurd (ground arith)
          ] in
          record {
            consistent =
                remade s v.consistent (some admin) s.blacklisted s.role_admin s.role_member_count
                  s.role_parent s.all_roles s.role_limits s.events;
            grounded = v.grounded;
            admin_clear = λ a e. v.nobody none_yet a;
            nobody = λ e a. v.nobody none_yet a;
          })

  module _ (env : Env) (caller : Address) where
    pub set_role_limits-IsValid :
        (max_roles max_grants : Option ℕ)
        → Keeps (Calls.set_role_limits env s caller max_roles max_grants)
    unfolding Calls.set_role_limits
    set_role_limits-IsValid max_roles max_grants =
        then-Holds IsValid (as_super_admin env s caller) (ok _) (
          untouched s v s.role_admin s.role_member_count s.all_roles
            (some (unwrap_or max_roles 100, unwrap_or max_grants 1000))
            (s.events
              ++ Event.role_limits_set (unwrap_or max_roles 100) (unwrap_or max_grants 1000) ∷ []))

    module _ (role : Role) (target : Address) where
      pub revoke_role-IsValid : Keeps (Calls.revoke_role env s caller role target)
      unfolding Calls.revoke_role
      revoke_role-IsValid =
          let t : State = deactivate_role_grant env s role target in
          let check : Call (Unit {0}) =
            fail_if (not (is_some (s.has_role role target))) AccessError.role_not_found in
          let rest : Call State = ok (publish t (Event.role_revoked role target)) in
          then-Holds IsValid (as_role_manager env s caller role) (check >> rest) (
            then-Holds IsValid check rest
              (published t (Event.role_revoked role target) (deactivated-IsValid env role target)))

      pub expire_role-IsValid : Keeps (Calls.expire_role env s caller role target)
      unfolding Calls.expire_role
      expire_role-IsValid =
          let t : State = deactivate_role_grant env s role target in
          let check : Call (Unit {0}) =
            fail_if (not (is_some (s.has_role role target))) AccessError.role_not_found in
          let rest : Call State = ok (publish t (Event.role_expired role target)) in
          then-Holds IsValid (as_super_admin env s caller) (check >> rest) (
            then-Holds IsValid check rest
              (published t (Event.role_expired role target) (deactivated-IsValid env role target)))

      pub set_role_admin-IsValid : Keeps (Calls.set_role_admin env s caller role target)
      unfolding Calls.set_role_admin
      set_role_admin-IsValid =
          let check : Call (Unit {0}) =
            fail_if (is_blacklisted_internal s target) AccessError.account_blacklisted in
          let finish : State → Call State = λ t. ok (
            publish (record t { role_admin = insert t.role_admin role target })
              (Event.role_admin_set role target)) in
          let rest : Call State = track_role_in_all_roles s role >>= finish in
          then-Holds IsValid (as_super_admin env s caller) (check >> rest) (
            then-Holds IsValid check rest (
              bind-Holds (Tracked s role) IsValid (track_role_in_all_roles s role) finish
                (track_role_in_all_roles-Tracked s role)
                (λ t k.
                  untouched t (Tracked-IsValid s role t v k) (insert t.role_admin role target)
                    t.role_member_count t.all_roles t.role_limits
                    (t.events ++ Event.role_admin_set role target ∷ []))))

    pub blacklist-IsValid : (target : Address) → Keeps (Calls.blacklist env s caller target)
    unfolding Calls.blacklist
    blacklist-IsValid target =
        let check : Call (Unit {0}) =
          fail_if (target == caller) AccessError.cannot_blacklist_admin in
        let rest : Call State =
          if is_blacklisted_internal s target then ok s else ok (put_on env s target) in
        check-Holds IsValid (as_super_admin env s caller) (check >> rest) (λ h.
          check-Holds IsValid check rest (λ n.
            if-Holds IsValid (is_blacklisted_internal s target) (ok s) (ok (put_on env s target)) v
              (put_on-IsValid env caller target (as_super_admin-admin env s caller h)
                (ground arith))))

    pub unblacklist-IsValid : (target : Address) → Keeps (Calls.unblacklist env s caller target)
    unfolding Calls.unblacklist
    unblacklist-IsValid target =
        let rest : Call State =
          if is_blacklisted_internal s target then ok (take_off env s target) else ok s in
        check-Holds IsValid (as_super_admin env s caller) rest (λ h.
          if-Holds IsValid (is_blacklisted_internal s target) (ok (take_off env s target)) (ok s)
            (take_off-IsValid env caller target (as_super_admin-admin env s caller h)) v)

    pub transfer_super_admin-IsValid :
        (new_admin : Address) → Keeps (Calls.transfer_super_admin env s caller new_admin)
    unfolding Calls.transfer_super_admin
    transfer_super_admin-IsValid new_admin =
        let check : Call (Unit {0}) =
          fail_if (is_blacklisted_internal s new_admin) AccessError.account_blacklisted in
        let event : Event = Event.admin_transferred caller new_admin in
        let rest : Call State = ok (publish (record s { super_admin = some new_admin }) event) in
        then-Holds IsValid (as_super_admin env s caller) (check >> rest) (
          check-Holds IsValid check rest (λ n.
            let clear : is_blacklisted_internal s new_admin ≡ false = ground arith in
            record {
              consistent =
                  remade s v.consistent (some new_admin) s.blacklisted s.role_admin
                    s.role_member_count s.role_parent s.all_roles s.role_limits
                    (s.events ++ event ∷ []);
              grounded = v.grounded;
              admin_clear = λ a e.
                  let same : a ≡ new_admin = ground arith in
                  ap (is_blacklisted_internal s) same ∙ clear;
              nobody = λ e a. absurd (ground arith);
            }))

    pub set_role_parent-IsValid :
        (role parent : Role) → Keeps (Calls.set_role_parent env s caller role parent)
    set_role_parent-IsValid role parent =
        Holds-mono (Reparents s role parent) IsValid
          (Calls.set_role_parent env s caller role parent)
          (set_role_parent-Reparents env s caller role parent v.grounded)
          (λ t r.
            let u : State = record s {
              role_parent = insert s.role_parent role parent;
              all_roles = r.roles;
              events = r.events;
            } in
            subst IsValid (sym r.only) (record {
              consistent =
                  remade s v.consistent s.super_admin s.blacklisted s.role_admin s.role_member_count
                    u.role_parent r.roles s.role_limits r.events;
              grounded = subst IsGrounded r.parents r.grounded;
              admin_clear = v.admin_clear;
              nobody = v.nobody;
            }))

    module _ (role : Role) where
      move_grant-IsValid :
          (source destination : Address) (expiry : ℕ)
          → Keeps (move_grant env s role source destination expiry)
      unfolding move_grant
      move_grant-IsValid source destination expiry =
          let less : State = deactivate_role_grant env s role source in
          let granted : Event = Event.role_granted destination role expiry in
          let revoked : Event = Event.role_revoked role source in
          let more : State → State = λ t. activate_role_grant t role destination expiry false in
          bind-Holds (Tracked less role) IsValid (track_role_in_all_roles less role)
            (λ t. ok (publish (publish (more t) granted) revoked))
            (track_role_in_all_roles-Tracked less role)
            (λ t k. published (publish (more t) granted) revoked (
              published (more t) granted (
                activated-IsValid t role destination expiry false
                  (Tracked-IsValid less role t (deactivated-IsValid env role source) k))))

      pub transfer_role_membership-IsValid :
          (source destination : Address)
          → Keeps (Calls.transfer_role_membership env s caller role source destination)
      unfolding Calls.transfer_role_membership
      transfer_role_membership-IsValid source destination =
          let from : Call (Unit {0}) =
            fail_if (not (has_role_internal env s source role)) AccessError.role_not_found in
          let to : Call (Unit {0}) =
            fail_if (has_role_internal env s destination role)
              AccessError.destination_already_has_role in
          let clear : Call (Unit {0}) =
            fail_if (is_blacklisted_internal s destination) AccessError.account_blacklisted in
          let move : ℕ → Call State = λ expiry. move_grant env s role source destination expiry in
          let at_expiry : Call State =
            ok_or (s.role_expiry role source) AccessError.role_not_found >>= λ (e : ℕ).
            clear >> move e in
          let rest : Call State = if source == destination then ok s else (to >> at_expiry) in
          then-Holds IsValid (as_role_manager env s caller role) (from >> rest) (
            then-Holds IsValid from rest (
              if-Holds IsValid (source == destination) (ok s) (to >> at_expiry) v (
                then-Holds IsValid to at_expiry (
                  ok_or-Holds IsValid (s.role_expiry role source) AccessError.role_not_found
                    (λ e. clear >> move e)
                    (λ e h.
                      then-Holds IsValid clear (move e)
                        (move_grant-IsValid source destination e))))))
