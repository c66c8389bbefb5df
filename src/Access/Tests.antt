-- ===== src/Access/Tests.antt =====
-- Runs of router-access, and its theorems at concrete inputs.
use stellar_router.Prelude.{
  ℕ, zero, suc, ◌+◌, ◌<◌, ◌≤◌, true, false, none, List, [], ◌∷◌, ◌≡◌, ◌↔◌, refl, arith, IsDistinct,
}
use stellar_router.Prelude.Words.{u32_max}
use stellar_router.Common.{Address, Env, ok}
use stellar_router.Access
use stellar_router.Access.{Role, Call, deployed}
use stellar_router.Access.Roles.{
  is_blacklisted_internal, has_direct_role_internal, has_role_internal,
}
use stellar_router.Access.Grants.{members_of, held_by, count_of, activate_role_grant}
use stellar_router.Access.Calls
use stellar_router.Access.Calls.{
  as_super_admin, as_role_manager, set_role_parent, transfer_role_membership, expire_role,
  blacklist, unblacklist, put_on, take_off, move_grant,
}
use stellar_router.Access.Invariant.{IsValid, deployed-IsValid}
use stellar_router.Access.Keeps.{activated-IsValid}
use stellar_router.Access.Hierarchy.{Above, Inherits, IsGrounded, has_role_internal_iff}
use stellar_router.Access.Parents.{set_role_parent-IsGrounded}
use stellar_router.Access.Transfer.{Moves, transfer_role_membership-Moves}
use stellar_router.Access.Expiry.{expire_role-activate_role_grant}
use stellar_router.Access.Counts.{unblacklist-blacklist}
use stellar_router.Access.History.{Request, unfold_calls, settle, unfold_calls-IsValid}

abbrev State : Type 0
State = Access.Access

abbrev at_time : ℕ → Env
at_time now = record { timestamp = now; authorized = λ a. true }

abbrev started : State
started = unfold_calls ((at_time 0, Request.initialize 1) ∷ []) deployed

started-IsValid : IsValid started
started-IsValid =
    unfold_calls-IsValid ((at_time 0, Request.initialize 1) ∷ []) deployed deployed-IsValid

-- The address 7 has the role 3 until the time 2000.
abbrev granted : State
granted = activate_role_grant started 3 7 2000 false

granted-IsValid : IsValid granted
granted-IsValid = activated-IsValid started 3 7 2000 false started-IsValid

abbrev result : Call State → State
result m = settle granted m

-- The roles from `r` on, each under the next.
abbrev links : ℕ → Role → List (Env × Request)
links zero r = []
links (suc n) r = (at_time 0, Request.set_role_parent 1 r (r + 1)) ∷ links n (r + 1)

-- Sixteen parents, each accepted, since the role above has no parent yet.
abbrev tower : State
tower = activate_role_grant (unfold_calls (links 16 1) started) 17 7 2000 false

-- The grant of the role 17 reaches the role 2, and not the role 1.
tower_runs :
    (has_role_internal (at_time 5) tower 7 2 ≡ true)
    × (has_role_internal (at_time 5) tower 7 1 ≡ false)
unfolding has_role_internal activate_role_grant unfold_calls Calls.initialize Calls.set_role_parent
tower_runs = (refl, refl)

unfold_calls-IsValid_example : IsValid (
    unfold_calls
      ((at_time 5, Request.transfer_role_membership 1 3 7 8)
        ∷ (at_time 6, Request.blacklist 1 8)
        ∷ [])
      granted)
unfold_calls-IsValid_example =
    unfold_calls-IsValid
      ((at_time 5, Request.transfer_role_membership 1 3 7 8)
        ∷ (at_time 6, Request.blacklist 1 8)
        ∷ [])
      granted granted-IsValid

has_role_internal_iff_example :
    (has_role_internal (at_time 5) granted 7 3 ≡ true)
    ↔ ((is_blacklisted_internal granted 7 ≡ false) × Inherits (at_time 5) granted 7 16 3)
has_role_internal_iff_example = has_role_internal_iff (at_time 5) granted 7 3

reparented :
    set_role_parent (at_time 5) granted 1 4 3
    ≡ ok (result (set_role_parent (at_time 5) granted 1 4 3))
unfolding set_role_parent activate_role_grant unfold_calls Calls.initialize
reparented = refl

set_role_parent-IsGrounded_example :
    IsGrounded (result (set_role_parent (at_time 5) granted 1 4 3)).role_parent
    × ((now : Env) (account : Address)
        → is_blacklisted_internal (result (set_role_parent (at_time 5) granted 1 4 3)) account
          ≡ false
        → (has_role_internal now (result (set_role_parent (at_time 5) granted 1 4 3)) account 4
            ≡ true)
          ↔ ((k : ℕ) × (a : Role) × Above
                (result (set_role_parent (at_time 5) granted 1 4 3)).role_parent
                k
                4
                a
              × (has_direct_role_internal now
                    (result (set_role_parent (at_time 5) granted 1 4 3))
                    account
                    a
                  ≡ true)))
set_role_parent-IsGrounded_example =
    set_role_parent-IsGrounded (at_time 5) granted 1 4 3 granted-IsValid.grounded
      (result (set_role_parent (at_time 5) granted 1 4 3)) reparented

moved :
    transfer_role_membership (at_time 5) granted 1 3 7 8
    ≡ ok (result (transfer_role_membership (at_time 5) granted 1 3 7 8))
unfolding transfer_role_membership activate_role_grant unfold_calls Calls.initialize
moved = refl

transfer_role_membership-Moves_example :
    Moves granted 3 7 8 (result (transfer_role_membership (at_time 5) granted 1 3 7 8))
transfer_role_membership-Moves_example =
    transfer_role_membership-Moves (at_time 5) granted 1 3 7 8
      (result (transfer_role_membership (at_time 5) granted 1 3 7 8)) refl moved

expired :
    expire_role (at_time 3000) granted 1 3 7
    ≡ ok (result (expire_role (at_time 3000) granted 1 3 7))
unfolding expire_role activate_role_grant unfold_calls Calls.initialize
expired = refl

expire_role-activate_role_grant_example :
    ((result (expire_role (at_time 3000) granted 1 3 7)).has_role 3 7 ≡ none)
    × ((result (expire_role (at_time 3000) granted 1 3 7)).role_expiry 3 7 ≡ none)
    × (members_of (result (expire_role (at_time 3000) granted 1 3 7)) 3 ≡ [])
    × (count_of (result (expire_role (at_time 3000) granted 1 3 7)) 3 ≡ 1)
unfolding unfold_calls Calls.initialize
expire_role-activate_role_grant_example =
    expire_role-activate_role_grant (at_time 3000) started 1 3 7 2000
      (result (expire_role (at_time 3000) granted 1 3 7)) refl refl refl (omega arith) expired

abbrev on_list : State
on_list = result (blacklist (at_time 5) granted 1 7)

abbrev off_list : State
off_list = result (unblacklist (at_time 5) on_list 1 7)

put_on_runs : blacklist (at_time 5) granted 1 7 ≡ ok on_list
unfolding blacklist activate_role_grant unfold_calls Calls.initialize
put_on_runs = refl

take_off_runs : unblacklist (at_time 5) on_list 1 7 ≡ ok off_list
unfolding blacklist unblacklist activate_role_grant unfold_calls Calls.initialize
take_off_runs = refl

held-IsDistinct : IsDistinct (held_by granted 7)
unfolding activate_role_grant unfold_calls Calls.initialize
held-IsDistinct = (refl, tt)

counted_positive :
    (r : Role) → has_direct_role_internal (at_time 5) granted 7 r ≡ true → 0 < count_of granted r
unfolding activate_role_grant unfold_calls Calls.initialize
counted_positive r h = ground arith

counted_narrow : (r : Role) → count_of granted r ≤ u32_max
unfolding activate_role_grant unfold_calls Calls.initialize
counted_narrow r = ground arith

not_listed : is_blacklisted_internal granted 7 ≡ false
unfolding activate_role_grant unfold_calls Calls.initialize
not_listed = refl

unblacklist-blacklist_example : count_of off_list 3 ≡ count_of granted 3
unblacklist-blacklist_example =
    unblacklist-blacklist (at_time 5) granted on_list off_list 1 7 not_listed held-IsDistinct
      counted_positive counted_narrow put_on_runs take_off_runs 3
