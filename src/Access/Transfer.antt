-- ===== src/Access/Transfer.antt =====
-- `transfer_role_membership` of contracts/router-access/src/lib.rs.
use stellar_router.Prelude.{
  ℕ, Bool, true, false, not, ◌&&◌, ◌≡◌, sym, arith, Option, none, some, ◌==◌, if◌then◌else◌, List,
}
use mathlib.Core.Path.{subst}
use stellar_router.Common.{Address, Env, ok, ◌>>=◌, ◌>>◌, fail_if, ok_or}
use stellar_router.Common.Holds.{Holds, Holds-ok, bind-Holds, then-Holds, check-Holds, ok_or-Holds}
use stellar_router.Access
use stellar_router.Access.{Role, AccessError, Call, Event, publish}
use stellar_router.Access.Roles.{
  is_blacklisted_internal, has_role_internal, track_role_in_all_roles,
}
use stellar_router.Access.Grants.{deactivate_role_grant, activate_role_grant}
use stellar_router.Access.Calls.{as_role_manager, move_grant, transfer_role_membership}
use stellar_router.Access.Parents.{Tracked, track_role_in_all_roles-Tracked}

abbrev State : Type 0
State = Access.Access

-- What a transfer does to the grants: `destination` has the grant with the expiry that `source` had,
-- `source` has none, and the other grants and expiries are as they were.
pub record Moves (s : State) (role : Role) (source destination : Address) (t : State) : Type 0 where
  pub expiry : ℕ
  pub had : s.role_expiry role source ≡ some expiry
  pub given : t.has_role role destination ≡ some true
  pub same_expiry : t.role_expiry role destination ≡ some expiry
  pub taken : t.has_role role source ≡ none
  pub no_expiry : t.role_expiry role source ≡ none
  pub others :
      (r : Role) (a : Address)
      → (r == role && (a == source)) ≡ false
      → (r == role && (a == destination)) ≡ false
      → (t.has_role r a ≡ s.has_role r a) × (t.role_expiry r a ≡ s.role_expiry r a)
  pub not_blacklisted : is_blacklisted_internal s destination ≡ false

module _ (env : Env) (s : State) (role : Role) (source destination : Address)
    (ne : (source == destination) ≡ false) (expiry : ℕ)
    (h : s.role_expiry role source ≡ some expiry)
    (b : is_blacklisted_internal s destination ≡ false) where
  abbrev less : State
  less = deactivate_role_grant env s role source

  abbrev moved : State → State
  moved u =
      publish
        (publish (activate_role_grant u role destination expiry false)
          (Event.role_granted destination role expiry))
        (Event.role_revoked role source)

  less-Moves :
      (roles : Option (List Role))
      → Moves s role source destination (moved (record less { all_roles = roles }))
  unfolding activate_role_grant deactivate_role_grant
  less-Moves roles = record {
    expiry = expiry;
    had = h;
    given = ground arith;
    same_expiry = ground arith;
    taken = ground arith;
    no_expiry = ground arith;
    others = λ r a p q. (ground arith, ground arith);
    not_blacklisted = b;
  }

  move_grant-Moves :
      Holds (Moves s role source destination) (move_grant env s role source destination expiry)
  unfolding move_grant
  move_grant-Moves =
      bind-Holds (Tracked less role) (Moves s role source destination)
        (track_role_in_all_roles less role) (λ u. ok (moved u))
        (track_role_in_all_roles-Tracked less role)
        (λ u k.
          subst (λ (x : State). Moves s role source destination (moved x)) (sym k.only)
            (less-Moves k.all_roles))

-- A transfer of a role between two addresses that succeeds moves the grant: the destination, who is not
-- blacklisted, has it with the expiry that the source had, the source has no grant and no expiry left,
-- and all other grants and expiries are as they were.
pub transfer_role_membership-Moves :
    (env : Env) (s : State) (caller : Address) (role : Role) (source destination : Address)
    (t : State)
    → (source == destination) ≡ false
    → transfer_role_membership env s caller role source destination ≡ ok t
    → Moves s role source destination t
unfolding transfer_role_membership
transfer_role_membership-Moves env s caller role source destination t ne h =
    let P : State → Type 0 = Moves s role source destination in
    let from : Call (Unit {0}) =
      fail_if (not (has_role_internal env s source role)) AccessError.role_not_found in
    let to : Call (Unit {0}) =
      fail_if (has_role_internal env s destination role) AccessError.destination_already_has_role in
    let clear : Call (Unit {0}) =
      fail_if (is_blacklisted_internal s destination) AccessError.account_blacklisted in
    let move : ℕ → Call State = λ expiry. move_grant env s role source destination expiry in
    let at_expiry : Call State =
      ok_or (s.role_expiry role source) AccessError.role_not_found >>= λ (e : ℕ). clear >> move e in
    let rest : Bool → Call State = λ same. if same then ok s else (to >> at_expiry) in
    let all : Holds P (to >> at_expiry) = then-Holds P to at_expiry (
      ok_or-Holds P (s.role_expiry role source) AccessError.role_not_found (λ e. clear >> move e)
        (λ e k.
          check-Holds P clear (move e)
            (λ c. move_grant-Moves env s role source destination ne e k (ground arith)))) in
    Holds-ok P (as_role_manager env s caller role >> (from >> rest (source == destination))) t
      (then-Holds P (as_role_manager env s caller role) (from >> rest (source == destination)) (
        then-Holds P from (rest (source == destination))
          (subst (λ c. Holds P (rest c)) (sym ne) all)))
      h
