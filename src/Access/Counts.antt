-- ===== src/Access/Counts.antt =====
-- The counts of members of contracts/router-access/src/lib.rs over `blacklist` and `unblacklist`.
use stellar_router.Prelude.{
  ℕ, ◌-◌, ◌<◌, ◌≤◌, Bool, true, false, ◌&&◌, ◌≡◌, refl, sym, ap, ◌∙◌, inl, inr, arith, List, [],
  ◌∷◌, ◌==◌, if◌then◌else◌, unwrap_or, Map, insert, remove, contains, IsDistinct, Bool-cases, ==→eq,
}
use mathlib.Core.Path.{subst}
use stellar_router.Prelude.Words.{u32_max}
use stellar_router.Common.{Address, Env, ok, ◌>>◌, fail_if}
use stellar_router.Common.Holds.{Holds, Holds-ok, then-Holds}
use stellar_router.Access
use stellar_router.Access.{Role, AccessError, Call, Event, publish}
use stellar_router.Access.Roles.{is_blacklisted_internal, has_direct_role_internal}
use stellar_router.Access.Grants.{
  held_by, count_of, shift, adjust_counts, adjust_role_member_counts_for_blacklist_change,
}
use stellar_router.Access.Calls.{as_super_admin, put_on, take_off, blacklist, unblacklist}
use stellar_router.Access.Invariant.{adjust_counts-only}

abbrev State : Type 0
State = Access.Access

-- A count after the adjustment: the roles in the list that the address holds, not expired, are shifted.
count_of-adjust_counts :
    (env : Env) (target : Address) (increment : Bool) (r : Role) (roles : List Role) (s : State)
    → IsDistinct roles
    → count_of (adjust_counts env s target increment roles) r ≡ (
        if contains roles r && has_direct_role_internal env s target r
        then shift increment (count_of s r)
        else count_of s r)
unfolding adjust_counts
count_of-adjust_counts env target increment r [] s d = refl
count_of-adjust_counts env target increment r (role ∷ roles) s d =
    let counted : State = record s {
      role_member_count = insert s.role_member_count role (shift increment (count_of s role));
    } in
    let next : Bool → State = λ b. if b then counted else s in
    let after : State → ℕ = λ t. count_of (adjust_counts env t target increment roles) r in
    elim (Bool-cases (has_direct_role_internal env s target role)) [
      | inl t ↦
          ap (λ b. after (next b)) t
          ∙ count_of-adjust_counts env target increment r roles counted d.1
          ∙ elim (Bool-cases (r == role)) [
            | inl b ↦
                let e : r ≡ role = ==→eq r role b in
                ground (
                  arith,
                  d.0,
                  t,
                  ap (contains roles) e,
                  ap (has_direct_role_internal env s target) e,
                  ap (count_of s) e,
                )
            | inr b ↦ ground arith
          ]
      | inr f ↦
          ap (λ b. after (next b)) f
          ∙ count_of-adjust_counts env target increment r roles s d.1
          ∙ elim (Bool-cases (r == role)) [
            | inl b ↦
                let e : r ≡ role = ==→eq r role b in
                ground (arith, ap (has_direct_role_internal env s target) e)
            | inr b ↦ ground arith
          ]
    ]

-- An address that is put on the blacklist and taken off it at one time counts as before.
module _ (env : Env) (s : State) (target : Address) (d : IsDistinct (held_by s target))
    (counted : (r : Role) → has_direct_role_internal env s target r ≡ true → 0 < count_of s r)
    (narrow : (r : Role) → count_of s r ≤ u32_max) where
  count_of-put_on :
      (r : Role)
      → count_of (put_on env s target) r ≡ (
          if contains (held_by s target) r && has_direct_role_internal env s target r
          then count_of s r - 1
          else count_of s r)
  unfolding put_on adjust_role_member_counts_for_blacklist_change
  count_of-put_on r = count_of-adjust_counts env target false r (held_by s target) s d

  abbrev off : Map ℕ → State
  off m =
      publish (record s { role_member_count = m; blacklisted = insert s.blacklisted target true })
        (Event.address_blacklisted target)

  put_on-off : (m : Map ℕ) × (put_on env s target ≡ off m)
  unfolding put_on adjust_role_member_counts_for_blacklist_change
  put_on-off =
      let (m, e) = adjust_counts-only env target false (held_by s target) s in
      (
        m,
        ap
            (λ (t : State).
              publish (record t { blacklisted = insert t.blacklisted target true })
                (Event.address_blacklisted target))
            e,
      )

  count_of-take_off :
      (r : Role) (m : Map ℕ)
      → unwrap_or (m r) 0 ≡ (
          if contains (held_by s target) r && has_direct_role_internal env s target r
          then count_of s r - 1
          else count_of s r)
      → count_of (take_off env (off m) target) r ≡ count_of s r
  unfolding take_off adjust_role_member_counts_for_blacklist_change
  count_of-take_off r m h =
      let t : State = record (off m) {
        blacklisted = remove (insert s.blacklisted target true) target;
      } in
      count_of-adjust_counts env target true r (held_by s target) t d
      ∙ elim (Bool-cases
          (contains (held_by s target) r && has_direct_role_internal env s target r)) [
            | inl b ↦ ground (arith, counted r (ground arith), narrow r, h)
            | inr b ↦ ground (arith, h)
          ]

  count_of-off_on :
      (r : Role) → count_of (take_off env (put_on env s target) target) r ≡ count_of s r
  count_of-off_on r =
      let (m, e) = put_on-off in
      ap (λ t. count_of (take_off env t target) r) e
      ∙ count_of-take_off r m (sym (ap (λ t. count_of t r) e) ∙ count_of-put_on r)

  pub put_on-blacklisted : is_blacklisted_internal (put_on env s target) target ≡ true
  unfolding put_on
  put_on-blacklisted = ground arith

blacklist-put_on :
    (env : Env) (s : State) (caller target : Address)
    → is_blacklisted_internal s target ≡ false
    → Holds (λ t. t ≡ put_on env s target) (blacklist env s caller target)
unfolding blacklist
blacklist-put_on env s caller target b =
    let P : State → Type 0 = λ t. t ≡ put_on env s target in
    let check : Call (Unit {0}) = fail_if (target == caller) AccessError.cannot_blacklist_admin in
    let rest : Bool → Call State = λ c. if c then ok s else ok (put_on env s target) in
    let c : Bool = is_blacklisted_internal s target in
    then-Holds P (as_super_admin env s caller) (check >> rest c)
      (then-Holds P check (rest c) (subst (λ x. Holds P (rest x)) (sym b) refl))

unblacklist-take_off :
    (env : Env) (s : State) (caller target : Address)
    → is_blacklisted_internal s target ≡ true
    → Holds (λ t. t ≡ take_off env s target) (unblacklist env s caller target)
unfolding unblacklist
unblacklist-take_off env s caller target b =
    let P : State → Type 0 = λ t. t ≡ take_off env s target in
    let rest : Bool → Call State = λ c. if c then ok (take_off env s target) else ok s in
    let c : Bool = is_blacklisted_internal s target in
    then-Holds P (as_super_admin env s caller) (rest c) (subst (λ x. Holds P (rest x)) (sym b) refl)

-- An address that is put on the blacklist and taken off it again at the same time leaves the count of
-- members of every role as it was, provided that the list of its roles names none twice, and that the
-- counts fit in 32 bits and are positive for the roles it holds.
pub unblacklist-blacklist :
    (env : Env) (s t u : State) (caller target : Address)
    → is_blacklisted_internal s target ≡ false
    → IsDistinct (held_by s target)
    → ((r : Role) → has_direct_role_internal env s target r ≡ true → 0 < count_of s r)
    → ((r : Role) → count_of s r ≤ u32_max)
    → blacklist env s caller target ≡ ok t
    → unblacklist env t caller target ≡ ok u
    → (r : Role) → count_of u r ≡ count_of s r
unblacklist-blacklist env s t u caller target b d counted narrow h k r =
    let on : t ≡ put_on env s target =
      Holds-ok (λ x. x ≡ put_on env s target) (blacklist env s caller target) t
        (blacklist-put_on env s caller target b) h in
    let listed : is_blacklisted_internal t target ≡ true =
      ap (λ x. is_blacklisted_internal x target) on
      ∙ put_on-blacklisted env s target d counted narrow in
    let off_again : u ≡ take_off env t target =
      Holds-ok (λ x. x ≡ take_off env t target) (unblacklist env t caller target) u
        (unblacklist-take_off env t caller target listed) k in
    ap (λ x. count_of x r) (off_again ∙ ap (λ x. take_off env x target) on)
    ∙ count_of-off_on env s target d counted narrow r
