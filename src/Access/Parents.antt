-- ===== src/Access/Parents.antt =====
-- `set_role_parent` of contracts/router-access/src/lib.rs.
use stellar_router.Prelude.{
  ℕ, ◌<◌, ◌++◌, true, false, ◌≡◌, refl, sym, ap, ◌∙◌, arith, Option, some, List, [], ◌∷◌, insert,
  contains, contains-snoc, ◌↔◌, length, leb, Bool-cases, inl, inr, if◌then◌else◌,
}
use mathlib.Core.Path.{subst}
use stellar_router.Common.{Address, Env, ok, ◌>>=◌, ◌>>◌, fail_if}
use stellar_router.Common.Holds.{Holds, Holds-ok, bind-Holds, then-Holds, check-Holds}
use stellar_router.Access
use stellar_router.Access.{Role, AccessError, Call, Event, publish}
use stellar_router.Access.Roles.{
  is_blacklisted_internal, has_direct_role_internal, has_role_internal, ensure_no_role_parent_cycle,
  track_role_in_all_roles, roles_of, role_limits_internal,
}
use stellar_router.Access.Calls.{as_super_admin, set_role_parent}
use stellar_router.Access.Hierarchy.{
  Above, Tops, IsGrounded, ensure_no_role_parent_cycle-IsGrounded, Above-le, has_role_internal_iff,
}

abbrev State : Type 0
State = Access.Access

-- Tracking a role changes the list of all roles only, and lists the role.
pub record Tracked (s : State) (role : Role) (t : State) : Type 0 where
  pub all_roles : Option (List Role)
  pub only : t ≡ record s { all_roles = all_roles }
  pub listed : contains (roles_of t) role ≡ true
  pub kept : (r : Role) → contains (roles_of s) r ≡ true → contains (roles_of t) r ≡ true

pub track_role_in_all_roles-Tracked :
    (s : State) (role : Role) → Holds (Tracked s role) (track_role_in_all_roles s role)
unfolding track_role_in_all_roles
track_role_in_all_roles-Tracked s role =
    let check : Call (Unit {0}) =
      fail_if (leb (role_limits_internal s).0 (length (roles_of s)))
        AccessError.max_roles_exceeded in
    let more : State = record s { all_roles = some (roles_of s ++ role ∷ []) } in
    elim (Bool-cases (contains (roles_of s) role)) [
      | inl b ↦
          subst (λ c. Holds (Tracked s role) (if c then ok s else (check >> ok more))) (sym b)
            (record { all_roles = s.all_roles; only = refl; listed = b; kept = λ r h. h })
      | inr b ↦
          subst (λ c. Holds (Tracked s role) (if c then ok s else (check >> ok more))) (sym b)
            (then-Holds (Tracked s role) check (ok more) (record {
              all_roles = some (roles_of s ++ role ∷ []);
              only = refl;
              listed = ground (arith, contains-snoc (roles_of s) role role);
              kept = λ r h. ground (arith, contains-snoc (roles_of s) role r);
            }))
    ]

-- What a new parent leaves: the chains of parents end, and the role's own is short enough to be walked.
pub record Reparents (s : State) (role parent : Role) (t : State) : Type 0 where
  pub parents : t.role_parent ≡ insert s.role_parent role parent
  pub grounded : IsGrounded t.role_parent
  pub depth : ℕ
  pub shallow : depth < 16
  pub tops : Tops t.role_parent depth role
  pub roles : Option (List Role)
  pub events : List Event
  pub only : t ≡ record s {
    role_parent = insert s.role_parent role parent;
    all_roles = roles;
    events = events;
  }

module _ (env : Env) (s : State) (caller : Address) (role parent : Role)
    (g : IsGrounded s.role_parent) where
  abbrev reparented : State → State
  reparented u =
      publish (record u { role_parent = insert u.role_parent role parent })
        (Event.role_parent_set role parent)

  reparented-Reparents :
      ensure_no_role_parent_cycle s role parent ≡ ok tt
      → (u : State) (roles : Option (List Role)) → u ≡ record s { all_roles = roles }
      → Reparents s role parent (reparented u)
  reparented-Reparents h u roles e =
      let (gr, (n, l, t)) = ensure_no_role_parent_cycle-IsGrounded s role parent g h in
      let eq : insert u.role_parent role parent ≡ insert s.role_parent role parent =
        ap (λ (x : State). insert x.role_parent role parent) e in
      record {
        parents = eq;
        grounded = subst IsGrounded (sym eq) gr;
        depth = n;
        shallow = l;
        tops = subst (λ m. Tops m n role) (sym eq) t;
        roles = roles;
        events = s.events ++ Event.role_parent_set role parent ∷ [];
        only = ap reparented e;
      }

  pub set_role_parent-Reparents :
      Holds (Reparents s role parent) (set_role_parent env s caller role parent)
  unfolding set_role_parent
  set_role_parent-Reparents =
      let P : State → Type 0 = Reparents s role parent in
      let final : State → Call State = λ u. ok (reparented u) in
      let second : State → Call State = λ t. track_role_in_all_roles t parent >>= final in
      let rest : Call State = track_role_in_all_roles s role >>= second in
      then-Holds P (as_super_admin env s caller) (ensure_no_role_parent_cycle s role parent >> rest)
        (check-Holds P (ensure_no_role_parent_cycle s role parent) rest (λ h.
          bind-Holds (Tracked s role) P (track_role_in_all_roles s role) second
            (track_role_in_all_roles-Tracked s role)
            (λ a k.
              bind-Holds (Tracked a parent) P (track_role_in_all_roles a parent) final
                (track_role_in_all_roles-Tracked a parent)
                (λ b k'.
                  reparented-Reparents h b k'.all_roles
                    (k'.only ∙ ap (λ (x : State). record x { all_roles = k'.all_roles }) k.only)))))

  -- Where every chain of parents ends, it does so after `set_role_parent` too, so no cycle arises; and
  -- then an address that is not blacklisted has the role exactly when it holds, itself and not expired,
  -- the role or one at any height above it: the bound of 15 parents cuts nothing off.
  pub set_role_parent-IsGrounded :
      (t : State)
      → set_role_parent env s caller role parent ≡ ok t
      → IsGrounded t.role_parent
        × ((now : Env) (account : Address)
            → is_blacklisted_internal t account ≡ false
            → (has_role_internal now t account role ≡ true) ↔ (
                (k : ℕ) × (a : Role) × Above t.role_parent k role a
                × (has_direct_role_internal now t account a ≡ true)))
  set_role_parent-IsGrounded t h =
      let r : Reparents s role parent t =
        Holds-ok (Reparents s role parent) (set_role_parent env s caller role parent) t
          set_role_parent-Reparents h in
      (
        r.grounded,
        λ now account b.
            let w = has_role_internal_iff now t account role in
            (
              (λ e. let (n, (k, a, l, u, d)) = w.0 e in (k, a, u, d)),
              (λ (k, a, u, d). w.1 (
                b,
                (
                  k,
                  a,
                  omega (arith, Above-le t.role_parent r.depth k role a r.tops u, r.shallow),
                  u,
                  d,
                ),
              )),
            ),
      )
