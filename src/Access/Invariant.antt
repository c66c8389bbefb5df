-- ===== src/Access/Invariant.antt =====
-- Well-formedness of the storage of router-access, and the calls that keep it.
use stellar_router.Prelude.{
  ℕ, Bool, false, ◌≡◌, refl, sym, ap, ◌∙◌, inl, inr, arith, Option, none, some, List, [], ◌∷◌,
  if◌then◌else◌, unwrap_or, Map, insert, Bool-cases, Option-cases,
}
use mathlib.Core.Path.{subst}
use stellar_router.Common.{Address, Env, ok}
use stellar_router.Common.Holds.{Holds}
use stellar_router.Access
use stellar_router.Access.{Role, AccessError, Call, Event, publish, deployed}
use stellar_router.Access.Roles.{
  is_blacklisted_internal, has_direct_role_internal, require_super_admin,
}
use stellar_router.Access.Grants.{count_of, shift, adjust_counts}
use stellar_router.Access.Calls.{as_super_admin}
use stellar_router.Access.Hierarchy.{Tops, IsGrounded}
use stellar_router.Access.Members.{IsConsistent}

abbrev State : Type 0
State = Access.Access

-- The storage between calls: consistent grants, chains of parents that end, and a super-admin who is not
-- blacklisted; before there is one, nobody is.
pub record IsValid (s : State) : Type 0 where
  pub consistent : IsConsistent s
  pub grounded : IsGrounded s.role_parent
  pub admin_clear : (a : Address) → s.super_admin ≡ some a → is_blacklisted_internal s a ≡ false
  pub nobody : s.super_admin ≡ none → (a : Address) → is_blacklisted_internal s a ≡ false

abbrev pub Keeps : Call State → Type 0
Keeps m = Holds IsValid m

-- The fields that only some calls write.
module _ (s : State) (w : IsConsistent s) where
  pub remade :
      (admin : Option Address) (blacklisted : Map Bool) (admins : Map Address) (counts : Map ℕ)
      (parents : Map Role) (roles : Option (List Role)) (limits : Option (ℕ × ℕ))
      (events : List Event)
      → IsConsistent (record s {
        super_admin = admin;
        blacklisted = blacklisted;
        role_admin = admins;
        role_member_count = counts;
        role_parent = parents;
        all_roles = roles;
        role_limits = limits;
        events = events;
      })
  remade admin blacklisted admins counts parents roles limits events = record {
    members = w.members;
    held = w.held;
    expiries = w.expiries;
    granted = w.granted;
    distinct_members = w.distinct_members;
    distinct_held = w.distinct_held;
  }

-- Neither counts, role administrators, the list of roles, limits nor events matter.
module _ (s : State) (v : IsValid s) where
  pub untouched :
      (admins : Map Address) (counts : Map ℕ) (roles : Option (List Role)) (limits : Option (ℕ × ℕ))
      (events : List Event)
      → IsValid (record s {
        role_admin = admins;
        role_member_count = counts;
        all_roles = roles;
        role_limits = limits;
        events = events;
      })
  untouched admins counts roles limits events = record {
    consistent =
        remade s v.consistent s.super_admin s.blacklisted admins counts s.role_parent roles limits
          events;
    grounded = v.grounded;
    admin_clear = v.admin_clear;
    nobody = v.nobody;
  }

  -- Other grants.
  pub regranted :
      (t : State)
      → t.super_admin ≡ s.super_admin
      → t.blacklisted ≡ s.blacklisted
      → t.role_parent ≡ s.role_parent
      → IsConsistent t
      → IsValid t
  regranted t ea eb ep c = record {
    consistent = c;
    grounded = subst IsGrounded (sym ep) v.grounded;
    admin_clear =
        λ a h. ap (λ (m : Map Bool). unwrap_or (m a) false) eb ∙ v.admin_clear a (sym ea ∙ h);
    nobody = λ h a. ap (λ (m : Map Bool). unwrap_or (m a) false) eb ∙ v.nobody (sym ea ∙ h) a;
  }

pub deployed-IsValid : IsValid deployed
deployed-IsValid = record {
  consistent = record {
    members = λ r a. refl;
    held = λ r a. refl;
    expiries = λ r a. refl;
    granted = λ r a. refl;
    distinct_members = λ r. tt;
    distinct_held = λ a. tt;
  };
  grounded = λ r. (0, Tops.top r refl);
  admin_clear = λ a h. refl;
  nobody = λ h a. refl;
}

pub as_super_admin-admin :
    (env : Env) (s : State) (caller : Address)
    → as_super_admin env s caller ≡ ok tt
    → s.super_admin ≡ some caller
unfolding as_super_admin require_super_admin
as_super_admin-admin env s caller h = elim (Option-cases s.super_admin) [
  | inl e ↦ absurd (ground arith)
  | inr (a, e) ↦ ground arith
]

-- The counts alone change.
pub adjust_counts-only :
    (env : Env) (target : Address) (increment : Bool) (roles : List Role) (s : State)
    → (m : Map ℕ) × (adjust_counts env s target increment roles
        ≡ record s { role_member_count = m })
unfolding adjust_counts
adjust_counts-only env target increment [] s = (s.role_member_count, refl)
adjust_counts-only env target increment (role ∷ roles) s =
    let counted : State = record s {
      role_member_count = insert s.role_member_count role (shift increment (count_of s role));
    } in
    elim (Bool-cases (has_direct_role_internal env s target role)) [
      | inl t ↦
          let (m, e) = adjust_counts-only env target increment roles counted in
          (m, ap (λ b. adjust_counts env (if b then counted else s) target increment roles) t ∙ e)
      | inr f ↦
          let (m, e) = adjust_counts-only env target increment roles s in
          (m, ap (λ b. adjust_counts env (if b then counted else s) target increment roles) f ∙ e)
    ]
