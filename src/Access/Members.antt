-- ===== src/Access/Members.antt =====
-- The bookkeeping of grants in contracts/router-access/src/lib.rs: the lists of members and of roles
-- against the grants themselves.
use stellar_router.Prelude.{
  ℕ, ◌++◌, Bool, true, false, ◌≡◌, sym, ap, inl, inr, arith, List, [], ◌∷◌, ◌==◌, if◌then◌else◌,
  is_some, unwrap_or, contains, contains-snoc, IsDistinct, snoc-IsDistinct, Bool-cases, ==→eq,
}
use mathlib.Core.Path.{subst}
use stellar_router.Common.{Address, Env}
use stellar_router.Access
use stellar_router.Access.{Role}
use stellar_router.Access.Grants.{
  remove_first, push_new, members_of, held_by, deactivate_role_grant, activate_role_grant,
}

abbrev State : Type 0
State = Access.Access

-- The grants, the members of roles, the roles of addresses and the expiries tell the same.
pub record IsConsistent (s : State) : Type 0 where
  pub members : (r : Role) (a : Address) → contains (members_of s r) a ≡ is_some (s.has_role r a)
  pub held : (r : Role) (a : Address) → contains (held_by s a) r ≡ is_some (s.has_role r a)
  pub expiries : (r : Role) (a : Address) → is_some (s.role_expiry r a) ≡ is_some (s.has_role r a)
  pub granted :
      (r : Role) (a : Address) → unwrap_or (s.has_role r a) false ≡ is_some (s.has_role r a)
  pub distinct_members : (r : Role) → IsDistinct (members_of s r)
  pub distinct_held : (a : Address) → IsDistinct (held_by s a)

contains-remove_first :
    (xs : List ℕ) (a b : ℕ)
    → IsDistinct xs
    → contains (remove_first a xs) b ≡ (if b == a then false else contains xs b)
contains-remove_first [] a b d = ground arith
contains-remove_first (x ∷ xs) a b d = elim (Bool-cases (x == a)) [
  | inl t ↦ ground (arith, d.0, ap (contains xs) {x = x} {y = a} (==→eq x a t), contains_at xs a b)
  | inr f ↦ ground (arith, contains-remove_first xs a b d.1)
]
  where
    contains_at : (xs : List ℕ) (a b : ℕ) → (b == a) ≡ true → contains xs b ≡ contains xs a
    contains_at xs a b h = ap (contains xs) (==→eq b a h)

remove_first-IsDistinct : (xs : List ℕ) (a : ℕ) → IsDistinct xs → IsDistinct (remove_first a xs)
remove_first-IsDistinct [] a d = tt
remove_first-IsDistinct (x ∷ xs) a d = elim (Bool-cases (x == a)) [
  | inl t ↦ subst IsDistinct {x = xs} (ground arith) d.1
  | inr f ↦
      subst IsDistinct {x = x ∷ remove_first a xs} (ground arith)
        (ground (arith, contains-remove_first xs a x d.1, d.0), remove_first-IsDistinct xs a d.1)
]

contains-push_new :
    (xs : List ℕ) (a b : ℕ) → contains (push_new xs a) b ≡ (if b == a then true else contains xs b)
contains-push_new xs a b = elim (Bool-cases (b == a)) [
  | inl t ↦ ground (arith, contains-snoc xs a b, ap (contains xs) (==→eq b a t))
  | inr f ↦ ground (arith, contains-snoc xs a b)
]

push_new-IsDistinct : (xs : List ℕ) (a : ℕ) → IsDistinct xs → IsDistinct (push_new xs a)
push_new-IsDistinct xs a d = elim (Bool-cases (contains xs a)) [
  | inl t ↦ subst IsDistinct {x = xs} (ground arith) d
  | inr f ↦ subst IsDistinct {x = xs ++ a ∷ []} (ground arith) (snoc-IsDistinct xs a d f)
]

-- One entry of a family of lists is replaced, and one entry of a family of flags with it.
at_place :
    (P : ℕ → ℕ → Type 0) (k l : ℕ)
    → ((j : ℕ) → P k j)
    → ((i j : ℕ) → (i == k) ≡ false → P i j)
    → (i j : ℕ) → P i j
at_place P k l f g i j = elim (Bool-cases (i == k)) [
  | inl t ↦ subst (λ m. P m j) (sym (==→eq i k t)) (f j)
  | inr h ↦ g i j h
]

module _ (s : State) (w : IsConsistent s) (role : Role) (account : Address) where
  module _ (env : Env) where
    abbrev less : State
    less = deactivate_role_grant env s role account

    less_members :
        (r : Role) (a : Address) → contains (members_of less r) a ≡ is_some (less.has_role r a)
    unfolding deactivate_role_grant
    less_members =
        at_place (λ r a. contains (members_of less r) a ≡ is_some (less.has_role r a)) role 0
          (λ a. ground (
            arith,
            contains-remove_first (members_of s role) account a (w.distinct_members role),
            w.members role a,
          ))
          (λ r a f. ground (arith, w.members r a))

    less_held : (a : Address) (r : Role) → contains (held_by less a) r ≡ is_some (less.has_role r a)
    unfolding deactivate_role_grant
    less_held =
        at_place (λ a r. contains (held_by less a) r ≡ is_some (less.has_role r a)) account 0
          (λ r. ground (
            arith,
            contains-remove_first (held_by s account) role r (w.distinct_held account),
            w.held r account,
          ))
          (λ a r f. ground (arith, w.held r a))

    pub deactivate_role_grant-IsConsistent : IsConsistent less
    unfolding deactivate_role_grant
    deactivate_role_grant-IsConsistent = record {
      members = less_members;
      held = λ r a. less_held a r;
      expiries = λ r a. ground (arith, w.expiries r a);
      granted = λ r a. ground (arith, w.granted r a);
      distinct_members = λ r.
          at_place (λ r a. IsDistinct (members_of less r)) role 0
            (λ a.
              subst IsDistinct {x = remove_first account (members_of s role)} (ground arith)
                (remove_first-IsDistinct (members_of s role) account (w.distinct_members role)))
            (λ r a f. subst IsDistinct {x = members_of s r} (ground arith) (w.distinct_members r)) r
            0;
      distinct_held = λ a.
          at_place (λ a r. IsDistinct (held_by less a)) account 0
            (λ r.
              subst IsDistinct {x = remove_first role (held_by s account)} (ground arith)
                (remove_first-IsDistinct (held_by s account) role (w.distinct_held account)))
            (λ a r f. subst IsDistinct {x = held_by s a} (ground arith) (w.distinct_held a)) a 0;
    }

  module _ (expiry : ℕ) (b : Bool) where
    abbrev more : State
    more = activate_role_grant s role account expiry b

    more_members :
        (r : Role) (a : Address) → contains (members_of more r) a ≡ is_some (more.has_role r a)
    unfolding activate_role_grant
    more_members =
        at_place (λ r a. contains (members_of more r) a ≡ is_some (more.has_role r a)) role 0
          (λ a. ground (arith, contains-push_new (members_of s role) account a, w.members role a))
          (λ r a f. ground (arith, w.members r a))

    more_held : (a : Address) (r : Role) → contains (held_by more a) r ≡ is_some (more.has_role r a)
    unfolding activate_role_grant
    more_held =
        at_place (λ a r. contains (held_by more a) r ≡ is_some (more.has_role r a)) account 0
          (λ r. ground (arith, contains-push_new (held_by s account) role r, w.held r account))
          (λ a r f. ground (arith, w.held r a))

    pub activate_role_grant-IsConsistent : IsConsistent more
    unfolding activate_role_grant
    activate_role_grant-IsConsistent = record {
      members = more_members;
      held = λ r a. more_held a r;
      expiries = λ r a. ground (arith, w.expiries r a);
      granted = λ r a. ground (arith, w.granted r a);
      distinct_members = λ r.
          at_place (λ r a. IsDistinct (members_of more r)) role 0
            (λ a.
              subst IsDistinct {x = push_new (members_of s role) account} (ground arith)
                (push_new-IsDistinct (members_of s role) account (w.distinct_members role)))
            (λ r a f. subst IsDistinct {x = members_of s r} (ground arith) (w.distinct_members r)) r
            0;
      distinct_held = λ a.
          at_place (λ a r. IsDistinct (held_by more a)) account 0
            (λ r.
              subst IsDistinct {x = push_new (held_by s account) role} (ground arith)
                (push_new-IsDistinct (held_by s account) role (w.distinct_held account)))
            (λ a r f. subst IsDistinct {x = held_by s a} (ground arith) (w.distinct_held a)) a 0;
    }
