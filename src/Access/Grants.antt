-- ===== src/Access/Grants.antt =====
-- The bookkeeping of grants in contracts/router-access/src/lib.rs.
use stellar_router.Prelude.{
  ℕ, ◌-◌, Bool, true, false, List, [], ◌∷◌, ◌++◌, ◌==◌, if◌then◌else◌, unwrap_or, contains, insert,
  insert_at, remove_at,
}
use stellar_router.Prelude.Words.{saturating_add_u32}
use stellar_router.Common.{Address, Env}
use stellar_router.Access
use stellar_router.Access.{Role}
use stellar_router.Access.Roles.{has_direct_role_internal, has_role_internal}

abbrev State : Type 0
State = Access.Access

-- The list without the first element that is `a`: `position`, then `remove`.
abbrev pub remove_first : ℕ → List ℕ → List ℕ
remove_first a [] = []
remove_first a (x ∷ xs) = if x == a then xs else x ∷ remove_first a xs

abbrev pub members_of : State → Role → List Address
members_of s role = unwrap_or (s.role_members role) []

abbrev pub held_by : State → Address → List Role
held_by s account = unwrap_or (s.address_roles account) []

abbrev pub count_of : State → Role → ℕ
count_of s role = unwrap_or (s.role_member_count role) 0

unfoldable pub deactivate_role_grant : Env → State → Role → Address → State
deactivate_role_grant env s role target =
    let was_active = has_role_internal env s target role in
    record s {
      has_role = remove_at s.has_role role target;
      role_member_count =
          if was_active
          then insert s.role_member_count role (count_of s role - 1)
          else s.role_member_count;
      role_members = insert s.role_members role (remove_first target (members_of s role));
      address_roles = insert s.address_roles target (remove_first role (held_by s target));
      role_expiry = remove_at s.role_expiry role target;
    }

-- `if !xs.iter().any(..) { xs.push_back(a) }`
abbrev pub push_new : List ℕ → ℕ → List ℕ
push_new xs a = if contains xs a then xs else xs ++ a ∷ []

unfoldable pub activate_role_grant : State → Role → Address → ℕ → Bool → State
activate_role_grant s role account expiry_timestamp was_already_active = record s {
  has_role = insert_at s.has_role role account true;
  role_members = insert s.role_members role (push_new (members_of s role) account);
  role_member_count =
      if was_already_active
      then s.role_member_count
      else insert s.role_member_count role (saturating_add_u32 (count_of s role) 1);
  address_roles = insert s.address_roles account (push_new (held_by s account) role);
  role_expiry = insert_at s.role_expiry role account expiry_timestamp;
}

-- A count one up or one down.
abbrev pub shift : Bool → ℕ → ℕ
shift true n = saturating_add_u32 n 1
shift false n = n - 1

-- The loop over the roles of an address.
unfoldable pub adjust_counts : Env → State → Address → Bool → List Role → State
adjust_counts env s target increment [] = s
adjust_counts env s target increment (role ∷ roles) =
    adjust_counts env
      (if has_direct_role_internal env s target role
        then record s {
          role_member_count = insert s.role_member_count role (shift increment (count_of s role));
        }
        else s)
      target increment roles

unfoldable pub adjust_role_member_counts_for_blacklist_change : Env → State → Address → Bool → State
unfolding adjust_counts
adjust_role_member_counts_for_blacklist_change env s target increment =
    adjust_counts env s target increment (held_by s target)
