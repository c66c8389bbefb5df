-- ===== src/Access.antt =====
-- contracts/router-access/src/lib.rs: roles of addresses. This file has the stored data; the children have
-- the checks, the bookkeeping of grants, the calls, the queries and the proofs.
--
-- `Access` has one field for each kind of `DataKey`. Role names are compared and stored, never inspected,
-- so they are numbers, as addresses are.
pub mod Roles
pub mod Grants
pub mod Calls
pub mod Views
pub mod Hierarchy
pub mod Parents
pub mod Members
pub mod Invariant
pub mod Keeps
pub mod History
pub mod Transfer
pub mod Expiry
pub mod Counts
mod Tests
use stellar_router.Prelude.{ℕ, Bool, Option, none, some, List, [], ◌∷◌, ◌++◌, Map, empty}
use stellar_router.Common.{Address, Outcome}

abbrev pub Role : Type 0
Role = ℕ

pub data AccessError : Type 0 where
  already_initialized not_initialized unauthorized already_has_role role_not_found : AccessError
  account_blacklisted cannot_blacklist_admin destination_already_has_role : AccessError
  hierarchy_cycle invalid_expiry hierarchy_too_deep : AccessError
  max_roles_exceeded max_grants_per_role_exceeded : AccessError

pub data Event : Type 0 where
  role_limits_set : ℕ → ℕ → Event
  role_granted : Address → Role → ℕ → Event
  role_revoked role_expired : Role → Address → Event
  role_admin_set : Role → Address → Event
  role_parent_set : Role → Role → Event
  address_blacklisted address_unblacklisted : Address → Event
  admin_transferred : Address → Address → Event

pub record Access : Type 0 where
  pub super_admin : Option Address
  pub has_role : Role → Map Bool
  pub role_admin : Map Address
  pub blacklisted : Map Bool
  pub role_members : Map (List Address)
  pub role_member_count : Map ℕ
  pub address_roles : Map (List Role)
  pub role_expiry : Role → Map ℕ
  pub role_parent : Map Role
  pub all_roles : Option (List Role)
  pub role_limits : Option (ℕ × ℕ)
  pub events : List Event

-- The storage of a contract that has just been deployed.
abbrev pub deployed : Access
deployed = record {
  super_admin = none;
  has_role = λ role. empty;
  role_admin = empty;
  blacklisted = empty;
  role_members = empty;
  role_member_count = empty;
  address_roles = empty;
  role_expiry = λ role. empty;
  role_parent = empty;
  all_roles = none;
  role_limits = none;
  events = [];
}

-- The result of a call that may fail.
abbrev pub Call : Type 0 → Type 0
Call A = Outcome AccessError A

-- `env.events().publish(..)`
abbrev pub publish : Access → Event → Access
publish s e = record s { events = s.events ++ e ∷ [] }

-- `MAX_HIERARCHY_DEPTH`, `DEFAULT_MAX_ROLES` and `DEFAULT_MAX_GRANTS_PER_ROLE`.
abbrev pub max_hierarchy_depth : ℕ
max_hierarchy_depth = 16

abbrev pub default_max_roles : ℕ
default_max_roles = 100

abbrev pub default_max_grants_per_role : ℕ
default_max_grants_per_role = 1000
