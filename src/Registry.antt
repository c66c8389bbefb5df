-- ===== src/Registry.antt =====
-- contracts/router-registry/src/lib.rs: contract addresses by name and version. This file has the stored
-- data; the children have the entries, the version constraints, the look-ups, the calls and the proofs.
--
-- `Registry` has one field for each kind of `DataKey`. Contract names are compared and stored, never
-- inspected, so they are numbers, as addresses are; the texts of constraints are their bytes.
pub mod Entries
pub mod Constraint
pub mod Lookup
pub mod Calls
pub mod Bulk
pub mod Invariant
pub mod Write
pub mod Writes
pub mod Tracks
pub mod InOrder
pub mod BatchWrites
pub mod Valid
pub mod History
pub mod Scan
pub mod Latest
pub mod RoundTrip
pub mod Retire
mod Tests
use stellar_router.Prelude.{ℕ, String, Bool, Option, none, List, [], ◌∷◌, ◌++◌, Map, empty}
use stellar_router.Common.{Address, Outcome}

abbrev pub Name : Type 0
Name = ℕ

pub record ContractEntry : Type 0 where
  pub address : Address
  pub name : Name
  pub version : ℕ
  pub deprecated : Bool
  pub registered_by : Address
  pub deprecation_reason : Option String

pub record BulkRegistrationInput : Type 0 where
  pub name : Name
  pub address : Address
  pub version : ℕ

pub data RegistryError : Type 0 where
  already_initialized not_initialized unauthorized not_found already_registered : RegistryError
  already_deprecated invalid_version version_not_found invalid_constraint : RegistryError
  all_versions_deprecated contract_unreachable invalid_health_fn batch_too_large : RegistryError

pub data ConstraintOperator : Type 0 where
  gte lte gt lt caret tilde exact : ConstraintOperator

pub data Event : Type 0 where
  contract_registered : Name → ℕ → Address → Event
  contract_deprecated : Name → ℕ → Option String → Event
  batch_executed : Address → String → ℕ → ℕ → Event
  admin_transferred : Address → Address → Event

pub record Registry : Type 0 where
  pub admin : Option Address
  pub entries : Name → Map ContractEntry
  pub versions : Map (List ℕ)
  pub contract_names : Option (List Name)
  pub address_index : Map (Name × ℕ)
  pub events : List Event

-- The storage of a contract that has just been deployed.
abbrev pub deployed : Registry
deployed = record {
  admin = none;
  entries = λ name. empty;
  versions = empty;
  contract_names = none;
  address_index = empty;
  events = [];
}

-- The result of a call that may fail.
abbrev pub Call : Type 0 → Type 0
Call A = Outcome RegistryError A

-- `env.events().publish(..)`
abbrev pub publish : Registry → Event → Registry
publish s e = record s { events = s.events ++ e ∷ [] }

-- `MAX_CONSTRAINT_LEN` and `MAX_BULK_BATCH_SIZE`.
abbrev pub max_constraint_len : ℕ
max_constraint_len = 32

abbrev pub max_bulk_batch_size : ℕ
max_bulk_batch_size = 50
