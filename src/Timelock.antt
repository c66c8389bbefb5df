-- ===== src/Timelock.antt =====
-- contracts/router-timelock/src/lib.rs: a queue of delayed operations. This file has the stored data;
-- the children have the calls and their proofs.
--
-- `Timelock` has one field for each kind of `DataKey`. An entry that is absent from the storage is
-- `none`. Operation identifiers are SHA-256 digests, numbers here. The published events follow the
-- storage, the oldest first.
pub mod Deps
pub mod Calls
pub mod Cleanup
pub mod Status
pub mod Invariant
pub mod Outcomes
pub mod Sweeping
pub mod Reclaim
pub mod Live
pub mod Preserve
pub mod History
pub mod Lifecycle
pub mod Refinement
pub mod Once
pub mod Digest
pub mod ExecutedOnce
pub mod Depth
pub mod Executing
pub mod Queueing
pub mod StatusLaws
pub mod Queries
mod Tests
use stellar_router.Prelude.{ℕ, String, Bool, Option, none, List, [], ◌∷◌, ◌++◌, Map, empty}
use stellar_router.Common.{Address, Outcome}

abbrev pub OpId : Type 0
OpId = ℕ

pub record Op : Type 0 where
  pub proposer : Address
  pub description : String
  pub target : Address
  pub eta : ℕ
  pub grace_period_seconds : ℕ
  pub executed : Bool
  pub cancelled : Bool

pub data OperationStatus : Type 0 where
  queued ready executed cancelled expired blocked : OperationStatus

pub data TimelockError : Type 0 where
  already_initialized not_initialized unauthorized not_found not_ready : TimelockError
  already_executed cancelled delay_too_short expired queue_full : TimelockError
  circular_dependency dependency_too_deep already_queued dependency_not_executed : TimelockError
  grace_period_too_long expiry_overflow delay_too_long : TimelockError

pub data Event : Type 0 where
  op_queued : OpId → Address → ℕ → ℕ → Event
  op_cancelled : OpId → Event
  op_executed : OpId → Address → Event
  op_description_updated : OpId → String → Event
  ops_cleaned : ℕ → Event
  min_delay_updated : ℕ → ℕ → Event
  admin_transferred : Address → Address → Event

pub record Timelock : Type 0 where
  pub admin : Option Address
  pub min_delay : Option ℕ
  pub ops : Map Op
  pub pending_ops : Option (List OpId)
  pub max_pending_ops : Option ℕ
  pub deps : Map (List OpId)
  pub finalized_ops : Option (List OpId)
  pub events : List Event

-- The storage of a contract that has just been deployed.
abbrev pub deployed : Timelock
deployed = record {
  admin = none;
  min_delay = none;
  ops = empty;
  pending_ops = none;
  max_pending_ops = none;
  deps = empty;
  finalized_ops = none;
  events = [];
}

-- The result of a call that may fail.
abbrev pub Call : Type 0 → Type 0
Call A = Outcome TimelockError A

-- `env.events().publish(..)`
abbrev pub publish : Timelock → Event → Timelock
publish s e = record s { events = s.events ++ e ∷ [] }

-- `RouterTimelock::MAX_DEPENDENCY_DEPTH`
abbrev pub max_dependency_depth : ℕ
max_dependency_depth = 8

-- `RouterTimelock::MAX_GRACE_PERIOD_SECONDS`, 30 days.
abbrev pub max_grace_period_seconds : ℕ
max_grace_period_seconds = 2592000
