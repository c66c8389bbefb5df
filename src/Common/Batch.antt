-- ===== src/Common/Batch.antt =====
-- The results of batches in contracts/router-common/src/lib.rs.
use stellar_router.Prelude.{ℕ, String, Bool, List, [], ◌∷◌, ◌++◌}
use stellar_router.Common.{Address}

-- A call of a batch: function names are compared and stored only.
pub record CallResult : Type 0 where
  pub target : Address
  pub function : ℕ
  pub success : Bool

pub record BatchSuccess : Type 0 where
  pub index : ℕ

pub record BatchCallSuccess : Type 0 where
  pub index : ℕ
  pub result : CallResult

pub data BatchItemError : Type 0 where
  already_exists invalid_name unauthorized invalid_metadata : BatchItemError
  custom : String → BatchItemError

pub record BatchFailure : Type 0 where
  pub index : ℕ
  pub error : BatchItemError

pub record BatchResult : Type 0 where
  pub successes : List BatchSuccess
  pub failures : List BatchFailure

pub record BatchCallResult : Type 0 where
  pub successes : List BatchCallSuccess
  pub failures : List BatchFailure

abbrev pub batch_record_failure : List BatchFailure → ℕ → BatchItemError → List BatchFailure
batch_record_failure failures index error = failures ++ record { index = index; error = error } ∷ []

-- `BatchResult::new`
abbrev pub empty_result : BatchResult
empty_result = record { successes = []; failures = [] }

abbrev pub record_success : BatchResult → ℕ → BatchResult
record_success r index = record r { successes = r.successes ++ record { index = index } ∷ [] }

abbrev pub record_failure : BatchResult → ℕ → BatchItemError → BatchResult
record_failure r index error = record r { failures = batch_record_failure r.failures index error }
