-- ===== src/Model/Execution.antt =====
-- pkg/api/v1/testkube/model_execution_extended.go.
use testkube.Base.{ℕ, String, Bool, true, ◌==◌, Option, none, some, if◌then◌else◌}
use testkube.Model.Status
use testkube.Model.Status.{ExecutionStatus}
use testkube.Model.ExecutionResult
use testkube.Model.ExecutionResult.{ExecutionResult, empty_result, set_status}

-- The fields of `Execution` that the modelled code reads or writes.
pub record Execution : Type 0 where
  pub id : String
  pub name : String
  pub number : ℕ
  pub test_name : String
  pub test_type : String
  pub start_time : ℕ
  pub end_time : ℕ
  pub execution_result : Option ExecutionResult
  pub storage_class_name : Option String  -- of `ArtifactRequest`, if there is one

abbrev pub empty_execution : Execution
empty_execution = record {
  id = "";
  name = "";
  number = 0;
  test_name = "";
  test_type = "";
  start_time = 0;
  end_time = 0;
  execution_result = none;
  storage_class_name = none;
}

-- The result, or a new one if it is nil.
abbrev pub result_or_empty : Option ExecutionResult → ExecutionResult
result_or_empty none = empty_result
result_or_empty (some r) = r

abbrev pub err : String → Execution → Execution
err message e = record e {
  execution_result = some (ExecutionResult.err message (result_or_empty e.execution_result));
}

-- `Errw`: also sets the id. The text is that of `fmt.Errorf(msg, err)`.
abbrev pub errw : String → String → Execution → Execution
errw id message e = record (err message e) { id = id }

-- `if e.ExecutionResult == nil { return true }; return *e.ExecutionResult.Status == …`
abbrev pub test_status : (ExecutionStatus → Bool) → Execution → Option Bool
test_status p e = elim e.execution_result [
  | none ↦ some true
  | some r ↦ ExecutionResult.test_status p r
]

abbrev pub is_running : Execution → Option Bool
is_running = test_status Status.is_running

abbrev pub is_queued : Execution → Option Bool
is_queued = test_status Status.is_queued

abbrev pub is_passed : Execution → Option Bool
is_passed = test_status Status.is_passed

abbrev pub is_failed : Execution → Option Bool
is_failed = test_status Status.is_failed

abbrev pub is_aborted : Execution → Option Bool
is_aborted = test_status Status.is_aborted

abbrev pub is_timeout : Execution → Option Bool
is_timeout = test_status Status.is_timeout

abbrev pub new_failed : String → String → Execution
new_failed id message = record empty_execution {
  id = id;
  execution_result =
      some (record empty_result { status = some ExecutionStatus.failed; error_message = message });
}

abbrev pub new_queued : Execution
new_queued = record empty_execution {
  execution_result = some (set_status ExecutionStatus.queued empty_result);
}

-- `WithID`, with the generated object id as an argument.
abbrev pub with_id : String → Execution → Execution
with_id generated e = if e.id == "" then record e { id = generated } else e
