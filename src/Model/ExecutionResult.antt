-- ===== src/Model/ExecutionResult.antt =====
-- pkg/api/v1/testkube/model_execution_result_extended.go.
use testkube.Base.{
  ℕ, suc, String, Bool, true, ◌==◌, Option, none, some, List, [], ◌∷◌, not, if◌then◌else◌, ◌>>=◌,
}
use testkube.Model.Status
use testkube.Model.Status.{ExecutionStatus, status_text}

pub record StepResult : Type 0 where
  pub name : String
  pub duration : String
  pub status : String

pub record ExecutionResult : Type 0 where
  pub status : Option ExecutionStatus
  pub output : String
  pub output_type : String
  pub error_message : String
  pub steps : List StepResult
  pub reports : Option String  -- the junit report

-- `&ExecutionResult{}`
abbrev pub empty_result : ExecutionResult
empty_result = record {
  status = none;
  output = "";
  output_type = "";
  error_message = "";
  steps = [];
  reports = none;
}

abbrev pub set_status : ExecutionStatus → ExecutionResult → ExecutionResult
set_status s e = record e { status = some s }

abbrev pub abort : ExecutionResult → ExecutionResult
abort e = set_status ExecutionStatus.aborted e

abbrev pub timeout : ExecutionResult → ExecutionResult
timeout e = set_status ExecutionStatus.timeout e

abbrev pub in_progress : ExecutionResult → ExecutionResult
in_progress e = set_status ExecutionStatus.running e

abbrev pub success : ExecutionResult → ExecutionResult
success e = set_status ExecutionStatus.passed e

-- `e.Err(err)`, with the text of the error
abbrev pub err : String → ExecutionResult → ExecutionResult
err message e = record e { status = some ExecutionStatus.failed; error_message = message }

-- `*e.Status == …`; `none` is the nil dereference.
abbrev pub test_status : (ExecutionStatus → Bool) → ExecutionResult → Option Bool
test_status p e = elim e.status [ none ↦ none | some s ↦ some (p s) ]

abbrev pub is_running : ExecutionResult → Option Bool
is_running = test_status Status.is_running

abbrev pub is_queued : ExecutionResult → Option Bool
is_queued = test_status Status.is_queued

abbrev pub is_passed : ExecutionResult → Option Bool
is_passed = test_status Status.is_passed

abbrev pub is_failed : ExecutionResult → Option Bool
is_failed = test_status Status.is_failed

abbrev pub is_aborted : ExecutionResult → Option Bool
is_aborted = test_status Status.is_aborted

abbrev pub is_timeout : ExecutionResult → Option Bool
is_timeout = test_status Status.is_timeout

-- `e.IsPassed() || e.IsFailed()`
abbrev pub is_completed : ExecutionResult → Option Bool
is_completed e = is_passed e >>= λ b. if b then some true else is_failed e

-- `WithErrors`: the first error of the list that is not nil.
unfoldable pub with_errors : List (Option String) → ExecutionResult → ExecutionResult
with_errors [] e = e
with_errors (none ∷ es) e = with_errors es e
with_errors (some message ∷ es) e = err message e

abbrev not_passed : StepResult → Bool
not_passed s = not (s.status == status_text ExecutionStatus.passed)

unfoldable pub failed_steps : List StepResult → List StepResult
failed_steps [] = []
failed_steps (s ∷ ss) = let rest = failed_steps ss in if not_passed s then s ∷ rest else rest

unfoldable pub failed_steps_count : List StepResult → ℕ
failed_steps_count [] = 0
failed_steps_count (s ∷ ss) =
    let rest = failed_steps_count ss in if not_passed s then suc rest else rest
