-- ===== src/Reconciler/Tests.antt =====
-- The theorems on the reconciler, at concrete executions.
use testkube.Base.{String, false, ◌≡◌, ◌↔◌, Option, some, List, [], ◌∷◌, All}
use testkube.Model.SuiteStatus.{SuiteStatus}
use testkube.Model.Status.{ExecutionStatus}
use testkube.Model.ExecutionResult.{empty_result, set_status}
use testkube.Model.Execution.{Execution, empty_execution}
use testkube.Model.Suite.{SuiteStepResult}
use testkube.Model.Repository.{Fetched, found}
use testkube.Reconciler.{Pod, ended, scan_steps}
use testkube.Reconciler.Suites.{Fine, scan_steps-passed_iff}

abbrev passed_execution : Execution
passed_execution = record empty_execution {
  id = "e1";
  execution_result = some (set_status ExecutionStatus.passed empty_result);
}

abbrev repository : String → Fetched Execution
repository id = found passed_execution

abbrev test_step : SuiteStepResult
test_step = record {
  step = some (record { test = "smoke"; delay = "" });
  execution = some passed_execution;
}

scan_steps-passed_iff_example :
    (scan_steps repository SuiteStatus.passed (test_step ∷ []) ≡ some (ended SuiteStatus.passed))
    ↔ All (Fine repository) (test_step ∷ [])
scan_steps-passed_iff_example = scan_steps-passed_iff repository (test_step ∷ [])

-- The job of the execution has one pod, which runs.
abbrev pods : String → Option (List Pod)
pods id = some (record { job_name = "e1"; failed = false; message = "" } ∷ [])
