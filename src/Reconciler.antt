-- ===== src/Reconciler.antt =====
-- pkg/reconciler: executions that are stored as running although nothing runs them any more.
pub mod Suites
pub mod Pods
mod Tests
use testkube.Base.{
  String, Bool, true, false, ◌&&◌, ◌==◌, not, Option, none, some, List, [], ◌∷◌, ◌++◌, map, any,
  Result, ok, err, concat, if◌then◌else◌, ◌>>=◌,
}
use testkube.Model.Status.{ExecutionStatus}
use testkube.Model.SuiteStatus.{SuiteStatus}
use testkube.Model.ExecutionResult
use testkube.Model.ExecutionResult.{ExecutionResult, empty_result}
use testkube.Model.Execution
use testkube.Model.Execution.{Execution}
use testkube.Model.Suite.{
  SuiteStep, StepType, SuiteStepResult, BatchResult, SuiteExecution, step_type,
}
use testkube.Model.Repository.{Fetched, found, no_documents, get_failed}

abbrev pub abnormally_terminated : String
abnormally_terminated = "test execution was abnormally terminated"

-- A pod that `GetJobPods` returns: its `job-name` label, is its phase failed, and its message.
pub record Pod : Type 0 where
  pub job_name : String
  pub failed : Bool
  pub message : String

-- What a loop over the pods of a job finds: a failed pod, one that has not failed, or none of the job.
pub data PodScan : Type 0 where
  failed_pod : String → PodScan
  other_pod no_pod : PodScan

unfoldable pub scan_pods : String → List Pod → PodScan
scan_pods id [] = no_pod
scan_pods id (p ∷ ps) =
    let rest = scan_pods id ps in
    if p.job_name == id then (if p.failed then failed_pod p.message else other_pod) else rest

-- What `ProcessTests` knows of the executor of an execution, if it was found.
pub record Executor : Type 0 where
  pub is_container : Bool
  pub supports_artifacts : Bool

unfoldable pub wants_scraper : Option Executor → Option String → Bool
wants_scraper none storage = false
wants_scraper (some x) none = false
wants_scraper (some x) (some class) = x.supports_artifacts && not (class == "")

abbrev pub is_container_executor : Option Executor → Bool
is_container_executor none = false
is_container_executor (some x) = x.is_container

-- The message to fail with; `none` goes on to the next execution.
abbrev pub scan_message : PodScan → Option String
scan_message (failed_pod message) = some message
scan_message other_pod = none
scan_message no_pod = some abnormally_terminated

-- The loop's body of `ProcessTests`: `pods` gives the pods of a job, or an error.
unfoldable pub test_message :
    (String → Option (List Pod)) → Option Executor → Execution → Option String
unfolding scan_pods wants_scraper concat
test_message pods x e = elim (pods e.id) [
  | some ps ↦ scan_message (scan_pods e.id ps)
  | none ↦
      if not (is_container_executor x)
      then some abnormally_terminated
      else if not (wants_scraper x e.storage_class_name)
      then some abnormally_terminated
      else let id = concat (e.id ∷ "-scraper" ∷ []) in
        elim (pods id) [
          | none ↦ some abnormally_terminated
          | some ps ↦ scan_message (scan_pods id ps)
        ]
]

-- The execution that `ProcessTests` stores.
abbrev pub fail_with : String → Execution → Execution
fail_with message e = record e {
  execution_result =
      some (record empty_result { status = some ExecutionStatus.failed; error_message = message });
}

unfoldable pub process_test :
    (String → Option (List Pod)) → Option Executor → Execution → Option Execution
unfolding test_message
process_test pods x e = elim (test_message pods x e) [
  | none ↦ none
  | some message ↦ some (fail_with message e)
]

-- What the loops over the steps of a suite find.
pub data Scan : Type 0 where
  get_error still_running : Scan
  ended : SuiteStatus → Scan

-- `execute.Step != nil && execute.Step.Type() == …ExecuteTest && execute.Execution != nil`, and the id.
unfoldable pub test_id : SuiteStepResult → Option String
unfolding step_type
test_id r = elim r.step [
  | none ↦ none
  | some s ↦ elim (step_type s) [
    | none ↦ none
    | some t ↦ elim t [
      | StepType.execute_test ↦ elim r.execution [ none ↦ none | some e ↦ some e.id ]
      | StepType.delay ↦ none
    ]
  ]
]

-- The result in the repository, if there is one.
abbrev pub fetched_result : Fetched Execution → Option ExecutionResult
fetched_result (found e) = e.execution_result
fetched_result no_documents = none
fetched_result get_failed = none

abbrev pub is_get_failed : Fetched Execution → Bool
is_get_failed (found e) = false
is_get_failed no_documents = false
is_get_failed get_failed = true

-- What one result does to the status: it goes on with one, or the loops end.
pub data Verdict : Type 0 where
  go_on : SuiteStatus → Verdict
  stop : Scan → Verdict

abbrev pub result_verdict : SuiteStatus → ExecutionStatus → Verdict
result_verdict status ExecutionStatus.running = stop still_running
result_verdict status ExecutionStatus.queued = stop still_running
result_verdict status ExecutionStatus.failed = go_on SuiteStatus.failed
result_verdict status ExecutionStatus.aborted = stop (ended SuiteStatus.aborted)
result_verdict status ExecutionStatus.timeout = stop (ended SuiteStatus.timeout)
result_verdict status ExecutionStatus.passed = go_on status
result_verdict status ExecutionStatus.skipped = go_on status
result_verdict status ExecutionStatus.unset = go_on status

-- The inner loops of `ProcessTestSuites`, over the steps of all batches one after the other; the outer
-- `none` is the dereference of a nil status.
unfoldable pub step_verdict :
    (String → Fetched Execution) → SuiteStatus → SuiteStepResult → Option Verdict
unfolding test_id
step_verdict get status r = elim (test_id r) [
  | none ↦ some (go_on status)
  | some id ↦
      if is_get_failed (get id) then some (stop get_error) else elim (fetched_result (get id)) [
        | none ↦ some (go_on status)
        | some x ↦ x.status >>= λ s. some (result_verdict status s)
      ]
]

unfoldable pub scan_steps :
    (String → Fetched Execution) → SuiteStatus → List SuiteStepResult → Option Scan
unfolding step_verdict
scan_steps get status [] = some (ended status)
scan_steps get status (r ∷ rs) =
    step_verdict get status r >>= λ v. elim v [ go_on s ↦ scan_steps get s rs | stop x ↦ some x ]

-- The steps of all batches.
unfoldable pub all_steps : List BatchResult → List SuiteStepResult
all_steps [] = []
all_steps (b ∷ bs) = b.execute ++ all_steps bs

-- `MapTestSuiteExecutionStatusToExecutionStatus` of pkg/mapper/tests; `none` is nil.
abbrev pub map_status : SuiteStatus → Option ExecutionStatus
map_status SuiteStatus.aborted = some ExecutionStatus.aborted
map_status SuiteStatus.timeout = some ExecutionStatus.timeout
map_status SuiteStatus.running = some ExecutionStatus.running
map_status SuiteStatus.queued = some ExecutionStatus.queued
map_status SuiteStatus.failed = some ExecutionStatus.failed
map_status SuiteStatus.passed = some ExecutionStatus.passed
map_status SuiteStatus.aborting = none

-- The result that a running step of an ended suite gets.
abbrev pub terminated : SuiteStatus → Execution → Execution
terminated status e = record e {
  execution_result =
      some
        (record empty_result { status = map_status status; error_message = abnormally_terminated });
}

-- The body of the last loop of `ProcessTestSuites`.
unfoldable pub end_step : SuiteStatus → SuiteStepResult → Option SuiteStepResult
end_step status r = elim r.execution [
  | none ↦ some r
  | some e ↦ Execution.is_running e >>= λ running.
      some (if running then record r { execution = some (terminated status e) } else r)
]

unfoldable pub end_steps : SuiteStatus → List SuiteStepResult → Option (List SuiteStepResult)
unfolding end_step
end_steps status [] = some []
end_steps status (r ∷ rs) =
    end_step status r >>= λ r'. end_steps status rs >>= λ rs'. some (r' ∷ rs')

unfoldable pub end_batches : SuiteStatus → List BatchResult → Option (List BatchResult)
unfolding end_steps
end_batches status [] = some []
end_batches status (b ∷ bs) = end_steps status b.execute >>= λ rs.
    end_batches status bs >>= λ bs'. some (record b { execute = rs } ∷ bs')

-- The error that `TestRepository.Get` returns.
pub data RepositoryError : Type 0 where
  repository_error : RepositoryError

-- The loop's body of `ProcessTestSuites`: the execution that is stored, none to go on with the next one,
-- or the error of the repository.
unfoldable pub process_suite :
    (String → Fetched Execution)
    → SuiteExecution
    → Option (Result RepositoryError (Option SuiteExecution))
unfolding scan_steps all_steps end_batches
process_suite get e =
    scan_steps get SuiteStatus.passed (all_steps e.execute_step_results) >>= λ scan. elim scan [
      | get_error ↦ some (err repository_error)
      | still_running ↦ some (ok none)
      | ended status ↦ end_batches status e.execute_step_results >>= λ bs.
          some (ok (some (record e { status = some status; execute_step_results = bs })))
    ]
