-- ===== src/Model/Suite.antt =====
-- pkg/api/v1/testkube/model_test_suite_*.go: the steps of a suite, their results, and the execution.
pub mod Started
pub mod Failures
use testkube.Base.{
  ℕ, suc, ◌+◌, String, Bool, true, false, ◌||◌, ◌==◌, Option, none, some, List, [], ◌∷◌, ◌++◌, Map,
  insert_all, if◌then◌else◌, ◌>>=◌,
}
use testkube.Model.SuiteStatus
use testkube.Model.SuiteStatus.{SuiteStatus}
use testkube.Model.Data.{Variable, ObjectRef, RunningContext}
use testkube.Model.Execution
use testkube.Model.Execution.{Execution}

pub record SuiteStep : Type 0 where
  pub test : String
  pub delay : String

pub data StepType : Type 0 where
  execute_test delay : StepType

-- `s.Type()`; `none` is nil.
unfoldable pub step_type : SuiteStep → Option StepType
step_type s =
    if s.test == "" then if s.delay == "" then none else some StepType.delay else some execute_test

unfoldable pub full_name : SuiteStep → String
unfolding step_type
full_name s = elim (step_type s) [
  | none ↦ "unknown"
  | some t ↦ elim t [ execute_test ↦ s.test | delay ↦ s.delay ]
]

-- The steps of a batch run at the same time.
pub record BatchStep : Type 0 where
  pub stop_on_failure : Bool
  pub execute : List SuiteStep

pub record SuiteStepResult : Type 0 where
  pub step : Option SuiteStep
  pub execution : Option Execution

-- `r.Err(err)`; `id` is the id that a new execution would get.
abbrev pub step_err : String → String → SuiteStepResult → SuiteStepResult
step_err id message r = elim r.execution [
  | none ↦ record r { execution = some (Execution.err message (Execution.new_failed id message)) }
  | some e ↦ record r { execution = some (Execution.err message e) }
]

-- `r.IsFailed()`: a step with no execution counts as failed.
abbrev pub step_is_failed : SuiteStepResult → Option Bool
step_is_failed r = elim r.execution [ none ↦ some true | some e ↦ Execution.is_failed e ]

pub record BatchResult : Type 0 where
  pub step : Option BatchStep
  pub execute : List SuiteStepResult

-- A map that may be nil: writing into a nil map panics.
abbrev pub NilMap : Type 0 → Type 0
NilMap V = Option (Map V)

pub record SuiteExecutionRequest : Type 0 where
  pub name : String
  pub number : ℕ
  pub variables : NilMap Variable
  pub secret_uuid : String
  pub execution_labels : Map String
  pub sync : Bool
  pub http_proxy : String
  pub https_proxy : String
  pub timeout : ℕ
  pub running_context : Option RunningContext
  pub job_template : String
  pub job_template_reference : String
  pub scraper_template : String
  pub scraper_template_reference : String
  pub pvc_template : String
  pub pvc_template_reference : String
  pub concurrency_level : ℕ
  pub test_suite_execution_name : String

pub record TestSuite : Type 0 where
  pub name : String
  pub namespace : String
  pub before : List BatchStep
  pub steps : List BatchStep
  pub after : List BatchStep
  pub labels : Map String
  pub execution_request : Option SuiteExecutionRequest

pub record SuiteExecution : Type 0 where
  pub id : String
  pub name : String
  pub test_suite : Option ObjectRef
  pub status : Option SuiteStatus
  pub variables : NilMap Variable
  pub secret_uuid : String
  pub start_time : ℕ
  pub end_time : ℕ
  pub step_results : List SuiteStepResult  -- the results of the older, unbatched form
  pub execute_step_results : List BatchResult
  pub labels : Map String
  pub running_context : Option RunningContext
  pub test_suite_execution_name : String

-- `NewTestStepQueuedResult`, with the id that `WithID` generates.
abbrev pub queued_result : String → SuiteStep → SuiteStepResult
queued_result id s = record {
  step = some s;
  execution = some (Execution.with_id id Execution.new_queued);
}

-- The inner loop over the steps of a batch; `n` ids were generated before.
unfoldable pub queued_steps : (ℕ → String) → ℕ → List SuiteStep → List SuiteStepResult
queued_steps new_id n [] = []
queued_steps new_id n (s ∷ ss) = queued_result (new_id n) s ∷ queued_steps new_id (suc n) ss

abbrev pub count_steps : ℕ → List SuiteStep → ℕ
count_steps n [] = n
count_steps n (s ∷ ss) = count_steps (suc n) ss

-- The outer loop over the batches.
unfoldable pub queued_batches : (ℕ → String) → ℕ → List BatchStep → List BatchResult
unfolding queued_steps
queued_batches new_id n [] = []
queued_batches new_id n (b ∷ bs) =
    record { step = some b; execute = queued_steps new_id n b.execute }
    ∷ queued_batches new_id (count_steps n b.execute) bs

-- `for k, v := range override { variables[k] = v }`; `none` is the write into a nil map.
unfoldable pub override_variables : NilMap Variable → NilMap Variable → Option (NilMap Variable)
override_variables none variables = some variables
override_variables (some []) variables = some variables
override_variables (some (b ∷ m)) none = none
override_variables (some (b ∷ m)) (some variables) = some (some (insert_all (b ∷ m) variables))

-- The variables that a started execution begins with, before those of the request.
abbrev pub suite_variables : Option SuiteExecutionRequest → NilMap Variable
suite_variables none = some []
suite_variables (some r) = r.variables

-- `NewStartedTestSuiteExecution`: the clock and the generated ids are arguments.
unfoldable pub new_started :
    (ℕ → String) → ℕ → TestSuite → SuiteExecutionRequest → Option SuiteExecution
new_started new_id now suite request =
    override_variables request.variables (suite_variables suite.execution_request) >>= λ variables.
    some (record {
      id = new_id 0;
      name = request.name;
      test_suite = some (record { namespace = suite.namespace; name = suite.name });
      status = some SuiteStatus.running;
      variables = variables;
      secret_uuid = request.secret_uuid;
      start_time = now;
      end_time = 0;
      step_results = [];
      execute_step_results = queued_batches new_id 1 ((suite.before ++ suite.steps) ++ suite.after);
      labels = insert_all request.execution_labels (insert_all suite.labels []);
      running_context = request.running_context;
      test_suite_execution_name = request.test_suite_execution_name;
    })

abbrev is_end : SuiteStatus → Bool
is_end s =
    SuiteStatus.is_failed s
    || SuiteStatus.is_passed s
    || SuiteStatus.is_aborted s
    || SuiteStatus.is_timeout s

unfoldable pub is_completed : SuiteExecution → Bool
is_completed e = elim e.status [ none ↦ false | some s ↦ is_end s ]

-- `e.Status != nil && *e.Status == …`
abbrev pub has_status : (SuiteStatus → Bool) → SuiteExecution → Bool
has_status p e = elim e.status [ none ↦ false | some s ↦ p s ]

-- `stepResult.Execution != nil && stepResult.Execution.IsFailed()`
abbrev pub execution_failed : SuiteStepResult → Option Bool
execution_failed r = elim r.execution [ none ↦ some false | some e ↦ Execution.is_failed e ]

-- The loop over the unbatched results: each failed one counts.
unfoldable pub count_failed : List SuiteStepResult → ℕ → Option ℕ
count_failed [] n = some n
count_failed (r ∷ rs) n = execution_failed r >>= λ b. count_failed rs (if b then suc n else n)

-- The loop over one batch, which stops at the first failed step.
unfoldable pub any_failed : List SuiteStepResult → Option Bool
any_failed [] = some false
any_failed (r ∷ rs) =
    let rest = any_failed rs in execution_failed r >>= λ b. if b then some true else rest

unfoldable pub count_failed_batches : List BatchResult → ℕ → Option ℕ
count_failed_batches [] n = some n
count_failed_batches (b ∷ bs) n =
    any_failed b.execute >>= λ f. count_failed_batches bs (if f then suc n else n)

unfoldable pub failed_steps_count : SuiteExecution → Option ℕ
failed_steps_count e =
    count_failed e.step_results 0 >>= λ n. count_failed_batches e.execute_step_results n
