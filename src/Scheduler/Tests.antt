-- ===== src/Scheduler/Tests.antt =====
-- The theorems on the scheduler, at concrete suites.
use testkube.Base.{
  ℕ, String, true, false, ◌≡◌, refl, ◌↔◌, none, some, List, [], ◌∷◌, ◌++◌, All, nat_eq, ◌==◌,
  if◌then◌else◌, insert, lookup,
}
use testkube.Model.Status.{ExecutionStatus}
use testkube.Model.SuiteStatus.{SuiteStatus}
use testkube.Model.ExecutionResult.{empty_result, set_status}
use testkube.Model.Execution.{Execution, empty_execution}
use testkube.Model.Suite.{SuiteStepResult, BatchResult, step_type}
use testkube.Scheduler.Steps.{
  Duration, parsed, unparsed, timer_fired, TestTuple, collect, execute_test_step, response_map,
  store_response,
}
use testkube.Scheduler.Steps.Delays.{Delayed, execute_test_step-delays}
use testkube.Scheduler.Runs.{Round, Run, first_run, run_steps}
use testkube.Scheduler.Runs.Ends.{executed, Clean}
use testkube.Scheduler.Runs.Passing.{run_steps-passed_iff}
use testkube.Scheduler.Runs.Cancels.{Cancelled, cancelled, run_steps-stop}

-- Every text is a delay of 2, but for "soon".
abbrev duration_of : String → Duration
duration_of s = if s == "soon" then unparsed "invalid duration" else parsed 2

abbrev id_of : ℕ → String
id_of n = "new"

abbrev test_execution : ExecutionStatus → Execution
test_execution status = record empty_execution {
  id = "e1";
  execution_result = some (set_status status empty_result);
}

abbrev test_step : ExecutionStatus → SuiteStepResult
test_step status = record {
  step = some (record { test = "smoke"; delay = "" });
  execution = some (test_execution status);
}

abbrev delay_step : String → SuiteStepResult
delay_step delay = record {
  step = some (record { test = ""; delay = delay });
  execution = some (test_execution ExecutionStatus.queued);
}

-- A batch of one test that stops on failure; the pool answers with a result.
abbrev test_batch : BatchResult
test_batch = record {
  step =
      some
        (record { stop_on_failure = true; execute = record { test = "smoke"; delay = "" } ∷ [] });
  execute = test_step ExecutionStatus.queued ∷ [];
}

abbrev round_with : ExecutionStatus → Round
round_with status = record {
  polled = none;
  run = λ _. test_execution status ∷ [];
  delay_end = timer_fired;
  saved = true;
}

abbrev passing : BatchResult × Round
passing = (test_batch, round_with ExecutionStatus.passed)

abbrev failing_round : Round
failing_round = round_with ExecutionStatus.failed

run_steps-passed_iff_example :
    ((results : List BatchResult) × (run_steps duration_of id_of (passing ∷ [])
        ≡ some (results, SuiteStatus.passed)))
    ↔ All (Clean duration_of id_of) (passing ∷ [])
run_steps-passed_iff_example = run_steps-passed_iff duration_of id_of (passing ∷ [])

-- After the failed batch.
abbrev stopped : Run
stopped = record first_run { has_failed_steps = true; cancel_steps = true }

abbrev failed_batch : BatchResult
failed_batch = record test_batch { execute = test_step ExecutionStatus.failed ∷ [] }

batch_results :
    (executed duration_of id_of (test_batch, failing_round)).execute
    ≡ [] ++ test_step ExecutionStatus.failed ∷ []
unfolding execute_test_step collect response_map store_response step_type insert lookup
batch_results = refl

run_steps-stop_example :
    (status : SuiteStatus) × Cancelled status
    × (run_steps duration_of id_of ((test_batch, failing_round) ∷ passing ∷ [])
        ≡ some (
          executed duration_of id_of (test_batch, failing_round) ∷ cancelled (passing ∷ []),
          status,
        ))
run_steps-stop_example =
    run_steps-stop duration_of id_of test_batch failing_round passing [] [] []
      (test_step ExecutionStatus.failed) refl refl refl batch_results tt refl

-- A batch of two delays, one of which cannot be parsed.
abbrev delays : List SuiteStepResult
delays = delay_step "soon" ∷ delay_step "2ms" ∷ []

abbrev no_tests : List TestTuple → List Execution
no_tests _ = []

delays_collected : (collect duration_of id_of 0 delays).test_tuples ≡ []
unfolding collect step_type
delays_collected = refl

delays_wait : nat_eq (collect duration_of id_of 0 delays).duration 0 ≡ false
unfolding collect step_type
delays_wait = refl

execute_test_step-delays_example :
    All Delayed (execute_test_step duration_of id_of no_tests timer_fired delays)
execute_test_step-delays_example =
    execute_test_step-delays duration_of id_of no_tests delays delays_collected delays_wait
