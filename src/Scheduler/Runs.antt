-- ===== src/Scheduler/Runs.antt =====
-- pkg/scheduler/testsuite_scheduler.go: runSteps, the batches of a suite one after the other.
pub mod Ends
pub mod Passing
pub mod Cancels
use testkube.Base.{
  ℕ, String, Bool, true, false, Option, none, some, List, [], ◌∷◌, map, if◌then◌else◌, ◌>>=◌,
}
use testkube.Model.SuiteStatus
use testkube.Model.SuiteStatus.{SuiteStatus}
use testkube.Model.ExecutionResult
use testkube.Model.Execution.{Execution}
use testkube.Model.Suite.{BatchStep, SuiteStepResult, BatchResult, step_is_failed}
use testkube.Scheduler.Steps.{Duration, DelayEnd, TestTuple, change_result, execute_test_step}

-- What happens around one batch: the status that the poll of `statusChan` finds, what the worker pool
-- makes of the tests, how a delay ends, and whether the repository saves the results.
pub record Round : Type 0 where
  pub polled : Option SuiteStatus
  pub run : List TestTuple → List Execution
  pub delay_end : DelayEnd
  pub saved : Bool

-- The variables of `runSteps`.
pub record Run : Type 0 where
  pub has_failed_steps : Bool
  pub cancel_steps : Bool
  pub abortion_status : Option SuiteStatus
  pub status : Option SuiteStatus

abbrev pub first_run : Run
first_run = record {
  has_failed_steps = false;
  cancel_steps = false;
  abortion_status = none;
  status = some SuiteStatus.running;
}

-- The case of `statusChan`.
abbrev pub poll : Option SuiteStatus → Run → Run
poll none r = r
poll (some s) r = record r { abortion_status = some s; cancel_steps = true }

abbrev pub stops_on_failure : Option BatchStep → Bool
stops_on_failure none = false
stops_on_failure (some b) = b.stop_on_failure

-- The loop over the results of a batch: it ends at a failed step if the batch stops on failure. `none`
-- is a nil dereference.
unfoldable pub check_steps : Bool → List SuiteStepResult → Run → Option Run
check_steps stops [] run = some run
check_steps stops (r ∷ rs) run = step_is_failed r >>= λ failed. elim failed [
  | false ↦ check_steps stops rs run
  | true ↦ elim stops [
    | true ↦ some (record run { has_failed_steps = true; cancel_steps = true })
    | false ↦ check_steps stops rs (record run { has_failed_steps = true })
  ]
]

-- A cancelled batch: the results are aborted, twice over.
abbrev pub cancel_batch : BatchResult → BatchResult
cancel_batch b = record b {
  execute =
      map (change_result ExecutionResult.abort)
        (map (change_result ExecutionResult.abort) b.execute);
}

abbrev pub begin_batch : BatchResult → BatchResult
begin_batch b = record b { execute = map (change_result ExecutionResult.in_progress) b.execute }

abbrev pub status_is : (SuiteStatus → Bool) → Option SuiteStatus → Bool
status_is p none = false
status_is p (some s) = p s

-- The status that the execution ends with.
unfoldable pub final_status : Run → SuiteStatus
final_status run =
    if status_is SuiteStatus.is_aborting run.status
    then (if status_is SuiteStatus.is_timeout run.abortion_status
        then SuiteStatus.timeout
        else SuiteStatus.aborted)
    else if run.has_failed_steps
    then SuiteStatus.failed
    else SuiteStatus.passed

module _ (parse_duration : String → Duration) (new_id : ℕ → String) where
  abbrev pub execute_batch : Round → BatchResult → BatchResult
  execute_batch round b = record b {
    execute =
        execute_test_step parse_duration new_id round.run round.delay_end (begin_batch b).execute;
  }

  -- The body of the loop over the batches, after the poll.
  unfoldable pub run_batch : Round → BatchResult → Run → Option (BatchResult × Run)
  unfolding check_steps execute_test_step
  run_batch round b run =
      if run.cancel_steps
      then some (cancel_batch b, record run { status = some SuiteStatus.aborting })
      else let b' = execute_batch round b in
        if round.saved
        then (check_steps (stops_on_failure b.step) b'.execute run >>= λ run'. some (b', run'))
        else some (b', record run { has_failed_steps = true })

  -- The loop; there is a round for each batch.
  unfoldable pub run_batches : List (BatchResult × Round) → Run → Option (List BatchResult × Run)
  unfolding run_batch
  run_batches [] run = some ([], run)
  run_batches ((b, round) ∷ bs) run = run_batch round b (poll round.polled run) >>= λ r.
      run_batches bs r.1 >>= λ rest. some (r.0 ∷ rest.0, rest.1)

  -- `runSteps`: the results of the batches and the final status.
  unfoldable pub run_steps : List (BatchResult × Round) → Option (List BatchResult × SuiteStatus)
  unfolding run_batches final_status
  run_steps bs = run_batches bs first_run >>= λ r. some (r.0, final_status r.1)
