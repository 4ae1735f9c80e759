-- ===== src/Triggers/Scraper.antt =====
-- pkg/triggers/scraper.go: executions that have ended are taken off a trigger's status, and running
-- ones are aborted.
pub mod Sweep
pub mod Gone
pub mod Ticks
use testkube.Base.{
  ℕ, String, Bool, true, false, ◌||◌, not, Option, none, some, List, [], ◌∷◌, Map, if◌then◌else◌,
  ◌>>=◌,
}
use testkube.Model.SuiteStatus
use testkube.Model.Execution
use testkube.Model.Execution.{Execution}
use testkube.Model.Suite.{SuiteExecution, has_status}
use testkube.Model.Repository.{Fetched, found, no_documents, get_failed}
use testkube.Triggers.Status.{
  TriggerStatus, has_active_tests, done, remove_execution_id, remove_test_suite_execution_id,
}

-- `execution.IsRunning() || execution.IsQueued()`
abbrev pub is_live : Execution → Option Bool
is_live e = Execution.is_running e >>= λ r. if r then some true else Execution.is_queued e

abbrev pub is_live_suite : SuiteExecution → Bool
is_live_suite e = has_status SuiteStatus.is_running e || has_status SuiteStatus.is_queued e

-- A loop over a copy of the ids: `ended id` says if the loop's body removes the id.
unfoldable pub sweep {ℓ} :
    {S : Type ℓ} → (String → S → Option S) → (String → Option Bool) → List String → S → Option S
sweep remove ended [] s = some s
sweep remove ended (id ∷ ids) s =
    ended id >>= λ gone. (if gone then remove id s else some s) >>= λ s'. sweep remove ended ids s'

-- The body of the loop of `checkForRunningTestExecutions`, on what `Get` returned for the id.
unfoldable pub test_ended : Fetched Execution → Option Bool
test_ended no_documents = some true
test_ended get_failed = some false
test_ended (found e) = is_live e >>= λ live. some (not live)

-- The body of the loop of `abortRunningTestExecutions`; `abort e` says if the executor aborted it.
unfoldable pub test_aborted : (Execution → Bool) → Fetched Execution → Option Bool
test_aborted abort no_documents = some true
test_aborted abort get_failed = some false
test_aborted abort (found e) = is_live e >>= λ live. some (if live then abort e else false)

unfoldable pub suite_ended : Fetched SuiteExecution → Option Bool
suite_ended no_documents = some true
suite_ended get_failed = some false
suite_ended (found e) = some (not (is_live_suite e))

-- `publish e` says if the event that aborts the execution was published.
unfoldable pub suite_aborted : (SuiteExecution → Bool) → Fetched SuiteExecution → Option Bool
suite_aborted publish no_documents = some true
suite_aborted publish get_failed = some false
suite_aborted publish (found e) = some (if is_live_suite e then publish e else false)

module _ {T : Type 0} where
  unfoldable pub check_for_running_test_executions :
      (String → Fetched Execution) → TriggerStatus T → Option (TriggerStatus T)
  unfolding sweep test_ended
  check_for_running_test_executions get s =
      sweep remove_execution_id (λ id. test_ended (get id)) s.test_execution_ids s

  unfoldable pub check_for_running_test_suite_executions :
      (String → Fetched SuiteExecution) → TriggerStatus T → Option (TriggerStatus T)
  unfolding sweep suite_ended
  check_for_running_test_suite_executions get s =
      sweep remove_test_suite_execution_id (λ id. suite_ended (get id)) s.test_suite_execution_ids s

  unfoldable pub abort_running_test_executions :
      (String → Fetched Execution) → (Execution → Bool) → TriggerStatus T → Option (TriggerStatus T)
  unfolding sweep test_aborted
  abort_running_test_executions get abort s =
      sweep remove_execution_id (λ id. test_aborted abort (get id)) s.test_execution_ids s

  unfoldable pub abort_running_test_suite_executions :
      (String → Fetched SuiteExecution)
      → (SuiteExecution → Bool)
      → TriggerStatus T
      → Option (TriggerStatus T)
  unfolding sweep suite_aborted
  abort_running_test_suite_executions get publish s =
      sweep remove_test_suite_execution_id (λ id. suite_aborted publish (get id))
        s.test_suite_execution_ids s

  -- `if !status.hasActiveTests() { status.done() }`
  abbrev pub done_if_idle : ℕ → TriggerStatus T → TriggerStatus T
  done_if_idle now s = if has_active_tests s then s else done now s

-- The repositories, the executor's `Abort` and the bus's `PublishTopic`.
module _ {T : Type 0} (get : String → Fetched Execution)
    (get_suite : String → Fetched SuiteExecution) where
  unfoldable pub abort_executions :
      (Execution → Bool) → (SuiteExecution → Bool) → ℕ → TriggerStatus T → Option (TriggerStatus T)
  unfolding abort_running_test_executions abort_running_test_suite_executions
  abort_executions abort publish now s = abort_running_test_executions get abort s >>= λ s'.
      abort_running_test_suite_executions get_suite publish s' >>= λ s''.
      some (done_if_idle now s'')

  -- What one tick of `runExecutionScraper` does to one status.
  unfoldable pub scrape : ℕ → TriggerStatus T → Option (TriggerStatus T)
  unfolding check_for_running_test_executions check_for_running_test_suite_executions
  scrape now s =
      if has_active_tests s
      then (check_for_running_test_executions get s >>= λ s'.
          check_for_running_test_suite_executions get_suite s' >>= λ s''.
          some (done_if_idle now s''))
      else some s

  -- One tick: the loop over the statuses of all triggers.
  unfoldable pub scrape_all : ℕ → Map (TriggerStatus T) → Option (Map (TriggerStatus T))
  unfolding scrape
  scrape_all now [] = some []
  scrape_all now ((key, s) ∷ m) =
      scrape now s >>= λ s'. scrape_all now m >>= λ m'. some ((key, s') ∷ m')
