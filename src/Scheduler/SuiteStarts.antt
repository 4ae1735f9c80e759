-- ===== src/Scheduler/SuiteStarts.antt =====
-- executeTestSuite in pkg/scheduler/testsuite_scheduler.go: a suite execution is named, stored and run.
pub mod Ends
use testkube.Base.{
  ℕ, suc, String, Bool, true, false, ◌==◌, ◌&&◌, not, Option, none, some, List, [], ◌∷◌, Result, ok,
  err, nat_eq, concat, if◌then◌else◌, ◌>>=◌,
}
use testkube.Model.SuiteStatus.{SuiteStatus}
use testkube.Model.Suite.{
  BatchResult, TestSuite, SuiteExecutionRequest, SuiteExecution, new_started,
}
use testkube.Scheduler.Merge.{fill}
use testkube.Scheduler.Steps.{Duration}
use testkube.Scheduler.Runs.{Round, run_steps}

-- The calls that others can see before the steps run.
pub data SuiteEffect : Type 0 where
  inserted start_notified : SuiteExecution → SuiteEffect

-- What the clients return and how the steps go. The error of the insertion is only logged. `seen` is
-- what the goroutine of the steps has made of the execution when it is returned without waiting.
pub record SuiteCalls (X : Type 0) : Type 0 where
  pub secret_uuid : String → Result X String
  pub next_number : String → ℕ
  pub show : ℕ → String
  pub new_id : ℕ → String
  pub now : ℕ
  pub parse_duration : String → Duration
  pub response_id : ℕ → String
  pub round : ℕ → Round
  pub end_time : ℕ
  pub seen : SuiteExecution → SuiteExecution

-- The fields that the execution request of the suite fills in.
unfoldable pub with_suite_defaults :
    SuiteExecutionRequest → SuiteExecutionRequest → SuiteExecutionRequest
with_suite_defaults suite r = record r {
  timeout = if nat_eq r.timeout 0 && not (nat_eq suite.timeout 0) then suite.timeout else r.timeout;
  name = fill suite.name r.name;
  http_proxy = fill suite.http_proxy r.http_proxy;
  https_proxy = fill suite.https_proxy r.https_proxy;
  job_template = fill suite.job_template r.job_template;
  job_template_reference = fill suite.job_template_reference r.job_template_reference;
  scraper_template = fill suite.scraper_template r.scraper_template;
  scraper_template_reference = fill suite.scraper_template_reference r.scraper_template_reference;
  pvc_template = fill suite.pvc_template r.pvc_template;
  pvc_template_reference = fill suite.pvc_template_reference r.pvc_template_reference;
}

unfoldable pub merged_suite_request :
    Option SuiteExecutionRequest → SuiteExecutionRequest → SuiteExecutionRequest
unfolding with_suite_defaults
merged_suite_request none request = request
merged_suite_request (some suite) request = with_suite_defaults suite request

-- The batches with what happens around each of them.
unfoldable pub with_rounds : (ℕ → Round) → ℕ → List BatchResult → List (BatchResult × Round)
with_rounds round n [] = []
with_rounds round n (b ∷ bs) = (b, round n) ∷ with_rounds round (suc n) bs

-- The execution after `runSteps`, which stops it at its end.
abbrev pub ended : ℕ → List BatchResult × SuiteStatus → SuiteExecution → SuiteExecution
ended end_time r e = record e { execute_step_results = r.0; status = some r.1; end_time = end_time }

module _ {X : Type 0} (calls : SuiteCalls X) where
  abbrev pub number_of : TestSuite → ℕ
  number_of suite = calls.next_number (concat ("ts-" ∷ suite.name ∷ []))

  -- The number of the request, and a name if it has none.
  unfoldable pub named_request : TestSuite → SuiteExecutionRequest → SuiteExecutionRequest
  unfolding concat
  named_request suite r = record r {
    number = number_of suite;
    name =
        if r.name == ""
        then concat ("ts-" ∷ suite.name ∷ "-" ∷ calls.show (number_of suite) ∷ [])
        else r.name;
  }

  -- The request that the execution is started with.
  unfoldable pub prepared : TestSuite → String → SuiteExecutionRequest → SuiteExecutionRequest
  unfolding merged_suite_request named_request
  prepared suite uuid request =
      named_request suite
        (merged_suite_request suite.execution_request (record request { secret_uuid = uuid }))

  -- `go s.runSteps(…)`, and the wait for it if the request is synchronous; `none` is a nil dereference.
  unfoldable pub run_and_wait : Bool → SuiteExecution → Option SuiteExecution
  unfolding run_steps with_rounds
  run_and_wait sync e =
      let steps =
        run_steps calls.parse_duration calls.response_id
          (with_rounds calls.round 0 e.execute_step_results) in
      if sync then (steps >>= λ r. some (ended calls.end_time r e)) else some (calls.seen e)

  -- `executeTestSuite`; `none` is a panic: the write into a nil map or a nil dereference.
  unfoldable pub execute_test_suite :
      TestSuite → SuiteExecutionRequest → Option (Result X SuiteExecution × List SuiteEffect)
  unfolding prepared new_started run_and_wait
  execute_test_suite suite request = elim (calls.secret_uuid suite.name) [
    | err x ↦ some (err x, [])
    | ok uuid ↦
        let final = prepared suite uuid request in
        new_started calls.new_id calls.now suite final >>= λ e.
        run_and_wait final.sync e >>= λ r. some (ok r, inserted e ∷ start_notified e ∷ [])
  ]
