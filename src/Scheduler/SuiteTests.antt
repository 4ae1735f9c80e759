-- ===== src/Scheduler/SuiteTests.antt =====
-- The theorem on the execution of a suite, at a suite of one test that passes.
use testkube.Base.{String, true, ◌≡◌, refl, ◌↔◌, none, some, [], ◌∷◌, All, ok}
use testkube.Model.Status.{ExecutionStatus}
use testkube.Model.ExecutionResult.{empty_result, set_status}
use testkube.Model.Execution.{Execution, empty_execution}
use testkube.Model.Suite.{
  TestSuite, SuiteExecutionRequest, SuiteExecution, override_variables, new_started,
}
use testkube.Scheduler.Steps.{parsed, timer_fired}
use testkube.Scheduler.Runs.{Round}
use testkube.Scheduler.Runs.Ends.{Clean}
use testkube.Scheduler.SuiteStarts.{SuiteCalls, prepared}
use testkube.Scheduler.SuiteStarts.Ends.{steps, Passes, execute_test_suite-passed_iff}

abbrev passed_test : Execution
passed_test = record empty_execution {
  id = "e1";
  execution_result = some (set_status ExecutionStatus.passed empty_result);
}

abbrev round : Round
round = record { polled = none; run = λ _. passed_test ∷ []; delay_end = timer_fired; saved = true }

abbrev calls : SuiteCalls String
calls = record {
  secret_uuid = λ name. ok "uuid";
  next_number = λ name. 7;
  show = λ n. "7";
  new_id = λ n. "id";
  now = 3;
  parse_duration = λ s. parsed 2;
  response_id = λ n. "new";
  round = λ n. round;
  end_time = 9;
  seen = λ e. e;
}

abbrev request : SuiteExecutionRequest
request = record {
  name = "";
  number = 0;
  variables = none;
  secret_uuid = "";
  execution_labels = [];
  sync = true;
  http_proxy = "";
  https_proxy = "";
  timeout = 0;
  running_context = none;
  job_template = "";
  job_template_reference = "";
  scraper_template = "";
  scraper_template_reference = "";
  pvc_template = "";
  pvc_template_reference = "";
  concurrency_level = 0;
  test_suite_execution_name = "";
}

abbrev suite : TestSuite
suite = record {
  name = "nightly";
  namespace = "testkube";
  before = [];
  steps =
      record { stop_on_failure = true; execute = record { test = "smoke"; delay = "" } ∷ [] } ∷ [];
  after = [];
  labels = [];
  execution_request = none;
}

can_start :
    (e : SuiteExecution) × (new_started calls.new_id calls.now suite
        (prepared calls suite "uuid" request)
      ≡ some e)
unfolding new_started prepared override_variables
can_start = (_, refl)

execute_test_suite-passed_iff_example :
    Passes calls suite request
    ↔ All (Clean calls.parse_duration calls.response_id) (steps calls suite request)
execute_test_suite-passed_iff_example =
    execute_test_suite-passed_iff calls suite request "uuid" can_start.0 refl refl can_start.1
