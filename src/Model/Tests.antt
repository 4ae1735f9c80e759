-- ===== src/Model/Tests.antt =====
-- The theorems on the API's data, at concrete data.
use testkube.Base.{
  ℕ, String, true, false, ◌≡◌, ◌≢◌, refl, ◌↔◌, ◌⊎◌, none, some, List, [], ◌∷◌, map, All, insert,
  insert_all, ok, join, arith, lookup, or_else,
}
use testkube.Model.Status.{ExecutionStatus}
use testkube.Model.SuiteStatus.{SuiteStatus, suite_status_text}
use testkube.Model.Data.{new_basic_variable}
use testkube.Model.ExecutionResult.{empty_result, set_status}
use testkube.Model.Execution.{empty_execution}
use testkube.Model.Suite.{
  BatchStep, BatchResult, SuiteStepResult, TestSuite, SuiteExecutionRequest, SuiteExecution,
  new_started, queued_batches, override_variables,
}
use testkube.Model.Suite.Started.{entries, of_suite, WritesNil, new_started_cases}
use testkube.Model.StatusLists.{parse_suite_status_list}
use testkube.Model.StatusLists.RoundTrip.{comma, listed, parse_suite_status_list_iff}

-- A suite with a batch of two tests and a delay after it, started with a variable.
abbrev id_of : ℕ → String
id_of n = "id"

abbrev smoke_batch : BatchStep
smoke_batch = record {
  stop_on_failure = true;
  execute = record { test = "smoke"; delay = "" } ∷ record { test = "load"; delay = "" } ∷ [];
}

abbrev pause_batch : BatchStep
pause_batch = record { stop_on_failure = false; execute = record { test = ""; delay = "5s" } ∷ [] }

abbrev suite : TestSuite
suite = record {
  name = "nightly";
  namespace = "testkube";
  before = [];
  steps = smoke_batch ∷ [];
  after = pause_batch ∷ [];
  labels = [];
  execution_request = none;
}

abbrev request : SuiteExecutionRequest
request = record {
  name = "ts-nightly-1";
  number = 1;
  variables = some (("url", new_basic_variable "url" "http://a") ∷ []);
  secret_uuid = "";
  execution_labels = [];
  sync = false;
  http_proxy = "";
  https_proxy = "";
  timeout = 0;
  running_context = none;
  job_template = "";
  job_template_reference = "";
  scraper_template = "";
  scraper_template_reference = "";
  pvc_template = "";
  pvc_template_reference = "";
  concurrency_level = 0;
  test_suite_execution_name = "";
}

abbrev started : SuiteExecution
started = record {
  id = "id";
  name = "ts-nightly-1";
  test_suite = some (record { namespace = "testkube"; name = "nightly" });
  status = some SuiteStatus.running;
  variables = some (("url", new_basic_variable "url" "http://a") ∷ []);
  secret_uuid = "";
  start_time = 7;
  end_time = 0;
  step_results = [];
  execute_step_results = queued_batches id_of 1 (smoke_batch ∷ pause_batch ∷ []);
  labels = [];
  running_context = none;
  test_suite_execution_name = "";
}

started_is : new_started id_of 7 suite request ≡ some started
unfolding new_started override_variables insert_all insert
started_is = refl

abbrev unset_suite : TestSuite
unset_suite = record suite { execution_request = some (record request { variables = none }) }

-- A suite whose execution request has no variables, started with one.
new_started_cases_example :
    ((new_started id_of 7 unset_suite request ≡ none) × WritesNil unset_suite request)
    ⊎ ((e : SuiteExecution) × (new_started id_of 7 unset_suite request ≡ some e)
        × (WritesNil unset_suite request → ⊥)
        × ((k : String)
            → lookup k (entries e.variables)
              ≡ or_else
                  (lookup k (entries request.variables))
                  (of_suite k unset_suite.execution_request)))
new_started_cases_example = new_started_cases id_of 7 unset_suite request (tt, tt)

-- A suite execution with two batches: one with a failed and a passed test, one with a passed test.
abbrev result_with : ExecutionStatus → SuiteStepResult
result_with status = record {
  step = some (record { test = "smoke"; delay = "" });
  execution =
      some (record empty_execution { execution_result = some (set_status status empty_result) });
}

abbrev batch_of : List SuiteStepResult → BatchResult
batch_of rs = record { step = some smoke_batch; execute = rs }

abbrev half_failed : SuiteExecution
half_failed = record started {
  execute_step_results =
      batch_of (result_with ExecutionStatus.failed ∷ result_with ExecutionStatus.passed ∷ [])
      ∷ batch_of (result_with ExecutionStatus.passed ∷ [])
      ∷ [];
}

has_a_status : (status : ExecutionStatus) → some status ≢ none
has_a_status status h = absurd (ground arith)

parse_suite_status_list_iff_example :
    (parse_suite_status_list comma "passed,aborted"
      ≡ ok (SuiteStatus.passed ∷ SuiteStatus.aborted ∷ []))
    ↔ (All (λ t. listed t ≡ true) (SuiteStatus.passed ∷ SuiteStatus.aborted ∷ [])
        × ("passed,aborted"
            ≡ join comma (map suite_status_text (SuiteStatus.passed ∷ SuiteStatus.aborted ∷ []))))
parse_suite_status_list_iff_example =
    parse_suite_status_list_iff "passed,aborted" SuiteStatus.passed (SuiteStatus.aborted ∷ [])
