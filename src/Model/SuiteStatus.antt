-- ===== src/Model/SuiteStatus.antt =====
-- pkg/api/v1/testkube/model_test_suite_execution_status.go.
use testkube.Base.{String, Bool, true, false}

pub data SuiteStatus : Type 0 where
  queued running passed failed aborting aborted timeout : SuiteStatus

abbrev pub suite_status_text : SuiteStatus → String
suite_status_text queued = "queued"
suite_status_text running = "running"
suite_status_text passed = "passed"
suite_status_text failed = "failed"
suite_status_text aborting = "aborting"
suite_status_text aborted = "aborted"
suite_status_text timeout = "timeout"

-- `*status == *other`, one test for each status that the code asks for.
abbrev pub is_queued : SuiteStatus → Bool
is_queued queued = true
is_queued _ = false

abbrev pub is_running : SuiteStatus → Bool
is_running running = true
is_running _ = false

abbrev pub is_passed : SuiteStatus → Bool
is_passed passed = true
is_passed _ = false

abbrev pub is_failed : SuiteStatus → Bool
is_failed failed = true
is_failed _ = false

abbrev pub is_aborting : SuiteStatus → Bool
is_aborting aborting = true
is_aborting _ = false

abbrev pub is_aborted : SuiteStatus → Bool
is_aborted aborted = true
is_aborted _ = false

abbrev pub is_timeout : SuiteStatus → Bool
is_timeout timeout = true
is_timeout _ = false
