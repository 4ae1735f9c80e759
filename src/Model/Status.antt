-- ===== src/Model/Status.antt =====
-- pkg/api/v1/testkube/model_execution_status.go. A Go status is a string; `unset` is the zero value
-- "".
use testkube.Base.{String, Bool, true, false}

pub data ExecutionStatus : Type 0 where
  queued running passed failed aborted timeout skipped unset : ExecutionStatus

abbrev pub status_text : ExecutionStatus → String
status_text queued = "queued"
status_text running = "running"
status_text passed = "passed"
status_text failed = "failed"
status_text aborted = "aborted"
status_text timeout = "timeout"
status_text skipped = "skipped"
status_text unset = ""

-- `*status == *other`, one test for each status that the code asks for.
abbrev pub is_queued : ExecutionStatus → Bool
is_queued queued = true
is_queued _ = false

abbrev pub is_running : ExecutionStatus → Bool
is_running running = true
is_running _ = false

abbrev pub is_passed : ExecutionStatus → Bool
is_passed passed = true
is_passed _ = false

abbrev pub is_failed : ExecutionStatus → Bool
is_failed failed = true
is_failed _ = false

abbrev pub is_aborted : ExecutionStatus → Bool
is_aborted aborted = true
is_aborted _ = false

abbrev pub is_timeout : ExecutionStatus → Bool
is_timeout timeout = true
is_timeout _ = false
