-- ===== src/Triggers/Scraper/Gone.antt =====
-- Which ids the loops of the scraper take off (scraper.go).
use testkube.Base.{
  Bool, true, false, not, ◌||◌, ◌≡◌, refl, sym, Option, none, some, if◌then◌else◌, inl, inr,
  Bool-cases, Option-cases,
}
use testkube.Model.Status.{ExecutionStatus, is_running, is_queued}
use testkube.Model.SuiteStatus
use testkube.Model.SuiteStatus.{SuiteStatus}
use testkube.Model.ExecutionResult.{ExecutionResult}
use testkube.Model.Execution.{Execution}
use testkube.Model.Suite.{SuiteExecution}
use testkube.Model.Suite.Failures.{ResultHasStatus}
use testkube.Model.Repository.{Fetched}
use testkube.Triggers.Scraper.{is_live, test_ended, test_aborted, suite_ended, suite_aborted}

-- The statuses of an execution, and of a suite, that has not ended.
abbrev alive : ExecutionStatus → Bool
alive ExecutionStatus.queued = true
alive ExecutionStatus.running = true
alive _ = false

abbrev suite_alive : Option SuiteStatus → Bool
suite_alive (some SuiteStatus.queued) = true
suite_alive (some SuiteStatus.running) = true
suite_alive _ = false

-- An execution with no result counts as live.
abbrev live_result : Option ExecutionResult → Bool
live_result none = true
live_result (some r) = elim r.status [ none ↦ false | some s ↦ alive s ]

alive_lem : (s : ExecutionStatus) → is_running s || is_queued s ≡ alive s
alive_lem ExecutionStatus.queued = refl
alive_lem ExecutionStatus.running = refl
alive_lem ExecutionStatus.passed = refl
alive_lem ExecutionStatus.failed = refl
alive_lem ExecutionStatus.aborted = refl
alive_lem ExecutionStatus.timeout = refl
alive_lem ExecutionStatus.skipped = refl
alive_lem ExecutionStatus.unset = refl

suite_alive_lem :
    (s : Option SuiteStatus)
    → elim s [ none ↦ false | some x ↦ SuiteStatus.is_running x ]
        || elim s [ none ↦ false | some x ↦ SuiteStatus.is_queued x ]
      ≡ suite_alive s
suite_alive_lem none = refl
suite_alive_lem (some SuiteStatus.queued) = refl
suite_alive_lem (some SuiteStatus.running) = refl
suite_alive_lem (some SuiteStatus.passed) = refl
suite_alive_lem (some SuiteStatus.failed) = refl
suite_alive_lem (some SuiteStatus.aborting) = refl
suite_alive_lem (some SuiteStatus.aborted) = refl
suite_alive_lem (some SuiteStatus.timeout) = refl

-- What the repository returned, if anything, has a status.
abbrev pub Fetches : Fetched Execution → Type 0
Fetches (Fetched.found e) = ResultHasStatus e.execution_result
Fetches Fetched.no_documents = Unit
Fetches Fetched.get_failed = Unit

-- The execution is in the repository and has ended, or is not there.
abbrev pub test_gone : Fetched Execution → Bool
test_gone (Fetched.found e) = not (live_result e.execution_result)
test_gone Fetched.no_documents = true
test_gone Fetched.get_failed = false

-- The execution was aborted, or is not there.
abbrev pub test_cleared : (Execution → Bool) → Fetched Execution → Bool
test_cleared abort (Fetched.found e) = if live_result e.execution_result then abort e else false
test_cleared abort Fetched.no_documents = true
test_cleared abort Fetched.get_failed = false

abbrev pub suite_gone : Fetched SuiteExecution → Bool
suite_gone (Fetched.found e) = not (suite_alive e.status)
suite_gone Fetched.no_documents = true
suite_gone Fetched.get_failed = false

abbrev pub suite_cleared : (SuiteExecution → Bool) → Fetched SuiteExecution → Bool
suite_cleared publish (Fetched.found e) = if suite_alive e.status then publish e else false
suite_cleared publish Fetched.no_documents = true
suite_cleared publish Fetched.get_failed = false

is_live_lem :
    (e : Execution)
    → ResultHasStatus e.execution_result
    → is_live e ≡ some (live_result e.execution_result)
is_live_lem e h = elim (Option-cases e.execution_result) [
  | inl lost ↦ rw lost refl
  | inr (r, there) ↦ elim (Option-cases r.status) [
    | inl nil ↦ absurd ((rw there at h) nil)
    | inr (s, status) ↦
        rw (there, status, sym (alive_lem s))
          (elim (Bool-cases (is_running s)) [ inl runs ↦ rw runs refl | inr waits ↦ rw waits refl ])
  ]
]

pub test_ended_lem : (f : Fetched Execution) → Fetches f → test_ended f ≡ some (test_gone f)
unfolding test_ended
test_ended_lem (Fetched.found e) h = rw (is_live_lem e h) refl
test_ended_lem Fetched.no_documents h = refl
test_ended_lem Fetched.get_failed h = refl

pub test_aborted_lem :
    (abort : Execution → Bool) (f : Fetched Execution)
    → Fetches f
    → test_aborted abort f ≡ some (test_cleared abort f)
unfolding test_aborted
test_aborted_lem abort (Fetched.found e) h = rw (is_live_lem e h) refl
test_aborted_lem abort Fetched.no_documents h = refl
test_aborted_lem abort Fetched.get_failed h = refl

pub suite_ended_lem : (f : Fetched SuiteExecution) → suite_ended f ≡ some (suite_gone f)
unfolding suite_ended
suite_ended_lem (Fetched.found e) = rw (suite_alive_lem e.status) refl
suite_ended_lem Fetched.no_documents = refl
suite_ended_lem Fetched.get_failed = refl

pub suite_aborted_lem :
    (publish : SuiteExecution → Bool) (f : Fetched SuiteExecution)
    → suite_aborted publish f ≡ some (suite_cleared publish f)
unfolding suite_aborted
suite_aborted_lem publish (Fetched.found e) = rw (suite_alive_lem e.status) refl
suite_aborted_lem publish Fetched.no_documents = refl
suite_aborted_lem publish Fetched.get_failed = refl
