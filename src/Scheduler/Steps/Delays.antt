-- ===== src/Scheduler/Steps/Delays.antt =====
-- What a batch of delays leaves (delayWithAbortionCheck in testsuite_scheduler.go).
use testkube.Base.{
  ℕ, String, true, false, ◌≡◌, refl, Option, none, some, List, [], ◌∷◌, map, All, nat_eq, arith,
  Bool-cases, inl, inr,
}
use testkube.Model.Status.{ExecutionStatus}
use testkube.Model.ExecutionResult
use testkube.Model.ExecutionResult.{ExecutionResult}
use testkube.Model.Execution.{Execution}
use testkube.Model.Suite.{SuiteStepResult}
use testkube.Scheduler.Steps.{
  Duration, timer_fired, TestTuple, collect, change_some, change_execution, has_delay, finish_delay,
  delay_with_abortion_check, execute_test_step,
}

abbrev pub ResultHas : ExecutionStatus → Option ExecutionResult → Type 0
ResultHas status none = Unit
ResultHas status (some x) = x.status ≡ some status

-- The result of the execution, if there is one, has the status.
abbrev pub ExecutionHas : ExecutionStatus → Option Execution → Type 0
ExecutionHas status none = Unit
ExecutionHas status (some e) = ResultHas status e.execution_result

-- The step has no delay, or its result is passed.
abbrev pub Delayed : SuiteStepResult → Type 0
Delayed r = has_delay r ≡ true → ExecutionHas ExecutionStatus.passed r.execution

passed_result :
    (o : Option ExecutionResult)
    → ResultHas ExecutionStatus.passed (change_some ExecutionResult.success o)
passed_result none = tt
passed_result (some x) = refl

passed_execution :
    (o : Option Execution)
    → ExecutionHas ExecutionStatus.passed (change_execution ExecutionResult.success o)
passed_execution none = tt
passed_execution (some e) = passed_result e.execution_result

finish_delay-Delayed : (r : SuiteStepResult) → Delayed (finish_delay r)
unfolding finish_delay
finish_delay-Delayed r = elim (Bool-cases (has_delay r)) [
  | inl delay ↦ rw delay (λ _. passed_execution r.execution)
  | inr none_here ↦ rw none_here (λ h. absurd (ground arith))
]

finish_delays : (rs : List SuiteStepResult) → All Delayed (map finish_delay rs)
finish_delays [] = tt
finish_delays (r ∷ rs) = (finish_delay-Delayed r, finish_delays rs)

module _ (parse_duration : String → Duration) (new_id : ℕ → String) where
  -- When the timer of a batch without tests has fired, every step of it that has a delay and an
  -- execution is passed: also one whose delay could not be parsed, which was marked as failed before.
  pub execute_test_step-delays :
      (run : List TestTuple → List Execution) (rs : List SuiteStepResult)
      → (collect parse_duration new_id 0 rs).test_tuples ≡ []
      → (nat_eq (collect parse_duration new_id 0 rs).duration 0) ≡ false
      → All Delayed (execute_test_step parse_duration new_id run timer_fired rs)
  unfolding execute_test_step delay_with_abortion_check
  execute_test_step-delays run rs no_tests waits =
      rw (no_tests, waits) (finish_delays (collect parse_duration new_id 0 rs).results)
