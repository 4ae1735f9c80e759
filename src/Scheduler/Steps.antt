-- ===== src/Scheduler/Steps.antt =====
-- pkg/scheduler/testsuite_scheduler.go: executeTestStep and delayWithAbortionCheck, one batch of steps.
pub mod Delays
pub mod Responses
use testkube.Base.{
  ℕ, suc, String, Bool, true, false, not, ◌==◌, Option, none, some, List, [], ◌∷◌, ◌++◌, Map, map,
  is_empty, insert, lookup, or_else, nat_eq, ltb, concat, if◌then◌else◌,
}
use testkube.Model.ExecutionResult
use testkube.Model.ExecutionResult.{ExecutionResult}
use testkube.Model.Execution.{Execution}
use testkube.Model.Suite.{SuiteStep, StepType, SuiteStepResult, step_type, step_err}

-- How the wait for the longest delay ends.
pub data DelayEnd : Type 0 where
  timer_fired delay_aborted : DelayEnd

-- `ParseDuration` of package time: the duration, or the text of the error. A negative duration counts as
-- 0, since the code only compares durations with ones that are not negative.
pub data Duration : Type 0 where
  parsed : ℕ → Duration
  unparsed : String → Duration

-- `testTuple`
pub record TestTuple : Type 0 where
  pub test : String
  pub execution_id : String

pub record Collected : Type 0 where
  pub results : List SuiteStepResult
  pub test_tuples : List TestTuple
  pub duration : ℕ

abbrev with_result : SuiteStepResult → Collected → Collected
with_result r c = record c { results = r ∷ c.results }

abbrev pub max : ℕ → ℕ → ℕ
max a b = if ltb b a then a else b

abbrev pub change_some :
    (ExecutionResult → ExecutionResult) → Option ExecutionResult → Option ExecutionResult
change_some f none = none
change_some f (some x) = some (f x)

abbrev pub change_execution :
    (ExecutionResult → ExecutionResult) → Option Execution → Option Execution
change_execution f none = none
change_execution f (some e) =
    some (record e { execution_result = change_some f e.execution_result })

-- `if result.Execute[i].Execution != nil && result.Execute[i].Execution.ExecutionResult != nil`, and a
-- change of the execution result.
abbrev pub change_result : (ExecutionResult → ExecutionResult) → SuiteStepResult → SuiteStepResult
change_result f r = record r { execution = change_execution f r.execution }

-- The step has a delay, which is not the empty text.
abbrev pub has_delay : SuiteStepResult → Bool
has_delay r = elim r.step [ none ↦ false | some s ↦ not (s.delay == "") ]

-- The body of the loop after the timer has fired: every step with a delay is passed.
unfoldable pub finish_delay : SuiteStepResult → SuiteStepResult
finish_delay r = if has_delay r then change_result ExecutionResult.success r else r

abbrev delay_of : SuiteStepResult → String
delay_of r = elim r.step [ none ↦ "" | some s ↦ s.delay ]

abbrev has_result : SuiteStepResult → Bool
has_result r = elim r.execution [
  | none ↦ false
  | some e ↦ elim e.execution_result [ none ↦ false | some x ↦ true ]
]

-- The loop over the responses of the pool, which come in any order.
unfoldable pub response_map : List Execution → Map Execution → Map Execution
unfolding insert
response_map [] m = m
response_map (e ∷ es) m = response_map es (insert e.id e m)

abbrev pub store_execution : Map Execution → Option Execution → Option Execution
store_execution m none = none
store_execution m (some e) = or_else (lookup e.id m) (some e)

-- The body of the loop that gives the steps their responses.
unfoldable pub store_response : Map Execution → SuiteStepResult → SuiteStepResult
unfolding lookup
store_response m r = record r { execution = store_execution m r.execution }

module _ (parse_duration : String → Duration) (new_id : ℕ → String) where
  -- The first loop of `executeTestStep`, from the back: a step that cannot run is marked as failed
  -- (`new_id` gives an id to a step without an execution), a test is kept for the pool, and the longest
  -- delay is found.
  unfoldable pub collect : ℕ → List SuiteStepResult → Collected
  unfolding step_type
  collect i [] = record { results = []; test_tuples = []; duration = 0 }
  collect i (r ∷ rs) =
      let c = collect (suc i) rs in
      elim r.step [
        | none ↦ with_result r c
        | some s ↦ elim (step_type s) [
          | none ↦
              with_result
                (step_err (new_id i) "can't find handler for execution step type: '<nil>'" r) c
          | some t ↦ elim t [
            | StepType.execute_test ↦ elim r.execution [
              | none ↦ with_result r c
              | some e ↦ record c {
                results = r ∷ c.results;
                test_tuples = record { test = s.test; execution_id = e.id } ∷ c.test_tuples;
              }
            ]
            | StepType.delay ↦ elim (parse_duration s.delay) [
              | parsed d ↦ record c { results = r ∷ c.results; duration = max d c.duration }
              | unparsed message ↦ with_result (step_err (new_id i) message r) c
            ]
          ]
        ]
      ]

  -- The body of the loop after an abort.
  unfoldable pub abort_delay : ℕ → ℕ → SuiteStepResult → SuiteStepResult
  abort_delay duration i r =
      if not (has_delay r)
      then r
      else if not (has_result r)
      then r
      else elim (parse_duration (delay_of r)) [
        | unparsed message ↦ step_err (new_id i) message r
        | parsed d ↦
            if ltb d duration
            then change_result ExecutionResult.success r
            else change_result ExecutionResult.abort r
      ]

  unfoldable pub abort_delays : ℕ → ℕ → List SuiteStepResult → List SuiteStepResult
  unfolding abort_delay
  abort_delays duration i [] = []
  abort_delays duration i (r ∷ rs) = abort_delay duration i r ∷ abort_delays duration (suc i) rs

  -- Which of the two comes first is an argument.
  unfoldable pub delay_with_abortion_check :
      DelayEnd → ℕ → List SuiteStepResult → List SuiteStepResult
  unfolding finish_delay abort_delays
  delay_with_abortion_check timer_fired duration rs = map finish_delay rs
  delay_with_abortion_check delay_aborted duration rs = abort_delays duration 0 rs

  -- `run` is what the worker pool makes of the tests.
  unfoldable pub execute_test_step :
      (List TestTuple → List Execution) → DelayEnd → List SuiteStepResult → List SuiteStepResult
  unfolding collect delay_with_abortion_check response_map store_response
  execute_test_step run ends rs =
      let c = collect 0 rs in
      let waited =
        if nat_eq c.duration 0
        then c.results
        else delay_with_abortion_check ends c.duration c.results in
      if is_empty c.test_tuples
      then waited
      else map (store_response (response_map (run c.test_tuples) [])) waited
