-- ===== src/Triggers/Executor.antt =====
-- pkg/triggers/executor.go: the tests or test suites that a trigger runs, and what it keeps of them.
pub mod Selection
pub mod Runs
pub mod Forbids
use testkube.Base.{
  ℕ, String, Bool, ◌==◌, Option, none, some, List, [], ◌∷◌, ◌++◌, Result, ok, err, select, insert,
  if◌then◌else◌, ◌>>=◌,
}
use testkube.Triggers.Status.{TriggerStatus, start, add_execution_id, add_test_suite_execution_id}
use testkube.Triggers.Trigger.{Selector, TestTrigger}
use testkube.Triggers.Service.{Statuses, key_of, get_status_for_trigger}

-- The client of the operator for one kind of item, tests or test suites, `regexp.Compile`, and
-- `LabelSelectorAsSelector` followed by `String`.
pub record Items (L E I : Type 0) : Type 0 where
  pub get : String → Result E I
  pub list : String → Result E (List I)
  pub name_of : I → String
  pub compile : String → Result E (String → Bool)
  pub stringified : L → Result E String

module _ {L E I : Type 0} (items : Items L E I) where
  -- What each of the three blocks of `getTests` and of `getTestSuites` appends, or the error that it
  -- returns.
  unfoldable pub by_name : Selector L → Result E (List I)
  by_name s =
      if s.name == "" then ok [] else elim (items.get s.name) [ err x ↦ err x | ok i ↦ ok (i ∷ []) ]

  unfoldable pub by_name_regex : Selector L → Result E (List I)
  by_name_regex s = if s.name_regex == "" then ok [] else elim (items.list "") [
    | err x ↦ err x
    | ok found ↦ elim (items.compile s.name_regex) [
      | err x ↦ err x
      | ok matches ↦ ok (select (λ i. matches (items.name_of i)) found)
    ]
  ]

  unfoldable pub by_labels : Selector L → Result E (List I)
  by_labels s = elim s.label_selector [
    | none ↦ ok []
    | some l ↦ elim (items.stringified l) [ err x ↦ err x | ok labels ↦ items.list labels ]
  ]

  -- `getTests` and `getTestSuites`
  unfoldable pub get_items : Selector L → Result E (List I)
  unfolding by_name by_name_regex by_labels
  get_items s = elim (by_name s) [
    | err x ↦ err x
    | ok named ↦ elim (by_name_regex s) [
      | err x ↦ err x
      | ok matched ↦ elim (by_labels s) [
        | err x ↦ err x
        | ok labelled ↦ ok ((named ++ matched) ++ labelled)
      ]
    ]
  ]

pub data ExecuteError (E : Type 0) : Type 0 where
  not_selected : E → ExecuteError E
  invalid_execution : String → ExecuteError E

-- `run_tests` and `run_test_suites` give the ids of the results that `wp.GetResponses()` sends for the
-- requests, in the order in which they come.
pub record ExecutorCalls (L E T S : Type 0) : Type 0 where
  pub tests : Items L E T
  pub test_suites : Items L E S
  pub run_tests : List T → List String
  pub run_test_suites : List S → List String
  pub now : ℕ

module _ {L : Type 0} where
  -- The loops over the responses.
  unfoldable pub add_all :
      (String → TriggerStatus (TestTrigger L) → TriggerStatus (TestTrigger L))
      → List String
      → TriggerStatus (TestTrigger L)
      → TriggerStatus (TestTrigger L)
  add_all add [] s = s
  add_all add (id ∷ ids) s = add_all add ids (add id s)

  -- The status that `execute` looked up first gets the ids and is started; `none` is the panic of its
  -- lock when it is nil.
  unfoldable pub finish :
      ℕ
      → (String → TriggerStatus (TestTrigger L) → TriggerStatus (TestTrigger L))
      → List String
      → TestTrigger L
      → Statuses L
      → Option (Statuses L)
  unfolding get_status_for_trigger key_of insert add_all
  finish now add ids t m =
      get_status_for_trigger t m >>= λ s. some (insert (key_of t) (start now (add_all add ids s)) m)

module _ {L E T S : Type 0} (calls : ExecutorCalls L E T S) where
  -- One case of the switch: the statuses and the error; `none` is a panic.
  unfoldable pub execute_items :
      {I : Type 0}
      → Items L E I
      → (List I → List String)
      → (String → TriggerStatus (TestTrigger L) → TriggerStatus (TestTrigger L))
      → TestTrigger L
      → Statuses L
      → Option (Statuses L × Option (ExecuteError E))
  unfolding get_items finish
  execute_items items run add t m = elim (get_items items t.test_selector) [
    | err x ↦ some (m, some (not_selected x))
    | ok found ↦ finish calls.now add (run found) t m >>= λ m'. some (m', none)
  ]

  unfoldable pub execute :
      TestTrigger L → Statuses L → Option (Statuses L × Option (ExecuteError E))
  unfolding execute_items
  execute t m =
      if t.execution == "test"
      then execute_items calls.tests calls.run_tests add_execution_id t m
      else if t.execution == "testsuite"
      then execute_items calls.test_suites calls.run_test_suites add_test_suite_execution_id t m
      else some (m, some (invalid_execution t.execution))
