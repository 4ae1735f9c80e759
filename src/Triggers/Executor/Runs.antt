-- ===== src/Triggers/Executor/Runs.antt =====
-- What execute leaves in the statuses of the triggers (executor.go).
use testkube.Base.{
  String, true, ◌==◌, ◌≡◌, refl, ◌∙◌, ◌⊎◌, inl, inr, Option, none, some, List, [], ◌∷◌, ◌++◌,
  append-nil, append_assoc, ok, insert, Bool-cases, Result-cases,
}
use testkube.Triggers.Status.{TriggerStatus, start, add_execution_id, add_test_suite_execution_id}
use testkube.Triggers.Trigger.{TestTrigger}
use testkube.Triggers.Service.{Statuses, key_of, get_status_for_trigger}
use testkube.Triggers.Executor.{
  Items, ExecutorCalls, ExecuteError, not_selected, invalid_execution, get_items, add_all, finish,
  execute_items, execute,
}

module _ {L : Type 0} where
  -- The ids follow those that the status has.
  abbrev pub with_tests :
      List String → TriggerStatus (TestTrigger L) → TriggerStatus (TestTrigger L)
  with_tests ids s = record s { test_execution_ids = s.test_execution_ids ++ ids }

  abbrev with_suites : List String → TriggerStatus (TestTrigger L) → TriggerStatus (TestTrigger L)
  with_suites ids s = record s { test_suite_execution_ids = s.test_suite_execution_ids ++ ids }

  pub add_all-tests :
      (ids : List String) (s : TriggerStatus (TestTrigger L))
      → add_all add_execution_id ids s ≡ with_tests ids s
  unfolding add_all
  add_all-tests [] s = rw (append-nil s.test_execution_ids) refl
  add_all-tests (id ∷ ids) s =
      add_all-tests ids (add_execution_id id s)
      ∙ rw (append_assoc s.test_execution_ids (id ∷ []) ids) refl

  add_all-suites :
      (ids : List String) (s : TriggerStatus (TestTrigger L))
      → add_all add_test_suite_execution_id ids s ≡ with_suites ids s
  unfolding add_all
  add_all-suites [] s = rw (append-nil s.test_suite_execution_ids) refl
  add_all-suites (id ∷ ids) s =
      add_all-suites ids (add_test_suite_execution_id id s)
      ∙ rw (append_assoc s.test_suite_execution_ids (id ∷ []) ids) refl

module _ {L E T S : Type 0} (calls : ExecutorCalls L E T S) (t : TestTrigger L)
    (m : Statuses L) where
  -- An error, and the statuses as they were.
  abbrev pub Failed : Statuses L × Option (ExecuteError E) → Type 0
  Failed r = ((x : ExecuteError E) × (r.1 ≡ some x)) × (r.0 ≡ m)

  -- Nil, and the status under the trigger's key is this one, started now.
  abbrev pub Started : TriggerStatus (TestTrigger L) → Statuses L × Option (ExecuteError E) → Type 0
  Started s' r = (r.1 ≡ none) × (r.0 ≡ insert (key_of t) (start calls.now s') m)

  module _ (s : TriggerStatus (TestTrigger L)) where
    -- The tests that the selector finds were run, and their ids stand behind those that were there.
    abbrev pub RanTests : Statuses L × Option (ExecuteError E) → Type 0
    RanTests r =
        ((t.execution == "test") ≡ true)
        × ((found : List T) × (get_items calls.tests t.test_selector ≡ ok found)
            × Started (with_tests (calls.run_tests found) s) r)

    abbrev pub RanTestSuites : Statuses L × Option (ExecuteError E) → Type 0
    RanTestSuites r =
        ((t.execution == "testsuite") ≡ true)
        × ((found : List S) × (get_items calls.test_suites t.test_selector ≡ ok found)
            × Started (with_suites (calls.run_test_suites found) s) r)

  module _ (s : TriggerStatus (TestTrigger L)) (known : get_status_for_trigger t m ≡ some s) where
    case-outcome :
        {I : Type 0} (items : Items L E I) (run : List I → List String)
        (add : String → TriggerStatus (TestTrigger L) → TriggerStatus (TestTrigger L))
        → (r : Statuses L × Option (ExecuteError E)) × (execute_items calls items run add t m
            ≡ some r)
          × (Failed r
              ⊎ ((found : List I) × (get_items items t.test_selector ≡ ok found)
                  × Started (add_all add (run found) s) r))
    unfolding execute_items finish
    case-outcome items run add = elim (Result-cases (get_items items t.test_selector)) [
      | inl (x, failed) ↦ (
        (m, some (not_selected x)),
        rw (failed, execute_items) refl,
        inl ((not_selected x, refl), refl),
      )
      | inr (found, got) ↦
          let m' = insert (key_of t) (start calls.now (add_all add (run found) s)) m in
          ((m', none), rw (got, known, execute_items) refl, inr (found, got, (refl, refl)))
    ]

    -- Of a trigger with a status, `execute` does not panic. When it returns an error, no status has
    -- changed. When it returns nil, the status of the trigger is started, it has the ids of the tests or
    -- of the test suites that were run behind those that it had, and no other status has changed.
    pub execute_lem :
        (r : Statuses L × Option (ExecuteError E)) × (execute calls t m ≡ some r)
        × (Failed r ⊎ (RanTests s r ⊎ RanTestSuites s r))
    unfolding execute
    execute_lem = elim (Bool-cases (t.execution == "test")) [
      | inl test ↦
          let (r, e, o) = case-outcome calls.tests calls.run_tests add_execution_id in
          (
            r,
            rw test e,
            elim o [
              | inl failed ↦ inl failed
              | inr (found, got, started) ↦ inr (
                  inl (test, (found, got, rw (add_all-tests (calls.run_tests found) s) at started)))
            ],
          )
      | inr other ↦ elim (Bool-cases (t.execution == "testsuite")) [
        | inl suite ↦
            let (r, e, o) =
              case-outcome calls.test_suites calls.run_test_suites add_test_suite_execution_id in
            (
              r,
              rw (other, suite) e,
              elim o [
                | inl failed ↦ inl failed
                | inr (found, got, started) ↦ inr (
                    inr (
                      suite,
                      (found, got, rw (add_all-suites (calls.run_test_suites found) s) at started),
                    ))
              ],
            )
        | inr neither ↦
            let x = invalid_execution t.execution in
            ((m, some x), rw (other, neither) refl, inl ((x, refl), refl))
      ]
    ]
