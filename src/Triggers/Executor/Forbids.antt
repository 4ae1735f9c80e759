-- ===== src/Triggers/Executor/Forbids.antt =====
-- A run of execute keeps the matcher from the next one (executor.go and matcher.go).
use testkube.Base.{
  true, false, ◌==◌, ◌≡◌, refl, none, some, List, [], ◌∷◌, ◌++◌, ok, insert, lookup-insert, eq_refl,
  is_empty,
}
use testkube.Triggers.Status.{TriggerStatus, start, has_active_tests}
use testkube.Triggers.Trigger.{TestTrigger}
use testkube.Triggers.Service.{Statuses, key_of, get_status_for_trigger}
use testkube.Triggers.Match.{Calls, return, is_forbid, run_trigger}
use testkube.Triggers.Executor.{ExecutorCalls, get_items, finish, execute_items, execute}
use testkube.Triggers.Executor.Runs.{with_tests, add_all-tests}

is_empty-append {ℓ} :
    {A : Type ℓ} (xs ys : List A) → is_empty ys ≡ false → is_empty (xs ++ ys) ≡ false
is_empty-append [] ys h = h
is_empty-append (x ∷ xs) ys h = refl

module _ {L E T S : Type 0} (calls : ExecutorCalls L E T S) (matcher : Calls L E)
    (t : TestTrigger L) (m : Statuses L) (s : TriggerStatus (TestTrigger L)) (found : List T)
    (known : get_status_for_trigger t m ≡ some s) (test : (t.execution == "test") ≡ true)
    (got : get_items calls.tests t.test_selector ≡ ok found)
    (responded : is_empty (calls.run_tests found) ≡ false)
    (forbids : is_forbid t.concurrency_policy ≡ true) where
  after : TriggerStatus (TestTrigger L)
  after = start calls.now (with_tests (calls.run_tests found) s)

  after-active : has_active_tests after ≡ true
  unfolding after
  after-active =
      let e = is_empty-append s.test_execution_ids (calls.run_tests found) responded in rw e refl

  after-known : get_status_for_trigger t (insert (key_of t) after m) ≡ some after
  unfolding get_status_for_trigger
  after-known = rw (lookup-insert (key_of t) (key_of t) after m, eq_refl (key_of t)) refl

  skipped :
      run_trigger matcher t (insert (key_of t) after m)
      ≡ some (return none (insert (key_of t) after m))
  unfolding run_trigger
  skipped = rw (after-known, forbids, after-active) refl

  -- A trigger of tests that forbids concurrent runs, whose selector finds tests that the pool answers
  -- for, runs once: `execute` succeeds, and in the statuses that it leaves the matcher does not call it
  -- again for the trigger but returns nil.
  pub run_trigger-execute :
      (m' : Statuses L) × (execute calls t m ≡ some (m', none))
      × (run_trigger matcher t m' ≡ some (return none m'))
  unfolding execute execute_items finish after
  run_trigger-execute =
      let m' = insert (key_of t) after m in
      let added = add_all-tests (calls.run_tests found) s in
      (m', rw (test, execute_items, got, finish, known, added) refl, skipped)
