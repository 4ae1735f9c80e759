-- ===== src/Triggers/Scraper/Ticks.antt =====
-- What a tick of the scraper and an abort leave on the status of a trigger (scraper.go).
use testkube.Base.{
  ℕ, String, Bool, true, false, not, ◌||◌, ◌≡◌, refl, Option, some, List, [], ◌∷◌, All, select,
  is_empty, if◌then◌else◌, inl, inr, Bool-cases,
}
use testkube.Model.Execution.{Execution}
use testkube.Model.Suite.{SuiteExecution}
use testkube.Triggers.Status.{TriggerStatus, remove_execution_id, remove_test_suite_execution_id}
use testkube.Model.Repository.{Fetched}
use testkube.Triggers.Scraper.{
  test_ended, test_aborted, suite_ended, suite_aborted, done_if_idle, scrape, abort_executions,
  check_for_running_test_executions, abort_running_test_executions,
  check_for_running_test_suite_executions, abort_running_test_suite_executions, sweep,
}
use testkube.Triggers.Scraper.Sweep.{IsNoDup, Decides, left, sweep_lem, sweep_tests, sweep_suites}
use testkube.Triggers.Scraper.Gone.{
  Fetches, test_gone, test_cleared, suite_gone, suite_cleared, test_ended_lem, test_aborted_lem,
  suite_ended_lem, suite_aborted_lem,
}

module _ {ℓ κ} {A : Type ℓ} (P : A → Type κ) (h : (x : A) → P x) where
  All-of : (xs : List A) → All P xs
  All-of [] = tt
  All-of (x ∷ xs) = (h x, All-of xs)

module _ {T : Type 0} (ended : String → Option Bool) (gone : String → Bool)
    (decides : (id : String) → Decides ended gone id) (s : TriggerStatus T) where
  tests_left :
      IsNoDup s.test_execution_ids
      → sweep remove_execution_id ended s.test_execution_ids s
        ≡ some (record s { test_execution_ids = left ended gone s.test_execution_ids })
  tests_left u =
      rw
        (
          sweep_tests ended s.test_execution_ids s,
          sweep_lem ended gone s.test_execution_ids (All-of _ decides _) u,
        )
        refl

  suites_left :
      IsNoDup s.test_suite_execution_ids
      → sweep remove_test_suite_execution_id ended s.test_suite_execution_ids s
        ≡ some (record s { test_suite_execution_ids = left ended gone s.test_suite_execution_ids })
  suites_left u =
      rw
        (
          sweep_suites ended s.test_suite_execution_ids s,
          sweep_lem ended gone s.test_suite_execution_ids (All-of _ decides _) u,
        )
        refl

module _ {T : Type 0} (tests_gone suites_gone : String → Bool) where
  -- The status without the ids that are gone.
  abbrev pub without : TriggerStatus T → TriggerStatus T
  without s = record s {
    test_execution_ids = select (λ id. not (tests_gone id)) s.test_execution_ids;
    test_suite_execution_ids = select (λ id. not (suites_gone id)) s.test_suite_execution_ids;
  }

abbrev is_idle : List String → List String → Bool
is_idle [] [] = true
is_idle _ _ = false

is_idle_lem :
    (tests suites : List String)
    → not (is_empty tests) || not (is_empty suites) ≡ not (is_idle tests suites)
is_idle_lem [] [] = refl
is_idle_lem [] (x ∷ suites) = refl
is_idle_lem (x ∷ tests) suites = refl

-- The status with these ids left, which has finished now if there are none.
abbrev pub settled :
    {T : Type 0} → ℕ → List String → List String → TriggerStatus T → TriggerStatus T
settled now tests suites s = record s {
  test_execution_ids = tests;
  test_suite_execution_ids = suites;
  last_execution_finished = if is_idle tests suites then some now else s.last_execution_finished;
}

done_if_idle_lem :
    {T : Type 0} (now : ℕ) (s : TriggerStatus T)
    → done_if_idle now s ≡ settled now s.test_execution_ids s.test_suite_execution_ids s
done_if_idle_lem now s =
    rw (is_idle_lem s.test_execution_ids s.test_suite_execution_ids)
      (elim (Bool-cases (is_idle s.test_execution_ids s.test_suite_execution_ids)) [
        | inl idle ↦ rw idle refl
        | inr busy ↦ rw busy refl
      ])

module _ {T : Type 0} (get : String → Fetched Execution)
    (get_suite : String → Fetched SuiteExecution) (fetches : (id : String) → Fetches (get id))
    (now : ℕ) (s : TriggerStatus T) (tests : IsNoDup s.test_execution_ids)
    (suites : IsNoDup s.test_suite_execution_ids) where
  -- A tick of the scraper over a status in which no id stands twice, where every test execution that is
  -- fetched has a result without a nil status, leaves alone a status that has no ids. Of any other it
  -- keeps exactly the ids of the executions that cannot be read or are queued or running (or, for a
  -- test, have no result), so that those that have ended or are not found are taken off; if none is
  -- left, the status has finished now, and otherwise the time at which it finished is kept.
  pub scrape_lem :
      scrape get get_suite now s
      ≡ some (
          if is_idle s.test_execution_ids s.test_suite_execution_ids
          then s
          else settled now
              (select (λ id. not (test_gone (get id))) s.test_execution_ids)
              (select (λ id. not (suite_gone (get_suite id))) s.test_suite_execution_ids)
              s)
  unfolding scrape check_for_running_test_executions check_for_running_test_suite_executions
  scrape_lem =
      rw
        (
          tests_left (λ id. test_ended (get id)) (λ id. test_gone (get id))
              (λ id. test_ended_lem (get id) (fetches id)) s tests,
          suites_left (λ id. suite_ended (get_suite id)) (λ id. suite_gone (get_suite id))
              (λ id. suite_ended_lem (get_suite id))
              (record s {
                test_execution_ids = select (λ id. not (test_gone (get id))) s.test_execution_ids;
              })
              suites,
          is_idle_lem s.test_execution_ids s.test_suite_execution_ids,
          done_if_idle_lem now (record s {
            test_execution_ids = select (λ id. not (test_gone (get id))) s.test_execution_ids;
            test_suite_execution_ids =
                select (λ id. not (suite_gone (get_suite id))) s.test_suite_execution_ids;
          }),
        )
        (elim (Bool-cases (is_idle s.test_execution_ids s.test_suite_execution_ids)) [
          | inl idle ↦ rw idle refl
          | inr busy ↦ rw busy refl
        ])

  -- Aborting the executions of such a status takes off the ids that are not found and those of the
  -- running or queued executions that could be aborted: an execution that has ended stays. If none is
  -- left, the status is marked as finished.
  pub abort_executions_lem :
      (abort : Execution → Bool) (publish : SuiteExecution → Bool)
      → abort_executions get get_suite abort publish now s
        ≡ some (
            done_if_idle now (
              without
                (λ id. test_cleared abort (get id))
                (λ id. suite_cleared publish (get_suite id))
                s))
  unfolding abort_executions abort_running_test_executions abort_running_test_suite_executions
  abort_executions_lem abort publish =
      rw
        (
          tests_left (λ id. test_aborted abort (get id)) (λ id. test_cleared abort (get id))
              (λ id. test_aborted_lem abort (get id) (fetches id)) s tests,
          suites_left (λ id. suite_aborted publish (get_suite id))
              (λ id. suite_cleared publish (get_suite id))
              (λ id. suite_aborted_lem publish (get_suite id))
              (record s {
                test_execution_ids =
                    select (λ id. not (test_cleared abort (get id))) s.test_execution_ids;
              })
              suites,
        )
        refl
