-- ===== src/Model/Suite/Failures.antt =====
-- FailedStepsCount (model_test_suite_execution_extended.go).
use testkube.Base.{
  ℕ, suc, ◌+◌, Bool, true, false, ◌≡◌, refl, ◌∙◌, ◌≢◌, Option, none, some, List, [], ◌∷◌, All, any,
  select, length, arith, inl, inr, Bool-cases,
}
use testkube.Model.Status
use testkube.Model.ExecutionResult.{ExecutionResult}
use testkube.Model.Suite.{
  SuiteStepResult, BatchResult, SuiteExecution, execution_failed, count_failed, any_failed,
  count_failed_batches, failed_steps_count,
}

abbrev pub ResultHasStatus : Option ExecutionResult → Type 0
ResultHasStatus none = Unit
ResultHasStatus (some r) = r.status ≢ none

-- The step has no execution, or one with no result, or one whose result has a status.
abbrev pub HasStatus : SuiteStepResult → Type 0
HasStatus r = elim r.execution [ none ↦ Unit | some e ↦ ResultHasStatus e.execution_result ]

abbrev failed_result : Option ExecutionResult → Bool
failed_result none = true
failed_result (some r) = elim r.status [ none ↦ false | some s ↦ Status.is_failed s ]

-- The step has an execution, and that has no result or failed.
abbrev pub has_failed : SuiteStepResult → Bool
has_failed r = elim r.execution [ none ↦ false | some e ↦ failed_result e.execution_result ]

execution_failed_lem :
    (r : SuiteStepResult) → HasStatus r → execution_failed r ≡ some (has_failed r)
execution_failed_lem r h = ground arith

count_failed_lem :
    (rs : List SuiteStepResult) (n : ℕ)
    → All HasStatus rs
    → count_failed rs n ≡ some (n + length (select has_failed rs))
unfolding count_failed
count_failed_lem [] n h = ground arith
count_failed_lem (r ∷ rs) n h = rw (execution_failed_lem r h.0) (elim (Bool-cases (has_failed r)) [
  | inl bad ↦ rw bad (count_failed_lem rs (suc n) h.1 ∙ ground arith)
  | inr good ↦ rw good (count_failed_lem rs n h.1)
])

any_failed_lem :
    (rs : List SuiteStepResult) → All HasStatus rs → any_failed rs ≡ some (any has_failed rs)
unfolding any_failed
any_failed_lem [] h = refl
any_failed_lem (r ∷ rs) h = rw (execution_failed_lem r h.0) (ground (arith, any_failed_lem rs h.1))

abbrev pub batch_failed : BatchResult → Bool
batch_failed b = any has_failed b.execute

count_failed_batches_lem :
    (bs : List BatchResult) (n : ℕ)
    → All (λ b. All HasStatus b.execute) bs
    → count_failed_batches bs n ≡ some (n + length (select batch_failed bs))
unfolding count_failed_batches
count_failed_batches_lem [] n h = ground arith
count_failed_batches_lem (b ∷ bs) n h =
    rw (any_failed_lem b.execute h.0) (elim (Bool-cases (batch_failed b)) [
      | inl bad ↦ rw bad (count_failed_batches_lem bs (suc n) h.1 ∙ ground arith)
      | inr good ↦ rw good (count_failed_batches_lem bs n h.1)
    ])

-- Where no status pointer is nil, the count of failed steps is the number of failed results in the
-- unbatched form plus the number of batches that have a failed step.
pub failed_steps_count_lem :
    (e : SuiteExecution)
    → All HasStatus e.step_results
    → All (λ b. All HasStatus b.execute) e.execute_step_results
    → failed_steps_count e
      ≡ some (
          length (select has_failed e.step_results)
          + length (select batch_failed e.execute_step_results))
unfolding failed_steps_count
failed_steps_count_lem e hs hb =
    rw (count_failed_lem e.step_results 0 hs)
      (count_failed_batches_lem e.execute_step_results _ hb ∙ ground arith)
