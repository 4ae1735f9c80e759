-- ===== src/Model/Suite/Started.antt =====
-- What NewStartedTestSuiteExecution builds (model_test_suite_execution_extended.go).
use testkube.Base.{
  ℕ, suc, String, ◌≡◌, refl, ap, ◌↔◌, ◌≢◌, Option, none, some, List, [], ◌∷◌, ◌++◌, Map, map, All,
  arith, lookup, lookup-insert_all, IsMap, or_else, Option-cases, inl, inr, ◌⊎◌,
}
use testkube.Model.Status.{ExecutionStatus}
use testkube.Model.SuiteStatus.{SuiteStatus}
use testkube.Model.Data.{Variable}
use testkube.Model.Execution.{Execution}
use testkube.Model.ExecutionResult.{empty_result, set_status}
use testkube.Model.Suite.{
  SuiteStep, SuiteStepResult, BatchStep, BatchResult, TestSuite, SuiteExecutionRequest,
  SuiteExecution, NilMap, queued_steps, count_steps, queued_batches, override_variables,
  suite_variables, new_started,
}

abbrev pub IsQueued : SuiteStepResult → Type 0
IsQueued r =
    (x : Execution) × (r.execution ≡ some x)
    × (x.execution_result ≡ some (set_status ExecutionStatus.queued empty_result))

abbrev pub batches : TestSuite → List BatchStep
batches suite = (suite.before ++ suite.steps) ++ suite.after

-- The variables of a map that may be nil.
abbrev pub entries : NilMap Variable → Map Variable
entries none = []
entries (some m) = m

-- The variable that an execution request, if there is one, has under a key.
abbrev pub of_suite : String → Option SuiteExecutionRequest → Option Variable
of_suite k none = none
of_suite k (some r) = lookup k (entries r.variables)

of_suite_lem :
    (k : String) (r : Option SuiteExecutionRequest)
    → of_suite k r ≡ lookup k (entries (suite_variables r))
unfolding lookup
of_suite_lem k none = refl
of_suite_lem k (some r) = refl

-- The request has a variable while the suite has an execution request with a nil map of variables.
abbrev pub WritesNil : TestSuite → SuiteExecutionRequest → Type 0
WritesNil suite request =
    (r : SuiteExecutionRequest) × (suite.execution_request ≡ some r)
    × (r.variables ≡ none)
    × (entries request.variables ≢ [])

suite_variables-eq-none :
    (o : Option SuiteExecutionRequest)
    → (suite_variables o ≡ none)
      ↔ ((r : SuiteExecutionRequest) × (o ≡ some r) × (r.variables ≡ none))
suite_variables-eq-none none = (λ h. absurd (ground arith), λ (r, e, h). absurd (cc e))
suite_variables-eq-none (some r) = (λ h. (r, refl, h), λ (r', e, h). (let same : r ≡ r' = cc in cc))

abbrev pub steps_of : BatchResult → List (Option SuiteStep)
steps_of b = map (λ r. r.step) b.execute

module _ (new_id : ℕ → String) where
  queued_steps-step :
      (n : ℕ) (ss : List SuiteStep) → map (λ r. r.step) (queued_steps new_id n ss) ≡ map some ss
  unfolding queued_steps
  queued_steps-step n [] = refl
  queued_steps-step n (s ∷ ss) = ap (◌∷◌ (some s)) (queued_steps-step (suc n) ss)

  queued_steps-IsQueued : (n : ℕ) (ss : List SuiteStep) → All IsQueued (queued_steps new_id n ss)
  unfolding queued_steps
  queued_steps-IsQueued n [] = tt
  queued_steps-IsQueued n (s ∷ ss) = ((_, refl, refl), queued_steps-IsQueued (suc n) ss)

  queued_batches-step :
      (n : ℕ) (bs : List BatchStep) → map (λ b. b.step) (queued_batches new_id n bs) ≡ map some bs
  unfolding queued_batches
  queued_batches-step n [] = refl
  queued_batches-step n (b ∷ bs) = ap (◌∷◌ (some b)) (queued_batches-step _ bs)

  queued_batches-steps_of :
      (n : ℕ) (bs : List BatchStep)
      → map steps_of (queued_batches new_id n bs) ≡ map (λ b. map some b.execute) bs
  unfolding queued_batches
  queued_batches-steps_of n [] = refl
  queued_batches-steps_of n (b ∷ bs) =
      cc (queued_steps-step n b.execute, queued_batches-steps_of (count_steps n b.execute) bs)

  queued_batches-IsQueued :
      (n : ℕ) (bs : List BatchStep) → All (λ b. All IsQueued b.execute) (queued_batches new_id n bs)
  unfolding queued_batches
  queued_batches-IsQueued n [] = tt
  queued_batches-IsQueued n (b ∷ bs) =
      (queued_steps-IsQueued n b.execute, queued_batches-IsQueued _ bs)

  module _ (now : ℕ) (suite : TestSuite) (request : SuiteExecutionRequest) where
    nil_written :
        (new_started new_id now suite request ≡ none)
        ↔ ((entries request.variables ≢ []) × (suite_variables suite.execution_request ≡ none))
    unfolding new_started override_variables
    nil_written = ground arith

    new_started-eq-none : (new_started new_id now suite request ≡ none) ↔ WritesNil suite request
    new_started-eq-none =
        let (panics, does) = nil_written in
        let (lost, is_lost) = suite_variables-eq-none suite.execution_request in
        (
          λ h. (let (r, given, nil) = lost (panics h).1 in (r, given, nil, (panics h).0)),
          λ (r, given, nil, some_set). does (some_set, is_lost (r, given, nil)),
        )

    new_started-variables :
        (e : SuiteExecution) (k : String)
        → IsMap (entries request.variables)
        → new_started new_id now suite request ≡ some e
        → lookup k (entries e.variables)
          ≡ or_else (lookup k (entries request.variables)) (of_suite k suite.execution_request)
    unfolding new_started override_variables lookup
    new_started-variables e k m h = rw (of_suite_lem k suite.execution_request) (
        ground (
          arith,
          lookup-insert_all k (entries request.variables)
              (entries (suite_variables suite.execution_request)),
        ))

    -- A started test-suite execution is running, has one batch result for each batch of the suite,
    -- those before, the steps and those after in this order, each with one result for each of its
    -- steps in order, and every result is a queued execution.
    pub new_started-steps :
        (e : SuiteExecution)
        → new_started new_id now suite request ≡ some e
        → (e.status ≡ some SuiteStatus.running)
          × (map (λ b. b.step) e.execute_step_results ≡ map some (batches suite))
          × (map steps_of e.execute_step_results ≡ map (λ b. map some b.execute) (batches suite))
          × All (λ b. All IsQueued b.execute) e.execute_step_results
    unfolding new_started
    new_started-steps e h =
        let fields : (e.status ≡ some SuiteStatus.running)
            × (e.execute_step_results ≡ queued_batches new_id 1 (batches suite)) =
          ground arith in
        rw fields.1 (
          fields.0,
          queued_batches-step 1 (batches suite),
          queued_batches-steps_of 1 (batches suite),
          queued_batches-IsQueued 1 (batches suite),
        )

    -- When no key of the request's variables stands twice, starting a test-suite execution either
    -- panics, and then it writes a variable of the request into the nil map of the suite's execution
    -- request; or it does no such thing and gives an execution, in which the variable of a key is the
    -- one of the request if that has the key, otherwise the one of the suite's execution request if
    -- there is one that has it, and there is no other.
    pub new_started_cases :
        IsMap (entries request.variables)
        → ((new_started new_id now suite request ≡ none) × WritesNil suite request)
          ⊎ ((e : SuiteExecution) × (new_started new_id now suite request ≡ some e)
              × (WritesNil suite request → ⊥)
              × ((k : String)
                  → lookup k (entries e.variables)
                    ≡ or_else
                        (lookup k (entries request.variables))
                        (of_suite k suite.execution_request)))
    new_started_cases m = elim (Option-cases (new_started new_id now suite request)) [
      | inl panics ↦ inl (panics, new_started-eq-none.0 panics)
      | inr (e, starts) ↦ inr (
        e,
        starts,
        (λ writes. let panics = new_started-eq-none.1 writes in cc),
        λ k. new_started-variables e k m starts,
      )
    ]
