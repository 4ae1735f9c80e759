-- ===== src/Reconciler/Suites.antt =====
-- Which status a suite that nothing runs any more gets (ProcessTestSuites in reconciler.go).
use testkube.Base.{
  String, Bool, true, false, ◌≡◌, ◌≢◌, ◌↔◌, ◌⊎◌, refl, sym, subst, ◌∙◌, Option, none, some, List,
  [], ◌∷◌, All, arith, Bool-cases, Option-cases, inl, inr,
}
use testkube.Model.Status.{ExecutionStatus}
use testkube.Model.SuiteStatus.{SuiteStatus}
use testkube.Model.ExecutionResult.{ExecutionResult}
use testkube.Model.Execution.{Execution}
use testkube.Model.Suite.{SuiteStepResult}
use testkube.Model.Repository.{Fetched}
use testkube.Reconciler.{
  Verdict, go_on, stop, Scan, get_error, still_running, ended, test_id, is_get_failed,
  fetched_result, result_verdict, step_verdict, scan_steps,
}

abbrev pub is_fine : ExecutionStatus → Bool
is_fine ExecutionStatus.passed = true
is_fine ExecutionStatus.skipped = true
is_fine ExecutionStatus.unset = true
is_fine _ = false

abbrev pub FineResult : Option ExecutionResult → Type 0
FineResult none = Unit
FineResult (some x) = (s : ExecutionStatus) × (x.status ≡ some s) × (is_fine s ≡ true)

abbrev pub FineTest : (String → Fetched Execution) → Option String → Type 0
FineTest get none = Unit
FineTest get (some id) = (is_get_failed (get id) ≡ false) × FineResult (fetched_result (get id))

-- The step runs no test, or its test is not in the repository, or it is there and its result is not
-- running, queued, failed, aborted or timed out.
abbrev pub Fine : (String → Fetched Execution) → SuiteStepResult → Type 0
Fine get r = FineTest get (test_id r)

fine_verdict :
    (status : SuiteStatus) (s : ExecutionStatus)
    → is_fine s ≡ true
    → result_verdict status s ≡ go_on status
fine_verdict status ExecutionStatus.passed h = refl
fine_verdict status ExecutionStatus.skipped h = refl
fine_verdict status ExecutionStatus.unset h = refl
fine_verdict status s h = ground arith

-- What can become of the status at a result.
abbrev Outcome : SuiteStatus → Verdict → Type 0 → Type 0
Outcome status v fine =
    ((v ≡ go_on status) × fine)
    ⊎ ((v ≡ go_on SuiteStatus.failed)
        ⊎ ((x : Scan) × (v ≡ stop x) × (x ≢ ended SuiteStatus.passed)))

result_outcome :
    (status : SuiteStatus) (s : ExecutionStatus)
    → Outcome status (result_verdict status s) (is_fine s ≡ true)
result_outcome status ExecutionStatus.running =
    inr (inr (still_running, refl, λ h. absurd (ground arith)))
result_outcome status ExecutionStatus.queued =
    inr (inr (still_running, refl, λ h. absurd (ground arith)))
result_outcome status ExecutionStatus.failed = inr (inl refl)
result_outcome status ExecutionStatus.aborted =
    inr (inr (ended SuiteStatus.aborted, refl, λ h. absurd (ground arith)))
result_outcome status ExecutionStatus.timeout =
    inr (inr (ended SuiteStatus.timeout, refl, λ h. absurd (ground arith)))
result_outcome status ExecutionStatus.passed = inl (refl, refl)
result_outcome status ExecutionStatus.skipped = inl (refl, refl)
result_outcome status ExecutionStatus.unset = inl (refl, refl)

module _ (get : String → Fetched Execution) where
  step-Fine :
      (status : SuiteStatus) (r : SuiteStepResult)
      → Fine get r
      → step_verdict get status r ≡ some (go_on status)
  unfolding step_verdict
  step-Fine status r h = elim (Option-cases (test_id r)) [
    | inl no_test ↦ cc no_test
    | inr (id, test) ↦
        let fine : FineTest get (some id) = subst (FineTest get) test h in
        elim (Option-cases (fetched_result (get id))) [
          | inl absent ↦ cc (test, fine.0, absent)
          | inr (x, there) ↦
              let (s, status_is, ok_status) : FineResult (some x) = subst FineResult there fine.1 in
              cc (test, fine.0, there, status_is, fine_verdict status s ok_status)
        ]
  ]

  step_outcome :
      (status : SuiteStatus) (r : SuiteStepResult) (v : Verdict)
      → step_verdict get status r ≡ some v
      → Outcome status v (Fine get r)
  unfolding step_verdict
  step_outcome status r v h = elim (Option-cases (test_id r)) [
    | inl no_test ↦ inl (cc (h, no_test), subst (FineTest get) (sym no_test) tt)
    | inr (id, test) ↦ elim (Bool-cases (is_get_failed (get id))) [
      | inl bad ↦ inr (inr (get_error, cc (h, test, bad), λ clash. absurd (ground arith)))
      | inr got ↦ elim (Option-cases (fetched_result (get id))) [
        | inl absent ↦
            let fine : FineTest get (some id) = (got, subst FineResult (sym absent) tt) in
            inl (cc (h, test, got, absent), subst (FineTest get) (sym test) fine)
        | inr (x, there) ↦ elim (Option-cases x.status) [
          | inl panic ↦ absurd (ground (arith, h, test, got, there, panic))
          | inr (s, is) ↦
              let same : v ≡ result_verdict status s = cc (h, test, got, there, is) in
              elim (result_outcome status s) [
                | inl (go, fine) ↦
                    let fine_test : FineTest get (some id) =
                      (got, subst FineResult (sym there) (s, is, fine)) in
                    inl (same ∙ go, subst (FineTest get) (sym test) fine_test)
                | inr (inl failed) ↦ inr (inl (same ∙ failed))
                | inr (inr (y, stops, other)) ↦ inr (inr (y, same ∙ stops, other))
              ]
        ]
      ]
    ]
  ]

  scan_step :
      (status : SuiteStatus) (r : SuiteStepResult) (rs : List SuiteStepResult)
      → scan_steps get status (r ∷ rs) ≡ some (ended SuiteStatus.passed)
      → ((scan_steps get status rs ≡ some (ended SuiteStatus.passed)) × Fine get r)
        ⊎ (scan_steps get SuiteStatus.failed rs ≡ some (ended SuiteStatus.passed))
  unfolding scan_steps
  scan_step status r rs h = elim (Option-cases (step_verdict get status r)) [
    | inl panic ↦ absurd (ground arith)
    | inr (v, e) ↦ elim (step_outcome status r v e) [
      | inl (go, fine) ↦ inl (cc (h, e, go), fine)
      | inr (inl go) ↦ inr (cc (h, e, go))
      | inr (inr (x, stops, other)) ↦ absurd (other (cc (h, e, stops)))
    ]
  ]

  failed_stays :
      (rs : List SuiteStepResult)
      → scan_steps get SuiteStatus.failed rs ≢ some (ended SuiteStatus.passed)
  unfolding scan_steps
  failed_stays [] h = absurd (ground arith)
  failed_stays (r ∷ rs) h = elim (scan_step SuiteStatus.failed r rs h) [
    | inl (rest, _) ↦ failed_stays rs rest
    | inr rest ↦ failed_stays rs rest
  ]

  scan_Fine :
      (rs : List SuiteStepResult)
      → scan_steps get SuiteStatus.passed rs ≡ some (ended SuiteStatus.passed)
      → All (Fine get) rs
  unfolding scan_steps
  scan_Fine [] h = tt
  scan_Fine (r ∷ rs) h = elim (scan_step SuiteStatus.passed r rs h) [
    | inl (rest, fine) ↦ (fine, scan_Fine rs rest)
    | inr rest ↦ absurd (failed_stays rs rest)
  ]

  Fine-scan :
      (rs : List SuiteStepResult)
      → All (Fine get) rs
      → scan_steps get SuiteStatus.passed rs ≡ some (ended SuiteStatus.passed)
  unfolding scan_steps
  Fine-scan [] h = refl
  Fine-scan (r ∷ rs) h = cc (step-Fine SuiteStatus.passed r h.0, Fine-scan rs h.1)

  -- A suite is found to have passed exactly when each of its tests that is in the repository with a
  -- result is there neither as running, queued, failed, aborted nor timed out, and none of them could not
  -- be fetched for another reason than that it is missing.
  pub scan_steps-passed_iff :
      (rs : List SuiteStepResult)
      → (scan_steps get SuiteStatus.passed rs ≡ some (ended SuiteStatus.passed)) ↔ All (Fine get) rs
  scan_steps-passed_iff rs = (scan_Fine rs, Fine-scan rs)
