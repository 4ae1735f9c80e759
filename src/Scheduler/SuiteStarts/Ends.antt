-- ===== src/Scheduler/SuiteStarts/Ends.antt =====
-- How a suite execution ends that is waited for (executeTestSuite in testsuite_scheduler.go).
use testkube.Base.{
  String, true, ◌≡◌, refl, sym, ◌∙◌, ◌↔◌, Option, none, some, Option-cases, inl, inr, List, [], ◌∷◌,
  Result, ok, err, All, arith, ◌>>=◌, on_some,
}
use testkube.Model.SuiteStatus.{SuiteStatus}
use testkube.Model.Suite.{
  BatchResult, TestSuite, SuiteExecutionRequest, SuiteExecution, new_started, queued_batches,
}
use testkube.Model.Suite.Started.{batches}
use testkube.Scheduler.Runs.{Round, run_steps}
use testkube.Scheduler.Runs.Ends.{Clean}
use testkube.Scheduler.Runs.Passing.{run_steps-passed_iff}
use testkube.Scheduler.SuiteStarts.{
  SuiteCalls, SuiteEffect, inserted, start_notified, with_suite_defaults, merged_suite_request,
  with_rounds, ended, named_request, prepared, run_and_wait, execute_test_suite,
}

module _ {X : Type 0} (calls : SuiteCalls X) (suite : TestSuite)
    (request : SuiteExecutionRequest) where
  merged-sync :
      (s : Option SuiteExecutionRequest) (r : SuiteExecutionRequest)
      → (merged_suite_request s r).sync ≡ r.sync
  unfolding merged_suite_request with_suite_defaults
  merged-sync none r = refl
  merged-sync (some s) r = refl

  prepared-sync : (uuid : String) → (prepared calls suite uuid request).sync ≡ request.sync
  unfolding prepared named_request
  prepared-sync uuid = merged-sync suite.execution_request (record request { secret_uuid = uuid })

  started-results :
      (final : SuiteExecutionRequest) (e : SuiteExecution)
      → new_started calls.new_id calls.now suite final ≡ some e
      → e.execute_step_results ≡ queued_batches calls.new_id 1 (batches suite)
  unfolding new_started
  started-results final e h = ground arith

  -- The steps that are run: those of all batches, each queued.
  abbrev pub steps : List (BatchResult × Round)
  steps = with_rounds calls.round 0 (queued_batches calls.new_id 1 (batches suite))

  -- The execution that is returned has passed.
  abbrev pub Passes : Type 0
  Passes =
      (r : SuiteExecution) × (effects : List SuiteEffect) × (execute_test_suite calls suite request
        ≡ some (ok r, effects))
      × (r.status ≡ some SuiteStatus.passed)

  abbrev HasEnd : SuiteStatus → Result X SuiteExecution × List SuiteEffect → Type 0
  HasEnd s p = elim p.0 [ err x ↦ Unit | ok r ↦ r.status ≡ some s ]

  runs :
      (uuid : String) (e : SuiteExecution)
      → request.sync ≡ true
      → calls.secret_uuid suite.name ≡ ok uuid
      → new_started calls.new_id calls.now suite (prepared calls suite uuid request) ≡ some e
      → execute_test_suite calls suite request ≡ (
          run_steps calls.parse_duration calls.response_id steps >>= λ r.
          some (ok (ended calls.end_time r e), inserted e ∷ start_notified e ∷ []))
  unfolding execute_test_suite run_and_wait
  runs uuid e sync secret started =
      let waits = prepared-sync uuid ∙ sync in
      let results = started-results (prepared calls suite uuid request) e started in
      elim (Option-cases (run_steps calls.parse_duration calls.response_id steps)) [
        | inl panic ↦
            rw (execute_test_suite, secret, started, run_and_wait, waits, results, panic) refl
        | inr (r, end) ↦
            rw (execute_test_suite, secret, started, run_and_wait, waits, results, end) refl
      ]

  -- A suite execution that is waited for and can be started is returned as passed exactly when no abort
  -- or time-out is found before any batch of the suite, those before, the steps and those after, the
  -- results of each batch are saved, and no step of any batch has failed once the batch, whose steps
  -- are all queued first, is executed.
  pub execute_test_suite-passed_iff :
      (uuid : String) (e : SuiteExecution)
      → request.sync ≡ true
      → calls.secret_uuid suite.name ≡ ok uuid
      → new_started calls.new_id calls.now suite (prepared calls suite uuid request) ≡ some e
      → Passes ↔ All (Clean calls.parse_duration calls.response_id) steps
  execute_test_suite-passed_iff uuid e sync secret started =
      let run = runs uuid e sync secret started in
      let iff = run_steps-passed_iff calls.parse_duration calls.response_id steps in
      (
        λ (r, effects, h, passed).
            elim (Option-cases (run_steps calls.parse_duration calls.response_id steps)) [
              | inl panic ↦
                  let nothing = rw panic at run in
                  let bad = sym nothing ∙ h in absurd (ground arith)
              | inr (end, f) ↦
                  let done = rw f at run in
                  let same : r.status ≡ some end.1 = on_some (HasEnd end.1) (sym done ∙ h) refl in
                  let both = sym same ∙ passed in
                  let status : end.1 ≡ SuiteStatus.passed = cc in
                  iff.0 (end.0, f ∙ (λ i. some (end.0, status i)))
            ],
        λ clean.
            let end = iff.1 clean in
            let done = rw end.1 at run in
            (ended calls.end_time (end.0, SuiteStatus.passed) e, _, done, refl),
      )
