-- ===== src/Scheduler/Runs/Passing.antt =====
-- When a suite passes (runSteps in testsuite_scheduler.go).
use testkube.Base.{
  ℕ, String, true, false, ◌≡◌, ◌↔◌, refl, sym, ap, ◌∙◌, Option, none, some, List, [], ◌∷◌, map, All,
  arith, Bool-cases, Option-cases, inl, inr,
}
use testkube.Model.SuiteStatus.{SuiteStatus}
use testkube.Model.Suite.{BatchResult}
use testkube.Scheduler.Steps.{Duration}
use testkube.Scheduler.Runs.{
  Round, Run, first_run, poll, stops_on_failure, run_batch, run_batches, final_status, run_steps,
}
use testkube.Scheduler.Runs.Ends.{
  bad, check_steps-clean, executed, Clean, run_saved, run_batch-bad, run_batch-Clean,
}

poll-bad : (polled : Option SuiteStatus) (run : Run) → bad (poll polled run) ≡ bad run
poll-bad none run = refl
poll-bad (some s) run = refl

poll-none :
    (polled : Option SuiteStatus) (run : Run)
    → (poll polled run).cancel_steps ≡ false
    → polled ≡ none
poll-none none run h = refl
poll-none (some s) run h = absurd (ground arith)

module _ (parse_duration : String → Duration) (new_id : ℕ → String) where
  pub run_batches-step :
      (b : BatchResult) (round : Round) (bs : List (BatchResult × Round)) (run : Run)
      (r : List BatchResult × Run)
      → run_batches parse_duration new_id ((b, round) ∷ bs) run ≡ some r
      → (h : BatchResult × Run) × (t : List BatchResult × Run) × (run_batch parse_duration new_id
            round b
            (poll round.polled run)
          ≡ some h)
        × (run_batches parse_duration new_id bs h.1 ≡ some t)
        × (r ≡ (h.0 ∷ t.0, t.1))
  unfolding run_batches
  run_batches-step b round bs run r h =
      elim (Option-cases (run_batch parse_duration new_id round b (poll round.polled run))) [
        | inl panic ↦ absurd (ground arith)
        | inr (x, e) ↦ elim (Option-cases (run_batches parse_duration new_id bs x.1)) [
          | inl panic ↦ absurd (ground arith)
          | inr (t, f) ↦ (x, t, e, f, ground arith)
        ]
      ]

  run_batches-bad :
      (bs : List (BatchResult × Round)) (run : Run) (r : List BatchResult × Run)
      → run_batches parse_duration new_id bs run ≡ some r
      → bad run ≡ true
      → bad r.1 ≡ true
  unfolding run_batches
  run_batches-bad [] run r h was = ground arith
  run_batches-bad ((b, round) ∷ bs) run r h was =
      let (x, t, e, f, g) = run_batches-step b round bs run r h in
      let now =
        run_batch-bad parse_duration new_id round b (poll round.polled run) x e
          (poll-bad round.polled run ∙ was) in
      ap (λ r. bad r.1) g ∙ run_batches-bad bs x.1 t f now

  run_batches-Clean :
      (bs : List (BatchResult × Round)) (run : Run) (r : List BatchResult × Run)
      → run_batches parse_duration new_id bs run ≡ some r
      → bad r.1 ≡ false
      → All (Clean parse_duration new_id) bs
  unfolding run_batches
  run_batches-Clean [] run r h good = tt
  run_batches-Clean ((b, round) ∷ bs) run r h good =
      let (x, t, e, f, g) = run_batches-step b round bs run r h in
      let fine : bad t.1 ≡ false = sym (ap (λ r. bad r.1) g) ∙ good in
      let head : bad x.1 ≡ false = elim (Bool-cases (bad x.1)) [
        | inl was ↦ absurd (ground (arith, run_batches-bad bs x.1 t f was))
        | inr now ↦ now
      ] in
      let (c, saved, passed) =
        run_batch-Clean parse_duration new_id round b (poll round.polled run) x e head in
      ((poll-none round.polled run c, saved, passed), run_batches-Clean bs x.1 t f fine)

  run-Clean :
      (bs : List (BatchResult × Round)) (run : Run)
      → run.cancel_steps ≡ false
      → All (Clean parse_duration new_id) bs
      → run_batches parse_duration new_id bs run
        ≡ some (map (executed parse_duration new_id) bs, run)
  unfolding run_batches
  run-Clean [] run c h = refl
  run-Clean ((b, round) ∷ bs) run c ((p, saved, passed), h) =
      let steps =
        check_steps-clean (stops_on_failure b.step)
          (executed parse_duration new_id (b, round)).execute run passed in
      let head = run_saved parse_duration new_id round b run c saved in
      rw p (cc (head, steps, run-Clean bs run c h))

  passed-bad : (run : Run) → final_status run ≡ SuiteStatus.passed → bad run ≡ false
  unfolding final_status
  passed-bad run h = ground arith

  passed-Clean :
      (bs : List (BatchResult × Round)) (results : List BatchResult)
      → run_steps parse_duration new_id bs ≡ some (results, SuiteStatus.passed)
      → All (Clean parse_duration new_id) bs
  unfolding run_steps
  passed-Clean bs results h = elim (Option-cases (run_batches parse_duration new_id bs first_run)) [
    | inl panic ↦ absurd (ground arith)
    | inr (r, e) ↦
        let end : final_status r.1 ≡ SuiteStatus.passed = ground arith in
        run_batches-Clean bs first_run r e (passed-bad r.1 end)
  ]

  Clean-passed :
      (bs : List (BatchResult × Round))
      → All (Clean parse_duration new_id) bs
      → run_steps parse_duration new_id bs
        ≡ some (map (executed parse_duration new_id) bs, SuiteStatus.passed)
  unfolding run_steps final_status
  Clean-passed bs h = rw (run-Clean bs first_run refl h) refl

  -- A suite passes exactly when no abort or time-out is found before any of its batches, the results of
  -- each batch are saved, and no step of any batch has failed once the batch is executed.
  pub run_steps-passed_iff :
      (bs : List (BatchResult × Round))
      → ((results : List BatchResult) × (run_steps parse_duration new_id bs
            ≡ some (results, SuiteStatus.passed)))
        ↔ All (Clean parse_duration new_id) bs
  run_steps-passed_iff bs = (
    λ passes. passed-Clean bs passes.0 passes.1,
    λ h. (map (executed parse_duration new_id) bs, Clean-passed bs h),
  )
