-- ===== src/Scheduler/Runs/Ends.antt =====
-- How a suite ends (runSteps in testsuite_scheduler.go).
use testkube.Base.{
  ℕ, String, Bool, true, false, ◌||◌, ◌≡◌, refl, none, some, List, [], ◌∷◌, All, arith, ◌>>=◌,
  Bool-cases, Option-cases, inl, inr,
}
use testkube.Model.SuiteStatus
use testkube.Model.SuiteStatus.{SuiteStatus}
use testkube.Model.Suite.{SuiteStepResult, BatchResult, step_is_failed}
use testkube.Scheduler.Steps.{Duration}
use testkube.Scheduler.Runs.{
  Round, Run, stops_on_failure, check_steps, cancel_batch, execute_batch, run_batch, status_is,
}

-- A step of the suite failed, its results could not be saved, or a batch was cancelled.
abbrev pub bad : Run → Bool
bad run = run.has_failed_steps || status_is SuiteStatus.is_aborting run.status

abbrev pub NotFailed : SuiteStepResult → Type 0
NotFailed r = step_is_failed r ≡ some false

pub check_steps-bad :
    (stops : Bool) (rs : List SuiteStepResult) (run run' : Run)
    → check_steps stops rs run ≡ some run'
    → bad run ≡ true
    → bad run' ≡ true
unfolding check_steps
check_steps-bad stops [] run run' h was = ground arith
check_steps-bad stops (r ∷ rs) run run' h was = elim (Option-cases (step_is_failed r)) [
  | inl panic ↦ absurd (ground arith)
  | inr (false, e) ↦ check_steps-bad stops rs run run' (rw (e, check_steps) at h) was
  | inr (true, e) ↦ elim (Bool-cases stops) [
    | inl stop ↦ ground arith
    | inr go ↦
        check_steps-bad stops rs (record run { has_failed_steps = true }) run'
          (rw (e, go, check_steps) at h) refl
  ]
]

check_steps-NotFailed :
    (stops : Bool) (rs : List SuiteStepResult) (run run' : Run)
    → check_steps stops rs run ≡ some run'
    → bad run' ≡ false
    → All NotFailed rs
unfolding check_steps
check_steps-NotFailed stops [] run run' h good = tt
check_steps-NotFailed stops (r ∷ rs) run run' h good = elim (Option-cases (step_is_failed r)) [
  | inl panic ↦ absurd (ground arith)
  | inr (false, e) ↦ (e, check_steps-NotFailed stops rs run run' (rw (e, check_steps) at h) good)
  | inr (true, e) ↦ elim (Bool-cases stops) [
    | inl stop ↦ absurd (ground arith)
    | inr go ↦
        let now : bad run' ≡ true =
          check_steps-bad stops rs (record run { has_failed_steps = true }) run'
            (rw (e, go, check_steps) at h) refl in
        absurd (ground arith)
  ]
]

pub check_steps-clean :
    (stops : Bool) (rs : List SuiteStepResult) (run : Run)
    → All NotFailed rs
    → check_steps stops rs run ≡ some run
unfolding check_steps
check_steps-clean stops [] run h = refl
check_steps-clean stops (r ∷ rs) run h = rw h.0 (check_steps-clean stops rs run h.1)

module _ (parse_duration : String → Duration) (new_id : ℕ → String) where
  abbrev pub executed : BatchResult × Round → BatchResult
  executed p = execute_batch parse_duration new_id p.1 p.0

  -- No abort is found before the batch, its results are saved, and none of them has failed.
  abbrev pub Clean : BatchResult × Round → Type 0
  Clean p =
      (p.1.polled ≡ none)
      × (p.1.saved ≡ true)
      × All NotFailed (execute_batch parse_duration new_id p.1 p.0).execute

  module _ (round : Round) (b : BatchResult) (run : Run) where
    abbrev pub After : BatchResult × Run → Type 0
    After r = run_batch parse_duration new_id round b run ≡ some r

    pub run_cancelled :
        run.cancel_steps ≡ true
        → run_batch parse_duration new_id round b run
          ≡ some (cancel_batch b, record run { status = some SuiteStatus.aborting })
    unfolding run_batch
    run_cancelled c = ground arith

    pub run_unsaved :
        run.cancel_steps ≡ false
        → round.saved ≡ false
        → run_batch parse_duration new_id round b run
          ≡ some (executed (b, round), record run { has_failed_steps = true })
    unfolding run_batch
    run_unsaved c u = ground arith

    pub run_saved :
        run.cancel_steps ≡ false
        → round.saved ≡ true
        → run_batch parse_duration new_id round b run ≡ (
            check_steps (stops_on_failure b.step) (executed (b, round)).execute run >>= λ run'.
            some (executed (b, round), run'))
    unfolding run_batch
    run_saved c u = ground arith

    pub run_batch-bad : (r : BatchResult × Run) → After r → bad run ≡ true → bad r.1 ≡ true
    run_batch-bad r h was = elim (Bool-cases run.cancel_steps) [
      | inl c ↦ ground (arith, run_cancelled c)
      | inr c ↦ elim (Bool-cases round.saved) [
        | inr u ↦ ground (arith, run_unsaved c u)
        | inl u ↦
            elim (Option-cases
              (check_steps (stops_on_failure b.step) (executed (b, round)).execute run)) [
                | inl panic ↦ absurd (ground (arith, run_saved c u))
                | inr (run', e) ↦
                    let now =
                      check_steps-bad (stops_on_failure b.step) (executed (b, round)).execute run
                        run' e was in
                    ground (arith, run_saved c u, now)
              ]
      ]
    ]

    pub run_batch-Clean :
        (r : BatchResult × Run)
        → After r
        → bad r.1 ≡ false
        → (run.cancel_steps ≡ false)
          × (round.saved ≡ true)
          × All NotFailed (executed (b, round)).execute
    run_batch-Clean r h good = elim (Bool-cases run.cancel_steps) [
      | inl c ↦ absurd (ground (arith, run_cancelled c))
      | inr c ↦ elim (Bool-cases round.saved) [
        | inr u ↦ absurd (ground (arith, run_unsaved c u))
        | inl u ↦
            elim (Option-cases
              (check_steps (stops_on_failure b.step) (executed (b, round)).execute run)) [
                | inl panic ↦ absurd (ground (arith, run_saved c u))
                | inr (run', e) ↦
                    let fine : bad run' ≡ false = ground (arith, run_saved c u) in
                    (
                      c,
                      u,
                      check_steps-NotFailed (stops_on_failure b.step) (executed (b, round)).execute
                          run run' e fine,
                    )
              ]
      ]
    ]
