-- ===== src/Scheduler/Runs/Cancels.antt =====
-- What a cancelled suite does with the batches that are left (runSteps in testsuite_scheduler.go).
use testkube.Base.{
  ℕ, String, true, ◌≡◌, ◌⊎◌, refl, sym, ap, ◌∙◌, Option, none, some, List, [], ◌∷◌, ◌++◌, map, All,
  arith, Bool-cases, Option-cases, inl, inr,
}
use testkube.Model.Status.{ExecutionStatus}
use testkube.Model.SuiteStatus
use testkube.Model.SuiteStatus.{SuiteStatus}
use testkube.Model.Suite.{SuiteStepResult, BatchResult, step_is_failed}
use testkube.Model.ExecutionResult.{ExecutionResult, abort}
use testkube.Model.Execution.{Execution}
use testkube.Scheduler.Steps.{Duration, change_execution, change_result}
use testkube.Scheduler.Runs.{
  Round, Run, first_run, poll, check_steps, stops_on_failure, cancel_batch, run_batch, run_batches,
  final_status, status_is, run_steps,
}
use testkube.Scheduler.Runs.Ends.{executed, run_cancelled, run_saved, NotFailed}
use testkube.Scheduler.Runs.Passing.{run_batches-step}

-- A step result whose execution, if it has one with a result, is aborted and otherwise as it was.
abbrev pub aborted_result : Option ExecutionResult → Option ExecutionResult
aborted_result none = none
aborted_result (some x) = some (record x { status = some ExecutionStatus.aborted })

abbrev pub aborted_execution : Option Execution → Option Execution
aborted_execution none = none
aborted_execution (some e) =
    some (record e { execution_result = aborted_result e.execution_result })

abbrev pub aborted_steps : List SuiteStepResult → List SuiteStepResult
aborted_steps [] = []
aborted_steps (r ∷ rs) =
    record { step = r.step; execution = aborted_execution r.execution } ∷ aborted_steps rs

-- The batches, each with every result aborted.
abbrev pub cancelled : List (BatchResult × Round) → List BatchResult
cancelled [] = []
cancelled (p ∷ bs) = record { step = p.0.step; execute = aborted_steps p.0.execute } ∷ cancelled bs

twice_aborted :
    (e : Option Execution) → change_execution abort (change_execution abort e) ≡ aborted_execution e
twice_aborted none = refl
twice_aborted (some e) = elim (Option-cases e.execution_result) [
  | inl lost ↦ rw lost refl
  | inr (x, there) ↦ rw there refl
]

cancel_steps_lem :
    (rs : List SuiteStepResult)
    → map (change_result abort) (map (change_result abort) rs) ≡ aborted_steps rs
cancel_steps_lem [] = refl
cancel_steps_lem (r ∷ rs) = cc (twice_aborted r.execution, cancel_steps_lem rs)

cancel_batch_lem :
    (b : BatchResult) → cancel_batch b ≡ record { step = b.step; execute = aborted_steps b.execute }
cancel_batch_lem b = rw (cancel_steps_lem b.execute) refl

-- The suite is cancelled, and this shows in its status.
abbrev pub IsAborting : Run → Type 0
IsAborting run = (run.cancel_steps ≡ true) × (status_is SuiteStatus.is_aborting run.status ≡ true)

poll-cancel :
    (polled : Option SuiteStatus) (run : Run)
    → run.cancel_steps ≡ true
    → (poll polled run).cancel_steps ≡ true
poll-cancel none run h = h
poll-cancel (some s) run h = refl

-- The status of a suite that was cancelled while a batch was left.
abbrev pub Cancelled : SuiteStatus → Type 0
Cancelled s = (s ≡ SuiteStatus.aborted) ⊎ (s ≡ SuiteStatus.timeout)

final-Cancelled : (run : Run) → IsAborting run → Cancelled (final_status run)
unfolding final_status
final-Cancelled run h = elim (Bool-cases (status_is SuiteStatus.is_timeout run.abortion_status)) [
  | inl late ↦ inr (ground arith)
  | inr other ↦ inl (ground arith)
]

module _ (parse_duration : String → Duration) (new_id : ℕ → String) where
  cancel_head :
      (b : BatchResult) (round : Round) (run : Run)
      → run.cancel_steps ≡ true
      → (run' : Run) × IsAborting run'
        × (run_batch parse_duration new_id round b (poll round.polled run)
            ≡ some (record { step = b.step; execute = aborted_steps b.execute }, run'))
  cancel_head b round run c =
      let now = poll-cancel round.polled run c in
      (
        record (poll round.polled run) { status = some SuiteStatus.aborting },
        (now, refl),
        run_cancelled parse_duration new_id round b (poll round.polled run) now
            ∙ ap
                (λ b.
                  some (b, record (poll round.polled run) { status = some SuiteStatus.aborting }))
                (cancel_batch_lem b),
      )

  cancel_rest :
      (bs : List (BatchResult × Round)) (run : Run)
      → IsAborting run
      → (run' : Run) × IsAborting run'
        × (run_batches parse_duration new_id bs run ≡ some (cancelled bs, run'))
  unfolding run_batches
  cancel_rest [] run h = (run, h, refl)
  cancel_rest ((b, round) ∷ bs) run h =
      let (run₁, aborting, head) = cancel_head b round run h.0 in
      let (run₂, still, rest) = cancel_rest bs run₁ aborting in (run₂, still, cc (head, rest))

  cancel_all :
      (p : BatchResult × Round) (bs : List (BatchResult × Round)) (run : Run)
      → run.cancel_steps ≡ true
      → (run' : Run) × IsAborting run'
        × (run_batches parse_duration new_id (p ∷ bs) run ≡ some (cancelled (p ∷ bs), run'))
  unfolding run_batches
  cancel_all (b, round) bs run c =
      let (run₁, aborting, head) = cancel_head b round run c in
      let (run₂, still, rest) = cancel_rest bs run₁ aborting in (run₂, still, cc (head, rest))

  run_batches-join :
      (b : BatchResult) (round : Round) (bs : List (BatchResult × Round)) (run : Run)
      (x : BatchResult × Run) (rest : List BatchResult) (end : Run)
      → run_batch parse_duration new_id round b (poll round.polled run) ≡ some x
      → run_batches parse_duration new_id bs x.1 ≡ some (rest, end)
      → run_batches parse_duration new_id ((b, round) ∷ bs) run ≡ some (x.0 ∷ rest, end)
  unfolding run_batches
  run_batches-join b round bs run x rest end e f = cc (e, f)

  cancel_after :
      (pre : List (BatchResult × Round)) (p : BatchResult × Round) (bs : List (BatchResult × Round))
      (run : Run) (done : List BatchResult) (mid : Run)
      → run_batches parse_duration new_id pre run ≡ some (done, mid)
      → mid.cancel_steps ≡ true
      → (run' : Run) × IsAborting run'
        × (run_batches parse_duration new_id (pre ++ p ∷ bs) run
            ≡ some (done ++ cancelled (p ∷ bs), run'))
  unfolding run_batches
  cancel_after [] p bs run done mid h c =
      let same : run.cancel_steps ≡ true = ground (arith, c) in
      let empty : [] ≡ done = ground arith in
      let (run', aborting, e) = cancel_all p bs run same in (run', aborting, rw (← empty) e)
  cancel_after ((b, round) ∷ pre) p bs run done mid h c =
      let (x, t, e, f, g) = run_batches-step parse_duration new_id b round pre run (done, mid) h in
      let still : t.1.cancel_steps ≡ true = sym (ap (λ r. r.1.cancel_steps) g) ∙ c in
      let front : done ≡ x.0 ∷ t.0 = ap (λ r. r.0) g in
      let (run', aborting, ih) = cancel_after pre p bs x.1 t.0 t.1 f still in
      (
        run',
        aborting,
        run_batches-join b round (pre ++ p ∷ bs) run x (t.0 ++ cancelled (p ∷ bs)) run' e ih
            ∙ ap (λ d. some (d ++ cancelled (p ∷ bs), run')) (sym front),
      )

  pub run_steps-cancel :
      (pre : List (BatchResult × Round)) (p : BatchResult × Round) (bs : List (BatchResult × Round))
      (done : List BatchResult) (mid : Run)
      → run_batches parse_duration new_id pre first_run ≡ some (done, mid)
      → mid.cancel_steps ≡ true
      → (status : SuiteStatus) × Cancelled status
        × (run_steps parse_duration new_id (pre ++ p ∷ bs)
            ≡ some (done ++ cancelled (p ∷ bs), status))
  unfolding run_steps
  run_steps-cancel pre p bs done mid h c =
      let (run', aborting, e) = cancel_after pre p bs first_run done mid h c in
      (final_status run', final-Cancelled run' aborting, cc e)

  check_steps-stop :
      (pre post : List SuiteStepResult) (r : SuiteStepResult) (run : Run)
      → All NotFailed pre
      → step_is_failed r ≡ some true
      → check_steps true (pre ++ r ∷ post) run
        ≡ some (record run { has_failed_steps = true; cancel_steps = true })
  unfolding check_steps
  check_steps-stop [] post r run h failed = rw (failed, check_steps) refl
  check_steps-stop (x ∷ pre) post r run h failed =
      rw (h.0, check_steps) (check_steps-stop pre post r run h.1 failed)

  -- A suite whose first batch stops on failure and has a failed step, where no abort is found before
  -- that batch, its results are saved and another batch follows: every execution result of the batches
  -- that follow gets the status aborted and nothing else of them is changed, and the suite ends as
  -- aborted or timed out although a step of it failed.
  pub run_steps-stop :
      (b : BatchResult) (round : Round) (p : BatchResult × Round) (bs : List (BatchResult × Round))
      (pre post : List SuiteStepResult) (r : SuiteStepResult)
      → round.polled ≡ none
      → round.saved ≡ true
      → stops_on_failure b.step ≡ true
      → (executed parse_duration new_id (b, round)).execute ≡ pre ++ r ∷ post
      → All NotFailed pre
      → step_is_failed r ≡ some true
      → (status : SuiteStatus) × Cancelled status
        × (run_steps parse_duration new_id ((b, round) ∷ p ∷ bs)
            ≡ some (executed parse_duration new_id (b, round) ∷ cancelled (p ∷ bs), status))
  unfolding run_batches
  run_steps-stop b round p bs pre post r polled saved stops results passed failed =
      let mid = record first_run { has_failed_steps = true; cancel_steps = true } in
      let head = run_saved parse_duration new_id round b first_run refl saved in
      let check = check_steps-stop pre post r first_run passed failed in
      let one : run_batches parse_duration new_id ((b, round) ∷ []) first_run
          ≡ some (executed parse_duration new_id (b, round) ∷ [], mid) =
        rw polled (cc (head, stops, results, check)) in
      run_steps-cancel ((b, round) ∷ []) p bs (executed parse_duration new_id (b, round) ∷ []) mid
        one refl
