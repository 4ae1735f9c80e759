-- ===== src/Output/Outcomes.antt =====
-- Which result the output of a runner gives.
use testkube.Base.{
  ◌≤◌, String, true, false, ◌≡◌, ◌≢◌, inl, inr, some, List, [], ◌∷◌, Memᴰ, All, All-Mem, All-map,
  arith, eq_iff, Option-cases,
}
use testkube.Model.ExecutionResult.{ExecutionResult}
use testkube.Output.{
  Output, type_result, type_error, no_log, decide, sanitize_logs, get_deciding_log_line,
}
use testkube.Output.Severity.{Dominates}
use testkube.Output.Deciding.{IsBest, skipped, decide-IsBest}
use testkube.Output.Results.{result_of_logs}
use testkube.Output.Panics.{is_whole, decide_total}

-- A result that is not running.
abbrev pub IsFinished : Output → Type 0
IsFinished m = (m.type ≡ type_result) × (skipped m ≡ false)

abbrev pub HasContent : Output → Type 0
HasContent m = m.type ≡ type_result → m.content ≢ ""

module _ (logs : List Output) (r : Output) (best : IsBest skipped logs no_log r) where
  best_result : (m : Output) → Memᴰ m logs → IsFinished m → r.type ≡ type_result
  best_result m listed (is_result, finished) =
      let above : Dominates r m =
        All-Mem (λ k. skipped k ≡ false → Dominates r k) listed best.logged finished in
      ground (
        arith,
        above.ranked,
        eq_iff m.type type_result,
        eq_iff r.type type_result,
        eq_iff r.type type_error,
      )

  best_listed : r.type ≡ type_result → Memᴰ r logs × (skipped r ≡ false)
  best_listed is_result = elim best.chosen [
    | inl start ↦ absurd (ground (arith, eq_iff r.type type_result, eq_iff no_log.type type_result))
    | inr m ↦ m
  ]

decided :
    (logs : List Output) (m : Output)
    → All (λ l. is_whole l ≡ true) logs
    → All HasContent logs
    → Memᴰ m logs
    → IsFinished m
    → (l : Output) × (get_deciding_log_line logs ≡ some (some l))
      × IsBest skipped logs no_log l
      × (l.type ≡ type_result)
      × Memᴰ l logs
      × (skipped l ≡ false)
unfolding get_deciding_log_line
decided (log ∷ logs) m whole filled listed finished =
    elim (Option-cases (decide (log ∷ logs) no_log)) [
      | inl stuck ↦ absurd (decide_total (log ∷ logs) no_log whole stuck)
      | inr (l, found) ↦
          let best = decide-IsBest (log ∷ logs) no_log l found in
          let is_result = best_result (log ∷ logs) l best m listed finished in
          let (here, read) = best_listed (log ∷ logs) l best is_result in
          let content : l.content ≢ "" = All-Mem HasContent here filled is_result in
          (l, rw found (ground (arith, eq_iff l.content "")), best, is_result, here, read)
    ]
decided [] m whole filled listed finished = elim listed [ ]

later_of :
    (l : Output)
    → l.type ≡ type_result
    → (k : Output) → (skipped k ≡ false → Dominates l k)
    → IsFinished k
    → k.time ≤ l.time
later_of l is_result k above (same, finished) = ground (
  arith,
  above finished,
  (above finished).latest,
  eq_iff l.type type_result,
  eq_iff k.type type_result,
)

module _ (errorf : String → String) (show : Output → String) where
  -- If every log that is a result has a status and some content, and one of them is not running, the
  -- result of the run is that of such a log, the latest of them, with the readable output of all
  -- logs for its output.
  pub result_of_logs-result :
      (logs : List Output) (m : Output)
      → All (λ l. is_whole l ≡ true) logs
      → All HasContent logs
      → Memᴰ m logs
      → IsFinished m
      → (l : Output) × (x : ExecutionResult) × Memᴰ l logs
        × IsFinished l
        × (l.result ≡ some x)
        × All (λ k. IsFinished k → k.time ≤ l.time) logs
        × (result_of_logs errorf show logs ≡ some (record x { output = sanitize_logs logs }))
  unfolding result_of_logs
  result_of_logs-result logs m whole filled listed finished =
      let (l, found, best, is_result, here, read) = decided logs m whole filled listed finished in
      let has : is_whole l ≡ true = All-Mem (λ k. is_whole k ≡ true) here whole in
      elim (Option-cases l.result) [
        | inl lost ↦ absurd (ground (arith, eq_iff l.type type_result))
        | inr (x, given) ↦ (
          l,
          x,
          here,
          (is_result, read),
          given,
          All-map _ _ (later_of l is_result) logs best.logged,
          rw found (ground (arith, eq_iff l.type type_result)),
        )
      ]
