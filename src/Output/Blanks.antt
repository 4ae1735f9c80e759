-- ===== src/Output/Blanks.antt =====
-- What becomes of a result with an empty message that other logs follow.
use testkube.Base.{
  ◌≤◌, String, true, false, ◌==◌, ◌≡◌, refl, ◌≢◌, sym, subst, ◌⊎◌, some, List, [], ◌∷◌, ◌++◌, All,
  arith, eq_iff, Bool-cases, Option-cases, inl, inr, last_or, ltb,
}
use testkube.Model.Status.{ExecutionStatus}
use testkube.Model.ExecutionResult.{ExecutionResult}
use testkube.Output.{
  Output, type_result, type_error, no_log, skips, decide, keep_severe, more_severe, same_severity,
  sanitize_logs, get_deciding_log_line,
}
use testkube.Output.Severity.{more_severe_lem}
use testkube.Output.Deciding.{skipped}
use testkube.Output.Results.{runner_result, result_of_logs}
use testkube.Output.Panics.{is_whole, skips_whole}
use testkube.Output.Outcomes.{IsFinished}

keep_severe-result :
    (e k : Output) → e.type ≡ type_result → k.type ≢ type_result → keep_severe k e ≡ e
unfolding keep_severe
keep_severe-result e k is_result h = ground (
  arith,
  more_severe_lem k.type e.type,
  eq_iff k.type e.type,
  eq_iff k.type type_result,
  eq_iff e.type type_result,
  eq_iff k.type type_error,
)

-- A log that is no result leaves a best log that is a result as it is.
decide-result :
    (e : Output) (ks : List Output)
    → e.type ≡ type_result
    → All (λ k. k.type ≢ type_result) ks
    → decide ks e ≡ some e
unfolding decide
decide-result e [] is_result h = refl
decide-result e (k ∷ ks) is_result h =
    let read : skips k ≡ some false = unfold skips in ground (arith, eq_iff k.type type_result) in
    rw (read) (rw (keep_severe-result e k is_result h.0) (decide-result e ks is_result h.1))

-- The log, if it is a result, is not later than `e`.
abbrev NotAfter : Output → Output → Type 0
NotAfter e k = k.type ≡ type_result → k.time ≤ e.time

-- A result takes the place of every log that is not a later result.
keep_severe-latest : (e k : Output) → e.type ≡ type_result → NotAfter e k → keep_severe e k ≡ e
unfolding keep_severe
keep_severe-latest e k is_result h = elim (Bool-cases (k.type == type_result)) [
  | inl same ↦
      let early = h ((eq_iff k.type type_result).0 same) in
      ground (
        arith,
        early,
        more_severe_lem e.type k.type,
        eq_iff e.type k.type,
        eq_iff k.type type_result,
      )
  | inr other ↦ ground (
    arith,
    more_severe_lem e.type k.type,
    eq_iff e.type k.type,
    eq_iff e.type type_result,
    eq_iff k.type type_result,
    eq_iff k.type type_error,
  )
]

keep_severe-cases : (k best : Output) → (keep_severe k best ≡ k) ⊎ (keep_severe k best ≡ best)
unfolding keep_severe
keep_severe-cases k best = elim (Bool-cases (more_severe k.type best.type)) [
  | inl more ↦ inl (rw more refl)
  | inr less ↦ elim (Bool-cases (same_severity k.type best.type)) [
    | inr differs ↦ inr (rw (less, differs) refl)
    | inl same ↦ elim (Bool-cases (ltb k.time best.time)) [
      | inl before ↦ inr (rw (less, same, before) refl)
      | inr after ↦ inl (rw (less, same, after) refl)
    ]
  ]
]

keep_severe-NotAfter :
    (e k best : Output) → NotAfter e k → NotAfter e best → NotAfter e (keep_severe k best)
keep_severe-NotAfter e k best h b = elim (keep_severe-cases k best) [
  | inl new ↦ subst (NotAfter e) (sym new) h
  | inr old ↦ subst (NotAfter e) (sym old) b
]

-- The loop ends with `e` when no result before it is later and no log behind it is a result.
decide-last :
    (pre ks : List Output) (e best : Output)
    → All (λ k. is_whole k ≡ true) pre
    → All (λ k. IsFinished k → k.time ≤ e.time) pre
    → NotAfter e best
    → IsFinished e
    → is_whole e ≡ true
    → All (λ k. k.type ≢ type_result) ks
    → decide (pre ++ e ∷ ks) best ≡ some e
unfolding decide
decide-last [] ks e best ws early b (is_result, finished) whole rest =
    elim (Option-cases (skips e)) [
      | inl stuck ↦ absurd (skips_whole e whole stuck)
      | inr (true, skip) ↦ absurd (ground arith)
      | inr (false, read) ↦
          rw read (rw (keep_severe-latest e best is_result b) (decide-result e ks is_result rest))
    ]
decide-last (k ∷ pre) ks e best ws early b finished whole rest = elim (Option-cases (skips k)) [
  | inl stuck ↦ absurd (skips_whole k ws.0 stuck)
  | inr (true, skip) ↦ rw skip (decide-last pre ks e best ws.1 early.1 b finished whole rest)
  | inr (false, read) ↦
      let first : NotAfter e k = λ is_result. early.0 (is_result, rw (skipped, read) refl) in
      rw read (
        decide-last pre ks e (keep_severe k best) ws.1 early.1
          (keep_severe-NotAfter e k best first b) finished whole rest)
]

last_or-append :
    (d e l : Output) (pre ls : List Output) → last_or d (pre ++ e ∷ l ∷ ls) ≡ last_or l ls
last_or-append d e l [] ls = refl
last_or-append d e l (k ∷ pre) ls = last_or-append k e l pre ls

get_deciding_log_line-blank :
    (pre ls : List Output) (e l : Output)
    → decide (pre ++ e ∷ l ∷ ls) no_log ≡ some e
    → e.content ≡ ""
    → get_deciding_log_line (pre ++ e ∷ l ∷ ls) ≡ some (some (last_or l ls))
unfolding get_deciding_log_line
get_deciding_log_line-blank [] ls e l h blank = rw h (ground (arith, eq_iff e.content ""))
get_deciding_log_line-blank (k ∷ pre) ls e l h blank =
    rw (h, last_or-append k e l pre ls) (ground (arith, eq_iff e.content ""))

module _ (errorf : String → String) (show : Output → String) where
  last_or-ne-result :
      (l : Output) (ls : List Output)
      → All (λ k. k.type ≢ type_result) (l ∷ ls)
      → (last_or l ls).type ≢ type_result
  last_or-ne-result l [] h = h.0
  last_or-ne-result l (k ∷ ls) h = last_or-ne-result k ls h.1

  runner_result-failed :
      (l : Output)
      → l.type ≢ type_result
      → (runner_result errorf show l).status ≡ some ExecutionStatus.failed
  unfolding runner_result
  runner_result-failed l h = ground (arith, eq_iff l.type type_result)

  -- Suppose that each log up to a finished result with an empty message, such as a passed one with no
  -- output, has a status if it is a result, that no finished result before it has a later time, and
  -- that some log follows it and none that follows is a result. Then the result is lost: the result of
  -- the run is failed.
  pub result_of_logs-blank :
      (pre : List Output) (e l : Output) (ls : List Output)
      → All (λ k. is_whole k ≡ true) pre
      → All (λ k. IsFinished k → k.time ≤ e.time) pre
      → IsFinished e
      → is_whole e ≡ true
      → e.content ≡ ""
      → All (λ k. k.type ≢ type_result) (l ∷ ls)
      → (y : ExecutionResult) × (result_of_logs errorf show (pre ++ e ∷ l ∷ ls) ≡ some y)
        × (y.status ≡ some ExecutionStatus.failed)
  unfolding result_of_logs
  result_of_logs-blank pre e l ls ws early finished whole blank rest =
      let decided =
        decide-last pre (l ∷ ls) e no_log ws early
          (λ h. ground (arith, eq_iff no_log.type type_result)) finished whole rest in
      (
        record (runner_result errorf show (last_or l ls)) {
          output = sanitize_logs (pre ++ e ∷ l ∷ ls);
        },
        rw (get_deciding_log_line-blank pre ls e l decided blank) refl,
        runner_result-failed (last_or l ls) (last_or-ne-result l ls rest),
      )
