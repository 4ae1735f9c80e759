-- ===== src/Output/Deciding.antt =====
-- What the deciding log line is.
use testkube.Base.{
  ◌≤◌, Bool, true, false, ◌≡◌, refl, sym, ap, subst, ◌∙◌, ◌⊎◌, inl, inr, none, some, List, [], ◌∷◌,
  Memᴰ, All, All-map, All-Mem, ◌↔◌, arith, eq_iff, if◌then◌else◌, Bool-cases, Option-cases,
}
use testkube.Output.{
  Output, type_error, type_result, no_log, keep_severe, skips, container_skips, decide,
  decide_container, get_deciding_container_log_line,
}
use testkube.Output.Severity.{rank, Dominates, Dominates-refl, Dominates-trans, keep_severe_cases}

-- The loop without its panics.
best_of : (Output → Bool) → List Output → Output → Output
best_of skip [] best = best
best_of skip (log ∷ logs) best = best_of skip logs (if skip log then best else keep_severe log best)

-- Of the logs that are not skipped, `r` is one, or the log that the loop began with; and it
-- dominates them all.
pub record IsBest (skip : Output → Bool) (logs : List Output) (best r : Output) : Type 0 where
  pub start : Dominates r best
  pub logged : All (λ m. skip m ≡ false → Dominates r m) logs
  pub chosen : (r ≡ best) ⊎ (Memᴰ r logs × (skip r ≡ false))

module _ (log best : Output) where
  keep_severe-Dominates-log : Dominates (keep_severe log best) log
  keep_severe-Dominates-log = elim (keep_severe_cases log best) [
    | inl (e, _, _) ↦ rw e (Dominates-refl log)
    | inr (e, h, t) ↦ rw e (record { ranked = h; latest = λ _. t })
  ]

  keep_severe-Dominates-best : Dominates (keep_severe log best) best
  keep_severe-Dominates-best = elim (keep_severe_cases log best) [
    | inl (e, h, t) ↦ rw e (record { ranked = h; latest = λ _ same. t (sym same) })
    | inr (e, _, _) ↦ rw e (Dominates-refl best)
  ]

module _ (skip : Output → Bool) (log : Output) (logs : List Output) (best r : Output) where
  later : Memᴰ r logs × (skip r ≡ false) → Memᴰ r (log ∷ logs) × (skip r ≡ false)
  later (m, read) = (Memᴰ.tail m, read)

  skip-IsBest : skip log ≡ true → IsBest skip logs best r → IsBest skip (log ∷ logs) best r
  skip-IsBest skipped b = record {
    start = b.start;
    logged = (λ read. absurd (ground arith), b.logged);
    chosen = elim b.chosen [ inl same ↦ inl same | inr m ↦ inr (later m) ];
  }

  keep_chosen :
      skip log ≡ false
      → r ≡ keep_severe log best
      → (r ≡ best) ⊎ (Memᴰ r (log ∷ logs) × (skip r ≡ false))
  keep_chosen read same = elim (keep_severe_cases log best) [
    | inl (e, _, _) ↦ inr (Memᴰ.head (same ∙ e), ap skip (same ∙ e) ∙ read)
    | inr (e, _, _) ↦ inl (same ∙ e)
  ]

  keep-IsBest :
      skip log ≡ false → IsBest skip logs (keep_severe log best) r → IsBest skip (log ∷ logs) best r
  keep-IsBest read b = record {
    start = Dominates-trans b.start (keep_severe-Dominates-best log best);
    logged = (λ _. Dominates-trans b.start (keep_severe-Dominates-log log best), b.logged);
    chosen = elim b.chosen [ inl same ↦ keep_chosen read same | inr m ↦ inr (later m) ];
  }

best_of-IsBest :
    (skip : Output → Bool) (logs : List Output) (best : Output)
    → IsBest skip logs best (best_of skip logs best)
unfolding best_of
best_of-IsBest skip [] best = record { start = Dominates-refl best; logged = tt; chosen = inl refl }
best_of-IsBest skip (log ∷ logs) best = elim (Bool-cases (skip log)) [
  | inl skipped ↦
      rw skipped (skip-IsBest skip log logs best _ skipped (best_of-IsBest skip logs best))
  | inr read ↦
      rw read
        (keep-IsBest skip log logs best _ read (best_of-IsBest skip logs (keep_severe log best)))
]

decide_container-best_of :
    (logs : List Output) (best : Output)
    → decide_container logs best ≡ best_of container_skips logs best
unfolding decide_container best_of
decide_container-best_of [] best = refl
decide_container-best_of (log ∷ logs) best = decide_container-best_of logs _

decide_container-IsBest :
    (logs : List Output) → IsBest container_skips logs no_log (decide_container logs no_log)
decide_container-IsBest logs =
    rw (decide_container-best_of logs no_log) (best_of-IsBest container_skips logs no_log)

-- The loop of a runner skips the log: it is a result that is running.
abbrev pub skipped : Output → Bool
skipped log = elim (skips log) [ none ↦ false | some b ↦ b ]

pub decide-IsBest :
    (logs : List Output) (best r : Output) → decide logs best ≡ some r → IsBest skipped logs best r
unfolding decide
decide-IsBest [] best r h =
    let same : best ≡ r = ground arith in
    subst (IsBest skipped [] best) same
      (record { start = Dominates-refl best; logged = tt; chosen = inl refl })
decide-IsBest (log ∷ logs) best r h = elim (Option-cases (skips log)) [
  | inl stuck ↦ absurd (ground arith)
  | inr (true, skip) ↦
      skip-IsBest skipped log logs best r (rw (skip, skipped))
        (decide-IsBest logs best r (rw skip at h))
  | inr (false, read) ↦
      keep-IsBest skipped log logs best r (rw (read, skipped))
        (decide-IsBest logs _ r (rw read at h))
]

-- A log that is a result or an error.
abbrev pub Decides : Output → Type 0
Decides l = 1 ≤ rank l.type

abbrev pub Deciding : List Output → Output → Type 0
Deciding logs l =
    Memᴰ l logs
    × Decides l
    × (container_skips l ≡ false)
    × All (λ m. container_skips m ≡ false → Dominates l m) logs

blank_rank : (d : Output) → d ≡ no_log → ¬ Decides d
blank_rank d e high = let none_high : Decides no_log = rw e at high in omega arith

-- The log that decides the output of a container is one of the logs, a finished result or an error,
-- and dominates every log that is not an unfinished result: a result is preferred to an error, and
-- of several results, or of several errors, none is later.
pub get_deciding_container_log_line_sound :
    (logs : List Output) (l : Output)
    → get_deciding_container_log_line logs ≡ some l
    → Deciding logs l
unfolding get_deciding_container_log_line
get_deciding_container_log_line_sound [] l h = cc
get_deciding_container_log_line_sound (log ∷ logs) l h =
    let d = decide_container (log ∷ logs) no_log in
    let b : IsBest container_skips (log ∷ logs) no_log d = decide_container-IsBest (log ∷ logs) in
    let same : d ≡ l = ground (arith, eq_iff d.type type_result, eq_iff d.type type_error) in
    let high : Decides d = ground (arith, eq_iff d.type type_result, eq_iff d.type type_error) in
    subst (Deciding (log ∷ logs)) same (
      elim b.chosen [ inl start ↦ absurd (blank_rank d start high) | inr m ↦ m.0 ],
      high,
      elim b.chosen [ inl start ↦ absurd (blank_rank d start high) | inr m ↦ m.1 ],
      b.logged,
    )

-- Nothing decides the output of a container exactly when every log is of another type than result and
-- error, or an unfinished result.
pub get_deciding_container_log_line-eq-none_iff :
    (logs : List Output)
    → (get_deciding_container_log_line logs ≡ none)
      ↔ All (λ m. container_skips m ≡ false → ¬ Decides m) logs
unfolding get_deciding_container_log_line
get_deciding_container_log_line-eq-none_iff [] = (λ _. tt, λ _. refl)
get_deciding_container_log_line-eq-none_iff (log ∷ logs) =
    let d = decide_container (log ∷ logs) no_log in
    let b : IsBest container_skips (log ∷ logs) no_log d = decide_container-IsBest (log ∷ logs) in
    (
      λ h.
          let low : ¬ Decides d =
            ground (arith, eq_iff d.type type_result, eq_iff d.type type_error) in
          All-map (λ m. container_skips m ≡ false → Dominates d m) _
            (λ m dominated read high. low (omega (arith, (dominated read).ranked))) (log ∷ logs)
            b.logged,
      λ h.
          let low : ¬ Decides d = elim b.chosen [
            | inl start ↦ blank_rank d start
            | inr m ↦ All-Mem (λ m. container_skips m ≡ false → ¬ Decides m) m.0 h m.1
          ] in
          ground (arith, eq_iff d.type type_result, eq_iff d.type type_error),
    )
