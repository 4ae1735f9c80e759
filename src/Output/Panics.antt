-- ===== src/Output/Panics.antt =====
-- When reading the output of a runner panics, and that reading the output of a container never does.
use testkube.Base.{
  ℕ, String, Bool, true, false, ◌&&◌, ◌||◌, not, ◌==◌, ◌≡◌, refl, ◌↔◌, ◌≢◌, inl, inr, Option, none,
  some, List, [], ◌∷◌, All, any, arith, eq_iff, if◌then◌else◌, Bool-cases, Option-cases, ◌>>=◌,
  subst, Result, ok, err,
}
use testkube.Model.ExecutionResult.{ExecutionResult}
use testkube.Output.{
  Output, type_result, get_result_message, skips, decide, keep_severe, no_log, type_error,
  get_deciding_log_line,
}
use testkube.Output.Lines.{
  Decoder, is_json, read_lines, name_unknown, get_log_entry, result_line, read_entry, parse_line,
  parse_logs, finished_result, append_entry, read_container_entry, parse_container_line,
  parse_container_logs,
}
use testkube.Output.Results.{parse_runner_output, parse_container_output, result_of_logs}

-- A result whose status is the nil pointer.
abbrev lacks_status : Option ExecutionResult → Bool
lacks_status none = false
lacks_status (some r) = elim r.status [ none ↦ true | some s ↦ false ]

-- The line is a JSON entry of type "result" with a result that has no status.
abbrev pub is_faulty : Decoder → String → Bool
is_faulty decode b = is_json b && elim (decode b) [
  | ok out ↦ out.type == type_result && lacks_status out.result
  | err e ↦ false
]

-- The log is no result, or one that has a status.
abbrev pub has_status : Option ExecutionResult → Bool
has_status none = false
has_status (some r) = elim r.status [ none ↦ false | some s ↦ true ]

abbrev pub is_whole : Output → Bool
is_whole log = not (log.type == type_result) || has_status log.result

read_entry-eq-none_iff :
    (b : String) (log : Output)
    → (read_entry b log ≡ none) ↔ ((log.type == type_result && lacks_status log.result) ≡ true)
unfolding read_entry result_line get_result_message
read_entry-eq-none_iff b log = ground arith

read_container_entry_total : (b : String) (log : Output) → read_container_entry b log ≢ none
unfolding read_container_entry result_line finished_result get_result_message
read_container_entry_total b log = λ e. ground arith

read_entry-whole :
    (b : String) (log l : Output) → read_entry b log ≡ some (some l) → is_whole l ≡ true
unfolding read_entry result_line get_result_message
read_entry-whole b log l h =
    ground (arith, eq_iff l.type type_result, eq_iff type_error type_result)

pub skips_whole : (l : Output) → is_whole l ≡ true → skips l ≢ none
unfolding skips
skips_whole l h = λ e. ground arith

pub decide_total :
    (logs : List Output) (best : Output)
    → All (λ l. is_whole l ≡ true) logs
    → decide logs best ≢ none
unfolding decide
decide_total [] best h = λ e. ground arith
decide_total (log ∷ logs) best h = λ e. elim (Option-cases (skips log)) [
  | inl stuck ↦ skips_whole log h.0 stuck
  | inr (b, known) ↦
      decide_total logs (if b then best else keep_severe log best) h.1 (rw known at e)
]

get_deciding_log_line_total :
    (logs : List Output) → All (λ l. is_whole l ≡ true) logs → get_deciding_log_line logs ≢ none
unfolding get_deciding_log_line
get_deciding_log_line_total [] h = λ e. ground arith
get_deciding_log_line_total (log ∷ logs) h = λ e. ground (arith, decide_total (log ∷ logs) no_log h)

name_unknown-result :
    (out : Output)
    → ((name_unknown out).type == type_result && lacks_status (name_unknown out).result)
      ≡ (out.type == type_result && lacks_status out.result)
unfolding name_unknown
name_unknown-result out = elim (Bool-cases (out.type == "")) [
  | inl blank ↦
      rw blank
        (ground (arith, eq_iff out.type "", eq_iff out.type type_result, eq_iff "" type_result))
  | inr filled ↦ rw filled
]

module _ (decode : Decoder) (now : ℕ) where
  abbrev entry : String → Output
  entry = get_log_entry decode now

  get_log_entry-result :
      (b : String) (d : Result String Output)
      → decode b ≡ d
      → ((entry b).type == type_result && lacks_status (entry b).result) ≡ elim (decode b) [
        | ok out ↦ out.type == type_result && lacks_status out.result
        | err e ↦ false
      ]
  unfolding get_log_entry
  get_log_entry-result b (err e) read = rw (read, get_log_entry)
  get_log_entry-result b (ok out) read =
      let given : entry b ≡ name_unknown out = rw (read, get_log_entry) in
      rw (read, given) (name_unknown-result out)

  parse_line-eq-none_iff :
      (b : String) → (parse_line decode now b ≡ none) ↔ (is_faulty decode b ≡ true)
  unfolding parse_line
  parse_line-eq-none_iff b =
      ground (arith, read_entry-eq-none_iff b (entry b), get_log_entry-result b (decode b) refl)

  parse_logs-eq-none_iff :
      (bs : List String) → (parse_logs decode now bs ≡ none) ↔ (any (is_faulty decode) bs ≡ true)
  unfolding parse_logs
  parse_logs-eq-none_iff [] = ground arith
  parse_logs-eq-none_iff (b ∷ bs) =
      ground (arith, parse_line-eq-none_iff b, parse_logs-eq-none_iff bs)

  append_whole :
      (b : String) (read : Option Output) (logs : List Output)
      → parse_line decode now b ≡ some read
      → All (λ l. is_whole l ≡ true) logs
      → All (λ l. is_whole l ≡ true) (append_entry read logs)
  unfolding parse_line
  append_whole b none logs e h = h
  append_whole b (some l) logs e h = (ground (arith, read_entry-whole b (entry b) l), h)

  parse_logs-whole :
      (bs : List String) (logs : List Output)
      → parse_logs decode now bs ≡ some logs
      → All (λ l. is_whole l ≡ true) logs
  unfolding parse_logs
  parse_logs-whole [] [] h = tt
  parse_logs-whole [] (l ∷ logs) h = absurd (ground arith)
  parse_logs-whole (b ∷ bs) logs h = elim (Option-cases (parse_line decode now b)) [
    | inl stuck ↦ absurd (ground arith)
    | inr (read, line) ↦ elim (Option-cases (parse_logs decode now bs)) [
      | inl stuck ↦ absurd (ground arith)
      | inr (rest, lines) ↦
          let same : append_entry read rest ≡ logs = ground arith in
          subst (All (λ l. is_whole l ≡ true)) same
            (append_whole b read rest line (parse_logs-whole bs rest lines))
    ]
  ]

  parse_container_line_total : (b : String) → parse_container_line decode now b ≢ none
  unfolding parse_container_line
  parse_container_line_total b = read_container_entry_total b (entry b)

  parse_container_logs_total : (bs : List String) → parse_container_logs decode now bs ≢ none
  unfolding parse_container_logs
  parse_container_logs_total [] = λ e. ground arith
  parse_container_logs_total (b ∷ bs) =
      λ e. ground (arith, parse_container_line_total b, parse_container_logs_total bs)

module _ (decode : Decoder) (now : ℕ) (errorf : String → String) (show : Output → String) where
  result_of_logs_total :
      (logs : List Output)
      → All (λ l. is_whole l ≡ true) logs
      → result_of_logs errorf show logs ≢ none
  unfolding result_of_logs
  result_of_logs_total logs h = λ e. ground (arith, get_deciding_log_line_total logs h)

  runner_lines-eq-none_iff :
      (bs : List String)
      → ((parse_logs decode now bs >>= result_of_logs errorf show) ≡ none)
        ↔ (any (is_faulty decode) bs ≡ true)
  runner_lines-eq-none_iff bs = elim (Option-cases (parse_logs decode now bs)) [
    | inl stuck ↦ rw stuck ((λ _. (parse_logs-eq-none_iff decode now bs).0 stuck), λ _. refl)
    | inr (logs, read) ↦ rw read (
      λ e. absurd (result_of_logs_total logs (parse_logs-whole decode now bs logs read) e),
      λ e. absurd (ground (arith, parse_logs-eq-none_iff decode now bs)),
    )
  ]

  -- Reading the output of a runner panics exactly when a line of it is a JSON entry of type
  -- "result" whose result has no status.
  pub parse_runner_output-eq-none_iff :
      (b : String)
      → (parse_runner_output errorf show decode now b ≡ none)
        ↔ ((b ≢ "") × (any (is_faulty decode) (read_lines b) ≡ true))
  unfolding parse_runner_output
  parse_runner_output-eq-none_iff b =
      ground (arith, eq_iff b "", runner_lines-eq-none_iff (read_lines b))

  -- Reading the output of a container never panics: it returns a result or nil, and the output.
  pub parse_container_output_total :
      (b : String)
      → (r : Option ExecutionResult × String) × (parse_container_output errorf show decode now b
          ≡ some r)
  unfolding parse_container_output
  parse_container_output_total b = elim (Bool-cases (b == "")) [
    | inl blank ↦ rw blank (_, refl)
    | inr filled ↦ elim (Option-cases (parse_container_logs decode now (read_lines b))) [
      | inl stuck ↦ absurd (parse_container_logs_total decode now (read_lines b) stuck)
      | inr (logs, read) ↦ rw (filled, read) (_, refl)
    ]
  ]
