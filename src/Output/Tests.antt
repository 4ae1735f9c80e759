-- ===== src/Output/Tests.antt =====
-- The theorems on the output of a runner, at concrete logs.
use testkube.Base.{
  String, true, ◌≡◌, ◌≢◌, refl, ◌↔◌, ◌≤◌, none, some, [], ◌∷◌, ◌++◌, Memᴰ, All, any, ok, arith,
  eq_iff,
}
use testkube.Model.Status.{ExecutionStatus}
use testkube.Model.ExecutionResult.{ExecutionResult, empty_result, set_status}
use testkube.Output.{
  Output, type_result, type_log_line, line_of, container_skips, sanitize_logs,
  get_deciding_container_log_line, decide_container, keep_severe, skips, is_unfinished,
}
use testkube.Output.Deciding.{Deciding, get_deciding_container_log_line_sound}
use testkube.Output.Lines.{Decoder, read_lines}
use testkube.Output.Results.{parse_runner_output, result_of_logs}
use testkube.Output.Panics.{is_faulty, parse_runner_output-eq-none_iff}
use testkube.Output.Outcomes.{IsFinished, HasContent, result_of_logs-result}
use testkube.Output.Blanks.{result_of_logs-blank}

abbrev passed : ExecutionResult
passed = set_status ExecutionStatus.passed empty_result

abbrev log_line : Output
log_line = line_of type_log_line "hello"

abbrev passed_log : Output
passed_log = record { type = type_result; content = "done"; result = some passed; time = 3 }

abbrev blank_log : Output
blank_log = record passed_log { content = "" }

abbrev error_text : String → String
error_text s = s

abbrev log_text : Output → String
log_text l = l.content

abbrev braces : String
braces = "{}"

-- A decoder that reads every line as a result without a status.
abbrev no_status : Decoder
no_status b = ok (record { type = type_result; content = ""; result = some empty_result; time = 0 })

two_logs_decide : get_deciding_container_log_line (log_line ∷ passed_log ∷ []) ≡ some passed_log
unfolding get_deciding_container_log_line decide_container keep_severe container_skips is_unfinished
two_logs_decide = refl

get_deciding_container_log_line_sound_example : Deciding (log_line ∷ passed_log ∷ []) passed_log
get_deciding_container_log_line_sound_example =
    get_deciding_container_log_line_sound (log_line ∷ passed_log ∷ []) passed_log two_logs_decide

parse_runner_output-eq-none_iff_example :
    (parse_runner_output error_text log_text no_status 0 "{}" ≡ none)
    ↔ ((braces ≢ "") × (any (is_faulty no_status) (read_lines "{}") ≡ true))
parse_runner_output-eq-none_iff_example =
    parse_runner_output-eq-none_iff no_status 0 error_text log_text "{}"

passed-IsFinished : IsFinished passed_log
unfolding skips
passed-IsFinished = (refl, refl)

blank-IsFinished : IsFinished blank_log
unfolding skips
blank-IsFinished = (refl, refl)

two_have_content : All HasContent (log_line ∷ passed_log ∷ [])
two_have_content = (
  λ _ h. absurd (ground (arith, eq_iff "hello" "")),
  (λ _ h. absurd (ground (arith, eq_iff "done" "")), tt),
)

result_of_logs-result_example :
    (l : Output) × (x : ExecutionResult) × Memᴰ l (log_line ∷ passed_log ∷ [])
    × IsFinished l
    × (l.result ≡ some x)
    × All (λ k. IsFinished k → k.time ≤ l.time) (log_line ∷ passed_log ∷ [])
    × (result_of_logs error_text log_text (log_line ∷ passed_log ∷ [])
        ≡ some (record x { output = sanitize_logs (log_line ∷ passed_log ∷ []) }))
result_of_logs-result_example =
    result_of_logs-result error_text log_text (log_line ∷ passed_log ∷ []) passed_log
      (refl, (refl, tt)) two_have_content (Memᴰ.tail (Memᴰ.head refl)) passed-IsFinished

line_is_no_result : All (λ k. k.type ≢ type_result) (log_line ∷ [])
line_is_no_result = (λ h. absurd (ground (arith, eq_iff type_log_line type_result)), tt)

result_of_logs-blank_example :
    (y : ExecutionResult) × (result_of_logs error_text log_text
        ((log_line ∷ []) ++ blank_log ∷ log_line ∷ [])
      ≡ some y)
    × (y.status ≡ some ExecutionStatus.failed)
result_of_logs-blank_example =
    result_of_logs-blank error_text log_text (log_line ∷ []) blank_log log_line [] (refl, tt)
      (λ (is_result, finished). absurd (line_is_no_result.0 is_result), tt) blank-IsFinished refl
      refl line_is_no_result
