-- ===== src/Output/Results.antt =====
-- `ParseRunnerOutput` and `ParseContainerOutput`.
use testkube.Base.{
  ℕ, String, ◌||◌, ◌==◌, Option, none, some, List, [], ◌∷◌, concat, if◌then◌else◌, ◌>>=◌,
}
use testkube.Model.ExecutionResult
use testkube.Model.ExecutionResult.{ExecutionResult, empty_result}
use testkube.Output.{
  Output, sanitize_logs, get_deciding_log_line, get_deciding_container_log_line, type_error,
  type_parsing_error, type_result,
}
use testkube.Output.Lines.{Decoder, read_lines, parse_logs, parse_container_logs}

-- `errorf` is `fmt.Errorf` with a format and no argument, `show` is the verb `%v` of a log.
module _ (errorf : String → String) (show : Output → String) where
  -- The switch on the type of the deciding log.
  unfoldable pub runner_result : Output → ExecutionResult
  unfolding concat
  runner_result log =
      let found : ExecutionResult = elim log.result [
        | none ↦ ExecutionResult.err "found result log with no content" empty_result
        | some r ↦ r
      ] in
      if log.type == type_result
      then found
      else if log.type == type_error || log.type == type_parsing_error
      then ExecutionResult.err (errorf log.content) empty_result
      else ExecutionResult.err (concat ("wrong log type was found as last log: " ∷ show log ∷ []))
          empty_result

  unfoldable pub result_of_logs : List Output → Option ExecutionResult
  unfolding runner_result
  result_of_logs logs = get_deciding_log_line logs >>= λ deciding. some (elim deciding [
    | none ↦ ExecutionResult.err "no logs found" empty_result
    | some log ↦ record (runner_result log) { output = sanitize_logs logs }
  ])

  unfoldable pub parse_runner_output : Decoder → ℕ → String → Option ExecutionResult
  unfolding result_of_logs
  parse_runner_output decode now b =
      if b == ""
      then some
          (ExecutionResult.err "no logs found" (record empty_result { output = "no logs found" }))
      else parse_logs decode now (read_lines b) >>= result_of_logs

  -- The switch on the type of the deciding container log.
  unfoldable pub container_result : Output → ExecutionResult
  container_result log =
      let found : ExecutionResult = elim log.result [ none ↦ empty_result | some r ↦ r ] in
      if log.type == type_result
      then found
      else if log.type == type_error
      then ExecutionResult.err (errorf log.content) empty_result
      else empty_result

  -- The result, nil if nothing decides, and the readable output.
  unfoldable pub parse_container_output :
      Decoder → ℕ → String → Option (Option ExecutionResult × String)
  unfolding container_result
  parse_container_output decode now b =
      if b == ""
      then some (none, "")
      else parse_container_logs decode now (read_lines b) >>= λ logs. some (
        elim (get_deciding_container_log_line logs) [
          | none ↦ none
          | some log ↦ some (container_result log)
        ],
        sanitize_logs logs,
      )
