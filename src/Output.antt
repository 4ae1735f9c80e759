-- ===== src/Output.antt =====
-- pkg/executor/output/parser.go: the log lines that a runner writes, read back into a result.
pub mod Lines
pub mod Severity
pub mod Deciding
pub mod Results
pub mod Panics
pub mod Outcomes
pub mod Blanks
mod Tests
use testkube.Base.{
  ℕ, String, Bool, true, false, ◌&&◌, ◌||◌, not, ◌==◌, Option, none, some, List, [], ◌∷◌, concat,
  ltb, if◌then◌else◌, ◌>>=◌, last_or,
}
use testkube.Model.Status
use testkube.Model.Status.{status_text}
use testkube.Model.ExecutionResult
use testkube.Model.ExecutionResult.{ExecutionResult, empty_result}

abbrev pub type_log_event : String
type_log_event = "event"

abbrev pub type_log_line : String
type_log_line = "line"

abbrev pub type_error : String
type_error = "error"

abbrev pub type_parsing_error : String
type_parsing_error = "parsing-error"

abbrev pub type_result : String
type_result = "result"

abbrev pub type_unknown : String
type_unknown = "unknown"

-- One log line; the zero time is 0.
pub record Output : Type 0 where
  pub type : String
  pub content : String
  pub result : Option ExecutionResult
  pub time : ℕ

abbrev pub line_of : String → String → Output
line_of type content = record { type = type; content = content; result = none; time = 0 }

-- `getResultMessage`; a nil status panics.
unfoldable pub get_result_message : ExecutionResult → Option String
get_result_message r = ExecutionResult.is_failed r >>= λ failed.
    ExecutionResult.is_passed r >>= λ passed. r.status >>= λ s.
    some (if failed then r.error_message else if passed then r.output else status_text s)

-- `sanitizeLogs`
unfoldable pub sanitize_logs : List Output → String
unfolding concat
sanitize_logs [] = ""
sanitize_logs (l ∷ ls) = concat (l.content ∷ "\n" ∷ sanitize_logs ls ∷ [])

unfoldable pub same_severity : String → String → Bool
same_severity a b = a == b

unfoldable pub more_severe : String → String → Bool
unfolding same_severity
more_severe a b =
    if same_severity a b
    then false
    else if a == type_result
    then true
    else if a == type_error
    then not (b == type_result)
    else not (b == type_result) && not (b == type_error)

-- The zero `resultLog` that both loops begin with.
abbrev pub no_log : Output
no_log = line_of type_log_line ""

-- The part of the loops' body that both share.
unfoldable pub keep_severe : Output → Output → Output
unfolding more_severe same_severity
keep_severe log best =
    if more_severe log.type best.type
    then log
    else if same_severity log.type best.type
    then if ltb log.time best.time then best else log
    else best

-- `log.Type_ == TypeResult && log.Result.IsRunning()`; a nil result or status panics.
unfoldable pub skips : Output → Option Bool
skips log =
    if log.type == type_result then log.result >>= ExecutionResult.is_running else some false

-- `log.Result == nil || log.Result.Status == nil || log.Result.IsRunning()`
unfoldable pub is_unfinished : Option ExecutionResult → Bool
is_unfinished none = true
is_unfinished (some r) = elim r.status [ none ↦ true | some s ↦ Status.is_running s ]

unfoldable pub container_skips : Output → Bool
container_skips log = log.type == type_result && is_unfinished log.result

-- The loop of `getDecidingLogLine`.
unfoldable pub decide : List Output → Output → Option Output
decide [] best = some best
decide (log ∷ logs) best =
    skips log >>= λ skip. decide logs (if skip then best else keep_severe log best)

-- `none` inside is the nil pointer; `none` outside is a panic.
unfoldable pub get_deciding_log_line : List Output → Option (Option Output)
get_deciding_log_line [] = some none
get_deciding_log_line (log ∷ logs) = decide (log ∷ logs) no_log >>= λ best.
    some (some (if best.content == "" then last_or log logs else best))

-- The loop of `getDecidingContainerLogLine`.
unfoldable pub decide_container : List Output → Output → Output
decide_container [] best = best
decide_container (log ∷ logs) best =
    decide_container logs (if container_skips log then best else keep_severe log best)

unfoldable pub get_deciding_container_log_line : List Output → Option Output
get_deciding_container_log_line [] = none
get_deciding_container_log_line (log ∷ logs) =
    let best = decide_container (log ∷ logs) no_log in
    if best.type == type_result || best.type == type_error then some best else none
