-- ===== src/Output/Lines.antt =====
-- The lines of the raw log, `GetLogEntry`, and the two loops that read the entries.
use Prim.Native.Char.{Char, code}
use testkube.Base.{
  ℕ, String, Bool, false, ◌||◌, ◌==◌, Option, none, some, List, [], ◌∷◌, concat, Result, ok, err,
  if◌then◌else◌, nat_eq, ◌>>=◌, split,
}
use testkube.Model.ExecutionResult.{ExecutionResult}
use testkube.Output.{
  Output, line_of, get_result_message, type_log_line, type_error, type_parsing_error, type_result,
  type_unknown,
}

-- `encoding/json` decoding one line: an entry, or the text of the error.
abbrev pub Decoder : Type 0
Decoder = String → Result String Output

-- `ReadLine` drops a carriage return before the newline.
unfoldable pub drop_return : String → String
drop_return String.[] = String.[]
drop_return (String.◌∷◌ c String.[]) =
    if nat_eq (code c) b'\r' then String.[] else String.◌∷◌ c String.[]
drop_return (String.◌∷◌ c (String.◌∷◌ d s)) = String.◌∷◌ c (drop_return (String.◌∷◌ d s))

-- The parts between newlines; what follows the last newline is a line if it is not empty.
unfoldable pub lines_of : List String → List String
unfolding drop_return
lines_of [] = []
lines_of (x ∷ []) = if x == "" then [] else x ∷ []
lines_of (x ∷ y ∷ r) = drop_return x ∷ lines_of (y ∷ r)

abbrev newline : Char
newline = "\n"

-- The lines that `ReadLongLine` returns one after the other until the end of the bytes. A reader of
-- bytes has no other error.
unfoldable pub read_lines : String → List String
unfolding split lines_of
read_lines b = lines_of (split newline b)

-- `len(b) < 2 || b[0] != '{'` is the test for a line that is no JSON entry.
unfoldable pub is_json : String → Bool
is_json String.[] = false
is_json (String.◌∷◌ c String.[]) = false
is_json (String.◌∷◌ c (String.◌∷◌ d s)) = nat_eq (code c) b'{'

-- An entry with no type gets the type "unknown".
unfoldable pub name_unknown : Output → Output
name_unknown out = if out.type == "" then record out { type = type_unknown } else out

-- `Output{Type_: TypeResult, Content: message, Result: log.Result}`
unfoldable pub result_line : ExecutionResult → Option Output
result_line r = get_result_message r >>= λ message.
    some (record { type = type_result; content = message; result = some r; time = 0 })

-- What a round of `parseLogs` appends for the entry `log` of the line `b`, if anything; a panic is
-- `none` outside.
unfoldable pub read_entry : String → Output → Option (Option Output)
unfolding result_line concat
read_entry b log =
    let result_entry : Option (Option Output) = elim log.result [
      | none ↦ some (
          some (
            line_of type_error
              (concat ("ERROR empty result entry: %!s(<nil>), (((" ∷ b ∷ ")))" ∷ []))))
      | some r ↦ result_line r >>= λ l. some (some l)
    ] in
    if log.type == type_result
    then result_entry
    else if log.content == ""
    then some none
    else some (some log)

-- `log.Result != nil && log.Result.Status != nil`
unfoldable pub finished_result : Option ExecutionResult → Option ExecutionResult
finished_result none = none
finished_result (some r) = elim r.status [ none ↦ none | some s ↦ some r ]

-- What a round of `parseContainerLogs` appends for the entry `log` of the line `b`.
unfoldable pub read_container_entry : String → Output → Option Output
unfolding result_line finished_result
read_container_entry b log =
    let entry : Option Output = elim (finished_result log.result) [
      | none ↦ some log
      | some r ↦ result_line r
    ] in
    if log.type == type_parsing_error || log.type == type_unknown
    then some (line_of type_log_line b)
    else if log.type == type_result
    then entry
    else some log

abbrev pub append_entry : Option Output → List Output → List Output
append_entry none logs = logs
append_entry (some l) logs = l ∷ logs

module _ (decode : Decoder) (now : ℕ) where
  -- `GetLogEntry`: its error is always nil.
  unfoldable pub get_log_entry : String → Output
  unfolding concat name_unknown
  get_log_entry b = elim (decode b) [
    | err e ↦ record {
      type = type_parsing_error;
      content = concat ("ERROR can't get log entry: " ∷ e ∷ ", (((" ∷ b ∷ ")))" ∷ []);
      result = none;
      time = now;
    }
    | ok out ↦ name_unknown out
  ]

  -- One round of `parseLogs`.
  unfoldable pub parse_line : String → Option (Option Output)
  parse_line b =
      let entry = read_entry b (get_log_entry b) in if is_json b then entry else some none

  unfoldable pub parse_logs : List String → Option (List Output)
  parse_logs [] = some []
  parse_logs (b ∷ bs) =
      let rest = parse_logs bs in
      parse_line b >>= λ entry. rest >>= λ logs. some (append_entry entry logs)

  -- One round of `parseContainerLogs`.
  unfoldable pub parse_container_line : String → Option Output
  parse_container_line b = read_container_entry b (get_log_entry b)

  unfoldable pub parse_container_logs : List String → Option (List Output)
  parse_container_logs [] = some []
  parse_container_logs (b ∷ bs) =
      let rest = parse_container_logs bs in
      parse_container_line b >>= λ l. rest >>= λ logs. some (l ∷ logs)
