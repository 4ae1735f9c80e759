-- ===== src/Triggers/Pods.antt =====
-- pkg/triggers/watcher.go, checkExecutionPodStatus, and the functions of pkg/executor/common.go that it
-- calls: a failed pod of an execution fails the execution.
pub mod Failures
pub mod Errors
use testkube.Base.{
  String, Bool, true, false, ◌||◌, ◌&&◌, not, ◌==◌, Option, none, some, List, [], ◌∷◌, ℤ, pos,
  is_zero, beyond_one, concat, Result, ok, err, if◌then◌else◌, ◌>>=◌,
}
use testkube.Model.Status.{ExecutionStatus}
use testkube.Model.ExecutionResult
use testkube.Model.ExecutionResult.{ExecutionResult, set_status}
use testkube.Model.Execution.{Execution}

-- `State.Terminated` of a container.
pub record Terminated : Type 0 where
  pub exit_code : ℤ
  pub message : String
  pub reason : String

-- The phases that the code tells apart.
pub data Phase : Type 0 where
  pod_failed other_phase : Phase

-- What the code reads of a pod.
pub record Pod : Type 0 where
  pub name : String
  pub phase : Phase
  pub message : String
  pub reason : String
  pub init_containers : List (Option Terminated)
  pub containers : List (Option Terminated)

-- The loop over the statuses of containers.
unfoldable pub exit_code_of : List (Option Terminated) → Option ℤ
exit_code_of [] = none
exit_code_of (none ∷ cs) = exit_code_of cs
exit_code_of (some t ∷ cs) =
    let rest = exit_code_of cs in if is_zero t.exit_code then rest else some t.exit_code

unfoldable pub get_pod_exit_code : Pod → ℤ
unfolding exit_code_of
get_pod_exit_code p = elim (exit_code_of p.init_containers) [
  | some code ↦ code
  | none ↦ elim (exit_code_of p.containers) [ some code ↦ code | none ↦ pos 0 ]
]

-- A new line after a message that is not empty.
unfoldable pub on_new_line : String → String
unfolding concat
on_new_line message = if message == "" then "" else concat (message ∷ "\n" ∷ [])

-- Whether the end of a container explains the failure.
abbrev pub explains : Terminated → Bool
explains t = beyond_one t.exit_code && (not (t.message == "") || not (t.reason == ""))

abbrev pub is_pod_failed : Pod → Bool
is_pod_failed p =
    elim p.phase [ pod_failed ↦ true | other_phase ↦ false ] || not (is_zero (get_pod_exit_code p))

-- `IsRunning() || IsQueued()`
unfoldable pub is_active : ExecutionResult → Option Bool
is_active r = ExecutionResult.is_running r >>= λ running.
    if running then some true else ExecutionResult.is_queued r

-- The result with its error and the message at the end of the one it has.
unfoldable pub with_error : String → ExecutionResult → ExecutionResult
unfolding on_new_line concat
with_error message r = record (set_status ExecutionStatus.failed r) {
  error_message = concat (on_new_line r.error_message ∷ message ∷ []);
}

-- `show` prints a number in decimal.
module _ (show : ℤ → String) where
  -- The loop over the statuses of the containers of one kind.
  unfoldable pub explain : String → String → List (Option Terminated) → Option String
  unfolding on_new_line concat
  explain kind message [] = none
  explain kind message (none ∷ cs) = explain kind message cs
  explain kind message (some t ∷ cs) =
      let rest = explain kind message cs in
      if explains t
      then some (
          concat (
            on_new_line message
            ∷ kind
            ∷ t.message
            ∷ " reason: "
            ∷ t.reason
            ∷ "\nexit code: "
            ∷ show t.exit_code
            ∷ []))
      else rest

  abbrev pub pod_message : Pod → String
  pod_message p =
      if not (p.message == "") || not (p.reason == "")
      then concat ("pod message: " ∷ p.message ∷ " reason: " ∷ p.reason ∷ [])
      else ""

  unfoldable pub get_pod_error_message : Pod → String
  unfolding explain concat
  get_pod_error_message p =
      let message = pod_message p in
      elim (explain "init container message: " message p.init_containers) [
        | some m ↦ m
        | none ↦ elim (explain "test container message: " message p.containers) [
          | some m ↦ m
          | none ↦
              if message == "" then concat ("execution pod " ∷ p.name ∷ " failed" ∷ []) else message
        ]
      ]

  -- The loop over the pods.
  unfoldable pub error_message_of : List Pod → String
  unfolding get_pod_exit_code get_pod_error_message
  error_message_of [] = ""
  error_message_of (p ∷ ps) =
      let rest = error_message_of ps in if is_pod_failed p then get_pod_error_message p else rest

  -- What `Get` and `UpdateResult` of the repository return are `get` and `update`; the result is the
  -- execution that is stored and the error, or `none` for a nil dereference.
  unfoldable pub check_execution_pod_status :
      {E : Type 0}
      → Result E Execution
      → (Execution → Option E)
      → List Pod
      → Option (Option Execution × Option E)
  unfolding error_message_of with_error is_active
  check_execution_pod_status (err e) update pods = some (none, some e)
  check_execution_pod_status (ok execution) update pods = elim execution.execution_result [
    | none ↦ none
    | some r ↦ is_active r >>= λ active.
        let message = error_message_of pods in
        if not active
        then some (none, none)
        else if message == ""
        then some (none, none)
        else let failed = record execution { execution_result = some (with_error message r) } in
          some (some failed, update failed)
  ]
