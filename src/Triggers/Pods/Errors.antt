-- ===== src/Triggers/Pods/Errors.antt =====
-- pkg/triggers/watcher.go, checkExecutionPodStatus: which executions a failed pod fails.
use testkube.Base.{
  String, ◌==◌, ◌∙◌, Bool, true, false, ◌≡◌, refl, eq_iff, inl, inr, Option, none, some, List, [],
  ◌∷◌, ℤ, Bool-cases, Option-cases, concat, concat-blank, ok, arith, if◌then◌else◌,
}
use text.Mathlib.TextLemmas.{nil-append, append-nil, append_assoc}
use testkube.Model.Status.{ExecutionStatus}
use testkube.Model.ExecutionResult.{ExecutionResult}
use testkube.Model.Execution.{Execution}
use testkube.Triggers.Pods.{
  Terminated, Pod, on_new_line, explains, explain, pod_message, get_pod_error_message, is_active,
  error_message_of, with_error, check_execution_pod_status,
}
use testkube.Triggers.Pods.Failures.{has_failed, first_failed, is_pod_failed_lem}

-- An execution with such a status has not ended.
abbrev pub alive : ExecutionStatus → Bool
alive ExecutionStatus.queued = true
alive ExecutionStatus.running = true
alive _ = false

is_active-status :
    (r : ExecutionResult) (s : ExecutionStatus) → r.status ≡ some s → is_active r ≡ some (alive s)
unfolding is_active
is_active-status r ExecutionStatus.queued status = rw status refl
is_active-status r ExecutionStatus.running status = rw status refl
is_active-status r ExecutionStatus.passed status = rw status refl
is_active-status r ExecutionStatus.failed status = rw status refl
is_active-status r ExecutionStatus.aborted status = rw status refl
is_active-status r ExecutionStatus.timeout status = rw status refl
is_active-status r ExecutionStatus.skipped status = rw status refl
is_active-status r ExecutionStatus.unset status = rw status refl

-- A message on a new line after the one that there is.
after_message :
    (t m : String)
    → concat (on_new_line t ∷ m ∷ []) ≡ (if t == "" then m else concat (t ∷ "\n" ∷ m ∷ []))
unfolding on_new_line concat
after_message t m = elim (Bool-cases (t == "")) [
  | inl blank ↦ rw blank (nil-append _ ∙ append-nil m)
  | inr given ↦ rw given (append_assoc t "\n" _)
]

module _ (show : ℤ → String) where
  explain-blank :
      (kind message : String) (cs : List (Option Terminated)) {m : String}
      → (kind ≡ "" → ⊥)
      → explain show kind message cs ≡ some m
      → m ≡ ""
      → ⊥
  unfolding explain
  explain-blank kind message [] named h e = absurd (ground arith)
  explain-blank kind message (none ∷ cs) named h e = explain-blank kind message cs named h e
  explain-blank kind message (some t ∷ cs) {m} named h e = elim (Bool-cases (explains t)) [
    | inr not_so ↦ explain-blank kind message cs named (rw not_so at h) e
    | inl does ↦
        let found = rw does at h in
        let rest =
          kind ∷ t.message ∷ " reason: " ∷ t.reason ∷ "\nexit code: " ∷ show t.exit_code ∷ [] in
        let blank : concat (on_new_line message ∷ rest) ≡ "" = cc in
        let tail = (concat-blank (on_new_line message) rest blank).1 in
        named
          (concat-blank kind
            (t.message ∷ " reason: " ∷ t.reason ∷ "\nexit code: " ∷ show t.exit_code ∷ []) tail).0
  ]

  get_pod_error_message-blank : (p : Pod) → get_pod_error_message show p ≡ "" → ⊥
  unfolding get_pod_error_message
  get_pod_error_message-blank p h =
      elim (Option-cases
        (explain show "init container message: " (pod_message show p) p.init_containers)) [
          | inr (m, e) ↦
              explain-blank "init container message: " (pod_message show p) p.init_containers
                (λ b. cc) e (rw (e, get_pod_error_message) at h)
          | inl e ↦
              elim (Option-cases
                (explain show "test container message: " (pod_message show p) p.containers)) [
                  | inr (m, f) ↦
                      explain-blank "test container message: " (pod_message show p) p.containers
                        (λ b. cc) f (rw (e, f, get_pod_error_message) at h)
                  | inl f ↦ elim (Bool-cases (pod_message show p == "")) [
                    | inl blank ↦
                        let default = rw (e, f, blank, get_pod_error_message) at h in
                        let bad =
                          (concat-blank "execution pod " (p.name ∷ " failed" ∷ []) default).0 in
                        cc
                    | inr given ↦
                        let message = rw (e, f, given, get_pod_error_message) at h in
                        let bad = (eq_iff (pod_message show p) "").1 message in cc
                  ]
                ]
        ]

  -- What the code takes for the error is the message of the first failed pod.
  error_message_of_lem :
      (pods : List Pod)
      → error_message_of show pods
        ≡ elim (first_failed pods) [ none ↦ "" | some p ↦ get_pod_error_message show p ]
  unfolding error_message_of
  error_message_of_lem [] = refl
  error_message_of_lem (p ∷ pods) = elim (Bool-cases (has_failed p)) [
    | inr fine ↦ rw (is_pod_failed_lem p, fine) (error_message_of_lem pods)
    | inl failed ↦ rw (is_pod_failed_lem p, failed) refl
  ]

  -- The execution whose result `r` has failed with the message of the pod, on a new line after the one
  -- that it had.
  abbrev pub failed_by : Pod → ExecutionResult → Execution → Execution
  failed_by p r execution =
      let message = get_pod_error_message show p in
      record execution {
        execution_result = some (record r {
          status = some ExecutionStatus.failed;
          error_message =
              if r.error_message == ""
              then message
              else concat (r.error_message ∷ "\n" ∷ message ∷ []);
        });
      }

  with_error_lem :
      (p : Pod) (r : ExecutionResult) (execution : Execution)
      → record execution { execution_result = some (with_error (get_pod_error_message show p) r) }
        ≡ failed_by p r execution
  unfolding with_error
  with_error_lem p r execution =
      rw (after_message r.error_message (get_pod_error_message show p)) refl

  -- When a pod of an execution that can be read and has a status changes, an execution that is not
  -- queued or running, or none of whose pods has failed, is left alone. Otherwise it is stored as
  -- failed, with the message of its first failed pod on a new line after the
  -- message that it had, and the error of the repository is returned. A pod has failed if its phase
  -- says so or one of its containers ended with another exit code than 0.
  pub check_execution_pod_status_lem :
      {E : Type 0} (update : Execution → Option E) (pods : List Pod) (execution : Execution)
      (r : ExecutionResult) (s : ExecutionStatus)
      → execution.execution_result ≡ some r
      → r.status ≡ some s
      → check_execution_pod_status show (ok execution) update pods
        ≡ some (elim (if alive s then first_failed pods else none) [
          | none ↦ (none, none)
          | some p ↦ (some (failed_by p r execution), update (failed_by p r execution))
        ])
  unfolding check_execution_pod_status
  check_execution_pod_status_lem update pods execution r s result status =
      let active = is_active-status r s status in
      elim (Bool-cases (alive s)) [
        | inr ended ↦ rw (result, active, ended) refl
        | inl holds ↦ elim (Option-cases (first_failed pods)) [
          | inl fine ↦ rw (result, active, holds, error_message_of_lem pods, fine) refl
          | inr (p, failed) ↦ elim (Bool-cases (get_pod_error_message show p == "")) [
            | inl blank ↦
                absurd (
                  get_pod_error_message-blank p
                    ((eq_iff (get_pod_error_message show p) "").0 blank))
            | inr given ↦
                rw (result, active, holds, error_message_of_lem pods, failed, given)
                  (rw (with_error_lem p r execution) refl)
          ]
        ]
      ]
