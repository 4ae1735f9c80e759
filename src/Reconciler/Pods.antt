-- ===== src/Reconciler/Pods.antt =====
-- Which executions are left alone (ProcessTests in reconciler.go).
use testkube.Base.{
  String, Bool, true, false, ◌&&◌, ◌==◌, not, ◌≡◌, ◌↔◌, Option, none, some, List, [], ◌∷◌, arith,
  concat, if◌then◌else◌, Option-cases, inl, inr,
}
use testkube.Model.Execution.{Execution}
use testkube.Reconciler.{
  Pod, scan_pods, scan_message, Executor, wants_scraper, is_container_executor, test_message,
}

-- The first pod of the job.
unfoldable pub first_pod : String → List Pod → Option Pod
first_pod id [] = none
first_pod id (p ∷ ps) = let rest = first_pod id ps in if p.job_name == id then some p else rest

-- The job has a pod, and the first one has not failed.
abbrev pub is_alive : Option Pod → Bool
is_alive none = false
is_alive (some p) = not p.failed

scan_pods_lem :
    (id : String) (ps : List Pod)
    → scan_message (scan_pods id ps) ≡ none
    → is_alive (first_pod id ps) ≡ true
unfolding scan_pods first_pod
scan_pods_lem id [] h = absurd (ground arith)
scan_pods_lem id (p ∷ ps) h = ground (arith, scan_pods_lem id ps)

alive_lem :
    (id : String) (ps : List Pod)
    → is_alive (first_pod id ps) ≡ true
    → scan_message (scan_pods id ps) ≡ none
unfolding scan_pods first_pod
alive_lem id [] h = absurd (ground arith)
alive_lem id (p ∷ ps) h = ground (arith, alive_lem id ps)

-- A listing of the pods shows a first pod that has not failed.
abbrev pub lists_alive : String → Option (List Pod) → Bool
lists_alive id none = false
lists_alive id (some ps) = is_alive (first_pod id ps)

abbrev pub is_listed : Option (List Pod) → Bool
is_listed none = false
is_listed (some ps) = true

-- An execution that is stored as running is left alone exactly when the first pod of its job has not
-- failed, or when the pods of the job cannot be listed, the executor is a container executor that
-- supports artifacts, the execution asks for a storage class, and the first pod of its scraper job has
-- not failed.
pub test_message-eq-none_iff :
    (pods : String → Option (List Pod)) (x : Option Executor) (e : Execution)
    → (test_message pods x e ≡ none) ↔ (
        (if is_listed (pods e.id)
          then lists_alive e.id (pods e.id)
          else is_container_executor x
            && wants_scraper x e.storage_class_name
            && lists_alive
                (concat (e.id ∷ "-scraper" ∷ []))
                (pods (concat (e.id ∷ "-scraper" ∷ []))))
        ≡ true)
unfolding test_message
test_message-eq-none_iff pods x e =
    let id = concat (e.id ∷ "-scraper" ∷ []) in
    elim (Option-cases (pods e.id)) [
      | inr (ps, listed) ↦ ground (arith, listed, scan_pods_lem e.id ps, alive_lem e.id ps)
      | inl unlisted ↦ elim (Option-cases (pods id)) [
        | inr (ps, listed) ↦ ground (arith, unlisted, listed, scan_pods_lem id ps, alive_lem id ps)
        | inl other ↦ ground (arith, unlisted, other)
      ]
    ]
