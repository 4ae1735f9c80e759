-- ===== src/Triggers/Handlers/Resources.antt =====
-- pkg/triggers/watcher.go: the callbacks for the resources that triggers watch.
pub mod Callbacks
pub mod Events
pub mod Emits
use testkube.Base.{
  ℕ, String, Bool, true, false, ◌&&◌, not, ◌==◌, Option, none, some, List, [], ◌∷◌, ◌++◌, map, ltb,
  if◌then◌else◌,
}
use testkube.Triggers.Diff.{diff_deployments}
use testkube.Triggers.Handlers.{
  Kind, pod, deployment, stateful_set, daemon_set, service, ingress, cluster_event, config_map,
  Object, Any, Callback, added, updated, deleted, Contents, Names, WatcherOpt, with_causes,
  with_conditions_getter, with_address_getter, Call, match_event, check_execution_pod_status,
  new_watcher_event, job_name, as_kind, pod_opts, service_opts,
}

-- `from` is `watchFromDate`, `home` the namespace of Testkube.
module _ {S E : Type 0} (contents : Contents S E) (names : Names) (from : ℕ) (home : String) where
  abbrev pub in_past : Object S → Bool
  in_past o = ltb o.creation_timestamp from

  abbrev pub emit : {L : Type 0} → String → Kind → Object S → List WatcherOpt → List (Call S L)
  emit event_type kind o opts =
      match_event (new_watcher_event event_type o (names.resource_of kind) opts) ∷ []

  -- The `AddFunc` that all resources have, after the type assertion.
  abbrev pub add_object :
      {L : Type 0} → Kind → List WatcherOpt → Option (Object S) → List (Call S L)
  add_object kind opts none = []
  add_object kind opts (some o) = if in_past o then [] else emit names.created kind o opts

  unfoldable pub add_func : {L : Type 0} → Kind → List WatcherOpt → Any S L → List (Call S L)
  add_func kind opts obj = add_object kind opts (as_kind kind obj)

  -- The `UpdateFunc` of the resources that have a spec or data to compare.
  abbrev pub update_object :
      {L : Type 0}
      → (S → S → Bool)
      → Kind
      → (Object S → Object S → List WatcherOpt)
      → Option (Object S)
      → Option (Object S)
      → List (Call S L)
  update_object same kind opts none new = []
  update_object same kind opts (some o) none = []
  update_object same kind opts (some o) (some n) =
      if same o.content n.content then [] else emit names.modified kind n (opts o n)

  unfoldable pub update_func :
      {L : Type 0}
      → (S → S → Bool)
      → Kind
      → (Object S → Object S → List WatcherOpt)
      → Any S L
      → Any S L
      → List (Call S L)
  update_func same kind opts old new =
      update_object same kind opts (as_kind kind old) (as_kind kind new)

  abbrev pub delete_object :
      {L : Type 0} → Kind → List WatcherOpt → Option (Object S) → List (Call S L)
  delete_object kind opts none = []
  delete_object kind opts (some o) = emit names.deleted kind o opts

  unfoldable pub delete_func : {L : Type 0} → Kind → List WatcherOpt → Any S L → List (Call S L)
  delete_func kind opts obj = delete_object kind opts (as_kind kind obj)

  -- The update of a pod of a job of Testkube, and its `check_execution_pod_status`.
  unfoldable pub pod_updated : {L : Type 0} → Object S → Object S → List (Call S L)
  unfolding job_name
  pod_updated o n =
      if (o.namespace == home)
        && not (job_name o == "")
        && (n.namespace == home)
        && not (job_name n == "")
        && (job_name o == job_name n)
      then check_execution_pod_status (job_name o) (contents.pod_of o ∷ contents.pod_of n ∷ []) ∷ []
      else []

  abbrev pub pod_update_object :
      {L : Type 0} → Option (Object S) → Option (Object S) → List (Call S L)
  pod_update_object none new = []
  pod_update_object (some o) none = []
  pod_update_object (some o) (some n) =
      if in_past o then [] else if in_past n then [] else pod_updated o n

  unfoldable pub pod_update_func : {L : Type 0} → Any S L → Any S L → List (Call S L)
  pod_update_func old new = pod_update_object (as_kind pod old) (as_kind pod new)

  -- The `check_execution_pod_status` of a deleted pod of a job of Testkube.
  unfoldable pub pod_deleted : {L : Type 0} → Object S → List (Call S L)
  unfolding job_name
  pod_deleted o =
      if (o.namespace == home) && not (job_name o == "")
      then check_execution_pod_status (job_name o) (contents.pod_of o ∷ []) ∷ []
      else []

  abbrev pub pod_delete_object :
      {L : Type 0} → List WatcherOpt → Option (Object S) → List (Call S L)
  pod_delete_object opts none = []
  pod_delete_object opts (some o) = pod_deleted o ++ emit names.deleted pod o opts

  unfoldable pub pod_delete_func : {L : Type 0} → List WatcherOpt → Any S L → List (Call S L)
  pod_delete_func opts obj = pod_delete_object opts (as_kind pod obj)

  unfoldable pub pod_event_handler : {L : Type 0} → Callback S L → List (Call S L)
  unfolding add_func pod_update_func pod_delete_func
  pod_event_handler (added obj) = add_func pod pod_opts obj
  pod_event_handler (updated old new) = pod_update_func old new
  pod_event_handler (deleted obj) = pod_delete_func pod_opts obj

  abbrev pub deployment_causes : Object S → Object S → List String
  deployment_causes o n = map names.cause_of (
      diff_deployments contents.same_env (contents.deployment_of o.content)
        (contents.deployment_of n.content))

  unfoldable pub deployment_event_handler : {L : Type 0} → Callback S L → List (Call S L)
  unfolding add_func update_func delete_func
  deployment_event_handler (added obj) =
      add_func deployment (with_conditions_getter deployment ∷ []) obj
  deployment_event_handler (updated old new) =
      update_func contents.same_spec deployment
        (λ o n. with_causes (deployment_causes o n) ∷ with_conditions_getter deployment ∷ []) old
        new
  deployment_event_handler (deleted obj) =
      delete_func deployment (with_conditions_getter deployment ∷ []) obj

  unfoldable pub stateful_set_event_handler : {L : Type 0} → Callback S L → List (Call S L)
  unfolding add_func update_func delete_func
  stateful_set_event_handler (added obj) =
      add_func stateful_set (with_conditions_getter stateful_set ∷ []) obj
  stateful_set_event_handler (updated old new) =
      update_func contents.same_spec stateful_set (λ o n. with_conditions_getter stateful_set ∷ [])
        old new
  stateful_set_event_handler (deleted obj) =
      delete_func stateful_set (with_conditions_getter stateful_set ∷ []) obj

  unfoldable pub daemon_set_event_handler : {L : Type 0} → Callback S L → List (Call S L)
  unfolding add_func update_func delete_func
  daemon_set_event_handler (added obj) =
      add_func daemon_set (with_conditions_getter daemon_set ∷ []) obj
  daemon_set_event_handler (updated old new) =
      update_func contents.same_spec daemon_set (λ o n. with_conditions_getter daemon_set ∷ []) old
        new
  daemon_set_event_handler (deleted obj) =
      delete_func daemon_set (with_conditions_getter daemon_set ∷ []) obj

  unfoldable pub service_event_handler : {L : Type 0} → Callback S L → List (Call S L)
  unfolding add_func update_func delete_func
  service_event_handler (added obj) = add_func service service_opts obj
  service_event_handler (updated old new) =
      update_func contents.same_spec service (λ o n. service_opts) old new
  service_event_handler (deleted obj) = delete_func service service_opts obj

  unfoldable pub ingress_event_handler : {L : Type 0} → Callback S L → List (Call S L)
  unfolding add_func update_func delete_func
  ingress_event_handler (added obj) = add_func ingress [] obj
  ingress_event_handler (updated old new) =
      update_func contents.same_spec ingress (λ o n. []) old new
  ingress_event_handler (deleted obj) = delete_func ingress [] obj

  unfoldable pub cluster_event_event_handler : {L : Type 0} → Callback S L → List (Call S L)
  unfolding add_func
  cluster_event_event_handler (added obj) = add_func cluster_event [] obj
  cluster_event_event_handler (updated old new) = []
  cluster_event_event_handler (deleted obj) = []

  abbrev pub same_config : S → S → Bool
  same_config s t = contents.same_data s t && contents.same_binary_data s t

  unfoldable pub config_map_event_handler : {L : Type 0} → Callback S L → List (Call S L)
  unfolding add_func update_func delete_func
  config_map_event_handler (added obj) = add_func config_map [] obj
  config_map_event_handler (updated old new) =
      update_func same_config config_map (λ o n. []) old new
  config_map_event_handler (deleted obj) = delete_func config_map [] obj

  -- `runInformers`: the handler of the informers of a kind.
  unfoldable pub handler : {L : Type 0} → Kind → Callback S L → List (Call S L)
  unfolding pod_event_handler deployment_event_handler stateful_set_event_handler
      daemon_set_event_handler service_event_handler ingress_event_handler
      cluster_event_event_handler config_map_event_handler
  handler pod c = pod_event_handler c
  handler deployment c = deployment_event_handler c
  handler stateful_set c = stateful_set_event_handler c
  handler daemon_set c = daemon_set_event_handler c
  handler service c = service_event_handler c
  handler ingress c = ingress_event_handler c
  handler cluster_event c = cluster_event_event_handler c
  handler config_map c = config_map_event_handler c
