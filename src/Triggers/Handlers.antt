-- ===== src/Triggers/Handlers.antt =====
-- pkg/triggers/watcher.go and event.go: what the informers' callbacks do.
pub mod Resources
pub mod Operator
use testkube.Base.{
  ℕ, String, Bool, true, false, ◌&&◌, not, ◌==◌, Option, none, some, List, [], ◌∷◌, ◌++◌, Map, map,
  lookup, nat_eq, ltb, if◌then◌else◌,
}
use testkube.Triggers.Trigger.{TestTrigger, WatcherEvent}
use testkube.Triggers.Diff.{Deployment, Cause}
use testkube.Triggers.Pods.{Pod}

-- The resources that are watched.
pub data Kind : Type 0 where
  pod deployment stateful_set daemon_set service ingress cluster_event config_map : Kind

abbrev index : Kind → ℕ
index pod = 0
index deployment = 1
index stateful_set = 2
index daemon_set = 3
index service = 4
index ingress = 5
index cluster_event = 6
index config_map = 7

abbrev pub same_kind : Kind → Kind → Bool
same_kind a b = nat_eq (index a) (index b)

-- A Kubernetes object; `content` is all but the metadata that is read here.
pub record Object (S : Type 0) : Type 0 where
  pub name : String
  pub namespace : String
  pub labels : Map String
  pub creation_timestamp : ℕ
  pub content : S

-- The values of type `any` that the callbacks get.
pub data Any (S L : Type 0) : Type 0 where
  resource : Kind → Object S → Any S L
  test_trigger : TestTrigger L → Any S L
  test test_suite : Object S → Any S L
  other : Any S L

pub data Callback (S L : Type 0) : Type 0 where
  added : Any S L → Callback S L
  updated : Any S L → Any S L → Callback S L
  deleted : Any S L → Callback S L

-- What is read of a content: `cmp.Equal` on the specs, or on the data of config maps, the containers of
-- a deployment and the status of a pod.
pub record Contents (S E : Type 0) : Type 0 where
  pub same_spec : S → S → Bool
  pub same_data : S → S → Bool
  pub same_binary_data : S → S → Bool
  pub same_env : E → E → Bool
  pub deployment_of : S → Deployment E
  pub pod_of : Object S → Pod

-- The constants of the operator.
pub record Names : Type 0 where
  pub created : String
  pub modified : String
  pub deleted : String
  pub resource_of : Kind → String
  pub cause_of : Cause → String

-- A watcher event with its getters: those of the resources of a kind, for the object of the event.
pub record Matched : Type 0 where
  pub event : WatcherEvent
  pub conditions_getter : Option Kind
  pub address_getter : Option Kind

pub data WatcherOpt : Type 0 where
  with_causes : List String → WatcherOpt
  with_conditions_getter with_address_getter : Kind → WatcherOpt

abbrev pub apply : WatcherOpt → Matched → Matched
apply (with_causes cs) w = record w { event = record (w.event) { causes = cs } }
apply (with_conditions_getter k) w = record w { conditions_getter = some k }
apply (with_address_getter k) w = record w { address_getter = some k }

abbrev pub apply_all : List WatcherOpt → Matched → Matched
apply_all [] w = w
apply_all (o ∷ opts) w = apply_all opts (apply o w)

abbrev pub pod_opts : List WatcherOpt
pod_opts = with_conditions_getter pod ∷ with_address_getter pod ∷ []

abbrev pub service_opts : List WatcherOpt
service_opts = with_conditions_getter service ∷ with_address_getter service ∷ []

-- What a callback calls: `match`, `checkExecutionPodStatus`, and the functions of service.go.
pub data Call (S L : Type 0) : Type 0 where
  match_event : Matched → Call S L
  check_execution_pod_status : String → List Pod → Call S L
  add_trigger update_trigger remove_trigger : TestTrigger L → Call S L
  add_test update_test add_test_suite : Object S → Call S L

module _ {S : Type 0} where
  unfoldable pub new_watcher_event : String → Object S → String → List WatcherOpt → Matched
  new_watcher_event event_type o resource_type opts = apply_all opts (record {
    event = record {
      resource = resource_type;
      name = o.name;
      namespace = o.namespace;
      labels = o.labels;
      event_type = event_type;
      causes = [];
    };
    conditions_getter = none;
    address_getter = none;
  })

  -- `o.Labels["job-name"]`
  unfoldable pub job_name : Object S → String
  unfolding lookup
  job_name o = elim (lookup "job-name" o.labels) [ none ↦ "" | some job ↦ job ]

  -- The type assertion to the type of a resource.
  abbrev pub as_kind : {L : Type 0} → Kind → Any S L → Option (Object S)
  as_kind kind (resource k o) = if same_kind kind k then some o else none
  as_kind kind (test_trigger t) = none
  as_kind kind (test o) = none
  as_kind kind (test_suite o) = none
  as_kind kind other = none
