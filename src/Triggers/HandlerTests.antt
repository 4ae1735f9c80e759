-- ===== src/Triggers/HandlerTests.antt =====
-- The theorems on the callbacks of the informers, at concrete pods, deployments and triggers.
use testkube.Base.{
  ℕ, String, ◌≡◌, refl, ◌↔◌, none, some, List, [], ◌∷◌, Memᴰ, ℤ, pos, negsuc, nat_eq, ok,
}
use testkube.Model.Status.{ExecutionStatus}
use testkube.Model.ExecutionResult.{empty_result, set_status}
use testkube.Model.Execution.{Execution, empty_execution}
use testkube.Triggers.Trigger.{Selector, TestTrigger, ConcurrencyPolicy}
use testkube.Triggers.Diff.{diff_deployments}
use testkube.Triggers.Pods.{Pod, other_phase, check_execution_pod_status}
use testkube.Triggers.Pods.Errors.{failed_by, check_execution_pod_status_lem}
use testkube.Triggers.Handlers.{
  deployment, Object, Any, resource, test_trigger, Callback, added, updated, Contents, Names,
  Matched, match_event,
}
use testkube.Triggers.Handlers.Resources.{handler}
use testkube.Triggers.Handlers.Resources.Events.{Emits}
use testkube.Triggers.Handlers.Resources.Emits.{handler-Mem_iff}
use testkube.Triggers.Handlers.Operator.{run_callbacks}
use testkube.Triggers.Handlers.Operator.Latest.{trigger_at, latest, run_callbacks-latest}

abbrev digits : ℤ → String
digits (pos n) = "137"
digits (negsuc n) = "-1"

abbrev killed : Pod
killed = record {
  name = "job-1-x";
  phase = other_phase;
  message = "";
  reason = "";
  init_containers = none ∷ [];
  containers = some (record { exit_code = pos 137; message = ""; reason = "OOMKilled" }) ∷ [];
}

abbrev running : Execution
running = record empty_execution {
  execution_result = some (set_status ExecutionStatus.running empty_result);
}

check_execution_pod_status_lem_example :
    check_execution_pod_status digits {E = String} (ok running) (λ e. none) (killed ∷ [])
    ≡ some (
      some (failed_by digits killed (set_status ExecutionStatus.running empty_result) running),
      none,
    )
check_execution_pod_status_lem_example =
    check_execution_pod_status_lem digits (λ e. none) (killed ∷ []) running
      (set_status ExecutionStatus.running empty_result) ExecutionStatus.running refl refl

-- Contents are the replicas of a deployment.
abbrev contents : Contents ℕ ℕ
contents = record {
  same_spec = nat_eq;
  same_data = nat_eq;
  same_binary_data = nat_eq;
  same_env = nat_eq;
  deployment_of = λ n. record { replicas = n; containers = [] };
  pod_of = λ o. killed;
}

abbrev names : Names
names = record {
  created = "created";
  modified = "modified";
  deleted = "deleted";
  resource_of = λ k. "deployment";
  cause_of = λ c. "deployment-scale-update";
}

abbrev api : ℕ → Object ℕ
api replicas = record {
  name = "api";
  namespace = "default";
  labels = [];
  creation_timestamp = 5;
  content = replicas;
}

abbrev scaled : Callback ℕ String
scaled = updated (resource deployment (api 1)) (resource deployment (api 2))

abbrev scale_event : Matched
scale_event = record {
  event = record {
    resource = "deployment";
    name = "api";
    namespace = "default";
    labels = [];
    event_type = "modified";
    causes = "deployment-scale-update" ∷ [];
  };
  conditions_getter = some deployment;
  address_getter = none;
}

handler-Mem_iff_example :
    Memᴰ (match_event scale_event) (handler contents names 3 "testkube" deployment scaled)
    ↔ Emits contents names 3 "testkube" deployment scaled scale_event
handler-Mem_iff_example = handler-Mem_iff contents names 3 "testkube" scale_event deployment scaled

-- The update is one of these events.
scaled-Emits : Emits contents names 3 "testkube" deployment scaled scale_event
unfolding diff_deployments
scaled-Emits = (api 1, api 2, refl, refl, (refl, refl))

abbrev selector : Selector String
selector = record { name = "api"; name_regex = ""; namespace = ""; label_selector = none }

abbrev trigger : String → TestTrigger String
trigger event = record {
  name = "t";
  namespace = "default";
  resource = "pod";
  event = event;
  resource_selector = selector;
  condition_spec = none;
  probe_spec = none;
  execution = "test";
  test_selector = selector;
  concurrency_policy = ConcurrencyPolicy.forbid;
}

abbrev callbacks : List (Callback ℕ String)
callbacks =
    added (test_trigger (trigger "created"))
    ∷ updated Any.other (test_trigger (trigger "deleted"))
    ∷ []

run_callbacks-latest_example :
    trigger_at "default/t" (run_callbacks callbacks [])
    ≡ latest "default/t" callbacks (trigger_at "default/t" [])
run_callbacks-latest_example = run_callbacks-latest "default/t" callbacks []
