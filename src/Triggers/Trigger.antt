-- ===== src/Triggers/Trigger.antt =====
-- The fields that pkg/triggers reads of a TestTrigger of the operator, and the watcher events of
-- pkg/triggers/event.go.
use testkube.Base.{ℕ, String, Option, List, Map}

-- `L` is the type of Kubernetes label selectors.
pub record Selector (L : Type 0) : Type 0 where
  pub name : String
  pub name_regex : String
  pub namespace : String
  pub label_selector : Option L

pub record Condition : Type 0 where
  pub type : String
  pub status : Option String
  pub reason : String
  pub ttl : ℕ

-- Durations are numbers of seconds.
pub record ConditionSpec : Type 0 where
  pub timeout : ℕ
  pub delay : ℕ
  pub conditions : List Condition

pub record Probe : Type 0 where
  pub scheme : String
  pub host : String
  pub port : ℕ
  pub path : String
  pub headers : Map String

pub record ProbeSpec : Type 0 where
  pub timeout : ℕ
  pub delay : ℕ
  pub probes : List Probe

-- The values of `ConcurrencyPolicy` that the code tells apart.
pub data ConcurrencyPolicy : Type 0 where
  forbid replace other_policy : ConcurrencyPolicy

pub record TestTrigger (L : Type 0) : Type 0 where
  pub name : String
  pub namespace : String
  pub resource : String
  pub event : String
  pub resource_selector : Selector L
  pub condition_spec : Option ConditionSpec
  pub probe_spec : Option ProbeSpec
  pub execution : String
  pub test_selector : Selector L
  pub concurrency_policy : ConcurrencyPolicy

-- `watcherEvent`; the getters are arguments of the functions that call them.
pub record WatcherEvent : Type 0 where
  pub resource : String
  pub name : String
  pub namespace : String
  pub labels : Map String
  pub event_type : String
  pub causes : List String
