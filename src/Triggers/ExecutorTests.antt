-- ===== src/Triggers/ExecutorTests.antt =====
-- The theorems on the executor, at a concrete trigger and two tests.
use testkube.Base.{String, true, ◌==◌, ◌≡◌, refl, ◌↔◌, ◌⊎◌, Option, none, some, [], ◌∷◌, Memᴰ, ok}
use testkube.Triggers.Status.{new_trigger_status}
use testkube.Triggers.Trigger.{Selector, TestTrigger, ConcurrencyPolicy}
use testkube.Triggers.Service.{Statuses, get_status_for_trigger}
use testkube.Triggers.Match.{Calls, return, run_trigger}
use testkube.Triggers.Executor.{Items, ExecutorCalls, ExecuteError, get_items, execute}
use testkube.Triggers.Executor.Selection.{IsNamed, IsMatched, IsLabelled, get_items-Mem_iff}
use testkube.Triggers.Executor.Runs.{Failed, RanTests, RanTestSuites, execute_lem}
use testkube.Triggers.Executor.Forbids.{run_trigger-execute}

-- Items are their names; all are listed whatever the labels.
abbrev names : Items String String String
names = record {
  get = λ name. ok name;
  list = λ labels. ok ("api" ∷ "web" ∷ []);
  name_of = λ i. i;
  compile = λ pattern. ok (λ name. name == pattern);
  stringified = λ l. ok l;
}

abbrev selector : Selector String
selector = record { name = "api"; name_regex = "web"; namespace = ""; label_selector = none }

abbrev trigger : TestTrigger String
trigger = record {
  name = "t";
  namespace = "default";
  resource = "pod";
  event = "created";
  resource_selector = selector;
  condition_spec = none;
  probe_spec = none;
  execution = "test";
  test_selector = selector;
  concurrency_policy = ConcurrencyPolicy.forbid;
}

abbrev executor : ExecutorCalls String String String String
executor = record {
  tests = names;
  test_suites = names;
  run_tests = λ tests. tests;
  run_test_suites = λ suites. suites;
  now = 7;
}

abbrev matcher : Calls String String
matcher = record {
  lib = record { compile = λ _. none; as_selector = λ _. none; valid = λ _. true };
  show = λ _. "80";
  conditions = λ _. none;
  address = none;
  clients = λ _. [];
  abort = λ s. some s;
  execute = λ _ m. (m, none);
}

abbrev statuses : Statuses String
statuses = ("default/t", new_trigger_status trigger) ∷ []

both_found : get_items names selector ≡ ok ("api" ∷ "web" ∷ [])
unfolding get_items
both_found = refl

status_found : get_status_for_trigger trigger statuses ≡ some (new_trigger_status trigger)
unfolding get_status_for_trigger
status_found = refl

get_items-Mem_iff_example : Memᴰ {A = String} "web" ("api" ∷ "web" ∷ []) ↔ (
    IsNamed names selector "web"
    ⊎ (IsMatched names selector "web" ⊎ IsLabelled names selector "web"))
get_items-Mem_iff_example = get_items-Mem_iff names selector "web" ("api" ∷ "web" ∷ []) both_found

execute_lem_example :
    (r : Statuses String × Option (ExecuteError String)) × (execute executor trigger statuses
      ≡ some r)
    × (Failed executor trigger statuses r
        ⊎ (RanTests executor trigger statuses (new_trigger_status trigger) r
            ⊎ RanTestSuites executor trigger statuses (new_trigger_status trigger) r))
execute_lem_example =
    execute_lem executor trigger statuses (new_trigger_status trigger) status_found

run_trigger-execute_example :
    (m' : Statuses String) × (execute executor trigger statuses ≡ some (m', none))
    × (run_trigger matcher trigger m' ≡ some (return none m'))
run_trigger-execute_example =
    run_trigger-execute executor matcher trigger statuses (new_trigger_status trigger)
      ("api" ∷ "web" ∷ []) status_found refl both_found refl refl
