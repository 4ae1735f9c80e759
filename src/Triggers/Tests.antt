-- ===== src/Triggers/Tests.antt =====
-- The theorems on trigger statuses, leases, the watcher and deployments, at concrete states.
use testkube.Base.{
  String, Bool, true, false, ◌==◌, ◌≡◌, refl, not, select, none, some, [], ◌∷◌, last_or,
  if◌then◌else◌, arith, Bool-cases, inl, inr,
}
use testkube.Model.Status.{ExecutionStatus}
use testkube.Model.ExecutionResult.{empty_result, set_status}
use testkube.Model.Execution.{Execution, empty_execution}
use testkube.Model.Suite.{SuiteExecution}
use testkube.Model.Repository.{Fetched, found, no_documents}
use testkube.Triggers.Status.{TriggerStatus, new_trigger_status, remove_id}
use testkube.Triggers.Status.Removal.{remove_id-twice}
use testkube.Triggers.Scraper.{scrape}
use testkube.Triggers.Scraper.Gone.{Fetches, test_gone, suite_gone}
use testkube.Triggers.Scraper.Ticks.{settled, scrape_lem}
use testkube.Triggers.Scraper.Sweep.{IsNoDup}
use testkube.Triggers.Watcher.{idle_watcher, on_done, watch}
use testkube.Triggers.Watcher.Runs.{Alternates, watch-Alternates, on_done-eq-none}
use testkube.Triggers.Diff.{Container, Deployment, find_container, diff_deployments}
use testkube.Triggers.Diff.Causes.{diff_deployments-first}

remove_id-twice_example : remove_id "" ("a" ∷ "" ∷ "b" ∷ "" ∷ []) ≡ none
remove_id-twice_example = remove_id-twice "" ("a" ∷ []) ("b" ∷ []) (refl, tt)

-- A status with two tests: "e1" has passed, "e2" runs.
abbrev two_tests : TriggerStatus String
two_tests = record (new_trigger_status "trigger") { test_execution_ids = "e1" ∷ "e2" ∷ [] }

abbrev execution_with : ExecutionStatus → Execution
execution_with s = record empty_execution { execution_result = some (set_status s empty_result) }

abbrev repository : String → Fetched Execution
repository id =
    if id == "e1"
    then found (execution_with ExecutionStatus.passed)
    else found (execution_with ExecutionStatus.running)

abbrev no_suites : String → Fetched SuiteExecution
no_suites id = no_documents

repository-Fetches : (id : String) → Fetches (repository id)
repository-Fetches id = elim (Bool-cases (id == "e1")) [
  | inl e ↦ rw e (λ h. absurd (ground arith))
  | inr e ↦ rw e (λ h. absurd (ground arith))
]

abbrev abort_all : Execution → Bool
abort_all e = true

abbrev publish_all : SuiteExecution → Bool
publish_all e = true

two_differ : IsNoDup ("e1" ∷ "e2" ∷ [])
two_differ = ((refl, tt), (tt, tt))

scrape_lem_example :
    scrape repository no_suites 9 two_tests
    ≡ some (
        settled 9
          (select (λ id. not (test_gone (repository id))) two_tests.test_execution_ids)
          (select (λ id. not (suite_gone (no_suites id))) two_tests.test_suite_execution_ids)
          two_tests)
scrape_lem_example = scrape_lem repository no_suites repository-Fetches 9 two_tests two_differ tt

watch-Alternates_example :
    Alternates false (watch (true ∷ true ∷ false ∷ []) idle_watcher).1
    × ((watch (true ∷ true ∷ false ∷ []) idle_watcher).0.running
        ≡ last_or false (true ∷ true ∷ false ∷ []))
watch-Alternates_example = watch-Alternates (true ∷ true ∷ false ∷ []) idle_watcher

on_done-eq-none_example :
    ((watch (true ∷ []) idle_watcher).0.running ≡ true)
    × (on_done (watch (true ∷ []) idle_watcher).0 ≡ none)
on_done-eq-none_example = on_done-eq-none (true ∷ []) refl

-- A deployment of two containers, and one in which the image of the second has changed.
abbrev container : String → String → Container String
container name image = record { name = name; image = image; env = "" }

abbrev old_deployment : Deployment String
old_deployment = record {
  replicas = 1;
  containers = container "app" "app:1" ∷ container "proxy" "proxy:1" ∷ [];
}

abbrev same_text : String → String → Bool
same_text a b = a == b

app_found : find_container old_deployment.containers "app" ≡ some (container "app" "app:1")
unfolding find_container
app_found = refl

diff_deployments-first_example :
    diff_deployments same_text old_deployment (record {
      replicas = 1;
      containers = container "app" "app:1" ∷ container "proxy" "proxy:2" ∷ [];
    })
    ≡ diff_deployments same_text old_deployment (record {
      replicas = 1;
      containers = container "app" "app:1" ∷ container "proxy" "proxy:1" ∷ [];
    })
diff_deployments-first_example =
    diff_deployments-first same_text old_deployment 1 [] (container "proxy" "proxy:2" ∷ [])
      (container "proxy" "proxy:1" ∷ []) (container "app" "app:1") (container "app" "app:1") tt
      app_found
