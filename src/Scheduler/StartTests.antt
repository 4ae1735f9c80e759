-- ===== src/Scheduler/StartTests.antt =====
-- The theorems on the options, the secrets and the start of an execution, at a concrete test.
use testkube.Base.{
  String, true, false, ◌≡◌, refl, ◌⊎◌, Option, none, some, List, [], ◌∷◌, Map, ok, All, lookup,
  insert, insert_all, or_else,
}
use testkube.Model.Data.{Variable, secret, is_secret}
use testkube.Model.ExecutionResult.{empty_result}
use testkube.Model.Execution.{Execution, empty_execution}
use testkube.Scheduler.Requests.{
  ExecutionRequest, TestSpec, TestResource, ExecutorSpec, Clients, ExecuteOptions,
}
use testkube.Scheduler.Options.{
  options_of, merged_request, under, get_execute_options, reference_variables, config_map_variable,
  secret_variable, with_source,
}
use testkube.Scheduler.Options.Variables.{
  Layered, merged, test_variables, test_envs, get_execute_options-variables,
  get_execute_options-envs,
}
use testkube.Scheduler.Secrets.{hidden, secret_name_of, create_secrets_references}
use testkube.Scheduler.Starts.{Calls, Test, Effect, numbered, execute_test}
use testkube.Scheduler.Starts.Outcomes.{Ends, execute_test-Ends}
use testkube.Scheduler.Starts.Stored.{Hides, execute_test-Hides}

abbrev token : Variable
token = record {
  name = "TOKEN";
  value = "hunter2";
  type = some secret;
  secret_ref = none;
  config_map_ref = none;
}

abbrev empty_request : ExecutionRequest
empty_request = record {
  id = "e1";
  name = "";
  test_suite_name = "";
  number = 0;
  execution_labels = [];
  is_variables_file_uploaded = false;
  variables_file = "";
  variables = ("TOKEN", token) ∷ [];
  test_secret_uuid = "";
  test_suite_secret_uuid = "";
  command = [];
  args = [];
  args_mode = "";
  image = "";
  image_pull_secrets = [];
  envs = ("MODE", "fast") ∷ [];
  secret_envs = [];
  sync = true;
  http_proxy = "";
  https_proxy = "";
  negative_test = false;
  is_negative_test_changed_on_run = false;
  active_deadline_seconds = 0;
  artifact_request = none;
  job_template = "";
  job_template_reference = "";
  content_request = none;
  pre_run_script = "";
  post_run_script = "";
  execute_post_run_script_before_scraping = false;
  scraper_template = "";
  scraper_template_reference = "";
  pvc_template = "";
  pvc_template_reference = "";
  env_config_maps = [];
  env_secrets = [];
  running_context = none;
  test_execution_name = "";
}

-- The test sets the same variable of the environment, and maps a config map to variables.
abbrev defaults : ExecutionRequest
defaults = record empty_request {
  variables = [];
  envs = ("MODE", "slow") ∷ [];
  env_config_maps =
      record {
        reference = some "settings";
        mount = false;
        mount_path = "";
        map_to_variables = true;
      }
      ∷ [];
}

abbrev spec : TestSpec
spec = record { type = "k6"; source = ""; content = none; execution_request = some defaults }

abbrev resource : TestResource
resource = record { name = "smoke"; namespace = "testkube"; labels = []; spec = spec }

abbrev executor : ExecutorSpec
executor = record { executor_type = "job"; image_pull_secrets = []; command = "k6" ∷ []; args = [] }

abbrev clients : Clients
clients = record {
  get_test = λ _. some resource;
  get_test_source = λ _. none;
  get_executor = λ _. some ("k6-executor", executor);
  get_config_map = λ _. some ("URL" ∷ []);
  get_secret = λ _. none;
}

abbrev whole_request : ExecutionRequest
whole_request = merged_request empty_request (some defaults)

abbrev url : Variable
url = config_map_variable "settings" "URL"

abbrev options : ExecuteOptions
options =
    options_of "testkube" "smoke" resource spec ("k6-executor", executor) whole_request
      (record whole_request { variables = under (("URL", url) ∷ []) whole_request.variables })

sourced : with_source clients spec ≡ some (ok spec)
unfolding with_source
sourced = refl

returned : get_execute_options clients "testkube" "smoke" empty_request ≡ some (ok options)
unfolding get_execute_options insert lookup
returned = refl

get_execute_options-variables_example :
    (maps : Map Variable) × (secrets : Map Variable) × (reference_variables clients.get_config_map
        config_map_variable
        (merged empty_request spec).env_config_maps
        []
      ≡ some maps)
    × (reference_variables clients.get_secret secret_variable
          (merged empty_request spec).env_secrets
          []
        ≡ some secrets)
    × Layered empty_request.variables
        (test_variables (some defaults))
        maps
        secrets
        options.request.variables
get_execute_options-variables_example =
    get_execute_options-variables clients "testkube" "smoke" empty_request resource spec options
      refl sourced returned (tt, tt) tt

get_execute_options-envs_example :
    lookup "MODE" options.request.envs
    ≡ or_else (lookup "MODE" (test_envs (some defaults))) (lookup "MODE" empty_request.envs)
get_execute_options-envs_example =
    get_execute_options-envs clients "testkube" "smoke" empty_request resource spec options refl
      sourced returned (tt, tt) (tt, tt) "MODE"

abbrev no_error : String → Map String → Map String → Option String
no_error name labels secrets = none

hidden_now :
    create_secrets_references no_error "e1" "smoke" "testkube" (("TOKEN", token) ∷ [])
    ≡ some (("TOKEN", hidden "testkube" (secret_name_of "e1") token) ∷ [], none)
unfolding create_secrets_references
hidden_now = refl

token_found : lookup "TOKEN" (("TOKEN", token) ∷ []) ≡ some token
unfolding lookup
token_found = refl

token_plain : is_secret token ≡ some true
unfolding is_secret
token_plain = refl

abbrev calls : Calls String
calls = record {
  clients = clients;
  show = λ _. "1";
  error_text = λ x. x;
  options_error_text = λ _. "options";
  new_id = "new";
  now = 5;
  next_number = λ _. 1;
  by_name_and_test = λ _ _. empty_execution;
  secret_uuid = λ _. ok "uuid";
  create_secret = no_error;
  insert = λ _. none;
  start = λ _ _. none;
  execute = λ _ _. (some empty_result, none);
  update_result = λ _. none;
}

abbrev test : Test
test = record { name = "smoke"; namespace = "testkube"; execution_name = none }

outcome : (r : Execution × List Effect) × (execute_test calls test empty_request ≡ some r)
unfolding execute_test insert insert_all lookup
outcome = (_, refl)

execute_test-Ends_example : Ends calls outcome.0
execute_test-Ends_example = execute_test-Ends calls test empty_request outcome.1

execute_test-Hides_example :
    (outcome.0.1 ≡ [])
    ⊎ ((uuid : String) × (o : ExecuteOptions) × (get_execute_options clients "testkube" "smoke"
            (record (numbered calls test empty_request) { test_secret_uuid = uuid })
          ≡ some (ok o))
        × All (Hides o.request.variables) outcome.0.1)
execute_test-Hides_example = execute_test-Hides calls test empty_request outcome.1
