-- ===== src/Scheduler/Options.antt =====
-- getExecuteOptions in pkg/scheduler/test_scheduler.go: the options of an execution, from the test, its
-- source, its executor and the request.
pub mod Variables
use testkube.Base.{
  ℕ, String, Bool, true, false, ◌==◌, ◌&&◌, ◌||◌, not, Option, none, some, List, [], ◌∷◌, ◌++◌, map,
  Map, Result, ok, err, is_empty, nat_eq, insert, if◌then◌else◌, ◌>>=◌, concat,
}
use testkube.Model.Data.{
  Variable, SecretRef, EnvReference, ArtifactRequest, RunningContext,
  new_config_map_variable_reference, new_secret_variable_reference,
}
use testkube.Scheduler.Requests.{
  ExecutionRequest, TestSpec, TestResource, ExecutorSpec, ExecuteOptions, OptionsError, no_test,
  no_test_source, no_executor, no_config_map, no_secret, Clients,
}
use testkube.Scheduler.Merge.{
  Content, TestSource, RepositoryParameters, merge_contents, adjust_content, merge_variables,
  merge_envs, merge_env_references, merge_artifacts, content_or_empty, fill,
}

abbrev pub artifacts_dir : String
artifacts_dir = "/data/artifacts"

-- `if testSourceCR.Spec.Type_ == "" && testSourceCR.Spec.Repository.Type_ == "git"`; `none` is the
-- dereference of a nil repository.
unfoldable pub git_type : TestSource → Content → Option Content
git_type source c =
    if source.type == ""
    then elim source.repository [
      | none ↦ none
      | some r ↦ some (if r.type == "git" then record c { type = "git" } else c)
    ]
    else some c

-- The content of the test with that of its source.
unfoldable pub with_source : Clients → TestSpec → Option (Result OptionsError TestSpec)
unfolding git_type merge_contents
with_source clients spec =
    if spec.source == "" then some (ok spec) else elim (clients.get_test_source spec.source) [
      | none ↦ some (err no_test_source)
      | some source ↦ git_type source (merge_contents spec.content source) >>= λ c.
          some (ok (record spec { content = some c }))
    ]

unfoldable pub with_content : ExecutionRequest → TestSpec → TestSpec
unfolding adjust_content
with_content request spec = elim request.content_request [
  | none ↦ spec
  | some parameters ↦ record spec { content = adjust_content spec.content parameters }
]

abbrev pub with_mount_path : Option ArtifactRequest → Option ArtifactRequest
with_mount_path none = none
with_mount_path (some a) =
    some (if a.volume_mount_path == "" then record a { volume_mount_path = artifacts_dir } else a)

abbrev pub or_list : List String → List String → List String
or_list default l = if is_empty l then default else l

-- The block `if test.ExecutionRequest != nil`.
unfoldable pub with_defaults : ExecutionRequest → ExecutionRequest → ExecutionRequest
unfolding merge_variables merge_envs merge_env_references merge_artifacts
with_defaults test r = record r {
  variables = merge_variables test.variables r.variables;
  envs = merge_envs r.envs test.envs;
  secret_envs = merge_envs r.secret_envs test.secret_envs;
  env_config_maps = merge_env_references r.env_config_maps test.env_config_maps;
  env_secrets = merge_env_references r.env_secrets test.env_secrets;
  variables_file = fill test.variables_file r.variables_file;
  is_variables_file_uploaded =
      if (r.variables_file == "") && not (test.variables_file == "")
      then test.is_variables_file_uploaded
      else r.is_variables_file_uploaded;
  http_proxy = fill test.http_proxy r.http_proxy;
  https_proxy = fill test.https_proxy r.https_proxy;
  job_template = fill test.job_template r.job_template;
  job_template_reference = fill test.job_template_reference r.job_template_reference;
  pre_run_script = fill test.pre_run_script r.pre_run_script;
  post_run_script = fill test.post_run_script r.post_run_script;
  scraper_template = fill test.scraper_template r.scraper_template;
  scraper_template_reference = fill test.scraper_template_reference r.scraper_template_reference;
  pvc_template = fill test.pvc_template r.pvc_template;
  pvc_template_reference = fill test.pvc_template_reference r.pvc_template_reference;
  args_mode = fill test.args_mode r.args_mode;
  command = or_list test.command r.command;
  args = or_list test.args r.args;
  active_deadline_seconds =
      if nat_eq r.active_deadline_seconds 0 && not (nat_eq test.active_deadline_seconds 0)
      then test.active_deadline_seconds
      else r.active_deadline_seconds;
  execute_post_run_script_before_scraping =
      if not r.execute_post_run_script_before_scraping
        && test.execute_post_run_script_before_scraping
      then test.execute_post_run_script_before_scraping
      else r.execute_post_run_script_before_scraping;
  artifact_request = with_mount_path (merge_artifacts r.artifact_request test.artifact_request);
  negative_test =
      if not r.is_negative_test_changed_on_run then test.negative_test else r.negative_test;
}

-- The request after the defaults of the test, if it has any.
unfoldable pub merged_request : ExecutionRequest → Option ExecutionRequest → ExecutionRequest
unfolding with_defaults
merged_request request none = request
merged_request request (some test) = with_defaults test request

-- The switch on the image pull secrets: the first list that is not empty.
abbrev pub pull_secrets : ExecutorSpec → TestSpec → ExecutionRequest → List String
pull_secrets executor spec request =
    if not (is_empty executor.image_pull_secrets)
    then executor.image_pull_secrets
    else elim spec.execution_request [
      | none ↦ request.image_pull_secrets
      | some r ↦
          if not (is_empty r.image_pull_secrets)
          then r.image_pull_secrets
          else request.image_pull_secrets
    ]

-- `for key := range data { vars[key] = … }`
unfoldable pub put_keys : (String → Variable) → List String → Map Variable → Map Variable
put_keys make [] vars = vars
put_keys make (key ∷ keys) vars = put_keys make keys (insert key (make key) vars)

-- The loops over the config maps and over the secrets; `none` is an error of the client.
unfoldable pub reference_variables :
    (String → Option (List String))
    → (String → String → Variable)
    → List EnvReference
    → Map Variable
    → Option (Map Variable)
unfolding put_keys
reference_variables get make [] vars = some vars
reference_variables get make (e ∷ es) vars =
    (elim e.reference [
      | none ↦ some vars
      | some name ↦
          if not e.map_to_variables
          then some vars
          else (get name >>= λ keys. some (put_keys (make name) keys vars))
    ])
    >>= reference_variables get make es

-- `if len(vars) != 0 { request.Variables = mergeVariables(vars, request.Variables) }`
abbrev pub under : Map Variable → Map Variable → Map Variable
unfolding merge_variables
under vars variables = if is_empty vars then variables else merge_variables vars variables

abbrev pub config_map_variable : String → String → Variable
unfolding new_config_map_variable_reference
config_map_variable name key = new_config_map_variable_reference key name key

abbrev pub secret_variable : String → String → Variable
unfolding new_secret_variable_reference
secret_variable name key = new_secret_variable_reference key name key

-- The request after the variables of config maps and secrets have been put under its own.
unfoldable pub with_references : Clients → ExecutionRequest → Result OptionsError ExecutionRequest
unfolding reference_variables under config_map_variable secret_variable
with_references clients r =
    elim (reference_variables clients.get_config_map config_map_variable r.env_config_maps []) [
      | none ↦ err no_config_map
      | some maps ↦ elim (reference_variables clients.get_secret secret_variable r.env_secrets []) [
        | none ↦ err no_secret
        | some secrets ↦ ok (record r { variables = under secrets (under maps r.variables) })
      ]
    ]

-- `request.Command` and `request.Args` with those of the executor.
abbrev pub with_executor : ExecutorSpec → ExecutionRequest → ExecutionRequest
with_executor executor r = record r {
  command = or_list executor.command r.command;
  args =
      if (r.args_mode == "append") || (r.args_mode == "") then executor.args ++ r.args else r.args;
}

-- What is returned once everything has been fetched.
abbrev pub options_of :
    String
    → String
    → TestResource
    → TestSpec
    → String × ExecutorSpec
    → ExecutionRequest
    → ExecutionRequest
    → ExecuteOptions
options_of namespace id resource spec executor merged request =
    let repository = (content_or_empty spec.content).repository in
    record {
      test_name = id;
      namespace = namespace;
      test_spec = spec;
      executor_name = executor.0;
      executor_spec = executor.1;
      request = with_executor executor.1 request;
      sync = request.sync;
      labels = resource.labels;
      username_secret = repository >>= λ r. r.username_secret;
      token_secret = repository >>= λ r. r.token_secret;
      certificate_secret = elim repository [ none ↦ "" | some r ↦ r.certificate_secret ];
      image_override = request.image;
      image_pull_secret_names = pull_secrets executor.1 spec merged;
    }

-- `getExecuteOptions`; the outer `none` is a panic.
unfoldable pub get_execute_options :
    Clients → String → String → ExecutionRequest → Option (Result OptionsError ExecuteOptions)
unfolding with_source with_content merged_request with_references
get_execute_options clients namespace id request = elim (clients.get_test id) [
  | none ↦ some (err no_test)
  | some resource ↦ with_source clients resource.spec >>= λ sourced. elim sourced [
    | err x ↦ some (err x)
    | ok spec' ↦
        let spec = with_content request spec' in
        let merged = merged_request request spec.execution_request in
        some (elim (clients.get_executor spec.type) [
          | none ↦ err no_executor
          | some executor ↦ elim (with_references clients merged) [
            | err x ↦ err x
            | ok r ↦ ok (options_of namespace id resource spec executor merged r)
          ]
        ])
  ]
]
