-- ===== src/Scheduler/Requests.antt =====
-- The data of pkg/scheduler/test_scheduler.go: requests, the custom resources of tests and executors, and
-- the options of an execution.
use testkube.Base.{ℕ, String, Bool, Option, List, Map}
use testkube.Model.Data.{Variable, SecretRef, EnvReference, ArtifactRequest, RunningContext}
use testkube.Scheduler.Merge.{Content, TestSource, RepositoryParameters}

-- `ExecutionRequest`, without the uploads and the templates of cron jobs. The mapper copies that of the
-- custom resource into this form; image pull secrets are their names.
pub record ExecutionRequest : Type 0 where
  pub id : String
  pub name : String
  pub test_suite_name : String
  pub number : ℕ
  pub execution_labels : Map String
  pub is_variables_file_uploaded : Bool
  pub variables_file : String
  pub variables : Map Variable
  pub test_secret_uuid : String
  pub test_suite_secret_uuid : String
  pub command : List String
  pub args : List String
  pub args_mode : String
  pub image : String
  pub image_pull_secrets : List String
  pub envs : Map String
  pub secret_envs : Map String
  pub sync : Bool
  pub http_proxy : String
  pub https_proxy : String
  pub negative_test : Bool
  pub is_negative_test_changed_on_run : Bool
  pub active_deadline_seconds : ℕ
  pub artifact_request : Option ArtifactRequest
  pub job_template : String
  pub job_template_reference : String
  pub content_request : Option (Option RepositoryParameters)
  pub pre_run_script : String
  pub post_run_script : String
  pub execute_post_run_script_before_scraping : Bool
  pub scraper_template : String
  pub scraper_template_reference : String
  pub pvc_template : String
  pub pvc_template_reference : String
  pub env_config_maps : List EnvReference
  pub env_secrets : List EnvReference
  pub running_context : Option RunningContext
  pub test_execution_name : String

-- The custom resource of a test.
pub record TestSpec : Type 0 where
  pub type : String
  pub source : String
  pub content : Option Content
  pub execution_request : Option ExecutionRequest

pub record TestResource : Type 0 where
  pub name : String
  pub namespace : String
  pub labels : Map String
  pub spec : TestSpec

pub record ExecutorSpec : Type 0 where
  pub executor_type : String
  pub image_pull_secrets : List String
  pub command : List String
  pub args : List String

pub record ExecuteOptions : Type 0 where
  pub test_name : String
  pub namespace : String
  pub test_spec : TestSpec
  pub executor_name : String
  pub executor_spec : ExecutorSpec
  pub request : ExecutionRequest
  pub sync : Bool
  pub labels : Map String
  pub username_secret : Option SecretRef
  pub token_secret : Option SecretRef
  pub certificate_secret : String
  pub image_override : String
  pub image_pull_secret_names : List String

-- The calls whose error `getExecuteOptions` returns.
pub data OptionsError : Type 0 where
  no_test no_test_source no_executor no_config_map no_secret : OptionsError

-- The clients of Kubernetes; `none` is an error. A config map or a secret is the list of its keys.
pub record Clients : Type 0 where
  pub get_test : String → Option TestResource
  pub get_test_source : String → Option TestSource
  pub get_executor : String → Option (String × ExecutorSpec)
  pub get_config_map : String → Option (List String)
  pub get_secret : String → Option (List String)
