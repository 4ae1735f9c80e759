-- ===== src/Scheduler/Starts.antt =====
-- executeTest in pkg/scheduler/test_scheduler.go: an execution is named, given its options, stored and
-- handed to an executor.
pub mod Outcomes
pub mod Stored
use testkube.Base.{
  ℕ, String, Bool, true, false, ◌==◌, ◌&&◌, not, Option, none, some, List, [], ◌∷◌, Map, Result, ok,
  err, insert_all, concat, if◌then◌else◌, ◌>>=◌,
}
use testkube.Model.Status.{ExecutionStatus}
use testkube.Model.ExecutionResult.{ExecutionResult, empty_result, set_status}
use testkube.Model.Execution
use testkube.Model.Execution.{Execution, empty_execution}
use testkube.Model.Data.{Variable, ArtifactRequest, RunningContext}
use testkube.Scheduler.Merge.{Content, content_or_empty, fill}
use testkube.Scheduler.Requests.{ExecutionRequest, ExecuteOptions, OptionsError, Clients}
use testkube.Scheduler.Options.{get_execute_options}
use testkube.Scheduler.Secrets.{create_secrets_references}

-- An execution with the fields that `newExecutionFromExecutionOptions` sets.
pub record TestExecution : Type 0 where
  pub execution : Execution
  pub test_namespace : String
  pub test_suite_name : String
  pub content : Content
  pub variables : Map Variable
  pub test_secret_uuid : String
  pub test_suite_secret_uuid : String
  pub labels : Map String
  pub envs : Map String
  pub command : List String
  pub args : List String
  pub is_variables_file_uploaded : Bool
  pub variables_file : String
  pub artifact_request : Option ArtifactRequest
  pub pre_run_script : String
  pub post_run_script : String
  pub execute_post_run_script_before_scraping : Bool
  pub running_context : Option RunningContext
  pub test_execution_name : String

abbrev pub storage_class : Option ArtifactRequest → Option String
storage_class none = none
storage_class (some a) = some a.storage_class_name

-- `newExecutionFromExecutionOptions`; `new_id` is the id that `NewExecution` generates.
unfoldable pub new_execution_from_execution_options : String → ExecuteOptions → TestExecution
new_execution_from_execution_options new_id o = record {
  execution = record empty_execution {
    id = if o.request.id == "" then new_id else o.request.id;
    name = o.request.name;
    number = o.request.number;
    test_name = o.test_name;
    test_type = o.test_spec.type;
    execution_result = some (set_status ExecutionStatus.running empty_result);
    storage_class_name = storage_class o.request.artifact_request;
  };
  test_namespace = o.namespace;
  test_suite_name = o.request.test_suite_name;
  content = content_or_empty o.test_spec.content;
  variables = o.request.variables;
  test_secret_uuid = o.request.test_secret_uuid;
  test_suite_secret_uuid = o.request.test_suite_secret_uuid;
  labels = insert_all o.request.execution_labels (insert_all o.labels []);
  envs = o.request.envs;
  command = o.request.command;
  args = o.request.args;
  is_variables_file_uploaded = o.request.is_variables_file_uploaded;
  variables_file = o.request.variables_file;
  artifact_request = o.request.artifact_request;
  pre_run_script = o.request.pre_run_script;
  post_run_script = o.request.post_run_script;
  execute_post_run_script_before_scraping = o.request.execute_post_run_script_before_scraping;
  running_context = o.request.running_context;
  test_execution_name = o.request.test_execution_name;
}

-- The fields of a test that `executeTest` reads; the name is that in its execution request.
pub record Test : Type 0 where
  pub name : String
  pub namespace : String
  pub execution_name : Option String

-- The calls that `executeTest` makes and that others can see, in their order.
pub data Effect : Type 0 where
  inserted : TestExecution → Effect
  start_notified : TestExecution → Effect
  started : String → ℕ → Effect
  executed : TestExecution → ExecuteOptions → Effect
  updated : TestExecution → Effect
  failure_notified : TestExecution → Effect

-- What the repositories, the clients and the executor return; `X` is the type of errors.
pub record Calls (X : Type 0) : Type 0 where
  pub clients : Clients
  pub show : ℕ → String
  pub error_text : X → String
  pub options_error_text : OptionsError → String
  pub new_id : String
  pub now : ℕ
  pub next_number : String → ℕ
  pub by_name_and_test : String → String → Execution
  pub secret_uuid : String → Result X String
  pub create_secret : String → Map String → Map String → Option X
  pub insert : TestExecution → Option X
  pub start : String → ℕ → Option X
  pub execute : TestExecution → ExecuteOptions → Option ExecutionResult × Option X
  pub update_result : TestExecution → Option X

-- The name in the request, or else that in the execution request of the test, or else that of the test.
abbrev pub own_name : String → Option String → String
own_name name none = name
own_name name (some n) = fill n name

abbrev pub base_name : ExecutionRequest → Test → String
base_name request test =
    let own = own_name request.name test.execution_name in if own == "" then test.name else own

abbrev pub with_result : Option ExecutionResult → TestExecution → TestExecution
with_result r e = record e { execution = record e.execution { execution_result = r } }

module _ {X : Type 0} (calls : Calls X) where
  -- `execution.Errw(execution.Id, …)`
  abbrev pub fail : String → X → TestExecution → Execution
  fail message x e =
      Execution.errw e.execution.id (concat (message ∷ calls.error_text x ∷ [])) e.execution

  -- `execution.Start()`
  abbrev pub mark_started : TestExecution → TestExecution
  mark_started e = record e {
    execution = record e.execution {
      start_time = calls.now;
      execution_result = elim e.execution.execution_result [
        | none ↦ none
        | some r ↦ some (set_status ExecutionStatus.running r)
      ];
    };
  }

  -- After the executor has returned; `none` is the nil result whose status the log reads.
  unfoldable pub finish :
      TestExecution
      → ExecuteOptions
      → Option ExecutionResult × Option X
      → Option (Execution × List Effect)
  finish e o (result, error) =
      let done = with_result result e in
      elim (calls.update_result done) [
        | some x ↦ some (
          fail "update execution error: " x done,
          executed e o ∷ updated done ∷ failure_notified done ∷ [],
        )
        | none ↦ elim error [
          | some x ↦ some (
            fail "test execution failed: " x done,
            executed e o ∷ updated done ∷ failure_notified done ∷ [],
          )
          | none ↦ elim result [
            | none ↦ none
            | some r ↦ some (done.execution, executed e o ∷ updated done ∷ [])
          ]
        ]
      ]

  -- From `execution.Start()` on; the list begins with the insertion.
  unfoldable pub start_stored :
      TestExecution → TestExecution → ExecuteOptions → Option (Execution × List Effect)
  unfolding finish
  start_stored stored e o = elim (calls.start e.execution.id e.execution.start_time) [
    | some x ↦ some (
      fail "can't execute test, can't insert into storage error: " x e,
      inserted stored
          ∷ start_notified e
          ∷ started e.execution.id e.execution.start_time
          ∷ failure_notified e
          ∷ [],
    )
    | none ↦ finish e o (calls.execute e o) >>= λ r. some (
      r.0,
      inserted stored ∷ start_notified e ∷ started e.execution.id e.execution.start_time ∷ r.1,
    )
  ]

  -- From `newExecutionFromExecutionOptions` on. The options share the map of variables with the
  -- execution, so that they have the hidden ones as well.
  unfoldable pub store : ExecuteOptions → Option (Execution × List Effect)
  unfolding create_secrets_references new_execution_from_execution_options start_stored
  store o =
      let fresh = new_execution_from_execution_options calls.new_id o in
      create_secrets_references calls.create_secret fresh.execution.id fresh.execution.test_name
        fresh.test_namespace fresh.variables
      >>= λ r.
          let e = record fresh { variables = r.0 } in
          elim r.1 [
            | some x ↦ some (fail "can't create secret variables `Secret` references: " x e, [])
            | none ↦ elim (calls.insert e) [
              | some x ↦ some (
                fail "can't create new test execution, can't insert into storage: " x e,
                inserted e ∷ [],
              )
              | none ↦
                  start_stored e (mark_started e)
                    (record o { request = record o.request { variables = r.0 } })
            ]
          ]

  abbrev pub numbered : Test → ExecutionRequest → ExecutionRequest
  unfolding concat
  numbered test request =
      let number = calls.next_number test.name in
      record request {
        number = number;
        name = concat (base_name request test ∷ "-" ∷ calls.show number ∷ []);
      }

  -- `executeTest`: the execution that is returned, always with a nil error, and the calls that were
  -- made; `none` is a panic.
  unfoldable pub execute_test : Test → ExecutionRequest → Option (Execution × List Effect)
  unfolding get_execute_options store numbered
  execute_test test request =
      let named = numbered test request in
      let old = calls.by_name_and_test named.name test.name in
      if old.name == named.name
      then some (
        Execution.err (concat ("test execution with name " ∷ named.name ∷ " already exists" ∷ []))
            old,
        [],
      )
      else elim (calls.secret_uuid test.name) [
        | err x ↦ some (
          Execution.errw named.id
              (concat ("can't get current secret uuid: " ∷ calls.error_text x ∷ [])) old,
          [],
        )
        | ok uuid ↦
            get_execute_options calls.clients test.namespace test.name
              (record named { test_secret_uuid = uuid })
            >>= λ r. elim r [
              | err x ↦ some (
                Execution.errw named.id
                    (concat
                      ("can't create valid execution options: " ∷ calls.options_error_text x ∷ []))
                    old,
                [],
              )
              | ok o ↦ store o
            ]
      ]
