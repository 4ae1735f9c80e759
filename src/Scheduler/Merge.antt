-- ===== src/Scheduler/Merge.antt =====
-- The merging of a request with the definition of a test (mergeVariables to mergeEnvReferences in
-- pkg/scheduler/test_scheduler.go).
pub mod Precedence
use testkube.Base.{
  String, Bool, true, false, ◌==◌, ◌&&◌, ◌||◌, not, Option, none, some, List, [], ◌∷◌, ◌++◌, Map,
  lookup, insert, insert_all, if◌then◌else◌,
}
use testkube.Model.Data.{Variable, SecretRef, EnvReference, ArtifactRequest}

-- `for k, v := range vars1 { … }; for k, v := range vars2 { … }` into an empty map.
unfoldable pub merge_variables : Map Variable → Map Variable → Map Variable
merge_variables vars1 vars2 = insert_all vars2 (insert_all vars1 [])

unfoldable pub merge_envs : Map String → Map String → Map String
merge_envs envs1 envs2 = insert_all envs2 (insert_all envs1 [])

-- `if *field.destination == "" && field.source != "" { *field.destination = field.source }`
abbrev pub fill : String → String → String
fill source destination = if (destination == "") && not (source == "") then source else destination

-- `content.Repository`, of the custom resource as well as of the API.
pub record Repository : Type 0 where
  pub type : String
  pub uri : String
  pub branch : String
  pub commit : String
  pub path : String
  pub username_secret : Option SecretRef
  pub token_secret : Option SecretRef
  pub certificate_secret : String
  pub working_dir : String
  pub auth_type : String

pub record Content : Type 0 where
  pub type : String
  pub repository : Option Repository
  pub text : String
  pub uri : String

abbrev pub empty_content : Content
empty_content = record { type = ""; repository = none; text = ""; uri = "" }

abbrev pub empty_repository : Repository
empty_repository = record {
  type = "";
  uri = "";
  branch = "";
  commit = "";
  path = "";
  username_secret = none;
  token_secret = none;
  certificate_secret = "";
  working_dir = "";
  auth_type = "";
}

-- The content or the repository, or a new one if it is nil.
abbrev pub content_or_empty : Option Content → Content
content_or_empty none = empty_content
content_or_empty (some c) = c

abbrev pub repository_or_empty : Option Repository → Repository
repository_or_empty none = empty_repository
repository_or_empty (some r) = r

-- The specification of a test source.
pub record TestSource : Type 0 where
  pub type : String
  pub repository : Option Repository
  pub text : String
  pub uri : String

-- A secret of the source is taken, its name and key, where there is none.
abbrev pub fill_secret : Option SecretRef → Option SecretRef → Option SecretRef
fill_secret source (some s) = some s
fill_secret none none = none
fill_secret (some s) none = some (record { namespace = ""; name = s.name; key = s.key })

-- `if *field.destination == "" { *field.destination = field.source }`
abbrev pub or_source : String → String → String
or_source source destination = if destination == "" then source else destination

unfoldable pub merge_repository : Repository → Repository → Repository
merge_repository source r = record {
  type = or_source source.type r.type;
  uri = or_source source.uri r.uri;
  branch = or_source source.branch r.branch;
  commit = or_source source.commit r.commit;
  path = or_source source.path r.path;
  username_secret = fill_secret source.username_secret r.username_secret;
  token_secret = fill_secret source.token_secret r.token_secret;
  certificate_secret = or_source source.certificate_secret r.certificate_secret;
  working_dir = or_source source.working_dir r.working_dir;
  auth_type = or_source source.auth_type r.auth_type;
}

-- `mergeContents`, on the content of the test.
unfoldable pub merge_contents : Option Content → TestSource → Content
unfolding merge_repository
merge_contents content source =
    let c = content_or_empty content in
    record {
      type = or_source source.type c.type;
      repository = elim source.repository [
        | none ↦ c.repository
        | some s ↦ some (merge_repository s (repository_or_empty c.repository))
      ];
      text = or_source source.text c.text;
      uri = or_source source.uri c.uri;
    }

-- `content.Repository` of a content request.
pub record RepositoryParameters : Type 0 where
  pub branch : String
  pub commit : String
  pub path : String
  pub working_dir : String

-- `if field.source != "" { *field.destination = field.source }`
abbrev pub override : String → String → String
override source destination = if not (source == "") then source else destination

abbrev pub is_git : String → Bool
is_git type = (type == "git-file") || (type == "git-dir") || (type == "git")

-- `adjustContent`, on the content of the test; the second argument is `content.Repository`.
unfoldable pub adjust_content : Option Content → Option RepositoryParameters → Option Content
adjust_content none request = none
adjust_content (some c) none = some c
adjust_content (some c) (some p) =
    if is_git c.type
    then elim c.repository [
      | none ↦ some c
      | some r ↦ some (record c {
        repository = some (record r {
          branch = override p.branch r.branch;
          commit = override p.commit r.commit;
          path = override p.path r.path;
          working_dir = override p.working_dir r.working_dir;
        });
      })
    ]
    else some c

-- `mergeArtifacts`: what it returns. Where both are there it is the first, which is written into.
unfoldable pub merge_artifacts :
    Option ArtifactRequest → Option ArtifactRequest → Option ArtifactRequest
merge_artifacts none adjust = adjust
merge_artifacts (some base) none = some base
merge_artifacts (some base) (some adjust) = some (record {
  storage_class_name = fill adjust.storage_class_name base.storage_class_name;
  volume_mount_path = fill adjust.volume_mount_path base.volume_mount_path;
  dirs = base.dirs ++ adjust.dirs;
  storage_bucket = fill adjust.storage_bucket base.storage_bucket;
  omit_folder_per_execution =
      if not base.omit_folder_per_execution && adjust.omit_folder_per_execution
      then adjust.omit_folder_per_execution
      else base.omit_folder_per_execution;
})

-- The first loop of `mergeEnvReferences`.
unfoldable pub put_references : List EnvReference → Map EnvReference → Map EnvReference
put_references [] envs = envs
put_references (e ∷ es) envs =
    put_references es (elim e.reference [ none ↦ envs | some name ↦ insert name e envs ])

-- What the second loop does with a reference whose name stands in the map already.
abbrev pub fill_reference : EnvReference → EnvReference → EnvReference
fill_reference e value = record value {
  mount = if not value.mount then e.mount else value.mount;
  mount_path = if value.mount_path == "" then e.mount_path else value.mount_path;
  map_to_variables =
      if not value.map_to_variables then e.map_to_variables else value.map_to_variables;
}

abbrev pub put_or_fill : EnvReference → Option EnvReference → EnvReference
put_or_fill e none = e
put_or_fill e (some value) = fill_reference e value

-- The second loop.
unfoldable pub fill_references : List EnvReference → Map EnvReference → Map EnvReference
fill_references [] envs = envs
fill_references (e ∷ es) envs = fill_references es (elim e.reference [
  | none ↦ envs
  | some name ↦ insert name (put_or_fill e (lookup name envs)) envs
])

abbrev pub values : {V : Type 0} → Map V → List V
values [] = []
values ((k, v) ∷ m) = v ∷ values m

-- `mergeEnvReferences`; the map is read in its order.
unfoldable pub merge_env_references : List EnvReference → List EnvReference → List EnvReference
unfolding put_references fill_references
merge_env_references envs1 envs2 = values (fill_references envs2 (put_references envs1 []))
