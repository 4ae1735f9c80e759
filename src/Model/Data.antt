-- ===== src/Model/Data.antt =====
-- The records that requests and executions carry (pkg/api/v1/testkube/model_*.go). A pointer field
-- is an `Option`, a map an association list, an int32 that is never below 0 a number.
use testkube.Base.{String, Bool, true, false, Option, none, some, List}

pub record SecretRef : Type 0 where
  pub namespace : String
  pub name : String
  pub key : String

pub record ConfigMapRef : Type 0 where
  pub namespace : String
  pub name : String
  pub key : String

pub data VariableType : Type 0 where
  basic secret : VariableType

pub record Variable : Type 0 where
  pub name : String
  pub value : String
  pub type : Option VariableType
  pub secret_ref : Option SecretRef
  pub config_map_ref : Option ConfigMapRef

abbrev pub is_secret_type : VariableType → Bool
is_secret_type basic = false
is_secret_type secret = true

-- `*v.Type_ == *VariableTypeSecret`; `none` is the nil dereference.
unfoldable pub is_secret : Variable → Option Bool
is_secret v = elim v.type [ none ↦ none | some t ↦ some (is_secret_type t) ]

unfoldable pub new_basic_variable : String → String → Variable
new_basic_variable name value = record {
  name = name;
  value = value;
  type = some basic;
  secret_ref = none;
  config_map_ref = none;
}

unfoldable pub new_config_map_variable_reference : String → String → String → Variable
new_config_map_variable_reference name config_map key = record {
  name = name;
  value = "";
  type = some basic;
  secret_ref = none;
  config_map_ref = some (record { namespace = ""; name = config_map; key = key });
}

unfoldable pub new_secret_variable_reference : String → String → String → Variable
new_secret_variable_reference name secret_name key = record {
  name = name;
  value = "";
  type = some secret;
  secret_ref = some (record { namespace = ""; name = secret_name; key = key });
  config_map_ref = none;
}

pub record ObjectRef : Type 0 where
  pub namespace : String
  pub name : String

pub record RunningContext : Type 0 where
  pub type : String
  pub context : String

pub record EnvReference : Type 0 where
  pub reference : Option String  -- the name in `LocalObjectReference`
  pub mount : Bool
  pub mount_path : String
  pub map_to_variables : Bool

pub record ArtifactRequest : Type 0 where
  pub storage_class_name : String
  pub volume_mount_path : String
  pub dirs : List String
  pub storage_bucket : String
  pub omit_folder_per_execution : Bool
