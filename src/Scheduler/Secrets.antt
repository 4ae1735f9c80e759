-- ===== src/Scheduler/Secrets.antt =====
-- createSecretsReferences in pkg/scheduler/test_scheduler.go: the values of secret variables are moved
-- into a secret of Kubernetes before an execution is stored.
pub mod Hidden
pub mod Masked
use testkube.Base.{
  String, Bool, true, false, Option, none, some, List, [], ◌∷◌, Map, insert, is_empty, concat,
  if◌then◌else◌, ◌>>=◌,
}
use testkube.Model.Data.{Variable, SecretRef, is_secret}

module _ (namespace secret_name : String) where
  -- The reference of the variable, in the namespace of the test.
  abbrev pub referenced : SecretRef → Variable → Variable
  referenced r v = record v {
    secret_ref = some (record { namespace = namespace; name = r.name; key = r.key });
  }

  abbrev pub hidden : Variable → Variable
  hidden v = record v {
    value = "";
    secret_ref = some (record { namespace = namespace; name = secret_name; key = v.name });
  }

  -- The two branches of `if v.IsSecret()` on the variable and on the secrets.
  abbrev pub hide : Bool → Option SecretRef → Variable → Map String → Variable × Map String
  hide false r v secrets = (v, secrets)
  hide true (some r) v secrets = (referenced r v, secrets)
  hide true none v secrets = (hidden v, insert v.name v.value secrets)

  -- The body of the loop: the variable that is written back, and the secrets; `none` is the panic of
  -- `IsSecret`.
  unfoldable pub hide_variable : Variable → Map String → Option (Variable × Map String)
  unfolding is_secret insert
  hide_variable v secrets = is_secret v >>= λ secret. some (hide secret v.secret_ref v secrets)

  -- The loop over the variables.
  unfoldable pub hide_variables : Map Variable → Map String → Option (Map Variable × Map String)
  unfolding hide_variable
  hide_variables [] secrets = some ([], secrets)
  hide_variables ((k, v) ∷ m) secrets = hide_variable v secrets >>= λ r.
      hide_variables m r.1 >>= λ rest. some ((k, r.0) ∷ rest.0, rest.1)

abbrev pub secret_name_of : String → String
unfolding concat
secret_name_of id = concat (id ∷ "-vars" ∷ [])

-- `createSecretsReferences` on the variables of an execution: what they become, and the error of the
-- client, which gets the name, the labels and the secrets.
unfoldable pub create_secrets_references :
    {X : Type 0}
    → (String → Map String → Map String → Option X)
    → String
    → String
    → String
    → Map Variable
    → Option (Map Variable × Option X)
unfolding hide_variables secret_name_of
create_secrets_references create id test_name namespace variables =
    hide_variables namespace (secret_name_of id) variables [] >>= λ r. some (
      r.0,
      if is_empty r.1
          then none
          else create (secret_name_of id) (("executionID", id) ∷ ("testName", test_name) ∷ []) r.1,
    )
