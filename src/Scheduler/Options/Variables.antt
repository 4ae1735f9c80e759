-- ===== src/Scheduler/Options/Variables.antt =====
-- Which value of a variable an execution gets (getExecuteOptions in pkg/scheduler/test_scheduler.go).
use testkube.Base.{
  String, ◌≡◌, refl, sym, ap, subst, ◌∙◌, Option, none, some, List, [], ◌∷◌, Map, Result, ok,
  lookup, or_else, insert, IsMap, insert-IsMap, Bool-cases, Option-cases, Result-cases, value_or,
  inl, inr, arith,
}
use testkube.Model.Data.{Variable, EnvReference}
use testkube.Scheduler.Merge.Precedence.{
  lookup-merge_variables, merge_variables-IsMap, lookup-merge_envs, or_else-none,
}
use testkube.Scheduler.Requests.{
  ExecutionRequest, TestSpec, Clients, ExecuteOptions, OptionsError, TestResource,
}
use testkube.Scheduler.Options.{
  with_source, with_content, with_defaults, merged_request, put_keys, reference_variables, under,
  config_map_variable, secret_variable, with_references, get_execute_options,
}

put_keys-IsMap :
    (make : String → Variable) (keys : List String) (vars : Map Variable)
    → IsMap vars
    → IsMap (put_keys make keys vars)
unfolding put_keys
put_keys-IsMap make [] vars h = h
put_keys-IsMap make (k ∷ keys) vars h =
    put_keys-IsMap make keys (insert k (make k) vars) (insert-IsMap k (make k) vars h)

reference_variables-IsMap :
    (get : String → Option (List String)) (make : String → String → Variable)
    (es : List EnvReference) (vars : Map Variable) {res : Map Variable}
    → IsMap vars
    → reference_variables get make es vars ≡ some res
    → IsMap res
unfolding reference_variables
reference_variables-IsMap get make [] vars {res} h e =
    let same : vars ≡ res = cc in subst IsMap same h
reference_variables-IsMap get make (x ∷ es) vars h e = elim (Option-cases x.reference) [
  | inl unnamed ↦ reference_variables-IsMap get make es vars h (rw unnamed at e)
  | inr (name, named) ↦ elim (Bool-cases x.map_to_variables) [
    | inr unmapped ↦ reference_variables-IsMap get make es vars h (rw (named, unmapped) at e)
    | inl mapped ↦ elim (Option-cases (get name)) [
      | inl failed ↦ (let bad = rw (named, mapped, failed) at e in cc)
      | inr (keys, got) ↦
          reference_variables-IsMap get make es _ (put_keys-IsMap (make name) keys vars h)
            (rw (named, mapped, got) at e)
    ]
  ]
]

lookup-under :
    (k : String) (vars variables : Map Variable)
    → IsMap vars
    → IsMap variables
    → lookup k (under vars variables) ≡ or_else (lookup k variables) (lookup k vars)
unfolding under
lookup-under k [] variables hv h = unfold lookup in sym (or_else-none (lookup k variables))
lookup-under k (v ∷ vars) variables hv h = lookup-merge_variables k (v ∷ vars) variables hv h

under-IsMap : (vars variables : Map Variable) → IsMap variables → IsMap (under vars variables)
unfolding under
under-IsMap [] variables h = h
under-IsMap (v ∷ vars) variables h = merge_variables-IsMap (v ∷ vars) variables

or_else_assoc {ℓ} :
    {A : Type ℓ} (x y z : Option A) → or_else (or_else x y) z ≡ or_else x (or_else y z)
or_else_assoc none y z = refl
or_else_assoc (some a) y z = refl

-- What `with_references` changes.
with_references-changes :
    (clients : Clients) (r r' : ExecutionRequest)
    → with_references clients r ≡ ok r'
    → (maps : Map Variable) × (secrets : Map Variable) × (reference_variables clients.get_config_map
          config_map_variable r.env_config_maps []
        ≡ some maps)
      × (reference_variables clients.get_secret secret_variable r.env_secrets [] ≡ some secrets)
      × (r' ≡ record r { variables = under secrets (under maps r.variables) })
unfolding with_references
with_references-changes clients r r' e =
    elim (Option-cases
      (reference_variables clients.get_config_map config_map_variable r.env_config_maps [])) [
        | inl failed ↦ (let bad = rw (failed, with_references) at e in cc)
        | inr (maps, m) ↦
            elim (Option-cases
              (reference_variables clients.get_secret secret_variable r.env_secrets [])) [
                | inl failed ↦ (let bad = rw (m, failed, with_references) at e in cc)
                | inr (secrets, s) ↦
                    let whole = rw (m, s, with_references) at e in
                    (maps, secrets, m, s, sym (ap (value_or r) whole))
              ]
      ]

abbrev pub test_variables : Option ExecutionRequest → Map Variable
test_variables none = []
test_variables (some test) = test.variables

abbrev pub test_envs : Option ExecutionRequest → Map String
test_envs none = []
test_envs (some test) = test.envs

merged-variables :
    (k : String) (request : ExecutionRequest) (test : Option ExecutionRequest)
    → IsMap request.variables
    → IsMap (test_variables test)
    → lookup k (merged_request request test).variables
      ≡ or_else (lookup k request.variables) (lookup k (test_variables test))
unfolding merged_request with_defaults
merged-variables k request none h t =
    unfold lookup in sym (or_else-none (lookup k request.variables))
merged-variables k request (some test) h t =
    lookup-merge_variables k test.variables request.variables t h

merged-envs :
    (k : String) (request : ExecutionRequest) (test : Option ExecutionRequest)
    → IsMap request.envs
    → IsMap (test_envs test)
    → lookup k (merged_request request test).envs
      ≡ or_else (lookup k (test_envs test)) (lookup k request.envs)
unfolding merged_request with_defaults lookup
merged-envs k request none h t = refl
merged-envs k request (some test) h t = lookup-merge_envs k request.envs test.envs h t

merged-IsMap :
    (request : ExecutionRequest) (test : Option ExecutionRequest)
    → IsMap request.variables
    → IsMap (merged_request request test).variables
unfolding merged_request with_defaults
merged-IsMap request none h = h
merged-IsMap request (some test) h = merge_variables-IsMap test.variables request.variables

-- The value of a key is that of the request, else of the test, else of a config map, else of a secret.
abbrev pub Layered :
    Map Variable → Map Variable → Map Variable → Map Variable → Map Variable → Type 0
Layered request test maps secrets variables =
    (k : String)
    → lookup k variables
      ≡ or_else (lookup k request)
          (or_else (lookup k test) (or_else (lookup k maps) (lookup k secrets)))

abbrev options_or : ExecuteOptions → Option (Result OptionsError ExecuteOptions) → ExecuteOptions
options_or o none = o
options_or o (some r) = value_or o r

-- The request that the references are looked up for.
abbrev pub merged : ExecutionRequest → TestSpec → ExecutionRequest
merged request sourced = merged_request request (with_content request sourced).execution_request

module _ (clients : Clients) (namespace id : String) (request : ExecutionRequest)
    (resource : TestResource) (sourced : TestSpec) (o : ExecuteOptions)
    (fetched : clients.get_test id ≡ some resource)
    (with_its_source : with_source clients resource.spec ≡ some (ok sourced))
    (returned : get_execute_options clients namespace id request ≡ some (ok o)) where
  content-keeps : (with_content request sourced).execution_request ≡ sourced.execution_request
  unfolding with_content
  content-keeps = ground arith

  from_references :
      (r : ExecutionRequest) × (with_references clients (merged request sourced) ≡ ok r)
      × (o.request.variables ≡ r.variables)
      × (o.request.envs ≡ r.envs)
  unfolding get_execute_options
  from_references =
      let got = rw (fetched, with_its_source, get_execute_options) at returned in
      elim (Option-cases (clients.get_executor (with_content request sourced).type)) [
        | inl none_found ↦ (let bad = rw none_found at got in cc)
        | inr (executor, e) ↦
            elim (Result-cases (with_references clients (merged request sourced))) [
              | inl (x, failed) ↦ (let bad = rw (e, failed) at got in cc)
              | inr (r, ok_r) ↦
                  let done = rw (e, ok_r) at got in
                  (
                    r,
                    ok_r,
                    sym (ap (λ x. (options_or o x).request.variables) done),
                    sym (ap (λ x. (options_or o x).request.envs) done),
                  )
            ]
      ]

  -- When `getExecuteOptions` succeeds, the value of each variable is that of the request, else that of
  -- the test, else that of a config map that the request or the test maps to variables, else that of a
  -- secret.
  pub get_execute_options-variables :
      IsMap request.variables
      → IsMap (test_variables sourced.execution_request)
      → (maps : Map Variable) × (secrets : Map Variable) × (reference_variables
            clients.get_config_map config_map_variable
            (merged request sourced).env_config_maps
            []
          ≡ some maps)
        × (reference_variables clients.get_secret secret_variable
              (merged request sourced).env_secrets
              []
            ≡ some secrets)
        × Layered request.variables
            (test_variables sourced.execution_request)
            maps
            secrets
            o.request.variables
  get_execute_options-variables hr ht =
      let (r, ok_r, same, _) = from_references in
      let (maps, secrets, m, s, change) =
        with_references-changes clients (merged request sourced) r ok_r in
      let test = (with_content request sourced).execution_request in
      let own = merged-IsMap request test hr in
      let hm = reference_variables-IsMap _ _ (merged request sourced).env_config_maps [] tt m in
      let hs = reference_variables-IsMap _ _ (merged request sourced).env_secrets [] tt s in
      (
        maps,
        secrets,
        m,
        s,
        λ k.
            ap (lookup k) (same ∙ ap (λ q. q.variables) change)
            ∙ lookup-under k secrets (under maps (merged request sourced).variables) hs
                (under-IsMap maps (merged request sourced).variables own)
            ∙ ap (λ v. or_else v (lookup k secrets))
                (lookup-under k maps (merged request sourced).variables hm own)
            ∙ or_else_assoc (lookup k (merged request sourced).variables) (lookup k maps)
                (lookup k secrets)
            ∙ ap (λ v. or_else v (or_else (lookup k maps) (lookup k secrets)))
                (rw content-keeps (merged-variables k request sourced.execution_request hr ht))
            ∙ or_else_assoc (lookup k request.variables)
                (lookup k (test_variables sourced.execution_request))
                (or_else (lookup k maps) (lookup k secrets)),
      )

  -- For the environment it is the other way round: a value of the test hides that of the request.
  pub get_execute_options-envs :
      IsMap request.envs
      → IsMap (test_envs sourced.execution_request)
      → (k : String)
      → lookup k o.request.envs
        ≡ or_else (lookup k (test_envs sourced.execution_request)) (lookup k request.envs)
  get_execute_options-envs hr ht k =
      let (r, ok_r, _, same) = from_references in
      let (maps, secrets, m, s, change) =
        with_references-changes clients (merged request sourced) r ok_r in
      ap (lookup k) (same ∙ ap (λ q. q.envs) change)
      ∙ rw content-keeps (merged-envs k request sourced.execution_request hr ht)
