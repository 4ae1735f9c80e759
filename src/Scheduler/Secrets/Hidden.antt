-- ===== src/Scheduler/Secrets/Hidden.antt =====
-- No secret value stays in the variables of an execution, and none is lost (test_scheduler.go).
use testkube.Base.{
  String, Bool, true, false, ◌==◌, ◌≡◌, refl, sym, ap, ◌∙◌, subst, Option, none, some, [], ◌∷◌, Map,
  lookup, lookup-insert, Fresh, IsMap, is_empty, eq_iff, eq_refl, Bool-cases, Option-cases, inl,
  inr, if◌then◌else◌,
}
use testkube.Model.Data.{Variable, SecretRef, is_secret}
use testkube.Scheduler.Secrets.{
  hidden, hide, hide_variable, hide_variables, secret_name_of, create_secrets_references,
}

-- The key of each variable is its name.
abbrev pub IsNamed : Map Variable → Type 0
IsNamed [] = Unit
IsNamed ((k, v) ∷ m) = (v.name ≡ k) × IsNamed m

-- A secret variable that has its value with it.
abbrev pub IsPlain : Variable → Type 0
IsPlain v = (is_secret v ≡ some true) × (v.secret_ref ≡ none)

module _ (namespace secret_name : String) where
  hide-keeps :
      (j : String) (b : Bool) (o : Option SecretRef) (v : Variable) (secrets : Map String)
      → (v.name == j) ≡ false
      → lookup j (hide namespace secret_name b o v secrets).1 ≡ lookup j secrets
  hide-keeps j false o v secrets other = refl
  hide-keeps j true (some r) v secrets other = refl
  hide-keeps j true none v secrets other = rw (lookup-insert v.name j v.value secrets, other) refl

  -- The parts of a run of the loop that does not panic.
  pub hide_variables-cons :
      (k : String) (v : Variable) (m : Map Variable) (secrets : Map String)
      {r : Map Variable × Map String}
      → hide_variables namespace secret_name ((k, v) ∷ m) secrets ≡ some r
      → (b : Bool) × (rest : Map Variable × Map String) × (is_secret v ≡ some b)
        × (hide_variables namespace secret_name m
              (hide namespace secret_name b v.secret_ref v secrets).1
            ≡ some rest)
        × (((k, (hide namespace secret_name b v.secret_ref v secrets).0) ∷ rest.0, rest.1) ≡ r)
  unfolding hide_variables hide_variable
  hide_variables-cons k v m secrets {r} h = elim (Option-cases (is_secret v)) [
    | inl panics ↦ (let bad = rw (panics, hide_variable) at h in cc)
    | inr (b, secret) ↦
        let later = (hide namespace secret_name b v.secret_ref v secrets).1 in
        elim (Option-cases (hide_variables namespace secret_name m later)) [
          | inl panics ↦ (let bad = rw (secret, hide_variable, panics) at h in cc)
          | inr (rest, ran) ↦
              let done = rw (secret, hide_variable, ran) at h in (b, rest, secret, ran, cc)
        ]
  ]

  hide_variables-keeps :
      (j : String) (m : Map Variable) (secrets : Map String) {r : Map Variable × Map String}
      → IsNamed m
      → Fresh j m
      → hide_variables namespace secret_name m secrets ≡ some r
      → lookup j r.1 ≡ lookup j secrets
  unfolding hide_variables
  hide_variables-keeps j [] secrets {r} n f h =
      let e : ([], secrets) ≡ r = cc in sym (ap (λ p. lookup j p.1) e)
  hide_variables-keeps j ((k, v) ∷ m) secrets n f h =
      let (b, rest, secret, ran, e) = hide_variables-cons k v m secrets h in
      sym (ap (λ p. lookup j p.1) e)
      ∙ hide_variables-keeps j m _ n.1 f.1 ran
      ∙ hide-keeps j b v.secret_ref v secrets (rw n.0 f.0)

  -- The first variable of the map is the one that is looked for.
  hide-first :
      (k : String) (v w : Variable) (b : Bool) (m : Map Variable) (secrets : Map String)
      {r : Map Variable × Map String} (rest : Map Variable × Map String)
      → IsNamed m
      → Fresh k m
      → v.name ≡ k
      → w ≡ v
      → IsPlain v
      → is_secret w ≡ some b
      → hide_variables namespace secret_name m
          (hide namespace secret_name b w.secret_ref w secrets).1
        ≡ some rest
      → ((k, (hide namespace secret_name b w.secret_ref w secrets).0) ∷ rest.0, rest.1) ≡ r
      → (lookup k r.0 ≡ some (hidden namespace secret_name v)) × (lookup v.name r.1 ≡ some v.value)
  unfolding lookup
  hide-first k v w b m secrets {r} rest n f named same (secret, none_yet) is ran e =
      let yes_secret : b ≡ true = cc in
      let no_ref : w.secret_ref ≡ none = cc in
      let run = rw (yes_secret, no_ref, same) at ran in
      let whole = rw (yes_secret, no_ref, same) at e in
      (
        sym (ap (λ p. lookup k p.0) whole) ∙ rw (eq_refl k) refl,
        sym (ap (λ p. lookup v.name p.1) whole)
            ∙ hide_variables-keeps v.name m _ n (subst (λ j. Fresh j m) (sym named) f) run
            ∙ lookup-insert v.name v.name v.value secrets
            ∙ rw (eq_refl v.name) refl,
      )

  hide_variables-secret :
      (k : String) (v : Variable) (m : Map Variable) (secrets : Map String)
      {r : Map Variable × Map String}
      → IsNamed m
      → IsMap m
      → hide_variables namespace secret_name m secrets ≡ some r
      → lookup k m ≡ some v
      → IsPlain v
      → (lookup k r.0 ≡ some (hidden namespace secret_name v)) × (lookup v.name r.1 ≡ some v.value)
  unfolding lookup
  hide_variables-secret k v [] secrets n u h there plain = absurd (cc)
  hide_variables-secret k v ((j, w) ∷ m) secrets {r} n u h there plain =
      let (b, rest, secret, ran, e) = hide_variables-cons j w m secrets h in
      elim (Bool-cases (j == k)) [
        | inl same ↦
            let key : j ≡ k = (eq_iff j k).0 same in
            let found = rw same at there in
            let is : w ≡ v = cc in
            subst
              (λ i.
                (lookup i r.0 ≡ some (hidden namespace secret_name v))
                × (lookup v.name r.1 ≡ some v.value))
              key
              (hide-first j v w b m secrets rest n.1 u.0 (sym (ap (λ x. x.name) is) ∙ n.0) is plain
                secret ran e)
        | inr other ↦
            let found = rw other at there in
            let ih = hide_variables-secret k v m _ n.1 u.1 ran found plain in
            (
              sym (ap (λ p. lookup k p.0) e) ∙ rw other ih.0,
              sym (ap (λ p. lookup v.name p.1) e) ∙ ih.1,
            )
      ]

filled : (k x : String) (m : Map String) → lookup k m ≡ some x → is_empty m ≡ false
unfolding lookup
filled k x [] h = cc
filled k x (e ∷ m) h = refl

module _ {X : Type 0} (create : String → Map String → Map String → Option X)
    (id test_name namespace : String) (variables : Map Variable) {variables' : Map Variable}
    {error : Option X}
    (ran : create_secrets_references create id test_name namespace variables
      ≡ some (variables', error)) where
  pub call :
      (secrets : Map String) × (hide_variables namespace (secret_name_of id) variables []
        ≡ some (variables', secrets))
      × (error ≡ (
          if is_empty secrets
          then none
          else create
              (secret_name_of id)
              (("executionID", id) ∷ ("testName", test_name) ∷ [])
              secrets))
  unfolding create_secrets_references
  call = elim (Option-cases (hide_variables namespace (secret_name_of id) variables [])) [
    | inl panics ↦ (let bad = rw (panics, create_secrets_references) at ran in cc)
    | inr (r, e) ↦
        let done = rw (e, create_secrets_references) at ran in
        let left : r.0 ≡ variables' = cc in (r.1, rw (sym left) e, cc)
  ]

  -- A secret variable of the execution that has its value with it comes out with no value and a
  -- reference to the secret of the execution, and that secret, which the client is asked to create, has
  -- the value under the key of the reference: no secret value is stored with the execution, and none is
  -- lost. (The key of each variable is its name.)
  pub create_secrets_references-hides :
      (k : String) (v : Variable)
      → IsNamed variables
      → IsMap variables
      → lookup k variables ≡ some v
      → IsPlain v
      → (lookup k variables' ≡ some (hidden namespace (secret_name_of id) v))
        × ((secrets : Map String) × (lookup v.name secrets ≡ some v.value)
            × (error
                ≡ create
                    (secret_name_of id)
                    (("executionID", id) ∷ ("testName", test_name) ∷ [])
                    secrets))
  create_secrets_references-hides k v n u there plain =
      let (secrets, e, called) = call in
      let (gone, kept) =
        hide_variables-secret namespace (secret_name_of id) k v variables [] n u e there plain in
      (gone, (secrets, kept, called ∙ rw (filled v.name v.value secrets kept) refl))
