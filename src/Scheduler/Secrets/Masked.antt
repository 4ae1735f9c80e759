-- ===== src/Scheduler/Secrets/Masked.antt =====
-- The variables of an execution show no secret value (test_scheduler.go).
use testkube.Base.{
  String, Bool, true, false, ◌≡◌, refl, subst, Option, none, some, [], ◌∷◌, Map, inl, inr, on_some,
  ◌≢◌, ◌⊎◌, Memᴰ,
}
use testkube.Model.Data.{Variable, SecretRef, is_secret}
use testkube.Scheduler.Secrets.{hide, hide_variables, secret_name_of, create_secrets_references}
use testkube.Scheduler.Secrets.Hidden.{hide_variables-cons, call}

-- A variable under the key `k`, if it is secret, has a reference to a secret. It has no value, unless
-- one of the variables before, under that key and with a reference already, had that value.
abbrev pub IsMasked : Map Variable → String → Variable → Type 0
IsMasked before k v =
    is_secret v ≡ some true
    → (v.secret_ref ≢ none)
      × ((v.value ≡ "")
          ⊎ ((w : Variable) × Memᴰ (k, w) before × (w.secret_ref ≢ none) × (w.value ≡ v.value)))

abbrev pub Masked : Map Variable → Map Variable → Type 0
Masked before [] = Unit
Masked before ((k, v) ∷ m) = IsMasked before k v × Masked before m

hide-IsMasked :
    (namespace secret_name : String) (before : Map Variable) (k : String) (b : Bool)
    (o : Option SecretRef) (v : Variable) (secrets : Map String)
    → Memᴰ (k, v) before
    → is_secret v ≡ some b
    → v.secret_ref ≡ o
    → IsMasked before k (hide namespace secret_name b o v secrets).0
hide-IsMasked ns sn before k false o v secrets listed e r secret = cc
hide-IsMasked ns sn before k true (some q) v secrets listed e r secret =
    (λ lost. cc, inr (v, listed, (λ lost. cc), refl))
hide-IsMasked ns sn before k true none v secrets listed e r secret = (λ lost. cc, inl refl)

hide_variables-Masked :
    (namespace secret_name : String) (before m : Map Variable) (secrets : Map String)
    {r : Map Variable × Map String}
    → ((k : String) (v : Variable) → Memᴰ (k, v) m → Memᴰ (k, v) before)
    → hide_variables namespace secret_name m secrets ≡ some r
    → Masked before r.0
unfolding hide_variables
hide_variables-Masked ns sn before [] secrets within h = on_some (λ r. Masked before r.0) h tt
hide_variables-Masked ns sn before ((k, v) ∷ m) secrets within h =
    let (b, rest, secret, ran, e) = hide_variables-cons ns sn k v m secrets h in
    subst (λ r. Masked before r.0) e
      (
        hide-IsMasked ns sn before k b v.secret_ref v secrets (within k v (Memᴰ.head refl)) secret
            refl,
        hide_variables-Masked ns sn before m _ (λ j w listed. within j w (Memᴰ.tail listed)) ran,
      )

module _ {X : Type 0} (create : String → Map String → Map String → Option X)
    (id test_name namespace : String) (variables : Map Variable) {variables' : Map Variable}
    {error : Option X}
    (ran : create_secrets_references create id test_name namespace variables
      ≡ some (variables', error)) where
  pub create_secrets_references-Masked : Masked variables variables'
  create_secrets_references-Masked =
      hide_variables-Masked namespace (secret_name_of id) variables variables []
        (λ k v listed. listed) (call create id test_name namespace variables ran).1
