-- ===== src/Scheduler/Merge/Precedence.antt =====
-- Whose value wins in the merges of pkg/scheduler/test_scheduler.go.
use testkube.Base.{
  String, ◌≡◌, refl, ap, ◌∙◌, Option, none, some, [], Map, lookup, or_else, insert_all, IsMap,
  lookup-insert_all, insert_all-IsMap,
}
use testkube.Model.Data.{Variable}
use testkube.Scheduler.Merge.{merge_variables, merge_envs}

pub or_else-none {ℓ} : {A : Type ℓ} (o : Option A) → or_else o none ≡ o
or_else-none none = refl
or_else-none (some a) = refl

merged {ℓ} :
    {V : Type ℓ} (k : String) (m n : Map V)
    → IsMap m
    → IsMap n
    → lookup k (insert_all n (insert_all m [])) ≡ or_else (lookup k n) (lookup k m)
unfolding lookup
merged k m n hm hn =
    lookup-insert_all k n (insert_all m []) hn
    ∙ ap (or_else (lookup k n)) (lookup-insert_all k m [] hm ∙ or_else-none (lookup k m))

pub lookup-merge_variables :
    (k : String) (m n : Map Variable)
    → IsMap m
    → IsMap n
    → lookup k (merge_variables m n) ≡ or_else (lookup k n) (lookup k m)
unfolding merge_variables
lookup-merge_variables k m n hm hn = merged k m n hm hn

pub merge_variables-IsMap : (m n : Map Variable) → IsMap (merge_variables m n)
unfolding merge_variables
merge_variables-IsMap m n = insert_all-IsMap n _ (insert_all-IsMap m [] tt)

pub lookup-merge_envs :
    (k : String) (m n : Map String)
    → IsMap m
    → IsMap n
    → lookup k (merge_envs m n) ≡ or_else (lookup k n) (lookup k m)
unfolding merge_envs
lookup-merge_envs k m n hm hn = merged k m n hm hn
