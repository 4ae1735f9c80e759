-- ===== src/Triggers/Diff/Causes.antt =====
-- Which changes of a deployment diffDeployments sees (diff.go).
use testkube.Base.{ℕ, Bool, ◌≡◌, refl, ap, none, some, List, [], ◌∷◌, ◌++◌, All}
use testkube.Triggers.Diff.{
  Container, Deployment, Cause, containers_modified, find_container, container_causes,
  diff_containers, diff_deployments,
}

module _ {E : Type 0} (same : E → E → Bool) where
  abbrev pub modified_for : List (Container E) → List Cause
  modified_for [] = []
  modified_for (c ∷ cs) = containers_modified ∷ modified_for cs

  diff_containers_lem :
      (old pre rest : List (Container E)) (c o : Container E)
      → All (λ p. find_container old p.name ≡ none) pre
      → find_container old c.name ≡ some o
      → diff_containers same old (pre ++ c ∷ rest) ≡ modified_for pre ++ container_causes same o c
  unfolding diff_containers
  diff_containers_lem old [] rest c o h found = rw (found, diff_containers) refl
  diff_containers_lem old (p ∷ pre) rest c o h found =
      rw (h.0, diff_containers)
        (ap (◌∷◌ containers_modified) (diff_containers_lem old pre rest c o h.1 found))

  -- The containers of the new deployment behind the first one that the old deployment has too are never
  -- looked at: the causes are the same whatever they are.
  pub diff_deployments-first :
      (old : Deployment E) (replicas : ℕ) (pre rest rest' : List (Container E)) (c o : Container E)
      → All (λ p. find_container old.containers p.name ≡ none) pre
      → find_container old.containers c.name ≡ some o
      → diff_deployments same old (record { replicas = replicas; containers = pre ++ c ∷ rest })
        ≡ diff_deployments same old (record { replicas = replicas; containers = pre ++ c ∷ rest' })
  unfolding diff_deployments
  diff_deployments-first old replicas pre rest rest' c o h found =
      rw
        (
          diff_containers_lem old.containers pre rest c o h found,
          diff_containers_lem old.containers pre rest' c o h found,
        )
        refl
