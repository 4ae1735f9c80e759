-- ===== src/Triggers/Diff.antt =====
-- pkg/triggers/diff.go and util.go: what changed between two versions of a deployment.
pub mod Causes
use testkube.Base.{
  ℕ, String, Bool, not, ◌==◌, Option, none, some, List, [], ◌∷◌, ◌++◌, nat_eq, if◌then◌else◌,
}

-- `E` is the type of a container's environment.
pub record Container (E : Type 0) : Type 0 where
  pub name : String
  pub image : String
  pub env : E

-- `replicas` is `*Spec.Replicas`: the API server sets it, and the nil dereference is not in the model.
pub record Deployment (E : Type 0) : Type 0 where
  pub replicas : ℕ
  pub containers : List (Container E)

pub data Cause : Type 0 where
  scale_update containers_modified image_update env_update : Cause

unfoldable pub find_container : {E : Type 0} → List (Container E) → String → Option (Container E)
find_container [] target = none
find_container (c ∷ cs) target =
    let rest = find_container cs target in if c.name == target then some c else rest

-- `same` is `cmp.Equal` on the environments.
module _ {E : Type 0} (same : E → E → Bool) where
  -- The part of the loop's body after the container is found.
  unfoldable pub container_causes : Container E → Container E → List Cause
  container_causes old new =
      (if not (old.image == new.image) then image_update ∷ [] else [])
      ++ (if not (same old.env new.env) then env_update ∷ [] else [])

  -- The loop over the new containers: it ends at the first one that is found.
  unfoldable pub diff_containers : List (Container E) → List (Container E) → List Cause
  unfolding find_container container_causes
  diff_containers old [] = []
  diff_containers old (c ∷ cs) = elim (find_container old c.name) [
    | none ↦ containers_modified ∷ diff_containers old cs
    | some o ↦ container_causes o c
  ]

  unfoldable pub diff_deployments : Deployment E → Deployment E → List Cause
  unfolding diff_containers
  diff_deployments old new =
      (if not (nat_eq old.replicas new.replicas) then scale_update ∷ [] else [])
      ++ diff_containers old.containers new.containers
