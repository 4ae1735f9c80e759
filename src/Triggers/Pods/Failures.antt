-- ===== src/Triggers/Pods/Failures.antt =====
-- The failed pods of a list (pkg/triggers/watcher.go and pkg/executor/common.go).
use testkube.Base.{
  ◌||◌, not, zero, suc, pos, negsuc, is_zero, Bool, true, false, ◌≡◌, refl, inl, inr, ◌⊎◌, Option,
  none, some, List, [], ◌∷◌, ℤ, Bool-cases, any, arith, if◌then◌else◌,
}
use testkube.Triggers.Pods.{
  Terminated, Phase, Pod, is_pod_failed, exit_code_of, get_pod_exit_code, pod_failed, other_phase,
}

-- The container ended with another exit code than 0.
abbrev nonzero : ℤ → Bool
nonzero (pos zero) = false
nonzero _ = true

abbrev ended_badly : Option Terminated → Bool
ended_badly none = false
ended_badly (some t) = nonzero t.exit_code

abbrev pub has_failed : Pod → Bool
has_failed p = elim p.phase [
  | pod_failed ↦ true
  | other_phase ↦ any ended_badly p.init_containers || any ended_badly p.containers
]

abbrev pub first_failed : List Pod → Option Pod
first_failed [] = none
first_failed (p ∷ ps) = if has_failed p then some p else first_failed ps

nonzero_lem : (code : ℤ) → is_zero code ≡ not (nonzero code)
nonzero_lem (pos zero) = refl
nonzero_lem (pos (suc n)) = ground arith
nonzero_lem (negsuc n) = refl

exit_code_of_lem :
    (cs : List (Option Terminated))
    → ((exit_code_of cs ≡ none) × (any ended_badly cs ≡ false))
      ⊎ ((code : ℤ) × (exit_code_of cs ≡ some code)
          × (is_zero code ≡ false)
          × (any ended_badly cs ≡ true))
unfolding exit_code_of
exit_code_of_lem [] = inl (refl, refl)
exit_code_of_lem (none ∷ cs) = exit_code_of_lem cs
exit_code_of_lem (some t ∷ cs) = elim (Bool-cases (nonzero t.exit_code)) [
  | inl bad ↦ inr (
    t.exit_code,
    rw (nonzero_lem t.exit_code, bad) refl,
    rw (nonzero_lem t.exit_code, bad) refl,
    rw bad refl,
  )
  | inr fine ↦ rw (nonzero_lem t.exit_code, fine) (exit_code_of_lem cs)
]

exit_code_lem :
    (p : Pod)
    → is_zero (get_pod_exit_code p)
      ≡ not (any ended_badly p.init_containers || any ended_badly p.containers)
unfolding get_pod_exit_code
exit_code_lem p = elim (exit_code_of_lem p.init_containers) [
  | inr (code, e, zero_not, bad) ↦ rw (get_pod_exit_code, e, bad) zero_not
  | inl (e, fine) ↦ elim (exit_code_of_lem p.containers) [
    | inr (code, f, zero_not, bad) ↦ rw (get_pod_exit_code, e, fine, f, bad) zero_not
    | inl (f, fine') ↦ rw (get_pod_exit_code, e, fine, f, fine') refl
  ]
]

phase_lem :
    (phase : Phase) (b : Bool)
    → elim phase [ pod_failed ↦ true | other_phase ↦ false ] || not (not b)
      ≡ elim phase [ pod_failed ↦ true | other_phase ↦ b ]
phase_lem pod_failed b = refl
phase_lem other_phase true = refl
phase_lem other_phase false = refl

pub is_pod_failed_lem : (p : Pod) → is_pod_failed p ≡ has_failed p
is_pod_failed_lem p =
    rw (exit_code_lem p)
      (phase_lem p.phase (any ended_badly p.init_containers || any ended_badly p.containers))
