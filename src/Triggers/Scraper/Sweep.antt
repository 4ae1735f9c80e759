-- ===== src/Triggers/Scraper/Sweep.antt =====
-- What the loops of scraper.go leave on the status of a trigger.
use testkube.Base.{
  String, Bool, true, false, not, ◌==◌, ◌≡◌, refl, Option, some, List, [], ◌∷◌, ◌++◌, All,
  All-append, select, arith, eq_iff, Bool-cases, Option-cases, inl, inr, ◌>>=◌, append_assoc,
}
use testkube.Triggers.Status.{
  TriggerStatus, remove_id, remove_execution_id, remove_test_suite_execution_id,
}
use testkube.Triggers.Status.Removal.{Lacks, remove_id-once}
use testkube.Triggers.Scraper.{sweep}

-- No id stands twice.
abbrev pub IsNoDup : List String → Type 0
IsNoDup [] = Unit
IsNoDup (id ∷ ids) = Lacks id ids × IsNoDup ids

apart : (x y : String) → (y == x) ≡ false → (x == y) ≡ false
apart x y h = ground (arith, eq_iff x y, eq_iff y x)

extend :
    (x : String) (kept rest : List String)
    → All (λ y. Lacks y kept) rest
    → Lacks x rest
    → All (λ y. Lacks y (kept ++ x ∷ [])) rest
extend x kept [] h k = tt
extend x kept (y ∷ rest) h k =
    (All-append _ kept (x ∷ []) h.0 (apart x y k.0, tt), extend x kept rest h.1 k.1)

Lacks-nil : (rest : List String) → All (λ y. Lacks y []) rest
Lacks-nil [] = tt
Lacks-nil (x ∷ rest) = (tt, Lacks-nil rest)

module _ (ended : String → Option Bool) (gone : String → Bool) where
  abbrev pub Decides : String → Type 0
  Decides id = ended id ≡ some (gone id)

  abbrev pub left : List String → List String
  left = select (λ id. not (gone id))

  sweep_ids :
      (kept rest : List String)
      → All Decides rest
      → IsNoDup rest
      → All (λ y. Lacks y kept) rest
      → sweep remove_id ended rest (kept ++ rest) ≡ some (kept ++ left rest)
  unfolding sweep
  sweep_ids kept [] d u h = refl
  sweep_ids kept (x ∷ rest) d u h = rw d.0 (elim (Bool-cases (gone x)) [
    | inl dead ↦ rw (dead, remove_id-once x kept rest h.0 u.0) (sweep_ids kept rest d.1 u.1 h.1)
    | inr alive ↦
        let ih = sweep_ids (kept ++ x ∷ []) rest d.1 u.1 (extend x kept rest h.1 u.0) in
        rw alive
          (rw (append_assoc kept (x ∷ []) rest, append_assoc kept (x ∷ []) (left rest)) at ih)
  ])

  -- A loop over all ids, none of which stands twice, leaves those that its body does not remove.
  pub sweep_lem :
      (ids : List String)
      → All Decides ids
      → IsNoDup ids
      → sweep remove_id ended ids ids ≡ some (left ids)
  sweep_lem ids d u = sweep_ids [] ids d u (Lacks-nil ids)

module _ {T : Type 0} (ended : String → Option Bool) where
  pub sweep_tests :
      (ids : List String) (s : TriggerStatus T)
      → sweep remove_execution_id ended ids s ≡ (
          sweep remove_id ended ids s.test_execution_ids >>= λ left.
          some (record s { test_execution_ids = left }))
  unfolding sweep remove_execution_id
  sweep_tests [] s = refl
  sweep_tests (id ∷ ids) s = elim (Option-cases (ended id)) [
    | inl stuck ↦ rw stuck refl
    | inr (false, e) ↦ rw e (sweep_tests ids s)
    | inr (true, e) ↦ elim (Option-cases (remove_id id s.test_execution_ids)) [
      | inl panic ↦ rw (e, panic) refl
      | inr (left, r) ↦ rw (e, r) (sweep_tests ids (record s { test_execution_ids = left }))
    ]
  ]

  pub sweep_suites :
      (ids : List String) (s : TriggerStatus T)
      → sweep remove_test_suite_execution_id ended ids s ≡ (
          sweep remove_id ended ids s.test_suite_execution_ids >>= λ left.
          some (record s { test_suite_execution_ids = left }))
  unfolding sweep remove_test_suite_execution_id
  sweep_suites [] s = refl
  sweep_suites (id ∷ ids) s = elim (Option-cases (ended id)) [
    | inl stuck ↦ rw stuck refl
    | inr (false, e) ↦ rw e (sweep_suites ids s)
    | inr (true, e) ↦ elim (Option-cases (remove_id id s.test_suite_execution_ids)) [
      | inl panic ↦ rw (e, panic) refl
      | inr (left, r) ↦ rw (e, r) (sweep_suites ids (record s { test_suite_execution_ids = left }))
    ]
  ]
