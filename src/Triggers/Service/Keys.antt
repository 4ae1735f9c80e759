-- ===== src/Triggers/Service/Keys.antt =====
-- The map of statuses: each stands under the key of its own trigger (service.go).
use testkube.Base.{
  String, false, ◌==◌, ◌≡◌, refl, sym, ap, ◌∙◌, Option, none, some, [], ◌∷◌, lookup, insert, delete,
  lookup-insert, lookup-delete, Fresh, Bool-cases, inl, inr, arith, eq_iff, if◌then◌else◌,
}
use testkube.Triggers.Status.{TriggerStatus, new_trigger_status}
use testkube.Triggers.Trigger.{TestTrigger}
use testkube.Triggers.Service.{
  Statuses, key_of, add_trigger, updated, update_trigger, remove_trigger,
}

module _ {L : Type 0} where
  -- No key stands twice, and each status stands under the key of its own trigger.
  abbrev pub IsKeyed : Statuses L → Type 0
  IsKeyed [] = Unit
  IsKeyed ((key, s) ∷ m) = (key ≡ key_of s.test_trigger) × Fresh key m × IsKeyed m

  Fresh-insert :
      (k j : String) (s : TriggerStatus (TestTrigger L)) (m : Statuses L)
      → (j == k) ≡ false
      → Fresh k m
      → Fresh k (insert j s m)
  unfolding insert
  Fresh-insert k j s [] h f = (h, tt)
  Fresh-insert k j s ((i, w) ∷ m) h f = elim (Bool-cases (i == j)) [
    | inl same ↦ rw same (h, f.1)
    | inr other ↦ rw other (f.0, Fresh-insert k j s m h f.1)
  ]

  Fresh-delete : (k j : String) (m : Statuses L) → Fresh k m → Fresh k (delete j m)
  unfolding delete
  Fresh-delete k j [] f = tt
  Fresh-delete k j ((i, w) ∷ m) f = elim (Bool-cases (i == j)) [
    | inl same ↦ rw same (Fresh-delete k j m f.1)
    | inr other ↦ rw other (f.0, Fresh-delete k j m f.1)
  ]

  pub insert-IsKeyed :
      (s : TriggerStatus (TestTrigger L)) (k : String) (m : Statuses L)
      → k ≡ key_of s.test_trigger
      → IsKeyed m
      → IsKeyed (insert k s m)
  unfolding insert
  insert-IsKeyed s k [] h keyed = (h, tt, tt)
  insert-IsKeyed s k ((j, w) ∷ m) h keyed = elim (Bool-cases (j == k)) [
    | inl same ↦ let e : j ≡ k = ground (arith, eq_iff j k) in rw same (h, rw e at keyed.1, keyed.2)
    | inr other ↦
        let back : (k == j) ≡ false = ground (arith, eq_iff j k, eq_iff k j) in
        rw other (keyed.0, Fresh-insert j k s m back keyed.1, insert-IsKeyed s k m h keyed.2)
  ]

  pub lookup-IsKeyed :
      (k : String) (s : TriggerStatus (TestTrigger L)) (m : Statuses L)
      → IsKeyed m
      → lookup k m ≡ some s
      → k ≡ key_of s.test_trigger
  unfolding lookup
  lookup-IsKeyed k s [] keyed h = absurd (ground arith)
  lookup-IsKeyed k s ((j, w) ∷ m) keyed h = elim (Bool-cases (j == k)) [
    | inl same ↦
        let e : j ≡ k = ground (arith, eq_iff j k) in
        let is : w ≡ s = ground arith in sym e ∙ keyed.0 ∙ ap (λ x. key_of x.test_trigger) is
    | inr other ↦ lookup-IsKeyed k s m keyed.2 (rw (other, lookup) at h)
  ]

  delete-IsKeyed : (k : String) (m : Statuses L) → IsKeyed m → IsKeyed (delete k m)
  unfolding delete
  delete-IsKeyed k [] keyed = tt
  delete-IsKeyed k ((j, w) ∷ m) keyed = elim (Bool-cases (j == k)) [
    | inl same ↦ rw same (delete-IsKeyed k m keyed.2)
    | inr other ↦ rw other (keyed.0, Fresh-delete j k m keyed.1, delete-IsKeyed k m keyed.2)
  ]

  updated-trigger :
      (t : TestTrigger L) (o : Option (TriggerStatus (TestTrigger L)))
      → t ≡ (updated t o).test_trigger
  updated-trigger t none = refl
  updated-trigger t (some s) = refl

  -- Adding, updating and removing a trigger keep every status under the key of its own trigger, and no
  -- key twice.
  pub triggers-IsKeyed :
      (t : TestTrigger L) (m : Statuses L)
      → IsKeyed m
      → IsKeyed (add_trigger t m) × IsKeyed (update_trigger t m) × IsKeyed (remove_trigger t m)
  unfolding add_trigger update_trigger remove_trigger
  triggers-IsKeyed t m keyed =
      let s = updated t (lookup (key_of t) m) in
      (
        insert-IsKeyed (new_trigger_status t) (key_of t) m refl keyed,
        insert-IsKeyed s (key_of t) m (ap key_of (updated-trigger t (lookup (key_of t) m))) keyed,
        delete-IsKeyed (key_of t) m keyed,
      )

  update_trigger-lookup :
      (t : TestTrigger L) (k : String) (m : Statuses L)
      → lookup k (update_trigger t m)
        ≡ (if key_of t == k then some (updated t (lookup k m)) else lookup k m)
  unfolding update_trigger
  update_trigger-lookup t k m = elim (Bool-cases (key_of t == k)) [
    | inl same ↦
        let e : key_of t ≡ k = ground (arith, eq_iff (key_of t) k) in
        rw (lookup-insert (key_of t) k (updated t (lookup (key_of t) m)) m, same, e) refl
    | inr other ↦ rw (lookup-insert (key_of t) k (updated t (lookup (key_of t) m)) m, other) refl
  ]

  -- After a trigger is updated, its status has the new trigger and keeps the executions and times of
  -- the status before, if there was one; after it is added, its status has no executions; after it is
  -- removed, it has no status. The status under any other key is not changed by the three.
  pub triggers-lookup :
      (t : TestTrigger L) (k : String) (m : Statuses L)
      → (lookup k (update_trigger t m)
          ≡ (if key_of t == k then some (updated t (lookup k m)) else lookup k m))
        × (lookup k (add_trigger t m)
            ≡ (if key_of t == k then some (new_trigger_status t) else lookup k m))
        × (lookup k (remove_trigger t m) ≡ (if key_of t == k then none else lookup k m))
  unfolding add_trigger remove_trigger
  triggers-lookup t k m = (
    update_trigger-lookup t k m,
    lookup-insert (key_of t) k (new_trigger_status t) m,
    lookup-delete (key_of t) k m,
  )
