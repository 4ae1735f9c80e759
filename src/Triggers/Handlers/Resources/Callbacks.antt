-- ===== src/Triggers/Handlers/Resources/Callbacks.antt =====
-- pkg/triggers/watcher.go: what the callbacks that the resources share give to the matcher.
use testkube.Base.{
  ℕ, String, Bool, false, ◌≡◌, refl, ap, sym, ◌↔◌, inl, inr, Option, none, some, Bool-cases, List,
  Memᴰ, arith, on_some,
}
use mathlib.Core.List.Memᴰ
use testkube.Triggers.Handlers.{
  Kind, Object, Contents, Names, Matched, WatcherOpt, Call, match_event, new_watcher_event,
}
use testkube.Triggers.Handlers.Resources.{in_past, emit, add_object, update_object, delete_object}

-- An event is given to the matcher.
abbrev pub Gives : {S L : Type 0} → Matched → List (Call S L) → Type 0
Gives m calls = Memᴰ (match_event m) calls

module _ {S E : Type 0} (contents : Contents S E) (names : Names) (from : ℕ) (home : String) where
  module _ (m : Matched) where
    -- What the callbacks make of an object of their kind.
    abbrev pub IsCreated : Kind → List WatcherOpt → Object S → Type 0
    IsCreated k opts o =
        (in_past contents names from home o ≡ false)
        × (m ≡ new_watcher_event names.created o (names.resource_of k) opts)

    abbrev pub IsModified :
        (S → S → Bool)
        → Kind
        → (Object S → Object S → List WatcherOpt)
        → Object S
        → Object S
        → Type 0
    IsModified same k opts o n =
        (same o.content n.content ≡ false)
        × (m ≡ new_watcher_event names.modified n (names.resource_of k) (opts o n))

    module _ {L : Type 0} where
      pub emit-Mem_iff :
          (t : String) (k : Kind) (o : Object S) (opts : List WatcherOpt)
          → Gives {L = L} m (emit contents names from home t k o opts)
            ↔ (m ≡ new_watcher_event t o (names.resource_of k) opts)
      emit-Mem_iff t k o opts = (
        λ h. elim (Memᴰ.cases_cons h) [ inl e ↦ cc | inr p ↦ elim p [ ] ],
        λ e. Memᴰ.head (ap match_event e),
      )

      pub add_object-Mem_iff :
          (k : Kind) (opts : List WatcherOpt) (x : Option (Object S))
          → Gives {L = L} m (add_object contents names from home k opts x)
            ↔ ((o : Object S) × (x ≡ some o) × IsCreated k opts o)
      add_object-Mem_iff k opts none =
          (λ h. elim h [ ], λ s. let bad = s.1 in absurd (ground arith))
      add_object-Mem_iff k opts (some o) = elim (Bool-cases (in_past contents names from home o)) [
        | inl past ↦ (
          λ h. elim (rw past at h) [ ],
          λ s.
              let now = (on_some (IsCreated k opts) (sym s.1) s.2).0 in
              absurd (ground (arith, now, past)),
        )
        | inr present ↦ (
          λ h. (o, refl, (present, (emit-Mem_iff names.created k o opts).0 (rw present at h))),
          λ s.
              let now = on_some (IsCreated k opts) (sym s.1) s.2 in
              rw present ((emit-Mem_iff names.created k o opts).1 now.1),
        )
      ]

      pub delete_object-Mem_iff :
          (k : Kind) (opts : List WatcherOpt) (x : Option (Object S))
          → Gives {L = L} m (delete_object contents names from home k opts x) ↔ (
              (o : Object S) × (x ≡ some o)
              × (m ≡ new_watcher_event names.deleted o (names.resource_of k) opts))
      delete_object-Mem_iff k opts none =
          (λ h. elim h [ ], λ s. let bad = s.1 in absurd (ground arith))
      delete_object-Mem_iff k opts (some o) = (
        λ h. (o, refl, (emit-Mem_iff names.deleted k o opts).0 h),
        λ s. (emit-Mem_iff names.deleted k o opts).1 (
            on_some (λ o. m ≡ new_watcher_event names.deleted o (names.resource_of k) opts)
              (sym s.1) s.2),
      )

      pub update_object-Mem_iff :
          (same : S → S → Bool) (k : Kind) (opts : Object S → Object S → List WatcherOpt)
          (x y : Option (Object S))
          → Gives {L = L} m (update_object contents names from home same k opts x y) ↔ (
              (o : Object S) × (n : Object S) × (x ≡ some o)
              × (y ≡ some n)
              × IsModified same k opts o n)
      update_object-Mem_iff same k opts none y =
          (λ h. elim h [ ], λ s. let bad = s.2 in absurd (ground arith))
      update_object-Mem_iff same k opts (some o) none =
          (λ h. elim h [ ], λ s. let bad = s.3 in absurd (ground arith))
      update_object-Mem_iff same k opts (some o) (some n) =
          let found : ((o' : Object S) × (n' : Object S) × (some o ≡ some o')
                × (some n ≡ some n')
                × IsModified same k opts o' n')
              → IsModified same k opts o n =
            λ s.
              on_some (λ o. IsModified same k opts o n) (sym s.2)
                (on_some (λ n. IsModified same k opts s.0 n) (sym s.3) s.4) in
          elim (Bool-cases (same o.content n.content)) [
            | inl equal ↦ (λ h. elim (rw equal at h) [ ], λ s. let differs = (found s).0 in cc)
            | inr differs ↦ (
              λ h. (
                o,
                n,
                refl,
                refl,
                (differs, (emit-Mem_iff names.modified k n (opts o n)).0 (rw differs at h)),
              ),
              λ s. rw differs ((emit-Mem_iff names.modified k n (opts o n)).1 (found s).1),
            )
          ]
