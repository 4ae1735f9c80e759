-- ===== src/Triggers/Handlers/Resources/Emits.antt =====
-- pkg/triggers/watcher.go: which events the callbacks give to the matcher.
use testkube.Base.{
  ℕ, String, Bool, true, false, ◌≡◌, refl, sym, ◌↔◌, inl, inr, Option, none, some, Bool-cases, List,
  [], ◌∷◌, Memᴰ, arith, if◌then◌else◌, on_some,
}
use mathlib.Core.List.Memᴰ
use testkube.Triggers.Pods.{Pod}
use testkube.Triggers.Handlers.{
  Kind, pod, deployment, stateful_set, daemon_set, service, ingress, cluster_event, config_map,
  Object, Any, Callback, added, updated, deleted, Contents, Names, Matched, WatcherOpt, with_causes,
  with_conditions_getter, Call, match_event, check_execution_pod_status, new_watcher_event, as_kind,
  pod_opts, service_opts,
}
use testkube.Triggers.Handlers.Resources.Events.{Emits}
use testkube.Triggers.Handlers.Resources.Callbacks.{
  Gives, emit-Mem_iff, add_object-Mem_iff, update_object-Mem_iff, delete_object-Mem_iff,
}
use testkube.Triggers.Handlers.Resources.{
  in_past, delete_object, pod_updated, pod_update_object, pod_deleted, pod_delete_object,
  deployment_causes, same_config, handler,
}

module _ {S E : Type 0} (contents : Contents S E) (names : Names) (from : ℕ) (home : String) where
  module _ {L : Type 0} (m : Matched) where
    abbrev checks : Bool → String → List Pod → List (Call S L)
    checks b job pods = if b then check_execution_pod_status job pods ∷ [] else []

    checks-Gives-none :
        (b : Bool) (job : String) (pods : List Pod) → Gives m (checks b job pods) → ⊥
    checks-Gives-none true job pods h = elim (Memᴰ.cases_cons h) [
      | inl e ↦ let bad = e in cc
      | inr p ↦ elim p [ ]
    ]
    checks-Gives-none false job pods h = elim h [ ]

    pod_updated-Gives-none :
        (x y : Option (Object S))
        → Gives {L = L} m (pod_update_object contents names from home {L = L} x y)
        → ⊥
    unfolding pod_updated
    pod_updated-Gives-none none y h = elim h [ ]
    pod_updated-Gives-none (some o) none h = elim h [ ]
    pod_updated-Gives-none (some o) (some n) h =
        elim (Bool-cases (in_past contents names from home o)) [
          | inl past ↦ elim (rw past at h) [ ]
          | inr present ↦ elim (Bool-cases (in_past contents names from home n)) [
            | inl gone ↦ elim (rw (present, gone) at h) [ ]
            | inr here ↦ checks-Gives-none _ _ _ (rw (present, here) at h)
          ]
        ]

    delete_object_iff :
        (k : Kind) (opts : List WatcherOpt) (obj : Any S L)
        → (k ≡ cluster_event → ⊥)
        → Gives {L = L} m (delete_object contents names from home k opts (as_kind k obj)) ↔ (
            (o : Object S) × (as_kind k obj ≡ some o)
            × ((k ≡ cluster_event) → ⊥)
            × (m ≡ new_watcher_event names.deleted o (names.resource_of k) opts))
    delete_object_iff k opts obj other =
        let iff = delete_object-Mem_iff contents names from home m k opts (as_kind k obj) in
        (λ h. let r = iff.0 h in (r.0, r.1, other, r.2), λ s. iff.1 (s.0, s.1, s.3))

    pod_delete_object_iff :
        (x : Option (Object S))
        → Gives {L = L} m (pod_delete_object contents names from home pod_opts x) ↔ (
            (o : Object S) × (x ≡ some o)
            × ((pod ≡ cluster_event) → ⊥)
            × (m ≡ new_watcher_event names.deleted o (names.resource_of pod) pod_opts))
    unfolding pod_deleted
    pod_delete_object_iff none = (λ h. elim h [ ], λ s. let bad = s.1 in absurd (ground arith))
    pod_delete_object_iff (some o) =
        let iff = emit-Mem_iff contents names from home m {L = L} names.deleted pod o pod_opts in
        (
          λ h. elim (Memᴰ.append_cases (pod_deleted contents names from home o) h) [
            | inl check ↦ absurd (checks-Gives-none _ _ _ check)
            | inr event ↦ (o, refl, λ e. cc, iff.0 event)
          ],
          λ s. Memᴰ.append_right (pod_deleted contents names from home o) (
              iff.1 (
                on_some
                  (λ o. m ≡ new_watcher_event names.deleted o (names.resource_of pod) pod_opts)
                  (sym s.1) s.3)),
        )

    added_iff :
        (k : Kind) (obj : Any S L)
        → Gives {L = L} m (handler contents names from home k (added obj))
          ↔ Emits contents names from home k (added obj) m
    unfolding handler new_watcher_event
    added_iff pod obj = add_object-Mem_iff contents names from home m pod pod_opts (as_kind pod obj)
    added_iff deployment obj =
        add_object-Mem_iff contents names from home m deployment
          (with_conditions_getter deployment ∷ []) (as_kind deployment obj)
    added_iff stateful_set obj =
        add_object-Mem_iff contents names from home m stateful_set
          (with_conditions_getter stateful_set ∷ []) (as_kind stateful_set obj)
    added_iff daemon_set obj =
        add_object-Mem_iff contents names from home m daemon_set
          (with_conditions_getter daemon_set ∷ []) (as_kind daemon_set obj)
    added_iff service obj =
        add_object-Mem_iff contents names from home m service service_opts (as_kind service obj)
    added_iff ingress obj =
        add_object-Mem_iff contents names from home m ingress [] (as_kind ingress obj)
    added_iff cluster_event obj =
        add_object-Mem_iff contents names from home m cluster_event [] (as_kind cluster_event obj)
    added_iff config_map obj =
        add_object-Mem_iff contents names from home m config_map [] (as_kind config_map obj)

    updated_iff :
        (k : Kind) (old new : Any S L)
        → Gives {L = L} m (handler contents names from home k (updated old new))
          ↔ Emits contents names from home k (updated old new) m
    unfolding handler new_watcher_event
    updated_iff pod old new = (
      λ h. absurd (pod_updated-Gives-none (as_kind pod old) (as_kind pod new) h),
      λ s. let bad = s.4.0 in cc,
    )
    updated_iff deployment old new =
        update_object-Mem_iff contents names from home m contents.same_spec deployment
          (λ o n.
            with_causes (deployment_causes contents names from home o n)
            ∷ with_conditions_getter deployment
            ∷ [])
          (as_kind deployment old) (as_kind deployment new)
    updated_iff stateful_set old new =
        update_object-Mem_iff contents names from home m contents.same_spec stateful_set
          (λ o n. with_conditions_getter stateful_set ∷ []) (as_kind stateful_set old)
          (as_kind stateful_set new)
    updated_iff daemon_set old new =
        update_object-Mem_iff contents names from home m contents.same_spec daemon_set
          (λ o n. with_conditions_getter daemon_set ∷ []) (as_kind daemon_set old)
          (as_kind daemon_set new)
    updated_iff service old new =
        update_object-Mem_iff contents names from home m contents.same_spec service
          (λ o n. service_opts) (as_kind service old) (as_kind service new)
    updated_iff ingress old new =
        update_object-Mem_iff contents names from home m contents.same_spec ingress (λ o n. [])
          (as_kind ingress old) (as_kind ingress new)
    updated_iff cluster_event old new = (λ h. elim h [ ], λ s. let bad = s.4.0 in cc)
    updated_iff config_map old new =
        update_object-Mem_iff contents names from home m (same_config contents names from home)
          config_map (λ o n. []) (as_kind config_map old) (as_kind config_map new)

    deleted_iff :
        (k : Kind) (obj : Any S L)
        → Gives {L = L} m (handler contents names from home k (deleted obj))
          ↔ Emits contents names from home k (deleted obj) m
    unfolding handler new_watcher_event
    deleted_iff pod obj = pod_delete_object_iff (as_kind pod obj)
    deleted_iff deployment obj =
        delete_object_iff deployment (with_conditions_getter deployment ∷ []) obj (λ e. cc)
    deleted_iff stateful_set obj =
        delete_object_iff stateful_set (with_conditions_getter stateful_set ∷ []) obj (λ e. cc)
    deleted_iff daemon_set obj =
        delete_object_iff daemon_set (with_conditions_getter daemon_set ∷ []) obj (λ e. cc)
    deleted_iff service obj = delete_object_iff service service_opts obj (λ e. cc)
    deleted_iff ingress obj = delete_object_iff ingress [] obj (λ e. cc)
    deleted_iff cluster_event obj = (λ h. elim h [ ], λ s. absurd (s.2 refl))
    deleted_iff config_map obj = delete_object_iff config_map [] obj (λ e. cc)

    -- A callback gives the matcher an event for an object of its kind that was not created before the
    -- watch began, for an object that was changed (its spec, or its data for a config map, but no pod and
    -- no cluster event), and for one that was deleted (but no cluster event): the event has the kind, the
    -- object, the causes and the getters of conditions and addresses of the kind, and no other is given.
    pub handler-Mem_iff :
        (k : Kind) (c : Callback S L)
        → Memᴰ (match_event m) (handler contents names from home k c)
          ↔ Emits contents names from home k c m
    handler-Mem_iff k (added obj) = added_iff k obj
    handler-Mem_iff k (updated old new) = updated_iff k old new
    handler-Mem_iff k (deleted obj) = deleted_iff k obj
