-- ===== src/Event/Emitter/Loops.antt =====
-- pkg/event/emitter.go: the nested loops of UpdateListeners, as loops over listeners.
use testkube.Base.{
  ◌≡◌, refl, sym, ap, ◌∙◌, String, Option, Option-cases, inl, inr, List, [], ◌∷◌, ◌++◌, Map, Each,
  lookup,
}
use testkube.Event.Listeners.{Listener}
use testkube.Event.Emitter.{
  Bus, Index, or_empty, listeners_of, all_listeners, stop_all, stop_unless, stop_absent,
  stop_missing, start_all, restart, start_changed, start_new,
}
use testkube.Event.Emitter.Index.{find, IsNamed, IsKind}

module _ {B : Type 0} (act : Option Listener → Listener → B → B) (other : Index) where
  -- An action on each listener and the one of the other index with its kind and name.
  abbrev pub each : List Listener → B → B
  each [] b = b
  each (l ∷ ls) b = each ls (act (find l.kind l.name other) l b)

  pub each-append : (s t : List Listener) (b : B) → each (s ++ t) b ≡ each t (each s b)
  each-append [] t b = refl
  each-append (l ∷ s) t b = each-append s t (act (find l.kind l.name other) l b)

find-IsNamed :
    (kind name : String) (l : Listener) (m : Index) {now : Map Listener}
    → IsNamed kind name l
    → or_empty (lookup kind m) ≡ now
    → find l.kind l.name m ≡ lookup name now
find-IsNamed kind name l m h e = rw (h.0, h.1, e) refl

module _ {B : Type 0} (bus : Bus B) where
  stop_all-absent : (m : Map Listener) (b : B) → stop_all bus m b ≡ stop_absent bus [] m b
  unfolding stop_all stop_absent lookup
  stop_all-absent [] b = refl
  stop_all-absent ((n, l) ∷ m) b = stop_all-absent m (bus.unsubscribe l.name b)

  stop_absent-each :
      (kind : String) (new_map : Index) (now m : Map Listener) (b : B)
      → or_empty (lookup kind new_map) ≡ now
      → Each (IsNamed kind) m
      → stop_absent bus now m b ≡ each (stop_unless bus) new_map (listeners_of m) b
  unfolding stop_absent listeners_of
  stop_absent-each kind new_map now [] b e h = refl
  stop_absent-each kind new_map now ((n, l) ∷ m) b e h =
      stop_absent-each kind new_map now m (stop_unless bus (lookup n now) l b) e h.1
      ∙ ap (λ o. each (stop_unless bus) new_map (listeners_of m) (stop_unless bus o l b))
          (sym (find-IsNamed kind n l new_map h.0 e))

  pub stop_missing-each :
      (new_map old : Index) (b : B)
      → Each IsKind old
      → stop_missing bus new_map old b ≡ each (stop_unless bus) new_map (all_listeners old) b
  unfolding stop_missing all_listeners
  stop_missing-each new_map [] b h = refl
  stop_missing-each new_map ((k, m) ∷ old) b h =
      let flat = each-append (stop_unless bus) new_map (listeners_of m) (all_listeners old) b in
      elim (Option-cases (lookup k new_map)) [
        | inl e ↦
            let here = stop_absent-each k new_map [] m b (ap or_empty e) h.0.1 in
            rw e (rw (stop_all-absent m b, here, flat) (stop_missing-each new_map old _ h.1))
        | inr (now, e) ↦
            let here = stop_absent-each k new_map now m b (ap or_empty e) h.0.1 in
            rw e (rw (here, flat) (stop_missing-each new_map old _ h.1))
      ]

  start_all-changed : (m : Map Listener) (b : B) → start_all bus m b ≡ start_changed bus [] m b
  unfolding start_all start_changed lookup
  start_all-changed [] b = refl
  start_all-changed ((n, l) ∷ m) b = start_all-changed m (bus.subscribe l.name l b)

  start_changed-each :
      (kind : String) (old_map : Index) (before m : Map Listener) (b : B)
      → or_empty (lookup kind old_map) ≡ before
      → Each (IsNamed kind) m
      → start_changed bus before m b ≡ each (restart bus) old_map (listeners_of m) b
  unfolding start_changed listeners_of
  start_changed-each kind old_map before [] b e h = refl
  start_changed-each kind old_map before ((n, l) ∷ m) b e h =
      start_changed-each kind old_map before m (restart bus (lookup n before) l b) e h.1
      ∙ ap (λ o. each (restart bus) old_map (listeners_of m) (restart bus o l b))
          (sym (find-IsNamed kind n l old_map h.0 e))

  pub start_new-each :
      (old_map now : Index) (b : B)
      → Each IsKind now
      → start_new bus old_map now b ≡ each (restart bus) old_map (all_listeners now) b
  unfolding start_new all_listeners
  start_new-each old_map [] b h = refl
  start_new-each old_map ((k, m) ∷ now) b h =
      let flat = each-append (restart bus) old_map (listeners_of m) (all_listeners now) b in
      elim (Option-cases (lookup k old_map)) [
        | inl e ↦
            let here = start_changed-each k old_map [] m b (ap or_empty e) h.0.1 in
            rw e (rw (start_all-changed m b, here, flat) (start_new-each old_map now _ h.1))
        | inr (before, e) ↦
            let here = start_changed-each k old_map before m b (ap or_empty e) h.0.1 in
            rw e (rw (here, flat) (start_new-each old_map now _ h.1))
      ]
