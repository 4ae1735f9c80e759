-- ===== src/Event/Emitter/Subscriptions.antt =====
-- pkg/event/emitter.go: what the loops of UpdateListeners do to one queue.
use testkube.Base.{
  String, ◌≡◌, refl, sym, ap, subst, ◌∙◌, ◌==◌, eq_iff, eq_refl, Bool-cases, inl, inr, Option, none,
  some, List, [], ◌∷◌, Memᴰ,
}
use testkube.Event.Listeners.{
  Listener, compare_listeners, HasMetadata, compare_listeners-HasMetadata,
}
use testkube.Event.Emitter.{Bus, Index, stop_unless, restart}
use testkube.Event.Emitter.Index.{find}
use testkube.Event.Emitter.Loops.{each}

-- A queue has a listener with the metadata of the one given.
abbrev pub IsServed : Listener → Option Listener → Type 0
IsServed l h = (s : Listener) × (h ≡ some s) × HasMetadata s l

module _ {B : Type 0} (bus : Bus B) where
  abbrev pub HasQueue : String → Listener → Type 0
  HasQueue q l = bus.queue l.name ≡ q

  stop-other :
      (q n : String) (b : B)
      → (bus.queue n ≡ q → ⊥)
      → bus.handler q (bus.unsubscribe n b) ≡ bus.handler q b
  stop-other q n b other = elim (Bool-cases (bus.queue n == q)) [
    | inl same ↦ absurd (other ((eq_iff (bus.queue n) q).0 same))
    | inr test ↦ bus.handler-unsubscribe q n b ∙ rw test refl
  ]

  stop-same : (q n : String) (b : B) → bus.queue n ≡ q → bus.handler q (bus.unsubscribe n b) ≡ none
  stop-same q n b same = bus.handler-unsubscribe q n b ∙ rw ((eq_iff (bus.queue n) q).1 same) refl

  start-other :
      (q : String) (l : Listener) (b : B)
      → bus.handler (bus.queue l.name) b ≡ none
      → (bus.queue l.name ≡ q → ⊥)
      → bus.handler q (bus.subscribe l.name l b) ≡ bus.handler q b
  start-other q l b free other = elim (Bool-cases (bus.queue l.name == q)) [
    | inl same ↦ absurd (other ((eq_iff (bus.queue l.name) q).0 same))
    | inr test ↦ bus.handler-subscribe q l.name l b free ∙ rw test refl
  ]

  start-same :
      (l : Listener) (b : B)
      → bus.handler (bus.queue l.name) b ≡ none
      → bus.handler (bus.queue l.name) (bus.subscribe l.name l b) ≡ some l
  start-same l b free =
      bus.handler-subscribe (bus.queue l.name) l.name l b free
      ∙ rw (eq_refl (bus.queue l.name)) refl

  stop_unless-none :
      (q : String) (o : Option Listener) (l : Listener) (b : B)
      → bus.handler q b ≡ none
      → bus.handler q (stop_unless bus o l b) ≡ none
  stop_unless-none q (some k) l b h = h
  stop_unless-none q none l b h = elim (Bool-cases (bus.queue l.name == q)) [
    | inl same ↦ bus.handler-unsubscribe q l.name b ∙ rw same refl
    | inr test ↦ bus.handler-unsubscribe q l.name b ∙ rw test h
  ]

  stop_unless-other :
      (q : String) (o : Option Listener) (l : Listener) (b : B)
      → (o ≡ none → HasQueue q l → ⊥)
      → bus.handler q (stop_unless bus o l b) ≡ bus.handler q b
  stop_unless-other q (some k) l b h = refl
  stop_unless-other q none l b h = stop-other q l.name b (h refl)

  module _ (other : Index) where
    pub stop-none :
        (q : String) (ls : List Listener) (b : B)
        → bus.handler q b ≡ none
        → bus.handler q (each (stop_unless bus) other ls b) ≡ none
    stop-none q [] b h = h
    stop-none q (l ∷ ls) b h =
        stop-none q ls _ (stop_unless-none q (find l.kind l.name other) l b h)

    -- A queue keeps its listener when none that is stopped has the queue.
    pub stop-keeps :
        (q : String) (ls : List Listener) (b : B)
        → ((l : Listener) → Memᴰ l ls → find l.kind l.name other ≡ none → HasQueue q l → ⊥)
        → bus.handler q (each (stop_unless bus) other ls b) ≡ bus.handler q b
    stop-keeps q [] b h = refl
    stop-keeps q (l ∷ ls) b h =
        stop-keeps q ls _ (λ k p. h k (Memᴰ.tail p))
        ∙ stop_unless-other q (find l.kind l.name other) l b (h l (Memᴰ.head refl))

    pub stop-stops :
        (ls : List Listener) (b : B) {l : Listener}
        → Memᴰ l ls
        → find l.kind l.name other ≡ none
        → bus.handler (bus.queue l.name) (each (stop_unless bus) other ls b) ≡ none
    stop-stops [] b p e = elim p [ ]
    stop-stops (k ∷ ls) b {l} (Memᴰ.tail p) e = stop-stops ls _ p e
    stop-stops (k ∷ ls) b {l} (Memᴰ.head p) e =
        let missing : find k.kind k.name other ≡ none = rw p at e in
        stop-none (bus.queue l.name) ls (stop_unless bus (find k.kind k.name other) k b)
          (rw missing (stop-same (bus.queue l.name) k.name b (ap (λ l. bus.queue l.name) (sym p))))

  -- What a start of a listener relies on: its queue is free, or has the listener's old version.
  abbrev pub IsReady : Option Listener → Listener → Option Listener → Type 0
  IsReady none l h = h ≡ none
  IsReady (some current) l h = (current.name ≡ l.name) × IsServed current h

  restart-other :
      (q : String) (o : Option Listener) (l : Listener) (b : B)
      → IsReady o l (bus.handler (bus.queue l.name) b)
      → (HasQueue q l → ⊥)
      → bus.handler q (restart bus o l b) ≡ bus.handler q b
  restart-other q none l b ready other = start-other q l b ready other
  restart-other q (some current) l b ready other = elim (Bool-cases (compare_listeners current l)) [
    | inl same ↦ rw same refl
    | inr changed ↦
        let queue = ap bus.queue ready.0 in
        rw changed (
          start-other q l _ (stop-same (bus.queue l.name) current.name b queue) other
          ∙ stop-other q current.name b (λ e. other (sym queue ∙ e)))
  ]

  restart-serves :
      (o : Option Listener) (l : Listener) (b : B)
      → IsReady o l (bus.handler (bus.queue l.name) b)
      → IsServed l (bus.handler (bus.queue l.name) (restart bus o l b))
  restart-serves none l b ready = (l, start-same l b ready, λ k. refl)
  restart-serves (some current) l b (name, (s, at, same)) =
      elim (Bool-cases (compare_listeners current l)) [
        | inl equal ↦
            rw equal (s, at, λ k. same k ∙ compare_listeners-HasMetadata current l equal k)
        | inr changed ↦
            let free = stop-same (bus.queue l.name) current.name b (ap bus.queue name) in
            rw changed (l, start-same l _ free, λ k. refl)
      ]

  -- The listeners of a list have different queues.
  abbrev pub Apart : List Listener → Type 0
  Apart [] = Unit
  Apart (x ∷ ls) = ((l : Listener) → Memᴰ l ls → HasQueue (bus.queue l.name) x → ⊥) × Apart ls

  module _ (other : Index) where
    abbrev pub AreReady : List Listener → B → Type 0
    AreReady ls b =
        (l : Listener)
        → Memᴰ l ls
        → IsReady (find l.kind l.name other) l (bus.handler (bus.queue l.name) b)

    abbrev started : Listener → B → B
    started x b = restart bus (find x.kind x.name other) x b

    -- Starting one listener leaves the others as they were.
    AreReady-restart :
        (x : Listener) (ls : List Listener) (b : B)
        → AreReady (x ∷ ls) b
        → Apart (x ∷ ls)
        → AreReady ls (started x b)
    AreReady-restart x ls b ready apart l p =
        subst (IsReady (find l.kind l.name other) l)
          (sym (
            restart-other (bus.queue l.name) (find x.kind x.name other) x b
              (ready x (Memᴰ.head refl)) (apart.0 l p)))
          (ready l (Memᴰ.tail p))

    pub start-keeps :
        (q : String) (ls : List Listener) (b : B)
        → AreReady ls b
        → Apart ls
        → ((l : Listener) → Memᴰ l ls → HasQueue q l → ⊥)
        → bus.handler q (each (restart bus) other ls b) ≡ bus.handler q b
    start-keeps q [] b ready apart h = refl
    start-keeps q (x ∷ ls) b ready apart h =
        start-keeps q ls (started x b) (AreReady-restart x ls b ready apart) apart.1
          (λ l p. h l (Memᴰ.tail p))
        ∙ restart-other q (find x.kind x.name other) x b (ready x (Memᴰ.head refl))
            (h x (Memᴰ.head refl))

    pub start-serves :
        (ls : List Listener) (b : B) {l : Listener}
        → AreReady ls b
        → Apart ls
        → Memᴰ l ls
        → IsServed l (bus.handler (bus.queue l.name) (each (restart bus) other ls b))
    start-serves [] b ready apart p = elim p [ ]
    start-serves (x ∷ ls) b ready apart (Memᴰ.tail p) =
        start-serves ls (started x b) (AreReady-restart x ls b ready apart) apart.1 p
    start-serves (x ∷ ls) b {l} ready apart (Memᴰ.head p) =
        let here = restart-serves (find x.kind x.name other) x b (ready x (Memᴰ.head refl)) in
        let later =
          start-keeps (bus.queue x.name) ls (started x b) (AreReady-restart x ls b ready apart)
            apart.1 (λ k m e. apart.0 k m (sym e)) in
        subst
          (λ l. IsServed l (bus.handler (bus.queue l.name) (each (restart bus) other (x ∷ ls) b)))
          (sym p) (subst (IsServed x) (sym later) here)
