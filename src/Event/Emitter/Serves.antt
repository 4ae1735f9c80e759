-- ===== src/Event/Emitter/Serves.antt =====
-- pkg/event/emitter.go: what UpdateListeners leaves on the bus.
use testkube.Base.{
  String, ◌≡◌, refl, sym, ap, subst, ◌∙◌, ◌==◌, eq_iff, inl, inr, ◌⊎◌, ◌↔◌, Bool-cases, none, some,
  Option-cases, List, [], ◌∷◌, ◌++◌, Memᴰ,
}
use mathlib.Core.List.Memᴰ
use testkube.Event.Listeners.{Listener}
use testkube.Event.Emitter.{
  Bus, all_listeners, stop_unless, stop_missing, restart, start_new, update_listeners,
}
use testkube.Event.Emitter.Index.{find, IsNamed, last_of}
use testkube.Event.Emitter.Members.{all_listeners-Mem_iff, Once, all_listeners-Once}
use testkube.Event.Emitter.Last.{index, index-IsIndex, find-index, index-Mem_iff, index-has}
use testkube.Event.Emitter.Loops.{each, stop_missing-each, start_new-each}
use testkube.Event.Emitter.Subscriptions.{
  IsServed, HasQueue, stop-none, stop-keeps, stop-stops, Apart, AreReady, start-keeps, start-serves,
}

module _ {B : Type 0} (bus : Bus B) where
  -- The bus gives the events of each listener's queue to a listener with its metadata, and serves no
  -- other queue.
  abbrev pub Serves : List Listener → B → Type 0
  Serves ls b =
      ((l : Listener) → Memᴰ l ls → IsServed l (bus.handler (bus.queue l.name) b))
      × ((q : String)
          → ((l : Listener) → Memᴰ l ls → HasQueue bus q l → ⊥)
          → bus.handler q b ≡ none)

  -- Listeners with one queue have one kind and one name.
  abbrev pub HasQueues : List Listener → Type 0
  HasQueues ls =
      (x l : Listener)
      → Memᴰ x ls
      → Memᴰ l ls
      → bus.queue x.name ≡ bus.queue l.name
      → IsNamed l.kind l.name x

  queue-cases :
      (q : String) (ls : List Listener)
      → ((l : Listener) × Memᴰ l ls × HasQueue bus q l)
        ⊎ ((l : Listener) → Memᴰ l ls → HasQueue bus q l → ⊥)
  queue-cases q [] = inr (λ l p. elim p [ ])
  queue-cases q (x ∷ ls) = elim (Bool-cases (bus.queue x.name == q)) [
    | inl same ↦ inl (x, Memᴰ.head refl, (eq_iff (bus.queue x.name) q).0 same)
    | inr other ↦ elim (queue-cases q ls) [
      | inl found ↦ inl (found.0, Memᴰ.tail found.1, found.2)
      | inr absent ↦ inr (λ l p e. elim (Memᴰ.cases_cons p) [
        | inl here ↦
            let same =
              (eq_iff (bus.queue x.name) q).1 (ap (λ l. bus.queue l.name) (sym here) ∙ e) in
            cc
        | inr later ↦ absent l later e
      ])
    ]
  ]

  Once-Apart : (ls : List Listener) → HasQueues ls → Once ls → Apart bus ls
  Once-Apart [] h once = tt
  Once-Apart (x ∷ ls) h once = (
    λ l p e.
        let named = h x l (Memᴰ.head refl) (Memᴰ.tail p) e in once.0 l p (sym named.0, sym named.1),
    Once-Apart ls (λ y l p q. h y l (Memᴰ.tail p) (Memᴰ.tail q)) once.1,
  )

Mem-index :
    (ls : List Listener) {l : Listener}
    → Memᴰ l (all_listeners (index ls))
    → find l.kind l.name (index ls) ≡ some l
Mem-index ls {l} p = (all_listeners-Mem_iff (index ls) l (index-IsIndex ls)).0 p

index-within : (ls : List Listener) {l : Listener} → Memᴰ l (all_listeners (index ls)) → Memᴰ l ls
index-within ls {l} p = (find-index l.kind l.name ls (Mem-index ls p)).0

module _ {B : Type 0} (bus : Bus B) (current listeners : List Listener) where
  abbrev old : List Listener
  old = all_listeners (index current)

  abbrev now : List Listener
  now = all_listeners (index listeners)

  abbrev stopped : B → B
  stopped b = each (stop_unless bus) (index listeners) old b

  -- A listener with the queue of one of the other list has its kind and name.
  abbrev AgreeOnQueues : Type 0
  AgreeOnQueues =
      (x l : Listener)
      → Memᴰ x current
      → Memᴰ l listeners
      → bus.queue x.name ≡ bus.queue l.name
      → IsNamed l.kind l.name x

  stopped-keeps :
      AgreeOnQueues
      → (b : B) {l : Listener} → Memᴰ l now
      → bus.handler (bus.queue l.name) (stopped b) ≡ bus.handler (bus.queue l.name) b
  stopped-keeps agree b {l} p =
      stop-keeps bus (index listeners) (bus.queue l.name) old b (λ x q missing same.
        let named = agree x l (index-within current q) (index-within listeners p) same in
        let found = Mem-index listeners p in let absent = rw (named.0, named.1) at missing in cc)

  stopped-IsReady :
      AgreeOnQueues → (b : B) → Serves bus current b → AreReady bus (index current) now (stopped b)
  stopped-IsReady agree b served l p = elim (Option-cases (find l.kind l.name (index current))) [
    | inl e ↦ rw e (
        stopped-keeps agree b p
        ∙ served.1 (bus.queue l.name) (λ x q same.
          let named = agree x l q (index-within listeners p) same in
          let k = index-has current q in
          let found = Mem-index current k.1 in
          let here = rw (k.2.0, k.2.1, named.0, named.1) at found in cc))
    | inr (k, e) ↦
        let at = find-index l.kind l.name current e in
        let queue = ap bus.queue at.1.1 in
        let here : IsServed k (bus.handler (bus.queue l.name) b) =
          subst (λ q. IsServed k (bus.handler q b)) queue (served.0 k at.0) in
        rw e (at.1.1, subst (IsServed k) (sym (stopped-keeps agree b p)) here)
  ]

  -- A queue that no new listener has is free after the stops.
  stopped-free :
      AgreeOnQueues
      → (b : B) → Serves bus current b
      → (q : String) → ((l : Listener) → Memᴰ l now → HasQueue bus q l → ⊥)
      → bus.handler q (stopped b) ≡ none
  stopped-free agree b served q absent = elim (queue-cases bus q old) [
    | inl (x, p, same) ↦ elim (Option-cases (find x.kind x.name (index listeners))) [
      | inl missing ↦
          subst (λ q. bus.handler q (stopped b) ≡ none) same
            (stop-stops bus (index listeners) old b p missing)
      | inr (y, e) ↦
          let at = find-index x.kind x.name listeners e in
          let found : find y.kind y.name (index listeners) ≡ some y =
            ap (λ k. find k y.name (index listeners)) at.1.0
            ∙ ap (λ n. find x.kind n (index listeners)) at.1.1
            ∙ e in
          absurd (
            absent y ((all_listeners-Mem_iff (index listeners) y (index-IsIndex listeners)).1 found)
              (ap bus.queue at.1.1 ∙ same))
    ]
    | inr unused ↦ stop-none bus (index listeners) q old b (
        served.1 q
          (λ l p same. let k = index-has current p in unused k.0 k.1 (ap bus.queue k.2.1 ∙ same)))
  ]

-- An update of the listeners of an emitter whose bus serves the listeners it has leaves the listeners
-- that were given, the last of each kind and name, and a bus that serves those, when all listeners with
-- one queue have one kind and name.
pub update_listeners-Serves :
    {B : Type 0} (bus : Bus B) (current listeners : List Listener) (b : B)
    → HasQueues bus (current ++ listeners)
    → Serves bus current b
    → ((l : Listener)
        → Memᴰ l (update_listeners bus listeners (current, b)).0
          ↔ (last_of l.kind l.name listeners none ≡ some l))
      × Serves bus
          (update_listeners bus listeners (current, b)).0
          (update_listeners bus listeners (current, b)).1
unfolding update_listeners
update_listeners-Serves bus current listeners b queues served =
    let agree : AgreeOnQueues bus current listeners =
      λ x l p q. queues x l (Memᴰ.append_left listeners p) (Memᴰ.append_right current q) in
    let at = now bus current listeners in
    let apart : Apart bus at =
      Once-Apart bus at
        (λ x l p q.
          queues x l (Memᴰ.append_right current (index-within listeners p))
            (Memᴰ.append_right current (index-within listeners q)))
        (all_listeners-Once (index listeners) (index-IsIndex listeners)) in
    let ready = stopped-IsReady bus current listeners agree b served in
    let b1 = stopped bus current listeners b in
    let loops : start_new bus (index current) (index listeners)
          (stop_missing bus (index listeners) (index current) b)
        ≡ each (restart bus) (index current) at b1 =
      rw (stop_missing-each bus (index listeners) (index current) b (index-IsIndex current).1)
        (start_new-each bus (index current) (index listeners) b1 (index-IsIndex listeners).1) in
    (
      index-Mem_iff listeners,
      subst (Serves bus at) (sym loops) (
        λ l p. start-serves bus (index current) at b1 ready apart p,
        λ q absent.
            start-keeps bus (index current) q at b1 ready apart absent
            ∙ stopped-free bus current listeners agree b served q absent,
      ),
    )
