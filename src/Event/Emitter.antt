-- ===== src/Event/Emitter.antt =====
-- pkg/event/emitter.go: the listeners of an emitter and their subscriptions.
pub mod Index
pub mod Members
pub mod Last
pub mod Loops
pub mod Subscriptions
pub mod Serves
use testkube.Base.{
  String, Bool, true, false, ◌==◌, ◌≡◌, Option, none, some, List, [], ◌∷◌, ◌++◌, Map, lookup,
  insert, if◌then◌else◌,
}
use testkube.Event.Listeners.{Listener, compare_listeners}

-- What the emitter asks of a bus: `SubscribeTopic` and `Unsubscribe`, which here succeed and take effect
-- at once, as in mock_bus.go; the calls of nats.go can fail, and its `Drain` takes effect later. `queue`
-- is what the bus makes of a name, and `handler` the listener that gets the events of a queue.
pub record Bus (B : Type 0) : Type 0 where
  pub queue : String → String
  pub subscribe : String → Listener → B → B
  pub unsubscribe : String → B → B
  pub handler : String → B → Option Listener
  pub handler-subscribe :
      (q n : String) (l : Listener) (b : B)
      → handler (queue n) b ≡ none
      → handler q (subscribe n l b) ≡ (if queue n == q then some l else handler q b)
  pub handler-unsubscribe :
      (q n : String) (b : B)
      → handler q (unsubscribe n b) ≡ (if queue n == q then none else handler q b)

-- `map[string]map[string]common.Listener`: by kind and name.
abbrev pub Index : Type 0
Index = Map (Map Listener)

abbrev pub or_empty : Option (Map Listener) → Map Listener
or_empty none = []
or_empty (some m) = m

-- The loops that fill `oldMap` and `newMap`.
unfoldable pub index_from : List Listener → Index → Index
unfolding insert lookup
index_from [] m = m
index_from (l ∷ ls) m =
    index_from ls (insert l.kind (insert l.name l (or_empty (lookup l.kind m))) m)

-- The order of a range over a map is that of the list.
unfoldable pub listeners_of : Map Listener → List Listener
listeners_of [] = []
listeners_of ((n, l) ∷ m) = l ∷ listeners_of m

unfoldable pub all_listeners : Index → List Listener
unfolding listeners_of
all_listeners [] = []
all_listeners ((k, m) ∷ i) = listeners_of m ++ all_listeners i

module _ {B : Type 0} (bus : Bus B) where
  unfoldable pub stop_all : Map Listener → B → B
  stop_all [] b = b
  stop_all ((n, l) ∷ m) b = stop_all m (bus.unsubscribe l.name b)

  -- One round of the loop over a kind that both maps have.
  abbrev pub stop_unless : Option Listener → Listener → B → B
  stop_unless none l b = bus.unsubscribe l.name b
  stop_unless (some k) l b = b

  unfoldable pub stop_absent : Map Listener → Map Listener → B → B
  unfolding lookup
  stop_absent now [] b = b
  stop_absent now ((n, l) ∷ m) b = stop_absent now m (stop_unless (lookup n now) l b)

  -- `for kind, lMap := range oldMap`
  unfoldable pub stop_missing : Index → Index → B → B
  unfolding stop_all stop_absent
  stop_missing new_map [] b = b
  stop_missing new_map ((k, m) ∷ old) b =
      stop_missing new_map old
        (elim (lookup k new_map) [ none ↦ stop_all m b | some now ↦ stop_absent now m b ])

  unfoldable pub start_all : Map Listener → B → B
  start_all [] b = b
  start_all ((n, l) ∷ m) b = start_all m (bus.subscribe l.name l b)

  abbrev pub restart : Option Listener → Listener → B → B
  restart none l b = bus.subscribe l.name l b
  restart (some current) l b =
      if compare_listeners current l
      then b
      else bus.subscribe l.name l (bus.unsubscribe current.name b)

  unfoldable pub start_changed : Map Listener → Map Listener → B → B
  unfolding lookup
  start_changed before [] b = b
  start_changed before ((n, l) ∷ m) b = start_changed before m (restart (lookup n before) l b)

  -- `for kind, lMap := range newMap`
  unfoldable pub start_new : Index → Index → B → B
  unfolding start_all start_changed
  start_new old_map [] b = b
  start_new old_map ((k, m) ∷ now) b =
      start_new old_map now
        (elim (lookup k old_map) [ none ↦ start_all m b | some before ↦ start_changed before m b ])

  -- `UpdateListeners`: the listeners of the emitter and the bus.
  unfoldable pub update_listeners : List Listener → List Listener × B → List Listener × B
  unfolding index_from all_listeners stop_missing start_new
  update_listeners listeners (current, b) =
      let old_map = index_from current [] in
      let new_map = index_from listeners [] in
      (all_listeners new_map, start_new old_map new_map (stop_missing new_map old_map b))
