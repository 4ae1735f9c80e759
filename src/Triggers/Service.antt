-- ===== src/Triggers/Service.antt =====
-- pkg/triggers/service.go: the statuses of all triggers, by namespace and name.
pub mod Keys
use testkube.Base.{String, Option, none, some, List, [], ◌∷◌, Map, lookup, insert, delete, concat}
use testkube.Triggers.Status.{TriggerStatus, new_trigger_status}
use testkube.Triggers.Trigger.{TestTrigger}

-- `newStatusKey`
unfoldable pub new_status_key : String → String → String
unfolding concat
new_status_key namespace name = concat (namespace ∷ "/" ∷ name ∷ [])

abbrev pub Statuses : Type 0 → Type 0
Statuses L = Map (TriggerStatus (TestTrigger L))

module _ {L : Type 0} where
  unfoldable pub key_of : TestTrigger L → String
  unfolding new_status_key
  key_of t = new_status_key t.namespace t.name

  -- `none` is nil.
  unfoldable pub get_status_for_trigger :
      TestTrigger L → Statuses L → Option (TriggerStatus (TestTrigger L))
  unfolding key_of lookup
  get_status_for_trigger t m = lookup (key_of t) m

  unfoldable pub add_trigger : TestTrigger L → Statuses L → Statuses L
  unfolding key_of insert
  add_trigger t m = insert (key_of t) (new_trigger_status t) m

  -- The two branches of `updateTrigger`, on the status that it finds under the key.
  abbrev pub updated :
      TestTrigger L → Option (TriggerStatus (TestTrigger L)) → TriggerStatus (TestTrigger L)
  updated target none = new_trigger_status target
  updated target (some s) = record s { test_trigger = target }

  unfoldable pub update_trigger : TestTrigger L → Statuses L → Statuses L
  unfolding key_of insert lookup
  update_trigger target m = insert (key_of target) (updated target (lookup (key_of target) m)) m

  unfoldable pub remove_trigger : TestTrigger L → Statuses L → Statuses L
  unfolding key_of delete
  remove_trigger target m = delete (key_of target) m
