-- ===== src/Triggers/Handlers/Operator/Latest.antt =====
-- pkg/triggers/watcher.go and service.go: which triggers the callbacks leave.
use testkube.Base.{
  String, ◌==◌, ◌≡◌, refl, ap, ◌∙◌, inl, inr, Bool-cases, Option, none, some, Option-cases, List,
  [], ◌∷◌, lookup, if◌then◌else◌,
}
use testkube.Triggers.Status.{TriggerStatus}
use testkube.Triggers.Trigger.{TestTrigger}
use testkube.Triggers.Service.{Statuses, key_of, add_trigger, update_trigger, remove_trigger}
use testkube.Triggers.Service.Keys.{triggers-lookup}
use testkube.Triggers.Handlers.{Any, Callback}
use testkube.Triggers.Handlers.Callback.{added, updated, deleted}
use testkube.Triggers.Handlers.Operator.{
  test_trigger_event_handler, run_call, run_calls, run_callbacks,
}

module _ {L : Type 0} where
  abbrev pub trigger_of : Option (TriggerStatus (TestTrigger L)) → Option (TestTrigger L)
  trigger_of none = none
  trigger_of (some s) = some s.test_trigger

  -- The trigger that stands under a key.
  abbrev pub trigger_at : String → Statuses L → Option (TestTrigger L)
  trigger_at key m = trigger_of (lookup key m)

  updated-trigger :
      (t : TestTrigger L) (key : String) (m : Statuses L)
      → trigger_at key (update_trigger t m) ≡ (if key_of t == key then some t else trigger_at key m)
  updated-trigger t key m =
      let at = (triggers-lookup t key m).0 in
      elim (Bool-cases (key_of t == key)) [
        | inr other ↦ ap trigger_of at ∙ rw other refl
        | inl same ↦ elim (Option-cases (lookup key m)) [
          | inl e ↦ ap trigger_of at ∙ rw (same, e) refl
          | inr (s, e) ↦ ap trigger_of at ∙ rw (same, e) refl
        ]
      ]

module _ {S L : Type 0} where
  -- What a callback makes of the trigger with a key.
  abbrev pub change : String → Callback S L → Option (TestTrigger L) → Option (TestTrigger L)
  change key (added (Any.test_trigger t)) now = if key_of t == key then some t else now
  change key (updated old (Any.test_trigger t)) now = if key_of t == key then some t else now
  change key (deleted (Any.test_trigger t)) now = if key_of t == key then none else now
  change key _ now = now

  -- The trigger with a key after all callbacks: the last one that was added or updated, if none was
  -- deleted after it.
  abbrev pub latest : String → List (Callback S L) → Option (TestTrigger L) → Option (TestTrigger L)
  latest key [] now = now
  latest key (c ∷ cs) now = latest key cs (change key c now)

  callback-latest :
      (key : String) (c : Callback S L) (m : Statuses L)
      → trigger_at key (run_calls (test_trigger_event_handler c) m)
        ≡ change key c (trigger_at key m)
  unfolding test_trigger_event_handler run_call add_trigger update_trigger remove_trigger
  callback-latest key (added (Any.test_trigger t)) m =
      let at = (triggers-lookup t key m).1 in
      elim (Bool-cases (key_of t == key)) [
        | inl same ↦ ap trigger_of at ∙ rw same refl
        | inr other ↦ ap trigger_of at ∙ rw other refl
      ]
  callback-latest key (updated old (Any.test_trigger t)) m = updated-trigger t key m
  callback-latest key (deleted (Any.test_trigger t)) m =
      let at = (triggers-lookup t key m).2 in
      elim (Bool-cases (key_of t == key)) [
        | inl same ↦ ap trigger_of at ∙ rw same refl
        | inr other ↦ ap trigger_of at ∙ rw other refl
      ]
  callback-latest key (added (Any.resource k o)) m = refl
  callback-latest key (added (Any.test o)) m = refl
  callback-latest key (added (Any.test_suite o)) m = refl
  callback-latest key (added Any.other) m = refl
  callback-latest key (updated old (Any.resource k o)) m = refl
  callback-latest key (updated old (Any.test o)) m = refl
  callback-latest key (updated old (Any.test_suite o)) m = refl
  callback-latest key (updated old Any.other) m = refl
  callback-latest key (deleted (Any.resource k o)) m = refl
  callback-latest key (deleted (Any.test o)) m = refl
  callback-latest key (deleted (Any.test_suite o)) m = refl
  callback-latest key (deleted Any.other) m = refl

  -- After the callbacks of the trigger informer, the trigger with a key is the one that was added or
  -- updated last, if it was not deleted afterwards, and the one from before them if none of the
  -- callbacks was about that key.
  pub run_callbacks-latest :
      (key : String) (cs : List (Callback S L)) (m : Statuses L)
      → trigger_at key (run_callbacks cs m) ≡ latest key cs (trigger_at key m)
  unfolding run_callbacks
  run_callbacks-latest key [] m = refl
  run_callbacks-latest key (c ∷ cs) m =
      run_callbacks-latest key cs (run_calls (test_trigger_event_handler c) m)
      ∙ ap (latest key cs) (callback-latest key c m)
