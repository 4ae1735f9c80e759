-- ===== src/Triggers/Handlers/Operator.antt =====
-- pkg/triggers/watcher.go: the callbacks for test triggers, test suites and tests.
pub mod Latest
use testkube.Base.{ℕ, Option, none, some, List, [], ◌∷◌, ltb, if◌then◌else◌}
use testkube.Triggers.Service.{Statuses, add_trigger, update_trigger, remove_trigger}
use testkube.Triggers.Handlers
use testkube.Triggers.Handlers.{Any, Callback, added, updated, deleted, Call}

module _ {S L : Type 0} where
  unfoldable pub test_trigger_event_handler : Callback S L → List (Call S L)
  test_trigger_event_handler (added (Any.test_trigger t)) = Call.add_trigger t ∷ []
  test_trigger_event_handler (updated old (Any.test_trigger t)) = Call.update_trigger t ∷ []
  test_trigger_event_handler (deleted (Any.test_trigger t)) = Call.remove_trigger t ∷ []
  test_trigger_event_handler _ = []

  -- `from` is `watchFromDate`.
  unfoldable pub test_suite_event_handler : ℕ → Callback S L → List (Call S L)
  test_suite_event_handler from (added (Any.test_suite o)) =
      if ltb o.creation_timestamp from then [] else Call.add_test_suite o ∷ []
  test_suite_event_handler from _ = []

  unfoldable pub test_event_handler : ℕ → Callback S L → List (Call S L)
  test_event_handler from (added (Any.test o)) =
      if ltb o.creation_timestamp from then [] else Call.add_test o ∷ []
  test_event_handler from (updated old (Any.test o)) = Call.update_test o ∷ []
  test_event_handler from _ = []

  -- What a call does to the statuses of the triggers.
  unfoldable pub run_call : Call S L → Statuses L → Statuses L
  unfolding add_trigger update_trigger remove_trigger
  run_call (Call.add_trigger t) m = add_trigger t m
  run_call (Call.update_trigger t) m = update_trigger t m
  run_call (Call.remove_trigger t) m = remove_trigger t m
  run_call _ m = m

  abbrev pub run_calls : List (Call S L) → Statuses L → Statuses L
  unfolding run_call
  run_calls [] m = m
  run_calls (c ∷ cs) m = run_calls cs (run_call c m)

  -- The callbacks of the trigger informer, in the order in which they come.
  unfoldable pub run_callbacks : List (Callback S L) → Statuses L → Statuses L
  unfolding test_trigger_event_handler
  run_callbacks [] m = m
  run_callbacks (c ∷ cs) m = run_callbacks cs (run_calls (test_trigger_event_handler c) m)
