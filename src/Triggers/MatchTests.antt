-- ===== src/Triggers/MatchTests.antt =====
-- The theorems on the matcher, at a concrete event and trigger.
use testkube.Base.{
  ℕ, String, true, ◌≡◌, refl, sym, ap, ◌∙◌, ◌↔◌, Option, none, some, List, map, [], ◌∷◌, lookup,
  insert, arith, is_empty, Bool-cases, Option-cases, inl, inr, Result, ok,
}
use testkube.Triggers.Status.{TriggerStatus, new_trigger_status}
use testkube.Triggers.Trigger.{
  TestTrigger, Selector, ConcurrencyPolicy, WatcherEvent, Condition, ConditionSpec, Probe,
  ProbeSpec,
}
use testkube.Triggers.Service.{Statuses, key_of, get_status_for_trigger}
use testkube.Triggers.Service.Keys.{IsKeyed, insert-IsKeyed, lookup-IsKeyed}
use testkube.Triggers.Matcher.{match_conditions, match_event_or_cause, match_selector}
use testkube.Triggers.Matcher.Conditions.{MatchesIn, match_conditions-eq-true_iff}
use testkube.Triggers.Probes.{Client, match_probes}
use testkube.Triggers.Probes.Rounds.{
  hosts_at, Succeeds, host_of, match_probes-stale, match_probes-eq-true_iff,
}
use testkube.Triggers.Match.{Calls, selects, conditions_result, probes_result, match_loop}
use testkube.Triggers.Match.Policies.{Keeps, match_loop-Keeps}
use testkube.Triggers.Match.Forbid.{match_loop-forbid}

abbrev ready : Condition
ready = record { type = "Ready"; status = some "True"; reason = ""; ttl = 0 }

abbrev wants_ready : ConditionSpec
wants_ready = record { timeout = 0; delay = 0; conditions = ready ∷ [] }

abbrev two_rounds : List (Result String (List Condition))
two_rounds = ok [] ∷ ok (ready ∷ []) ∷ []

match_conditions-eq-true_iff_example :
    (match_conditions wants_ready two_rounds ≡ ok true) ↔ MatchesIn wants_ready two_rounds
match_conditions-eq-true_iff_example = match_conditions-eq-true_iff wants_ready two_rounds

abbrev port_text : ℕ → String
port_text n = "8080"

abbrev root_probe : Probe
root_probe = record { scheme = ""; host = ""; port = 0; path = ""; headers = [] }

abbrev probes : ProbeSpec
probes = record { timeout = 0; delay = 0; probes = root_probe ∷ [] }

abbrev answers : Client
answers request = some 200

abbrev address : Option (Result String String)
address = some (ok "10.0.0.1")

match_probes-stale_example :
    let first =
      (match_probes port_text {E = String} probes (some (ok "10.0.0.1")) (answers ∷ [])).0 in
    (map (λ p. p.host) first.probes ≡ hosts_at "10.0.0.1" probes.probes)
    × (match_probes port_text {E = String} first (some (ok "10.0.0.2")) (answers ∷ [])
        ≡ match_probes port_text {E = String} first (some (ok "10.0.0.1")) (answers ∷ []))
match_probes-stale_example =
    match_probes-stale port_text probes "10.0.0.1" "10.0.0.2" (answers ∷ []) (answers ∷ []) refl

match_probes-eq-true_iff_example :
    ((match_probes port_text probes address (answers ∷ [])).1 ≡ ok true)
    ↔ Succeeds port_text probes.probes (answers ∷ []) (host_of port_text address)
match_probes-eq-true_iff_example = match_probes-eq-true_iff port_text probes address (answers ∷ [])

-- A library that matches nothing by pattern or label, an executor that does nothing, and an abort that
-- takes all tests off.
abbrev calls : Calls String String
calls = record {
  lib = record { compile = λ _. none; as_selector = λ _. none; valid = λ _. true };
  show = port_text;
  conditions = λ _. none;
  address = none;
  clients = λ _. [];
  abort = λ s. some (record s { test_execution_ids = [] });
  execute = λ t m. (m, none);
}

abbrev event : WatcherEvent
event = record {
  resource = "deployment";
  name = "app";
  namespace = "n";
  labels = [];
  event_type = "modified";
  causes = [];
}

abbrev app_selector : Selector String
app_selector = record { name = "app"; name_regex = ""; namespace = ""; label_selector = none }

abbrev trigger : TestTrigger String
trigger = record {
  name = "t";
  namespace = "n";
  resource = "deployment";
  event = "modified";
  resource_selector = app_selector;
  condition_spec = none;
  probe_spec = none;
  execution = "test";
  test_selector = app_selector;
  concurrency_policy = ConcurrencyPolicy.forbid;
}

abbrev busy_status : TriggerStatus (TestTrigger String)
busy_status = record (new_trigger_status trigger) { test_execution_ids = "e1" ∷ [] }

-- The trigger forbids concurrent runs and has a test; a second trigger would run.
abbrev free_trigger : TestTrigger String
free_trigger = record trigger { name = "u" }

abbrev statuses : Statuses String
statuses = ("n/t", busy_status) ∷ ("n/u", new_trigger_status free_trigger) ∷ []

trigger_selected : selects calls event trigger ≡ true
unfolding selects match_event_or_cause match_selector
trigger_selected = refl

trigger_found : lookup "n/t" statuses ≡ some busy_status
unfolding lookup
trigger_found = refl

trigger_keyed : "n/t" ≡ key_of trigger
unfolding key_of
trigger_keyed = refl

trigger_conditions : conditions_result calls trigger ≡ ok true
unfolding conditions_result
trigger_conditions = refl

match_stops :
    match_loop calls event ("n/t" ∷ "n/u" ∷ []) statuses
    ≡ some (none, insert "n/t" busy_status statuses)
match_stops =
    match_loop-forbid calls event statuses [] ("n/u" ∷ []) "n/t" busy_status tt trigger_found
      trigger_keyed trigger_selected refl trigger_conditions refl refl

match_loop-forbid_example :
    match_loop calls event ("n/t" ∷ "n/u" ∷ []) statuses
    ≡ some (none, insert "n/t" busy_status statuses)
match_loop-forbid_example =
    match_loop-forbid calls event statuses [] ("n/u" ∷ []) "n/t" busy_status tt trigger_found
      trigger_keyed trigger_selected refl trigger_conditions refl refl

probes_result-key : (t : TestTrigger String) → key_of (probes_result calls t).0 ≡ key_of t
unfolding probes_result key_of
probes_result-key t = elim (Option-cases t.probe_spec) [
  | inl no_probes ↦ rw no_probes refl
  | inr (spec, there) ↦ elim (Bool-cases (is_empty spec.probes)) [
    | inl empty ↦ rw (there, empty) refl
    | inr some_left ↦ rw (there, some_left) refl
  ]
]

keeps_IsKeyed : Keeps calls event IsKeyed
unfolding get_status_for_trigger
keeps_IsKeyed = record {
  refills = λ key s m found keyed.
      let t = (probes_result calls s.test_trigger).0 in
      insert-IsKeyed (record s { test_trigger = t }) key m
        (lookup-IsKeyed key s m keyed found ∙ sym (probes_result-key s.test_trigger)) keyed;
  aborts = λ t s s' m found replaces done keyed.
      let same : s.test_trigger ≡ s'.test_trigger = ground arith in
      insert-IsKeyed s' (key_of t) m (lookup-IsKeyed (key_of t) s m keyed found ∙ ap key_of same)
        keyed;
  executes = λ t m allowed keyed. keyed;
}

statuses-IsKeyed : IsKeyed statuses
unfolding key_of
statuses-IsKeyed = (refl, (refl, tt), (refl, tt, tt))

match_loop-Keeps_example : IsKeyed (insert "n/t" busy_status statuses)
match_loop-Keeps_example =
    match_loop-Keeps calls event IsKeyed keeps_IsKeyed ("n/t" ∷ "n/u" ∷ []) statuses
      (insert "n/t" busy_status statuses) none statuses-IsKeyed match_stops
