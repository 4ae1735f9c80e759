-- ===== src/Triggers/Match.antt =====
-- pkg/triggers/matcher.go, match: the loop over the triggers for one event.
pub mod Policies
pub mod Forbid
use testkube.Base.{
  ℕ, String, Bool, true, false, ◌&&◌, ◌||◌, not, ◌==◌, Option, none, some, List, [], ◌∷◌, Map,
  Result, ok, err, is_empty, insert, lookup, if◌then◌else◌, ◌>>=◌,
}
use testkube.Triggers.Status.{TriggerStatus, has_active_tests}
use testkube.Triggers.Trigger.{
  Selector, Condition, ConditionSpec, Probe, ProbeSpec, ConcurrencyPolicy, TestTrigger,
  WatcherEvent,
}
use testkube.Triggers.Service.{Statuses, get_status_for_trigger, key_of}
use testkube.Triggers.Matcher.{
  Selectors, MatchError, failed, match_event_or_cause, match_selector, match_conditions,
}
use testkube.Triggers.Probes.{Client, match_probes}

-- What `match` calls, for one event.
pub record Calls (L E : Type 0) : Type 0 where
  pub lib : Selectors L
  pub show : ℕ → String
  pub conditions : TestTrigger L → Option (List (Result E (List Condition)))  -- the rounds of `conditionsGetter`
  pub address : Option (Result E String)  -- what `addressGetter` returns
  pub clients : TestTrigger L → List Client  -- the rounds of the probes
  pub abort : TriggerStatus (TestTrigger L) → Option (TriggerStatus (TestTrigger L))  -- `abortExecutions`
  pub execute : TestTrigger L → Statuses L → Statuses L × Option E  -- `triggerExecutor`

-- What the loop does after one trigger: it goes on, or `match` returns.
pub data Next (L E : Type 0) : Type 0 where
  go_on : Statuses L → Next L E
  return : Option (MatchError E) → Statuses L → Next L E

abbrev pub is_forbid : ConcurrencyPolicy → Bool
is_forbid p = elim p [ ConcurrencyPolicy.forbid ↦ true | _ ↦ false ]

abbrev pub is_replace : ConcurrencyPolicy → Bool
is_replace p = elim p [ ConcurrencyPolicy.replace ↦ true | _ ↦ false ]

module _ {L E : Type 0} where
  -- `if err := s.triggerExecutor(ctx, t); err != nil { return err }`
  abbrev pub after_execute : Statuses L × Option E → Next L E
  after_execute r = elim r.1 [ none ↦ go_on r.0 | some x ↦ return (some (failed x)) r.0 ]

module _ {L : Type 0} where
  -- The statuses after the probes are filled in in the trigger of the status under the key.
  abbrev pub refill :
      String → TriggerStatus (TestTrigger L) → TestTrigger L → Statuses L → Statuses L
  refill key s t m = insert key (record s { test_trigger = t }) m

module _ {L E : Type 0} (calls : Calls L E) where
  unfoldable pub conditions_result : TestTrigger L → Result (MatchError E) Bool
  conditions_result t = elim t.condition_spec [
    | none ↦ ok true
    | some spec ↦ if is_empty spec.conditions then ok true else elim (calls.conditions t) [
      | none ↦ ok true
      | some rounds ↦ match_conditions spec rounds
    ]
  ]

  -- The probes are filled in in the trigger.
  unfoldable pub probes_result : TestTrigger L → TestTrigger L × Result (MatchError E) Bool
  probes_result t = elim t.probe_spec [
    | none ↦ (t, ok true)
    | some spec ↦
        if is_empty spec.probes
        then (t, ok true)
        else let r = match_probes calls.show spec calls.address (calls.clients t) in
          (record t { probe_spec = some r.0 }, r.1)
  ]

  -- The body of `if t.Spec.ConcurrencyPolicy == …Replace`.
  unfoldable pub replace_running :
      TestTrigger L → TriggerStatus (TestTrigger L) → Statuses L → Option (Statuses L)
  unfolding key_of insert
  replace_running t s m =
      if is_replace t.concurrency_policy && has_active_tests s
      then (calls.abort s >>= λ s'. some (insert (key_of t) s' m))
      else some m

  -- From the concurrency policy on; `none` is the dereference of a nil status.
  unfoldable pub run_trigger : TestTrigger L → Statuses L → Option (Next L E)
  unfolding get_status_for_trigger replace_running
  run_trigger t m = get_status_for_trigger t m >>= λ s.
      if is_forbid t.concurrency_policy && has_active_tests s
      then some (return none m)
      else (replace_running t s m >>= λ m'. some (after_execute (calls.execute t m')))

module _ {L E : Type 0} (calls : Calls L E) (e : WatcherEvent) where
  -- The three guards at the top of the loop.
  unfoldable pub selects : TestTrigger L → Bool
  selects t =
      (t.resource == e.resource)
      && match_event_or_cause t.event e
      && match_selector calls.lib t.resource_selector t.namespace e

  -- The loop's body for the status that stands under the key.
  unfoldable pub match_body :
      String → TriggerStatus (TestTrigger L) → Statuses L → Option (Next L E)
  unfolding selects conditions_result probes_result run_trigger insert
  match_body key s m =
      let t = s.test_trigger in
      if not (selects t) then some (go_on m) else elim (conditions_result calls t) [
        | err x ↦ some (return (some x) m)
        | ok false ↦ some (go_on m)
        | ok true ↦
            let r = probes_result calls t in
            let m' = refill key s r.0 m in
            elim r.1 [
              | err x ↦ some (return (some x) m')
              | ok false ↦ some (go_on m')
              | ok true ↦ run_trigger calls r.0 m'
            ]
      ]

  -- The loop: a range over the map visits the keys in some order, and a key only while it is there.
  unfoldable pub match_loop : List String → Statuses L → Option (Option (MatchError E) × Statuses L)
  unfolding match_body lookup
  match_loop [] m = some (none, m)
  match_loop (key ∷ keys) m = elim (lookup key m) [
    | none ↦ match_loop keys m
    | some s ↦ match_body key s m >>= λ next. elim next [
      | go_on m' ↦ match_loop keys m'
      | return result m' ↦ some (result, m')
    ]
  ]
