-- ===== src/Triggers/Match/Forbid.antt =====
-- The return of match for a trigger that forbids concurrent runs (matcher.go).
use testkube.Base.{
  String, true, false, ◌≡◌, refl, ap, ◌∙◌, ◌⊎◌, inl, inr, none, some, List, [], ◌∷◌, ◌++◌, All, ok,
  insert, lookup, lookup-insert, arith, eq_refl,
}
use testkube.Triggers.Status.{TriggerStatus, has_active_tests}
use testkube.Triggers.Trigger.{TestTrigger, WatcherEvent}
use testkube.Triggers.Service.{Statuses, get_status_for_trigger, key_of}
use testkube.Triggers.Match.{
  Calls, return, is_forbid, selects, conditions_result, probes_result, run_trigger, match_body,
  match_loop,
}
use testkube.Triggers.Match.Policies.{run_forbidden}

module _ {L E : Type 0} (calls : Calls L E) (e : WatcherEvent) (m : Statuses L) where
  -- The event does not select the trigger under the key, if there is one.
  abbrev pub Unselected : String → Type 0
  Unselected key =
      (lookup key m ≡ none)
      ⊎ ((s : TriggerStatus (TestTrigger L)) × (lookup key m ≡ some s)
          × (selects calls e s.test_trigger ≡ false))

  skip-Unselected :
      (pre rest : List String)
      → All Unselected pre
      → match_loop calls e (pre ++ rest) m ≡ match_loop calls e rest m
  unfolding match_loop match_body
  skip-Unselected [] rest h = refl
  skip-Unselected (key ∷ pre) rest (inl missing, h) =
      rw (missing, match_loop) (skip-Unselected pre rest h)
  skip-Unselected (key ∷ pre) rest (inr (s, found, other), h) =
      rw (found, other, match_loop) (skip-Unselected pre rest h)

  unprobed : (t : TestTrigger L) → t.probe_spec ≡ none → probes_result calls t ≡ (t, ok true)
  unfolding probes_result
  unprobed t h = cc h

  module _ (pre post : List String) (key : String) (s : TriggerStatus (TestTrigger L))
      (unselected : All Unselected pre) (found : lookup key m ≡ some s)
      (keyed : key ≡ key_of s.test_trigger) (selected : selects calls e s.test_trigger ≡ true)
      (no_probes : s.test_trigger.probe_spec ≡ none)
      (conditions : conditions_result calls s.test_trigger ≡ ok true)
      (forbids : is_forbid s.test_trigger.concurrency_policy ≡ true)
      (busy : has_active_tests s ≡ true) where
    status_found : get_status_for_trigger s.test_trigger (insert key s m) ≡ some s
    unfolding get_status_for_trigger
    status_found = rw (← keyed, lookup-insert key key s m, eq_refl key) refl

    body_forbidden : match_body calls e key s m ≡ some (return none (insert key s m))
    unfolding match_body
    body_forbidden =
        let stops : run_trigger calls s.test_trigger (insert key s m)
            ≡ some (return none (insert key s m)) =
          run_forbidden calls e s.test_trigger (insert key s m) s status_found (ground arith) in
        let e : probes_result calls s.test_trigger ≡ (s.test_trigger, ok true) =
          unprobed s.test_trigger no_probes in
        let left : (probes_result calls s.test_trigger).0 ≡ s.test_trigger = ap (λ r. r.0) e in
        let passed : (probes_result calls s.test_trigger).1 ≡ ok true = ap (λ r. r.1) e in
        rw (selected, conditions, passed, left) stops

    -- When `match` comes to a trigger that the event selects, that forbids concurrent runs and has
    -- active tests, it returns: no trigger that it would visit later is executed, whether the event
    -- selects it or not. (The conditions of the trigger match, it has no probes, and no trigger visited
    -- before is selected.)
    pub match_loop-forbid : match_loop calls e (pre ++ key ∷ post) m ≡ some (none, insert key s m)
    unfolding match_loop
    match_loop-forbid =
        skip-Unselected pre (key ∷ post) unselected ∙ rw (found, body_forbidden, match_loop) refl
