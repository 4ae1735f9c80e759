-- ===== src/Triggers/Match/Policies.antt =====
-- What the loop of match does with the statuses (matcher.go).
use testkube.Base.{
  String, Bool, true, false, ◌&&◌, ◌≡◌, ◌⊎◌, refl, sym, subst, ◌∙◌, Option, none, some, List, [],
  ◌∷◌, Result, ok, err, is_empty, insert, lookup, arith, ◌>>=◌, Bool-cases, Option-cases, inl, inr,
}
use testkube.Triggers.Status.{TriggerStatus, has_active_tests}
use testkube.Triggers.Trigger.{TestTrigger, WatcherEvent, ConcurrencyPolicy}
use testkube.Triggers.Service.{Statuses, get_status_for_trigger, key_of}
use testkube.Triggers.Matcher.{MatchError}
use testkube.Triggers.Match.{
  Calls, Next, go_on, return, is_forbid, is_replace, after_execute, refill, selects,
  conditions_result, probes_result, replace_running, run_trigger, match_body, match_loop,
}

Result-cases :
    {E : Type 0} (r : Result (MatchError E) Bool)
    → (r ≡ ok true) ⊎ ((r ≡ ok false) ⊎ ((x : MatchError E) × (r ≡ err x)))
Result-cases (ok true) = inl refl
Result-cases (ok false) = inr (inl refl)
Result-cases (err x) = inr (inr (x, refl))

module _ {L E : Type 0} where
  abbrev state_of : Next L E → Statuses L
  state_of (go_on m) = m
  state_of (return result m) = m

  state_of-after_execute : (r : Statuses L × Option E) → state_of (after_execute r) ≡ r.0
  state_of-after_execute (m, none) = refl
  state_of-after_execute (m, some x) = refl

module _ {L E : Type 0} (calls : Calls L E) (e : WatcherEvent) where
  -- The event selects the trigger, and if the trigger forbids concurrent runs, it has no active tests.
  abbrev pub Allowed : TestTrigger L → Statuses L → Type 0
  Allowed t m =
      (selects calls e t ≡ true)
      × (is_forbid t.concurrency_policy ≡ true
          → (s : TriggerStatus (TestTrigger L)) × (get_status_for_trigger t m ≡ some s)
            × (has_active_tests s ≡ false))

  -- `P` is kept by what `match` does to the statuses.
  pub record Keeps (P : Statuses L → Type 0) : Type 0 where
    pub refills :
        (key : String) (s : TriggerStatus (TestTrigger L)) (m : Statuses L)
        → lookup key m ≡ some s
        → P m
        → P (refill key s (probes_result calls s.test_trigger).0 m)
    pub aborts :
        (t : TestTrigger L) (s s' : TriggerStatus (TestTrigger L)) (m : Statuses L)
        → get_status_for_trigger t m ≡ some s
        → is_replace t.concurrency_policy ≡ true
        → calls.abort s ≡ some s'
        → P m
        → P (insert (key_of t) s' m)
    pub executes :
        (t : TestTrigger L) (m : Statuses L) → Allowed t m → P m → P (calls.execute t m).0

  module _ (t : TestTrigger L) (m : Statuses L) (s : TriggerStatus (TestTrigger L))
      (found : get_status_for_trigger t m ≡ some s) where
    pub run_forbidden :
        (is_forbid t.concurrency_policy && has_active_tests s) ≡ true
        → run_trigger calls t m ≡ some (return none m)
    unfolding run_trigger
    run_forbidden f = rw (found, f) refl

    run_plain :
        (is_forbid t.concurrency_policy && has_active_tests s) ≡ false
        → (is_replace t.concurrency_policy && has_active_tests s) ≡ false
        → run_trigger calls t m ≡ some (after_execute (calls.execute t m))
    unfolding run_trigger replace_running
    run_plain f r = rw (found, f, r) refl

    run_replaced :
        (is_forbid t.concurrency_policy && has_active_tests s) ≡ false
        → (is_replace t.concurrency_policy && has_active_tests s) ≡ true
        → run_trigger calls t m ≡ (
            calls.abort s >>= λ s'. some (after_execute (calls.execute t (insert (key_of t) s' m))))
    unfolding run_trigger replace_running
    run_replaced f r = elim (Option-cases (calls.abort s)) [
      | inl panic ↦ rw (found, f, r, panic) refl
      | inr (s', done) ↦ rw (found, f, r, done) refl
    ]

  probes_result-selects :
      (t : TestTrigger L) → selects calls e (probes_result calls t).0 ≡ selects calls e t
  unfolding selects probes_result
  probes_result-selects t = elim (Option-cases t.probe_spec) [
    | inl no_probes ↦ rw no_probes refl
    | inr (spec, probes) ↦ elim (Bool-cases (is_empty spec.probes)) [
      | inl empty ↦ rw (probes, empty) refl
      | inr some_left ↦ rw (probes, some_left) refl
    ]
  ]

  module _ (P : Statuses L → Type 0) (keeps : Keeps P) where
    -- A policy is not both.
    both : (p : ConcurrencyPolicy) → is_forbid p ≡ true → is_replace p ≡ false
    both ConcurrencyPolicy.forbid h = refl
    both ConcurrencyPolicy.replace h = absurd (ground arith)
    both ConcurrencyPolicy.other_policy h = absurd (ground arith)

    after_execute-P :
        (t : TestTrigger L) (m : Statuses L) (next : Next L E)
        → Allowed t m
        → P m
        → some (after_execute (calls.execute t m)) ≡ some next
        → P (state_of next)
    after_execute-P t m next allowed p h =
        let same : (calls.execute t m).0 ≡ state_of next =
          cc (h, state_of-after_execute (calls.execute t m)) in
        subst P same (keeps.executes t m allowed p)

    run_trigger-P :
        (t : TestTrigger L) (m : Statuses L) (next : Next L E)
        → selects calls e t ≡ true
        → run_trigger calls t m ≡ some next
        → P m
        → P (state_of next)
    unfolding run_trigger
    run_trigger-P t m next selected h p = elim (Option-cases (get_status_for_trigger t m)) [
      | inl missing ↦ absurd (ground arith)
      | inr (s, found) ↦ elim (Bool-cases (is_forbid t.concurrency_policy && has_active_tests s)) [
        | inl f ↦
            let same : m ≡ state_of next = cc (run_forbidden t m s found f, h) in subst P same p
        | inr f ↦ elim (Bool-cases (is_replace t.concurrency_policy && has_active_tests s)) [
          | inl r ↦ elim (Option-cases (calls.abort s)) [
            | inl panic ↦ absurd (ground (arith, run_replaced t m s found f r))
            | inr (s', done) ↦
                let replaces : is_replace t.concurrency_policy ≡ true = ground arith in
                let allowed : Allowed t (insert (key_of t) s' m) = (
                  selected,
                  λ forbids. absurd (ground (arith, both t.concurrency_policy forbids)),
                ) in
                after_execute-P t (insert (key_of t) s' m) next allowed
                  (keeps.aborts t s s' m found replaces done p)
                  (cc (run_replaced t m s found f r, done, h))
          ]
          | inr r ↦
              after_execute-P t m next (selected, λ forbids. (s, found, ground arith)) p
                (cc (run_plain t m s found f r, h))
        ]
      ]
    ]

    match_body-P :
        (key : String) (s : TriggerStatus (TestTrigger L)) (m : Statuses L) (next : Next L E)
        → lookup key m ≡ some s
        → match_body calls e key s m ≡ some next
        → P m
        → P (state_of next)
    unfolding match_body
    match_body-P key s m next found h p =
        let t = s.test_trigger in
        let m' = refill key s (probes_result calls t).0 m in
        let p' : P m' = keeps.refills key s m found p in
        elim (Bool-cases (selects calls e t)) [
          | inr other ↦ let same : m ≡ state_of next = ground arith in subst P same p
          | inl selected ↦ elim (Result-cases (conditions_result calls t)) [
            | inl conditions ↦ elim (Result-cases (probes_result calls t).1) [
              | inl probes ↦
                  run_trigger-P (probes_result calls t).0 m' next
                    (probes_result-selects t ∙ selected)
                    (sym (rw (selected, conditions, probes, match_body) refl) ∙ h) p'
              | inr (inl probes) ↦ let same : m' ≡ state_of next = ground arith in subst P same p'
              | inr (inr (x, probes)) ↦
                  let same : m' ≡ state_of next = ground arith in subst P same p'
            ]
            | inr (inl conditions) ↦ let same : m ≡ state_of next = ground arith in subst P same p
            | inr (inr (x, conditions)) ↦
                let same : m ≡ state_of next = ground arith in subst P same p
          ]
        ]

    -- Whatever the order in which the map is visited: `match` executes only triggers that the event
    -- selects, and a trigger that forbids concurrent runs only while it has no active tests; otherwise
    -- it fills in probes, and aborts the executions of a trigger that replaces them. So a property of
    -- the statuses that these keep holds of the statuses that it leaves.
    pub match_loop-Keeps :
        (keys : List String) (m m' : Statuses L) (result : Option (MatchError E))
        → P m
        → match_loop calls e keys m ≡ some (result, m')
        → P m'
    unfolding match_loop
    match_loop-Keeps [] m m' result p h = let same : m ≡ m' = ground arith in subst P same p
    match_loop-Keeps (key ∷ keys) m m' result p h = elim (Option-cases (lookup key m)) [
      | inl missing ↦ match_loop-Keeps keys m m' result p (rw (missing, match_loop) at h)
      | inr (s, found) ↦ elim (Option-cases (match_body calls e key s m)) [
        | inl panic ↦ absurd (ground arith)
        | inr (go_on m₁, body) ↦
            match_loop-Keeps keys m₁ m' result (match_body-P key s m (go_on m₁) found body p)
              (rw (found, body, match_loop) at h)
        | inr (return r m₁, body) ↦
            let same : m₁ ≡ m' = ground arith in
            subst P same (match_body-P key s m (return r m₁) found body p)
      ]
    ]
