-- ===== src/Scheduler/Starts/Outcomes.antt =====
-- How executeTest ends, and which events it has sent then (pkg/scheduler/test_scheduler.go).
use testkube.Base.{
  ℕ, suc, String, ◌==◌, ◌≡◌, refl, ap, ◌⊎◌, inl, inr, none, some, List, [], ◌∷◌, Bool-cases,
  Option-cases, Result-cases, on_some,
}
use testkube.Model.Status.{ExecutionStatus}
use testkube.Model.ExecutionResult.{ExecutionResult}
use testkube.Model.Execution.{Execution}
use testkube.Scheduler.Requests.{ExecutionRequest, ExecuteOptions}
use testkube.Scheduler.Options.{get_execute_options}
use testkube.Scheduler.Secrets.{create_secrets_references}
use testkube.Scheduler.Starts.{
  TestExecution, Test, Effect, inserted, start_notified, started, executed, updated,
  failure_notified, Calls, fail, with_result, finish, start_stored, store, numbered,
  new_execution_from_execution_options, execute_test,
}

abbrev pub starts : List Effect → ℕ
starts [] = 0
starts (start_notified e ∷ l) = suc (starts l)
starts (inserted e ∷ l) = starts l
starts (started id t ∷ l) = starts l
starts (executed e o ∷ l) = starts l
starts (updated e ∷ l) = starts l
starts (failure_notified e ∷ l) = starts l

abbrev pub failures : List Effect → ℕ
failures [] = 0
failures (failure_notified e ∷ l) = suc (failures l)
failures (inserted e ∷ l) = failures l
failures (start_notified e ∷ l) = failures l
failures (started id t ∷ l) = failures l
failures (executed e o ∷ l) = failures l
failures (updated e ∷ l) = failures l

abbrev pub runs : List Effect → ℕ
runs [] = 0
runs (executed e o ∷ l) = suc (runs l)
runs (inserted e ∷ l) = runs l
runs (start_notified e ∷ l) = runs l
runs (started id t ∷ l) = runs l
runs (updated e ∷ l) = runs l
runs (failure_notified e ∷ l) = runs l

abbrev pub IsFailed : Execution → Type 0
IsFailed e =
    (r : ExecutionResult) × (e.execution_result ≡ some r) × (r.status ≡ some ExecutionStatus.failed)

module _ {X : Type 0} (calls : Calls X) where
  -- Before the start: no event, the executor is not called.
  abbrev pub Refused : Execution × List Effect → Type 0
  Refused (e, l) = IsFailed e × (starts l ≡ 0) × (failures l ≡ 0) × (runs l ≡ 0)

  -- The start and the failure are notified.
  abbrev pub Broken : Execution × List Effect → Type 0
  Broken (e, l) = IsFailed e × (starts l ≡ 1) × (failures l ≡ 1)

  -- The start is notified, and the executor's result is stored and returned.
  abbrev pub Ran : Execution × List Effect → Type 0
  Ran (e, l) =
      ((x : TestExecution) × (o : ExecuteOptions) × (r : ExecutionResult) × (calls.execute x o
          ≡ (some r, none))
        × (calls.update_result (with_result (some r) x) ≡ none)
        × (e ≡ (with_result (some r) x).execution))
      × (starts l ≡ 1)
      × (failures l ≡ 0)
      × (runs l ≡ 1)

  abbrev pub Ends : Execution × List Effect → Type 0
  Ends r = Refused r ⊎ (Broken r ⊎ Ran r)

  fail-IsFailed : (message : String) (x : X) (e : TestExecution) → IsFailed (fail calls message x e)
  fail-IsFailed message x e = (_, refl, refl)

  start_stored-Ends :
      (stored e : TestExecution) (o : ExecuteOptions) {r : Execution × List Effect}
      → start_stored calls stored e o ≡ some r
      → Broken r ⊎ Ran r
  unfolding start_stored finish
  start_stored-Ends stored e o h =
      elim (Option-cases (calls.start e.execution.id e.execution.start_time)) [
        | inr (x, failed) ↦
            on_some (λ r. Broken r ⊎ Ran r) (rw (failed, start_stored) at h)
              (inl (fail-IsFailed _ x e, refl, refl))
        | inl in_time ↦
            let result = (calls.execute e o).0 in
            let error = (calls.execute e o).1 in
            elim (Option-cases (calls.update_result (with_result result e))) [
              | inr (x, failed) ↦
                  on_some (λ r. Broken r ⊎ Ran r) (rw (in_time, start_stored, failed, finish) at h)
                    (inl (fail-IsFailed _ x (with_result result e), refl, refl))
              | inl stored_result ↦ elim (Option-cases error) [
                | inr (x, failed) ↦
                    on_some (λ r. Broken r ⊎ Ran r)
                      (rw (in_time, start_stored, stored_result, finish, failed) at h)
                      (inl (fail-IsFailed _ x (with_result result e), refl, refl))
                | inl fine ↦ elim (Option-cases result) [
                  | inl nil ↦
                      (let bad =
                          rw (in_time, start_stored, stored_result, finish, fine, nil) at h in
                        cc)
                  | inr (x, there) ↦
                      on_some (λ r. Broken r ⊎ Ran r)
                        (rw (in_time, start_stored, stored_result, finish, fine, there) at h)
                        (inr (
                          (
                            e,
                            o,
                            x,
                            λ i. (there i, fine i),
                            rw there at stored_result,
                            ap (λ r. (with_result r e).execution) there,
                          ),
                          refl,
                          refl,
                          refl,
                        ))
                ]
              ]
            ]
      ]

  store-Ends : (o : ExecuteOptions) {r : Execution × List Effect} → store calls o ≡ some r → Ends r
  unfolding store
  store-Ends o h =
      let fresh = new_execution_from_execution_options calls.new_id o in
      elim (Option-cases (
        create_secrets_references calls.create_secret fresh.execution.id fresh.execution.test_name
          fresh.test_namespace fresh.variables)) [
            | inl panics ↦ (let bad = rw (panics, store) at h in cc)
            | inr (hid, e) ↦
                let new = record fresh { variables = hid.0 } in
                elim (Option-cases hid.1) [
                  | inr (x, failed) ↦
                      on_some Ends (rw (e, store, failed) at h)
                        (inl (fail-IsFailed _ x new, refl, refl, refl))
                  | inl created ↦ elim (Option-cases (calls.insert new)) [
                    | inr (x, failed) ↦
                        on_some Ends (rw (e, store, created, failed) at h)
                          (inl (fail-IsFailed _ x new, refl, refl, refl))
                    | inl stored ↦
                        inr (start_stored-Ends new _ _ (rw (e, store, created, stored) at h))
                  ]
                ]
          ]

  -- Every call of `executeTest` that does not panic ends in one of three ways. Either no event is sent,
  -- the executor is not called, and the execution that is returned has failed; or the start and the
  -- failure are each notified once, and the execution has failed; or the start is notified once and no
  -- failure, the executor is called once, and its result is stored and returned.
  pub execute_test-Ends :
      (test : Test) (request : ExecutionRequest) {r : Execution × List Effect}
      → execute_test calls test request ≡ some r
      → Ends r
  unfolding execute_test
  execute_test-Ends test request h =
      let named = numbered calls test request in
      let old = calls.by_name_and_test named.name test.name in
      elim (Bool-cases (old.name == named.name)) [
        | inl exists ↦
            on_some Ends (rw (exists, execute_test) at h) (inl ((_, refl, refl), refl, refl, refl))
        | inr fresh ↦ elim (Result-cases (calls.secret_uuid test.name)) [
          | inl (x, failed) ↦
              on_some Ends (rw (fresh, failed, execute_test) at h)
                (inl ((_, refl, refl), refl, refl, refl))
          | inr (uuid, got) ↦
              elim (Option-cases (
                get_execute_options calls.clients test.namespace test.name
                  (record named { test_secret_uuid = uuid }))) [
                    | inl panics ↦ (let bad = rw (fresh, got, panics, execute_test) at h in cc)
                    | inr (options, e) ↦ elim (Result-cases options) [
                      | inl (x, failed) ↦
                          on_some Ends (rw (fresh, got, e, failed, execute_test) at h)
                            (inl ((_, refl, refl), refl, refl, refl))
                      | inr (o, fine) ↦ store-Ends o (rw (fresh, got, e, fine, execute_test) at h)
                    ]
                  ]
        ]
      ]
