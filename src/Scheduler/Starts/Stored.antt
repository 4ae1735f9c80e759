-- ===== src/Scheduler/Starts/Stored.antt =====
-- What executeTest hands out: no execution with the value of a secret (pkg/scheduler/test_scheduler.go).
use testkube.Base.{
  String, ◌==◌, ◌≡◌, refl, ap, ◌∙◌, ◌⊎◌, Option, some, [], Map, ok, List, All, Bool-cases,
  Option-cases, Result-cases, inl, inr, on_some,
}
use testkube.Model.Data.{Variable}
use testkube.Model.Execution.{Execution}
use testkube.Scheduler.Requests.{ExecutionRequest, ExecuteOptions}
use testkube.Scheduler.Options.{get_execute_options}
use testkube.Scheduler.Secrets.{create_secrets_references}
use testkube.Scheduler.Secrets.Masked.{Masked, create_secrets_references-Masked}
use testkube.Scheduler.Starts.{
  TestExecution, Test, Effect, inserted, start_notified, started, executed, updated,
  failure_notified, Calls, with_result, mark_started, finish, start_stored, store, numbered,
  new_execution_from_execution_options, execute_test,
}

-- What the call hands out has every secret variable masked, against the variables before.
abbrev pub Hides : Map Variable → Effect → Type 0
Hides before (inserted e) = Masked before e.variables
Hides before (start_notified e) = Masked before e.variables
Hides before (started id now) = Unit
Hides before (executed e o) = Masked before e.variables × Masked before o.request.variables
Hides before (updated e) = Masked before e.variables
Hides before (failure_notified e) = Masked before e.variables

module _ {X : Type 0} (calls : Calls X) where
  abbrev AllHide : Map Variable → Execution × List Effect → Type 0
  AllHide before r = All (Hides before) r.1

  start_stored-Hides :
      (before : Map Variable) (stored e : TestExecution) (o : ExecuteOptions)
      {r : Execution × List Effect}
      → Masked before stored.variables
      → Masked before e.variables
      → Masked before o.request.variables
      → start_stored calls stored e o ≡ some r
      → AllHide before r
  unfolding start_stored finish
  start_stored-Hides before stored e o s n q h =
      elim (Option-cases (calls.start e.execution.id e.execution.start_time)) [
        | inr (x, failed) ↦
            on_some (AllHide before) (rw (failed, start_stored) at h) (s, (n, (tt, (n, tt))))
        | inl in_time ↦
            let result = (calls.execute e o).0 in
            elim (Option-cases (calls.update_result (with_result result e))) [
              | inr (x, failed) ↦
                  on_some (AllHide before) (rw (in_time, start_stored, failed, finish) at h)
                    (s, (n, (tt, ((n, q), (n, (n, tt))))))
              | inl stored_result ↦ elim (Option-cases (calls.execute e o).1) [
                | inr (x, failed) ↦
                    on_some (AllHide before)
                      (rw (in_time, start_stored, stored_result, finish, failed) at h)
                      (s, (n, (tt, ((n, q), (n, (n, tt))))))
                | inl fine ↦ elim (Option-cases result) [
                  | inl nil ↦
                      (let bad =
                          rw (in_time, start_stored, stored_result, finish, fine, nil) at h in
                        cc)
                  | inr (x, there) ↦
                      on_some (AllHide before)
                        (rw (in_time, start_stored, stored_result, finish, fine, there) at h)
                        (s, (n, (tt, ((n, q), (n, tt)))))
                ]
              ]
            ]
      ]

  silent :
      {e : Execution} {r : Execution × List Effect}
      → ◌≡◌ {A = Option (Execution × List Effect)} (some (e, [])) (some r)
      → r.1 ≡ []
  silent h = on_some (λ r. r.1 ≡ []) h refl

  store-Hides :
      (o : ExecuteOptions) {r : Execution × List Effect}
      → store calls o ≡ some r
      → AllHide o.request.variables r
  unfolding store
  store-Hides o h =
      let fresh = new_execution_from_execution_options calls.new_id o in
      elim (Option-cases (
        create_secrets_references calls.create_secret fresh.execution.id fresh.execution.test_name
          fresh.test_namespace fresh.variables)) [
            | inl panics ↦ (let bad = rw (panics, store) at h in cc)
            | inr (hid, e) ↦
                let new = record fresh { variables = hid.0 } in
                let masked =
                  create_secrets_references-Masked calls.create_secret fresh.execution.id
                    fresh.execution.test_name fresh.test_namespace fresh.variables e in
                elim (Option-cases hid.1) [
                  | inr (x, failed) ↦
                      on_some (AllHide o.request.variables) (rw (e, store, failed) at h) tt
                  | inl created ↦ elim (Option-cases (calls.insert new)) [
                    | inr (x, failed) ↦
                        on_some (AllHide o.request.variables) (rw (e, store, created, failed) at h)
                          (masked, tt)
                    | inl stored ↦
                        start_stored-Hides o.request.variables new (mark_started calls new) _ masked
                          masked masked (rw (e, store, created, stored) at h)
                  ]
                ]
          ]

  -- Whatever the calls return, either `executeTest` stores, notifies and executes nothing, or it has
  -- found the options of the execution. In every execution that it then stores, notifies or hands to
  -- the executor, and in the options with which it calls the executor, every secret variable has a
  -- reference to a secret, and its value is empty unless the options had a variable with that key and
  -- value that came with a reference already.
  pub execute_test-Hides :
      (test : Test) (request : ExecutionRequest) {r : Execution × List Effect}
      → execute_test calls test request ≡ some r
      → (r.1 ≡ [])
        ⊎ ((uuid : String) × (o : ExecuteOptions) × (get_execute_options calls.clients
                test.namespace test.name
                (record (numbered calls test request) { test_secret_uuid = uuid })
              ≡ some (ok o))
            × All (Hides o.request.variables) r.1)
  unfolding execute_test
  execute_test-Hides test request {r} h =
      let named = numbered calls test request in
      let old = calls.by_name_and_test named.name test.name in
      elim (Bool-cases (old.name == named.name)) [
        | inl exists ↦ inl (silent (rw (exists, execute_test) at h))
        | inr fresh ↦ elim (Result-cases (calls.secret_uuid test.name)) [
          | inl (x, failed) ↦ inl (silent (rw (fresh, failed, execute_test) at h))
          | inr (uuid, got) ↦
              elim (Option-cases (
                get_execute_options calls.clients test.namespace test.name
                  (record named { test_secret_uuid = uuid }))) [
                    | inl panics ↦ (let bad = rw (fresh, got, panics, execute_test) at h in cc)
                    | inr (options, e) ↦ elim (Result-cases options) [
                      | inl (x, failed) ↦
                          inl (silent (rw (fresh, got, e, failed, execute_test) at h))
                      | inr (o, fine) ↦
                          let found = e ∙ ap some fine in
                          let run : store calls o ≡ some r =
                            rw (fresh, got, e, fine, execute_test) at h in
                          inr (uuid, o, found, store-Hides o run)
                    ]
                  ]
        ]
      ]
