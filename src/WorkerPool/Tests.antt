-- ===== src/WorkerPool/Tests.antt =====
-- The theorems on the worker pool, at a pool of one worker with one request.
use mathlib.Core.List.{Perm}
use testkube.Base.{
  ℕ, String, ◌+◌, ◌*◌, ◌≤◌, ◌≡◌, refl, true, false, List, [], ◌∷◌, length, map, arith, ◌⊎◌, Result,
  ok,
}
use testkube.WorkerPool.{
  Pool, Response, execute, new, send_request, close_requests, take_request, stop_closed,
  send_response, stopped, start_workers, close_responses, receive, Reach, here, next,
}
use testkube.WorkerPool.Conserves.{contents, carried, Reach-contents}
use testkube.WorkerPool.Progress.{steps, Ended, CanStep, Reach-terminates, Ended-received}
use testkube.WorkerPool.Bounds.{Reach-bounds}

abbrev run_test : ℕ → Result String String
run_test n = ok "passed"

abbrev respond : ℕ → Response String String
respond n = execute run_test "" n

abbrev one_request : List ℕ
one_request = 7 ∷ []

abbrev last_state : Pool ℕ (Response String String)
last_state = record {
  concurrency_level = 1;
  unsent = [];
  requests = [];
  requests_closed = true;
  workers = stopped ∷ [];
  cancelled = false;
  responses = [];
  responses_closed = true;
  received = respond 7 ∷ [];
}

whole_run : Reach respond (new 1 one_request) last_state
unfolding new start_workers
whole_run =
    next
      (next
        (next
          (next
            (next
              (next (next here (send_request 7 [] refl (omega arith))) (close_requests refl refl))
              (take_request 7 [] [] [] refl refl))
            (send_response 7 [] [] refl (omega arith)))
          (receive (respond 7) [] refl))
        (stop_closed [] [] refl refl refl))
      (close_responses (refl, tt) refl)

Reach-contents_example : Perm (contents respond last_state) (map respond one_request)
Reach-contents_example = Reach-contents respond 1 one_request whole_run

Reach-terminates_example :
    (steps respond whole_run ≤ 4 * length one_request + 1 + 3)
    × (Ended last_state ⊎ CanStep respond last_state)
Reach-terminates_example = Reach-terminates respond 1 one_request whole_run

Ended-received_example : Perm last_state.received (map respond one_request)
Ended-received_example =
    Ended-received respond 1 one_request (omega arith) whole_run (refl, refl) refl

Reach-bounds_example :
    (length (carried respond last_state.workers) ≤ 1)
    × (length last_state.requests ≤ 1)
    × (length last_state.responses ≤ 1)
    × (last_state.requests_closed ≡ true → last_state.unsent ≡ [])
    × (last_state.responses_closed ≡ true → carried respond last_state.workers ≡ [])
Reach-bounds_example = Reach-bounds respond 1 one_request whole_run
