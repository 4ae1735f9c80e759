-- ===== src/WorkerPool/Bounds.antt =====
-- How much a worker pool holds at a time, and that it never sends on a closed channel
-- (pkg/workerpool/service.go).
use testkube.Base.{ℕ, ◌≤◌, ◌≡◌, true, List, [], ◌∷◌, length, arith}
use testkube.WorkerPool.{Pool, Worker, idle, busy, stopped, new, Reach}
use testkube.WorkerPool.Conserves.{carried}
use testkube.WorkerPool.Invariant.{Reach-Inv}
use testkube.WorkerPool.Progress.{carried-AllStopped}

module _ {R P : Type 0} (execute : R → P) where
  length-carried : (ws : List (Worker R)) → length (carried execute ws) ≤ length ws
  length-carried [] = omega arith
  length-carried (idle ∷ ws) = omega (arith, length-carried ws)
  length-carried (busy r ∷ ws) = omega (arith, length-carried ws)
  length-carried (stopped ∷ ws) = omega (arith, length-carried ws)

  -- In every state of a pool with concurrency level n, at most n requests are being executed, neither
  -- channel holds more than n values, nothing is left to send once the channel of requests is closed,
  -- and no worker holds a request once the channel of responses is closed.
  pub Reach-bounds :
      (n : ℕ) (work : List R) {s : Pool R P}
      → Reach execute (new n work) s
      → (length (carried execute s.workers) ≤ n)
        × (length s.requests ≤ n)
        × (length s.responses ≤ n)
        × (s.requests_closed ≡ true → s.unsent ≡ [])
        × (s.responses_closed ≡ true → carried execute s.workers ≡ [])
  Reach-bounds n work {s} r =
      let v = Reach-Inv execute n work r in
      (
        omega (arith, length-carried s.workers, v.all_workers),
        v.requests_fit,
        v.responses_fit,
        v.all_sent,
        λ c. carried-AllStopped execute s.workers (v.all_stopped c),
      )
