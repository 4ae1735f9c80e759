-- ===== src/WorkerPool.antt =====
-- pkg/workerpool/service.go: a pool of workers between two channels, as a relation of steps.
pub mod Conserves
pub mod Invariant
pub mod Progress
pub mod Bounds
mod Tests
use testkube.Base.{
  ℕ, zero, suc, ◌<◌, ◌≡◌, Bool, true, false, Option, none, some, List, [], ◌∷◌, ◌++◌, length,
  Result, ok, err,
}

-- `Response`; `E` is the type of the executions and `X` that of the errors.
pub record Response (E X : Type 0) : Type 0 where
  pub result : E
  pub err : Option X

-- A worker waits in its `select`, has taken a request and is going to send the response, or has
-- returned.
pub data Worker (R : Type 0) : Type 0 where
  idle : Worker R
  busy : R → Worker R
  stopped : Worker R

-- The channels of a `Service`, what `SendRequests` has still to send, the goroutines of `Run`, and what
-- the loop over `GetResponses()` has received. `cancelled` is the context.
pub record Pool (R P : Type 0) : Type 0 where
  pub concurrency_level : ℕ
  pub unsent : List R
  pub requests : List R
  pub requests_closed : Bool
  pub workers : List (Worker R)
  pub cancelled : Bool
  pub responses : List P
  pub responses_closed : Bool
  pub received : List P

module _ {R E X : Type 0} (exec_fn : R → Result X E) (nothing : E) where
  -- `request.execute(ctx)`; `nothing` is the zero value of `E`.
  unfoldable pub execute : R → Response E X
  execute r = elim (exec_fn r) [
    | ok e ↦ record { result = e; err = none }
    | Result.err x ↦ record { result = nothing; err = some x }
  ]

module _ {R : Type 0} where
  -- The `n` workers that `Run` starts. Go's level is an int: one below 0, which panics in `make(chan)`,
  -- is not in the model.
  unfoldable pub start_workers : ℕ → List (Worker R)
  start_workers zero = []
  start_workers (suc n) = idle ∷ start_workers n

  abbrev pub AllStopped : List (Worker R) → Type 0
  AllStopped [] = Unit
  AllStopped (w ∷ ws) = (w ≡ stopped) × AllStopped ws

module _ {R P : Type 0} where
  -- `New`, with the requests that `SendRequests` is called with.
  unfoldable pub new : ℕ → List R → Pool R P
  unfolding start_workers
  new n work = record {
    concurrency_level = n;
    unsent = work;
    requests = [];
    requests_closed = false;
    workers = start_workers n;
    cancelled = false;
    responses = [];
    responses_closed = false;
    received = [];
  }

  module _ (execute : R → P) where
    -- One step of one goroutine. A channel takes a value while it holds less than its capacity; a
    -- worker that waits takes a request, returns when the channel is closed and empty, or returns when
    -- the context is done; a worker that holds a request executes it and sends the response.
    pub data Step (s : Pool R P) : Pool R P → Type 0 where
      send_request :
          (r : R) (rest : List R)
          → s.unsent ≡ r ∷ rest
          → length s.requests < s.concurrency_level
          → Step s (record s { unsent = rest; requests = s.requests ++ r ∷ [] })
      close_requests :
          s.unsent ≡ [] → s.requests_closed ≡ false → Step s (record s { requests_closed = true })
      take_request :
          (r : R) (rest : List R) (before after : List (Worker R))
          → s.requests ≡ r ∷ rest
          → s.workers ≡ before ++ idle ∷ after
          → Step s (record s { requests = rest; workers = before ++ busy r ∷ after })
      stop_closed :
          (before after : List (Worker R))
          → s.requests ≡ []
          → s.requests_closed ≡ true
          → s.workers ≡ before ++ idle ∷ after
          → Step s (record s { workers = before ++ stopped ∷ after })
      stop_cancelled :
          (before after : List (Worker R))
          → s.cancelled ≡ true
          → s.workers ≡ before ++ idle ∷ after
          → Step s (record s { workers = before ++ stopped ∷ after })
      send_response :
          (r : R) (before after : List (Worker R))
          → s.workers ≡ before ++ busy r ∷ after
          → length s.responses < s.concurrency_level
          → Step s (record s {
            workers = before ++ idle ∷ after;
            responses = s.responses ++ execute r ∷ [];
          })
      close_responses :
          AllStopped s.workers
          → s.responses_closed ≡ false
          → Step s (record s { responses_closed = true })
      receive :
          (p : P) (rest : List P)
          → s.responses ≡ p ∷ rest
          → Step s (record s { responses = rest; received = s.received ++ p ∷ [] })
      cancel : s.cancelled ≡ false → Step s (record s { cancelled = true })

    -- The states that a pool can come to.
    pub data Reach (start : Pool R P) : Pool R P → Type 0 where
      here : Reach start start
      next : {s t : Pool R P} → Reach start s → Step s t → Reach start t
