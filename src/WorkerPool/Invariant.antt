-- ===== src/WorkerPool/Invariant.antt =====
-- What holds in every state of a worker pool (pkg/workerpool/service.go).
use testkube.Base.{
  ℕ, zero, suc, ◌≤◌, ◌≡◌, refl, ap, true, false, List, [], ◌∷◌, ◌++◌, length, length-append, arith,
  ◌⊎◌, inl, inr,
}
use testkube.WorkerPool.{
  Pool, Worker, idle, busy, stopped, AllStopped, start_workers, new, Step, send_request,
  close_requests, take_request, stop_closed, stop_cancelled, send_response, close_responses,
  receive, cancel, Reach, here, next,
}

module _ {R : Type 0} where
  -- None of the workers has returned.
  abbrev pub NoneStopped : List (Worker R) → Type 0
  NoneStopped [] = Unit
  NoneStopped (idle ∷ ws) = NoneStopped ws
  NoneStopped (busy r ∷ ws) = NoneStopped ws
  NoneStopped (stopped ∷ ws) = ⊥

  take-NoneStopped :
      (r : R) (before after : List (Worker R))
      → NoneStopped (before ++ idle ∷ after)
      → NoneStopped (before ++ busy r ∷ after)
  take-NoneStopped r [] after h = h
  take-NoneStopped r (idle ∷ before) after h = take-NoneStopped r before after h
  take-NoneStopped r (busy q ∷ before) after h = take-NoneStopped r before after h
  take-NoneStopped r (stopped ∷ before) after h = elim h [ ]

  send-NoneStopped :
      (r : R) (before after : List (Worker R))
      → NoneStopped (before ++ busy r ∷ after)
      → NoneStopped (before ++ idle ∷ after)
  send-NoneStopped r [] after h = h
  send-NoneStopped r (idle ∷ before) after h = send-NoneStopped r before after h
  send-NoneStopped r (busy q ∷ before) after h = send-NoneStopped r before after h
  send-NoneStopped r (stopped ∷ before) after h = elim h [ ]

  -- A worker that has not returned stands among workers that have all returned: impossible.
  pub AllStopped-idle : (before after : List (Worker R)) → AllStopped (before ++ idle ∷ after) → ⊥
  AllStopped-idle [] after h = let e = h.0 in cc
  AllStopped-idle (w ∷ before) after h = AllStopped-idle before after h.1

  pub AllStopped-busy :
      (r : R) (before after : List (Worker R)) → AllStopped (before ++ busy r ∷ after) → ⊥
  AllStopped-busy r [] after h = let e = h.0 in cc
  AllStopped-busy r (w ∷ before) after h = AllStopped-busy r before after h.1

NoneStopped-start : (R : Type 0) (n : ℕ) → NoneStopped (start_workers {R = R} n)
unfolding start_workers
NoneStopped-start R zero = tt
NoneStopped-start R (suc n) = NoneStopped-start R n

length-start : (R : Type 0) (n : ℕ) → length (start_workers {R = R} n) ≡ n
unfolding start_workers
length-start R zero = refl
length-start R (suc n) = ap suc (length-start R n)

module _ {R P : Type 0} (n : ℕ) where
  pub record Inv (s : Pool R P) : Type 0 where
    pub level : s.concurrency_level ≡ n
    pub requests_fit : length s.requests ≤ n
    pub responses_fit : length s.responses ≤ n
    pub all_workers : length s.workers ≡ n
    pub all_sent : s.requests_closed ≡ true → s.unsent ≡ []
    pub all_stopped : s.responses_closed ≡ true → AllStopped s.workers
    pub none_stopped :
        s.cancelled ≡ false
        → NoneStopped s.workers ⊎ ((s.requests ≡ []) × (s.requests_closed ≡ true))

  new-Inv : (work : List R) → Inv (new n work)
  unfolding new
  new-Inv work = record {
    level = refl;
    requests_fit = omega arith;
    responses_fit = omega arith;
    all_workers = length-start R n;
    all_sent = λ e. cc;
    all_stopped = λ e. absurd (ground arith);
    none_stopped = λ _. inl (NoneStopped-start R n);
  }

same-length :
    {A : Type 0} {n : ℕ} {l : List A} (x y : A) (xs ys : List A)
    → l ≡ xs ++ x ∷ ys
    → length l ≡ n
    → length (xs ++ y ∷ ys) ≡ n
same-length x y xs ys e h =
    let l = ap length e in omega (arith, l, h, length-append xs (x ∷ ys), length-append xs (y ∷ ys))

module _ {R P : Type 0} {n : ℕ} where
  stop-Inv :
      (s : Pool R P) (before after : List (Worker R))
      → s.workers ≡ before ++ idle ∷ after
      → Inv n s
      → (s.cancelled ≡ false
          → NoneStopped (before ++ stopped ∷ after)
            ⊎ ((s.requests ≡ []) × (s.requests_closed ≡ true)))
      → Inv n (record s { workers = before ++ stopped ∷ after })
  stop-Inv s before after w v why = record {
    level = v.level;
    requests_fit = v.requests_fit;
    responses_fit = v.responses_fit;
    all_workers = same-length idle stopped before after w v.all_workers;
    all_sent = v.all_sent;
    all_stopped = λ c. absurd (AllStopped-idle before after (rw w at (v.all_stopped c)));
    none_stopped = why;
  }

module _ {R P : Type 0} (execute : R → P) (n : ℕ) where
  Step-Inv : {s t : Pool R P} → Step execute s t → Inv n s → Inv n t
  Step-Inv {s} (send_request r rest e full) v = record {
    level = v.level;
    requests_fit = omega (arith, length-append s.requests (r ∷ []), v.level);
    responses_fit = v.responses_fit;
    all_workers = v.all_workers;
    all_sent = λ c. let none = v.all_sent c in absurd (ground arith);
    all_stopped = v.all_stopped;
    none_stopped = λ c. elim (v.none_stopped c) [
      | inl running ↦ inl running
      | inr closed ↦ let none = v.all_sent closed.1 in absurd (ground arith)
    ];
  }
  Step-Inv {s} (close_requests e open_still) v = record {
    level = v.level;
    requests_fit = v.requests_fit;
    responses_fit = v.responses_fit;
    all_workers = v.all_workers;
    all_sent = λ _. e;
    all_stopped = v.all_stopped;
    none_stopped = λ c. elim (v.none_stopped c) [
      | inl running ↦ inl running
      | inr closed ↦ inr (closed.0, refl)
    ];
  }
  Step-Inv {s} (take_request r rest before after e w) v = record {
    level = v.level;
    requests_fit = let l = ap length e in omega (arith, l, v.requests_fit);
    responses_fit = v.responses_fit;
    all_workers = same-length idle (busy r) before after w v.all_workers;
    all_sent = v.all_sent;
    all_stopped = λ c. absurd (AllStopped-idle before after (rw w at (v.all_stopped c)));
    none_stopped = λ c. elim (v.none_stopped c) [
      | inl running ↦ inl (take-NoneStopped r before after (rw w at running))
      | inr closed ↦ absurd (let none = closed.0 in ground arith)
    ];
  }
  Step-Inv {s} (stop_closed before after e c w) v = stop-Inv s before after w v (λ _. inr (e, c))
  Step-Inv {s} (stop_cancelled before after c w) v =
      stop-Inv s before after w v (λ f. absurd (ground arith))
  Step-Inv {s} (send_response r before after w full) v = record {
    level = v.level;
    requests_fit = v.requests_fit;
    responses_fit = omega (arith, length-append s.responses (execute r ∷ []), v.level);
    all_workers = same-length (busy r) idle before after w v.all_workers;
    all_sent = v.all_sent;
    all_stopped = λ c. absurd (AllStopped-busy r before after (rw w at (v.all_stopped c)));
    none_stopped = λ c. elim (v.none_stopped c) [
      | inl running ↦ inl (send-NoneStopped r before after (rw w at running))
      | inr closed ↦ inr closed
    ];
  }
  Step-Inv {s} (close_responses all open_still) v = record {
    level = v.level;
    requests_fit = v.requests_fit;
    responses_fit = v.responses_fit;
    all_workers = v.all_workers;
    all_sent = v.all_sent;
    all_stopped = λ _. all;
    none_stopped = v.none_stopped;
  }
  Step-Inv {s} (receive p rest e) v = record {
    level = v.level;
    requests_fit = v.requests_fit;
    responses_fit = let l = ap length e in omega (arith, l, v.responses_fit);
    all_workers = v.all_workers;
    all_sent = v.all_sent;
    all_stopped = v.all_stopped;
    none_stopped = v.none_stopped;
  }
  Step-Inv {s} (cancel c) v = record {
    level = v.level;
    requests_fit = v.requests_fit;
    responses_fit = v.responses_fit;
    all_workers = v.all_workers;
    all_sent = v.all_sent;
    all_stopped = v.all_stopped;
    none_stopped = λ f. absurd (ground arith);
  }

  pub Reach-Inv : (work : List R) {s : Pool R P} → Reach execute (new n work) s → Inv n s
  Reach-Inv work here = new-Inv n work
  Reach-Inv work (next r st) = Step-Inv st (Reach-Inv work r)
