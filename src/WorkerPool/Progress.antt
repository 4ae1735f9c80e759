-- ===== src/WorkerPool/Progress.antt =====
-- A worker pool ends, and what its receiver has then (pkg/workerpool/service.go).
use mathlib.Core.List.{Perm}
use testkube.Base.{
  ℕ, zero, suc, ◌+◌, ◌*◌, ◌≤◌, ◌<◌, ◌≡◌, refl, ap, Bool, true, false, List, [], ◌∷◌, ◌++◌, length,
  length-append, map, arith, ◌⊎◌, inl, inr, Bool-cases, List-cases,
}
use testkube.WorkerPool.{
  Pool, Worker, idle, busy, stopped, AllStopped, start_workers, new, Step, send_request,
  close_requests, take_request, stop_closed, stop_cancelled, send_response, close_responses,
  receive, cancel, Reach, here, next,
}
use testkube.WorkerPool.Conserves.{contents, carried, Reach-contents}
use testkube.WorkerPool.Invariant.{Inv, NoneStopped, Reach-Inv}

module _ {R : Type 0} where
  -- What a worker counts for: itself, and the two steps that the request it holds still takes.
  abbrev work_left : List (Worker R) → ℕ
  work_left [] = 0
  work_left (idle ∷ ws) = suc (work_left ws)
  work_left (busy r ∷ ws) = 3 + work_left ws
  work_left (stopped ∷ ws) = work_left ws

  work_left-append : (vs ws : List (Worker R)) → work_left (vs ++ ws) ≡ work_left vs + work_left ws
  work_left-append [] ws = omega arith
  work_left-append (idle ∷ vs) ws = omega (arith, work_left-append vs ws)
  work_left-append (busy r ∷ vs) ws = omega (arith, work_left-append vs ws)
  work_left-append (stopped ∷ vs) ws = omega (arith, work_left-append vs ws)

  -- All workers have returned, or one of them waits or holds a request.
  Active : List (Worker R) → Type 0
  Active ws =
      ((before : List (Worker R)) × (after : List (Worker R)) × (ws ≡ before ++ idle ∷ after))
      ⊎ ((r : R) × (before : List (Worker R)) × (after : List (Worker R)) × (ws
            ≡ before ++ busy r ∷ after))

  active : (ws : List (Worker R)) → AllStopped ws ⊎ Active ws
  unfolding Active
  active [] = inl tt
  active (idle ∷ ws) = inr (inl ([], ws, refl))
  active (busy r ∷ ws) = inr (inr (r, [], ws, refl))
  active (stopped ∷ ws) = elim (active ws) [
    | inl all ↦ inl (refl, all)
    | inr (inl (b, a, e)) ↦ inr (inl (stopped ∷ b, a, ap (◌∷◌ stopped) e))
    | inr (inr (r, b, a, e)) ↦ inr (inr (r, stopped ∷ b, a, ap (◌∷◌ stopped) e))
  ]

abbrev open_yet : Bool → ℕ
open_yet true = 0
open_yet false = 1

module _ {R P : Type 0} where
  -- An upper bound of the steps that are left.
  abbrev steps_left : Pool R P → ℕ
  steps_left s =
      4 * length s.unsent
      + 3 * length s.requests
      + work_left s.workers
      + length s.responses
      + open_yet s.requests_closed
      + open_yet s.responses_closed
      + open_yet s.cancelled

  -- The loop over `GetResponses()` has ended.
  abbrev pub Ended : Pool R P → Type 0
  Ended s = (s.responses_closed ≡ true) × (s.responses ≡ [])

work_left-start : (R : Type 0) (n : ℕ) → work_left (start_workers {R = R} n) ≡ n
unfolding start_workers
work_left-start R zero = refl
work_left-start R (suc n) = ap suc (work_left-start R n)

module _ {R P : Type 0} (execute : R → P) where
  swapped :
      (l : List (Worker R)) (x y : Worker R) (before after : List (Worker R))
      → l ≡ before ++ x ∷ after
      → work_left (before ++ y ∷ after) + work_left (x ∷ []) ≡ work_left l + work_left (y ∷ [])
  swapped l x y before after e =
      let whole = ap work_left e in
      omega (
        arith,
        whole,
        work_left-append before (x ∷ after),
        work_left-append before (y ∷ after),
        work_left-append (x ∷ []) after,
        work_left-append (y ∷ []) after,
      )

  Step-steps_left : {s t : Pool R P} → Step execute s t → suc (steps_left t) ≤ steps_left s
  Step-steps_left {s} (send_request r rest e full) =
      let l = ap length e in omega (arith, l, length-append s.requests (r ∷ []))
  Step-steps_left {s} (close_requests e o) = rw o (omega arith)
  Step-steps_left {s} (take_request r rest before after e w) =
      let l = ap length e in omega (arith, l, swapped s.workers idle (busy r) before after w)
  Step-steps_left {s} (stop_closed before after e c w) =
      omega (arith, swapped s.workers idle stopped before after w)
  Step-steps_left {s} (stop_cancelled before after c w) =
      omega (arith, swapped s.workers idle stopped before after w)
  Step-steps_left {s} (send_response r before after w full) = omega (
    arith,
    swapped s.workers (busy r) idle before after w,
    length-append s.responses (execute r ∷ []),
  )
  Step-steps_left {s} (close_responses all o) = rw o (omega arith)
  Step-steps_left {s} (receive p rest e) = let l = ap length e in omega (arith, l)
  Step-steps_left {s} (cancel c) = rw c (omega arith)

  -- The steps of a run.
  abbrev pub steps : {s t : Pool R P} → Reach execute s t → ℕ
  steps here = 0
  steps (next r st) = suc (steps r)

  Reach-steps_left :
      {s t : Pool R P} (r : Reach execute s t) → steps r + steps_left t ≤ steps_left s
  Reach-steps_left here = omega arith
  Reach-steps_left (next r st) = omega (arith, Reach-steps_left r, Step-steps_left st)

  -- Some goroutine can go on, without the context being cancelled for it.
  abbrev pub CanStep : Pool R P → Type 0
  CanStep s = (t : Pool R P) × Step execute s t × (t.cancelled ≡ s.cancelled)

  module _ (n : ℕ) (s : Pool R P) (v : Inv n s) where
    room :
        {A : Type 0} (l : List A) (w : Worker R) (before after : List (Worker R))
        → l ≡ []
        → s.workers ≡ before ++ w ∷ after
        → length l < s.concurrency_level
    room l w before after empty e =
        let workers = ap length e in
        let none = ap length empty in
        omega (arith, workers, none, v.level, v.all_workers, length-append before (w ∷ after))

    idle-CanStep : (before after : List (Worker R)) → s.workers ≡ before ++ idle ∷ after → CanStep s
    idle-CanStep before after w = elim (List-cases s.requests) [
      | inr (r, rest, e) ↦ (_, take_request r rest before after e w, refl)
      | inl empty ↦ elim (Bool-cases s.requests_closed) [
        | inl c ↦ (_, stop_closed before after empty c w, refl)
        | inr o ↦ elim (List-cases s.unsent) [
          | inl all ↦ (_, close_requests all o, refl)
          | inr (r, rest, e) ↦
              (_, send_request r rest e (room s.requests idle before after empty w), refl)
        ]
      ]
    ]

    progress : Ended s ⊎ CanStep s
    unfolding Active
    progress = elim (List-cases s.responses) [
      | inr (p, rest, e) ↦ inr (_, receive p rest e, refl)
      | inl none ↦ elim (Bool-cases s.responses_closed) [
        | inl c ↦ inl (c, none)
        | inr o ↦ elim (active s.workers) [
          | inl all ↦ inr (_, close_responses all o, refl)
          | inr (inl (before, after, w)) ↦ inr (idle-CanStep before after w)
          | inr (inr (r, before, after, w)) ↦ inr (
            _,
            send_response r before after w (room s.responses (busy r) before after none w),
            refl,
          )
        ]
      ]
    ]

  -- Every run of a pool of `n` workers is finite: it has at most 4 steps for each request, one for each
  -- worker, and 3 more. And until the loop of the receiver has ended, some goroutine can go on, whether
  -- the context is done or not. So the pool never blocks its receiver for ever.
  pub Reach-terminates :
      (n : ℕ) (work : List R) {s : Pool R P} (r : Reach execute (new n work) s)
      → (steps r ≤ 4 * length work + n + 3) × (Ended s ⊎ CanStep s)
  unfolding new
  Reach-terminates n work {s} r = (
    omega (arith, Reach-steps_left r, work_left-start R n),
    progress n s (Reach-Inv execute n work r),
  )

  pub carried-AllStopped : (ws : List (Worker R)) → AllStopped ws → carried execute ws ≡ []
  carried-AllStopped [] all = refl
  carried-AllStopped (idle ∷ ws) all = let e = all.0 in cc
  carried-AllStopped (busy r ∷ ws) all = let e = all.0 in cc
  carried-AllStopped (stopped ∷ ws) all = carried-AllStopped ws all.1

  not-NoneStopped :
      (n : ℕ) (ws : List (Worker R)) → 0 < n → length ws ≡ n → AllStopped ws → NoneStopped ws → ⊥
  not-NoneStopped n [] pos l all none = omega arith
  not-NoneStopped n (idle ∷ ws) pos l all none = let e = all.0 in cc
  not-NoneStopped n (busy r ∷ ws) pos l all none = let e = all.0 in cc
  not-NoneStopped n (stopped ∷ ws) pos l all none = none

  -- When the loop of the receiver of a pool with at least one worker has ended and the context is not
  -- done, it has received exactly one response for every request, in some order.
  pub Ended-received :
      (n : ℕ) (work : List R) {s : Pool R P}
      → 0 < n
      → Reach execute (new n work) s
      → Ended s
      → s.cancelled ≡ false
      → Perm s.received (map execute work)
  Ended-received n work {s} pos r (closed, none) live =
      let v = Reach-Inv execute n work r in
      let all = v.all_stopped closed in
      elim (v.none_stopped live) [
        | inl running ↦ absurd (not-NoneStopped n s.workers pos v.all_workers all running)
        | inr (empty, shut) ↦
            let sent = v.all_sent shut in
            let c : contents execute s ≡ s.received =
              rw (sent, empty, carried-AllStopped s.workers all, none) refl in
            rw c at (Reach-contents execute n work r)
      ]
