-- ===== src/WorkerPool/Conserves.antt =====
-- No request of a worker pool is lost or executed twice (pkg/workerpool/service.go).
use mathlib.Core.List.{Perm, perm_middle}
use mathlib.Core.List.Perm
use testkube.Base.{
  ℕ, zero, suc, ◌≡◌, refl, sym, subst, ap, List, [], ◌∷◌, ◌++◌, map, append_assoc, append-nil,
}
use testkube.WorkerPool.{
  Pool, Worker, idle, busy, stopped, start_workers, new, Step, send_request, close_requests,
  take_request, stop_closed, stop_cancelled, send_response, close_responses, receive, cancel, Reach,
  here, next,
}

module _ {A : Type 0} where
  -- An element may stand anywhere.
  moved :
      (x : A) {l l' : List A} (xs ys xs' ys' : List A)
      → l ≡ xs ++ x ∷ ys
      → l' ≡ xs' ++ x ∷ ys'
      → xs ++ ys ≡ xs' ++ ys'
      → Perm l l'
  moved x xs ys xs' ys' p q e =
      rw (p, q)
        (Perm.trans (perm_middle xs ys)
          (Perm.symm (subst (λ l. Perm (xs' ++ x ∷ ys') (x ∷ l)) (sym e) (perm_middle xs' ys'))))

module _ {R P : Type 0} (execute : R → P) where
  -- The responses to the requests that workers hold.
  abbrev pub carried : List (Worker R) → List P
  carried [] = []
  carried (idle ∷ ws) = carried ws
  carried (busy r ∷ ws) = execute r ∷ carried ws
  carried (stopped ∷ ws) = carried ws

  carried-append : (vs ws : List (Worker R)) → carried (vs ++ ws) ≡ carried vs ++ carried ws
  carried-append [] ws = refl
  carried-append (idle ∷ vs) ws = carried-append vs ws
  carried-append (busy r ∷ vs) ws = ap (◌∷◌ (execute r)) (carried-append vs ws)
  carried-append (stopped ∷ vs) ws = carried-append vs ws

  map-append : (xs ys : List R) → map execute (xs ++ ys) ≡ map execute xs ++ map execute ys
  map-append [] ys = refl
  map-append (x ∷ xs) ys = ap (◌∷◌ (execute x)) (map-append xs ys)

  -- The responses to all requests, wherever they are.
  abbrev pub contents : Pool R P → List P
  contents s =
      map execute s.unsent
      ++ (map execute s.requests ++ (carried s.workers ++ (s.responses ++ s.received)))

  stop-contents :
      (s : Pool R P) (before after : List (Worker R))
      → s.workers ≡ before ++ idle ∷ after
      → Perm (contents s) (contents (record s { workers = before ++ stopped ∷ after }))
  stop-contents s before after w =
      rw (w, carried-append before (idle ∷ after), carried-append before (stopped ∷ after)) Perm.rfl

  Step-contents : {s t : Pool R P} → Step execute s t → Perm (contents s) (contents t)
  Step-contents {s} (send_request r rest e full) =
      let u = map execute rest in
      let q = map execute s.requests in
      let t = carried s.workers ++ (s.responses ++ s.received) in
      moved (execute r) [] (u ++ (q ++ t)) (u ++ q) t (rw e refl) (simp (map-append, append_assoc))
        (simp append_assoc)
  Step-contents (close_requests _ _) = Perm.rfl
  Step-contents {s} (take_request r rest before after e w) =
      let u = map execute s.unsent in
      let q = map execute rest in
      let b = carried before in
      let a = carried after in
      let t = s.responses ++ s.received in
      moved (execute r) u (q ++ ((b ++ a) ++ t)) (u ++ (q ++ b)) (a ++ t)
        (rw (e, w, carried-append before (idle ∷ after)) refl)
        (rw (carried-append before (busy r ∷ after)) (simp append_assoc)) (simp append_assoc)
  Step-contents {s} (stop_closed before after e c w) = stop-contents s before after w
  Step-contents {s} (stop_cancelled before after c w) = stop-contents s before after w
  Step-contents {s} (send_response r before after w full) =
      let u = map execute s.unsent in
      let q = map execute s.requests in
      let b = carried before in
      let a = carried after in
      moved (execute r) (u ++ (q ++ b)) (a ++ (s.responses ++ s.received))
        (u ++ (q ++ ((b ++ a) ++ s.responses))) s.received
        (rw (w, carried-append before (busy r ∷ after)) (simp append_assoc))
        (rw (carried-append before (idle ∷ after)) (simp append_assoc)) (simp append_assoc)
  Step-contents (close_responses _ _) = Perm.rfl
  Step-contents {s} (receive p rest e) =
      let u = map execute s.unsent in
      let q = map execute s.requests in
      let c = carried s.workers in
      moved p (u ++ (q ++ c)) (rest ++ s.received) (u ++ (q ++ (c ++ (rest ++ s.received)))) []
        (rw e (simp append_assoc)) (simp append_assoc) (simp (append_assoc, append-nil))
  Step-contents (cancel _) = Perm.rfl

  carried-start : (n : ℕ) → carried (start_workers n) ≡ []
  unfolding start_workers
  carried-start zero = refl
  carried-start (suc n) = carried-start n

  -- However the goroutines of a pool are interleaved, and also when the context is done, every request
  -- is at one place: still to be sent, in the channel of requests, with a worker, answered in the
  -- channel of responses, or received.
  pub Reach-contents :
      (n : ℕ) (work : List R) {s : Pool R P}
      → Reach execute (new n work) s
      → Perm (contents s) (map execute work)
  unfolding new
  Reach-contents n work here = rw (carried-start n, append-nil (map execute work)) Perm.rfl
  Reach-contents n work (next r st) =
      Perm.trans (Perm.symm (Step-contents st)) (Reach-contents n work r)
