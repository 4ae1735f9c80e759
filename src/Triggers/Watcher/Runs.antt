-- ===== src/Triggers/Watcher/Runs.antt =====
-- When the informers run, and what happens to them at the end (runWatcher in watcher.go).
use testkube.Base.{
  Bool, true, false, ◌≡◌, refl, ap, subst, ◌∙◌, inl, inr, none, List, [], ◌∷◌, ◌++◌, last_or, arith,
  Bool-cases,
}
use testkube.Triggers.Watcher.{
  Watcher, no_chan, open_chan, closed_chan, Action, run_informers, stop_informers, idle_watcher,
  on_lease, on_done, watch,
}

-- The informers are started while they do not run, and stopped while they run.
abbrev pub Alternates : Bool → List Action → Type 0
Alternates running [] = Unit
Alternates running (run_informers ∷ actions) = (running ≡ false) × Alternates true actions
Alternates running (stop_informers ∷ actions) = (running ≡ true) × Alternates false actions

-- The watcher runs the informers exactly while its channel is open.
abbrev pub IsSound : Watcher → Type 0
IsSound w = elim w.stop_chan [
  | no_chan ↦ w.running ≡ false
  | open_chan ↦ w.running ≡ true
  | closed_chan ↦ w.running ≡ false
]

on_lease-IsSound : (leased : Bool) (w : Watcher) → IsSound w → IsSound (on_lease leased w).0
unfolding on_lease
on_lease-IsSound false w h = elim (Bool-cases w.running) [ inl r ↦ simp r | inr r ↦ simp r h ]
on_lease-IsSound true w h = elim (Bool-cases w.running) [ inl r ↦ simp r h | inr r ↦ rw r refl ]

on_lease-running : (leased : Bool) (w : Watcher) → (on_lease leased w).0.running ≡ leased
unfolding on_lease
on_lease-running false w = ground arith
on_lease-running true w = ground arith

Alternates-append :
    (leased : Bool) (w : Watcher) (actions : List Action)
    → Alternates leased actions
    → Alternates w.running ((on_lease leased w).1 ++ actions)
unfolding on_lease
Alternates-append false w actions h = elim (Bool-cases w.running) [
  | inl r ↦ rw r (refl, h)
  | inr r ↦ simp r h
]
Alternates-append true w actions h = elim (Bool-cases w.running) [
  | inl r ↦ simp r h
  | inr r ↦ rw r (refl, h)
]

-- However the leases come, the watcher starts the informers only while they do not run, stops them only
-- while they run, and in the end runs them exactly if the last lease was held.
pub watch-Alternates :
    (leases : List Bool) (w : Watcher)
    → Alternates w.running (watch leases w).1
      × ((watch leases w).0.running ≡ last_or w.running leases)
unfolding watch
watch-Alternates [] w = (tt, refl)
watch-Alternates (leased ∷ leases) w =
    let next = (on_lease leased w).0 in
    let ih = watch-Alternates leases next in
    let now : next.running ≡ leased = on_lease-running leased w in
    (
      Alternates-append leased w (watch leases next).1
          (subst (λ b. Alternates b (watch leases next).1) now ih.0),
      ih.1 ∙ ap (λ b. last_or b leases) now,
    )

watch-IsSound : (leases : List Bool) (w : Watcher) → IsSound w → IsSound (watch leases w).0
unfolding watch
watch-IsSound [] w h = h
watch-IsSound (leased ∷ leases) w h =
    watch-IsSound leases (on_lease leased w).0 (on_lease-IsSound leased w h)

running_blocks : (w : Watcher) → IsSound w → w.running ≡ true → on_done w ≡ none
unfolding on_done
running_blocks w h r = ground arith

-- When the context ends while the informers run, the watcher waits for ever at its channel: it neither
-- returns nor stops the informers.
pub on_done-eq-none :
    (leases : List Bool)
    → last_or false leases ≡ true
    → ((watch leases idle_watcher).0.running ≡ true)
      × (on_done (watch leases idle_watcher).0 ≡ none)
on_done-eq-none leases held =
    let w = (watch leases idle_watcher).0 in
    let runs : w.running ≡ true = (watch-Alternates leases idle_watcher).1 ∙ held in
    (runs, running_blocks w (watch-IsSound leases idle_watcher refl) runs)
