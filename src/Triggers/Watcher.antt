-- ===== src/Triggers/Watcher.antt =====
-- pkg/triggers/watcher.go, runWatcher: the informers run while the instance holds the lease.
pub mod Runs
use testkube.Base.{Bool, true, false, Option, none, some, List, [], ◌∷◌, ◌++◌, if◌then◌else◌}

-- A channel on which nothing is ever sent.
pub data StopChan : Type 0 where
  no_chan open_chan closed_chan : StopChan

pub data Action : Type 0 where
  run_informers stop_informers : Action

pub record Watcher : Type 0 where
  pub running : Bool
  pub stop_chan : StopChan

abbrev pub idle_watcher : Watcher
idle_watcher = record { running = false; stop_chan = no_chan }

-- The case of the lease channel, and what it does to the informers.
unfoldable pub on_lease : Bool → Watcher → Watcher × List Action
on_lease false w =
    if w.running
    then (record { running = false; stop_chan = closed_chan }, stop_informers ∷ [])
    else (w, [])
on_lease true w =
    if w.running
    then (w, [])
    else (record { running = true; stop_chan = open_chan }, run_informers ∷ [])

-- `if _, ok := <-stopChan; ok { close(stopChan) }`: receiving from a nil channel, or from an open one
-- that nobody sends on, waits for ever (`none`); a closed one gives `ok = false`.
unfoldable pub on_done : Watcher → Option (List Action)
on_done w = elim w.stop_chan [ no_chan ↦ none | open_chan ↦ none | closed_chan ↦ some [] ]

-- The loop, for the leases that come.
unfoldable pub watch : List Bool → Watcher → Watcher × List Action
unfolding on_lease
watch [] w = (w, [])
watch (leased ∷ leases) w =
    let r = on_lease leased w in let rest = watch leases r.0 in (rest.0, r.1 ++ rest.1)
