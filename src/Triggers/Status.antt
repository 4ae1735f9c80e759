-- ===== src/Triggers/Status.antt =====
-- pkg/triggers/status.go: which executions a trigger has started.
pub mod Removal
use testkube.Base.{
  ℕ, zero, suc, ◌-◌, String, Bool, ◌||◌, not, ◌==◌, Option, none, some, List, [], ◌∷◌, ◌++◌, length,
  is_empty, leb, if◌then◌else◌, ◌>>=◌, get_elem?, take, move_down,
}

-- `time.Now()` is a number; the lock is held for the whole of each operation.
pub record TriggerStatus (T : Type 0) : Type 0 where
  pub test_trigger : T
  pub last_execution_started : Option ℕ
  pub last_execution_finished : Option ℕ
  pub test_execution_ids : List String
  pub test_suite_execution_ids : List String

-- `s.ids[i]` was the target: `s.ids = append(s.ids[:i], s.ids[i+1:]...)`, which panics when `i + 1` is
-- greater than the length that the slice has by now.
abbrev pub cut : ℕ → List String × ℕ → Option (List String × ℕ)
cut i (array, len) = if leb (suc i) len then some (move_down i len array, len - 1) else none

-- `n` rounds of the loop from index `i` on: the range is over the slice as it was, so that it goes on
-- to the old length, and it reads the array that the cuts write.
unfoldable pub remove_loop : String → ℕ → ℕ → List String × ℕ → Option (List String)
unfolding move_down
remove_loop target zero i (array, len) = some (take len array)
remove_loop target (suc n) i (array, len) = get_elem? array i >>= λ id.
    (if id == target then cut i (array, len) else some (array, len)) >>= λ slice.
    remove_loop target n (suc i) slice

-- The loop of `removeExecutionID` and of `removeTestSuiteExecutionID`; `none` is a panic.
unfoldable pub remove_id : String → List String → Option (List String)
remove_id target ids = remove_loop target (length ids) 0 (ids, length ids)

module _ {T : Type 0} where
  abbrev pub new_trigger_status : T → TriggerStatus T
  new_trigger_status t = record {
    test_trigger = t;
    last_execution_started = none;
    last_execution_finished = none;
    test_execution_ids = [];
    test_suite_execution_ids = [];
  }

  abbrev pub has_active_tests : TriggerStatus T → Bool
  has_active_tests s =
      not (is_empty s.test_execution_ids) || not (is_empty s.test_suite_execution_ids)

  abbrev pub start : ℕ → TriggerStatus T → TriggerStatus T
  start now s = record s { last_execution_started = some now; last_execution_finished = none }

  abbrev pub done : ℕ → TriggerStatus T → TriggerStatus T
  done now s = record s { last_execution_finished = some now }

  abbrev pub add_execution_id : String → TriggerStatus T → TriggerStatus T
  add_execution_id id s = record s { test_execution_ids = s.test_execution_ids ++ id ∷ [] }

  abbrev pub add_test_suite_execution_id : String → TriggerStatus T → TriggerStatus T
  add_test_suite_execution_id id s = record s {
    test_suite_execution_ids = s.test_suite_execution_ids ++ id ∷ [];
  }

  unfoldable pub remove_execution_id : String → TriggerStatus T → Option (TriggerStatus T)
  unfolding remove_id
  remove_execution_id target s =
      remove_id target s.test_execution_ids >>= λ ids. some (record s { test_execution_ids = ids })

  unfoldable pub remove_test_suite_execution_id :
      String → TriggerStatus T → Option (TriggerStatus T)
  unfolding remove_id
  remove_test_suite_execution_id target s = remove_id target s.test_suite_execution_ids >>= λ ids.
      some (record s { test_suite_execution_ids = ids })
