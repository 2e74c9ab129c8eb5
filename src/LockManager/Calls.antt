-- ===== src/LockManager/Calls.antt =====
-- The lock manager as a system of threads: each atomic stretch of its calls
-- (concurrency/lock_manager.cpp) is one step, and the threads take their steps in any order.
pub mod Safety
pub mod TableSteps
pub mod RecordSteps
pub mod Exclusion
pub mod Holding
use minidb.Prelude.{
  ℕ, ◌≡◌, Bool, true, false, List, [], ◌∷◌, ◌++◌, Option, none, some, leb, ◌==◌, if◌then◌else◌,
}
use minidb.Prelude.Assoc.{Assoc, find, insert, erase}
use minidb.LockManager.Mode.{LockMode, access_share, rank, is_compatible, max_mode}
use minidb.LockManager.Requests.{
  LockRequest, LockObject, Held, with_requests, grant_pending, find_held, can_upgrade, new_request,
  is_granted, withdraw, without_txn,
}
use minidb.LockManager.State.{
  LockManager, Status, ok, lock_conflict, Outcome, returns, waits, object_at, note_held, put_table,
  put_record,
}
use minidb.LockManager.TableLocks.{enter_table, wake_table, give_up_table}
use minidb.LockManager.RecordLocks.{enter_record, wake_record, give_up_record, unlock_record}
use minidb.LockManager.Release.{unlock_table, unlock_all}

-- What the threads may do, one atomic stretch after another, in any order.
pub data Call : Type 0 where
  enters_table wakes_table gives_up_table : ℕ → ℕ → LockMode → Call
  enters_record : ℕ → ℕ → ℕ → LockMode → Call
  wakes_record gives_up_record : ℕ → ℕ → LockMode → Call
  unlocks_table unlocks_record : ℕ → ℕ → Call
  unlocks_all : ℕ → Call

unfoldable pub step : LockManager → Call → LockManager
step lm (enters_table txn table mode) = (enter_table lm txn table mode).0
step lm (wakes_table txn table mode) = (wake_table lm txn table mode).0
step lm (gives_up_table txn table mode) = (give_up_table lm txn table mode).0
step lm (enters_record txn table key mode) = (enter_record lm txn table key mode).0
step lm (wakes_record txn key mode) = (wake_record lm txn key mode).0
step lm (gives_up_record txn key mode) = (give_up_record lm txn key mode).0
step lm (unlocks_table txn table) = unlock_table lm txn table
step lm (unlocks_record txn key) = unlock_record lm txn key
step lm (unlocks_all txn) = unlock_all lm txn

unfoldable pub run : LockManager → List Call → LockManager
unfolding step
run lm [] = lm
run lm (c ∷ cs) = run (step lm c) cs
