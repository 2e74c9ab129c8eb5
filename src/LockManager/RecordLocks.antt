-- ===== src/LockManager/RecordLocks.antt =====
-- `lock_record`, `lock_key` and their unlocking calls (concurrency/lock_manager.cpp), cut at the wait
-- as `lock_table` is.
pub mod Keys
use minidb.Prelude.{
  ℕ, ◌≡◌, Bool, true, false, List, [], ◌∷◌, ◌++◌, Option, none, some, leb, ◌==◌, if◌then◌else◌,
}
use minidb.Prelude.Assoc.{Assoc, find, insert, erase}
use minidb.LockManager.Mode.{LockMode, access_share, rank, is_compatible, max_mode}
use minidb.LockManager.Requests.{
  LockRequest, LockObject, Held, with_requests, grant_pending, find_held, can_upgrade, new_request,
  is_granted, withdraw, without_txn,
}
use minidb.LockManager.State.{
  LockManager, Status, ok, lock_conflict, Outcome, returns, waits, object_at, note_held, put_table,
  put_record,
}
use minidb.RecordId.{RecordId}
use Keys.{record_lock_key, pseudo_record}

-- The code behind the loop of `lock_record`.
unfoldable pub give_up_record : LockManager → ℕ → ℕ → LockMode → LockManager × Outcome
unfolding put_record
give_up_record lm txn key mode = elim (find key lm.record_locks) [
  | none ↦ (lm, returns lock_conflict)
  | some obj ↦ (
    put_record lm key (record obj { requests = withdraw txn mode obj.requests }),
    returns lock_conflict,
  )
]

-- One round of the loop of `lock_record`; it does not look for deadlocks.
unfoldable pub round_record : LockManager → ℕ → ℕ → LockMode → LockObject → LockManager × Outcome
unfolding put_record note_held
round_record lm txn key mode obj =
    let obj' = grant_pending obj in
    let lm' = put_record lm key obj' in
    if is_granted txn mode obj'.requests
    then (record lm' { txn_record_locks = note_held txn key lm'.txn_record_locks }, returns ok)
    else (lm', waits)

-- LockManager::lock_record up to the first wait, at the key of the record. A stronger mode than the
-- one held is refused.
unfoldable pub enter_record : LockManager → ℕ → ℕ → ℕ → LockMode → LockManager × Outcome
unfolding object_at round_record put_record
enter_record lm txn table key mode =
    let obj = object_at key table lm.record_locks in
    elim (find_held txn [] obj.requests) [
      | some h ↦ (
        put_record lm key obj,
        returns (if leb (rank mode) (rank h.request.mode) then ok else lock_conflict),
      )
      | none ↦
          round_record lm txn key mode
            (record obj { requests = obj.requests ++ new_request txn mode ∷ [] })
    ]

unfoldable pub wake_record : LockManager → ℕ → ℕ → LockMode → LockManager × Outcome
unfolding round_record
wake_record lm txn key mode = elim (find key lm.record_locks) [
  | none ↦ (lm, returns lock_conflict)
  | some obj ↦ round_record lm txn key mode obj
]

-- LockManager::unlock_record, at the key of the record.
unfoldable pub unlock_record : LockManager → ℕ → ℕ → LockManager
unfolding put_record
unlock_record lm txn key = elim (find key lm.record_locks) [
  | none ↦ lm
  | some obj ↦
      put_record lm key (grant_pending (record obj { requests = without_txn txn obj.requests }))
]

-- LockManager::lock_record up to the first wait.
unfoldable pub lock_record : LockManager → ℕ → ℕ → RecordId → LockMode → LockManager × Outcome
unfolding enter_record record_lock_key
lock_record lm txn table rid mode = enter_record lm txn table (record_lock_key table rid) mode

-- LockManager::lock_key up to the first wait.
unfoldable pub lock_key : LockManager → ℕ → ℕ → List ℕ → LockMode → LockManager × Outcome
unfolding lock_record pseudo_record
lock_key lm txn table key mode = lock_record lm txn table (pseudo_record table key) mode

-- LockManager::unlock_key
unfoldable pub unlock_key : LockManager → ℕ → ℕ → List ℕ → LockManager
unfolding unlock_record record_lock_key pseudo_record
unlock_key lm txn table key = unlock_record lm txn (record_lock_key table (pseudo_record table key))
