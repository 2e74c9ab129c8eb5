-- ===== src/LockManager/Release.antt =====
-- `unlock_table` and `unlock_all` of concurrency/lock_manager.cpp.
pub mod Freed
pub mod Everything
pub mod Leaks
use minidb.Prelude.{
  ℕ, ◌≡◌, Bool, true, false, List, [], ◌∷◌, ◌++◌, Option, none, some, leb, ◌==◌, if◌then◌else◌,
}
use minidb.Prelude.Assoc.{Assoc, find, insert, erase}
use minidb.LockManager.Mode.{LockMode, access_share, rank, is_compatible, max_mode}
use minidb.LockManager.Requests.{
  LockRequest, LockObject, Held, with_requests, grant_pending, find_held, can_upgrade, new_request,
  is_granted, withdraw, without_txn,
}
use minidb.LockManager.State.{
  LockManager, Status, ok, lock_conflict, Outcome, returns, waits, object_at, note_held, put_table,
  put_record,
}
use minidb.LockManager.RecordLocks.{unlock_record}

unfoldable pub without : ℕ → List ℕ → List ℕ
without k [] = []
without k (j ∷ js) = let rest = without k js in if j == k then rest else j ∷ rest

abbrev pub released : ℕ → LockObject → LockObject
released txn obj =
    grant_pending
      (record obj { requests = without_txn txn obj.requests; granted_mask = access_share })

-- LockManager::unlock_table
unfoldable pub unlock_table : LockManager → ℕ → ℕ → LockManager
unfolding put_table without
unlock_table lm txn table = elim (find table lm.lock_table) [
  | none ↦ lm
  | some obj ↦
      let lm' = put_table lm table (released txn obj) in
      elim (find txn lm'.txn_locks) [
        | none ↦ lm'
        | some ids ↦ record lm' { txn_locks = insert txn (without table ids) lm'.txn_locks }
      ]
]

unfoldable pub unlock_tables : LockManager → ℕ → List ℕ → LockManager
unfolding unlock_table
unlock_tables lm txn [] = lm
unlock_tables lm txn (t ∷ ts) = unlock_tables (unlock_table lm txn t) txn ts

unfoldable pub unlock_records : LockManager → ℕ → List ℕ → LockManager
unfolding unlock_record
unlock_records lm txn [] = lm
unlock_records lm txn (k ∷ ks) = unlock_records (unlock_record lm txn k) txn ks

-- The second half of `unlock_all`: the record locks, and the lists of the transaction.
unfoldable pub forget : LockManager → ℕ → LockManager
unfolding unlock_records
forget lm txn =
    let lm' : LockManager = elim (find txn lm.txn_record_locks) [
      | none ↦ lm
      | some ks ↦
          let done = unlock_records lm txn ks in
          record done { txn_record_locks = erase txn done.txn_record_locks }
    ] in
    record lm' { txn_locks = erase txn lm'.txn_locks }

-- LockManager::unlock_all. It returns at once when the transaction has no list of table locks.
unfoldable pub unlock_all : LockManager → ℕ → LockManager
unfolding unlock_tables forget
unlock_all lm txn = elim (find txn lm.txn_locks) [
  | none ↦ lm
  | some ids ↦ forget (unlock_tables lm txn ids) txn
]
