-- ===== src/LockManager/Calls/Exclusion.antt =====
-- Every step of the lock manager (concurrency/lock_manager.cpp) keeps mutual exclusion, and so does
-- every run from the empty manager.
use minidb.Prelude.{ℕ, inl, inr, List, [], ◌∷◌, Option-cases}
use minidb.Prelude.Assoc.{find}
use minidb.LockManager.State.{LockManager, empty, put_table}
use minidb.LockManager.RecordLocks.{unlock_record}
use minidb.LockManager.Release.{
  released, unlock_table, unlock_tables, unlock_records, forget, unlock_all,
}
use minidb.LockManager.Calls.{
  Call, enters_table, wakes_table, gives_up_table, enters_record, wakes_record, gives_up_record,
  unlocks_table, unlocks_record, unlocks_all, step, run,
}
use minidb.LockManager.Calls.Safety.{
  IsSafe, grant_pending-IsSound, IsExclusive-without_txn, put_table-IsSafe,
}
use minidb.LockManager.Calls.TableSteps.{
  note_table-IsSafe, enter_table-IsSafe, wake_table-IsSafe, give_up_table-IsSafe,
}
use minidb.LockManager.Calls.RecordSteps.{
  note_record-IsSafe, enter_record-IsSafe, wake_record-IsSafe, give_up_record-IsSafe,
  unlock_record-IsSafe,
}

unlock_table-IsSafe :
    (lm : LockManager) (txn table : ℕ) → IsSafe lm → IsSafe (unlock_table lm txn table)
unfolding unlock_table
unlock_table-IsSafe lm txn table s = elim (Option-cases (find table lm.lock_table)) [
  | inl e ↦ rw (e, unlock_table) s
  | inr (obj, e) ↦
      let x = IsExclusive-without_txn txn obj.requests (s.tables.at table obj e).exclusive in
      let s' = put_table-IsSafe lm table (released txn obj) s (grant_pending-IsSound _ x) in
      let lm' = put_table lm table (released txn obj) in
      elim (Option-cases (find txn lm'.txn_locks)) [
        | inl none_held ↦ rw (e, none_held, unlock_table) s'
        | inr (ids, held) ↦ rw (e, held, unlock_table) (note_table-IsSafe lm' _ s')
      ]
]

unlock_tables-IsSafe :
    (lm : LockManager) (txn : ℕ) (ts : List ℕ) → IsSafe lm → IsSafe (unlock_tables lm txn ts)
unfolding unlock_tables
unlock_tables-IsSafe lm txn [] s = s
unlock_tables-IsSafe lm txn (t ∷ ts) s =
    unlock_tables-IsSafe (unlock_table lm txn t) txn ts (unlock_table-IsSafe lm txn t s)

unlock_records-IsSafe :
    (lm : LockManager) (txn : ℕ) (ks : List ℕ) → IsSafe lm → IsSafe (unlock_records lm txn ks)
unfolding unlock_records
unlock_records-IsSafe lm txn [] s = s
unlock_records-IsSafe lm txn (k ∷ ks) s =
    unlock_records-IsSafe (unlock_record lm txn k) txn ks (unlock_record-IsSafe lm txn k s)

forget-IsSafe : (lm : LockManager) (txn : ℕ) → IsSafe lm → IsSafe (forget lm txn)
unfolding forget
forget-IsSafe lm txn s = elim (Option-cases (find txn lm.txn_record_locks)) [
  | inl e ↦ rw (e, forget) (note_table-IsSafe lm _ s)
  | inr (ks, e) ↦
      rw (e, forget)
        (note_table-IsSafe _ _
          (note_record-IsSafe (unlock_records lm txn ks) _ (unlock_records-IsSafe lm txn ks s)))
]

unlock_all-IsSafe : (lm : LockManager) (txn : ℕ) → IsSafe lm → IsSafe (unlock_all lm txn)
unfolding unlock_all
unlock_all-IsSafe lm txn s = elim (Option-cases (find txn lm.txn_locks)) [
  | inl e ↦ rw (e, unlock_all) s
  | inr (ids, e) ↦
      rw (e, unlock_all)
        (forget-IsSafe (unlock_tables lm txn ids) txn (unlock_tables-IsSafe lm txn ids s))
]

pub step-IsSafe : (lm : LockManager) (c : Call) → IsSafe lm → IsSafe (step lm c)
unfolding step
step-IsSafe lm (enters_table txn table mode) s = enter_table-IsSafe lm txn table mode s
step-IsSafe lm (wakes_table txn table mode) s = wake_table-IsSafe lm txn table mode s
step-IsSafe lm (gives_up_table txn table mode) s = give_up_table-IsSafe lm txn table mode s
step-IsSafe lm (enters_record txn table key mode) s = enter_record-IsSafe lm txn table key mode s
step-IsSafe lm (wakes_record txn key mode) s = wake_record-IsSafe lm txn key mode s
step-IsSafe lm (gives_up_record txn key mode) s = give_up_record-IsSafe lm txn key mode s
step-IsSafe lm (unlocks_table txn table) s = unlock_table-IsSafe lm txn table s
step-IsSafe lm (unlocks_record txn key) s = unlock_record-IsSafe lm txn key s
step-IsSafe lm (unlocks_all txn) s = unlock_all-IsSafe lm txn s

run-IsSafe : (lm : LockManager) (cs : List Call) → IsSafe lm → IsSafe (run lm cs)
unfolding run
run-IsSafe lm [] s = s
run-IsSafe lm (c ∷ cs) s = run-IsSafe (step lm c) cs (step-IsSafe lm c s)

empty-IsSafe : IsSafe empty
empty-IsSafe = record {
  tables = record { at = λ k obj e. cc };
  records = record { at = λ k obj e. cc };
}

-- After any calls in any order, and wherever the threads stand between their waits, any two granted
-- requests of different transactions on one table or record are in compatible modes, and the mask
-- of each object is the strongest mode granted on it.
pub run-empty-IsSafe : (cs : List Call) → IsSafe (run empty cs)
run-empty-IsSafe cs = run-IsSafe empty cs empty-IsSafe
