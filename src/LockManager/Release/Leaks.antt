-- ===== src/LockManager/Release/Leaks.antt =====
-- Locks that `unlock_all` (concurrency/lock_manager.cpp) does not release.
use minidb.Prelude.{ℕ, ◌≡◌, refl, sym, subst, none, arith}
use minidb.Prelude.Assoc.{find, find-insert}
use minidb.LockManager.Mode.{LockMode}
use minidb.LockManager.Requests.{LockObject, withdraw}
use minidb.LockManager.Requests.Moves.{withdraw-Elem}
use minidb.LockManager.State.{LockManager, ok, lock_conflict, returns, put_table, put_record}
use minidb.LockManager.TableLocks.{give_up_table}
use minidb.LockManager.RecordLocks.{enter_record, round_record}
use minidb.LockManager.Release.{unlock_all}
use minidb.LockManager.Calls.Holding.{Holds, holds, enter_record-Holds}

txn_locks-round_record :
    (lm : LockManager) (txn key : ℕ) (mode : LockMode) (obj : LockObject)
    → (round_record lm txn key mode obj).0.txn_locks ≡ lm.txn_locks
unfolding round_record put_record
txn_locks-round_record lm txn key mode obj = ground arith

txn_locks-enter_record :
    (lm : LockManager) (txn table key : ℕ) (mode : LockMode)
    → (enter_record lm txn table key mode).0.txn_locks ≡ lm.txn_locks
unfolding enter_record put_record
txn_locks-enter_record lm txn table key mode =
    ground (arith, txn_locks-round_record lm txn key mode)

-- Where a transaction has no list of table locks, a record lock that `lock_record` grants it at once is
-- still held after `unlock_all`.
pub unlock_all_keeps_record_lock :
    (lm : LockManager) (txn table key : ℕ) (mode : LockMode)
    → find txn lm.txn_locks ≡ none
    → (enter_record lm txn table key mode).1 ≡ returns ok
    → Holds (unlock_all (enter_record lm txn table key mode).0 txn).record_locks txn key mode
unfolding unlock_all
unlock_all_keeps_record_lock lm txn table key mode n r =
    let lm' = (enter_record lm txn table key mode).0 in
    let e : find txn lm'.txn_locks ≡ none =
      subst (λ m. find txn m ≡ none) (sym (txn_locks-enter_record lm txn table key mode)) n in
    rw (e, unlock_all) (enter_record-Holds lm txn table key mode r)

-- A grant that comes between the timeout and the code behind the loop is lost: where the waiter's
-- request was granted by another thread and it has no list of table locks, `lock_table` reports a
-- conflict, and the transaction holds the table after `unlock_all`.
pub late_grant_leaks :
    (lm : LockManager) (txn table : ℕ) (mode : LockMode)
    → Holds lm.lock_table txn table mode
    → find txn lm.txn_locks ≡ none
    → ((give_up_table lm txn table mode).1 ≡ returns lock_conflict)
      × Holds (unlock_all (give_up_table lm txn table mode).0 txn).lock_table txn table mode
unfolding unlock_all give_up_table put_table
late_grant_leaks lm txn table mode (holds obj q e m t g r) n =
    let kept = record obj { requests = withdraw txn mode obj.requests } in
    rw (e, give_up_table)
      (
        refl,
        rw (n, unlock_all)
            (holds kept q (ground (arith, find-insert table table kept lm.lock_table))
              (withdraw-Elem txn mode obj.requests q g m) t g r),
      )
