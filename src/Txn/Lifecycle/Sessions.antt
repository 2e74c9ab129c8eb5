-- ===== src/Txn/Lifecycle/Sessions.antt =====
-- The other sessions of the transaction manager (transaction/transaction.cpp) beside one transaction,
-- and what it counts on while they go on.
use minidb.Prelude.{ℕ, ◌≤◌, ◌<◌, ◌≡◌, ◌≢◌, Bool, true, false, none, some, Elem}
use minidb.Prelude.Assoc.{Assoc}
use minidb.Txn.Log.{Transaction}
use minidb.Txn.Manager.{
  TxnSlot, TxnFinalState, TransactionManager, invalid_txn_id, is_live, logged, was_active,
  is_uncommitted,
}
use minidb.Txn.Lifecycle.{begin, rollback, commit}

-- The manager has a status log, and the log has the transaction of every slot that no longer runs.
pub record IsLogged (tm : TransactionManager) : Type 0 where
  pub has_log : (log : Assoc TxnFinalState) × (tm.status_log ≡ some log)
  pub dead :
      (s : TxnSlot)
      → Elem s tm.slots
      → is_live s ≡ false
      → s.txn_id ≢ invalid_txn_id
      → logged tm s.txn_id ≢ none

-- The transaction's snapshot was taken from the manager: it is not ahead of it, and the running
-- transactions that came before it are in the active set.
pub record Reads {Info : Type 0} (tm : TransactionManager) (t : Transaction Info) : Type 0 where
  pub past : t.snapshot_id ≤ tm.next_txn_id
  pub running :
      (s : TxnSlot)
      → Elem s tm.slots
      → is_live s ≡ true
      → s.txn_id < t.snapshot_id
      → s.txn_id ≢ t.txn_id
      → was_active s.txn_id t.active_snapshot ≡ true

-- The transaction runs in some slot.
pub record Runs (tm : TransactionManager) (id : ℕ) : Type 0 where
  pub slot : TxnSlot
  pub here : Elem slot tm.slots
  pub live : is_live slot ≡ true
  pub same : slot.txn_id ≡ id

-- One step of another session.
pub data OtherStep {Info : Type 0} (t : Transaction Info) (tm : TransactionManager)
    : TransactionManager → Type 0 where
  begins : (admitted : Bool) → OtherStep t tm (begin {Info = Info} tm none admitted).manager
  commits :
      (u : Transaction Info) (lsn : ℕ)
      → Runs tm u.txn_id
      → u.txn_id ≢ t.txn_id
      → OtherStep t tm (commit tm (some u) lsn).manager
  rolls_back :
      (u : Transaction Info)
      → Runs tm u.txn_id
      → u.txn_id ≢ t.txn_id
      → OtherStep t tm (rollback tm (some u)).manager

pub data OtherSteps {Info : Type 0} (t : Transaction Info) (tm : TransactionManager)
    : TransactionManager → Type 0 where
  stay : OtherSteps t tm tm
  more :
      {mid after : TransactionManager}
      → OtherSteps t tm mid
      → OtherStep t mid after
      → OtherSteps t tm after

-- What a step keeps.
pub record Keeps {Info : Type 0} (t : Transaction Info) (tm tm' : TransactionManager) : Type 0 where
  pub logs : IsLogged tm'
  pub reads : Reads tm' t
  pub agree :
      (x : ℕ)
      → x ≢ invalid_txn_id
      → x < t.snapshot_id
      → was_active x t.active_snapshot ≡ false
      → is_uncommitted tm' x ≡ is_uncommitted tm x
