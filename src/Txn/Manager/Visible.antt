-- ===== src/Txn/Manager/Visible.antt =====
-- What the visibility check of transaction/transaction.cpp decides.
use minidb.Prelude.{ℕ, ◌<◌, ◌≡◌, ◌≢◌, false, arith}
use minidb.Txn.Log.{Transaction}
use minidb.Txn.Manager.{TransactionManager, invalid_txn_id, was_active, is_uncommitted, is_visible}

module _ {Info : Type 0} where
  -- The check depends on the manager only through the transactions that came before the snapshot
  -- and were not running then.
  pub is_visible-agree :
      (tm tm' : TransactionManager) (xmin xmax : ℕ) (t : Transaction Info)
      → ((x : ℕ)
          → x ≢ invalid_txn_id
          → x < t.snapshot_id
          → was_active x t.active_snapshot ≡ false
          → is_uncommitted tm' x ≡ is_uncommitted tm x)
      → is_visible tm' xmin xmax t ≡ is_visible tm xmin xmax t
  unfolding is_visible
  is_visible-agree tm tm' xmin xmax t same = ground (arith, same xmin, same xmax)
