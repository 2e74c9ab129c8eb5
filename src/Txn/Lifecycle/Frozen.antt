-- ===== src/Txn/Lifecycle/Frozen.antt =====
-- The id that transaction/transaction.h keeps for frozen rows, `kFrozenTxnId`, is one that `begin` of
-- transaction/transaction.cpp gives out, as the second id of a new manager.
use minidb.Prelude.{ℕ, ◌≡◌, ◌∙◌, Bool, true, none, some}
use minidb.Txn.Log.{Transaction}
use minidb.Txn.Manager.{TransactionManager, invalid_txn_id, frozen_txn_id, is_visible}
use minidb.Txn.Lifecycle.{begin}
use minidb.Txn.Lifecycle.Begin.{begin-Reads}

module _ {Info : Type 0} where
  frozen_is_visible :
      (tm : TransactionManager) (xmin : ℕ) (reader : Transaction Info)
      → xmin ≡ frozen_txn_id
      → is_visible tm xmin invalid_txn_id reader ≡ true
  unfolding is_visible
  frozen_is_visible tm xmin reader e = rw e

  -- The transaction that gets the id of frozen rows has its work seen by every reader, from the moment
  -- it begins: under any later manager, a row that it wrote and nobody deleted is visible, although
  -- it has not committed.
  pub begin-frozen :
      (tm later : TransactionManager) (admitted : Bool) (t reader : Transaction Info)
      → tm.next_txn_id ≡ frozen_txn_id
      → (begin tm none admitted).current ≡ some t
      → is_visible later t.txn_id invalid_txn_id reader ≡ true
  begin-frozen tm later admitted t reader e b =
      frozen_is_visible later t.txn_id reader ((begin-Reads tm admitted t b).0 ∙ e)
