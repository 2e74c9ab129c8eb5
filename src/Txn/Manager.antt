-- ===== src/Txn/Manager.antt =====
-- `TransactionManager` of transaction/transaction.cpp: the slots, the visibility check, and the
-- conflict check of serializable transactions. The calls are in Txn.Lifecycle.
pub mod Visible
pub mod History
use minidb.Prelude.{
  ℕ, zero, suc, ◌+◌, Bool, true, false, not, ◌&&◌, ◌||◌, List, [], ◌∷◌, ◌++◌, Option, none, some,
  ltb, leb, ◌==◌, if◌then◌else◌, length,
}
use minidb.Prelude.Assoc.{Assoc, find, insert}
use minidb.Txn.Log.{
  TxnState, active, committed, aborted, IsolationLevel, ReadRecord, same_row, Transaction,
}

abbrev pub invalid_txn_id : ℕ
invalid_txn_id = 0

abbrev pub frozen_txn_id : ℕ
frozen_txn_id = 2

pub record TxnSlot : Type 0 where
  pub txn_id : ℕ
  pub snapshot_id : ℕ
  pub commit_id : ℕ
  pub state : TxnState

-- TxnFinalState and the in-memory part of TxnStatusLog (transaction/txn_status_log.h).
pub data TxnFinalState : Type 0 where
  final_committed final_aborted : TxnFinalState

pub record CommittedWriteSet : Type 0 where
  pub commit_id : ℕ
  pub txn_id : ℕ
  pub writes : List ReadRecord

-- `status_log` is `none` where the manager runs without a directory.
pub record TransactionManager : Type 0 where
  pub slots : List TxnSlot
  pub next_txn_id : ℕ
  pub default_isolation : IsolationLevel
  pub status_log : Option (Assoc TxnFinalState)
  pub committed_history : List CommittedWriteSet

abbrev pub is_active : TxnState → Bool
is_active active = true
is_active _ = false

-- A slot that holds a running transaction.
abbrev pub is_live : TxnSlot → Bool
is_live s = not (s.txn_id == invalid_txn_id) && is_active s.state

-- TransactionManager::get_txn_state: of the first slot with the id.
unfoldable pub get_txn_state : List TxnSlot → ℕ → Option TxnState
get_txn_state [] xid = none
get_txn_state (s ∷ ss) xid = if s.txn_id == xid then some s.state else get_txn_state ss xid

-- TransactionManager::get_commit_id
unfoldable pub get_commit_id : List TxnSlot → ℕ → ℕ
get_commit_id [] xid = 0
get_commit_id (s ∷ ss) xid = if s.txn_id == xid then s.commit_id else get_commit_id ss xid

-- TxnStatusLog::status
unfoldable pub logged : TransactionManager → ℕ → Option TxnFinalState
logged tm xid = elim tm.status_log [ none ↦ none | some log ↦ find xid log ]

-- TransactionManager::is_txn_committed
unfoldable pub is_txn_committed : TransactionManager → ℕ → Bool
unfolding get_txn_state logged
is_txn_committed tm xid = elim (get_txn_state tm.slots xid) [
  | some committed ↦ true
  | some _ ↦ false
  | none ↦ elim (logged tm xid) [ some final_committed ↦ true | some _ ↦ false | none ↦ false ]
]

-- TransactionManager::get_oldest_active_txn_id, from a bound.
unfoldable pub oldest_active : ℕ → List TxnSlot → ℕ
oldest_active oldest [] = oldest
oldest_active oldest (s ∷ ss) =
    oldest_active (if is_live s && ltb s.txn_id oldest then s.txn_id else oldest) ss

unfoldable pub get_oldest_active_txn_id : TransactionManager → ℕ
unfolding oldest_active
get_oldest_active_txn_id tm = oldest_active tm.next_txn_id tm.slots

-- TransactionManager::has_active_transactions
unfoldable pub has_active : List TxnSlot → Bool
has_active [] = false
has_active (s ∷ ss) = if is_live s then true else has_active ss

-- `was_active_in_snapshot` of is_visible.
unfoldable pub was_active : ℕ → List ℕ → Bool
was_active xid [] = false
was_active xid (x ∷ xs) = if x == xid then true else was_active xid xs

-- `is_uncommitted` of is_visible.
unfoldable pub is_uncommitted : TransactionManager → ℕ → Bool
unfolding logged get_txn_state
is_uncommitted tm xid = elim (logged tm xid) [
  | some final_aborted ↦ true
  | some final_committed ↦ false
  | none ↦ elim (get_txn_state tm.slots xid) [
    | some committed ↦ false
    | some active ↦ true
    | some aborted ↦ true
    | none ↦ false
  ]
]

-- The two inner loops of ssi_check_conflict: a write of the entry is a row that was read.
unfoldable pub reads_row : ReadRecord → List ReadRecord → Bool
reads_row w [] = false
reads_row w (r ∷ rs) = if same_row r w then true else reads_row w rs

unfoldable pub overlaps : List ReadRecord → List ReadRecord → Bool
unfolding reads_row
overlaps [] reads = false
overlaps (w ∷ ws) reads = if reads_row w reads then true else overlaps ws reads

-- The loop of ssi_check_conflict over the history.
unfoldable pub conflicts : List CommittedWriteSet → ℕ → ℕ → List ReadRecord → Bool
unfolding overlaps
conflicts [] txn snapshot reads = false
conflicts (e ∷ es) txn snapshot reads =
    let rest = conflicts es txn snapshot reads in
    if e.txn_id == txn
    then rest
    else if ltb e.commit_id snapshot
    then rest
    else if overlaps e.writes reads
    then true
    else rest

-- prune_committed_history: the oldest snapshot of a running transaction, from a bound.
unfoldable pub oldest_snapshot : ℕ → List TxnSlot → ℕ
oldest_snapshot oldest [] = oldest
oldest_snapshot oldest (s ∷ ss) =
    oldest_snapshot (if is_live s && ltb s.snapshot_id oldest then s.snapshot_id else oldest) ss

unfoldable pub keep_from : ℕ → List CommittedWriteSet → List CommittedWriteSet
keep_from oldest [] = []
keep_from oldest (e ∷ es) =
    let rest = keep_from oldest es in if leb oldest e.commit_id then e ∷ rest else rest

-- TransactionManager::prune_committed_history
unfoldable pub prune_committed_history : TransactionManager → TransactionManager
unfolding has_active oldest_snapshot keep_from
prune_committed_history tm =
    if has_active tm.slots
    then record tm {
      committed_history = keep_from (oldest_snapshot tm.next_txn_id tm.slots) tm.committed_history;
    }
    else record tm { committed_history = [] }

module _ {Info : Type 0} where
  -- TransactionManager::is_visible
  unfoldable pub is_visible : TransactionManager → ℕ → ℕ → Transaction Info → Bool
  unfolding was_active is_uncommitted
  is_visible tm xmin xmax t =
      if xmin == invalid_txn_id
      then false
      else if xmin == frozen_txn_id
      then xmax == invalid_txn_id
      else if xmin == t.txn_id
      then not (xmax == t.txn_id)
      else if not (ltb xmin t.snapshot_id)
      then false
      else if was_active xmin t.active_snapshot
      then false
      else if is_uncommitted tm xmin
      then false
      else if xmax == invalid_txn_id
      then true
      else if xmax == t.txn_id
      then false
      else if leb t.snapshot_id xmax
      then true
      else if was_active xmax t.active_snapshot
      then true
      else is_uncommitted tm xmax

  -- TransactionManager::ssi_check_conflict
  unfoldable pub ssi_check_conflict : TransactionManager → Transaction Info → Bool
  unfolding conflicts
  ssi_check_conflict tm t = elim t.read_set [
    | [] ↦ false
    | r ∷ rs ↦ conflicts tm.committed_history t.txn_id t.snapshot_id (r ∷ rs)
  ]
