-- ===== src/Txn/Lifecycle.antt =====
-- The life of a transaction in transaction/transaction.cpp: begin, commit, rollback, and rollback to a
-- savepoint. Each call is one function of the manager's state; what it asks of the other components
-- is a list of effects in order, and what they answer is an argument.
pub mod Finishes
pub mod Sessions
pub mod Claims
pub mod Begin
pub mod Repeatable
pub mod Savepoint
pub mod Frozen
pub mod Conflicts
use minidb.Prelude.{
  ℕ, zero, suc, ◌+◌, Bool, true, false, not, ◌&&◌, ◌||◌, List, [], ◌∷◌, ◌++◌, Option, none, some,
  ltb, leb, ◌==◌, if◌then◌else◌, length, take, drop, map,
}
use mathlib.Core.List.{reverse}
use minidb.Prelude.Assoc.{Assoc, find, insert}
use minidb.RecordId.{RecordId}
use minidb.Txn.Log.{
  UndoType, delete, hot_delete, UndoRecord, TxnState, active, committed, aborted, IsolationLevel,
  snapshot, serializable, ReadRecord, Transaction, start, truncate_undo,
}
use minidb.Txn.Manager.{
  TxnSlot, TxnFinalState, final_committed, final_aborted, CommittedWriteSet, TransactionManager,
  is_live, is_active, oldest_active, prune_committed_history, ssi_check_conflict,
}

-- The calls of the other components.
pub data Effect : Type 0 where
  acquire_transaction release_transaction : Effect
  log_begin log_commit log_abort : ℕ → Effect
  record_status : ℕ → TxnFinalState → Effect
  commit_ddl_deferred : Effect
  prune_obsolete_version : ℕ → RecordId → ℕ → ℕ → ℕ → Effect
  apply_undo_record : UndoRecord → Effect
  unlock_all : ℕ → Effect

-- The ids of the running transactions, in slot order.
unfoldable pub live_ids : List TxnSlot → List ℕ
live_ids [] = []
live_ids (s ∷ ss) = let rest = live_ids ss in if is_live s then s.txn_id ∷ rest else rest

-- The first free slot, taken by a new transaction.
unfoldable pub claim : ℕ → ℕ → List TxnSlot → Option (List TxnSlot)
claim id snap [] = none
claim id snap (s ∷ ss) =
    let rest : Option (List TxnSlot) = elim (claim id snap ss) [
      | none ↦ none
      | some r ↦ some (s ∷ r)
    ] in
    if is_live s
    then rest
    else some (record { txn_id = id; snapshot_id = snap; commit_id = 0; state = active } ∷ ss)

-- The write of commit to the first running slot of the transaction.
unfoldable pub set_committed : ℕ → ℕ → List TxnSlot → List TxnSlot
set_committed id cid [] = []
set_committed id cid (s ∷ ss) =
    if s.txn_id == id && is_active s.state
    then record s { commit_id = cid; state = committed } ∷ ss
    else s ∷ set_committed id cid ss

-- The write of rollback to the first slot of the transaction.
unfoldable pub set_aborted : ℕ → List TxnSlot → List TxnSlot
set_aborted id [] = []
set_aborted id (s ∷ ss) =
    if s.txn_id == id then record s { state = aborted } ∷ ss else s ∷ set_aborted id ss

-- TxnStatusLog::record, where the log is open.
unfoldable pub record_final :
    ℕ → TxnFinalState → Option (Assoc TxnFinalState) → Option (Assoc TxnFinalState)
record_final id f none = none
record_final id f (some log) = some (insert id f log)

unfoldable pub prunes : ℕ → ℕ → ℕ → List UndoRecord → List Effect
prunes oldest id lsn [] = []
prunes oldest id lsn (r ∷ rs) =
    let rest = prunes oldest id lsn rs in
    elim r.type [
      | delete ↦ prune_obsolete_version r.table_id r.rid oldest id lsn ∷ rest
      | hot_delete ↦ prune_obsolete_version r.table_id r.rid oldest id lsn ∷ rest
      | _ ↦ rest
    ]

abbrev release_if : Bool → List Effect
release_if b = if b then release_transaction ∷ [] else []

-- What a call leaves: the manager, the session's transaction, the answer, and the effects.
pub record Done (Info : Type 0) : Type 0 where
  pub manager : TransactionManager
  pub current : Option (Transaction Info)
  pub answer : Bool
  pub effects : List Effect

abbrev written : UndoRecord → ReadRecord
written r = record { table_id = r.table_id; rid = r.rid }

abbrev status_effect : ℕ → TxnFinalState → Option (Assoc TxnFinalState) → List Effect
status_effect id f log = elim log [ none ↦ [] | some _ ↦ record_status id f ∷ [] ]

-- The loop of rollback_to_savepoint over the records to undo, the latest first. `undoes` is the
-- answer of `apply_undo_record` for a record.
unfoldable pub undo_each : (UndoRecord → Bool) → List UndoRecord → Bool × List Effect
undo_each undoes [] = (true, [])
undo_each undoes (r ∷ rs) =
    let rest = undo_each undoes rs in
    if undoes r then (rest.0, apply_undo_record r ∷ rest.1) else (false, apply_undo_record r ∷ [])

module _ {Info : Type 0} where
  -- TransactionManager::begin. `admitted` is the answer of the resource manager.
  unfoldable pub begin : TransactionManager → Option (Transaction Info) → Bool → Done Info
  unfolding live_ids claim start
  begin tm (some t) admitted = record {
    manager = tm;
    current = some t;
    answer = false;
    effects = [];
  }
  begin tm none admitted =
      let id = tm.next_txn_id in
      if not admitted
      then record {
        manager = tm;
        current = none;
        answer = false;
        effects = acquire_transaction ∷ [];
      }
      else elim (claim id (id + 1) tm.slots) [
        | none ↦ record {
          manager = tm;
          current = none;
          answer = false;
          effects = acquire_transaction ∷ release_transaction ∷ [];
        }
        | some slots ↦ record {
          manager = record tm { slots = slots; next_txn_id = id + 1 };
          current = some (record (start id (id + 1) (live_ids tm.slots)) {
            isolation = tm.default_isolation;
            resource_acquired = true;
          });
          answer = true;
          effects = acquire_transaction ∷ log_begin id ∷ [];
        }
      ]

  -- TransactionManager::rollback, of the session's transaction.
  unfoldable pub rollback : TransactionManager → Option (Transaction Info) → Done Info
  unfolding set_aborted record_final
  rollback tm none = record { manager = tm; current = none; answer = false; effects = [] }
  rollback tm (some t) = record {
    manager = record tm {
      slots = set_aborted t.txn_id tm.slots;
      status_log = record_final t.txn_id final_aborted tm.status_log;
    };
    current = none;
    answer = true;
    effects =
        status_effect t.txn_id final_aborted tm.status_log
        ++ (log_abort t.txn_id ∷ unlock_all t.txn_id ∷ [])
        ++ map apply_undo_record (reverse t.undo_records)
        ++ release_if t.resource_acquired;
  }

  -- What commit writes under the latch once its record is durable.
  unfoldable pub publish : TransactionManager → Transaction Info → TransactionManager
  unfolding set_committed prune_committed_history
  publish tm t =
      let cid = tm.next_txn_id in
      prune_committed_history (record tm {
        slots = set_committed t.txn_id cid tm.slots;
        next_txn_id = cid + 1;
        committed_history =
            tm.committed_history
            ++ record { commit_id = cid; txn_id = t.txn_id; writes = map written t.undo_records }
              ∷ [];
      })

  is_serializable : Transaction Info → Bool
  is_serializable t = elim t.isolation [ serializable ↦ true | snapshot ↦ false ]

  -- A failed commit: the rollback, with the effects before it, and the answer false.
  failed : List Effect → Done Info → Done Info
  failed before d = record d { answer = false; effects = before ++ d.effects }

  -- TransactionManager::commit, of the session's transaction. `lsn` is what the write-ahead log
  -- answers, 0 where the commit record did not become durable.
  unfoldable pub commit : TransactionManager → Option (Transaction Info) → ℕ → Done Info
  unfolding rollback publish is_serializable failed ssi_check_conflict prunes record_final
      oldest_active
  commit tm none lsn = record { manager = tm; current = none; answer = false; effects = [] }
  commit tm (some t) lsn =
      if is_serializable t && ssi_check_conflict tm t
      then failed [] (rollback tm (some t))
      else if lsn == 0
      then failed (log_commit t.txn_id ∷ []) (rollback tm (some t))
      else let published = publish tm t in
        let oldest = oldest_active published.next_txn_id published.slots in
        record {
          manager = record published {
            status_log = record_final t.txn_id final_committed published.status_log;
          };
          current = none;
          answer = true;
          effects =
              (log_commit t.txn_id ∷ [])
              ++ elim t.ddl_undo_infos [ [] ↦ [] | _ ∷ _ ↦ commit_ddl_deferred ∷ [] ]
              ++ status_effect t.txn_id final_committed published.status_log
              ++ prunes oldest t.txn_id lsn t.undo_records
              ++ (unlock_all t.txn_id ∷ [])
              ++ release_if t.resource_acquired;
        }

  -- TransactionManager::rollback_to_savepoint, of the session's transaction.
  unfoldable pub rollback_to_savepoint :
      (UndoRecord → Bool) → Transaction Info → ℕ → Transaction Info × Bool × List Effect
  unfolding undo_each truncate_undo
  rollback_to_savepoint undoes t mark =
      if leb (length t.undo_records) mark
      then (t, true, [])
      else let r = undo_each undoes (reverse (drop mark t.undo_records)) in
        if r.0 then (truncate_undo t mark, true, r.1) else (t, false, r.1)
