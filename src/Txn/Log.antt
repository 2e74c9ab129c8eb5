-- ===== src/Txn/Log.antt =====
-- `Transaction` of transaction/transaction.h and its methods: the undo log, the infos of its DDL
-- records, and the read set.
pub mod Aligned
pub mod Runs
use minidb.Prelude.{
  ℕ, zero, suc, ◌+◌, ◌-◌, Bool, true, false, not, ◌&&◌, List, [], ◌∷◌, ◌++◌, ◌==◌, if◌then◌else◌,
  length, take, drop,
}
use minidb.RecordId.{RecordId, same_rid}

pub data UndoType : Type 0 where
  insert delete hot_insert hot_delete : UndoType
  ddl_create_table ddl_drop_table ddl_create_index ddl_drop_index : UndoType
  ddl_alter_add_column ddl_alter_drop_column ddl_alter_rename_column : UndoType

-- `static_cast<u8>(type) >= 10`
unfoldable pub is_ddl : UndoType → Bool
is_ddl insert = false
is_ddl delete = false
is_ddl hot_insert = false
is_ddl hot_delete = false
is_ddl _ = true

pub record UndoRecord : Type 0 where
  pub type : UndoType
  pub table_id : ℕ
  pub rid : RecordId
  pub ddl_info_idx : ℕ

pub record ReadRecord : Type 0 where
  pub table_id : ℕ
  pub rid : RecordId

pub data TxnState : Type 0 where
  active committed aborted : TxnState

pub data IsolationLevel : Type 0 where
  snapshot serializable : IsolationLevel

-- `Info` is `DdlUndoInfo`, which the log only carries.
pub record Transaction (Info : Type 0) : Type 0 where
  pub txn_id : ℕ
  pub snapshot_id : ℕ
  pub commit_id : ℕ
  pub state : TxnState
  pub active_snapshot : List ℕ
  pub undo_records : List UndoRecord
  pub ddl_undo_infos : List Info
  pub read_set : List ReadRecord
  pub isolation : IsolationLevel
  pub resource_acquired : Bool

abbrev pub same_row : ReadRecord → ReadRecord → Bool
same_row a b = a.table_id == b.table_id && same_rid a.rid b.rid

unfoldable pub has_read : ReadRecord → List ReadRecord → Bool
has_read r [] = false
has_read r (x ∷ xs) = if same_row x r then true else has_read r xs

-- The four types of a DML record have no info; the code leaves the index unset.
abbrev dml_record : UndoType → ℕ → RecordId → UndoRecord
dml_record type table_id rid = record {
  type = type;
  table_id = table_id;
  rid = rid;
  ddl_info_idx = 0;
}

-- The count at the top of `truncate_undo`.
unfoldable pub count_ddl : List UndoRecord → ℕ
unfolding is_ddl
count_ddl [] = 0
count_ddl (r ∷ rs) = (if is_ddl r.type then 1 else 0) + count_ddl rs

module _ {Info : Type 0} where
  -- Transaction::Transaction
  unfoldable pub start : ℕ → ℕ → List ℕ → Transaction Info
  start txn_id snapshot_id active_snapshot = record {
    txn_id = txn_id;
    snapshot_id = snapshot_id;
    commit_id = 0;
    state = active;
    active_snapshot = active_snapshot;
    undo_records = [];
    ddl_undo_infos = [];
    read_set = [];
    isolation = snapshot;
    resource_acquired = false;
  }

  -- Transaction::record_read
  unfoldable pub record_read : Transaction Info → ℕ → RecordId → Transaction Info
  unfolding has_read
  record_read t table_id rid =
      let r : ReadRecord = record { table_id = table_id; rid = rid } in
      elim t.isolation [
        | snapshot ↦ t
        | serializable ↦
            if has_read r t.read_set then t else record t { read_set = t.read_set ++ r ∷ [] }
      ]

  push_undo : Transaction Info → UndoRecord → Transaction Info
  push_undo t r = record t { undo_records = t.undo_records ++ r ∷ [] }

  -- Transaction::record_insert, record_delete, record_hot_insert, record_hot_delete
  unfoldable pub record_insert : Transaction Info → ℕ → RecordId → Transaction Info
  unfolding push_undo
  record_insert t table_id rid = push_undo t (dml_record insert table_id rid)

  unfoldable pub record_delete : Transaction Info → ℕ → RecordId → Transaction Info
  unfolding push_undo
  record_delete t table_id rid = push_undo t (dml_record delete table_id rid)

  unfoldable pub record_hot_insert : Transaction Info → ℕ → RecordId → Transaction Info
  unfolding push_undo
  record_hot_insert t table_id rid = push_undo t (dml_record hot_insert table_id rid)

  unfoldable pub record_hot_delete : Transaction Info → ℕ → RecordId → Transaction Info
  unfolding push_undo
  record_hot_delete t table_id rid = push_undo t (dml_record hot_delete table_id rid)

  -- Transaction::record_ddl
  unfoldable pub record_ddl : Transaction Info → UndoType → ℕ → Info → Transaction Info
  record_ddl t type table_id info = record t {
    ddl_undo_infos = t.ddl_undo_infos ++ info ∷ [];
    undo_records =
        t.undo_records
        ++ record {
          type = type;
          table_id = table_id;
          rid = record { page_id = 0; slot_idx = 0 };
          ddl_info_idx = length t.ddl_undo_infos;
        }
          ∷ [];
  }

  -- Transaction::truncate_undo: the records from `mark` on go, and as many infos from the back as
  -- there are DDL records among them.
  unfoldable pub truncate_undo : Transaction Info → ℕ → Transaction Info
  unfolding count_ddl
  truncate_undo t mark = record t {
    undo_records = take mark t.undo_records;
    ddl_undo_infos =
        take (length t.ddl_undo_infos - count_ddl (drop mark t.undo_records)) t.ddl_undo_infos;
  }
