-- ===== src/Txn/Examples.antt =====
-- Concrete runs of the transaction manager: transaction 5 runs, transaction 6 has begun beside it,
-- and 5 then commits.
use minidb.Prelude.{ℕ, ◌≡◌, refl, ap, ◌↔◌, inl, inr, true, false, List, [], ◌∷◌, none, some, arith}
use minidb.RecordId.{RecordId}
use minidb.Txn.Log.{
  insert, ddl_create_table, ddl_alter_add_column, ddl_drop_index, Transaction, start, active,
  snapshot, serializable, truncate_undo, is_ddl,
}
use minidb.Txn.Log.Aligned.{indices, seq, IsAligned, truncate_undo-IsAligned}
use minidb.Txn.Log.Runs
use minidb.Txn.Log.Runs.{
  UndoCall, inserts, changes_schema, truncates, entries, follow_all, run-follow_all,
}
use minidb.Txn.Manager.{
  TxnSlot, CommittedWriteSet, TransactionManager, invalid_txn_id, is_live, is_visible, was_active,
  prune_committed_history, ssi_check_conflict,
}
use minidb.Txn.Manager.History.{Clash, prune-ssi_check_conflict, ssi_check_conflict_iff}
use minidb.Txn.Lifecycle.{begin, commit, rollback_to_savepoint, live_ids, claim}
use minidb.Txn.Lifecycle.Sessions.{IsLogged, Reads, OtherSteps, commits, stay, more}
use minidb.Txn.Lifecycle.Begin.{begin-Reads}
use minidb.Txn.Lifecycle.Repeatable.{is_visible-OtherSteps}
use minidb.Txn.Lifecycle.Savepoint.{rollback_to_savepoint-IsAligned}
use minidb.Txn.Lifecycle.Conflicts.{commit-commit}
use minidb.Txn.Lifecycle.Frozen.{begin-frozen}

abbrev writer_slot : TxnSlot
writer_slot = record { txn_id = 5; snapshot_id = 6; commit_id = 0; state = active }

abbrev free_slot : TxnSlot
free_slot = record { txn_id = 0; snapshot_id = 0; commit_id = 0; state = active }

abbrev reader_slot : TxnSlot
reader_slot = record { txn_id = 6; snapshot_id = 7; commit_id = 0; state = active }

abbrev one_write : CommittedWriteSet
one_write = record {
  commit_id = 8;
  txn_id = 4;
  writes = record { table_id = 1; rid = record { page_id = 3; slot_idx = 0 } } ∷ [];
}

abbrev one_runs : TransactionManager
one_runs = record {
  slots = writer_slot ∷ free_slot ∷ [];
  next_txn_id = 6;
  default_isolation = serializable;
  status_log = some [];
  committed_history = one_write ∷ [];
}

abbrev both_run : TransactionManager
both_run = record one_runs { slots = writer_slot ∷ reader_slot ∷ []; next_txn_id = 7 }

abbrev row : RecordId
row = record { page_id = 3; slot_idx = 0 }

abbrev writer : Transaction ℕ
writer = record {
  txn_id = 5;
  snapshot_id = 6;
  commit_id = 0;
  state = active;
  active_snapshot = [];
  undo_records = record { type = insert; table_id = 1; rid = row; ddl_info_idx = 0 } ∷ [];
  ddl_undo_infos = [];
  read_set = [];
  isolation = serializable;
  resource_acquired = true;
}

abbrev reader : Transaction ℕ
reader = record {
  txn_id = 6;
  snapshot_id = 7;
  commit_id = 0;
  state = active;
  active_snapshot = 5 ∷ [];
  undo_records = [];
  ddl_undo_infos = [];
  read_set = record { table_id = 1; rid = row } ∷ [];
  isolation = serializable;
  resource_acquired = true;
}

begun : Transaction ℕ
begun = record reader { read_set = [] }

begin-Reads_example : (begun.txn_id ≡ 6) × Reads (begin {Info = ℕ} one_runs none true).manager begun
unfolding begun begin live_ids claim start
begin-Reads_example = begin-Reads one_runs true begun refl

both_run-IsLogged : IsLogged both_run
both_run-IsLogged = record {
  has_log = ([], refl);
  dead = λ s m d z. elim m [
    | inl e ↦ absurd (cc (ap (λ (y : TxnSlot). is_live y) e, d))
    | inr (inl e) ↦ absurd (cc (ap (λ (y : TxnSlot). is_live y) e, d))
    | inr (inr n) ↦ elim n [ ]
  ];
}

both_run-Reads : Reads both_run reader
unfolding was_active
both_run-Reads = record {
  past = omega arith;
  running = λ s m lv lt own. elim m [
    | inl e ↦ ap (λ (y : TxnSlot). was_active y.txn_id reader.active_snapshot) e
    | inr (inl e) ↦ absurd (own (ap (λ (y : TxnSlot). y.txn_id) e))
    | inr (inr n) ↦ elim n [ ]
  ];
}

writer_commits : OtherSteps reader both_run (commit both_run (some writer) 9).manager
writer_commits = more stay (
    commits writer 9 (record { slot = writer_slot; here = inl refl; live = refl; same = refl })
      (ground arith))

is_visible-OtherSteps_example :
    is_visible (commit both_run (some writer) 9).manager 5 0 reader ≡ is_visible both_run 5 0 reader
is_visible-OtherSteps_example =
    is_visible-OtherSteps reader both_run (commit both_run (some writer) 9).manager 5 0
      writer_commits both_run-IsLogged both_run-Reads

ssi_check_conflict_iff_example :
    (ssi_check_conflict both_run reader ≡ true) ↔ Clash 6 7 reader.read_set (one_write ∷ [])
ssi_check_conflict_iff_example = ssi_check_conflict_iff both_run reader

prune-ssi_check_conflict_example :
    ssi_check_conflict (prune_committed_history both_run) reader
    ≡ ssi_check_conflict both_run reader
prune-ssi_check_conflict_example =
    prune-ssi_check_conflict both_run reader reader_slot (inr (inl refl)) refl refl

abbrev new_manager : TransactionManager
new_manager = record {
  slots = free_slot ∷ free_slot ∷ [];
  next_txn_id = 1;
  default_isolation = snapshot;
  status_log = some [];
  committed_history = [];
}

abbrev one_begun : TransactionManager
one_begun = record new_manager {
  slots = record { txn_id = 1; snapshot_id = 2; commit_id = 0; state = active } ∷ free_slot ∷ [];
  next_txn_id = 2;
}

one_begun_runs : (begin {Info = ℕ} new_manager none true).manager ≡ one_begun
unfolding begin claim live_ids
one_begun_runs = refl

abbrev second : Transaction ℕ
second = record {
  txn_id = 2;
  snapshot_id = 3;
  commit_id = 0;
  state = active;
  active_snapshot = 1 ∷ [];
  undo_records = [];
  ddl_undo_infos = [];
  read_set = [];
  isolation = snapshot;
  resource_acquired = true;
}

begin-frozen_example : is_visible both_run 2 invalid_txn_id reader ≡ true
unfolding begin claim live_ids start
begin-frozen_example = begin-frozen one_begun both_run true second reader refl refl

abbrev writer_ddl : Transaction ℕ
writer_ddl = record writer {
  undo_records =
      record { type = insert; table_id = 1; rid = row; ddl_info_idx = 0 }
      ∷ record { type = ddl_create_table; table_id = 2; rid = row; ddl_info_idx = 0 }
      ∷ [];
  ddl_undo_infos = 77 ∷ [];
}

writer-IsAligned : IsAligned writer
unfolding indices seq is_ddl
writer-IsAligned = record { in_step = refl }

writer_ddl-IsAligned : IsAligned writer_ddl
unfolding indices seq is_ddl
writer_ddl-IsAligned = record { in_step = refl }

truncate_undo-IsAligned_example : IsAligned (truncate_undo writer_ddl 1)
truncate_undo-IsAligned_example = truncate_undo-IsAligned writer_ddl 1 writer_ddl-IsAligned

rollback_to_savepoint-IsAligned_example :
    IsAligned (rollback_to_savepoint (λ r. true) writer_ddl 1).0
rollback_to_savepoint-IsAligned_example =
    rollback_to_savepoint-IsAligned (λ r. true) writer_ddl 1 writer_ddl-IsAligned

-- A column is added, two rows are inserted, and a savepoint before the last is rolled back before a table
-- is made.
abbrev undo_calls : List (UndoCall ℕ)
undo_calls =
    changes_schema ddl_alter_add_column 3 70
    ∷ inserts 3 (record { page_id = 1; slot_idx = 0 })
    ∷ changes_schema ddl_drop_index 3 80
    ∷ truncates 2
    ∷ changes_schema ddl_create_table 4 90
    ∷ []

run-follow_all_example :
    (let t = Runs.run (start 5 6 []) undo_calls in entries t.ddl_undo_infos t.undo_records)
    ≡ follow_all [] undo_calls
unfolding is_ddl
run-follow_all_example = run-follow_all 5 6 [] undo_calls (refl, (tt, (refl, (tt, (refl, tt)))))

abbrev no_history : TransactionManager
no_history = record both_run { committed_history = [] }

commit-commit_example :
    (commit (commit no_history (some writer) 9).manager (some reader) 10).answer ≡ false
unfolding commit ssi_check_conflict
commit-commit_example =
    commit-commit no_history reader writer reader_slot
      (record { type = insert; table_id = 1; rid = row; ddl_info_idx = 0 }) 9 10 (inr (inl refl))
      refl refl refl (omega arith) (λ e. omega (arith, e)) (inl refl) (inl refl) refl refl
