-- ===== src/Txn/Lifecycle/Conflicts.antt =====
-- Serializable transactions that have read what another wrote (transaction/transaction.cpp).
use minidb.Prelude.{
  ℕ, ◌+◌, ◌≤◌, ◌≡◌, ◌≢◌, refl, sym, ap, subst, ◌∙◌, inl, inr, true, false, List, [], ◌∷◌, ◌++◌,
  some, arith, map, ◌==◌, ◌&&◌, Elem, Bool-cases,
}
use minidb.Txn.Log.{Transaction, UndoRecord, serializable}
use minidb.Txn.Manager.{TxnSlot, CommittedWriteSet, TransactionManager, is_live, ssi_check_conflict}
use minidb.Txn.Manager.History.{prune-ssi_check_conflict, ssi_check_conflict_iff}
use minidb.Txn.Lifecycle.{
  set_committed, is_active, written, publish, commit, is_serializable, failed,
}

set_committed-Elem :
    (id cid : ℕ) (ss : List TxnSlot) (s : TxnSlot)
    → Elem s ss
    → s.txn_id ≢ id
    → Elem s (set_committed id cid ss)
unfolding set_committed
set_committed-Elem id cid [] s m ne = elim m [ ]
set_committed-Elem id cid (x ∷ ss) s (inl e) ne =
    let other : x.txn_id ≢ id = subst (λ (y : TxnSlot). y.txn_id ≢ id) e ne in
    let miss : (x.txn_id == id) ≡ false = ground (arith, other) in rw miss (inl e)
set_committed-Elem id cid (x ∷ ss) s (inr m) ne =
    elim (Bool-cases (x.txn_id == id && is_active x.state)) [
      | inl hit ↦ rw hit (inr m)
      | inr miss ↦ rw miss (inr (set_committed-Elem id cid ss s m ne))
    ]

last-Elem : {A : Type 0} (x : A) (xs : List A) → Elem x (xs ++ x ∷ [])
last-Elem x [] = inl refl
last-Elem x (y ∷ xs) = inr (last-Elem x xs)

Elem-map :
    {A : Type 0} {B : Type 0} (f : A → B) (x : A) (xs : List A) → Elem x xs → Elem (f x) (map f xs)
Elem-map f x [] m = elim m [ ]
Elem-map f x (y ∷ xs) (inl e) = inl (ap f e)
Elem-map f x (y ∷ xs) (inr m) = inr (Elem-map f x xs m)

module _ {Info : Type 0} where
  publish-ssi_check_conflict :
      (tm : TransactionManager) (t u : Transaction Info) (s : TxnSlot) (r : UndoRecord)
      → Elem s tm.slots
      → is_live s ≡ true
      → s.txn_id ≡ t.txn_id
      → s.snapshot_id ≡ t.snapshot_id
      → t.snapshot_id ≤ tm.next_txn_id
      → u.txn_id ≢ t.txn_id
      → Elem r u.undo_records
      → Elem (written r) t.read_set
      → ssi_check_conflict (publish tm u) t ≡ true
  unfolding publish
  publish-ssi_check_conflict tm t u s r m live id snap past other wrote has_read' =
      let cid = tm.next_txn_id in
      let entry : CommittedWriteSet = record {
        commit_id = cid;
        txn_id = u.txn_id;
        writes = map written u.undo_records;
      } in
      let before : TransactionManager = record tm {
        slots = set_committed u.txn_id cid tm.slots;
        next_txn_id = cid + 1;
        committed_history = tm.committed_history ++ entry ∷ [];
      } in
      prune-ssi_check_conflict before t s
        (set_committed-Elem u.txn_id cid tm.slots s m (λ e. other (sym e ∙ id))) live snap
      ∙ (ssi_check_conflict_iff before t).1 (record {
        entry = entry;
        in_history = last-Elem entry tm.committed_history;
        foreign = other;
        recent = past;
        row = written r;
        was_written = Elem-map written r u.undo_records wrote;
        was_read = has_read';
      })

  commit_done :
      (tm : TransactionManager) (u t : Transaction Info) (lsn : ℕ)
      → (commit tm (some u) lsn).answer ≡ true
      → ssi_check_conflict (commit tm (some u) lsn).manager t ≡ ssi_check_conflict (publish tm u) t
  unfolding commit failed ssi_check_conflict
  commit_done tm u t lsn ok = ground (arith, ok)

  commit_refused :
      (tm : TransactionManager) (t : Transaction Info) (lsn : ℕ)
      → t.isolation ≡ serializable
      → ssi_check_conflict tm t ≡ true
      → (commit tm (some t) lsn).answer ≡ false
  unfolding commit failed is_serializable
  commit_refused tm t lsn ser clash = ground (arith, ser, clash)

  -- A serializable transaction has a live slot with its id and its snapshot, which is no later than the
  -- next id, and has read a row that a record of another transaction's undo log names. When the commit
  -- of the other answers true, a commit of the first right after it answers false.
  pub commit-commit :
      (tm : TransactionManager) (t u : Transaction Info) (s : TxnSlot) (r : UndoRecord)
      (lsn lsn' : ℕ)
      → Elem s tm.slots
      → is_live s ≡ true
      → s.txn_id ≡ t.txn_id
      → s.snapshot_id ≡ t.snapshot_id
      → t.snapshot_id ≤ tm.next_txn_id
      → u.txn_id ≢ t.txn_id
      → Elem r u.undo_records
      → Elem (written r) t.read_set
      → t.isolation ≡ serializable
      → (commit tm (some u) lsn).answer ≡ true
      → (commit (commit tm (some u) lsn).manager (some t) lsn').answer ≡ false
  commit-commit tm t u s r lsn lsn' m live id snap past other wrote has_read' ser ok =
      commit_refused (commit tm (some u) lsn).manager t lsn' ser (
        commit_done tm u t lsn ok
        ∙ publish-ssi_check_conflict tm t u s r m live id snap past other wrote has_read')
