-- ===== src/Txn/Manager/History.antt =====
-- The history of committed write sets in transaction/transaction.cpp: what the conflict check finds
-- in it, and what its pruning may drop.
use minidb.Prelude.{
  ℕ, ◌≤◌, ◌≡◌, refl, sym, ap, subst, ◌∙◌, ◌≢◌, inl, inr, true, false, not, ◌&&◌, List, [], ◌∷◌,
  arith, leb, ◌==◌, Elem, Bool-cases, ◌↔◌,
}
use minidb.Txn.Log.{Transaction, ReadRecord, same_row}
use minidb.Txn.Manager.{
  TxnSlot, CommittedWriteSet, TransactionManager, is_live, has_active, reads_row, overlaps,
  conflicts, oldest_snapshot, keep_from, prune_committed_history, ssi_check_conflict,
}

-- A row that the entry wrote and the transaction read, in an entry of another transaction that
-- committed at the snapshot or after it.
pub record Clash (txn snapshot : ℕ) (reads : List ReadRecord) (h : List CommittedWriteSet)
    : Type 0 where
  pub entry : CommittedWriteSet
  pub in_history : Elem entry h
  pub foreign : entry.txn_id ≢ txn
  pub recent : snapshot ≤ entry.commit_id
  pub row : ReadRecord
  pub was_written : Elem row entry.writes
  pub was_read : Elem row reads

same_row-eq : (a b : ReadRecord) → same_row a b ≡ true → a ≡ b
same_row-eq a b e =
    let table : a.table_id ≡ b.table_id = ground arith in
    let page : a.rid.page_id ≡ b.rid.page_id = ground arith in
    let slot : a.rid.slot_idx ≡ b.rid.slot_idx = ground arith in
    let at : ℕ → ℕ → ℕ → ReadRecord =
      λ t p s. record { table_id = t; rid = record { page_id = p; slot_idx = s } } in
    λ i. at (table i) (page i) (slot i)

same_row_refl : (a : ReadRecord) → same_row a a ≡ true
same_row_refl a = ground arith

reads_row_sound : (w : ReadRecord) (rs : List ReadRecord) → reads_row w rs ≡ true → Elem w rs
unfolding reads_row
reads_row_sound w [] e = cc
reads_row_sound w (r ∷ rs) e = elim (Bool-cases (same_row r w)) [
  | inl hit ↦ inl (sym (same_row-eq r w hit))
  | inr miss ↦ inr (reads_row_sound w rs (rw miss at e))
]

reads_row_complete : (w : ReadRecord) (rs : List ReadRecord) → Elem w rs → reads_row w rs ≡ true
unfolding reads_row
reads_row_complete w [] m = elim m [ ]
reads_row_complete w (r ∷ rs) (inl e) =
    let hit : same_row r w ≡ true = subst (λ y. same_row y w ≡ true) e (same_row_refl w) in rw hit
reads_row_complete w (r ∷ rs) (inr m) = ground (arith, reads_row_complete w rs m)

overlaps_sound :
    (ws rs : List ReadRecord)
    → overlaps ws rs ≡ true
    → (row : ReadRecord) × Elem row ws × Elem row rs
unfolding overlaps
overlaps_sound [] rs e = cc
overlaps_sound (w ∷ ws) rs e = elim (Bool-cases (reads_row w rs)) [
  | inl hit ↦ (w, inl refl, reads_row_sound w rs hit)
  | inr miss ↦ let (row, a, b) = overlaps_sound ws rs (rw miss at e) in (row, inr a, b)
]

overlaps_complete :
    (ws rs : List ReadRecord) (row : ReadRecord) → Elem row ws → Elem row rs → overlaps ws rs ≡ true
unfolding overlaps
overlaps_complete [] rs row a b = elim a [ ]
overlaps_complete (w ∷ ws) rs row (inl e) b =
    let hit = reads_row_complete w rs (subst (λ y. Elem y rs) e b) in rw hit
overlaps_complete (w ∷ ws) rs row (inr a) b = ground (arith, overlaps_complete ws rs row a b)

Clash-tail :
    (e : CommittedWriteSet) (es : List CommittedWriteSet) (txn snap : ℕ) (reads : List ReadRecord)
    → Clash txn snap reads es
    → Clash txn snap reads (e ∷ es)
Clash-tail e es txn snap reads c = record {
  entry = c.entry;
  in_history = inr c.in_history;
  foreign = c.foreign;
  recent = c.recent;
  row = c.row;
  was_written = c.was_written;
  was_read = c.was_read;
}

conflicts_sound :
    (es : List CommittedWriteSet) (txn snap : ℕ) (reads : List ReadRecord)
    → conflicts es txn snap reads ≡ true
    → Clash txn snap reads es
unfolding conflicts
conflicts_sound [] txn snap reads q = cc
conflicts_sound (e ∷ es) txn snap reads q =
    elim (Bool-cases (not (e.txn_id == txn) && leb snap e.commit_id && overlaps e.writes reads)) [
      | inl hit ↦
          let (row, a, b) = overlaps_sound e.writes reads (ground arith) in
          record {
            entry = e;
            in_history = inl refl;
            foreign = ground arith;
            recent = ground arith;
            row = row;
            was_written = a;
            was_read = b;
          }
      | inr miss ↦ Clash-tail e es txn snap reads (conflicts_sound es txn snap reads (ground arith))
    ]

conflicts_complete :
    (es : List CommittedWriteSet) (txn snap : ℕ) (reads : List ReadRecord)
    (entry : CommittedWriteSet)
    → Elem entry es
    → entry.txn_id ≢ txn
    → snap ≤ entry.commit_id
    → overlaps entry.writes reads ≡ true
    → conflicts es txn snap reads ≡ true
unfolding conflicts
conflicts_complete [] txn snap reads entry m f r o = elim m [ ]
conflicts_complete (e ∷ es) txn snap reads entry (inl p) f r o =
    subst (λ y. conflicts (y ∷ es) txn snap reads ≡ true) p (ground arith)
conflicts_complete (e ∷ es) txn snap reads entry (inr m) f r o =
    ground (arith, conflicts_complete es txn snap reads entry m f r o)

has_active-Elem :
    (s : TxnSlot) (ss : List TxnSlot) → Elem s ss → is_live s ≡ true → has_active ss ≡ true
unfolding has_active
has_active-Elem s [] m l = elim m [ ]
has_active-Elem s (x ∷ ss) (inl e) l =
    let hit : is_live x ≡ true = subst (λ (y : TxnSlot). is_live y ≡ true) e l in rw hit
has_active-Elem s (x ∷ ss) (inr m) l = ground (arith, has_active-Elem s ss m l)

oldest_snapshot-le : (b : ℕ) (ss : List TxnSlot) → oldest_snapshot b ss ≤ b
unfolding oldest_snapshot
oldest_snapshot-le b [] = omega arith
oldest_snapshot-le b (s ∷ ss) =
    ground (arith, oldest_snapshot-le b ss, oldest_snapshot-le s.snapshot_id ss)

oldest_snapshot-Elem :
    (s : TxnSlot) (ss : List TxnSlot) (b : ℕ)
    → Elem s ss
    → is_live s ≡ true
    → oldest_snapshot b ss ≤ s.snapshot_id
unfolding oldest_snapshot
oldest_snapshot-Elem s [] b m l = elim m [ ]
oldest_snapshot-Elem s (x ∷ ss) b (inl e) l =
    let hit : is_live x ≡ true = subst (λ (y : TxnSlot). is_live y ≡ true) e l in
    let same : s.snapshot_id ≡ x.snapshot_id = ap (λ (y : TxnSlot). y.snapshot_id) e in
    rw hit (ground (arith, oldest_snapshot-le b ss, oldest_snapshot-le x.snapshot_id ss))
oldest_snapshot-Elem s (x ∷ ss) b (inr m) l = oldest_snapshot-Elem s ss _ m l

conflicts-keep_from :
    (oldest txn snap : ℕ) (es : List CommittedWriteSet) (reads : List ReadRecord)
    → oldest ≤ snap
    → conflicts (keep_from oldest es) txn snap reads ≡ conflicts es txn snap reads
unfolding conflicts keep_from
conflicts-keep_from oldest txn snap [] reads le = refl
conflicts-keep_from oldest txn snap (e ∷ es) reads le =
    ground (arith, conflicts-keep_from oldest txn snap es reads le)

overlaps-nil : (ws : List ReadRecord) → overlaps ws [] ≡ false
unfolding overlaps reads_row
overlaps-nil [] = refl
overlaps-nil (w ∷ ws) = overlaps-nil ws

conflicts-nil : (es : List CommittedWriteSet) (txn snap : ℕ) → conflicts es txn snap [] ≡ false
unfolding conflicts
conflicts-nil [] txn snap = refl
conflicts-nil (e ∷ es) txn snap = ground (arith, conflicts-nil es txn snap, overlaps-nil e.writes)

-- The early return on an empty read set changes nothing.
check-conflicts :
    (es : List CommittedWriteSet) (txn snap : ℕ) (reads : List ReadRecord)
    → (elim reads [ [] ↦ false | r ∷ rs ↦ conflicts es txn snap (r ∷ rs) ])
      ≡ conflicts es txn snap reads
check-conflicts es txn snap [] = sym (conflicts-nil es txn snap)
check-conflicts es txn snap (r ∷ rs) = refl

module _ {Info : Type 0} where
  -- Pruning drops no write set that a running transaction could still conflict with.
  pub prune-ssi_check_conflict :
      (tm : TransactionManager) (t : Transaction Info) (s : TxnSlot)
      → Elem s tm.slots
      → is_live s ≡ true
      → s.snapshot_id ≡ t.snapshot_id
      → ssi_check_conflict (prune_committed_history tm) t ≡ ssi_check_conflict tm t
  unfolding prune_committed_history ssi_check_conflict
  prune-ssi_check_conflict tm t s m l e =
      let low = oldest_snapshot-Elem s tm.slots tm.next_txn_id m l in
      rw (has_active-Elem s tm.slots m l) (
        ground (
          arith,
          conflicts-keep_from (oldest_snapshot tm.next_txn_id tm.slots) t.txn_id t.snapshot_id
              tm.committed_history t.read_set (omega arith),
        ))

  -- The conflict check finds a conflict exactly when the history of committed write sets has an entry of
  -- another transaction, with a commit id equal to the snapshot or later, and in it a row that the
  -- transaction read.
  pub ssi_check_conflict_iff :
      (tm : TransactionManager) (t : Transaction Info)
      → (ssi_check_conflict tm t ≡ true)
        ↔ Clash t.txn_id t.snapshot_id t.read_set tm.committed_history
  unfolding ssi_check_conflict
  ssi_check_conflict_iff tm t =
      let plain = check-conflicts tm.committed_history t.txn_id t.snapshot_id t.read_set in
      (
        λ e. conflicts_sound tm.committed_history t.txn_id t.snapshot_id t.read_set (sym plain ∙ e),
        λ c.
            plain
            ∙ conflicts_complete tm.committed_history t.txn_id t.snapshot_id t.read_set c.entry
                c.in_history c.foreign c.recent
                (overlaps_complete c.entry.writes t.read_set c.row c.was_written c.was_read),
      )
