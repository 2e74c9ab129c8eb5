-- ===== src/BufferPool/Reserve.antt =====
-- The victim of fetch_page and new_page of storage/buffer_pool.cpp, from its reservation on.
use minidb.Prelude.{
  ℕ, ◌%◌, ◌≡◌, ◌≢◌, ◌⊎◌, refl, sym, ap, subst, ◌∙◌, inl, inr, Bool, true, false, [], ◌∷◌, ◌++◌,
  none, some, arith, ◌==◌, if◌then◌else◌, Elem, Elem-append, Bool-cases, not, ◌&&◌,
}
use minidb.Prelude.Assoc.{Assoc, find, insert, erase, find-insert, find-erase}
use minidb.BufferPool.{
  Frame, BufferPool, BufferPoolPartition, Answers, null_page_id, partition_for, find_page_mapping,
  reserve, write_back, without,
}
use minidb.BufferPool.Invariant.{IsConsistent}
use minidb.BufferPool.Replaced.{Replaced}
use minidb.BufferPool.Tables.{table-mapping}
use minidb.BufferPool.Fetch.{write_back_done, write_back_failed, without-Elem}

module _ (s : BufferPool) (page_id v : ℕ) (k : IsConsistent s) (nonnull : page_id ≢ null_page_id)
    (absent : find_page_mapping s page_id ≡ none)
    (listed : Elem v (s.partitions (partition_for s page_id)).lru_list) where
  abbrev pub old : Frame
  old = s.frames v

  pub at_home : partition_for s page_id ≡ old.partition_idx
  at_home = sym (k.home (partition_for s page_id) v listed)

  pub reserve-frames :
      (j : ℕ)
      → (reserve page_id v s).frames j ≡ (
          if j == v
          then record old { page_id = page_id; pin_count = 1; is_io_in_progress = true }
          else s.frames j)
  unfolding reserve
  reserve-frames j = ground arith

  pub reserved_table : Assoc ℕ
  reserved_table =
      let t = (s.partitions (partition_for s page_id)).page_table in
      insert page_id v (if old.page_id == null_page_id then t else erase old.page_id t)

  pub reserve-tables :
      (q : ℕ)
      → ((reserve page_id v s).partitions q).page_table
        ≡ (if q == partition_for s page_id then reserved_table else (s.partitions q).page_table)
  unfolding reserved_table reserve
  reserve-tables q = ground arith

  pub reserve-lists :
      (q : ℕ) → ((reserve page_id v s).partitions q).lru_list ≡ (s.partitions q).lru_list
  unfolding reserve
  reserve-lists q = ground arith

  pub reserve-count : (reserve page_id v s).partition_count ≡ s.partition_count
  unfolding reserve
  reserve-count = ground arith

  pub reserve-disk : (reserve page_id v s).disk ≡ s.disk
  unfolding reserve
  reserve-disk = ground arith

  pub find-reserved_table :
      (id : ℕ)
      → find id reserved_table ≡ (
          if id == page_id
          then some v
          else if id == old.page_id && not (id == null_page_id)
          then none
          else find id (s.partitions (partition_for s page_id)).page_table)
  unfolding reserved_table
  find-reserved_table id =
      let t = (s.partitions (partition_for s page_id)).page_table in
      let e = find-erase old.page_id id t in
      ground (arith, find-insert page_id id v t, find-insert page_id id v (erase old.page_id t), e)

  absent_table :
      (id : ℕ) → id ≡ page_id → find id (s.partitions (partition_for s page_id)).page_table ≡ none
  unfolding find_page_mapping
  absent_table id e =
      ap (λ j. find j (s.partitions (partition_for s page_id)).page_table) e ∙ absent

  pub not_held : old.page_id ≢ page_id
  not_held e =
      let held = (k.resident v (λ z. nonnull (sym e ∙ z))).0 in
      ground (arith, absent, subst (λ j. find_page_mapping s j ≡ some v) e held)

  -- The frame is left as it was, but unpinned, where the write fails.
  pub failed_write-Replaced :
      (need : Bool) (a : Answers)
      → (write_back (partition_for s page_id) v old.page_id need a (reserve page_id v s)).1 ≡ false
      → Replaced s v
          (record old { pin_count = 0; is_io_in_progress = false })
          (write_back (partition_for s page_id) v old.page_id need a (reserve page_id v s)).0
  failed_write-Replaced need a failed =
      let p = partition_for s page_id in
      let t = reserve page_id v s in
      let w = write_back p v old.page_id need a t in
      let mine : t.frames v
          ≡ record old { page_id = page_id; pin_count = 1; is_io_in_progress = true } =
        ground (arith, reserve-frames v) in
      let reserved = ap (λ (f : Frame). f.page_id) mine in
      let before : (t.partitions p).page_table ≡ reserved_table =
        ground (arith, reserve-tables p) in
      let (held, frames, tables, lists, count, disk) =
        write_back_failed p v old.page_id need a t failed in
      let table = insert old.page_id v (erase (t.frames v).page_id (t.partitions p).page_table) in
      record {
        fresh = λ ne. absurd (ne refl);
        frames = λ j. ground (arith, frames j, reserve-frames j, reserve-frames v);
        count = count ∙ reserve-count;
        mapping =
            table-mapping s v old.page_id table w.0 k (λ nz. (k.resident v nz).1)
              (count ∙ reserve-count)
              (λ q.
                subst
                  (λ m.
                    (w.0.partitions q).page_table
                    ≡ (if q == m then table else (s.partitions q).page_table))
                  at_home (ground (arith, tables q, reserve-tables q)))
              (λ id.
                let e = find-erase (t.frames v).page_id id (t.partitions p).page_table in
                let i =
                  find-insert old.page_id id v
                    (erase (t.frames v).page_id (t.partitions p).page_table) in
                let b = ap (find id) before in
                subst
                  (λ m. find id table ≡ (
                    if id == old.page_id && not (id == null_page_id)
                    then some v
                    else if id == old.page_id && not (id == null_page_id)
                    then none
                    else find id (s.partitions m).page_table))
                  at_home
                  (ground
                    (arith, e, i, b, reserved, find-reserved_table id, absent_table id, held)));
        lists = λ q i m. k.home q i (subst (λ l. Elem i l) (lists q ∙ reserve-lists q) m);
        same_idx = refl;
        at_home = λ nz. (k.resident v nz).1;
        at_rest = refl;
        disk = λ id e. ap (λ d. d id) (disk ∙ reserve-disk);
        stored = λ nz ne. absurd (ne refl);
        new_clean = λ nz c. k.clean v nz c ∙ ap (λ d. d old.page_id) (sym (disk ∙ reserve-disk));
      }

  -- What stands in the page table where the frame has the page, and where it is empty.
  pub find-page :
      (id : ℕ)
      → find id (insert page_id v reserved_table) ≡ (
          if id == page_id && not (id == null_page_id)
          then some v
          else if id == old.page_id && not (id == null_page_id)
          then none
          else find id (s.partitions (partition_for s page_id)).page_table)
  find-page id =
      ground (arith, find-insert page_id id v reserved_table, find-reserved_table id, nonnull)

  pub find-empty :
      (id : ℕ)
      → find id (erase page_id reserved_table) ≡ (
          if id == null_page_id && not (id == null_page_id)
          then some v
          else if id == old.page_id && not (id == null_page_id)
          then none
          else find id (s.partitions (partition_for s page_id)).page_table)
  find-empty id =
      ground (arith, find-erase page_id id reserved_table, find-reserved_table id, absent_table id)

  -- What the last block of either call makes of the frame, after a write that is done.
  pub settled-Replaced :
      (need : Bool) (a : Answers) (new : Frame) (r : BufferPool) (table : Assoc ℕ)
      → (let w = write_back (partition_for s page_id) v old.page_id need a (reserve page_id v s) in
          (w.1 ≡ true)
          → ((j : ℕ) → r.frames j ≡ (if j == v then new else w.0.frames j))
          → (r.partition_count ≡ w.0.partition_count)
          → ((q : ℕ)
              → (r.partitions q).page_table
                ≡ (if q == partition_for s page_id then table else (w.0.partitions q).page_table))
          → ((id : ℕ)
              → find id table ≡ (
                  if id == new.page_id && not (id == null_page_id)
                  then some v
                  else if id == old.page_id && not (id == null_page_id)
                  then none
                  else find id (s.partitions (partition_for s page_id)).page_table))
          → ((q i : ℕ) → Elem i (r.partitions q).lru_list → (s.frames i).partition_idx ≡ q)
          → (r.disk ≡ w.0.disk)
          → ((new.page_id ≡ page_id) ⊎ (new.page_id ≡ null_page_id))
          → (new.partition_idx ≡ old.partition_idx)
          → (new.is_io_in_progress ≡ false)
          → (new.page_id ≢ null_page_id → new.is_dirty ≡ false → new.page ≡ r.disk new.page_id)
          → Replaced s v new r)
  settled-Replaced need a new r table done frames count tables finds lists disk id_lem idx io
        clean =
      let p = partition_for s page_id in
      let t = reserve page_id v s in
      let mine : t.frames v
          ≡ record old { page_id = page_id; pin_count = 1; is_io_in_progress = true } =
        ground (arith, reserve-frames v) in
      let (wf, wp, wc, wd) = write_back_done p v old.page_id need a t done in
      let the_page : new.page_id ≢ null_page_id → new.page_id ≡ page_id =
        λ nz. elim id_lem [ inl e ↦ e | inr z ↦ absurd (nz z) ] in
      let home : new.page_id ≢ null_page_id → partition_for s new.page_id ≡ old.partition_idx =
        λ nz. ap (partition_for s) (the_page nz) ∙ at_home in
      record {
        fresh = λ ne nz. ap (find_page_mapping s) (the_page nz) ∙ absent;
        frames = λ j. ground (arith, frames j, ap (λ f. f j) wf, reserve-frames j);
        count = count ∙ wc ∙ reserve-count;
        mapping =
            table-mapping s v new.page_id table r k home (count ∙ wc ∙ reserve-count)
              (λ q.
                subst
                  (λ m.
                    (r.partitions q).page_table
                    ≡ (if q == m then table else (s.partitions q).page_table))
                  at_home
                  (ground (
                    arith,
                    tables q,
                    ap (λ (f : ℕ → BufferPoolPartition). (f q).page_table) wp,
                    reserve-tables q,
                  )))
              (λ id.
                subst
                  (λ m. find id table ≡ (
                    if id == new.page_id && not (id == null_page_id)
                    then some v
                    else if id == old.page_id && not (id == null_page_id)
                    then none
                    else find id (s.partitions m).page_table))
                  at_home (finds id));
        lists = lists;
        same_idx = idx;
        at_home = λ nz. home nz ∙ sym idx;
        at_rest = io;
        disk = λ id e. ground (arith, ap (λ d. d id) disk, wd id, ap (λ d. d id) reserve-disk, e);
        stored = λ nz ne. elim (Bool-cases old.is_dirty) [
          | inl dirty ↦
              ground (arith, ap (λ d. d old.page_id) disk, wd old.page_id, mine, nz, dirty)
          | inr tidy ↦ ground (
            arith,
            ap (λ d. d old.page_id) disk,
            wd old.page_id,
            mine,
            tidy,
            ap (λ d. d old.page_id) reserve-disk,
            k.clean v nz tidy,
          )
        ];
        new_clean = clean;
      }

  pub reserve-part : partition_for (reserve page_id v s) page_id ≡ partition_for s page_id
  reserve-part = ap (λ n. if n == 0 then 0 else page_id % n) reserve-count

  -- The list of the partition after the frame has moved in it.
  pub moved-home :
      (q i : ℕ)
      → Elem i (without v (s.partitions q).lru_list ++ v ∷ [])
        ⊎ Elem i (v ∷ without v (s.partitions q).lru_list)
      → q ≡ partition_for s page_id
      → (s.frames i).partition_idx ≡ q
  moved-home q i (inl m) e = elim (Elem-append i (without v (s.partitions q).lru_list) (v ∷ []) m) [
    | inl l ↦ k.home q i (without-Elem v i (s.partitions q).lru_list l)
    | inr r ↦ elim r [
      | inl here ↦ ap (λ j. (s.frames j).partition_idx) here ∙ sym at_home ∙ sym e
      | inr z ↦ elim z [ ]
    ]
  ]
  moved-home q i (inr (inl here)) e =
      ap (λ j. (s.frames j).partition_idx) here ∙ sym at_home ∙ sym e
  moved-home q i (inr (inr m)) e = k.home q i (without-Elem v i (s.partitions q).lru_list m)
