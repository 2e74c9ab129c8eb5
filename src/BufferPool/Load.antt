-- ===== src/BufferPool/Load.antt =====
-- The victim of fetch_page and new_page of storage/buffer_pool.cpp changes its page, or keeps it.
use native.Mathlib.Decide.{ℕ_discrete}
use minidb.Prelude.{
  ℕ, ◌%◌, ◌≡◌, ◌≢◌, ◌⊎◌, refl, sym, ap, subst, ◌∙◌, inl, inr, Bool, true, false, List, [], ◌∷◌,
  ◌++◌, Option, none, some, arith, ◌==◌, if◌then◌else◌, Elem, Bool-cases,
}
use minidb.Prelude.Assoc.{Assoc, insert, erase}
use minidb.BufferPool.{
  Frame, BufferPool, BufferPoolPartition, Answers, null_page_id, partition_for, find_page_mapping,
  reserve, write_back, read_in, load, without,
}
use minidb.BufferPool.Invariant.{IsConsistent}
use minidb.BufferPool.Replaced.{Replaced}
use minidb.BufferPool.Fetch.{write_back_done}
use minidb.BufferPool.Blocks.{home_of, order_of, read_in_done, read_in_failed}
use minidb.BufferPool.Reserve.{
  reserve-frames, reserve-tables, reserved_table, reserve-lists, reserve-count, find-page,
  find-empty, failed_write-Replaced, settled-Replaced, reserve-part, moved-home, not_held,
  reserve-disk,
}

-- Where the write is done, and where it is not.
load_done :
    (page_id : ℕ) (seq : Bool) (v e : ℕ) (need : Bool) (a : Answers) (t : BufferPool) (p : ℕ)
    → partition_for t page_id ≡ p
    → (write_back p v e need a t).1 ≡ true
    → load page_id seq v e need a t ≡ read_in page_id v seq a (write_back p v e need a t).0
unfolding load
load_done page_id seq v e need a t p hp =
    subst
      (λ q.
        (write_back q v e need a t).1 ≡ true
        → load page_id seq v e need a t ≡ read_in page_id v seq a (write_back q v e need a t).0)
      hp (λ d. ground (arith, d))

load_failed :
    (page_id : ℕ) (seq : Bool) (v e : ℕ) (need : Bool) (a : Answers) (t : BufferPool) (p : ℕ)
    → partition_for t page_id ≡ p
    → (write_back p v e need a t).1 ≡ false
    → load page_id seq v e need a t ≡ ((write_back p v e need a t).0, none)
unfolding load
load_failed page_id seq v e need a t p hp =
    subst
      (λ q.
        (write_back q v e need a t).1 ≡ false
        → load page_id seq v e need a t ≡ ((write_back q v e need a t).0, none))
      hp (λ d. ground (arith, d))

module _ (s : BufferPool) (page_id v : ℕ) (k : IsConsistent s) (nonnull : page_id ≢ null_page_id)
    (absent : find_page_mapping s page_id ≡ none)
    (listed : Elem v (s.partitions (partition_for s page_id)).lru_list) where
  abbrev old : Frame
  old = s.frames v

  abbrev written_back : Bool → Answers → BufferPool × Bool
  written_back need a =
      write_back (partition_for s page_id) v old.page_id need a (reserve page_id v s)

  -- A write that is done leaves the partitions as the reservation made them.
  written-home :
      (need : Bool) (a : Answers)
      → (written_back need a).1 ≡ true
      → partition_for (written_back need a).0 page_id ≡ partition_for s page_id
  written-home need a done =
      let (wf, wp, wc, wd) =
        write_back_done (partition_for s page_id) v old.page_id need a (reserve page_id v s) done in
      ap (λ n. if n == 0 then 0 else page_id % n)
        (wc ∙ reserve-count s page_id v k nonnull absent listed)

  written-table :
      (need : Bool) (a : Answers)
      → (written_back need a).1 ≡ true
      → ((written_back need a).0.partitions (partition_for s page_id)).page_table
        ≡ reserved_table s page_id v k nonnull absent listed
  written-table need a done =
      let (wf, wp, wc, wd) =
        write_back_done (partition_for s page_id) v old.page_id need a (reserve page_id v s) done in
      ap (λ (f : ℕ → BufferPoolPartition). (f (partition_for s page_id)).page_table) wp
      ∙ ground (arith, reserve-tables s page_id v k nonnull absent listed (partition_for s page_id))

  written-list :
      (need : Bool) (a : Answers)
      → (written_back need a).1 ≡ true
      → (q : ℕ) → ((written_back need a).0.partitions q).lru_list ≡ (s.partitions q).lru_list
  written-list need a done q =
      let (wf, wp, wc, wd) =
        write_back_done (partition_for s page_id) v old.page_id need a (reserve page_id v s) done in
      ap (λ (f : ℕ → BufferPoolPartition). (f q).lru_list) wp
      ∙ reserve-lists s page_id v k nonnull absent listed q

  in_order :
      (seq : Bool) (l : List ℕ) (i : ℕ)
      → Elem i (if seq then v ∷ without v l else without v l ++ v ∷ [])
      → Elem i (without v l ++ v ∷ []) ⊎ Elem i (v ∷ without v l)
  in_order false l i m = inl m
  in_order true l i m = inr m

  written-disk :
      (need : Bool) (a : Answers)
      → (written_back need a).1 ≡ true
      → (written_back need a).0.disk page_id ≡ s.disk page_id
  written-disk need a done =
      let (wf, wp, wc, wd) =
        write_back_done (partition_for s page_id) v old.page_id need a (reserve page_id v s) done in
      let apart = not_held s page_id v k nonnull absent listed in
      ground (
        arith,
        wd page_id,
        apart,
        ap (λ d. d page_id) (reserve-disk s page_id v k nonnull absent listed),
      )

  pub written-idx :
      (need : Bool) (a : Answers)
      → (written_back need a).1 ≡ true
      → ((written_back need a).0.frames v).partition_idx ≡ old.partition_idx
  written-idx need a done =
      let (wf, wp, wc, wd) =
        write_back_done (partition_for s page_id) v old.page_id need a (reserve page_id v s) done in
      ap (λ (f : ℕ → Frame). (f v).partition_idx) wf
      ∙ ground (arith, reserve-frames s page_id v k nonnull absent listed v)

  -- The frame is the page's after the write.
  pub filled-Replaced :
      (need seq : Bool) (a : Answers) (new : Frame) (r : BufferPool)
      → (written_back need a).1 ≡ true
      → ((j : ℕ) → r.frames j ≡ (if j == v then new else (written_back need a).0.frames j))
      → (r.partition_count ≡ (written_back need a).0.partition_count)
      → ((q : ℕ)
          → (r.partitions q).page_table ≡ (
              if q == home_of page_id v (written_back need a).0
              then insert page_id v
                  ((written_back need a).0.partitions
                    (home_of page_id v (written_back need a).0)).page_table
              else ((written_back need a).0.partitions q).page_table))
      → ((q : ℕ)
          → (r.partitions q).lru_list ≡ (
              if q == home_of page_id v (written_back need a).0
              then order_of page_id v
                  (written_back need a).0
                  seq
                  ((written_back need a).0.partitions q).lru_list
              else ((written_back need a).0.partitions q).lru_list))
      → (r.disk ≡ (written_back need a).0.disk)
      → (new.page_id ≡ page_id)
      → (new.partition_idx ≡ old.partition_idx)
      → (new.is_io_in_progress ≡ false)
      → (new.is_dirty ≡ false → new.page ≡ r.disk page_id)
      → Replaced s v new r
  filled-Replaced need seq a new r done frames count tables lists disk id_lem idx io clean =
      let p = partition_for s page_id in
      let w = (written_back need a).0 in
      let hp : partition_for w page_id ≡ p = written-home need a done in
      let table : Assoc ℕ = insert page_id v (reserved_table s page_id v k nonnull absent listed) in
      settled-Replaced s page_id v k nonnull absent listed need a new r table done frames count
        (λ q. ground (
          arith,
          tables q,
          hp,
          ap (λ n. (w.partitions n).page_table) hp,
          written-table need a done,
        ))
        (λ id. ground (arith, id_lem, find-page s page_id v k nonnull absent listed id))
        (λ q i m.
          let as_was : (s.partitions q).lru_list ≡ (w.partitions q).lru_list =
            sym (written-list need a done q) in
          elim (ℕ_discrete q p) [
            | no away ↦ k.home q i (
                subst (λ l. Elem i l)
                  (ground (arith, lists q, hp, away, written-list need a done q)) m)
            | yes here ↦
                let moved : (r.partitions q).lru_list
                    ≡ order_of page_id v w seq (s.partitions q).lru_list =
                  ground (arith, lists q, hp, here, written-list need a done q) in
                moved-home s page_id v k nonnull absent listed q i
                  (in_order seq (s.partitions q).lru_list i (subst (λ l. Elem i l) moved m)) here
          ])
        disk (inl id_lem) idx io (λ nz c. clean c ∙ ap r.disk (sym id_lem))

  abbrev pub loaded : Frame
  loaded = record {
    page = s.disk page_id;
    page_id = page_id;
    pin_count = 1;
    is_dirty = false;
    is_io_in_progress = false;
    partition_idx = old.partition_idx;
  }

  read-Replaced :
      (seq need : Bool) (a : Answers)
      → (written_back need a).1 ≡ true
      → a.read_ok ≡ true
      → Replaced s v loaded (read_in page_id v seq a (written_back need a).0).0
  read-Replaced seq need a done ok =
      let w = (written_back need a).0 in
      let (answer, frames, count, tables, lists, disk) = read_in_done page_id v w seq a ok in
      filled-Replaced need seq a loaded (read_in page_id v seq a w).0 done
        (λ j. ground (arith, frames j, written-disk need a done, written-idx need a done)) count
        tables lists disk refl refl refl
        (λ c. sym (ap (λ d. d page_id) disk ∙ written-disk need a done))

  abbrev emptied : Frame
  emptied = record old {
    page_id = null_page_id;
    pin_count = 0;
    is_dirty = false;
    is_io_in_progress = false;
  }

  unread-Replaced :
      (seq need : Bool) (a : Answers)
      → (written_back need a).1 ≡ true
      → a.read_ok ≡ false
      → Replaced s v emptied (read_in page_id v seq a (written_back need a).0).0
  unread-Replaced seq need a done failed =
      let p = partition_for s page_id in
      let w = (written_back need a).0 in
      let (wf, wp, wc, wd) = write_back_done p v old.page_id need a (reserve page_id v s) done in
      let hp : partition_for w page_id ≡ p = written-home need a done in
      let (answer, frames, count, tables, lists, disk) = read_in_failed page_id v w seq a failed in
      let table : Assoc ℕ = erase page_id (reserved_table s page_id v k nonnull absent listed) in
      settled-Replaced s page_id v k nonnull absent listed need a emptied
        (read_in page_id v seq a w).0 table done
        (λ j.
          ground (
            arith,
            frames j,
            ap (λ f. f v) wf,
            reserve-frames s page_id v k nonnull absent listed v,
          ))
        count
        (λ q. ground (
          arith,
          tables q,
          hp,
          ap (λ n. (w.partitions n).page_table) hp,
          written-table need a done,
        ))
        (find-empty s page_id v k nonnull absent listed)
        (λ q i m. k.home q i (subst (λ l. Elem i l) (lists q ∙ written-list need a done q) m)) disk
        (inr refl) refl refl (λ nz. absurd (nz refl))

  -- The victim after the I/O of fetch_page: the page's frame, or unpinned with its old page, or empty.
  pub load-Replaced :
      (seq need : Bool) (a : Answers)
      → (let r = load page_id seq v old.page_id need a (reserve page_id v s) in
          ((r.1 ≡ some v) × Replaced s v loaded r.0)
          ⊎ ((r.1 ≡ none)
              × ((new : Frame) × Replaced s v new r.0
                  × ((new.page_id ≡ null_page_id)
                      ⊎ (new ≡ record old { pin_count = 0; is_io_in_progress = false })))))
  load-Replaced seq need a =
      let P : BufferPool × Option ℕ → Type 0 = λ r.
        ((r.1 ≡ some v) × Replaced s v loaded r.0)
        ⊎ ((r.1 ≡ none)
            × ((new : Frame) × Replaced s v new r.0
                × ((new.page_id ≡ null_page_id)
                    ⊎ (new ≡ record old { pin_count = 0; is_io_in_progress = false })))) in
      let t = reserve page_id v s in
      let p = partition_for s page_id in
      let hp = reserve-part s page_id v k nonnull absent listed in
      elim (Bool-cases (written_back need a).1) [
        | inr failed ↦
            let kept = failed_write-Replaced s page_id v k nonnull absent listed need a failed in
            subst P (sym (load_failed page_id seq v old.page_id need a t p hp failed)) (
              inr (refl, (record old { pin_count = 0; is_io_in_progress = false }, kept, inr refl)))
        | inl done ↦
            subst P (sym (load_done page_id seq v old.page_id need a t p hp done))
              (elim (Bool-cases a.read_ok) [
                | inl ok ↦ inl (
                  (read_in_done page_id v (written_back need a).0 seq a ok).0,
                  read-Replaced seq need a done ok,
                )
                | inr no' ↦ inr (
                  (read_in_failed page_id v (written_back need a).0 seq a no').0,
                  (emptied, unread-Replaced seq need a done no', inl refl),
                )
              ])
      ]
