-- ===== src/BufferPool/WalFirst.antt =====
-- No call of storage/buffer_pool.cpp writes a page that is ahead of the log.
use native.Mathlib.Decide.{ℕ_discrete}
use minidb.Prelude.{
  ℕ, ◌≤◌, ◌≡◌, refl, sym, ap, subst, ◌∙◌, inl, inr, Bool, false, Option, none, some, arith, ◌==◌,
  if◌then◌else◌, Bool-cases, Option-cases, ◌&&◌,
}
use minidb.Page.{Page}
use minidb.BufferPool.{
  BufferPool, Answers, null_page_id, partition_for, find_page_mapping, find_victim_frame, reserve,
  write_back, make_new, new_page, unpin_page, mark_dirty, set_page_lsn, flush_page,
  flush_frame_wal_first, set_frame,
}
use minidb.BufferPool.Invariant.{IsConsistent}
use minidb.BufferPool.Fetch.{flush-fields}
use minidb.BufferPool.FetchPage.{need_flush}
use minidb.BufferPool.MakeNew.{
  new_page-null, new_page-hit, new_page-full, new_page-victim, create, moved_pinned,
}
use minidb.BufferPool.Calls
use minidb.BufferPool.Calls.{Call, call, write_page}
use minidb.BufferPool.Flush.{
  flush_page_clean, flush_page_failed, flush_page_done, flush_page-absent,
}
use minidb.BufferPool.Logged.{
  IsLogged, IsMonotone, IsLogged-same, IsLogged-written, flush_frame_wal_first-IsLogged,
  write_back-IsLogged, reserve-same, covered_lem, fetch_page-IsLogged,
}

make_new-same :
    (page_id page_type v : ℕ) (s : BufferPool)
    → ((make_new page_id page_type v s).0.disk ≡ s.disk)
      × ((make_new page_id page_type v s).0.durable_lsn ≡ s.durable_lsn)
unfolding make_new
make_new-same page_id page_type v s = (ground arith, ground arith)

create-IsLogged :
    (page_id page_type p v e : ℕ) (need : Bool) (a : Answers) (t : BufferPool)
    → IsLogged (write_back p v e need a t).0
    → IsLogged (create page_id page_type p v e need a t).0
unfolding create
create-IsLogged page_id page_type p v e need a t l =
    let w = write_back p v e need a t in
    elim (Bool-cases w.1) [
      | inr no' ↦ rw no' l
      | inl ok ↦
          let (disk, durable) = make_new-same page_id page_type v w.0 in
          rw ok (IsLogged-same w.0 (make_new page_id page_type v w.0).0 disk durable l)
    ]

new_page-IsLogged :
    (page_id page_type : ℕ) (a : Answers) (s : BufferPool)
    → IsConsistent s
    → IsLogged s
    → IsMonotone s a
    → IsLogged (new_page page_id page_type a s).0
new_page-IsLogged page_id page_type a s k l m = elim (ℕ_discrete page_id null_page_id) [
  | yes z ↦ subst (λ r. IsLogged r.0) (sym (new_page-null page_id page_type a s z)) l
  | no nz ↦ elim (Option-cases (find_page_mapping s page_id)) [
    | inr (i, at) ↦
        subst (λ r. IsLogged r.0) (sym (new_page-hit page_id page_type i a s nz at (k.quiet i)))
          (unfold moved_pinned in
            IsLogged-same s (moved_pinned (partition_for s page_id) i s) refl refl l)
    | inl un ↦ elim (Option-cases (find_victim_frame s (partition_for s page_id))) [
      | inl full ↦
          subst (λ r. IsLogged r.0) (sym (new_page-full page_id page_type a s nz un full)) l
      | inr (v, at) ↦
          let t = reserve page_id v s in
          let e = (s.frames v).page_id in
          let need = need_flush (s.frames v) s.durable_lsn in
          let (disk, durable, page, dirty) = reserve-same page_id v s in
          subst (λ r. IsLogged r.0) (sym (new_page-victim page_id page_type v a s nz un at))
            (create-IsLogged page_id page_type (partition_for t page_id) v e need a t (
              write_back-IsLogged (partition_for t page_id) v e need a t
                (IsLogged-same s t disk durable l) (λ d q. m d (sym durable ∙ q))
                (λ n y ne d q.
                  subst (λ (g : Page). g.lsn ≤ d) (sym page)
                    (covered_lem (s.frames v) s.durable_lsn n (sym dirty ∙ y) ne d
                      (sym durable ∙ q)))))
    ]
  ]
]

flush_page-IsLogged :
    (page_id : ℕ) (a : Answers) (s : BufferPool)
    → IsLogged s
    → IsMonotone s a
    → IsLogged (flush_page page_id a s)
flush_page-IsLogged page_id a s l m = elim (Option-cases (find_page_mapping s page_id)) [
  | inl un ↦ subst IsLogged (sym (flush_page-absent page_id a s un)) l
  | inr (i, at) ↦
      let page = (s.frames i).page in
      let fl = flush_frame_wal_first a page s in
      let (kept, logged) = flush_frame_wal_first-IsLogged a page s l m in
      let (frames, parts, count, disk) = flush-fields a page s in
      elim (Bool-cases (s.frames i).is_dirty) [
        | inr c ↦ subst IsLogged (sym (flush_page_clean page_id i a s at c)) l
        | inl d ↦ elim (Bool-cases (fl.1 && a.write_ok)) [
          | inr no' ↦ subst IsLogged (sym (flush_page_failed page_id i a s at d no')) kept
          | inl ok ↦ subst IsLogged (sym (flush_page_done page_id i a s at d ok)) (
              IsLogged-written fl.0
                (set_frame
                  (record (fl.0) {
                    disk = λ j. if j == (s.frames i).page_id then page else s.disk j;
                  })
                  i (record (s.frames i) { is_dirty = false }))
                (s.frames i).page_id page
                (λ id. ap (λ h. if id == (s.frames i).page_id then page else h id) (sym disk)) refl
                (logged (ground (arith, ok))) kept)
        ]
      ]
]

module _ (page_id : ℕ) (s : BufferPool) where
  unpin_page-same :
      ((unpin_page page_id s).disk ≡ s.disk) × ((unpin_page page_id s).durable_lsn ≡ s.durable_lsn)
  unfolding unpin_page
  unpin_page-same = (ground arith, ground arith)

  mark_dirty-same :
      ((mark_dirty page_id s).disk ≡ s.disk) × ((mark_dirty page_id s).durable_lsn ≡ s.durable_lsn)
  unfolding mark_dirty
  mark_dirty-same = (ground arith, ground arith)

  set_page_lsn-same :
      (lsn : ℕ)
      → ((set_page_lsn page_id lsn s).disk ≡ s.disk)
        × ((set_page_lsn page_id lsn s).durable_lsn ≡ s.durable_lsn)
  unfolding set_page_lsn
  set_page_lsn-same lsn = (ground arith, ground arith)

  write_page-same :
      (page : Page)
      → ((write_page page_id page s).disk ≡ s.disk)
        × ((write_page page_id page s).durable_lsn ≡ s.durable_lsn)
  unfolding write_page
  write_page-same page = (ground arith, ground arith)

-- What the store and the log answer to a call.
unfoldable pub answers_to : Call → Option Answers
answers_to (Calls.fetch page_id seq a) = some a
answers_to (Calls.create page_id page_type a) = some a
answers_to (Calls.unpin page_id) = none
answers_to (Calls.dirty page_id) = none
answers_to (Calls.advance_lsn page_id lsn) = none
answers_to (Calls.flush page_id a) = some a
answers_to (Calls.write page_id page) = none

-- The log comes before the pages: if the store has no page that is ahead of the durable log, and the
-- durable LSN does not fall, every call on a consistent pool leaves the store so, whatever else is
-- answered.
pub call-IsLogged :
    (c : Call) (s : BufferPool)
    → IsConsistent s
    → IsLogged s
    → ((a : Answers) → answers_to c ≡ some a → IsMonotone s a)
    → IsLogged (call c s)
unfolding call answers_to
call-IsLogged (Calls.fetch page_id seq a) s k l m =
    fetch_page-IsLogged page_id seq a s k l (m a refl)
call-IsLogged (Calls.create page_id page_type a) s k l m =
    new_page-IsLogged page_id page_type a s k l (m a refl)
call-IsLogged (Calls.unpin page_id) s k l m =
    let (disk, durable) = unpin_page-same page_id s in
    IsLogged-same s (unpin_page page_id s) disk durable l
call-IsLogged (Calls.dirty page_id) s k l m =
    let (disk, durable) = mark_dirty-same page_id s in
    IsLogged-same s (mark_dirty page_id s) disk durable l
call-IsLogged (Calls.advance_lsn page_id lsn) s k l m =
    let (disk, durable) = set_page_lsn-same page_id s lsn in
    IsLogged-same s (set_page_lsn page_id lsn s) disk durable l
call-IsLogged (Calls.flush page_id a) s k l m = flush_page-IsLogged page_id a s l (m a refl)
call-IsLogged (Calls.write page_id page) s k l m =
    let (disk, durable) = write_page-same page_id s page in
    IsLogged-same s (write_page page_id page s) disk durable l
