-- ===== src/BufferPool/Logged.antt =====
-- The log comes before the pages: what fetch_page and flush_page of storage/buffer_pool.cpp write.
use native.Mathlib.Decide.{ℕ_discrete}
use minidb.Prelude.{
  ℕ, ◌≤◌, ◌≡◌, ◌≢◌, refl, sym, ap, subst, ◌∙◌, inl, inr, Bool, true, false, Option, none, some,
  arith, ◌==◌, if◌then◌else◌, Bool-cases, Option-cases, not, ◌&&◌, ◌||◌,
}
use minidb.Page.{Page}
use minidb.BufferPool.{
  Frame, BufferPool, Answers, null_page_id, partition_for, find_page_mapping, find_victim_frame,
  reserve, load, write_back, read_in, fetch_page, flush_frame_wal_first, restore_evicted_frame,
}
use minidb.BufferPool.Invariant.{IsConsistent}
use minidb.BufferPool.Fetch.{flush-fields}
use minidb.BufferPool.Served.{pinned}
use minidb.BufferPool.FetchPage.{
  need_flush, fetch_page-hit, fetch_page-full, fetch_page-victim, fetch_page-null,
}

-- Where there is a log, the store has no page that is ahead of it.
abbrev pub IsLogged : BufferPool → Type 0
IsLogged s = (id d : ℕ) → s.durable_lsn ≡ some d → (s.disk id).lsn ≤ d

-- The durable LSN never falls.
abbrev pub IsMonotone : BufferPool → Answers → Type 0
IsMonotone s a = (d : ℕ) → s.durable_lsn ≡ some d → d ≤ a.flushed_lsn

pub flush_frame_wal_first-IsLogged :
    (a : Answers) (page : Page) (s : BufferPool)
    → IsLogged s
    → IsMonotone s a
    → IsLogged (flush_frame_wal_first a page s).0
      × ((flush_frame_wal_first a page s).1 ≡ true
          → (d : ℕ) → (flush_frame_wal_first a page s).0.durable_lsn ≡ some d
          → page.lsn ≤ d)
unfolding flush_frame_wal_first
flush_frame_wal_first-IsLogged a page s l m = elim (Option-cases s.durable_lsn) [
  | inl n ↦ ((λ id d e. ground (arith, n, e)), (λ ok d e. ground (arith, n, e)))
  | inr (c, at) ↦
      ((λ id d e. ground (arith, at, e, l id c at, m c at)), (λ ok d e. ground (arith, at, e, ok)))
]

pub IsLogged-same :
    (s s' : BufferPool)
    → s'.disk ≡ s.disk
    → s'.durable_lsn ≡ s.durable_lsn
    → IsLogged s
    → IsLogged s'
IsLogged-same s s' disk durable l id d e =
    subst (λ f. (f id).lsn ≤ d) (sym disk) (l id d (sym durable ∙ e))

-- A page that the log covers is written.
pub IsLogged-written :
    (s s' : BufferPool) (e : ℕ) (page : Page)
    → ((id : ℕ) → s'.disk id ≡ (if id == e then page else s.disk id))
    → s'.durable_lsn ≡ s.durable_lsn
    → ((d : ℕ) → s.durable_lsn ≡ some d → page.lsn ≤ d)
    → IsLogged s
    → IsLogged s'
IsLogged-written s s' e page disk durable covered l id d at = elim (Bool-cases (id == e)) [
  | inl here ↦
      let q : s'.disk id ≡ page = ground (arith, disk id, here) in
      subst (λ (g : Page). g.lsn ≤ d) (sym q) (covered d (sym durable ∙ at))
  | inr other ↦
      let q : s'.disk id ≡ s.disk id = ground (arith, disk id, other) in
      subst (λ (g : Page). g.lsn ≤ d) (sym q) (l id d (sym durable ∙ at))
]

module _ (p v e : ℕ) (need : Bool) (a : Answers) (t : BufferPool) where
  abbrev flushed : BufferPool × Bool
  flushed = if need then flush_frame_wal_first a (t.frames v).page t else (t, true)

  wb_skip :
      (e == null_page_id || not (t.frames v).is_dirty) ≡ true → (write_back p v e need a t).0 ≡ t
  unfolding write_back
  wb_skip h = ground (arith, h)

  wb_write :
      (e == null_page_id || not (t.frames v).is_dirty) ≡ false
      → flushed.1 && a.write_ok ≡ true
      → (write_back p v e need a t).0
        ≡ record (flushed.0) { disk = λ j. if j == e then (t.frames v).page else t.disk j }
  unfolding write_back
  wb_write h ok = ground (arith, h, ok)

  wb_fail :
      (e == null_page_id || not (t.frames v).is_dirty) ≡ false
      → flushed.1 && a.write_ok ≡ false
      → ((write_back p v e need a t).0.disk ≡ flushed.0.disk)
        × ((write_back p v e need a t).0.durable_lsn ≡ flushed.0.durable_lsn)
  unfolding write_back restore_evicted_frame
  wb_fail h no' = (ground (arith, h, no'), ground (arith, h, no'))

  flushed-IsLogged :
      IsLogged t
      → IsMonotone t a
      → (need ≡ false → (d : ℕ) → t.durable_lsn ≡ some d → (t.frames v).page.lsn ≤ d)
      → IsLogged flushed.0
        × (flushed.1 ≡ true → (d : ℕ) → flushed.0.durable_lsn ≡ some d → (t.frames v).page.lsn ≤ d)
  flushed-IsLogged l m covered = elim (Bool-cases need) [
    | inl yes' ↦ rw yes' (flush_frame_wal_first-IsLogged a (t.frames v).page t l m)
    | inr no' ↦ rw no' (l, λ ok. covered no')
  ]

  flushed_disk : flushed.0.disk ≡ t.disk
  flushed_disk = elim (Bool-cases need) [
    | inl yes' ↦ rw yes' (flush-fields a (t.frames v).page t).3
    | inr no' ↦ rw no' refl
  ]

  pub write_back-IsLogged :
      IsLogged t
      → IsMonotone t a
      → (need ≡ false
          → (t.frames v).is_dirty ≡ true
          → e ≢ null_page_id
          → (d : ℕ) → t.durable_lsn ≡ some d
          → (t.frames v).page.lsn ≤ d)
      → IsLogged (write_back p v e need a t).0
  write_back-IsLogged l m covered =
      elim (Bool-cases (e == null_page_id || not (t.frames v).is_dirty)) [
        | inl skip ↦ subst IsLogged (sym (wb_skip skip)) l
        | inr go ↦
            let (kept, logged) =
              flushed-IsLogged l m (λ n. covered n (ground (arith, go)) (ground (arith, go))) in
            elim (Bool-cases (flushed.1 && a.write_ok)) [
              | inl ok ↦ subst IsLogged (sym (wb_write go ok)) (
                  IsLogged-written flushed.0
                    (record (flushed.0) {
                      disk = λ j. if j == e then (t.frames v).page else t.disk j;
                    })
                    e (t.frames v).page (λ id. ground (arith, ap (λ h. h id) flushed_disk)) refl
                    (logged (ground (arith, ok))) kept)
              | inr no' ↦
                  let (disk, durable) = wb_fail go no' in
                  IsLogged-same flushed.0 (write_back p v e need a t).0 disk durable kept
            ]
      ]

read_in-same :
    (page_id v : ℕ) (seq : Bool) (a : Answers) (s : BufferPool)
    → ((read_in page_id v seq a s).0.disk ≡ s.disk)
      × ((read_in page_id v seq a s).0.durable_lsn ≡ s.durable_lsn)
unfolding read_in
read_in-same page_id v seq a s = (ground arith, ground arith)

pub reserve-same :
    (page_id v : ℕ) (s : BufferPool)
    → ((reserve page_id v s).disk ≡ s.disk)
      × ((reserve page_id v s).durable_lsn ≡ s.durable_lsn)
      × (((reserve page_id v s).frames v).page ≡ (s.frames v).page)
      × (((reserve page_id v s).frames v).is_dirty ≡ (s.frames v).is_dirty)
unfolding reserve
reserve-same page_id v s = (ground arith, ground arith, ground arith, ground arith)

load-IsLogged :
    (page_id v e : ℕ) (seq need : Bool) (a : Answers) (t : BufferPool)
    → IsLogged (write_back (partition_for t page_id) v e need a t).0
    → IsLogged (load page_id seq v e need a t).0
unfolding load
load-IsLogged page_id v e seq need a t l =
    let w = write_back (partition_for t page_id) v e need a t in
    elim (Bool-cases w.1) [
      | inr no' ↦ rw no' l
      | inl ok ↦
          let (disk, durable) = read_in-same page_id v seq a w.0 in
          rw ok (IsLogged-same w.0 (read_in page_id v seq a w.0).0 disk durable l)
    ]

-- What the block under the latch has asked for is enough.
pub covered_lem :
    (f : Frame) (durable : Option ℕ)
    → need_flush f durable ≡ false
    → f.is_dirty ≡ true
    → f.page_id ≢ null_page_id
    → (d : ℕ) → durable ≡ some d
    → f.page.lsn ≤ d
unfolding need_flush
covered_lem f none n dirty nz d e = absurd (ground (arith, e))
covered_lem f (some c) n dirty nz d e = ground (arith, n, dirty, nz, e)

pub fetch_page-IsLogged :
    (page_id : ℕ) (seq : Bool) (a : Answers) (s : BufferPool)
    → IsConsistent s
    → IsLogged s
    → IsMonotone s a
    → IsLogged (fetch_page page_id seq a s).0
fetch_page-IsLogged page_id seq a s k l m = elim (ℕ_discrete page_id null_page_id) [
  | yes z ↦ subst (λ r. IsLogged r.0) (sym (fetch_page-null page_id seq a s z)) l
  | no nz ↦ elim (Option-cases (find_page_mapping s page_id)) [
    | inr (i, at) ↦
        subst (λ r. IsLogged r.0) (sym (fetch_page-hit page_id i seq a s nz at (k.quiet i)))
          (unfold pinned in IsLogged-same s (pinned i s) refl refl l)
    | inl un ↦ elim (Option-cases (find_victim_frame s (partition_for s page_id))) [
      | inl full ↦ subst (λ r. IsLogged r.0) (sym (fetch_page-full page_id seq a s nz un full)) l
      | inr (v, at) ↦
          let t = reserve page_id v s in
          let e = (s.frames v).page_id in
          let need = need_flush (s.frames v) s.durable_lsn in
          let (disk, durable, page, dirty) = reserve-same page_id v s in
          subst (λ r. IsLogged r.0) (sym (fetch_page-victim page_id v seq a s nz un at))
            (load-IsLogged page_id v e seq need a t (
              write_back-IsLogged (partition_for t page_id) v e need a t
                (IsLogged-same s t disk durable l) (λ d q. m d (sym durable ∙ q))
                (λ n y ne d q.
                  subst (λ (g : Page). g.lsn ≤ d) (sym page)
                    (covered_lem (s.frames v) s.durable_lsn n (sym dirty ∙ y) ne d
                      (sym durable ∙ q)))))
    ]
  ]
]
