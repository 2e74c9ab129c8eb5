-- ===== src/BufferPool/Races.antt =====
-- Between the blocks of fetch_page of storage/buffer_pool.cpp another thread may run.
use minidb.Prelude.{
  ℕ, ◌%◌, ◌≡◌, ◌≢◌, sym, ap, subst, ◌∙◌, inl, inr, Bool, true, false, none, some, arith, ◌==◌,
  if◌then◌else◌, Elem,
}
use minidb.Prelude.Assoc.{find}
use minidb.BufferPool.{
  BufferPool, Answers, null_page_id, partition_for, find_page_mapping, find_victim_frame, reserve,
  read_in, claim, fetch_page, load, write_back,
}
use minidb.BufferPool.Invariant.{IsConsistent, content}
use minidb.BufferPool.Fetch.{victim-Elem}
use minidb.BufferPool.Blocks.{read_in_done}
use minidb.BufferPool.Reserve.{reserve-tables, reserve-count, find-reserved_table, not_held}
use minidb.BufferPool.Served.{old_page}
use minidb.BufferPool.FetchPage.{need_flush, fetch_page-victim}
use minidb.BufferPool.Logged.{reserve-same}

claim-reserve :
    (page_id v : ℕ) (s : BufferPool)
    → find_page_mapping s page_id ≡ none
    → find_victim_frame s (partition_for s page_id) ≡ some v
    → (claim page_id s).0 ≡ reserve page_id v s
unfolding claim
claim-reserve page_id v s un at = ground (arith, un, at)

module _ (s : BufferPool) (page_id v : ℕ) (k : IsConsistent s) (nonnull : page_id ≢ null_page_id)
    (absent : find_page_mapping s page_id ≡ none)
    (listed : Elem v (s.partitions (partition_for s page_id)).lru_list)
    (held : (s.frames v).page_id ≢ null_page_id) where
  evicted_unmapped : find_page_mapping (reserve page_id v s) (s.frames v).page_id ≡ none
  unfolding find_page_mapping
  evicted_unmapped =
      let e = (s.frames v).page_id in
      let t = reserve page_id v s in
      let p = partition_for s page_id in
      let home : partition_for s e ≡ p = (k.resident v held).1 ∙ k.home p v listed in
      let part : partition_for t e ≡ p =
        ap (λ n. if n == 0 then 0 else e % n) (reserve-count s page_id v k nonnull absent listed)
        ∙ home in
      let apart : e ≢ page_id = not_held s page_id v k nonnull absent listed in
      ap (λ n. find e (t.partitions n).page_table) part
      ∙ ground (
        arith,
        reserve-tables s page_id v k nonnull absent listed p,
        find-reserved_table s page_id v k nonnull absent listed e,
        apart,
        held,
      )

-- A fetch of an absent page into a frame that is clean reads the page of the store.
fetch_page-clean :
    (page_id w : ℕ) (seq : Bool) (a : Answers) (t : BufferPool)
    → page_id ≢ null_page_id
    → find_page_mapping t page_id ≡ none
    → find_victim_frame t (partition_for t page_id) ≡ some w
    → (t.frames w).is_dirty ≡ false
    → a.read_ok ≡ true
    → ((fetch_page page_id seq a t).1 ≡ some w)
      × (((fetch_page page_id seq a t).0.frames w).page ≡ t.disk page_id)
unfolding load write_back
fetch_page-clean page_id w seq a t nz un at clean ok =
    let u = reserve page_id w t in
    let need = need_flush (t.frames w) t.durable_lsn in
    let (disk, _, _, dirty) = reserve-same page_id w t in
    let tidy : (u.frames w).is_dirty ≡ false = dirty ∙ clean in
    let same : fetch_page page_id seq a t ≡ read_in page_id w seq a u =
      fetch_page-victim page_id w seq a t nz un at ∙ ground (arith, tidy) in
    let (answer, frames, _, _, _, _) = read_in_done page_id w u seq a ok in
    subst (λ r. (r.1 ≡ some w) × ((r.0.frames w).page ≡ t.disk page_id)) (sym same)
      (answer, ground (arith, frames w, ap (λ d. d page_id) disk))

-- If the victim `v` of a fetch in a consistent pool has a page that differs from the store's, and a second
-- thread fetches that page after the first has claimed the frame and before it writes it, with a victim
-- `w` that is clean and a read that succeeds, then it is answered frame `w` with the page of the store,
-- which is not the page that the pool has shown.
pub claim-fetch_page :
    (s : BufferPool) (page_id v w : ℕ) (seq : Bool) (a : Answers)
    → IsConsistent s
    → page_id ≢ null_page_id
    → find_page_mapping s page_id ≡ none
    → find_victim_frame s (partition_for s page_id) ≡ some v
    → (s.frames v).page_id ≢ null_page_id
    → (s.frames v).page ≢ s.disk (s.frames v).page_id
    → find_victim_frame (claim page_id s).0 (partition_for (claim page_id s).0 (s.frames v).page_id)
      ≡ some w
    → ((claim page_id s).0.frames w).is_dirty ≡ false
    → a.read_ok ≡ true
    → (let e = (s.frames v).page_id in
        let r = fetch_page e seq a (claim page_id s).0 in
        (r.1 ≡ some w) × ((r.0.frames w).page ≡ s.disk e) × ((r.0.frames w).page ≢ content s e))
claim-fetch_page s page_id v w seq a k nz un at held changed second clean ok =
    let e = (s.frames v).page_id in
    let l = (s.partitions (partition_for s page_id)).lru_list in
    let listed : Elem v l = elim (victim-Elem s.frames none l v at) [
      | inl z ↦ absurd (ground (arith, z))
      | inr m ↦ m
    ] in
    let t = (claim page_id s).0 in
    let claimed = claim-reserve page_id v s un at in
    let gone : find_page_mapping t e ≡ none =
      ap (λ u. find_page_mapping u e) claimed ∙ evicted_unmapped s page_id v k nz un listed held in
    let disk : t.disk e ≡ s.disk e =
      ap (λ (u : BufferPool). u.disk e) claimed ∙ ap (λ d. d e) (reserve-same page_id v s).0 in
    let (answer, page) = fetch_page-clean e w seq a t held gone second clean ok in
    (answer, page ∙ disk, λ same. changed (old_page s v k held ∙ sym same ∙ page ∙ disk))
