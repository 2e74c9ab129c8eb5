-- ===== src/BufferPool/Invariant.antt =====
-- What holds of the buffer pool between calls, and the pages that it shows.
use minidb.Prelude.{ℕ, ◌≡◌, ◌≢◌, false, none, some, Elem}
use minidb.Page.{Page}
use minidb.BufferPool.{BufferPool, null_page_id, partition_for, find_page_mapping}

-- The page tables and the frames name each other, and each frame stands in the LRU list of its
-- partition only; no I/O is in progress, and a clean frame has what the store has.
pub record IsConsistent (s : BufferPool) : Type 0 where
  pub mapped :
      (id i : ℕ)
      → find_page_mapping s id ≡ some i
      → ((s.frames i).page_id ≡ id) × (id ≢ null_page_id)
  pub resident :
      (i : ℕ)
      → (s.frames i).page_id ≢ null_page_id
      → (find_page_mapping s (s.frames i).page_id ≡ some i)
        × (partition_for s (s.frames i).page_id ≡ (s.frames i).partition_idx)
  pub home : (p i : ℕ) → Elem i (s.partitions p).lru_list → (s.frames i).partition_idx ≡ p
  pub quiet : (i : ℕ) → (s.frames i).is_io_in_progress ≡ false
  pub clean :
      (i : ℕ)
      → (s.frames i).page_id ≢ null_page_id
      → (s.frames i).is_dirty ≡ false
      → (s.frames i).page ≡ s.disk (s.frames i).page_id

-- The page that the pool shows: that of its frame, or else that of the store.
unfoldable pub content : BufferPool → ℕ → Page
content s id = elim (find_page_mapping s id) [ none ↦ s.disk id | some i ↦ (s.frames i).page ]
