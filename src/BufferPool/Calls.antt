-- ===== src/BufferPool/Calls.antt =====
-- The calls of storage/buffer_pool.cpp as data, and what each does to a plain memory.
use minidb.Prelude.{
  ℕ, Bool, true, false, List, [], ◌∷◌, Option, none, some, ltb, ◌==◌, if◌then◌else◌, not, ◌&&◌,
}
use minidb.Page.{Page, init}
use minidb.BufferPool.{
  BufferPool, Answers, find_page_mapping, fetch_page, new_page, unpin_page, mark_dirty,
  set_page_lsn, flush_page, set_frame,
}

-- A client that has a page pinned writes to it, and marks it dirty.
unfoldable pub write_page : ℕ → Page → BufferPool → BufferPool
write_page page_id page s = elim (find_page_mapping s page_id) [
  | none ↦ s
  | some i ↦ set_frame s i (record (s.frames i) { page = page; is_dirty = true })
]

pub data Call : Type 0 where
  fetch : (page_id : ℕ) (sequential_hint : Bool) (a : Answers) → Call
  create : (page_id page_type : ℕ) (a : Answers) → Call
  unpin : (page_id : ℕ) → Call
  dirty : (page_id : ℕ) → Call
  advance_lsn : (page_id lsn : ℕ) → Call
  flush : (page_id : ℕ) (a : Answers) → Call
  write : (page_id : ℕ) (page : Page) → Call

unfoldable pub call : Call → BufferPool → BufferPool
call (fetch page_id seq a) s = (fetch_page page_id seq a s).0
call (create page_id page_type a) s = (new_page page_id page_type a s).0
call (unpin page_id) s = unpin_page page_id s
call (dirty page_id) s = mark_dirty page_id s
call (advance_lsn page_id lsn) s = set_page_lsn page_id lsn s
call (flush page_id a) s = flush_page page_id a s
call (write page_id page) s = write_page page_id page s

unfoldable pub is_cached : BufferPool → ℕ → Bool
is_cached s page_id = elim (find_page_mapping s page_id) [ none ↦ false | some i ↦ true ]

unfoldable pub is_answered : Option ℕ → Bool
is_answered none = false
is_answered (some i) = true

-- What a call does to the memory that the pool stands for. A page is made, changed or advanced only
-- where the call says that it is: `made`, and the cache.
unfoldable pub effect : Call → (made cached : Bool) → (ℕ → Page) → ℕ → Page
effect (fetch page_id seq a) made cached m = m
effect (create page_id page_type a) made cached m =
    λ id. if made && not cached && id == page_id then init page_id page_type else m id
effect (unpin page_id) made cached m = m
effect (dirty page_id) made cached m = m
effect (advance_lsn page_id lsn) made cached m = λ id.
    if cached && id == page_id && ltb (m id).lsn lsn then record (m id) { lsn = lsn } else m id
effect (flush page_id a) made cached m = m
effect (write page_id page) made cached m = λ id. if cached && id == page_id then page else m id

-- Whether new_page answers with a frame.
unfoldable pub is_made : Call → BufferPool → Bool
is_made (create page_id page_type a) s = is_answered (new_page page_id page_type a s).1
is_made c s = false

unfoldable pub page_of : Call → ℕ
page_of (fetch page_id seq a) = page_id
page_of (create page_id page_type a) = page_id
page_of (unpin page_id) = page_id
page_of (dirty page_id) = page_id
page_of (advance_lsn page_id lsn) = page_id
page_of (flush page_id a) = page_id
page_of (write page_id page) = page_id

-- A sequence of calls, and what it does to the memory.
unfoldable pub run : List Call → BufferPool → BufferPool
run [] s = s
run (c ∷ cs) s = run cs (call c s)

unfoldable pub remember : List Call → BufferPool → (ℕ → Page) → ℕ → Page
remember [] s m = m
remember (c ∷ cs) s m = remember cs (call c s) (effect c (is_made c s) (is_cached s (page_of c)) m)
