-- ===== src/BufferPool.antt =====
-- storage/buffer_pool.h and buffer_pool.cpp: frames that cache the pages of a store. A call is cut at
-- its latches and its I/O: `fetch_hit` and `claim` are the locked blocks of fetch_page, `write_back`,
-- `read_in` and `make_new` what follows without or under the latch. What the page store and the log
-- answer is an argument; a call that has to wait for a frame answers that it is busy.
pub mod Invariant
pub mod Replaced
pub mod Tables
pub mod Victim
pub mod Fetch
pub mod Blocks
pub mod Reserve
pub mod Load
pub mod Served
pub mod FetchPage
pub mod MakeNew
pub mod NewPage
pub mod Calls
pub mod Touch
pub mod Flush
pub mod Refinement
pub mod NewPool
pub mod Logged
pub mod WalFirst
pub mod Races
mod Examples
use minidb.Prelude.{
  ℕ, zero, suc, ◌+◌, ◌-◌, ◌%◌, Bool, true, false, not, ◌&&◌, ◌||◌, List, [], ◌∷◌, ◌++◌, Option,
  none, some, ltb, leb, ◌==◌, if◌then◌else◌,
}
use minidb.Prelude.Assoc.{Assoc, find, insert, erase}
use minidb.Page
use minidb.Page.{Page}

abbrev null_page_id : ℕ
null_page_id = 0

pub record Frame : Type 0 where
  pub page : Page
  pub page_id : ℕ
  pub pin_count : ℕ
  pub is_dirty : Bool
  pub is_io_in_progress : Bool
  pub partition_idx : ℕ

-- The LRU list from its back, the next victim, to its front.
pub record BufferPoolPartition : Type 0 where
  pub page_table : Assoc ℕ
  pub lru_list : List ℕ

-- The pool, with the pages of the store and the durable LSN of the log, if there is one.
pub record BufferPool : Type 0 where
  pub frames : ℕ → Frame
  pub partitions : ℕ → BufferPoolPartition
  pub partition_count : ℕ
  pub disk : ℕ → Page
  pub durable_lsn : Option ℕ

-- What the log and the store answer to the I/O of a call.
pub record Answers : Type 0 where
  pub flush_ok : Bool
  pub flushed_lsn : ℕ
  pub write_ok : Bool
  pub read_ok : Bool

-- The frames of a partition below `n`, the last of them first.
unfoldable pub frames_below : (count p n : ℕ) → List ℕ
frames_below count p zero = []
frames_below count p (suc n) =
    let rest = frames_below count p n in if n % count == p then n ∷ rest else rest

abbrev pub count_for : (pool_size partitions : ℕ) → ℕ
count_for pool_size partitions =
    let wanted = if partitions == 0 then 1 else partitions in
    if ltb pool_size wanted then if pool_size == 0 then 1 else pool_size else wanted

-- Page::Page
abbrev blank_page : Page
blank_page = record {
  page_id = 0;
  lsn = 0;
  page_type = 0;
  free_space_offset = 0;
  line_pointers = [];
  bytes = λ i. 0;
}

-- BufferPool::BufferPool, on a store and a log.
unfoldable pub new_pool : (pool_size partitions : ℕ) → (ℕ → Page) → Option ℕ → BufferPool
unfolding frames_below
new_pool pool_size partitions disk durable_lsn =
    let count = count_for pool_size partitions in
    record {
      frames = λ i. record {
        page = blank_page;
        page_id = null_page_id;
        pin_count = 0;
        is_dirty = false;
        is_io_in_progress = false;
        partition_idx = i % count;
      };
      partitions = λ p. record { page_table = []; lru_list = frames_below count p pool_size };
      partition_count = count;
      disk = disk;
      durable_lsn = durable_lsn;
    }

abbrev set_frame : BufferPool → ℕ → Frame → BufferPool
set_frame s i f = record s { frames = λ j. if j == i then f else s.frames j }

abbrev set_partition : BufferPool → ℕ → BufferPoolPartition → BufferPool
set_partition s p part = record s { partitions = λ q. if q == p then part else s.partitions q }

-- BufferPool::partition_for
abbrev pub partition_for : BufferPool → ℕ → ℕ
partition_for s page_id = if s.partition_count == 0 then 0 else page_id % s.partition_count

unfoldable pub find_page_mapping : BufferPool → ℕ → Option ℕ
find_page_mapping s page_id = find page_id (s.partitions (partition_for s page_id)).page_table

-- The changes of one page table, of the partition that a call works in.
abbrev insert_page_mapping : ℕ → ℕ → ℕ → BufferPool → BufferPool
insert_page_mapping p page_id idx s =
    let part = s.partitions p in
    set_partition s p (record part { page_table = insert page_id idx part.page_table })

abbrev erase_page_mapping : ℕ → ℕ → BufferPool → BufferPool
erase_page_mapping p page_id s =
    let part = s.partitions p in
    set_partition s p (record part { page_table = erase page_id part.page_table })

unfoldable pub without : ℕ → List ℕ → List ℕ
without i [] = []
without i (x ∷ xs) = let rest = without i xs in if x == i then rest else x ∷ rest

-- LinkedList::move_node_to_front and move_node_to_back
abbrev move_to_front : ℕ → ℕ → BufferPool → BufferPool
move_to_front p i s =
    let part = s.partitions p in
    set_partition s p (record part { lru_list = without i part.lru_list ++ i ∷ [] })

abbrev move_to_back : ℕ → ℕ → BufferPool → BufferPool
move_to_back p i s =
    let part = s.partitions p in
    set_partition s p (record part { lru_list = i ∷ without i part.lru_list })

-- The loop of find_victim_frame: an empty frame, or else the first that nobody has pinned.
unfoldable pub find_victim : (ℕ → Frame) → Option ℕ → List ℕ → Option ℕ
find_victim frames evictable [] = evictable
find_victim frames evictable (i ∷ is) =
    let f = frames i in
    let rest =
      find_victim frames
        (elim evictable [
          | none ↦ if not f.is_io_in_progress && f.pin_count == 0 then some i else none
          | some e ↦ some e
        ])
        is in
    if not f.is_io_in_progress && f.page_id == null_page_id then some i else rest

-- BufferPool::find_victim_frame
abbrev pub find_victim_frame : BufferPool → ℕ → Option ℕ
find_victim_frame s p = find_victim s.frames none (s.partitions p).lru_list

-- `fetch_add(1u)` of the 32-bit pin count.
abbrev add_pin : ℕ → ℕ
add_pin n = (n + 1) % 4294967296

-- The fast path of fetch_page: a hit pins the frame.
unfoldable pub fetch_hit : ℕ → BufferPool → Option (BufferPool × ℕ)
fetch_hit page_id s = elim (find_page_mapping s page_id) [
  | none ↦ none
  | some i ↦
      let f = s.frames i in
      if f.is_io_in_progress
      then none
      else some (set_frame s i (record f { pin_count = add_pin f.pin_count }), i)
]

-- What the block under the write latch decides: a frame that has the page, a victim with the page that
-- it held and whether the log must be flushed first, or nothing to take.
pub data Claim : Type 0 where
  found : (idx : ℕ) → Claim
  victim : (idx evict_page_id : ℕ) (need_wal_flush : Bool) → Claim
  busy : Claim

abbrev is_ahead : Option ℕ → ℕ → Bool
is_ahead none lsn = false
is_ahead (some durable) lsn = ltb durable lsn

-- The victim is reserved for the page: pinned, with I/O in progress, and in the page table.
unfoldable reserve : ℕ → ℕ → BufferPool → BufferPool
reserve page_id v s =
    let p = partition_for s page_id in
    let f = s.frames v in
    let cleared = if f.page_id == null_page_id then s else erase_page_mapping p f.page_id s in
    insert_page_mapping p page_id v (
      set_frame cleared v (record f { page_id = page_id; pin_count = 1; is_io_in_progress = true }))

-- The block under the write latch of fetch_page and of new_page.
unfoldable pub claim : ℕ → BufferPool → BufferPool × Claim
unfolding find_victim without reserve
claim page_id s =
    let p = partition_for s page_id in
    elim (find_page_mapping s page_id) [
      | some i ↦
          let f = s.frames i in
          if f.is_io_in_progress then (s, busy) else (
            move_to_front p i (set_frame s i (record f { pin_count = add_pin f.pin_count })),
            found i,
          )
      | none ↦ elim (find_victim_frame s p) [
        | none ↦ (s, busy)
        | some v ↦
            let f = s.frames v in
            (
              reserve page_id v s,
              victim v f.page_id (
                  f.is_dirty
                  && not (f.page_id == null_page_id)
                  && is_ahead s.durable_lsn f.page.lsn),
            )
      ]
    ]

-- BufferPool::flush_frame_wal_first: the pool with the durable LSN after it, and its answer. That the
-- page store is told the durable LSN is left out.
unfoldable pub flush_frame_wal_first : Answers → Page → BufferPool → BufferPool × Bool
flush_frame_wal_first a page s = elim s.durable_lsn [
  | none ↦ (s, true)
  | some durable ↦
      if ltb durable page.lsn
      then (record s { durable_lsn = some a.flushed_lsn }, a.flush_ok && leb page.lsn a.flushed_lsn)
      else (s, true)
]

-- BufferPool::restore_evicted_frame
unfoldable pub restore_evicted_frame : ℕ → ℕ → ℕ → BufferPool → BufferPool
restore_evicted_frame p v old_page_id s =
    let f = s.frames v in
    let freed =
      set_frame (erase_page_mapping p f.page_id s) v
        (record f { page_id = old_page_id; pin_count = 0; is_io_in_progress = false }) in
    if old_page_id == null_page_id then freed else insert_page_mapping p old_page_id v freed

-- The page that a victim held is written, if it is dirty; where that fails the frame is restored.
unfoldable pub write_back : ℕ → ℕ → ℕ → Bool → Answers → BufferPool → BufferPool × Bool
unfolding flush_frame_wal_first restore_evicted_frame
write_back p v evict_page_id need_wal_flush a s =
    let page = (s.frames v).page in
    if evict_page_id == null_page_id || not (s.frames v).is_dirty
    then (s, true)
    else (let flushed = if need_wal_flush then flush_frame_wal_first a page s else (s, true) in
        if flushed.1 && a.write_ok
        then (
          record (flushed.0) { disk = λ j. if j == evict_page_id then page else s.disk j },
          true,
        )
        else (restore_evicted_frame p v evict_page_id flushed.0, false))

-- The rest of fetch_page: the page is read, and the frame is the page's; where that fails the frame is
-- empty.
unfoldable pub read_in : ℕ → ℕ → Bool → Answers → BufferPool → BufferPool × Option ℕ
unfolding without
read_in page_id v sequential_hint a s =
    let p = partition_for s page_id in
    let f = s.frames v in
    if a.read_ok
    then (let loaded = insert_page_mapping p page_id v (
          set_frame s v (record {
            page = s.disk page_id;
            page_id = page_id;
            pin_count = 1;
            is_dirty = false;
            is_io_in_progress = false;
            partition_idx = (s.frames v).partition_idx;
          })) in
        (if sequential_hint then move_to_back p v loaded else move_to_front p v loaded, some v))
    else (
      set_frame (erase_page_mapping p page_id s) v (record f {
        page_id = null_page_id;
        pin_count = 0;
        is_dirty = false;
        is_io_in_progress = false;
      }),
      none,
    )

-- What fetch_page does with a victim.
unfoldable pub load : ℕ → Bool → ℕ → ℕ → Bool → Answers → BufferPool → BufferPool × Option ℕ
load page_id sequential_hint v evict_page_id need_wal_flush a s =
    let written = write_back (partition_for s page_id) v evict_page_id need_wal_flush a s in
    if written.1 then read_in page_id v sequential_hint a written.0 else (written.0, none)

-- BufferPool::fetch_page without other threads: the frame of the page, pinned. `sequential_hint` is what
-- the call works out from its argument and the last page of its thread.
unfoldable pub fetch_page : ℕ → Bool → Answers → BufferPool → BufferPool × Option ℕ
fetch_page page_id sequential_hint a s =
    if page_id == null_page_id then (s, none) else elim (fetch_hit page_id s) [
      | some (s', i) ↦ (s', some i)
      | none ↦
          let (s', c) = claim page_id s in
          elim c [
            | found i ↦ (s', some i)
            | busy ↦ (s', none)
            | victim v evict_page_id need ↦ load page_id sequential_hint v evict_page_id need a s'
          ]
    ]

-- The last block of new_page: the frame holds an empty page.
unfoldable pub make_new : ℕ → ℕ → ℕ → BufferPool → BufferPool × Option ℕ
unfolding without
make_new page_id page_type v s =
    let p = partition_for s page_id in
    (
      move_to_front p v (
          insert_page_mapping p page_id v (
            set_frame s v (record {
              page = Page.init page_id page_type;
              page_id = page_id;
              pin_count = 1;
              is_dirty = true;
              is_io_in_progress = false;
              partition_idx = (s.frames v).partition_idx;
            }))),
      some v,
    )

-- BufferPool::new_page without other threads
unfoldable pub new_page : ℕ → ℕ → Answers → BufferPool → BufferPool × Option ℕ
new_page page_id page_type a s =
    if page_id == null_page_id
    then (s, none)
    else (let (s', c) = claim page_id s in
        elim c [
          | found i ↦ (s', some i)
          | busy ↦ (s', none)
          | victim v evict_page_id need ↦
              let written = write_back (partition_for s' page_id) v evict_page_id need a s' in
              if written.1 then make_new page_id page_type v written.0 else (written.0, none)
        ])

-- BufferPool::unpin_page
unfoldable pub unpin_page : ℕ → BufferPool → BufferPool
unpin_page page_id s = elim (find_page_mapping s page_id) [
  | none ↦ s
  | some i ↦ let f = s.frames i in set_frame s i (record f { pin_count = f.pin_count - 1 })
]

-- BufferPool::mark_dirty
unfoldable pub mark_dirty : ℕ → BufferPool → BufferPool
mark_dirty page_id s = elim (find_page_mapping s page_id) [
  | none ↦ s
  | some i ↦ let f = s.frames i in set_frame s i (record f { is_dirty = true })
]

-- BufferPool::set_page_lsn
unfoldable pub set_page_lsn : ℕ → ℕ → BufferPool → BufferPool
set_page_lsn page_id lsn s = elim (find_page_mapping s page_id) [
  | none ↦ s
  | some i ↦
      let f = s.frames i in
      set_frame s i (record f {
        page = if ltb f.page.lsn lsn then record (f.page) { lsn = lsn } else f.page;
        is_dirty = true;
      })
]

-- BufferPool::flush_page
unfoldable pub flush_page : ℕ → Answers → BufferPool → BufferPool
unfolding flush_frame_wal_first
flush_page page_id a s = elim (find_page_mapping s page_id) [
  | none ↦ s
  | some i ↦
      let f = s.frames i in
      let flushed = flush_frame_wal_first a f.page s in
      if not f.is_dirty
      then s
      else if flushed.1 && a.write_ok
      then set_frame
          (record (flushed.0) { disk = λ j. if j == f.page_id then f.page else s.disk j }) i
          (record f { is_dirty = false })
      else flushed.0
]
