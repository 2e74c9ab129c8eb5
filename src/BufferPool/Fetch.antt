-- ===== src/BufferPool/Fetch.antt =====
-- The I/O of fetch_page and new_page of storage/buffer_pool.cpp, and what it leaves.
use minidb.Prelude.{
  ℕ, ◌≡◌, ◌≢◌, ◌⊎◌, subst, inl, inr, Bool, true, false, List, [], ◌∷◌, Option, none, some, arith,
  ◌==◌, if◌then◌else◌, Elem, Bool-cases, not, ◌&&◌,
}
use minidb.Prelude.Assoc.{insert, erase}
use minidb.Page.{Page}
use minidb.BufferPool.{
  Frame, BufferPool, Answers, null_page_id, find_victim, write_back, without, flush_frame_wal_first,
  restore_evicted_frame,
}

-- A victim stands in the list.
pub victim-Elem :
    (frames : ℕ → Frame) (e : Option ℕ) (is : List ℕ) (v : ℕ)
    → find_victim frames e is ≡ some v
    → (e ≡ some v) ⊎ Elem v is
unfolding find_victim
victim-Elem frames e [] v h = inl h
victim-Elem frames (some e) (i ∷ is) v h =
    elim (Bool-cases (not (frames i).is_io_in_progress && (frames i).page_id == null_page_id)) [
      | inl here ↦ inr (inl (ground (arith, h, here)))
      | inr other ↦ elim (victim-Elem frames (some e) is v (ground (arith, h, other))) [
        | inl l ↦ inl l
        | inr m ↦ inr (inr m)
      ]
    ]
victim-Elem frames none (i ∷ is) v h =
    let e : Option ℕ =
      if not (frames i).is_io_in_progress && (frames i).pin_count == 0 then some i else none in
    elim (Bool-cases (not (frames i).is_io_in_progress && (frames i).page_id == null_page_id)) [
      | inl here ↦ inr (inl (ground (arith, h, here)))
      | inr other ↦ elim (victim-Elem frames e is v (ground (arith, h, other))) [
        | inl l ↦ inr (inl (ground (arith, l)))
        | inr m ↦ inr (inr m)
      ]
    ]

if_other : (i x : ℕ) (xs : List ℕ) → (x == i) ≡ false → without i (x ∷ xs) ≡ x ∷ without i xs
unfolding without
if_other i x xs o = ground (arith, o)

if_here : (i x : ℕ) (xs : List ℕ) → (x == i) ≡ true → without i (x ∷ xs) ≡ without i xs
unfolding without
if_here i x xs o = ground (arith, o)

pub without-Elem : (i j : ℕ) (xs : List ℕ) → Elem j (without i xs) → Elem j xs
unfolding without
without-Elem i j [] m = m
without-Elem i j (x ∷ xs) m = elim (Bool-cases (x == i)) [
  | inl e ↦ inr (without-Elem i j xs (subst (λ l. Elem j l) (if_here i x xs e) m))
  | inr o ↦ elim (subst (λ l. Elem j l) (if_other i x xs o) m) [
    | inl q ↦ inl q
    | inr q ↦ inr (without-Elem i j xs q)
  ]
]

pub flush-fields :
    (a : Answers) (page : Page) (t : BufferPool)
    → ((flush_frame_wal_first a page t).0.frames ≡ t.frames)
      × ((flush_frame_wal_first a page t).0.partitions ≡ t.partitions)
      × ((flush_frame_wal_first a page t).0.partition_count ≡ t.partition_count)
      × ((flush_frame_wal_first a page t).0.disk ≡ t.disk)
unfolding flush_frame_wal_first
flush-fields a page t = ground arith

module _ (p v evict : ℕ) (need : Bool) (a : Answers) (t : BufferPool) where
  -- A write that succeeds, or is not needed.
  pub write_back_done :
      (write_back p v evict need a t).1 ≡ true
      → ((write_back p v evict need a t).0.frames ≡ t.frames)
        × ((write_back p v evict need a t).0.partitions ≡ t.partitions)
        × ((write_back p v evict need a t).0.partition_count ≡ t.partition_count)
        × ((id : ℕ)
            → (write_back p v evict need a t).0.disk id ≡ (
                if id == evict && (not (evict == null_page_id) && (t.frames v).is_dirty)
                then (t.frames v).page
                else t.disk id))
  unfolding write_back
  write_back_done ok =
      let f = flush-fields a (t.frames v).page t in
      (ground (arith, f), ground (arith, f), ground (arith, f), λ id. ground (arith, f))

  -- A write that fails: the frame is as it was, without a pin.
  pub write_back_failed :
      (write_back p v evict need a t).1 ≡ false
      → (evict ≢ null_page_id)
        × ((j : ℕ)
            → (write_back p v evict need a t).0.frames j ≡ (
                if j == v
                then record (t.frames v) {
                  page_id = evict;
                  pin_count = 0;
                  is_io_in_progress = false;
                }
                else t.frames j))
        × ((q : ℕ)
            → ((write_back p v evict need a t).0.partitions q).page_table ≡ (
                if q == p
                then insert evict v (erase (t.frames v).page_id (t.partitions p).page_table)
                else (t.partitions q).page_table))
        × ((q : ℕ)
            → ((write_back p v evict need a t).0.partitions q).lru_list ≡ (t.partitions q).lru_list)
        × ((write_back p v evict need a t).0.partition_count ≡ t.partition_count)
        × ((write_back p v evict need a t).0.disk ≡ t.disk)
  unfolding write_back restore_evicted_frame
  write_back_failed failed =
      let f = flush-fields a (t.frames v).page t in
      (
        ground (arith, f),
        (λ j. ground (arith, f)),
        (λ q. ground (arith, f)),
        (λ q. ground (arith, f)),
        ground (arith, f),
        ground (arith, f),
      )
