-- ===== src/BufferPool/Blocks.antt =====
-- The last blocks of fetch_page and new_page of storage/buffer_pool.cpp: what they change.
use minidb.Prelude.{
  ℕ, ◌≡◌, refl, Bool, true, false, List, [], ◌∷◌, ◌++◌, none, some, arith, ◌==◌, if◌then◌else◌,
}
use minidb.Prelude.Assoc.{insert, erase}
use minidb.Page.{init}
use minidb.BufferPool.{BufferPool, Answers, null_page_id, partition_for, read_in, without, make_new}

-- What read_in and make_new change.
module _ (page_id v : ℕ) (u : BufferPool) where
  abbrev pub home_of : ℕ
  home_of = partition_for u page_id

  abbrev pub order_of : Bool → List ℕ → List ℕ
  order_of seq l = if seq then v ∷ without v l else without v l ++ v ∷ []

  pub read_in_done :
      (seq : Bool) (a : Answers)
      → a.read_ok ≡ true
      → (let r = read_in page_id v seq a u in
          (r.1 ≡ some v)
          × ((j : ℕ)
              → r.0.frames j ≡ (
                  if j == v
                  then record {
                    page = u.disk page_id;
                    page_id = page_id;
                    pin_count = 1;
                    is_dirty = false;
                    is_io_in_progress = false;
                    partition_idx = (u.frames v).partition_idx;
                  }
                  else u.frames j))
          × (r.0.partition_count ≡ u.partition_count)
          × ((q : ℕ)
              → (r.0.partitions q).page_table ≡ (
                  if q == home_of
                  then insert page_id v (u.partitions home_of).page_table
                  else (u.partitions q).page_table))
          × ((q : ℕ)
              → (r.0.partitions q).lru_list ≡ (
                  if q == home_of
                  then order_of seq (u.partitions q).lru_list
                  else (u.partitions q).lru_list))
          × (r.0.disk ≡ u.disk))
  unfolding read_in
  read_in_done seq a ok = (
    ground (arith, ok),
    (λ j. ground (arith, ok)),
    ground (arith, ok),
    (λ q. ground (arith, ok)),
    (λ q. ground (arith, ok)),
    ground (arith, ok),
  )

  pub read_in_failed :
      (seq : Bool) (a : Answers)
      → a.read_ok ≡ false
      → (let r = read_in page_id v seq a u in
          (r.1 ≡ none)
          × ((j : ℕ)
              → r.0.frames j ≡ (
                  if j == v
                  then record (u.frames v) {
                    page_id = null_page_id;
                    pin_count = 0;
                    is_dirty = false;
                    is_io_in_progress = false;
                  }
                  else u.frames j))
          × (r.0.partition_count ≡ u.partition_count)
          × ((q : ℕ)
              → (r.0.partitions q).page_table ≡ (
                  if q == home_of
                  then erase page_id (u.partitions home_of).page_table
                  else (u.partitions q).page_table))
          × ((q : ℕ) → (r.0.partitions q).lru_list ≡ (u.partitions q).lru_list)
          × (r.0.disk ≡ u.disk))
  unfolding read_in
  read_in_failed seq a no' = (
    ground (arith, no'),
    (λ j. ground (arith, no')),
    ground (arith, no'),
    (λ q. ground (arith, no')),
    (λ q. ground (arith, no')),
    ground (arith, no'),
  )

  pub make_new_done :
      (page_type : ℕ)
      → (let r = make_new page_id page_type v u in
          (r.1 ≡ some v)
          × ((j : ℕ)
              → r.0.frames j ≡ (
                  if j == v
                  then record {
                    page = init page_id page_type;
                    page_id = page_id;
                    pin_count = 1;
                    is_dirty = true;
                    is_io_in_progress = false;
                    partition_idx = (u.frames v).partition_idx;
                  }
                  else u.frames j))
          × (r.0.partition_count ≡ u.partition_count)
          × ((q : ℕ)
              → (r.0.partitions q).page_table ≡ (
                  if q == home_of
                  then insert page_id v (u.partitions home_of).page_table
                  else (u.partitions q).page_table))
          × ((q : ℕ)
              → (r.0.partitions q).lru_list ≡ (
                  if q == home_of
                  then order_of false (u.partitions q).lru_list
                  else (u.partitions q).lru_list))
          × (r.0.disk ≡ u.disk))
  unfolding make_new
  make_new_done page_type = (
    refl,
    (λ j. ground arith),
    ground arith,
    (λ q. ground arith),
    (λ q. ground arith),
    ground arith,
  )
