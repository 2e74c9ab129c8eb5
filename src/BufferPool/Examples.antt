-- ===== src/BufferPool/Examples.antt =====
-- Runs of the buffer pool on small pools.
use native.Mathlib.Decide.{ℕ_discrete}
use minidb.Prelude.{
  ◌<◌, Option, none, ap, ℕ, ◌≤◌, ◌≡◌, ◌≢◌, ◌⊎◌, refl, sym, subst, inl, true, false, List, [], ◌∷◌,
  none, some, arith, ◌==◌, if◌then◌else◌, Elem,
}
use minidb.Page.{Page, init}
use minidb.BufferPool.{
  BufferPool, Answers, null_page_id, partition_for, find_page_mapping, find_victim_frame,
  fetch_page, new_page, new_pool, claim, read_in, fetch_hit, reserve, find_victim, load, flush_page,
  write_back, without, unpin_page, flush_frame_wal_first,
}
use minidb.BufferPool.Invariant.{IsConsistent, content}
use minidb.BufferPool.Victim.{is_empty, is_evictable, find_victim_frame_lem}
use minidb.BufferPool.Served.{HasPinRoom, IsServed}
use minidb.BufferPool.FetchPage.{fetch_page-IsServed}
use minidb.BufferPool.NewPage.{new_page-IsServed}
use minidb.BufferPool.MakeNew.{created}
use minidb.BufferPool.Calls.{Call, fetch, unpin, write, flush, run, remember, call, write_page}
use minidb.BufferPool.Touch.{Shows}
use minidb.BufferPool.Refinement.{run-Shows}
use minidb.BufferPool.NewPool.{run-new_pool}
use minidb.BufferPool.Logged.{IsLogged, IsMonotone}
use minidb.BufferPool.WalFirst.{answers_to, call-IsLogged}
use minidb.BufferPool.Races.{claim-fetch_page}

abbrev page_at : ℕ → Page
page_at lsn = record (init 5 1) { lsn = lsn }

abbrev all_done : Answers
all_done = record { flush_ok = true; flushed_lsn = 9; write_ok = true; read_ok = true }

abbrev write_fails : Answers
write_fails = record { flush_ok = true; flushed_lsn = 9; write_ok = false; read_ok = true }

-- One partition with the frames of the list, all empty.
abbrev empty_pool : List ℕ → BufferPool
empty_pool l = record {
  frames = λ j. record {
    page = page_at 0;
    page_id = 0;
    pin_count = 0;
    is_dirty = false;
    is_io_in_progress = false;
    partition_idx = 0;
  };
  partitions = λ q. record { page_table = []; lru_list = if q == 0 then l else [] };
  partition_count = 1;
  disk = λ id. page_at 0;
  durable_lsn = some 2;
}

other_list : (l : List ℕ) (q : ℕ) → q ≢ 0 → (if q == 0 then l else []) ≡ []
other_list l q ne = ground (arith, ne)

empty_pool-IsConsistent : (l : List ℕ) → IsConsistent (empty_pool l)
unfolding find_page_mapping
empty_pool-IsConsistent l = record {
  mapped = λ id i e. absurd (ground (arith, e));
  resident = λ i nz. absurd (nz refl);
  home = λ q i m. elim (ℕ_discrete q 0) [
    | yes e ↦ sym e
    | no ne ↦ elim (subst (λ w. Elem i w) (other_list l q ne) m) [ ]
  ];
  quiet = λ i. refl;
  clean = λ i nz. absurd (nz refl);
}

-- Page 5 is fetched, written with LSN 4 and unpinned.
abbrev written_calls : List Call
written_calls = fetch 5 false all_done ∷ write 5 (page_at 4) ∷ unpin 5 ∷ []

abbrev written_pool : BufferPool
written_pool = run written_calls (empty_pool (0 ∷ []))

written_pool-IsConsistent : IsConsistent written_pool
written_pool-IsConsistent =
    (run-Shows written_calls (empty_pool (0 ∷ [])) (λ id. content (empty_pool (0 ∷ [])) id)
      (empty_pool-IsConsistent (0 ∷ [])) (λ id. refl)).0

written_pool_victim : find_victim_frame written_pool (partition_for written_pool 7) ≡ some 0
unfolding run call fetch_page fetch_hit claim reserve load write_back read_in find_victim without
    unpin_page write_page find_page_mapping
written_pool_victim = refl

written_pool_listed : Elem 0 (written_pool.partitions 0).lru_list
unfolding run call fetch_page fetch_hit claim reserve load write_back read_in find_victim without
    unpin_page write_page find_page_mapping
written_pool_listed = inl refl

written_pool_absent : find_page_mapping written_pool 7 ≡ none
unfolding run call fetch_page fetch_hit claim reserve load write_back read_in find_victim without
    unpin_page write_page find_page_mapping
written_pool_absent = refl

written_pool_page_id : (written_pool.frames 0).page_id ≡ 5
unfolding run call fetch_page fetch_hit claim reserve load write_back read_in find_victim without
    unpin_page write_page find_page_mapping
written_pool_page_id = refl

written_pool_held : (written_pool.frames 0).page_id ≢ null_page_id
written_pool_held e = omega (arith, written_pool_page_id, e)

written_pool_store :
    (written_pool.durable_lsn ≡ some 2) × ((id : ℕ) → written_pool.disk id ≡ page_at 0)
unfolding run call fetch_page fetch_hit claim reserve load write_back read_in find_victim without
    unpin_page write_page find_page_mapping
written_pool_store = (refl, λ id. refl)

written_pool-IsLogged : IsLogged written_pool
written_pool-IsLogged id d e =
    let (durable, disk) = written_pool_store in
    subst (λ (g : Page). g.lsn ≤ d) (sym (disk id)) (omega arith)

written_pool-IsMonotone : IsMonotone written_pool all_done
written_pool-IsMonotone d e = let (durable, disk) = written_pool_store in ground (arith, durable, e)

find_victim_frame_lem_example :
    ((v : ℕ) × (find_victim_frame written_pool 0 ≡ some v)
      × ((is_empty (written_pool.frames v) ≡ true)
          ⊎ ((is_evictable (written_pool.frames v) ≡ true)
              × (is_empty (written_pool.frames 0) ≡ false))))
    ⊎ ((find_victim_frame written_pool 0 ≡ none)
        × (is_empty (written_pool.frames 0) ≡ false)
        × (is_evictable (written_pool.frames 0) ≡ false))
find_victim_frame_lem_example = find_victim_frame_lem written_pool 0 0 written_pool_listed

written_pool-HasPinRoom : HasPinRoom written_pool 7
written_pool-HasPinRoom i e = absurd (ground (arith, written_pool_absent, e))

-- The write of the victim's dirty page fails.
fetch_page-IsServed_example :
    IsServed written_pool (content written_pool) 7 (fetch_page 7 false write_fails written_pool)
fetch_page-IsServed_example =
    fetch_page-IsServed 7 false write_fails written_pool written_pool-IsConsistent
      written_pool-HasPinRoom

written_pool_mapped : find_page_mapping written_pool 5 ≡ some 0
unfolding run call fetch_page fetch_hit claim reserve load write_back read_in find_victim without
    unpin_page write_page find_page_mapping
written_pool_mapped = refl

written_pool_unpinned : (written_pool.frames 0).pin_count ≡ 0
unfolding run call fetch_page fetch_hit claim reserve load write_back read_in find_victim without
    unpin_page write_page find_page_mapping
written_pool_unpinned = refl

-- Page 5 has a frame, which is pinned once more.
written_pool-HasPinRoom_mapped : HasPinRoom written_pool 5
written_pool-HasPinRoom_mapped i e =
    let same : 0 ≡ i = ground (arith, written_pool_mapped, e) in
    subst (λ j. (written_pool.frames j).pin_count < 4294967295) same
      (omega (arith, written_pool_unpinned))

new_page-IsServed_example :
    IsServed written_pool
      (created written_pool 5 1 (new_page 5 1 all_done written_pool).1)
      5
      (new_page 5 1 all_done written_pool)
new_page-IsServed_example =
    new_page-IsServed 5 1 all_done written_pool written_pool-IsConsistent
      written_pool-HasPinRoom_mapped

-- Page 5 is evicted with its change, and read again.
abbrev more_calls : List Call
more_calls = fetch 7 true all_done ∷ unpin 7 ∷ fetch 5 false all_done ∷ flush 5 all_done ∷ []

more_calls_lsn : (content (run more_calls written_pool) 5).lsn ≡ 4
unfolding run call fetch_page fetch_hit claim reserve load write_back read_in find_victim without
    unpin_page write_page find_page_mapping flush_page flush_frame_wal_first content
more_calls_lsn = refl

answers_rise :
    (a : Answers) → answers_to (fetch 7 false all_done) ≡ some a → IsMonotone written_pool a
unfolding answers_to
answers_rise a e d h =
    let same : 9 ≡ a.flushed_lsn =
      ap (λ (o : Option Answers). elim o [ none ↦ 0 | some b ↦ b.flushed_lsn ]) e in
    omega (arith, same, written_pool-IsMonotone d h)

call-IsLogged_example : IsLogged (call (fetch 7 false all_done) written_pool)
call-IsLogged_example =
    call-IsLogged (fetch 7 false all_done) written_pool written_pool-IsConsistent
      written_pool-IsLogged answers_rise

-- Both frames have a page, and that of the next victim is dirty.
abbrev full_calls : List Call
full_calls =
    fetch 5 false all_done ∷ write 5 (page_at 4) ∷ unpin 5 ∷ fetch 6 false all_done ∷ unpin 6 ∷ []

abbrev full_pool : BufferPool
full_pool = run full_calls (empty_pool (0 ∷ 1 ∷ []))

full_pool-IsConsistent : IsConsistent full_pool
full_pool-IsConsistent =
    (run-Shows full_calls (empty_pool (0 ∷ 1 ∷ [])) (λ id. content (empty_pool (0 ∷ 1 ∷ [])) id)
      (empty_pool-IsConsistent (0 ∷ 1 ∷ [])) (λ id. refl)).0

claim-fetch_page_example :
    (let e = (full_pool.frames 0).page_id in
      let r = fetch_page e false all_done (claim 7 full_pool).0 in
      (r.1 ≡ some 1)
      × ((r.0.frames 1).page ≡ full_pool.disk e)
      × ((r.0.frames 1).page ≢ content full_pool e))
unfolding run call unpin_page find_page_mapping write_page claim fetch_page fetch_hit load
    write_back read_in find_victim without reserve
claim-fetch_page_example =
    claim-fetch_page full_pool 7 0 1 false all_done full_pool-IsConsistent (λ e. omega arith) refl
      refl (λ e. omega (arith, e)) (λ e. omega (arith, ap (λ (g : Page). g.lsn) e)) refl refl refl

run-new_pool_example :
    Shows
      (run more_calls (new_pool 2 1 (λ id. page_at 0) (some 2)))
      (remember more_calls (new_pool 2 1 (λ id. page_at 0) (some 2)) (λ id. page_at 0))
run-new_pool_example = run-new_pool more_calls 2 1 (λ id. page_at 0) (some 2)
