-- ===== src/ResourceManager/Limits.antt =====
-- Runs of calls of common/resource_manager.cpp, by any threads in any order, and the limits.
use minidb.Prelude.{
  ℕ, ◌+◌, ◌-◌, ◌%◌, ◌==◌, if◌then◌else◌, ◌≤◌, ◌<◌, ◌≡◌, ◌⊎◌, refl, sym, subst, inl, inr, Bool,
  Bool-cases, List, [], ◌∷◌, arith,
}
use minidb.ResourceManager.{
  DbConfig, ResourceSnapshot, Answer, granted, refused, waits, acquire_connection,
  release_connection, admits, round_query, enter_query, wake_query, release_query,
  round_transaction, enter_transaction, wake_transaction, release_transaction, reserve_memory,
  release_memory, reserve_temp, release_temp,
}

pub data Call : Type 0 where
  acquires_connection releases_connection : Call
  enters_query : Bool → ℕ → Call
  wakes_query : Bool → ℕ → Bool → Call
  releases_query : Bool → ℕ → Call
  enters_transaction releases_transaction : Call
  wakes_transaction : Bool → Call
  reserves_memory releases_memory reserves_temp releases_temp : ℕ → Call

-- The counts, with the threads that are in a wait of acquire_query and of acquire_transaction.
pub record Threads : Type 0 where
  pub stats : ResourceSnapshot
  pub waiting_for_query : ℕ
  pub waiting_for_transaction : ℕ

abbrev counts : Threads → ResourceSnapshot → Threads
counts m s = record m { stats = s }

-- What becomes of the threads at the answer of acquire_query to one that enters, and to one that wakes.
unfoldable pub query_entered : Threads → ResourceSnapshot × Answer → Threads
query_entered m (s, waits) = record m { stats = s; waiting_for_query = m.waiting_for_query + 1 }
query_entered m (s, granted) = counts m s
query_entered m (s, refused) = counts m s

unfoldable pub query_woken : Threads → ResourceSnapshot × Answer → Threads
query_woken m (s, waits) = counts m s
query_woken m (s, granted) = record m { stats = s; waiting_for_query = m.waiting_for_query - 1 }
query_woken m (s, refused) = record m { stats = s; waiting_for_query = m.waiting_for_query - 1 }

query_entered-stats :
    (m : Threads) (r : ResourceSnapshot × Answer) → (query_entered m r).stats ≡ r.0
unfolding query_entered
query_entered-stats m (s, waits) = refl
query_entered-stats m (s, granted) = refl
query_entered-stats m (s, refused) = refl

query_woken-stats : (m : Threads) (r : ResourceSnapshot × Answer) → (query_woken m r).stats ≡ r.0
unfolding query_woken
query_woken-stats m (s, waits) = refl
query_woken-stats m (s, granted) = refl
query_woken-stats m (s, refused) = refl

unfoldable pub step : DbConfig → Threads → Call → Threads
unfolding query_entered query_woken
step c m acquires_connection = counts m (acquire_connection c m.stats).0
step c m releases_connection = counts m (release_connection m.stats)
step c m (enters_query w b) = query_entered m (enter_query c m.stats w b)
step c m (wakes_query w b timed_out) =
    if m.waiting_for_query == 0 then m else query_woken m (wake_query c m.stats w b timed_out)
step c m (releases_query w b) = counts m (release_query m.stats w b)
step c m enters_transaction =
    let (s, answer) = enter_transaction c m.stats in
    elim answer [
      | waits ↦ record m { stats = s; waiting_for_transaction = m.waiting_for_transaction + 1 }
      | granted ↦ counts m s
      | refused ↦ counts m s
    ]
step c m releases_transaction = counts m (release_transaction m.stats)
step c m (wakes_transaction timed_out) =
    let (s, answer) = wake_transaction c m.stats timed_out in
    if m.waiting_for_transaction == 0 then m else elim answer [
      | waits ↦ counts m s
      | granted ↦ record m { stats = s; waiting_for_transaction = m.waiting_for_transaction - 1 }
      | refused ↦ record m { stats = s; waiting_for_transaction = m.waiting_for_transaction - 1 }
    ]
step c m (reserves_memory bytes) = counts m (reserve_memory c m.stats bytes).0
step c m (releases_memory bytes) = counts m (release_memory m.stats bytes)
step c m (reserves_temp bytes) = counts m (reserve_temp c m.stats bytes).0
step c m (releases_temp bytes) = counts m (release_temp m.stats bytes)

unfoldable pub run : DbConfig → Threads → List Call → Threads
unfolding step
run c m [] = m
run c m (x ∷ xs) = run c (step c m x) xs

-- A count is within a limit, where there is one.
abbrev pub Within : ℕ → ℕ → Type 0
Within limit n = (limit ≡ 0) ⊎ (n ≤ limit)

-- Each count that has a limit is within it.
abbrev pub IsWithin : DbConfig → ResourceSnapshot → Type 0
IsWithin c s =
    Within c.admission_queue_size s.waiting_queries
    × Within c.max_connections s.active_connections
    × Within c.max_active_queries s.active_queries
    × Within c.max_active_write_queries s.active_write_queries
    × Within c.query_memory_limit s.memory_reserved
    × Within c.max_active_transactions s.active_transactions
    × Within c.temp_file_limit_bytes s.temp_bytes_used

-- The counts but that of the queue.
abbrev Active : DbConfig → ResourceSnapshot → Type 0
Active c s =
    Within c.max_connections s.active_connections
    × Within c.max_active_queries s.active_queries
    × Within c.max_active_write_queries s.active_write_queries
    × Within c.query_memory_limit s.memory_reserved
    × Within c.max_active_transactions s.active_transactions
    × Within c.temp_file_limit_bytes s.temp_bytes_used

enter_query-Active :
    (c : DbConfig) (s : ResourceSnapshot) (w : Bool) (k : ℕ)
    → Active c s
    → Active c (enter_query c s w k).0
unfolding enter_query round_query admits
enter_query-Active c s w k a = ground arith

wake_query-Active :
    (c : DbConfig) (s : ResourceSnapshot) (w : Bool) (k : ℕ) (t : Bool)
    → Active c s
    → Active c (wake_query c s w k t).0
unfolding wake_query round_query admits
wake_query-Active c s w k t a = ground arith

step-Active :
    (c : DbConfig) (m : Threads) (x : Call) → Active c m.stats → Active c (step c m x).stats
unfolding step acquire_connection release_connection release_query round_transaction
    enter_transaction wake_transaction release_transaction reserve_memory release_memory
    reserve_temp release_temp query_entered query_woken
step-Active c m acquires_connection a = ground arith
step-Active c m releases_connection a = ground arith
step-Active c m (enters_query b k) a =
    subst (Active c) (sym (query_entered-stats m (enter_query c m.stats b k)))
      (enter_query-Active c m.stats b k a)
step-Active c m (wakes_query b k t) a = elim (Bool-cases (m.waiting_for_query == 0)) [
  | inl nobody ↦ rw nobody a
  | inr some_wait ↦ rw some_wait (
      subst (Active c) (sym (query_woken-stats m (wake_query c m.stats b k t)))
        (wake_query-Active c m.stats b k t a))
]
step-Active c m (releases_query b k) a = ground arith
step-Active c m enters_transaction a = ground arith
step-Active c m releases_transaction a = ground arith
step-Active c m (wakes_transaction t) a = ground arith
step-Active c m (reserves_memory k) a = ground arith
step-Active c m (releases_memory k) a = ground arith
step-Active c m (reserves_temp k) a = ground arith
step-Active c m (releases_temp k) a = ground arith

-- The count of waiting queries is that of the threads in the wait, in 32 bits, and they are no more than
-- the queue may have.
abbrev pub IsQueued : DbConfig → Threads → Type 0
IsQueued c m =
    (m.stats.waiting_queries ≡ m.waiting_for_query % 4294967296)
    × Within c.admission_queue_size m.waiting_for_query

step-IsQueued :
    (c : DbConfig) (m : Threads) (x : Call)
    → c.admission_queue_size < 4294967296
    → IsQueued c m
    → IsQueued c (step c m x)
unfolding step acquire_connection release_connection round_query enter_query wake_query
    release_query round_transaction enter_transaction wake_transaction release_transaction
    reserve_memory release_memory reserve_temp release_temp query_entered query_woken
step-IsQueued c m acquires_connection l q = ground arith
step-IsQueued c m releases_connection l q = ground arith
step-IsQueued c m (enters_query b k) l q = (ground arith, ground arith)
step-IsQueued c m (wakes_query b k t) l q = (ground arith, ground arith)
step-IsQueued c m (releases_query b k) l q = ground arith
step-IsQueued c m enters_transaction l q = ground arith
step-IsQueued c m releases_transaction l q = ground arith
step-IsQueued c m (wakes_transaction t) l q = ground arith
step-IsQueued c m (reserves_memory k) l q = ground arith
step-IsQueued c m (releases_memory k) l q = ground arith
step-IsQueued c m (reserves_temp k) l q = ground arith
step-IsQueued c m (releases_temp k) l q = ground arith

-- No sequence of calls takes a count over its limit, nor the queue of the waiting queries, whose limit is
-- a number of 32 bits: from a state in which each count is within its limit, and the count of the
-- waiting queries is, in 32 bits, that of the threads in the wait, which the queue has room for, the
-- same holds after any calls, whatever is asked for and however the waits end.
pub run-IsWithin :
    (c : DbConfig) (m : Threads) (xs : List Call)
    → c.admission_queue_size < 4294967296
    → IsQueued c m
    → IsWithin c m.stats
    → IsQueued c (run c m xs) × IsWithin c (run c m xs).stats
unfolding run
run-IsWithin c m [] l q w = (q, w)
run-IsWithin c m (x ∷ xs) l q w =
    let queued = step-IsQueued c m x l q in
    let queue : Within c.admission_queue_size (step c m x).stats.waiting_queries = ground arith in
    let (a, b, d, e, f, g) = step-Active c m x (w.1, w.2, w.3, w.4, w.5, w.6) in
    run-IsWithin c (step c m x) xs l queued (queue, a, b, d, e, f, g)

-- A query that is admitted at once and released leaves the counts of waiting and active queries, of
-- active writes and of reserved memory as they were, where none of them wraps around.
pub enter_query-release_query :
    (c : DbConfig) (s : ResourceSnapshot) (is_write : Bool) (memory : ℕ)
    → (enter_query c s is_write memory).1 ≡ granted
    → s.waiting_queries + 1 < 4294967296
    → s.active_queries + 1 < 4294967296
    → s.active_write_queries + 1 < 4294967296
    → s.memory_reserved + memory < 18446744073709551616
    → let s' = release_query (enter_query c s is_write memory).0 is_write memory in
      (s'.waiting_queries ≡ s.waiting_queries)
      × (s'.active_queries ≡ s.active_queries)
      × (s'.active_write_queries ≡ s.active_write_queries)
      × (s'.memory_reserved ≡ s.memory_reserved)
unfolding enter_query round_query release_query
enter_query-release_query c s is_write memory e q a w m = ground arith
