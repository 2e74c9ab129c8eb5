-- ===== src/ResourceManager.antt =====
-- common/resource_manager.h and resource_manager.cpp: the counters of connections, queries,
-- transactions, memory and temporary files, and their limits. A call that waits is cut at its wait: it
-- enters, and goes on when it is woken, with whether its time is up. A limit of 0 is none.
pub mod Limits
mod Examples
use minidb.Prelude.{
  ℕ, ◌+◌, ◌-◌, ◌%◌, Bool, true, false, not, ◌&&◌, ◌||◌, List, [], ◌∷◌, ltb, leb, ◌==◌,
  if◌then◌else◌,
}

-- The limits of DbConfig that the manager reads.
pub record DbConfig : Type 0 where
  pub max_connections : ℕ
  pub admission_queue_size : ℕ
  pub max_active_queries : ℕ
  pub max_active_write_queries : ℕ
  pub query_memory_limit : ℕ
  pub max_active_transactions : ℕ
  pub temp_file_limit_bytes : ℕ

pub record ResourceSnapshot : Type 0 where
  pub active_connections : ℕ
  pub active_queries : ℕ
  pub active_write_queries : ℕ
  pub waiting_queries : ℕ
  pub memory_reserved : ℕ
  pub temp_bytes_used : ℕ
  pub rejected_connections : ℕ
  pub rejected_queries : ℕ
  pub admission_timeouts : ℕ
  pub active_transactions : ℕ
  pub waiting_transactions : ℕ
  pub transaction_timeouts : ℕ

abbrev u32 : ℕ → ℕ
u32 n = n % 4294967296

abbrev u64 : ℕ → ℕ
u64 n = n % 18446744073709551616

pub data Answer : Type 0 where
  granted refused waits : Answer

-- A decrement that stops at 0.
abbrev release : ℕ → ℕ → ℕ
release n bytes = if ltb n bytes then 0 else n - bytes

-- A count one lower, in 32 bits.
abbrev down : ℕ → ℕ
down n = u32 (n + 4294967295)

unfoldable pub acquire_connection : DbConfig → ResourceSnapshot → ResourceSnapshot × Answer
acquire_connection c s =
    if not (c.max_connections == 0) && leb c.max_connections s.active_connections
    then (record s { rejected_connections = u64 (s.rejected_connections + 1) }, refused)
    else (record s { active_connections = u32 (s.active_connections + 1) }, granted)

unfoldable pub release_connection : ResourceSnapshot → ResourceSnapshot
release_connection s = record s { active_connections = release s.active_connections 1 }

-- query_ok && write_ok && memory_ok
unfoldable pub admits : DbConfig → ResourceSnapshot → Bool → ℕ → Bool
admits c s is_write memory =
    (c.max_active_queries == 0 || ltb s.active_queries c.max_active_queries)
    && (not is_write
        || c.max_active_write_queries == 0
        || ltb s.active_write_queries c.max_active_write_queries)
    && (memory == 0
        || c.query_memory_limit == 0
        || leb (u64 (s.memory_reserved + memory)) c.query_memory_limit)

-- A round of the loop of acquire_query, by a query that is counted as waiting.
unfoldable pub round_query : DbConfig → ResourceSnapshot → Bool → ℕ → ResourceSnapshot × Answer
unfolding admits
round_query c s is_write memory =
    if admits c s is_write memory
    then (
      record s {
        waiting_queries = down s.waiting_queries;
        active_queries = u32 (s.active_queries + 1);
        active_write_queries =
            if is_write then u32 (s.active_write_queries + 1) else s.active_write_queries;
        memory_reserved = u64 (s.memory_reserved + memory);
      },
      granted,
    )
    else (s, waits)

unfoldable pub enter_query : DbConfig → ResourceSnapshot → Bool → ℕ → ResourceSnapshot × Answer
unfolding round_query
enter_query c s is_write memory =
    if not (c.admission_queue_size == 0) && leb c.admission_queue_size s.waiting_queries
    then (record s { rejected_queries = u64 (s.rejected_queries + 1) }, refused)
    else round_query c (record s { waiting_queries = u32 (s.waiting_queries + 1) }) is_write memory

-- After a wait of acquire_query.
unfoldable pub wake_query :
    DbConfig → ResourceSnapshot → Bool → ℕ → Bool → ResourceSnapshot × Answer
unfolding round_query
wake_query c s is_write memory timed_out =
    if timed_out
    then (
      record s {
        waiting_queries = down s.waiting_queries;
        admission_timeouts = u64 (s.admission_timeouts + 1);
        rejected_queries = u64 (s.rejected_queries + 1);
      },
      refused,
    )
    else round_query c s is_write memory

unfoldable pub release_query : ResourceSnapshot → Bool → ℕ → ResourceSnapshot
release_query s is_write memory = record s {
  active_queries = release s.active_queries 1;
  active_write_queries =
      if is_write then release s.active_write_queries 1 else s.active_write_queries;
  memory_reserved = release s.memory_reserved memory;
}

-- A round of the loop of acquire_transaction.
unfoldable pub round_transaction : DbConfig → ResourceSnapshot → ResourceSnapshot × Answer
round_transaction c s =
    if c.max_active_transactions == 0 || ltb s.active_transactions c.max_active_transactions
    then (
      record s {
        waiting_transactions = down s.waiting_transactions;
        active_transactions = u32 (s.active_transactions + 1);
      },
      granted,
    )
    else (s, waits)

unfoldable pub enter_transaction : DbConfig → ResourceSnapshot → ResourceSnapshot × Answer
unfolding round_transaction
enter_transaction c s =
    round_transaction c (record s { waiting_transactions = u32 (s.waiting_transactions + 1) })

-- After a wait of acquire_transaction.
unfoldable pub wake_transaction : DbConfig → ResourceSnapshot → Bool → ResourceSnapshot × Answer
unfolding round_transaction
wake_transaction c s timed_out =
    if timed_out
    then (
      record s {
        waiting_transactions = down s.waiting_transactions;
        transaction_timeouts = u64 (s.transaction_timeouts + 1);
      },
      refused,
    )
    else round_transaction c s

unfoldable pub release_transaction : ResourceSnapshot → ResourceSnapshot
release_transaction s = record s { active_transactions = release s.active_transactions 1 }

unfoldable pub reserve_memory : DbConfig → ResourceSnapshot → ℕ → ResourceSnapshot × Answer
reserve_memory c s bytes =
    if not (c.query_memory_limit == 0) && ltb c.query_memory_limit (u64 (s.memory_reserved + bytes))
    then (s, refused)
    else (record s { memory_reserved = u64 (s.memory_reserved + bytes) }, granted)

unfoldable pub release_memory : ResourceSnapshot → ℕ → ResourceSnapshot
release_memory s bytes = record s { memory_reserved = release s.memory_reserved bytes }

unfoldable pub reserve_temp : DbConfig → ResourceSnapshot → ℕ → ResourceSnapshot × Answer
reserve_temp c s bytes =
    if not (c.temp_file_limit_bytes == 0)
      && ltb c.temp_file_limit_bytes (u64 (s.temp_bytes_used + bytes))
    then (s, refused)
    else (record s { temp_bytes_used = u64 (s.temp_bytes_used + bytes) }, granted)

unfoldable pub release_temp : ResourceSnapshot → ℕ → ResourceSnapshot
release_temp s bytes = record s { temp_bytes_used = release s.temp_bytes_used bytes }
