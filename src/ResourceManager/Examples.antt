-- ===== src/ResourceManager/Examples.antt =====
-- A resource manager with room for two connections and one query.
use minidb.Prelude.{◌≡◌, refl, true, false, List, [], ◌∷◌, arith}
use minidb.ResourceManager.{
  DbConfig, ResourceSnapshot, acquire_connection, enter_query, wake_query, round_query, admits,
}
use minidb.ResourceManager.Limits.{
  query_entered, query_woken, Call, acquires_connection, enters_query, wakes_query, run, step,
  Threads, IsQueued, IsWithin, run-IsWithin,
}

abbrev config : DbConfig
config = record {
  max_connections = 2;
  admission_queue_size = 4;
  max_active_queries = 1;
  max_active_write_queries = 1;
  query_memory_limit = 100;
  max_active_transactions = 0;
  temp_file_limit_bytes = 0;
}

abbrev idle : ResourceSnapshot
idle = record {
  active_connections = 0;
  active_queries = 0;
  active_write_queries = 0;
  waiting_queries = 0;
  memory_reserved = 0;
  temp_bytes_used = 0;
  rejected_connections = 0;
  rejected_queries = 0;
  admission_timeouts = 0;
  active_transactions = 0;
  waiting_transactions = 0;
  transaction_timeouts = 0;
}

abbrev nobody : Threads
nobody = record { stats = idle; waiting_for_query = 0; waiting_for_transaction = 0 }

abbrev some_calls : List Call
some_calls =
    acquires_connection
    ∷ acquires_connection
    ∷ acquires_connection
    ∷ enters_query true 60
    ∷ enters_query false 10
    ∷ wakes_query false 10 true
    ∷ []

third_connection : (run config nobody some_calls).stats.rejected_connections ≡ 1
unfolding run step query_entered query_woken acquire_connection enter_query wake_query round_query
    admits
third_connection = refl

idle-IsWithin : IsWithin config idle
idle-IsWithin = ground arith

nobody-IsQueued : IsQueued config nobody
nobody-IsQueued = ground arith

run-IsWithin_example :
    IsQueued config (run config nobody some_calls)
    × IsWithin config (run config nobody some_calls).stats
run-IsWithin_example =
    run-IsWithin config nobody some_calls (omega arith) nobody-IsQueued idle-IsWithin
