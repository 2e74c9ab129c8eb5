-- ===== src/LockManager/Examples.antt =====
-- Concrete runs of the lock manager: transaction 1 has table 7 exclusively and transaction 2 waits
-- for it; two transactions that each wait for the other; and a late grant.
use minidb.Prelude.{ℕ, ◌≡◌, refl, ◌↔◌, inl, inr, true, false, List, [], ◌∷◌, none, arith, All}
use minidb.Prelude.Assoc.{find}
use minidb.LockManager.Mode.{
  access_share, row_exclusive, exclusive, access_exclusive, is_compatible, max_mode,
}
use minidb.LockManager.Requests.{
  LockObject, can_grant, grant_loop, grant_pending, find_held, new_request,
}
use minidb.LockManager.Requests.{grant_one, held_mask, is_granted, without_txn}
use minidb.LockManager.Deadlock.{detect_deadlock}
use minidb.LockManager.Deadlock.Waits.{WaitChain, detect_deadlock_iff}
use minidb.LockManager.State.{LockManager, empty, lock_conflict, returns}
use minidb.LockManager.TableLocks.{enter_table, give_up_table}
use minidb.LockManager.RecordLocks.{enter_record}
use minidb.LockManager.Release.{unlock_table, unlock_all}
use minidb.LockManager.Release.Freed.{NoRequest, unlock_table_wakes}
use minidb.LockManager.Release.Everything.{held_keys, unlock_all_frees}
use minidb.LockManager.Release.Leaks.{unlock_all_keeps_record_lock, late_grant_leaks}
use minidb.LockManager.Calls.{Call, enters_table, unlocks_all, run}
use minidb.LockManager.Calls.Safety.{IsSafe}
use minidb.LockManager.Calls.Exclusion.{run-empty-IsSafe}
use minidb.LockManager.Calls.Holding.{Holds, holds}

-- Transaction 1 holds table 7, transaction 2 waits for it.
abbrev contended_calls : List Call
contended_calls = enters_table 1 7 access_exclusive ∷ enters_table 2 7 row_exclusive ∷ []

abbrev table_7 : LockObject
table_7 = record {
  table_id = 7;
  requests =
      record { txn_id = 1; mode = access_exclusive; granted = true; waiting = false }
      ∷ new_request 2 row_exclusive
      ∷ [];
  granted_mask = access_exclusive;
}

abbrev contended : LockManager
contended = record {
  lock_table = (7, table_7) ∷ [];
  txn_locks = (1, 7 ∷ []) ∷ [];
  record_locks = [];
  txn_record_locks = [];
}

contended_runs : run empty contended_calls ≡ contended
unfolding run enter_table grant_pending grant_loop grant_one held_mask find_held is_granted
    can_grant is_compatible max_mode detect_deadlock
contended_runs = refl

run-empty-IsSafe_example : IsSafe (run empty contended_calls)
run-empty-IsSafe_example = run-empty-IsSafe contended_calls

-- Transaction 1 has gone; transaction 2 wakes up.
abbrev freed_7 : LockManager
freed_7 = record {
  lock_table =
      (
        7,
        record {
          table_id = 7;
          requests = new_request 2 row_exclusive ∷ [];
          granted_mask = access_share;
        },
      )
      ∷ [];
  txn_locks = [];
  record_locks = [];
  txn_record_locks = [];
}

-- When transaction 3 lets go, 1 still holds the table and 2 still waits.
unlock_table_wakes_example : can_grant table_7.requests 2 row_exclusive ≡ false
unfolding unlock_table grant_pending grant_loop grant_one held_mask without_txn can_grant
    is_compatible max_mode
unlock_table_wakes_example =
    unlock_table_wakes contended 3 7 table_7 table_7 (new_request 2 row_exclusive) refl refl
      (inr (inl refl)) refl

unlock_all_frees_example :
    All (NoRequest (unlock_all contended 1).lock_table 1) (7 ∷ [])
    × All
        (NoRequest (unlock_all contended 1).record_locks 1)
        (held_keys 1 contended.txn_record_locks)
    × (find 1 (unlock_all contended 1).txn_locks ≡ none)
    × (find 1 (unlock_all contended 1).txn_record_locks ≡ none)
unlock_all_frees_example = unlock_all_frees contended 1 (7 ∷ []) refl

unlock_all_keeps_record_lock_example :
    Holds (unlock_all (enter_record empty 1 7 99 exclusive).0 1).record_locks 1 99 exclusive
unfolding enter_record grant_pending grant_loop grant_one held_mask find_held is_granted can_grant
unlock_all_keeps_record_lock_example = unlock_all_keeps_record_lock empty 1 7 99 exclusive refl refl

-- Transaction 2 waits for table 7, transaction 1 commits, and the wait of 2 times out only then.
abbrev granted_late : LockManager
granted_late = record {
  lock_table =
      (
        7,
        record {
          table_id = 7;
          requests =
              record { txn_id = 2; mode = row_exclusive; granted = true; waiting = false } ∷ [];
          granted_mask = row_exclusive;
        },
      )
      ∷ [];
  txn_locks = [];
  record_locks = [];
  txn_record_locks = [];
}

granted_late_runs :
    run empty
      (enters_table 1 7 access_exclusive ∷ enters_table 2 7 row_exclusive ∷ unlocks_all 1 ∷ [])
    ≡ granted_late
unfolding run enter_table unlock_all grant_pending grant_loop grant_one held_mask find_held
    is_granted can_grant is_compatible max_mode detect_deadlock without_txn
granted_late_runs = refl

late_grant_leaks_example :
    ((give_up_table granted_late 2 7 row_exclusive).1 ≡ returns lock_conflict)
    × Holds
        (unlock_all (give_up_table granted_late 2 7 row_exclusive).0 2).lock_table
        2
        7
        row_exclusive
late_grant_leaks_example =
    late_grant_leaks granted_late 2 7 row_exclusive
      (holds _ _ refl (inl refl) refl refl (omega arith)) refl

-- 1 has table 7 and waits for 8, 2 has 8 and waits for 7.
abbrev crossed : List (ℕ × LockObject)
crossed =
    (
      7,
      record {
        table_id = 7;
        requests =
            record { txn_id = 1; mode = exclusive; granted = true; waiting = false }
            ∷ new_request 2 exclusive
            ∷ [];
        granted_mask = exclusive;
      },
    )
    ∷ (
      8,
      record {
        table_id = 8;
        requests =
            record { txn_id = 2; mode = exclusive; granted = true; waiting = false }
            ∷ new_request 1 exclusive
            ∷ [];
        granted_mask = exclusive;
      },
    )
    ∷ []

detect_deadlock-crossed : detect_deadlock crossed 1 ≡ true
unfolding detect_deadlock is_compatible
detect_deadlock-crossed = refl

detect_deadlock_iff_example : (detect_deadlock crossed 1 ≡ true) ↔ WaitChain crossed 1 1
detect_deadlock_iff_example = detect_deadlock_iff crossed 1
