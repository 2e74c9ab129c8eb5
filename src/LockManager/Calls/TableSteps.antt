-- ===== src/LockManager/Calls/TableSteps.antt =====
-- The steps of `lock_table` (concurrency/lock_manager.cpp) keep mutual exclusion.
use minidb.Prelude.{ℕ, ◌≡◌, refl, inl, inr, List, [], ◌++◌, some, leb, Bool-cases, Option-cases}
use minidb.Prelude.Assoc.{Assoc, find}
use minidb.LockManager.Mode.{LockMode, rank}
use minidb.LockManager.Requests.{
  LockObject, Held, with_requests, grant_pending, find_held, can_upgrade, is_granted,
}
use minidb.LockManager.Requests.Clear.{IsExclusive}
use minidb.LockManager.Deadlock.{detect_deadlock}
use minidb.LockManager.State.{LockManager, object_at, put_table}
use minidb.LockManager.TableLocks.{
  enter_table, reenter_table, round_table, wake_table, give_up_table, upgraded,
}
use minidb.LockManager.Calls.Safety.{
  IsSound, IsSafe, object_at-IsSound, grant_pending-IsSound, IsExclusive-push, IsExclusive-upgraded,
  withdraw-IsSound, put_table-IsSafe,
}

pub give_up_table-IsSafe :
    (lm : LockManager) (txn table : ℕ) (mode : LockMode)
    → IsSafe lm
    → IsSafe (give_up_table lm txn table mode).0
unfolding give_up_table
give_up_table-IsSafe lm txn table mode s = elim (Option-cases (find table lm.lock_table)) [
  | inl e ↦ rw (e, give_up_table) s
  | inr (obj, e) ↦
      rw (e, give_up_table)
        (put_table-IsSafe lm table _ s (withdraw-IsSound txn mode obj (s.tables.at table obj e)))
]

pub note_table-IsSafe :
    (lm : LockManager) (m : Assoc (List ℕ)) → IsSafe lm → IsSafe (record lm { txn_locks = m })
note_table-IsSafe lm m s = record { tables = s.tables; records = s.records }

pub round_table-IsSafe :
    (lm : LockManager) (txn table : ℕ) (mode : LockMode) (obj : LockObject)
    → IsSafe lm
    → IsExclusive obj.requests
    → IsSafe (round_table lm txn table mode obj).0
unfolding round_table
round_table-IsSafe lm txn table mode obj s x =
    let lm' = put_table lm table (grant_pending obj) in
    let s' = put_table-IsSafe lm table (grant_pending obj) s (grant_pending-IsSound obj x) in
    elim (Bool-cases (is_granted txn mode (grant_pending obj).requests)) [
      | inl g ↦ rw g (note_table-IsSafe lm' _ s')
      | inr w ↦ elim (Bool-cases (detect_deadlock lm'.lock_table txn)) [
        | inl d ↦ rw (w, d) (give_up_table-IsSafe lm' txn table mode s')
        | inr n ↦ rw (w, n) s'
      ]
    ]

pub reenter_table-IsSafe :
    (lm : LockManager) (txn table : ℕ) (mode : LockMode) (obj : LockObject) (h : Held)
    → IsSafe lm
    → IsSound obj
    → find_held txn [] obj.requests ≡ some h
    → IsSafe (reenter_table lm table mode obj h).0
unfolding reenter_table with_requests
reenter_table-IsSafe lm txn table mode obj h s o e =
    elim (Bool-cases (leb (rank mode) (rank h.request.mode))) [
      | inl enough ↦ rw enough (put_table-IsSafe lm table obj s o)
      | inr weak ↦ elim (Bool-cases (can_upgrade (h.before ++ h.behind) mode)) [
        | inl c ↦
            rw (weak, c)
              (put_table-IsSafe lm table (with_requests obj (upgraded h mode)) s (record {
                exclusive = IsExclusive-upgraded obj.requests txn mode h o.exclusive e c;
                mask = refl;
              }))
        | inr c ↦ rw (weak, c) (put_table-IsSafe lm table obj s o)
      ]
    ]

pub enter_table-IsSafe :
    (lm : LockManager) (txn table : ℕ) (mode : LockMode)
    → IsSafe lm
    → IsSafe (enter_table lm txn table mode).0
unfolding enter_table
enter_table-IsSafe lm txn table mode s =
    let obj = object_at table table lm.lock_table in
    let o = object_at-IsSound table table lm.lock_table s.tables in
    elim (Option-cases (find_held txn [] obj.requests)) [
      | inl e ↦
          rw (e, enter_table)
            (round_table-IsSafe lm txn table mode _ s
              (IsExclusive-push obj.requests txn mode o.exclusive))
      | inr (h, e) ↦ rw (e, enter_table) (reenter_table-IsSafe lm txn table mode obj h s o e)
    ]

pub wake_table-IsSafe :
    (lm : LockManager) (txn table : ℕ) (mode : LockMode)
    → IsSafe lm
    → IsSafe (wake_table lm txn table mode).0
unfolding wake_table
wake_table-IsSafe lm txn table mode s = elim (Option-cases (find table lm.lock_table)) [
  | inl e ↦ rw (e, wake_table) s
  | inr (obj, e) ↦
      rw (e, wake_table)
        (round_table-IsSafe lm txn table mode obj s (s.tables.at table obj e).exclusive)
]
