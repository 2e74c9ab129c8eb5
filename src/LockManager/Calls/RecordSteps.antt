-- ===== src/LockManager/Calls/RecordSteps.antt =====
-- The steps of `lock_record` and `unlock_record` (concurrency/lock_manager.cpp) keep mutual
-- exclusion.
use minidb.Prelude.{ℕ, inl, inr, List, [], Bool-cases, Option-cases}
use minidb.Prelude.Assoc.{Assoc, find}
use minidb.LockManager.Mode.{LockMode}
use minidb.LockManager.Requests.{LockObject, grant_pending, find_held, is_granted}
use minidb.LockManager.Requests.Clear.{IsExclusive}
use minidb.LockManager.State.{LockManager, object_at, put_record}
use minidb.LockManager.RecordLocks.{
  enter_record, round_record, wake_record, give_up_record, unlock_record,
}
use minidb.LockManager.Calls.Safety.{
  IsSafe, object_at-IsSound, grant_pending-IsSound, IsExclusive-push, withdraw-IsSound,
  IsExclusive-without_txn, put_record-IsSafe,
}

pub note_record-IsSafe :
    (lm : LockManager) (m : Assoc (List ℕ))
    → IsSafe lm
    → IsSafe (record lm { txn_record_locks = m })
note_record-IsSafe lm m s = record { tables = s.tables; records = s.records }

pub give_up_record-IsSafe :
    (lm : LockManager) (txn key : ℕ) (mode : LockMode)
    → IsSafe lm
    → IsSafe (give_up_record lm txn key mode).0
unfolding give_up_record
give_up_record-IsSafe lm txn key mode s = elim (Option-cases (find key lm.record_locks)) [
  | inl e ↦ rw (e, give_up_record) s
  | inr (obj, e) ↦
      rw (e, give_up_record)
        (put_record-IsSafe lm key _ s (withdraw-IsSound txn mode obj (s.records.at key obj e)))
]

pub round_record-IsSafe :
    (lm : LockManager) (txn key : ℕ) (mode : LockMode) (obj : LockObject)
    → IsSafe lm
    → IsExclusive obj.requests
    → IsSafe (round_record lm txn key mode obj).0
unfolding round_record
round_record-IsSafe lm txn key mode obj s x =
    let s' = put_record-IsSafe lm key (grant_pending obj) s (grant_pending-IsSound obj x) in
    elim (Bool-cases (is_granted txn mode (grant_pending obj).requests)) [
      | inl g ↦ rw g (note_record-IsSafe (put_record lm key (grant_pending obj)) _ s')
      | inr w ↦ rw w s'
    ]

pub enter_record-IsSafe :
    (lm : LockManager) (txn table key : ℕ) (mode : LockMode)
    → IsSafe lm
    → IsSafe (enter_record lm txn table key mode).0
unfolding enter_record
enter_record-IsSafe lm txn table key mode s =
    let obj = object_at key table lm.record_locks in
    let o = object_at-IsSound key table lm.record_locks s.records in
    elim (Option-cases (find_held txn [] obj.requests)) [
      | inl e ↦
          rw (e, enter_record)
            (round_record-IsSafe lm txn key mode _ s
              (IsExclusive-push obj.requests txn mode o.exclusive))
      | inr (h, e) ↦ rw (e, enter_record) (put_record-IsSafe lm key obj s o)
    ]

pub wake_record-IsSafe :
    (lm : LockManager) (txn key : ℕ) (mode : LockMode)
    → IsSafe lm
    → IsSafe (wake_record lm txn key mode).0
unfolding wake_record
wake_record-IsSafe lm txn key mode s = elim (Option-cases (find key lm.record_locks)) [
  | inl e ↦ rw (e, wake_record) s
  | inr (obj, e) ↦
      rw (e, wake_record)
        (round_record-IsSafe lm txn key mode obj s (s.records.at key obj e).exclusive)
]

pub unlock_record-IsSafe :
    (lm : LockManager) (txn key : ℕ) → IsSafe lm → IsSafe (unlock_record lm txn key)
unfolding unlock_record
unlock_record-IsSafe lm txn key s = elim (Option-cases (find key lm.record_locks)) [
  | inl e ↦ rw (e, unlock_record) s
  | inr (obj, e) ↦
      rw (e, unlock_record)
        (put_record-IsSafe lm key _ s (
          grant_pending-IsSound _
            (IsExclusive-without_txn txn obj.requests (s.records.at key obj e).exclusive)))
]
