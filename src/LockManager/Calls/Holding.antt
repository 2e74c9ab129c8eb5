-- ===== src/LockManager/Calls/Holding.antt =====
-- What a caller of `lock_table` and `lock_record` (concurrency/lock_manager.cpp) holds when the call
-- returns ok.
use minidb.Prelude.{
  ℕ, ◌≤◌, ◌≡◌, refl, ap, inl, inr, true, [], ◌++◌, some, arith, leb, Elem, Elem-middle_self,
  Bool-cases, Option-cases,
}
use minidb.Prelude.Assoc.{Assoc, find, insert, find-insert}
use minidb.LockManager.Mode.{LockMode, rank}
use minidb.LockManager.Requests.{
  LockRequest, LockObject, Held, grant_pending, with_requests, find_held, can_upgrade, is_granted,
}
use minidb.LockManager.Requests.Moves.{find_held_sound, is_granted_sound}
use minidb.LockManager.State.{
  LockManager, ok, lock_conflict, returns, object_at, put_table, put_record,
}
use minidb.LockManager.TableLocks.{
  enter_table, reenter_table, round_table, wake_table, give_up_table, upgraded,
}
use minidb.LockManager.RecordLocks.{enter_record, round_record}

-- The transaction has a granted request on the object of the key, in the mode or a stronger one.
pub data Holds (objs : Assoc LockObject) (txn key : ℕ) (mode : LockMode) : Type 0 where
  holds :
      (obj : LockObject) (q : LockRequest)
      → find key objs ≡ some obj
      → Elem q obj.requests
      → q.txn_id ≡ txn
      → q.granted ≡ true
      → rank mode ≤ rank q.mode
      → Holds objs txn key mode

find-insert_self :
    (k : ℕ) (obj : LockObject) (m : Assoc LockObject) → find k (insert k obj m) ≡ some obj
find-insert_self k obj m = ground (arith, find-insert k k obj m)

Holds-insert :
    (objs : Assoc LockObject) (txn key : ℕ) (mode : LockMode) (obj : LockObject) (q : LockRequest)
    → Elem q obj.requests
    → q.txn_id ≡ txn
    → q.granted ≡ true
    → rank mode ≤ rank q.mode
    → Holds (insert key obj objs) txn key mode
Holds-insert objs txn key mode obj q m t g r = holds obj q (find-insert_self key obj objs) m t g r

Holds-granted :
    (objs : Assoc LockObject) (txn key : ℕ) (mode : LockMode) (obj : LockObject)
    → is_granted txn mode obj.requests ≡ true
    → Holds (insert key obj objs) txn key mode
Holds-granted objs txn key mode obj g =
    let (q, m, t, w, h) = is_granted_sound txn mode obj.requests g in
    Holds-insert objs txn key mode obj q m t h (omega (arith, ap rank w))

not_ok_give_up :
    (lm : LockManager) (txn table : ℕ) (mode : LockMode)
    → (give_up_table lm txn table mode).1 ≡ returns lock_conflict
unfolding give_up_table
not_ok_give_up lm txn table mode = ground arith

round_table-Holds :
    (lm : LockManager) (txn table : ℕ) (mode : LockMode) (obj : LockObject)
    → (round_table lm txn table mode obj).1 ≡ returns ok
    → Holds (round_table lm txn table mode obj).0.lock_table txn table mode
unfolding round_table put_table
round_table-Holds lm txn table mode obj h =
    elim (Bool-cases (is_granted txn mode (grant_pending obj).requests)) [
      | inl g ↦ rw g (Holds-granted lm.lock_table txn table mode (grant_pending obj) g)
      | inr w ↦
          absurd
            (ground (arith, not_ok_give_up (put_table lm table (grant_pending obj)) txn table mode))
    ]

reenter_table-Holds :
    (lm : LockManager) (txn table : ℕ) (mode : LockMode) (obj : LockObject) (h : Held)
    → find_held txn [] obj.requests ≡ some h
    → (reenter_table lm table mode obj h).1 ≡ returns ok
    → Holds (reenter_table lm table mode obj h).0.lock_table txn table mode
unfolding reenter_table put_table with_requests
reenter_table-Holds lm txn table mode obj h e r =
    let (split, own, g) = find_held_sound txn [] obj.requests h e in
    elim (Bool-cases (leb (rank mode) (rank h.request.mode))) [
      | inl enough ↦ rw enough (
          Holds-insert lm.lock_table txn table mode obj h.request
            (rw split (Elem-middle_self h.request h.before h.behind)) own g (ground arith))
      | inr weak ↦ elim (Bool-cases (can_upgrade (h.before ++ h.behind) mode)) [
        | inl c ↦
            rw (weak, c)
              (Holds-insert lm.lock_table txn table mode (with_requests obj (upgraded h mode)) _
                (Elem-middle_self _ h.before h.behind) own refl (omega arith))
        | inr c ↦ absurd (ground arith)
      ]
    ]

-- When `lock_table` returns ok at its first stretch, the transaction holds the table in the mode that
-- it asked for or a stronger one.
pub enter_table-Holds :
    (lm : LockManager) (txn table : ℕ) (mode : LockMode)
    → (enter_table lm txn table mode).1 ≡ returns ok
    → Holds (enter_table lm txn table mode).0.lock_table txn table mode
unfolding enter_table
enter_table-Holds lm txn table mode r =
    let obj = object_at table table lm.lock_table in
    elim (Option-cases (find_held txn [] obj.requests)) [
      | inl e ↦
          rw (e, enter_table) (round_table-Holds lm txn table mode _ (rw (e, enter_table) at r))
      | inr (h, e) ↦
          rw (e, enter_table)
            (reenter_table-Holds lm txn table mode obj h e (rw (e, enter_table) at r))
    ]

-- When `lock_table` returns ok after a wait, the transaction holds the table in the mode that it asked
-- for or a stronger one.
pub wake_table-Holds :
    (lm : LockManager) (txn table : ℕ) (mode : LockMode)
    → (wake_table lm txn table mode).1 ≡ returns ok
    → Holds (wake_table lm txn table mode).0.lock_table txn table mode
unfolding wake_table
wake_table-Holds lm txn table mode r = elim (Option-cases (find table lm.lock_table)) [
  | inl e ↦ absurd (ground arith)
  | inr (o, e) ↦
      rw (e, wake_table) (round_table-Holds lm txn table mode o (rw (e, wake_table) at r))
]

round_record-Holds :
    (lm : LockManager) (txn key : ℕ) (mode : LockMode) (obj : LockObject)
    → (round_record lm txn key mode obj).1 ≡ returns ok
    → Holds (round_record lm txn key mode obj).0.record_locks txn key mode
unfolding round_record put_record
round_record-Holds lm txn key mode obj h =
    elim (Bool-cases (is_granted txn mode (grant_pending obj).requests)) [
      | inl g ↦ rw g (Holds-granted lm.record_locks txn key mode (grant_pending obj) g)
      | inr w ↦ absurd (ground arith)
    ]

-- When `lock_record` returns ok without a wait, the transaction holds the record in the mode that it
-- asked for or a stronger one.
pub enter_record-Holds :
    (lm : LockManager) (txn table key : ℕ) (mode : LockMode)
    → (enter_record lm txn table key mode).1 ≡ returns ok
    → Holds (enter_record lm txn table key mode).0.record_locks txn key mode
unfolding enter_record put_record
enter_record-Holds lm txn table key mode r =
    let obj = object_at key table lm.record_locks in
    elim (Option-cases (find_held txn [] obj.requests)) [
      | inl e ↦
          rw (e, enter_record) (round_record-Holds lm txn key mode _ (rw (e, enter_record) at r))
      | inr (h, e) ↦
          let (split, own, g) = find_held_sound txn [] obj.requests h e in
          elim (Bool-cases (leb (rank mode) (rank h.request.mode))) [
            | inl enough ↦
                rw (e, enter_record)
                  (Holds-insert lm.record_locks txn key mode obj h.request
                    (rw split (Elem-middle_self h.request h.before h.behind)) own g (ground arith))
            | inr weak ↦ absurd (ground arith)
          ]
    ]
