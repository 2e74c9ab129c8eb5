-- ===== src/LockManager/TableLocks.antt =====
-- `lock_table` of concurrency/lock_manager.cpp. It is cut at its wait into what runs up to the wait
-- (`enter_table`), after a wake-up (`wake_table`) and after a timeout (`give_up_table`); after the
-- timeout the code goes on with the object as it stands under its key.
use minidb.Prelude.{ℕ, true, false, List, [], ◌∷◌, ◌++◌, none, some, leb, if◌then◌else◌}
use minidb.Prelude.Assoc.{find}
use minidb.LockManager.Mode.{LockMode, rank}
use minidb.LockManager.Requests.{
  LockRequest, LockObject, Held, with_requests, grant_pending, find_held, can_upgrade, new_request,
  is_granted, withdraw,
}
use minidb.LockManager.Deadlock.{detect_deadlock}
use minidb.LockManager.State.{
  LockManager, ok, lock_conflict, Outcome, returns, waits, object_at, note_held, put_table,
}

-- The code behind the loop of `lock_table`: the request is withdrawn, and the call fails.
unfoldable pub give_up_table : LockManager → ℕ → ℕ → LockMode → LockManager × Outcome
unfolding put_table
give_up_table lm txn table mode = elim (find table lm.lock_table) [
  | none ↦ (lm, returns lock_conflict)
  | some obj ↦ (
    put_table lm table (record obj { requests = withdraw txn mode obj.requests }),
    returns lock_conflict,
  )
]

-- One round of the loop of `lock_table`, up to the wait.
unfoldable pub round_table : LockManager → ℕ → ℕ → LockMode → LockObject → LockManager × Outcome
unfolding put_table give_up_table note_held
round_table lm txn table mode obj =
    let obj' = grant_pending obj in
    let lm' = put_table lm table obj' in
    if is_granted txn mode obj'.requests
    then (record lm' { txn_locks = note_held txn table lm'.txn_locks }, returns ok)
    else if detect_deadlock lm'.lock_table txn
    then give_up_table lm' txn table mode
    else (lm', waits)

-- An upgrade in place of the request that the caller holds.
abbrev pub upgraded : Held → LockMode → List LockRequest
upgraded h mode =
    h.before ++ record h.request { mode = mode; granted = true; waiting = false } ∷ h.behind

unfoldable pub reenter_table :
    LockManager → ℕ → LockMode → LockObject → Held → LockManager × Outcome
unfolding put_table
reenter_table lm table mode obj h =
    if leb (rank mode) (rank h.request.mode)
    then (put_table lm table obj, returns ok)
    else if can_upgrade (h.before ++ h.behind) mode
    then (put_table lm table (with_requests obj (upgraded h mode)), returns ok)
    else (put_table lm table obj, returns lock_conflict)

-- LockManager::lock_table up to the first wait.
unfoldable pub enter_table : LockManager → ℕ → ℕ → LockMode → LockManager × Outcome
unfolding object_at reenter_table round_table
enter_table lm txn table mode =
    let obj = object_at table table lm.lock_table in
    elim (find_held txn [] obj.requests) [
      | some h ↦ reenter_table lm table mode obj h
      | none ↦
          round_table lm txn table mode
            (record obj { requests = obj.requests ++ new_request txn mode ∷ [] })
    ]

-- LockManager::lock_table from a wake-up to the next wait.
unfoldable pub wake_table : LockManager → ℕ → ℕ → LockMode → LockManager × Outcome
unfolding round_table
wake_table lm txn table mode = elim (find table lm.lock_table) [
  | none ↦ (lm, returns lock_conflict)
  | some obj ↦ round_table lm txn table mode obj
]
