-- ===== src/LockManager/Requests.antt =====
-- The requests on one lock object: `LockRequest`, `LockObject`, `can_grant` and `grant_pending`
-- of concurrency/lock_manager.cpp, and the loops over the requests in its calls.
pub mod Clear
pub mod Grants
pub mod Moves
use minidb.Prelude.{
  ℕ, ◌≡◌, Bool, true, false, not, ◌&&◌, ◌||◌, List, [], ◌∷◌, ◌++◌, Option, none, some, leb, ◌==◌,
  if◌then◌else◌, Elem,
}
use minidb.LockManager.Mode.{LockMode, access_share, rank, is_compatible, max_mode}

pub record LockRequest : Type 0 where
  pub txn_id : ℕ
  pub mode : LockMode
  pub granted : Bool
  pub waiting : Bool

pub record LockObject : Type 0 where
  pub table_id : ℕ
  pub requests : List LockRequest
  pub granted_mask : LockMode

-- LockManager::can_grant, of the object's requests.
unfoldable pub can_grant : List LockRequest → ℕ → LockMode → Bool
can_grant [] txn mode = true
can_grant (r ∷ rs) txn mode =
    let rest = can_grant rs txn mode in
    if not r.granted || r.txn_id == txn
    then rest
    else if not (is_compatible r.mode mode) || not (is_compatible mode r.mode)
    then false
    else rest

-- The body of the first loop of `grant_pending`, at one request.
unfoldable pub grant_one : List LockRequest → LockRequest → LockRequest
grant_one rs r =
    if r.granted
    then r
    else if can_grant rs r.txn_id r.mode
    then record r { granted = true; waiting = false }
    else r

-- The first loop: `done` are the requests that it has passed.
unfoldable pub grant_loop : List LockRequest → List LockRequest → List LockRequest
grant_loop done [] = done
grant_loop done (r ∷ rs) = grant_loop (done ++ grant_one (done ++ r ∷ rs) r ∷ []) rs

-- The second loop: the strongest granted mode.
unfoldable pub held_mask : LockMode → List LockRequest → LockMode
held_mask mask [] = mask
held_mask mask (r ∷ rs) = held_mask (if r.granted then max_mode mask r.mode else mask) rs

-- The object with new requests and the mask recomputed from them.
unfoldable pub with_requests : LockObject → List LockRequest → LockObject
with_requests obj rs = record obj { requests = rs; granted_mask = held_mask access_share rs }

-- LockManager::grant_pending
unfoldable pub grant_pending : LockObject → LockObject
unfolding with_requests
grant_pending obj = with_requests obj (grant_loop [] obj.requests)

-- The search of `lock_table` and `lock_record` for the caller's granted request, with the requests
-- before it and behind it.
pub record Held : Type 0 where
  pub before : List LockRequest
  pub request : LockRequest
  pub behind : List LockRequest

unfoldable pub find_held : ℕ → List LockRequest → List LockRequest → Option Held
find_held txn before [] = none
find_held txn before (r ∷ rs) =
    let rest = find_held txn (before ++ r ∷ []) rs in
    if r.txn_id == txn && r.granted
    then some (record { before = before; request = r; behind = rs })
    else rest

-- The test of an upgrade in place against the other requests.
unfoldable pub can_upgrade : List LockRequest → LockMode → Bool
can_upgrade [] mode = true
can_upgrade (r ∷ rs) mode =
    if r.granted && not (is_compatible r.mode mode) then false else can_upgrade rs mode

-- The request that a caller appends.
abbrev pub new_request : ℕ → LockMode → LockRequest
new_request txn mode = record { txn_id = txn; mode = mode; granted = false; waiting = true }

-- modes are compared by rank
abbrev pub same_mode : LockMode → LockMode → Bool
same_mode a b = rank a == rank b

-- Whether the caller's request has been granted.
unfoldable pub is_granted : ℕ → LockMode → List LockRequest → Bool
is_granted txn mode [] = false
is_granted txn mode (r ∷ rs) =
    if r.txn_id == txn && same_mode r.mode mode && r.granted then true else is_granted txn mode rs

-- A caller that gives up takes its first request that is not granted off the queue.
unfoldable pub withdraw : ℕ → LockMode → List LockRequest → List LockRequest
withdraw txn mode [] = []
withdraw txn mode (r ∷ rs) =
    if r.txn_id == txn && same_mode r.mode mode && not r.granted
    then rs
    else r ∷ withdraw txn mode rs

-- The loop of the unlock calls that keeps the requests of the other transactions.
unfoldable pub without_txn : ℕ → List LockRequest → List LockRequest
without_txn txn [] = []
without_txn txn (r ∷ rs) =
    let rest = without_txn txn rs in if r.txn_id == txn then rest else r ∷ rest
