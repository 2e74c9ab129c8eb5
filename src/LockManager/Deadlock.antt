-- ===== src/LockManager/Deadlock.antt =====
-- `detect_deadlock` (concurrency/lock_manager.cpp): the depth-first search of the wait-for graph.
pub mod Search
pub mod Sound
pub mod Complete
pub mod Waits
use minidb.Prelude.{
  ℕ, zero, suc, ◌+◌, Bool, true, false, not, ◌&&◌, List, [], ◌∷◌, ◌++◌, Option, none, some, arith,
  ◌==◌, if◌then◌else◌,
}
use minidb.Prelude.Assoc.{Assoc}
use minidb.LockManager.Mode.{LockMode, is_compatible}
use minidb.LockManager.Requests.{LockRequest, LockObject}
use Search.{cycles}

-- The inner loop of `find_holder_for`: the granted requests of an object that stand against a mode.
unfoldable pub blockers : LockMode → List LockRequest → List ℕ
blockers mode [] = []
blockers mode (r ∷ rs) =
    let rest = blockers mode rs in
    if r.granted && not (is_compatible r.mode mode) then r.txn_id ∷ rest else rest

-- Its loop over the requests of one object, of which `rs` are still to come.
unfoldable pub holders_on : ℕ → List LockRequest → List LockRequest → List ℕ
unfolding blockers
holders_on waiter all [] = []
holders_on waiter all (r ∷ rs) =
    let rest = holders_on waiter all rs in
    if not r.granted && r.txn_id == waiter then blockers r.mode all ++ rest else rest

-- `find_holder_for`, over all lock objects of the table.
unfoldable pub find_holder_for : Assoc LockObject → ℕ → List ℕ
unfolding holders_on
find_holder_for [] waiter = []
find_holder_for ((k, obj) ∷ objs) waiter =
    holders_on waiter obj.requests obj.requests ++ find_holder_for objs waiter

-- Every transaction that has a request on an object of the table: the nodes of the graph.
unfoldable pub txns_on : List LockRequest → List ℕ
txns_on [] = []
txns_on (r ∷ rs) = r.txn_id ∷ txns_on rs

unfoldable pub txns : Assoc LockObject → List ℕ
unfolding txns_on
txns [] = []
txns ((k, obj) ∷ objs) = txns_on obj.requests ++ txns objs

-- LockManager::detect_deadlock. The loop has no bound in the source; the fuel is one more than its
-- number of rounds can be.
unfoldable pub detect_deadlock : Assoc LockObject → ℕ → Bool
unfolding cycles find_holder_for txns
detect_deadlock table txn = cycles (find_holder_for table) (txns table) txn
