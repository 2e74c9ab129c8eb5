-- ===== src/LockManager/Deadlock/Search.antt =====
-- The search of `detect_deadlock` (concurrency/lock_manager.cpp) over any graph, given by the
-- successors of each node. The head of the list `stack` is the back of the vector.
use minidb.Prelude.{
  ℕ, zero, suc, ◌+◌, Bool, true, false, List, [], ◌∷◌, ◌==◌, if◌then◌else◌, length,
}

-- seen.contains
unfoldable pub contains : ℕ → List ℕ → Bool
contains n [] = false
contains n (m ∷ ms) = if m == n then true else contains n ms

-- The loop over the holders of one node: none if the start is among them, otherwise the stack with
-- the new ones on it.
pub data Pushed : Type 0 where
  cycle : Pushed
  stack : List ℕ → Pushed

unfoldable pub push_all : ℕ → List ℕ → List ℕ → List ℕ → Pushed
push_all start seen [] st = stack st
push_all start seen (h ∷ hs) st =
    let rest = push_all start seen hs (if contains h seen then st else h ∷ st) in
    if h == start then cycle else rest

-- The `while` loop.
unfoldable pub dfs : ℕ → (ℕ → List ℕ) → ℕ → List ℕ → List ℕ → Bool
unfolding push_all contains
dfs zero succ start seen st = false
dfs (suc fuel) succ start seen [] = false
dfs (suc fuel) succ start seen (n ∷ st) = elim (contains n seen) [
  | true ↦ dfs fuel succ start seen st
  | false ↦ elim (push_all start (n ∷ seen) (succ n) st) [
    | cycle ↦ true
    | stack st' ↦ dfs fuel succ start (n ∷ seen) st'
  ]
]

-- The edges that leave the nodes of a list that are not seen yet.
unfoldable pub open_edges : (ℕ → List ℕ) → List ℕ → List ℕ → ℕ
unfolding contains
open_edges succ seen [] = 0
open_edges succ seen (n ∷ ns) =
    (if contains n seen then 0 else length (succ n)) + open_edges succ seen ns

unfoldable pub cycles : (ℕ → List ℕ) → List ℕ → ℕ → Bool
unfolding dfs open_edges
cycles succ nodes start = dfs (open_edges succ [] nodes + 2) succ start [] (start ∷ [])
