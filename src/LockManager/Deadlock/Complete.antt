-- ===== src/LockManager/Deadlock/Complete.antt =====
-- A search of `detect_deadlock` (concurrency/lock_manager.cpp) that answers "no deadlock" has seen
-- all that the start leads to: it ends before its fuel, and no path leads back.
use minidb.Prelude.{
  ℕ, zero, suc, ◌+◌, ◌≤◌, ◌<◌, ◌≡◌, refl, sym, ap, subst, ◌≢◌, ◌⊎◌, inl, inr, true, false, List, [],
  ◌∷◌, arith, Elem, Bool-cases, length,
}
use minidb.LockManager.Deadlock.Search.{contains, push_all, dfs, open_edges, cycles}
use minidb.LockManager.Deadlock.Sound.{
  Leads, edge, step, contains-Elem, Pushes, push_all-Pushes, Pushed-cases,
}

Elem-contains : (n : ℕ) (ms : List ℕ) → Elem n ms → contains n ms ≡ true
unfolding contains
Elem-contains n [] h = elim h [ ]
Elem-contains n (m ∷ ms) (inl e) = ground arith
Elem-contains n (m ∷ ms) (inr k) = ground (arith, Elem-contains n ms k)

-- Seeing one more node opens no edge.
open_edges-le :
    (succ : ℕ → List ℕ) (n : ℕ) (seen ns : List ℕ)
    → open_edges succ (n ∷ seen) ns ≤ open_edges succ seen ns
unfolding open_edges
open_edges-le succ n seen [] = omega arith
open_edges-le succ n seen (k ∷ ns) = ground (arith, open_edges-le succ n seen ns)

-- It closes the edges that leave it.
open_edges-drop :
    (succ : ℕ → List ℕ) (n : ℕ) (seen ns : List ℕ)
    → contains n seen ≡ false
    → Elem n ns
    → open_edges succ (n ∷ seen) ns + length (succ n) ≤ open_edges succ seen ns
unfolding open_edges
open_edges-drop succ n seen [] new m = elim m [ ]
open_edges-drop succ n seen (k ∷ ns) new (inl e) =
    let e' = ap (λ i. length (succ i)) e in ground (arith, e', open_edges-le succ n seen ns)
open_edges-drop succ n seen (k ∷ ns) new (inr m) =
    ground (arith, open_edges-drop succ n seen ns new m)

-- Only the listed nodes have successors.
pub record Covers (succ : ℕ → List ℕ) (nodes : List ℕ) : Type 0 where
  pub at : (n : ℕ) → Elem n nodes ⊎ (length (succ n) ≡ 0)

measure_falls :
    (succ : ℕ → List ℕ) (nodes : List ℕ) (n : ℕ) (seen : List ℕ)
    → Covers succ nodes
    → contains n seen ≡ false
    → open_edges succ (n ∷ seen) nodes + length (succ n) ≤ open_edges succ seen nodes
measure_falls succ nodes n seen c new = elim (c.at n) [
  | inl m ↦ open_edges-drop succ n seen nodes new m
  | inr z ↦ omega (arith, open_edges-le succ n seen nodes)
]

-- What holds between the rounds: the successors of a seen node are not the start, and they are
-- seen or on the stack; so is the start.
record Searched (succ : ℕ → List ℕ) (start : ℕ) (seen st : List ℕ) : Type 0 where
  away : (n k : ℕ) → Elem n seen → Elem k (succ n) → k ≢ start
  listed : (n k : ℕ) → Elem n seen → Elem k (succ n) → Elem k seen ⊎ Elem k st
  begun : Elem start seen ⊎ Elem start st

closed :
    {succ : ℕ → List ℕ} {start : ℕ} {seen : List ℕ} (n k : ℕ)
    → Searched succ start seen []
    → Elem n seen
    → Elem k (succ n)
    → Elem k seen × (k ≢ start)
closed n k s i m = (elim (s.listed n k i m) [ inl e ↦ e | inr x ↦ absurd x ], s.away n k i m)

-- With an empty stack, what the start leads to is seen, and is not the start.
all_seen :
    {succ : ℕ → List ℕ} {start k : ℕ} {seen : List ℕ}
    → Searched succ start seen []
    → Leads succ start k
    → Elem k seen × (k ≢ start)
all_seen {start} {k} s (edge m) = closed start k s (elim s.begun [ inl e ↦ e | inr x ↦ absurd x ]) m
all_seen {k} s (step {b} p m) = closed b k s (all_seen s p).0 m

Searched-pop :
    {succ : ℕ → List ℕ} {start n : ℕ} {seen st : List ℕ}
    → Elem n seen
    → Searched succ start seen (n ∷ st)
    → Searched succ start seen st
Searched-pop {start} {n} {seen} {st} old s = record {
  away = s.away;
  listed = λ a b i m. drop_head b (s.listed a b i m);
  begun = drop_head start s.begun;
}
  where
    drop_head : (b : ℕ) → Elem b seen ⊎ Elem b (n ∷ st) → Elem b seen ⊎ Elem b st
    drop_head b (inl e) = inl e
    drop_head b (inr (inl e)) = inl (subst (λ i. Elem i seen) (sym e) old)
    drop_head b (inr (inr k)) = inr k

Searched-push :
    {succ : ℕ → List ℕ} {start n : ℕ} {seen st st' : List ℕ}
    → Pushes start (n ∷ seen) (succ n) st st'
    → Searched succ start seen (n ∷ st)
    → Searched succ start (n ∷ seen) st'
Searched-push {succ} {start} {n} {seen} {st} {st'} p s = record {
  away = λ a b i m. elim i [
    | inl e ↦ p.away b (subst (λ j. Elem b (succ j)) e m)
    | inr old ↦ s.away a b old m
  ];
  listed = λ a b i m. elim i [
    | inl e ↦ p.listed b (subst (λ j. Elem b (succ j)) e m)
    | inr old ↦ move b (s.listed a b old m)
  ];
  begun = move start s.begun;
}
  where
    move : (b : ℕ) → Elem b seen ⊎ Elem b (n ∷ st) → Elem b (n ∷ seen) ⊎ Elem b st'
    move b (inl e) = inl (inr e)
    move b (inr (inl e)) = inl (inl e)
    move b (inr (inr k)) = inr (p.kept b k)

dfs_complete :
    (fuel : ℕ) (succ : ℕ → List ℕ) (nodes : List ℕ) (start : ℕ) (seen st : List ℕ)
    → Covers succ nodes
    → length st + open_edges succ seen nodes < fuel
    → Searched succ start seen st
    → dfs fuel succ start seen st ≡ false
    → ¬ Leads succ start start
unfolding dfs
dfs_complete zero succ nodes start seen st c m s h = elim m [ ]
dfs_complete (suc fuel) succ nodes start seen [] c m s h = λ p. (all_seen s p).1 refl
dfs_complete (suc fuel) succ nodes start seen (n ∷ st) c m s h =
    elim (Bool-cases (contains n seen)) [
      | inl old ↦
          dfs_complete fuel succ nodes start seen st c (omega arith)
            (Searched-pop (contains-Elem n seen old) s) (rw (old, dfs) at h)
      | inr new ↦ elim (Pushed-cases (push_all start (n ∷ seen) (succ n) st)) [
        | inl e ↦ cc (rw (new, e, dfs) at h)
        | inr (st', e) ↦
            let p = push_all-Pushes start (n ∷ seen) (succ n) st st' e in
            dfs_complete fuel succ nodes start (n ∷ seen) st' c
              (omega (arith, p.size, measure_falls succ nodes n seen c new)) (Searched-push p s)
              (rw (new, e, dfs) at h)
      ]
    ]

-- A search that answers "no deadlock" is right, if only the listed nodes have successors: no path
-- leads from the start back to it.
pub cycles_complete :
    (succ : ℕ → List ℕ) (nodes : List ℕ) (start : ℕ)
    → Covers succ nodes
    → cycles succ nodes start ≡ false
    → ¬ Leads succ start start
unfolding cycles
cycles_complete succ nodes start c h =
    dfs_complete _ succ nodes start [] (start ∷ []) c (omega arith)
      (record { away = λ n k m. elim m [ ]; listed = λ n k m. elim m [ ]; begun = inr (inl refl) })
      h
