-- ===== src/LockManager/Deadlock/Sound.antt =====
-- Paths of the wait-for graph, and what one round of the search of `detect_deadlock`
-- (concurrency/lock_manager.cpp) does; a search that answers "deadlock" has found a cycle.
use minidb.Prelude.{
  ℕ, zero, suc, ◌+◌, ◌≤◌, ◌≡◌, refl, sym, ap, subst, ◌≢◌, ◌⊎◌, inl, inr, Bool, true, false, List,
  [], ◌∷◌, arith, ◌==◌, if◌then◌else◌, Elem, Bool-cases, length,
}
use minidb.LockManager.Deadlock.Search.{Pushed, cycle, stack, contains, push_all, dfs, cycles}

-- A path of at least one edge.
pub data Leads (succ : ℕ → List ℕ) (a : ℕ) : ℕ → Type 0 where
  edge : {b : ℕ} → Elem b (succ a) → Leads succ a b
  step : {b c : ℕ} → Leads succ a b → Elem c (succ b) → Leads succ a c

pub contains-Elem : (n : ℕ) (ms : List ℕ) → contains n ms ≡ true → Elem n ms
unfolding contains
contains-Elem n [] h = cc
contains-Elem n (m ∷ ms) h = elim (Bool-cases (m == n)) [
  | inl e ↦ inl (ground arith)
  | inr ne ↦ inr (contains-Elem n ms (rw ne at h))
]

pub Pushed-cases : (p : Pushed) → (p ≡ cycle) ⊎ ((st : List ℕ) × (p ≡ stack st))
Pushed-cases cycle = inl refl
Pushed-cases (stack st) = inr (st, refl)

Elem-if :
    (n x : ℕ) (st : List ℕ) (b : Bool) → Elem n (if b then st else x ∷ st) → (n ≡ x) ⊎ Elem n st
Elem-if n x st true m = inr m
Elem-if n x st false m = m

-- The loop over the holders stops at the start only.
push_all_cycle :
    (start : ℕ) (seen hs st : List ℕ) → push_all start seen hs st ≡ cycle → Elem start hs
unfolding push_all
push_all_cycle start seen [] st h = cc
push_all_cycle start seen (x ∷ hs) st h = elim (Bool-cases (x == start)) [
  | inl e ↦ inl (ground arith)
  | inr ne ↦ inr (push_all_cycle start seen hs _ (rw ne at h))
]

-- What is on the stack afterwards was there, or is a holder.
push_all_from :
    (start : ℕ) (seen hs st st' : List ℕ) (n : ℕ)
    → push_all start seen hs st ≡ stack st'
    → Elem n st'
    → Elem n hs ⊎ Elem n st
unfolding push_all
push_all_from start seen [] st st' n h m = let e : st ≡ st' = cc in inr (subst (Elem n) (sym e) m)
push_all_from start seen (x ∷ hs) st st' n h m = elim (Bool-cases (x == start)) [
  | inl e ↦ cc (rw e at h)
  | inr ne ↦ elim (push_all_from start seen hs _ st' n (rw ne at h) m) [
    | inl held ↦ inl (inr held)
    | inr pushed ↦ elim (Elem-if n x st (contains x seen) pushed) [
      | inl e ↦ inl (inl e)
      | inr old ↦ inr old
    ]
  ]
]

-- Where the loop does not stop, no holder is the start, each is seen or on the stack, and what was
-- on the stack is there still.
pub record Pushes (start : ℕ) (seen hs st st' : List ℕ) : Type 0 where
  pub away : (n : ℕ) → Elem n hs → n ≢ start
  pub listed : (n : ℕ) → Elem n hs → Elem n seen ⊎ Elem n st'
  pub kept : (n : ℕ) → Elem n st → Elem n st'
  pub size : length st' ≤ length hs + length st

pub push_all-Pushes :
    (start : ℕ) (seen hs st st' : List ℕ)
    → push_all start seen hs st ≡ stack st'
    → Pushes start seen hs st st'
unfolding push_all
push_all-Pushes start seen [] st st' h =
    let e : st ≡ st' = cc in
    record {
      away = λ n m. elim m [ ];
      listed = λ n m. elim m [ ];
      kept = λ n m. subst (Elem n) e m;
      size = omega (arith, ap (length {0}) e);
    }
push_all-Pushes start seen (x ∷ hs) st st' h = elim (Bool-cases (x == start)) [
  | inl e ↦ cc (rw e at h)
  | inr ne ↦ elim (Bool-cases (contains x seen)) [
    | inl old ↦
        let ih = push_all-Pushes start seen hs st st' (rw (ne, old) at h) in
        record {
          away = λ n m. elim m [ inl e ↦ (λ w. ground arith) | inr k ↦ ih.away n k ];
          listed = λ n m. elim m [
            | inl e ↦ inl (rw e (contains-Elem x seen old))
            | inr k ↦ ih.listed n k
          ];
          kept = ih.kept;
          size = omega (arith, ih.size);
        }
    | inr new ↦
        let ih = push_all-Pushes start seen hs (x ∷ st) st' (rw (ne, new) at h) in
        record {
          away = λ n m. elim m [ inl e ↦ (λ w. ground arith) | inr k ↦ ih.away n k ];
          listed = λ n m. elim m [ inl e ↦ inr (ih.kept n (inl e)) | inr k ↦ ih.listed n k ];
          kept = λ n m. ih.kept n (inr m);
          size = omega (arith, ih.size);
        }
  ]
]

-- `n` is the start or a path leads to it.
abbrev Reached : (ℕ → List ℕ) → ℕ → ℕ → Type 0
Reached succ start n = (n ≡ start) ⊎ Leads succ start n

Reached-next :
    {succ : ℕ → List ℕ} {start n k : ℕ}
    → Reached succ start n
    → Elem k (succ n)
    → Leads succ start k
Reached-next {succ} {k} (inl e) m = edge (subst (λ i. Elem k (succ i)) e m)
Reached-next (inr p) m = step p m

dfs_sound :
    (fuel : ℕ) (succ : ℕ → List ℕ) (start : ℕ) (seen st : List ℕ)
    → ((n : ℕ) → Elem n st → Reached succ start n)
    → dfs fuel succ start seen st ≡ true
    → Leads succ start start
unfolding dfs
dfs_sound zero succ start seen st r h = cc
dfs_sound (suc fuel) succ start seen [] r h = cc
dfs_sound (suc fuel) succ start seen (n ∷ st) r h = elim (Bool-cases (contains n seen)) [
  | inl old ↦ dfs_sound fuel succ start seen st (λ k m. r k (inr m)) (rw (old, dfs) at h)
  | inr new ↦ elim (Pushed-cases (push_all start (n ∷ seen) (succ n) st)) [
    | inl c ↦ Reached-next (r n (inl refl)) (push_all_cycle start (n ∷ seen) (succ n) st c)
    | inr (st', p) ↦
        dfs_sound fuel succ start (n ∷ seen) st'
          (λ k m. elim (push_all_from start (n ∷ seen) (succ n) st st' k p m) [
            | inl held ↦ inr (Reached-next (r n (inl refl)) held)
            | inr old ↦ r k (inr old)
          ])
          (rw (new, p, dfs) at h)
  ]
]

-- A search that answers "deadlock" has found a path from the start back to it.
pub cycles_sound :
    (succ : ℕ → List ℕ) (nodes : List ℕ) (start : ℕ)
    → cycles succ nodes start ≡ true
    → Leads succ start start
unfolding cycles
cycles_sound succ nodes start h =
    dfs_sound _ succ start [] (start ∷ []) (λ n m. elim m [ inl e ↦ inl e | inr k ↦ absurd k ]) h
