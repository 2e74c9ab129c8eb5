-- ===== src/LockManager/Release/Freed.antt =====
-- What `unlock_table` and `unlock_all` (concurrency/lock_manager.cpp) leave behind.
use minidb.Prelude.{
  ℕ, ◌≡◌, sym, ap, subst, ◌∙◌, ◌≢◌, inl, inr, false, [], none, some, arith, Elem, Option-cases,
}
use minidb.Prelude.Assoc.{Assoc, find, insert, find-insert}
use minidb.LockManager.Requests.{
  LockRequest, LockObject, can_grant, grant_loop, grant_pending, with_requests, without_txn,
}
use minidb.LockManager.Requests.Grants.{grant_pending_maximal, txn-grant_pending}
use minidb.LockManager.Requests.Moves.{Elem-without_txn}
use minidb.LockManager.State.{LockManager, put_table}
use minidb.LockManager.Release.{released, unlock_table}

-- The object of the key has no request of the transaction.
pub record NoRequest (objs : Assoc LockObject) (txn key : ℕ) : Type 0 where
  pub at :
      (obj : LockObject) (q : LockRequest)
      → find key objs ≡ some obj
      → Elem q obj.requests
      → q.txn_id ≢ txn

pub released-others :
    (txn : ℕ) (obj : LockObject) (q : LockRequest)
    → Elem q (released txn obj).requests
    → q.txn_id ≢ txn
unfolding grant_pending with_requests
released-others txn obj q m =
    let (p, i, t) = txn-grant_pending (without_txn txn obj.requests) q m in
    λ e. (Elem-without_txn txn obj.requests p i).1 (t ∙ e)

NoRequest-insert :
    (objs : Assoc LockObject) (txn key : ℕ) (obj : LockObject)
    → NoRequest (insert key (released txn obj) objs) txn key
NoRequest-insert objs txn key obj = record {
  at = λ o q e m.
      let same : released txn obj ≡ o =
        ground (arith, find-insert key key (released txn obj) objs) in
      released-others txn obj q (subst (λ (x : LockObject). Elem q x.requests) (sym same) m);
}

pub NoRequest-find :
    (a b : Assoc LockObject) (txn key : ℕ)
    → find key b ≡ find key a
    → NoRequest a txn key
    → NoRequest b txn key
NoRequest-find a b txn key e n = record { at = λ o q f m. n.at o q (sym e ∙ f) m }

pub NoRequest-absent :
    (objs : Assoc LockObject) (txn key : ℕ) → find key objs ≡ none → NoRequest objs txn key
NoRequest-absent objs txn key e = record { at = λ o q f m. cc }

-- The tables of a state after `unlock_table`.
tables-unlock_table :
    (lm : LockManager) (txn table : ℕ) (obj : LockObject)
    → find table lm.lock_table ≡ some obj
    → (unlock_table lm txn table).lock_table ≡ insert table (released txn obj) lm.lock_table
unfolding unlock_table put_table
tables-unlock_table lm txn table obj e =
    rw (e, unlock_table)
      (elim (Option-cases (find txn lm.txn_locks)) [ inl n ↦ rw n | inr (ids, n) ↦ rw n ])

-- A release touches one table.
pub other_tables-unlock_table :
    (lm : LockManager) (txn table k : ℕ)
    → table ≢ k
    → find k (unlock_table lm txn table).lock_table ≡ find k lm.lock_table
other_tables-unlock_table lm txn table k ne = elim (Option-cases (find table lm.lock_table)) [
  | inl e ↦ unfold unlock_table in rw (e, unlock_table)
  | inr (obj, e) ↦ ground (
    arith,
    tables-unlock_table lm txn table obj e,
    find-insert table k (released txn obj) lm.lock_table,
  )
]

pub frees :
    (lm : LockManager) (txn table : ℕ) → NoRequest (unlock_table lm txn table).lock_table txn table
frees lm txn table = elim (Option-cases (find table lm.lock_table)) [
  | inl e ↦ unfold unlock_table in rw (e, unlock_table) (NoRequest-absent lm.lock_table txn table e)
  | inr (obj, e) ↦
      rw (tables-unlock_table lm txn table obj e) (NoRequest-insert lm.lock_table txn table obj)
]

-- After `unlock_table` the transaction has no request on the table, and the objects of the other
-- tables are what they were.
pub unlock_table_frees :
    (lm : LockManager) (txn table k : ℕ)
    → table ≢ k
    → NoRequest (unlock_table lm txn table).lock_table txn table
      × (find k (unlock_table lm txn table).lock_table ≡ find k lm.lock_table)
unlock_table_frees lm txn table k ne =
    (frees lm txn table, other_tables-unlock_table lm txn table k ne)

-- After `unlock_table` no request on the table waits in vain: whatever is not granted there
-- conflicts with a request that another transaction has been granted.
pub unlock_table_wakes :
    (lm : LockManager) (txn table : ℕ) (obj obj' : LockObject) (p : LockRequest)
    → find table lm.lock_table ≡ some obj
    → find table (unlock_table lm txn table).lock_table ≡ some obj'
    → Elem p obj'.requests
    → p.granted ≡ false
    → can_grant obj'.requests p.txn_id p.mode ≡ false
unfolding grant_pending with_requests
unlock_table_wakes lm txn table obj obj' p e e' m g =
    let same : released txn obj ≡ obj' = ground (
      arith,
      tables-unlock_table lm txn table obj e,
      find-insert table table (released txn obj) lm.lock_table,
    ) in
    let same_rs : grant_loop [] (without_txn txn obj.requests) ≡ obj'.requests =
      ap (λ (x : LockObject). x.requests) same in
    subst (λ rs. can_grant rs p.txn_id p.mode ≡ false) same_rs
      (grant_pending_maximal (without_txn txn obj.requests) p (subst (Elem p) (sym same_rs) m) g)
