-- ===== src/LockManager/Calls/Safety.antt =====
-- Mutual exclusion of the lock manager (concurrency/lock_manager.cpp), under every interleaving of
-- its threads.
use minidb.Prelude.{
  ℕ, ◌≡◌, refl, sym, subst, ◌∙◌, inl, inr, true, List, [], ◌∷◌, ◌++◌, some, arith, ◌==◌,
  Elem-append, Elem-middle_other, Bool-cases, Option-cases,
}
use minidb.Prelude.Assoc.{Assoc, find, insert, find-insert}
use minidb.LockManager.Mode.{LockMode, access_share}
use minidb.LockManager.Requests.{
  LockRequest, LockObject, Held, held_mask, grant_pending, find_held, can_upgrade, new_request,
  withdraw, without_txn,
}
use minidb.LockManager.Requests.Clear.{IsExclusive, IsExclusive-subset, IsExclusive-middle}
use minidb.LockManager.Requests.Grants.{IsExclusive-grant_pending}
use minidb.LockManager.Requests.Moves.{
  find_held_sound, can_upgrade-IsClear, Elem-withdraw, held_mask-withdraw, Elem-without_txn,
}
use minidb.LockManager.State.{LockManager, object_at, put_table, put_record}
use minidb.LockManager.TableLocks.{upgraded}

-- The granted requests of an object are apart, and its mask is the strongest granted mode.
pub record IsSound (obj : LockObject) : Type 0 where
  pub exclusive : IsExclusive obj.requests
  pub mask : obj.granted_mask ≡ held_mask access_share obj.requests

pub record AllSound (objs : Assoc LockObject) : Type 0 where
  pub at : (k : ℕ) (obj : LockObject) → find k objs ≡ some obj → IsSound obj

pub record IsSafe (lm : LockManager) : Type 0 where
  pub tables : AllSound lm.lock_table
  pub records : AllSound lm.record_locks

AllSound-insert :
    (k : ℕ) (obj : LockObject) (objs : Assoc LockObject)
    → IsSound obj
    → AllSound objs
    → AllSound (insert k obj objs)
AllSound-insert k obj objs s all = record {
  at = λ j o e. elim (Bool-cases (k == j)) [
    | inl same ↦ let p : obj ≡ o = ground (arith, find-insert k j obj objs) in subst IsSound p s
    | inr other ↦ all.at j o (ground (arith, find-insert k j obj objs))
  ];
}

pub object_at-IsSound :
    (key table : ℕ) (objs : Assoc LockObject) → AllSound objs → IsSound (object_at key table objs)
unfolding object_at held_mask
object_at-IsSound key table objs all = elim (Option-cases (find key objs)) [
  | inl e ↦
      rw (e, object_at) (record { exclusive = record { apart = λ p q m. elim m [ ] }; mask = refl })
  | inr (obj, e) ↦ rw (e, object_at) (all.at key obj e)
]

pub grant_pending-IsSound :
    (obj : LockObject) → IsExclusive obj.requests → IsSound (grant_pending obj)
unfolding grant_pending
grant_pending-IsSound obj x = record {
  exclusive = IsExclusive-grant_pending obj.requests x;
  mask = refl;
}

pub IsExclusive-push :
    (rs : List LockRequest) (txn : ℕ) (mode : LockMode)
    → IsExclusive rs
    → IsExclusive (rs ++ new_request txn mode ∷ [])
IsExclusive-push rs txn mode x =
    IsExclusive-subset rs _
      (λ q m g. elim (Elem-append q rs (new_request txn mode ∷ []) m) [
        | inl old ↦ old
        | inr (inl e) ↦ absurd (cc)
        | inr (inr n) ↦ absurd n
      ])
      x

pub IsExclusive-upgraded :
    (rs : List LockRequest) (txn : ℕ) (mode : LockMode) (h : Held)
    → IsExclusive rs
    → find_held txn [] rs ≡ some h
    → can_upgrade (h.before ++ h.behind) mode ≡ true
    → IsExclusive (upgraded h mode)
IsExclusive-upgraded rs txn mode h x e c =
    let (split, own, g) = find_held_sound txn [] rs h e in
    IsExclusive-middle h.before h.behind _
      (IsExclusive-subset rs (h.before ++ h.behind)
        (λ q m gr. rw split (Elem-middle_other q h.request h.before h.behind m)) x)
      (λ g'. can_upgrade-IsClear (h.before ++ h.behind) h.request.txn_id mode c)

pub withdraw-IsSound :
    (txn : ℕ) (mode : LockMode) (obj : LockObject)
    → IsSound obj
    → IsSound (record obj { requests = withdraw txn mode obj.requests })
withdraw-IsSound txn mode obj s = record {
  exclusive =
      IsExclusive-subset obj.requests _ (λ q m g. Elem-withdraw txn mode obj.requests q m)
        s.exclusive;
  mask = s.mask ∙ sym (held_mask-withdraw access_share txn mode obj.requests);
}

pub IsExclusive-without_txn :
    (txn : ℕ) (rs : List LockRequest) → IsExclusive rs → IsExclusive (without_txn txn rs)
IsExclusive-without_txn txn rs x =
    IsExclusive-subset rs _ (λ q m g. (Elem-without_txn txn rs q m).0) x

-- Writes to the two maps.
pub put_table-IsSafe :
    (lm : LockManager) (k : ℕ) (obj : LockObject)
    → IsSafe lm
    → IsSound obj
    → IsSafe (put_table lm k obj)
unfolding put_table
put_table-IsSafe lm k obj s o = record {
  tables = AllSound-insert k obj lm.lock_table o s.tables;
  records = s.records;
}

pub put_record-IsSafe :
    (lm : LockManager) (k : ℕ) (obj : LockObject)
    → IsSafe lm
    → IsSound obj
    → IsSafe (put_record lm k obj)
unfolding put_record
put_record-IsSafe lm k obj s o = record {
  tables = s.tables;
  records = AllSound-insert k obj lm.record_locks o s.records;
}
