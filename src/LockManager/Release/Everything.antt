-- ===== src/LockManager/Release/Everything.antt =====
-- What `unlock_all` (concurrency/lock_manager.cpp) leaves behind when the transaction has a list of
-- table locks.
use minidb.Prelude.{
  ℕ, ◌≡◌, refl, sym, subst, ◌∙◌, inl, inr, List, [], ◌∷◌, none, some, arith, ◌==◌, Elem, All,
  Bool-cases, Option-cases, ==_iff,
}
use minidb.Prelude.Assoc.{Assoc, find, find-insert, find-erase}
use minidb.LockManager.Requests.{LockObject, grant_pending, with_requests, without_txn}
use minidb.LockManager.State.{LockManager, put_table, put_record}
use minidb.LockManager.RecordLocks.{unlock_record}
use minidb.LockManager.Release.{unlock_table, unlock_tables, unlock_records, forget, unlock_all}
use minidb.LockManager.Release.Freed.{
  NoRequest, NoRequest-find, NoRequest-absent, released-others, other_tables-unlock_table, frees,
}

-- Once free of the transaction, a table stays so.
stays_free :
    (lm : LockManager) (txn table k : ℕ)
    → NoRequest lm.lock_table txn k
    → NoRequest (unlock_table lm txn table).lock_table txn k
stays_free lm txn table k n = elim (Bool-cases (table == k)) [
  | inl e ↦
      subst (NoRequest (unlock_table lm txn table).lock_table txn) ((==_iff table k).0 e)
        (frees lm txn table)
  | inr ne ↦
      NoRequest-find lm.lock_table _ txn k
        (other_tables-unlock_table lm txn table k (λ e. ground arith)) n
]

unlock_tables-keep :
    (lm : LockManager) (txn : ℕ) (ts : List ℕ) (k : ℕ)
    → NoRequest lm.lock_table txn k
    → NoRequest (unlock_tables lm txn ts).lock_table txn k
unfolding unlock_tables
unlock_tables-keep lm txn [] k n = n
unlock_tables-keep lm txn (t ∷ ts) k n =
    unlock_tables-keep (unlock_table lm txn t) txn ts k (stays_free lm txn t k n)

unlock_tables-free :
    (lm : LockManager) (txn : ℕ) (ts : List ℕ)
    → All (NoRequest (unlock_tables lm txn ts).lock_table txn) ts
unfolding unlock_tables
unlock_tables-free lm txn [] = tt
unlock_tables-free lm txn (t ∷ ts) = (
  unlock_tables-keep (unlock_table lm txn t) txn ts t (frees lm txn t),
  unlock_tables-free (unlock_table lm txn t) txn ts,
)

-- `unlock_table` touches no record lock.
records-unlock_table :
    (lm : LockManager) (txn table : ℕ)
    → ((unlock_table lm txn table).record_locks ≡ lm.record_locks)
      × ((unlock_table lm txn table).txn_record_locks ≡ lm.txn_record_locks)
unfolding unlock_table put_table
records-unlock_table lm txn table = elim (Option-cases (find table lm.lock_table)) [
  | inl e ↦ rw (e, unlock_table) (refl, refl)
  | inr (obj, e) ↦ elim (Option-cases (find txn lm.txn_locks)) [
    | inl n ↦ rw (e, n, unlock_table) (refl, refl)
    | inr (ids, n) ↦ rw (e, n, unlock_table) (refl, refl)
  ]
]

records-unlock_tables :
    (lm : LockManager) (txn : ℕ) (ts : List ℕ)
    → ((unlock_tables lm txn ts).record_locks ≡ lm.record_locks)
      × ((unlock_tables lm txn ts).txn_record_locks ≡ lm.txn_record_locks)
unfolding unlock_tables
records-unlock_tables lm txn [] = (refl, refl)
records-unlock_tables lm txn (t ∷ ts) =
    let ih = records-unlock_tables (unlock_table lm txn t) txn ts in
    let now = records-unlock_table lm txn t in (ih.0 ∙ now.0, ih.1 ∙ now.1)

-- The same for record locks.
record_frees :
    (lm : LockManager) (txn key : ℕ) → NoRequest (unlock_record lm txn key).record_locks txn key
unfolding unlock_record put_record
record_frees lm txn key = elim (Option-cases (find key lm.record_locks)) [
  | inl e ↦ rw (e, unlock_record) (NoRequest-absent lm.record_locks txn key e)
  | inr (obj, e) ↦
      rw (e, unlock_record)
        (record {
          at = λ o q f m.
              let obj' : LockObject =
                grant_pending (record obj { requests = without_txn txn obj.requests }) in
              let same : obj' ≡ o = ground (arith, find-insert key key obj' lm.record_locks) in
              released-others txn obj q (
                unfold grant_pending with_requests in
                subst (λ (x : LockObject). Elem q x.requests) (sym same) m);
        })
]

record_stays_free :
    (lm : LockManager) (txn key k : ℕ)
    → NoRequest lm.record_locks txn k
    → NoRequest (unlock_record lm txn key).record_locks txn k
unfolding unlock_record put_record
record_stays_free lm txn key k n = elim (Bool-cases (key == k)) [
  | inl e ↦
      subst (NoRequest (unlock_record lm txn key).record_locks txn) ((==_iff key k).0 e)
        (record_frees lm txn key)
  | inr ne ↦ elim (Option-cases (find key lm.record_locks)) [
    | inl e ↦ rw (e, unlock_record) n
    | inr (obj, e) ↦
        NoRequest-find lm.record_locks _ txn k (rw (e, unlock_record) (rw (find-insert, ne))) n
  ]
]

unlock_records-keep :
    (lm : LockManager) (txn : ℕ) (ks : List ℕ) (k : ℕ)
    → NoRequest lm.record_locks txn k
    → NoRequest (unlock_records lm txn ks).record_locks txn k
unfolding unlock_records
unlock_records-keep lm txn [] k n = n
unlock_records-keep lm txn (j ∷ ks) k n =
    unlock_records-keep (unlock_record lm txn j) txn ks k (record_stays_free lm txn j k n)

unlock_records-free :
    (lm : LockManager) (txn : ℕ) (ks : List ℕ)
    → All (NoRequest (unlock_records lm txn ks).record_locks txn) ks
unfolding unlock_records
unlock_records-free lm txn [] = tt
unlock_records-free lm txn (j ∷ ks) = (
  unlock_records-keep (unlock_record lm txn j) txn ks j (record_frees lm txn j),
  unlock_records-free (unlock_record lm txn j) txn ks,
)

-- `unlock_record` touches no table lock.
tables-unlock_records :
    (lm : LockManager) (txn : ℕ) (ks : List ℕ)
    → (unlock_records lm txn ks).lock_table ≡ lm.lock_table
unfolding unlock_records
tables-unlock_records lm txn [] = refl
tables-unlock_records lm txn (k ∷ ks) = tables-unlock_records (unlock_record lm txn k) txn ks ∙ one
  where
    one : (unlock_record lm txn k).lock_table ≡ lm.lock_table
    one = unfold unlock_record put_record in ground arith

abbrev pub held_keys : ℕ → Assoc (List ℕ) → List ℕ
held_keys txn held = elim (find txn held) [ none ↦ [] | some ks ↦ ks ]

forget_frees :
    (lm : LockManager) (txn : ℕ)
    → ((forget lm txn).lock_table ≡ lm.lock_table)
      × All (NoRequest (forget lm txn).record_locks txn) (held_keys txn lm.txn_record_locks)
      × (find txn (forget lm txn).txn_locks ≡ none)
      × (find txn (forget lm txn).txn_record_locks ≡ none)
unfolding forget
forget_frees lm txn = elim (Option-cases (find txn lm.txn_record_locks)) [
  | inl e ↦ rw (e, forget, held_keys) (refl, tt, ground (arith, find-erase txn txn lm.txn_locks), e)
  | inr (ks, e) ↦
      let done = unlock_records lm txn ks in
      rw (e, forget, held_keys)
        (
          tables-unlock_records lm txn ks,
          unlock_records-free lm txn ks,
          ground (arith, find-erase txn txn done.txn_locks),
          ground (arith, find-erase txn txn done.txn_record_locks),
        )
]

-- When the transaction has a list of table locks, `unlock_all` leaves it with no request on any
-- table of that list, none on any key of its list of record locks, and with no lists.
pub unlock_all_frees :
    (lm : LockManager) (txn : ℕ) (ids : List ℕ)
    → find txn lm.txn_locks ≡ some ids
    → All (NoRequest (unlock_all lm txn).lock_table txn) ids
      × All (NoRequest (unlock_all lm txn).record_locks txn) (held_keys txn lm.txn_record_locks)
      × (find txn (unlock_all lm txn).txn_locks ≡ none)
      × (find txn (unlock_all lm txn).txn_record_locks ≡ none)
unfolding unlock_all
unlock_all_frees lm txn ids e =
    let mid = unlock_tables lm txn ids in
    let f = forget_frees mid txn in
    let r = records-unlock_tables lm txn ids in
    rw (e, unlock_all)
      (
        subst (λ t. All (NoRequest t txn) ids) (sym f.0) (unlock_tables-free lm txn ids),
        subst (λ m. All (NoRequest (forget mid txn).record_locks txn) (held_keys txn m)) r.1 f.1,
        f.2,
        f.3,
      )
