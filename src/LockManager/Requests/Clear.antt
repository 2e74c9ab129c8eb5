-- ===== src/LockManager/Requests/Clear.antt =====
-- What `can_grant` (concurrency/lock_manager.cpp) decides, and mutual exclusion of the granted
-- requests on one object.
use minidb.Prelude.{
  ℕ, ◌≡◌, refl, sym, ◌≢◌, ◌↔◌, inl, inr, true, List, [], ◌∷◌, ◌++◌, arith, ◌==◌, Elem, Elem-middle,
  Bool-cases,
}
use minidb.LockManager.Mode.{LockMode, is_compatible, is_compatible_comm}
use minidb.LockManager.Requests.{LockRequest, can_grant}

-- No granted request of another transaction stands against `mode`.
pub record IsClear (rs : List LockRequest) (txn : ℕ) (mode : LockMode) : Type 0 where
  pub free :
      (q : LockRequest)
      → Elem q rs
      → q.granted ≡ true
      → q.txn_id ≢ txn
      → is_compatible q.mode mode ≡ true

-- Any two granted requests of different transactions are in compatible modes.
pub record IsExclusive (rs : List LockRequest) : Type 0 where
  pub apart :
      (p q : LockRequest)
      → Elem p rs
      → Elem q rs
      → p.granted ≡ true
      → q.granted ≡ true
      → p.txn_id ≢ q.txn_id
      → is_compatible p.mode q.mode ≡ true

can_grant-cons :
    (r : LockRequest) (rs : List LockRequest) (txn : ℕ) (mode : LockMode)
    → can_grant (r ∷ rs) txn mode ≡ true
    → (can_grant rs txn mode ≡ true)
      × (r.granted ≡ true → r.txn_id ≢ txn → is_compatible r.mode mode ≡ true)
unfolding can_grant
can_grant-cons r rs txn mode h = (ground arith, λ g ne. ground arith)

cons-can_grant :
    (r : LockRequest) (rs : List LockRequest) (txn : ℕ) (mode : LockMode)
    → can_grant rs txn mode ≡ true
    → (r.granted ≡ true → r.txn_id ≢ txn → is_compatible r.mode mode ≡ true)
    → can_grant (r ∷ rs) txn mode ≡ true
unfolding can_grant
cons-can_grant r rs txn mode h k = elim (Bool-cases r.granted) [
  | inr g ↦ ground arith
  | inl g ↦ elim (Bool-cases (r.txn_id == txn)) [
    | inl own ↦ ground arith
    | inr other ↦
        let c = k g (λ e. ground arith) in ground (arith, c, is_compatible_comm r.mode mode)
  ]
]

pub can_grant-IsClear :
    (rs : List LockRequest) (txn : ℕ) (mode : LockMode)
    → can_grant rs txn mode ≡ true
    → IsClear rs txn mode
can_grant-IsClear [] txn mode h = record { free = λ q m. elim m [ ] }
can_grant-IsClear (r ∷ rs) txn mode h = record {
  free = λ q m g ne. elim m [
    | inl e ↦ rw e ((can_grant-cons r rs txn mode h).1 (rw e at g) (rw e at ne))
    | inr n ↦ (can_grant-IsClear rs txn mode (can_grant-cons r rs txn mode h).0).free q n g ne
  ];
}

pub IsClear-can_grant :
    (rs : List LockRequest) (txn : ℕ) (mode : LockMode)
    → IsClear rs txn mode
    → can_grant rs txn mode ≡ true
IsClear-can_grant [] txn mode c = unfold can_grant in refl
IsClear-can_grant (r ∷ rs) txn mode c =
    cons-can_grant r rs txn mode
      (IsClear-can_grant rs txn mode (record { free = λ q m. c.free q (inr m) }))
      (c.free r (inl refl))

-- `can_grant` is the test that no granted request of another transaction stands against the mode.
pub can_grant_iff :
    (rs : List LockRequest) (txn : ℕ) (mode : LockMode)
    → (can_grant rs txn mode ≡ true) ↔ IsClear rs txn mode
can_grant_iff rs txn mode = (can_grant-IsClear rs txn mode, IsClear-can_grant rs txn mode)

-- A list whose granted requests are among those of an exclusive list is exclusive.
pub IsExclusive-subset :
    (rs ss : List LockRequest)
    → ((q : LockRequest) → Elem q ss → q.granted ≡ true → Elem q rs)
    → IsExclusive rs
    → IsExclusive ss
IsExclusive-subset rs ss sub x = record {
  apart = λ p q m n g h ne. x.apart p q (sub p m g) (sub q n h) g h ne;
}

-- A request may be granted, or changed, in the middle of a list where it is clear of the others.
pub IsExclusive-middle :
    (before behind : List LockRequest) (r : LockRequest)
    → IsExclusive (before ++ behind)
    → (r.granted ≡ true → IsClear (before ++ behind) r.txn_id r.mode)
    → IsExclusive (before ++ r ∷ behind)
IsExclusive-middle before behind r x c = record {
  apart = λ p q m n g h ne. elim (Elem-middle p r before behind m) [
    | inl e ↦ elim (Elem-middle q r before behind n) [
      | inl f ↦ absurd (ne (cc))
      | inr n' ↦
          let clear = c (rw e at g) in
          rw (e, is_compatible_comm r.mode q.mode) (clear.free q n' h (λ w. ne (rw e (sym w))))
    ]
    | inr m' ↦ elim (Elem-middle q r before behind n) [
      | inl f ↦ let clear = c (rw f at h) in rw f (clear.free p m' g (rw f at ne))
      | inr n' ↦ x.apart p q m' n' g h ne
    ]
  ];
}
