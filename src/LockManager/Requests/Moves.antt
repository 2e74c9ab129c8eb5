-- ===== src/LockManager/Requests/Moves.antt =====
-- The other loops over the requests of one object (concurrency/lock_manager.cpp): the caller's own
-- request, an upgrade in place, a withdrawal, a release.
use mathlib.Core.List.{append_assoc}
use minidb.Prelude.{
  ℕ, ◌≡◌, refl, sym, ◌∙◌, ◌≢◌, inl, inr, true, List, [], ◌∷◌, ◌++◌, arith, ◌==◌, ◌&&◌, not, none,
  some, Elem, Bool-cases,
}
use minidb.LockManager.Mode.{LockMode, max_mode, eq_of_rank}
use minidb.LockManager.Requests.{
  LockRequest, Held, find_held, can_upgrade, same_mode, is_granted, withdraw, without_txn,
  held_mask,
}
use minidb.LockManager.Requests.Clear.{IsClear}

-- What `find_held` returns splits the list at a granted request of the caller.
pub find_held_sound :
    (txn : ℕ) (before rs : List LockRequest) (h : Held)
    → find_held txn before rs ≡ some h
    → (before ++ rs ≡ h.before ++ h.request ∷ h.behind)
      × (h.request.txn_id ≡ txn)
      × (h.request.granted ≡ true)
unfolding find_held
find_held_sound txn before [] h e = cc
find_held_sound txn before (r ∷ rs) h e = elim (Bool-cases (r.txn_id == txn && r.granted)) [
  | inl own ↦ ground arith
  | inr other ↦
      let ih = find_held_sound txn (before ++ r ∷ []) rs h (rw other at e) in
      (sym (append_assoc before (r ∷ []) rs) ∙ ih.0, ih.1, ih.2)
]

-- A search that fails has passed no granted request of the caller.
pub find_held-none :
    (txn : ℕ) (before rs : List LockRequest) (q : LockRequest)
    → find_held txn before rs ≡ none
    → Elem q rs
    → q.granted ≡ true
    → q.txn_id ≢ txn
unfolding find_held
find_held-none txn before [] q e m g = elim m [ ]
find_held-none txn before (r ∷ rs) q e m g = elim (Bool-cases (r.txn_id == txn && r.granted)) [
  | inl own ↦ cc (rw own at e)
  | inr other ↦ elim m [
    | inl p ↦ λ own. ground arith
    | inr n ↦ find_held-none txn (before ++ r ∷ []) rs q (rw other at e) n g
  ]
]

-- An upgrade that passes its test is clear of every other granted request.
pub can_upgrade-IsClear :
    (rs : List LockRequest) (txn : ℕ) (mode : LockMode)
    → can_upgrade rs mode ≡ true
    → IsClear rs txn mode
unfolding can_upgrade
can_upgrade-IsClear [] txn mode h = record { free = λ q m. elim m [ ] }
can_upgrade-IsClear (r ∷ rs) txn mode h = record {
  free = λ q m g ne. elim m [
    | inl e ↦ ground arith
    | inr n ↦ (can_upgrade-IsClear rs txn mode (ground arith)).free q n g ne
  ];
}

pub Elem-withdraw :
    (txn : ℕ) (mode : LockMode) (rs : List LockRequest) (q : LockRequest)
    → Elem q (withdraw txn mode rs)
    → Elem q rs
unfolding withdraw
Elem-withdraw txn mode [] q m = m
Elem-withdraw txn mode (r ∷ rs) q m =
    elim (Bool-cases (r.txn_id == txn && same_mode r.mode mode && not r.granted)) [
      | inl own ↦ inr (rw own at m)
      | inr other ↦ elim (rw other at m) [
        | inl e ↦ inl e
        | inr n ↦ inr (Elem-withdraw txn mode rs q n)
      ]
    ]

-- A withdrawal takes no granted request away.
pub withdraw-Elem :
    (txn : ℕ) (mode : LockMode) (rs : List LockRequest) (q : LockRequest)
    → q.granted ≡ true
    → Elem q rs
    → Elem q (withdraw txn mode rs)
unfolding withdraw
withdraw-Elem txn mode [] q g m = m
withdraw-Elem txn mode (r ∷ rs) q g m =
    elim (Bool-cases (r.txn_id == txn && same_mode r.mode mode && not r.granted)) [
      | inl own ↦ rw own (elim m [ inl e ↦ absurd (ground arith) | inr n ↦ n ])
      | inr other ↦
          rw other (elim m [ inl e ↦ inl e | inr n ↦ inr (withdraw-Elem txn mode rs q g n) ])
    ]

pub held_mask-withdraw :
    (mask : LockMode) (txn : ℕ) (mode : LockMode) (rs : List LockRequest)
    → held_mask mask (withdraw txn mode rs) ≡ held_mask mask rs
unfolding withdraw held_mask
held_mask-withdraw mask txn mode [] = refl
held_mask-withdraw mask txn mode (r ∷ rs) = ground (
  arith,
  held_mask-withdraw mask txn mode rs,
  held_mask-withdraw (max_mode mask r.mode) txn mode rs,
)

-- A release keeps the requests of the other transactions, all of them and nothing else.
pub Elem-without_txn :
    (txn : ℕ) (rs : List LockRequest) (q : LockRequest)
    → Elem q (without_txn txn rs)
    → Elem q rs × (q.txn_id ≢ txn)
unfolding without_txn
Elem-without_txn txn [] q m = elim m [ ]
Elem-without_txn txn (r ∷ rs) q m = elim (Bool-cases (r.txn_id == txn)) [
  | inl own ↦ let ih = Elem-without_txn txn rs q (rw own at m) in (inr ih.0, ih.1)
  | inr other ↦ elim (rw other at m) [
    | inl e ↦ (inl e, λ w. ground arith)
    | inr n ↦ let ih = Elem-without_txn txn rs q n in (inr ih.0, ih.1)
  ]
]

pub without_txn-Elem :
    (txn : ℕ) (rs : List LockRequest) (q : LockRequest)
    → q.txn_id ≢ txn
    → Elem q rs
    → Elem q (without_txn txn rs)
unfolding without_txn
without_txn-Elem txn [] q ne m = m
without_txn-Elem txn (r ∷ rs) q ne m = elim (Bool-cases (r.txn_id == txn)) [
  | inl own ↦
      rw own (elim m [ inl e ↦ absurd (ground arith) | inr n ↦ without_txn-Elem txn rs q ne n ])
  | inr other ↦ rw other (elim m [ inl e ↦ inl e | inr n ↦ inr (without_txn-Elem txn rs q ne n) ])
]

-- The caller's request is granted.
pub is_granted_sound :
    (txn : ℕ) (mode : LockMode) (rs : List LockRequest)
    → is_granted txn mode rs ≡ true
    → (q : LockRequest) × Elem q rs × (q.txn_id ≡ txn) × (q.mode ≡ mode) × (q.granted ≡ true)
unfolding is_granted
is_granted_sound txn mode [] h = cc
is_granted_sound txn mode (r ∷ rs) h =
    elim (Bool-cases (r.txn_id == txn && same_mode r.mode mode && r.granted)) [
      | inl own ↦ (r, inl refl, ground arith, eq_of_rank r.mode mode (ground arith), ground arith)
      | inr other ↦
          let (q, m, t, w, g) = is_granted_sound txn mode rs (rw other at h) in (q, inr m, t, w, g)
    ]
