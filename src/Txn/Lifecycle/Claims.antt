-- ===== src/Txn/Lifecycle/Claims.antt =====
-- The slots after `begin` (transaction/transaction.cpp) has taken one.
use minidb.Prelude.{
  ℕ, ◌≡◌, refl, sym, ap, subst, ◌≢◌, ◌⊎◌, inl, inr, false, List, [], ◌∷◌, some, arith, ◌==◌,
  if◌then◌else◌, Elem, Bool-cases, Option-cases,
}
use minidb.Txn.Log.{active}
use minidb.Txn.Manager.{TxnSlot, is_live, get_txn_state}
use minidb.Txn.Lifecycle.{claim}

-- The slots after a claim.
pub claim_cases :
    (id snap : ℕ) (ss ss' : List TxnSlot) (s : TxnSlot)
    → claim id snap ss ≡ some ss'
    → Elem s ss'
    → Elem s ss ⊎ ((s.txn_id ≡ id) × (s.state ≡ active))
unfolding claim
claim_cases id snap [] ss' s e m = cc
claim_cases id snap (a ∷ ss) ss' s e m = elim (Bool-cases (is_live a)) [
  | inr free ↦
      let new : TxnSlot = record {
        txn_id = id;
        snapshot_id = snap;
        commit_id = 0;
        state = active;
      } in
      let same : new ∷ ss ≡ ss' = ground arith in
      elim (subst (Elem s) (sym same) m) [
        | inl p ↦ inr (ap (λ (y : TxnSlot). y.txn_id) p, ap (λ (y : TxnSlot). y.state) p)
        | inr n ↦ inl (inr n)
      ]
  | inl busy ↦ elim (Option-cases (claim id snap ss)) [
    | inl none' ↦ absurd (ground arith)
    | inr (rest, q) ↦
        let same : a ∷ rest ≡ ss' = ground arith in
        elim (subst (Elem s) (sym same) m) [
          | inl p ↦ inl (inl p)
          | inr n ↦ elim (claim_cases id snap ss rest s q n) [ inl o ↦ inl (inr o) | inr o ↦ inr o ]
        ]
  ]
]

-- The state of an id after a claim is what it was, or its slot was free.
pub get_txn_state-claim :
    (id snap x : ℕ) (ss ss' : List TxnSlot)
    → claim id snap ss ≡ some ss'
    → x ≢ id
    → (get_txn_state ss' x ≡ get_txn_state ss x)
      ⊎ ((s : TxnSlot) × Elem s ss × (is_live s ≡ false) × (s.txn_id ≡ x))
unfolding claim get_txn_state
get_txn_state-claim id snap x [] ss' e ne = cc
get_txn_state-claim id snap x (a ∷ ss) ss' e ne = elim (Bool-cases (is_live a)) [
  | inr free ↦ elim (Bool-cases (a.txn_id == x)) [
    | inl hit ↦ inr (a, inl refl, free, ground arith)
    | inr miss ↦
        let new : TxnSlot = record {
          txn_id = id;
          snapshot_id = snap;
          commit_id = 0;
          state = active;
        } in
        let same : new ∷ ss ≡ ss' = ground arith in
        inl (subst (λ l. get_txn_state l x ≡ get_txn_state (a ∷ ss) x) same (ground arith))
  ]
  | inl busy ↦ elim (Option-cases (claim id snap ss)) [
    | inl none' ↦ absurd (ground arith)
    | inr (rest, q) ↦
        let same : a ∷ rest ≡ ss' = ground arith in
        elim (get_txn_state-claim id snap x ss rest q ne) [
          | inl p ↦ inl (
              subst (λ l. get_txn_state l x ≡ get_txn_state (a ∷ ss) x) same
                (ap (λ r. if a.txn_id == x then some a.state else r) p))
          | inr (s, m, d, p) ↦ inr (s, inr m, d, p)
        ]
  ]
]
