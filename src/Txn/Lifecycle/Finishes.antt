-- ===== src/Txn/Lifecycle/Finishes.antt =====
-- What a commit or a rollback (transaction/transaction.cpp) does to the slots and to the status log.
use minidb.Prelude.{
  ℕ, ◌+◌, ◌≤◌, ◌≡◌, refl, sym, ap, subst, ◌≢◌, ◌⊎◌, inl, inr, false, ◌&&◌, List, [], ◌∷◌, some,
  arith, ◌==◌, Elem, Bool-cases,
}
use minidb.Txn.Log.{Transaction}
use minidb.Txn.Manager.{
  TxnSlot, TxnFinalState, final_committed, final_aborted, TransactionManager, is_live, is_active,
  get_txn_state, prune_committed_history, ssi_check_conflict,
}
use minidb.Txn.Lifecycle.{
  set_committed, set_aborted, record_final, publish, rollback, commit, is_serializable,
}

-- One step of the slots: nothing new but slots of `id` that no longer run.
pub record Ends (id : ℕ) (before after : List TxnSlot) : Type 0 where
  pub others : (x : ℕ) → x ≢ id → get_txn_state after x ≡ get_txn_state before x
  pub slots : (s : TxnSlot) → Elem s after → Elem s before ⊎ ((s.txn_id ≡ id) × (is_live s ≡ false))

set_aborted-Ends : (id : ℕ) (ss : List TxnSlot) → Ends id ss (set_aborted id ss)
unfolding set_aborted get_txn_state
set_aborted-Ends id [] = record { others = λ x ne. refl; slots = λ s m. inl m }
set_aborted-Ends id (a ∷ ss) =
    let ih = set_aborted-Ends id ss in
    elim (Bool-cases (a.txn_id == id)) [
      | inl hit ↦ rw hit (record {
        others = λ x ne. ground arith;
        slots = λ s m. elim m [ inl e ↦ inr (ground arith, ground arith) | inr n ↦ inl (inr n) ];
      })
      | inr miss ↦ rw miss (record {
        others = λ x ne. ground (arith, ih.others x ne);
        slots = λ s m. elim m [
          | inl e ↦ inl (inl e)
          | inr n ↦ elim (ih.slots s n) [ inl o ↦ inl (inr o) | inr o ↦ inr o ]
        ];
      })
    ]

set_committed-Ends : (id cid : ℕ) (ss : List TxnSlot) → Ends id ss (set_committed id cid ss)
unfolding set_committed get_txn_state
set_committed-Ends id cid [] = record { others = λ x ne. refl; slots = λ s m. inl m }
set_committed-Ends id cid (a ∷ ss) =
    let ih = set_committed-Ends id cid ss in
    elim (Bool-cases (a.txn_id == id && is_active a.state)) [
      | inl hit ↦ rw hit (record {
        others = λ x ne. ground arith;
        slots = λ s m. elim m [ inl e ↦ inr (ground arith, ground arith) | inr n ↦ inl (inr n) ];
      })
      | inr miss ↦ rw miss (record {
        others = λ x ne. ground (arith, ih.others x ne);
        slots = λ s m. elim m [
          | inl e ↦ inl (inl e)
          | inr n ↦ elim (ih.slots s n) [ inl o ↦ inl (inr o) | inr o ↦ inr o ]
        ];
      })
    ]

-- One step of the manager that ends the transaction `id`.
pub record Finishes (id : ℕ) (tm tm' : TransactionManager) : Type 0 where
  pub final : TxnFinalState
  pub log : tm'.status_log ≡ record_final id final tm.status_log
  pub grows : tm.next_txn_id ≤ tm'.next_txn_id
  pub ends : Ends id tm.slots tm'.slots

module _ {Info : Type 0} where
  pub rollback-Finishes :
      (tm : TransactionManager) (u : Transaction Info)
      → Finishes u.txn_id tm (rollback tm (some u)).manager
  unfolding rollback
  rollback-Finishes tm u = record {
    final = final_aborted;
    log = refl;
    grows = omega arith;
    ends = set_aborted-Ends u.txn_id tm.slots;
  }

  publish_parts :
      (tm : TransactionManager) (u : Transaction Info)
      → ((publish tm u).slots ≡ set_committed u.txn_id tm.next_txn_id tm.slots)
        × ((publish tm u).next_txn_id ≡ tm.next_txn_id + 1)
        × ((publish tm u).status_log ≡ tm.status_log)
  unfolding publish prune_committed_history
  publish_parts tm u = ground arith

  -- A commit ends the transaction, whether it succeeds or not.
  pub commit-Finishes :
      (tm : TransactionManager) (u : Transaction Info) (lsn : ℕ)
      → Finishes u.txn_id tm (commit tm (some u) lsn).manager
  unfolding commit
  commit-Finishes tm u lsn = elim (Bool-cases (is_serializable u && ssi_check_conflict tm u)) [
    | inl c ↦ rw c (rollback-Finishes tm u)
    | inr ok ↦ elim (Bool-cases (lsn == 0)) [
      | inl lost ↦ rw (ok, lost) (rollback-Finishes tm u)
      | inr durable ↦
          let parts = publish_parts tm u in
          rw (ok, durable)
            (record {
              final = final_committed;
              log = ap (record_final u.txn_id final_committed) parts.2;
              grows = omega (arith, parts.1);
              ends =
                  subst (Ends u.txn_id tm.slots) (sym parts.0)
                    (set_committed-Ends u.txn_id tm.next_txn_id tm.slots);
            })
    ]
  ]
