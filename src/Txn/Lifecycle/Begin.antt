-- ===== src/Txn/Lifecycle/Begin.antt =====
-- The transaction that `begin` (transaction/transaction.cpp) returns.
use minidb.Prelude.{
  ◌+◌, ◌≡◌, sym, ap, subst, ◌∙◌, inl, inr, Bool, true, List, [], ◌∷◌, none, some, arith, Elem,
  Bool-cases, Option-cases,
}
use minidb.Txn.Log.{Transaction}
use minidb.Txn.Manager.{TxnSlot, TransactionManager, is_live, was_active}
use minidb.Txn.Lifecycle.{live_ids, claim, begin}
use minidb.Txn.Lifecycle.Sessions.{Reads}
use minidb.Txn.Lifecycle.Claims.{claim_cases}

-- The active set has every running transaction.
live_ids-was_active :
    (ss : List TxnSlot) (s : TxnSlot)
    → Elem s ss
    → is_live s ≡ true
    → was_active s.txn_id (live_ids ss) ≡ true
unfolding live_ids was_active
live_ids-was_active [] s m l = elim m [ ]
live_ids-was_active (a ∷ ss) s (inl e) l =
    let hit : is_live a ≡ true = subst (λ (y : TxnSlot). is_live y ≡ true) e l in
    let same = ap (λ (y : TxnSlot). y.txn_id) e in rw hit (ground arith)
live_ids-was_active (a ∷ ss) s (inr m) l = ground (arith, live_ids-was_active ss s m l)

-- A transaction that `begin` returns has the manager's next id, and its snapshot is one of the manager
-- that `begin` leaves: it is not ahead of that manager, and the active set has every other transaction
-- that runs in a slot with an id before the snapshot.
pub begin-Reads :
    {Info : Type 0} (tm : TransactionManager) (admitted : Bool) (t : Transaction Info)
    → (begin tm none admitted).current ≡ some t
    → (t.txn_id ≡ tm.next_txn_id) × Reads (begin {Info = Info} tm none admitted).manager t
unfolding begin
begin-Reads {Info} tm admitted t e = elim (Bool-cases admitted) [
  | inr refused ↦ cc (rw refused at e)
  | inl ok ↦ elim (Option-cases (claim tm.next_txn_id (tm.next_txn_id + 1) tm.slots)) [
    | inl full ↦ cc (rw (ok, full) at e)
    | inr (ss, c) ↦
        let e' = rw (ok, c) at e in
        let id_eq : t.txn_id ≡ tm.next_txn_id =
          ap (λ o. elim o [ none ↦ 0 | some y ↦ y.txn_id ]) (sym e') in
        let snap_eq : t.snapshot_id ≡ tm.next_txn_id + 1 =
          ap (λ o. elim o [ none ↦ 0 | some y ↦ y.snapshot_id ]) (sym e') in
        let act_eq : t.active_snapshot ≡ live_ids tm.slots =
          ap (λ o. elim o [ none ↦ [] | some y ↦ y.active_snapshot ]) (sym e') in
        rw (ok, c)
          (
            id_eq,
            record {
              past = omega arith;
              running = λ s m lv lt own.
                  elim (claim_cases tm.next_txn_id (tm.next_txn_id + 1) tm.slots ss s c m) [
                    | inl old ↦ rw act_eq (live_ids-was_active tm.slots s old lv)
                    | inr (p, q) ↦ absurd (own (p ∙ sym id_eq))
                  ];
            },
          )
  ]
]
