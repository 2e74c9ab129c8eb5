-- ===== src/Txn/Lifecycle/Savepoint.antt =====
-- Rollback to a savepoint, and of a whole transaction (transaction/transaction.cpp): what is undone,
-- in which order, and what is left of the log.
use mathlib.Core.List.{reverse}
use minidb.Prelude.{
  ℕ, zero, suc, ◌≤◌, ◌≡◌, refl, sym, ap, ◌⊎◌, inl, inr, Bool, true, false, List, [], ◌∷◌, arith,
  leb, Bool-cases, length, take, drop, map,
}
use minidb.Txn.Log.{UndoRecord, Transaction, truncate_undo}
use minidb.Txn.Log.Aligned.{IsAligned, truncate_undo-IsAligned}
use minidb.Txn.Lifecycle.{apply_undo_record, undo_each, rollback_to_savepoint}

undo_each-all :
    (undoes : UndoRecord → Bool) (rs : List UndoRecord)
    → (undo_each undoes rs).0 ≡ true
    → (undo_each undoes rs).1 ≡ map apply_undo_record rs
unfolding undo_each
undo_each-all undoes [] e = refl
undo_each-all undoes (r ∷ rs) e = ground (arith, undo_each-all undoes rs)

-- The records that were tried are the first ones.
undo_each-prefix :
    (undoes : UndoRecord → Bool) (rs : List UndoRecord)
    → (n : ℕ) × ((undo_each undoes rs).1 ≡ map apply_undo_record (take n rs))
unfolding undo_each
undo_each-prefix undoes [] = (0, refl)
undo_each-prefix undoes (r ∷ rs) = elim (Bool-cases (undoes r)) [
  | inl ok ↦
      let (n, e) = undo_each-prefix undoes rs in
      (suc n, rw ok (ap (λ l. apply_undo_record r ∷ l) e))
  | inr bad ↦ (1, rw bad refl)
]

take-length : {A : Type 0} (n : ℕ) (xs : List A) → length xs ≤ n → take n xs ≡ xs
take-length zero [] le = refl
take-length zero (x ∷ xs) le = absurd (omega arith)
take-length (suc n) [] le = refl
take-length (suc n) (x ∷ xs) le = ap (λ l. x ∷ l) (take-length n xs (omega arith))

drop-length : {A : Type 0} (n : ℕ) (xs : List A) → length xs ≤ n → drop n xs ≡ []
drop-length zero [] le = refl
drop-length zero (x ∷ xs) le = absurd (omega arith)
drop-length (suc n) [] le = refl
drop-length (suc n) (x ∷ xs) le = drop-length n xs (omega arith)

module _ {Info : Type 0} where
  -- A rollback to a savepoint that succeeds has undone the records after the mark, the latest first,
  -- and leaves the log as it was at the mark; where the undo of a record fails it leaves the whole log
  -- as it is, so that a later rollback undoes the records again.
  pub rollback_to_savepoint_lem :
      (undoes : UndoRecord → Bool) (t : Transaction Info) (mark : ℕ)
      → (((rollback_to_savepoint undoes t mark).1 ≡ true)
          × ((rollback_to_savepoint undoes t mark).0.undo_records ≡ take mark t.undo_records)
          × ((rollback_to_savepoint undoes t mark).2
              ≡ map apply_undo_record (reverse (drop mark t.undo_records))))
        ⊎ (((rollback_to_savepoint undoes t mark).1 ≡ false)
            × ((rollback_to_savepoint undoes t mark).0 ≡ t)
            × ((n : ℕ) × ((rollback_to_savepoint undoes t mark).2
                  ≡ map apply_undo_record (take n (reverse (drop mark t.undo_records))))))
  unfolding rollback_to_savepoint truncate_undo
  rollback_to_savepoint_lem undoes t mark = elim (Bool-cases (leb (length t.undo_records) mark)) [
    | inl past ↦
        let le : length t.undo_records ≤ mark = ground arith in
        rw past (
          inl (
            refl,
            sym (take-length mark t.undo_records le),
            ap (λ l. map apply_undo_record (reverse l)) (sym (drop-length mark t.undo_records le)),
          ))
    | inr back ↦
        let gone = reverse (drop mark t.undo_records) in
        elim (Bool-cases (undo_each undoes gone).0) [
          | inl ok ↦ rw (back, ok) (inl (refl, refl, undo_each-all undoes gone ok))
          | inr bad ↦ rw (back, bad) (inr (refl, refl, undo_each-prefix undoes gone))
        ]
  ]

  -- rollback_to_savepoint, to any mark and whatever the undo of each record answers, keeps the log in step:
  -- when the DDL records point to the infos one after another, from the first to the last, they still do.
  pub rollback_to_savepoint-IsAligned :
      (undoes : UndoRecord → Bool) (t : Transaction Info) (mark : ℕ)
      → IsAligned t
      → IsAligned (rollback_to_savepoint undoes t mark).0
  unfolding rollback_to_savepoint
  rollback_to_savepoint-IsAligned undoes t mark a =
      elim (Bool-cases (leb (length t.undo_records) mark)) [
        | inl past ↦ rw past a
        | inr back ↦ elim (Bool-cases (undo_each undoes (reverse (drop mark t.undo_records))).0) [
          | inl ok ↦ rw (back, ok) (truncate_undo-IsAligned t mark a)
          | inr bad ↦ rw (back, bad) a
        ]
      ]
