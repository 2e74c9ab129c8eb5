-- ===== src/Txn/Log/Aligned.antt =====
-- The undo log and the vector of DDL infos (transaction/transaction.cpp), and the calls on them.
use mathlib.Core.List.{append-nil}
use minidb.Prelude.{
  ℕ, zero, suc, ◌+◌, ◌-◌, ◌<◌, ◌≡◌, refl, sym, ap, subst, ◌∙◌, inl, inr, true, false, List, [], ◌∷◌,
  ◌++◌, arith, if◌then◌else◌, Bool-cases, length, length-append, take, drop, take-append-drop,
  length-take-le, Elem,
}
use minidb.RecordId.{RecordId}
use minidb.Txn.Log.{
  UndoType, UndoRecord, Transaction, is_ddl, count_ddl, record_insert, record_delete,
  record_hot_insert, record_hot_delete, record_ddl, truncate_undo,
}

-- The infos that the DDL records of a log point to, in order.
unfoldable pub indices : List UndoRecord → List ℕ
unfolding is_ddl
indices [] = []
indices (r ∷ rs) = let rest = indices rs in if is_ddl r.type then r.ddl_info_idx ∷ rest else rest

unfoldable pub seq : ℕ → ℕ → List ℕ
seq a zero = []
seq a (suc n) = a ∷ seq (suc a) n

-- The DDL records point to the infos one after another, from the first to the last.
pub record IsAligned {Info : Type 0} (t : Transaction Info) : Type 0 where
  pub in_step : indices t.undo_records ≡ seq 0 (length t.ddl_undo_infos)

indices-append : (xs ys : List UndoRecord) → indices (xs ++ ys) ≡ indices xs ++ indices ys
unfolding indices
indices-append [] ys = refl
indices-append (x ∷ xs) ys = ground (arith, indices-append xs ys)

length-indices : (rs : List UndoRecord) → length (indices rs) ≡ count_ddl rs
unfolding indices count_ddl
length-indices [] = refl
length-indices (r ∷ rs) = ground (arith, length-indices rs)

length-seq : (a n : ℕ) → length (seq a n) ≡ n
unfolding seq
length-seq a zero = refl
length-seq a (suc n) = ap suc (length-seq (suc a) n)

seq-snoc : (a n k : ℕ) → a + n ≡ k → seq a n ++ k ∷ [] ≡ seq a (suc n)
unfolding seq
seq-snoc a zero k e = ground arith
seq-snoc a (suc n) k e = ap (λ r. a ∷ r) (seq-snoc (suc a) n k (omega arith))

prefix-seq : (a n : ℕ) (xs ys : List ℕ) → xs ++ ys ≡ seq a n → xs ≡ seq a (length xs)
unfolding seq
prefix-seq a n [] ys e = refl
prefix-seq a zero (x ∷ xs) ys e = cc
prefix-seq a (suc n) (x ∷ xs) ys e = ground (arith, prefix-seq (suc a) n xs ys)

Elem-seq-lt : (a n x : ℕ) → Elem x (seq a n) → x < a + n
unfolding seq
Elem-seq-lt a zero x m = elim m [ ]
Elem-seq-lt a (suc n) x (inl e) = omega arith
Elem-seq-lt a (suc n) x (inr m) = omega (arith, Elem-seq-lt (suc a) n x m)

Elem-indices :
    (rs : List UndoRecord) (r : UndoRecord)
    → Elem r rs
    → is_ddl r.type ≡ true
    → Elem r.ddl_info_idx (indices rs)
unfolding indices
Elem-indices [] r m d = elim m [ ]
Elem-indices (x ∷ rs) r (inl e) d =
    let same = ap (λ (y : UndoRecord). y.ddl_info_idx) e in
    let hit : is_ddl x.type ≡ true = subst (λ (y : UndoRecord). is_ddl y.type ≡ true) e d in
    rw hit (inl same)
Elem-indices (x ∷ rs) r (inr m) d = elim (Bool-cases (is_ddl x.type)) [
  | inl hit ↦ rw hit (inr (Elem-indices rs r m d))
  | inr miss ↦ rw miss (Elem-indices rs r m d)
]

module _ {Info : Type 0} where
  indices-dml :
      (t : Transaction Info) (r : UndoRecord)
      → is_ddl r.type ≡ false
      → indices (t.undo_records ++ r ∷ []) ≡ indices t.undo_records
  indices-dml t r d =
      indices-append t.undo_records (r ∷ [])
      ∙ (unfold indices in rw d (append-nil (indices t.undo_records)))

  -- Every DML record keeps the two in step.
  pub record_dml-IsAligned :
      (t : Transaction Info) (table_id : ℕ) (rid : RecordId)
      → IsAligned t
      → IsAligned (record_insert t table_id rid)
        × IsAligned (record_delete t table_id rid)
        × IsAligned (record_hot_insert t table_id rid)
        × IsAligned (record_hot_delete t table_id rid)
  unfolding record_insert record_delete record_hot_insert record_hot_delete is_ddl
  record_dml-IsAligned t table_id rid a = (
    record { in_step = indices-dml t _ refl ∙ a.in_step },
    record { in_step = indices-dml t _ refl ∙ a.in_step },
    record { in_step = indices-dml t _ refl ∙ a.in_step },
    record { in_step = indices-dml t _ refl ∙ a.in_step },
  )

  -- So does a DDL record with its info.
  pub record_ddl-IsAligned :
      (t : Transaction Info) (type : UndoType) (table_id : ℕ) (info : Info)
      → is_ddl type ≡ true
      → IsAligned t
      → IsAligned (record_ddl t type table_id info)
  unfolding record_ddl
  record_ddl-IsAligned t type table_id info d a = record { in_step = step }
    where
      n : ℕ
      n = length t.ddl_undo_infos

      last : UndoRecord
      last = record {
        type = type;
        table_id = table_id;
        rid = record { page_id = 0; slot_idx = 0 };
        ddl_info_idx = n;
      }

      one : indices (last ∷ []) ≡ n ∷ []
      one = unfold indices in rw d

      step : indices (t.undo_records ++ last ∷ []) ≡ seq 0 (length (t.ddl_undo_infos ++ info ∷ []))
      step =
          indices-append t.undo_records (last ∷ [])
          ∙ ground
              (arith, a.in_step, seq-snoc 0 n n, length-append t.ddl_undo_infos (info ∷ []), one)

  -- And so does a truncation at any mark.
  pub truncate_undo-IsAligned :
      (t : Transaction Info) (mark : ℕ) → IsAligned t → IsAligned (truncate_undo t mark)
  unfolding truncate_undo
  truncate_undo-IsAligned t mark a = record { in_step = cut }
    where
      n : ℕ
      n = length t.ddl_undo_infos

      kept : List UndoRecord
      kept = take mark t.undo_records

      gone : List UndoRecord
      gone = drop mark t.undo_records

      parts : indices kept ++ indices gone ≡ seq 0 n
      parts =
          sym (indices-append kept gone)
          ∙ ap indices (take-append-drop mark t.undo_records)
          ∙ a.in_step

      sizes : length (indices kept) + count_ddl gone ≡ n
      sizes = omega (
        arith,
        length-indices gone,
        length-append (indices kept) (indices gone),
        ap (length {0}) parts,
        length-seq 0 n,
      )

      cut : indices kept ≡ seq 0 (length (take (n - count_ddl gone) t.ddl_undo_infos))
      cut =
          prefix-seq 0 n (indices kept) (indices gone) parts
          ∙ ap (seq 0) (omega (arith, sizes, length-take-le (n - count_ddl gone) t.ddl_undo_infos))

  -- In step, the info of each DDL record is there.
  pub ddl_info_in_bounds :
      (t : Transaction Info) (r : UndoRecord)
      → IsAligned t
      → Elem r t.undo_records
      → is_ddl r.type ≡ true
      → r.ddl_info_idx < length t.ddl_undo_infos
  ddl_info_in_bounds t r a m d =
      let at : Elem r.ddl_info_idx (seq 0 (length t.ddl_undo_infos)) =
        subst (Elem r.ddl_info_idx) a.in_step (Elem-indices t.undo_records r m d) in
      omega (arith, Elem-seq-lt 0 (length t.ddl_undo_infos) r.ddl_info_idx at)
