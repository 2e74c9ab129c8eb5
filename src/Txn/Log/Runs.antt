-- ===== src/Txn/Log/Runs.antt =====
-- Any calls on the undo log of transaction/transaction.cpp, and a log whose records carry their infos.
use minidb.Prelude.{
  ℕ, zero, suc, ◌-◌, ◌<◌, ◌≡◌, refl, ap, ◌∙◌, inl, inr, true, false, List, [], ◌∷◌, ◌++◌, Option,
  none, some, arith, if◌then◌else◌, Bool-cases, length, take, drop, get_elem?, Elem, All,
}
use minidb.RecordId.{RecordId}
use minidb.Txn.Log
use minidb.Txn.Log.{
  UndoType, UndoRecord, Transaction, is_ddl, count_ddl, start, record_insert, record_delete,
  record_hot_insert, record_hot_delete, record_ddl, truncate_undo,
}
use minidb.Txn.Log.Aligned.{
  indices, seq, IsAligned, record_dml-IsAligned, record_ddl-IsAligned, truncate_undo-IsAligned,
  ddl_info_in_bounds,
}

-- A record with the info that it was recorded with.
pub record Entry (Info : Type 0) : Type 0 where
  pub type : UndoType
  pub table_id : ℕ
  pub rid : RecordId
  pub info : Option Info

pub data UndoCall (Info : Type 0) : Type 0 where
  inserts deletes hot_inserts hot_deletes : (table_id : ℕ) (rid : RecordId) → UndoCall Info
  changes_schema : (type : UndoType) (table_id : ℕ) (info : Info) → UndoCall Info
  truncates : (mark : ℕ) → UndoCall Info

module _ {Info : Type 0} where
  unfoldable pub step : Transaction Info → UndoCall Info → Transaction Info
  step t (inserts table_id rid) = record_insert t table_id rid
  step t (deletes table_id rid) = record_delete t table_id rid
  step t (hot_inserts table_id rid) = record_hot_insert t table_id rid
  step t (hot_deletes table_id rid) = record_hot_delete t table_id rid
  step t (changes_schema type table_id info) = record_ddl t type table_id info
  step t (truncates mark) = truncate_undo t mark

  unfoldable pub run : Transaction Info → List (UndoCall Info) → Transaction Info
  unfolding step
  run t [] = t
  run t (c ∷ cs) = run (step t c) cs

  -- The same calls on a list of entries.
  abbrev plain : UndoType → ℕ → RecordId → Entry Info
  plain type table_id rid = record { type = type; table_id = table_id; rid = rid; info = none }

  unfoldable pub follow : List (Entry Info) → UndoCall Info → List (Entry Info)
  follow es (inserts table_id rid) = es ++ plain Log.insert table_id rid ∷ []
  follow es (deletes table_id rid) = es ++ plain Log.delete table_id rid ∷ []
  follow es (hot_inserts table_id rid) = es ++ plain Log.hot_insert table_id rid ∷ []
  follow es (hot_deletes table_id rid) = es ++ plain Log.hot_delete table_id rid ∷ []
  follow es (changes_schema type table_id info) =
      es
      ++ record {
        type = type;
        table_id = table_id;
        rid = record { page_id = 0; slot_idx = 0 };
        info = some info;
      }
        ∷ []
  follow es (truncates mark) = take mark es

  unfoldable pub follow_all : List (Entry Info) → List (UndoCall Info) → List (Entry Info)
  unfolding follow
  follow_all es [] = es
  follow_all es (c ∷ cs) = follow_all (follow es c) cs

  -- What a rollback finds: each DDL record with the info that its index points to.
  unfoldable pub entry_of : List Info → UndoRecord → Entry Info
  entry_of infos r = record {
    type = r.type;
    table_id = r.table_id;
    rid = r.rid;
    info = if is_ddl r.type then get_elem? infos r.ddl_info_idx else none;
  }

  unfoldable pub entries : List Info → List UndoRecord → List (Entry Info)
  unfolding entry_of
  entries infos [] = []
  entries infos (r ∷ rs) = entry_of infos r ∷ entries infos rs

  -- A call changes the schema only with a type of schema change.
  abbrev pub IsProper : UndoCall Info → Type 0
  IsProper (changes_schema type table_id info) = is_ddl type ≡ true
  IsProper _ = Unit

  entries-append :
      (infos : List Info) (xs ys : List UndoRecord)
      → entries infos (xs ++ ys) ≡ entries infos xs ++ entries infos ys
  unfolding entries
  entries-append infos [] ys = refl
  entries-append infos (x ∷ xs) ys = ap (λ es. entry_of infos x ∷ es) (entries-append infos xs ys)

  entries-take :
      (infos : List Info) (n : ℕ) (xs : List UndoRecord)
      → entries infos (take n xs) ≡ take n (entries infos xs)
  unfolding entries
  entries-take infos zero xs = refl
  entries-take infos (suc n) [] = refl
  entries-take infos (suc n) (x ∷ xs) = ap (λ es. entry_of infos x ∷ es) (entries-take infos n xs)

  -- Two lists of infos that agree on the indices of the records.
  entries_agree :
      (infos infos' : List Info) (xs : List UndoRecord)
      → ((r : UndoRecord)
          → Elem r xs
          → is_ddl r.type ≡ true
          → get_elem? infos r.ddl_info_idx ≡ get_elem? infos' r.ddl_info_idx)
      → entries infos xs ≡ entries infos' xs
  unfolding entries entry_of
  entries_agree infos infos' [] same = refl
  entries_agree infos infos' (x ∷ xs) same =
      let rest = entries_agree infos infos' xs (λ r m d. same r (inr m) d) in
      elim (Bool-cases (is_ddl x.type)) [
        | inl d ↦ ground (arith, rest, d, same x (inl refl) d)
        | inr d ↦ ground (arith, rest, d)
      ]

  get_elem?-append :
      (xs ys : List Info) (i : ℕ) → i < length xs → get_elem? (xs ++ ys) i ≡ get_elem? xs i
  get_elem?-append [] ys i lt = absurd (omega (arith, lt))
  get_elem?-append (x ∷ xs) ys zero lt = refl
  get_elem?-append (x ∷ xs) ys (suc i) lt = get_elem?-append xs ys i (omega (arith, lt))

  get_elem?-last : (xs : List Info) (y : Info) → get_elem? (xs ++ y ∷ []) (length xs) ≡ some y
  get_elem?-last [] y = refl
  get_elem?-last (x ∷ xs) y = get_elem?-last xs y

  get_elem?-take :
      (n : ℕ) (xs : List Info) (i : ℕ)
      → i < length (take n xs)
      → get_elem? (take n xs) i ≡ get_elem? xs i
  get_elem?-take zero xs i lt = absurd (omega (arith, lt))
  get_elem?-take (suc n) [] i lt = refl
  get_elem?-take (suc n) (x ∷ xs) zero lt = refl
  get_elem?-take (suc n) (x ∷ xs) (suc i) lt = get_elem?-take n xs i (omega (arith, lt))

  abbrev found : Transaction Info → List (Entry Info)
  found t = entries t.ddl_undo_infos t.undo_records

  step-IsAligned :
      (t : Transaction Info) (c : UndoCall Info) → IsProper c → IsAligned t → IsAligned (step t c)
  unfolding step
  step-IsAligned t (inserts table_id rid) p a = (record_dml-IsAligned t table_id rid a).0
  step-IsAligned t (deletes table_id rid) p a = (record_dml-IsAligned t table_id rid a).1
  step-IsAligned t (hot_inserts table_id rid) p a = (record_dml-IsAligned t table_id rid a).2
  step-IsAligned t (hot_deletes table_id rid) p a = (record_dml-IsAligned t table_id rid a).3
  step-IsAligned t (changes_schema type table_id info) p a =
      record_ddl-IsAligned t type table_id info p a
  step-IsAligned t (truncates mark) p a = truncate_undo-IsAligned t mark a

  found-dml :
      (t : Transaction Info) (r : UndoRecord)
      → is_ddl r.type ≡ false
      → entries t.ddl_undo_infos (t.undo_records ++ r ∷ [])
        ≡ found t ++ plain r.type r.table_id r.rid ∷ []
  found-dml t r d =
      entries-append t.ddl_undo_infos t.undo_records (r ∷ [])
      ∙ ap (λ es. found t ++ es) (unfold entries entry_of in ground (arith, d))

  found-record_ddl :
      (t : Transaction Info) (type : UndoType) (table_id : ℕ) (info : Info)
      → is_ddl type ≡ true
      → IsAligned t
      → found (record_ddl t type table_id info)
        ≡ follow (found t) (changes_schema type table_id info)
  unfolding record_ddl follow
  found-record_ddl t type table_id info d a =
      let infos = t.ddl_undo_infos ++ info ∷ [] in
      let last : UndoRecord = record {
        type = type;
        table_id = table_id;
        rid = record { page_id = 0; slot_idx = 0 };
        ddl_info_idx = length t.ddl_undo_infos;
      } in
      let old : entries infos t.undo_records ≡ found t =
        entries_agree infos t.ddl_undo_infos t.undo_records (λ r m k.
          get_elem?-append t.ddl_undo_infos (info ∷ []) r.ddl_info_idx
            (ddl_info_in_bounds t r a m k)) in
      let new : entries infos (last ∷ []) ≡ follow [] (changes_schema type table_id info) =
        unfold entries entry_of follow in ground (arith, d, get_elem?-last t.ddl_undo_infos info) in
      entries-append infos t.undo_records (last ∷ [])
      ∙ ap (λ es. es ++ entries infos (last ∷ [])) old
      ∙ ap (λ es. found t ++ es) new

  found-truncate_undo :
      (t : Transaction Info) (mark : ℕ)
      → IsAligned t
      → found (truncate_undo t mark) ≡ take mark (found t)
  unfolding truncate_undo
  found-truncate_undo t mark a =
      let n = length t.ddl_undo_infos - count_ddl (drop mark t.undo_records) in
      entries_agree (take n t.ddl_undo_infos) t.ddl_undo_infos (take mark t.undo_records) (λ r m d.
        get_elem?-take n t.ddl_undo_infos r.ddl_info_idx
          (ddl_info_in_bounds (truncate_undo t mark) r (truncate_undo-IsAligned t mark a) m d))
      ∙ entries-take t.ddl_undo_infos mark t.undo_records

  found-step :
      (t : Transaction Info) (c : UndoCall Info)
      → IsProper c
      → IsAligned t
      → found (step t c) ≡ follow (found t) c
  unfolding step follow record_insert record_delete record_hot_insert record_hot_delete is_ddl
  found-step t (inserts table_id rid) p a = found-dml t _ refl
  found-step t (deletes table_id rid) p a = found-dml t _ refl
  found-step t (hot_inserts table_id rid) p a = found-dml t _ refl
  found-step t (hot_deletes table_id rid) p a = found-dml t _ refl
  found-step t (changes_schema type table_id info) p a = found-record_ddl t type table_id info p a
  found-step t (truncates mark) p a = found-truncate_undo t mark a

  found-run :
      (t : Transaction Info) (cs : List (UndoCall Info))
      → All IsProper cs
      → IsAligned t
      → found (run t cs) ≡ follow_all (found t) cs
  unfolding run follow_all
  found-run t [] p a = refl
  found-run t (c ∷ cs) p a =
      found-run (step t c) cs p.1 (step-IsAligned t c p.0 a)
      ∙ ap (λ es. follow_all es cs) (found-step t c p.0 a)

  -- The undo log of a new transaction, after any records and truncations in which each schema change is
  -- recorded with a DDL type, read with the infos that its indices point to, is the list that the same
  -- calls make of records that carry their infos.
  pub run-follow_all :
      (id snapshot : ℕ) (active : List ℕ) (cs : List (UndoCall Info))
      → All IsProper cs
      → (let t = run (start id snapshot active) cs in entries t.ddl_undo_infos t.undo_records)
        ≡ follow_all [] cs
  unfolding start entries
  run-follow_all id snapshot active cs p =
      found-run (start id snapshot active) cs p (record { in_step = unfold indices seq in refl })
