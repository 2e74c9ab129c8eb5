-- ===== src/BTree/Slot.antt =====
-- index/btree.cpp: the comparison of a key with an encoded slot. `none` is where the code answers
-- false, and the caller decodes the slot and compares.
pub mod Agree
pub mod Whole
use minidb.Prelude.{
  ℕ, zero, suc, ◌+◌, Bool, true, false, not, ◌&&◌, ◌||◌, List, [], ◌∷◌, Option, none, some, ltb,
  leb, ◌==◌, if◌then◌else◌, length, take, min,
}
use minidb.Prelude.Bytes.{of_bytes, split}
use minidb.Prelude.Order.{Order, less, same, more, cmp}
use minidb.Value.{
  Value, bool_type, int32_type, int64_type, float_type, double_type, varchar_type, timestamp_type,
  datetime_type, null_type, signed32, signed64, compare_float, compare_double, fixed_size,
}
use minidb.IndexKey
use minidb.IndexKey.{index_key_magic}

-- The comparison of a number in the slot with the value, by its type.
unfoldable pub compare_bits : ℕ → ℕ → ℕ → Order
compare_bits type a b =
    if type == bool_type
    then cmp (if a == 1 then 1 else 0) b
    else if type == int32_type
    then cmp (signed32 a) (signed32 b)
    else if type == float_type
    then compare_float a b
    else if type == double_type
    then compare_double a b
    else cmp (signed64 a) (signed64 b)

-- A round of the loop of compare_slot_key after the type byte: the answer, and the bytes that follow;
-- `none` where the code answers false.
unfoldable pub compare_slot_value : ℕ → List ℕ → Value → Option (Order × List ℕ)
compare_slot_value type bs v =
    if not (type == v.type_id)
    then some (cmp type v.type_id, bs)
    else if type == null_type
    then some (same, bs)
    else if fixed_size type == 0
    then none
    else elim (split (fixed_size type) bs) [
      | none ↦ none
      | some (b, rest) ↦ some (compare_bits type (of_bytes b) v.bits, rest)
    ]

-- The loop of compare_slot_key over `n` values, and the answer of the counts `ends` after it.
unfoldable pub compare_slot_values : ℕ → List ℕ → List Value → Order → Option Order
compare_slot_values zero bs key ends = some ends
compare_slot_values (suc n) bs [] ends = some ends
compare_slot_values (suc n) [] (v ∷ vs) ends = none
compare_slot_values (suc n) (type ∷ bs) (v ∷ vs) ends = elim (compare_slot_value type bs v) [
  | none ↦ none
  | some (less, rest) ↦ some less
  | some (more, rest) ↦ some more
  | some (same, rest) ↦ compare_slot_values n rest vs ends
]

-- BPlusTree::compare_slot_key
unfoldable pub compare_slot_key : List ℕ → List Value → Option Order
compare_slot_key slot key = elim (split 2 slot) [
  | none ↦ none
  | some (magic, r) ↦ elim (split 2 r) [
    | none ↦ none
    | some (count, r') ↦ elim (split 2 r') [
      | none ↦ none
      | some (payload, body) ↦
          if not (of_bytes magic == index_key_magic) || ltb (length slot) (of_bytes payload + 6)
          then none
          else compare_slot_values (min (of_bytes count) (length key))
              (take (of_bytes payload) body) key (cmp (of_bytes count) (length key))
    ]
  ]
]

-- The comparison that the tree makes at a slot: the fast one, or IndexKey::compare of the decoded key.
unfoldable pub slot_order : List ℕ → List Value → Order
slot_order slot key = elim (compare_slot_key slot key) [
  | some o ↦ o
  | none ↦ IndexKey.compare [] (IndexKey.decode slot) key
]

-- A round of the loop of slot_starts_with after the type byte: whether the values are the same, and
-- the bytes that follow; `none` where the code answers false.
unfoldable pub match_slot_value : ℕ → List ℕ → Value → Option (Bool × List ℕ)
match_slot_value type bs v =
    if not (type == v.type_id) then some (false, bs) else elim (compare_slot_value type bs v) [
      | none ↦ none
      | some (o, rest) ↦ some (IndexKey.is_same o, rest)
    ]

-- The loop of slot_starts_with.
unfoldable pub match_slot_values : List ℕ → List Value → Option Bool
match_slot_values bs [] = some true
match_slot_values [] (v ∷ vs) = none
match_slot_values (type ∷ bs) (v ∷ vs) = elim (match_slot_value type bs v) [
  | none ↦ none
  | some (false, rest) ↦ some false
  | some (true, rest) ↦ match_slot_values rest vs
]

-- BPlusTree::slot_starts_with: `some` of `*matches` where it answers true.
unfoldable pub slot_starts_with : List ℕ → List Value → Option Bool
slot_starts_with slot prefix = elim (split 2 slot) [
  | none ↦ none
  | some (magic, r) ↦ elim (split 2 r) [
    | none ↦ none
    | some (count, r') ↦ elim (split 2 r') [
      | none ↦ none
      | some (payload, body) ↦
          if not (of_bytes magic == index_key_magic) || ltb (length slot) (of_bytes payload + 6)
          then none
          else if ltb (of_bytes count) (length prefix)
          then some false
          else match_slot_values (take (of_bytes payload) body) prefix
    ]
  ]
]
