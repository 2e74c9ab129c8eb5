-- ===== src/IndexKey.antt =====
-- index/index_key.h and index_key.cpp: composite index keys. A key is the list of its values, a schema
-- the list of its columns; no schema is the empty one. A slot is the list of its bytes.
pub mod Compare
pub mod Codec
mod Examples
use minidb.Prelude.{
  ℕ, zero, suc, ◌+◌, ◌-◌, ◌%◌, Bool, true, false, not, ◌&&◌, ◌||◌, List, [], ◌∷◌, ◌++◌, Option,
  none, some, ltb, leb, ◌==◌, if◌then◌else◌, length, take, drop,
}
use minidb.Prelude.Bytes.{to_bytes, of_bytes, split}
use minidb.Prelude.Order.{Order, less, same, more, invert, then_by}
use minidb.Value
use minidb.Value.{
  Value, is_null, bool_type, varchar_type, fixed_size, null_value, number_value, string_value,
}

-- What a comparison reads of IndexKeyColumn.
pub record IndexKeyColumn : Type 0 where
  pub descending : Bool
  pub nulls_first : Bool

-- The column past the end of a schema.
abbrev pub default_column : IndexKeyColumn
default_column = record { descending = false; nulls_first = true }

abbrev pub head_column : List IndexKeyColumn → IndexKeyColumn
head_column [] = default_column
head_column (c ∷ cs) = c

abbrev pub tail_columns : List IndexKeyColumn → List IndexKeyColumn
tail_columns [] = []
tail_columns (c ∷ cs) = cs

unfoldable pub compare_value_with_null_order : Bool → Value → Value → Order
compare_value_with_null_order nulls_first a b =
    if is_null a || is_null b
    then (if is_null a && is_null b
        then same
        else if is_null a
        then (if nulls_first then less else more)
        else (if nulls_first then more else less))
    else Value.compare a b

-- One round of the loop of IndexKey::compare.
abbrev pub compare_column : IndexKeyColumn → Value → Value → Order
compare_column c a b =
    let r = compare_value_with_null_order c.nulls_first a b in if c.descending then invert r else r

-- IndexKey::compare, by the sign of its answer.
unfoldable pub compare : List IndexKeyColumn → List Value → List Value → Order
compare cs [] [] = same
compare cs [] (b ∷ bs) = less
compare cs (a ∷ as') [] = more
compare cs (a ∷ as') (b ∷ bs) =
    then_by (compare_column (head_column cs) a b) (compare (tail_columns cs) as' bs)

abbrev pub is_same : Order → Bool
is_same same = true
is_same _ = false

-- The loop of IndexKey::starts_with.
unfoldable pub matches : List IndexKeyColumn → List Value → List Value → Bool
matches cs key [] = true
matches cs [] (b ∷ bs) = false
matches cs (a ∷ as') (b ∷ bs) =
    let rest = matches (tail_columns cs) as' bs in
    if is_same (compare_column (head_column cs) a b) then rest else false

-- IndexKey::starts_with
unfoldable pub starts_with : List IndexKeyColumn → List Value → List Value → Bool
starts_with cs key prefix =
    if ltb (length key) (length prefix) then false else matches cs key prefix

-- The bytes of a value in encoded_size.
unfoldable pub value_size : Value → ℕ
value_size v =
    1 + (if v.type_id == varchar_type then 2 + length v.string_val else fixed_size v.type_id)

unfoldable pub values_size : List Value → ℕ
values_size [] = 0
values_size (v ∷ vs) = value_size v + values_size vs

-- IndexKey::encoded_size
unfoldable pub encoded_size : List Value → ℕ
encoded_size k = (6 + values_size k) % 4294967296

-- IndexKey::fits
unfoldable pub fits : List Value → ℕ → Bool
fits k slot_size = leb (encoded_size k) slot_size && leb (length k) 255

abbrev pub index_key_magic : ℕ
index_key_magic = 18763

-- One round of the loop of IndexKey::encode. The length of a string is cast to 16 bits.
unfoldable pub encode_value : Value → List ℕ
encode_value v =
    v.type_id
    ∷ (if v.type_id == varchar_type
        then to_bytes 2 (length v.string_val) ++ v.string_val
        else if v.type_id == bool_type
        then (if v.bits == 0 then 0 else 1) ∷ []
        else to_bytes (fixed_size v.type_id) v.bits)

unfoldable pub encode_values : List Value → List ℕ
encode_values [] = []
encode_values (v ∷ vs) = encode_value v ++ encode_values vs

-- The slot after the zeroing at the top of IndexKey::encode, from the end of the key on.
abbrev pub zeroed : ℕ → List ℕ → List ℕ
zeroed actual slot = if ltb actual (length slot) then 0 ∷ drop (suc actual) slot else []

-- IndexKey::encode: the slot that it leaves, where it answers true.
unfoldable pub encode : List Value → List ℕ → Option (List ℕ)
encode k slot =
    if not (fits k (length slot))
    then none
    else some (
        to_bytes 2 index_key_magic
        ++ (to_bytes 2 (length k)
            ++ (to_bytes 2 (encoded_size k - 6)
                ++ (encode_values k ++ zeroed (encoded_size k) slot))))

-- The switch of IndexKey::decode, after the type byte; `none` where it returns the empty key.
unfoldable pub decode_value : ℕ → List ℕ → Option (Value × List ℕ)
decode_value type bs =
    if type == varchar_type
    then elim (split 2 bs) [
      | none ↦ none
      | some (len, rest) ↦ elim (split (of_bytes len) rest) [
        | none ↦ none
        | some (s, rest_bytes) ↦ some (string_value s, rest_bytes)
      ]
    ]
    else if fixed_size type == 0
    then some (null_value, bs)
    else elim (split (fixed_size type) bs) [
      | none ↦ none
      | some (b, rest) ↦ some (
        number_value type
            (if type == bool_type then (if of_bytes b == 1 then 1 else 0) else of_bytes b),
        rest,
      )
    ]

-- The loop of IndexKey::decode.
unfoldable pub decode_values : ℕ → List ℕ → Option (List Value)
decode_values zero bs = some []
decode_values (suc n) [] = some []
decode_values (suc n) (type ∷ bs) = elim (decode_value type bs) [
  | none ↦ none
  | some (v, rest) ↦ elim (decode_values n rest) [ none ↦ none | some vs ↦ some (v ∷ vs) ]
]

-- IndexKey::decode; the empty key where the slot does not hold a key.
unfoldable pub decode : List ℕ → List Value
decode slot = elim (split 2 slot) [
  | none ↦ []
  | some (magic, r) ↦ elim (split 2 r) [
    | none ↦ []
    | some (count, r') ↦ elim (split 2 r') [
      | none ↦ []
      | some (payload, body) ↦
          if not (of_bytes magic == index_key_magic) || ltb (length slot) (of_bytes payload + 6)
          then []
          else elim (decode_values (of_bytes count) (take (of_bytes payload) body)) [
            | none ↦ []
            | some vs ↦ vs
          ]
    ]
  ]
]
