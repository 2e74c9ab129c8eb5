-- ===== src/Tuple.antt =====
-- record/tuple.h and tuple.cpp: a row, its bytes in a page, and the reading of them. The bytes are
-- those up to `end`. Of a schema the reading needs the values that Column::default_as_value makes,
-- one for each column; `defaults` is their list.
pub mod Columns
pub mod Bitmap
pub mod Stored
pub mod RoundTrip
mod Examples
use minidb.Prelude.{
  ℕ, zero, suc, ◌+◌, ◌*◌, ◌/◌, ◌%◌, Bool, true, false, List, [], ◌∷◌, ◌++◌, Option, none, some, ltb,
  leb, ◌==◌, if◌then◌else◌, length, get_elem?, take, drop, map,
}
use minidb.Prelude.Bytes.{to_bytes, of_bytes, split}
use minidb.Value.{
  Value, null_value, number_value, string_value, is_null, bool_type, varchar_type, null_type,
  fixed_size,
}
use minidb.Value

pub record Tuple : Type 0 where
  pub xmin : ℕ
  pub xmax : ℕ
  pub next_ver_page : ℕ
  pub next_ver_slot : ℕ
  pub values : List Value

-- Tuple::Tuple
abbrev pub empty_tuple : Tuple
empty_tuple = record { xmin = 0; xmax = 0; next_ver_page = 0; next_ver_slot = 0; values = [] }

-- Bits as a number, the lowest first.
unfoldable pub byte_of : List Bool → ℕ
byte_of [] = 0
byte_of (b ∷ bs) = (if b then 1 else 0) + 2 * byte_of bs

-- The null bitmap: bit `i % 8` of byte `i / 8`.
unfoldable pub null_bitmap : ℕ → List Bool → List ℕ
unfolding byte_of
null_bitmap zero flags = []
null_bitmap (suc n) flags = byte_of (take 8 flags) ∷ null_bitmap n (drop 8 flags)

unfoldable pub serialize_values : List Value → List ℕ
serialize_values [] = []
serialize_values (v ∷ vs) =
    let rest = serialize_values vs in if is_null v then rest else Value.serialize v ++ rest

-- (num_cols + 7) / 8, of u32s
abbrev pub bitmap_size : ℕ → ℕ
bitmap_size num_cols = (num_cols + 7) % 4294967296 / 8

-- Tuple::serialize_to_page: the bytes that it writes.
unfoldable pub serialize_to_page : Tuple → List ℕ
serialize_to_page t =
    to_bytes 8 t.xmin
    ++ (to_bytes 8 t.xmax
        ++ (to_bytes 8 t.next_ver_page
            ++ (to_bytes 2 t.next_ver_slot
                ++ (to_bytes 4 (length t.values)
                    ++ (null_bitmap (bitmap_size (length t.values)) (map is_null t.values)
                        ++ serialize_values t.values)))))

-- read_value_bounded: the value and the bytes behind it.
unfoldable pub read_value : List ℕ → Option (Value × List ℕ)
read_value [] = none
read_value (type ∷ bs) =
    if type == varchar_type
    then elim (split 4 bs) [
      | none ↦ none
      | some (len, rest) ↦ elim (split (of_bytes len) rest) [
        | none ↦ none
        | some (s, behind) ↦ some (string_value s, behind)
      ]
    ]
    else if type == null_type
    then some (null_value, bs)
    else if fixed_size type == 0
    then none
    else elim (split (fixed_size type) bs) [
      | none ↦ none
      | some (b, behind) ↦ some (
        number_value type
            (if type == bool_type then (if of_bytes b == 1 then 1 else 0) else of_bytes b),
        behind,
      )
    ]

-- skip_value_bounded
unfoldable pub skip_value : List ℕ → Option (List ℕ)
skip_value [] = none
skip_value (type ∷ bs) =
    if type == varchar_type
    then elim (split 4 bs) [
      | none ↦ none
      | some (len, rest) ↦ elim (split (of_bytes len) rest) [
        | none ↦ none
        | some (_, behind) ↦ some behind
      ]
    ]
    else if type == null_type
    then some bs
    else if fixed_size type == 0
    then none
    else elim (split (fixed_size type) bs) [ none ↦ none | some (_, behind) ↦ some behind ]

-- `b & (1 << i)`
unfoldable pub bit : ℕ → ℕ → Bool
bit b zero = b % 2 == 1
bit b (suc i) = bit (b / 2) i

-- `bitmap[i / 8] & (1 << (i % 8))`, where `bitmap` is all that stands behind the header. The size of
-- the bitmap is checked before; past the bytes there is no flag.
unfoldable pub is_null_at : List ℕ → ℕ → Bool
unfolding bit
is_null_at bitmap i = elim (get_elem? bitmap (i / 8)) [ none ↦ false | some b ↦ bit b (i % 8) ]

-- The values of the columns from `i` on, of which those past the schema are dropped.
unfoldable pub read_columns : ℕ → List ℕ → List ℕ → ℕ → ℕ → Option (List Value)
read_columns count bitmap bs i zero = some []
read_columns count bitmap bs i (suc n) =
    elim (if is_null_at bitmap i then some (null_value, bs) else read_value bs) [
      | none ↦ none
      | some (v, behind) ↦ elim (read_columns count bitmap behind (suc i) n) [
        | none ↦ none
        | some vs ↦ some (if ltb i count then v ∷ vs else vs)
      ]
    ]

-- The header, num_cols, and the bytes behind them.
pub record Header : Type 0 where
  pub xmin : ℕ
  pub xmax : ℕ
  pub next_ver_page : ℕ
  pub next_ver_slot : ℕ
  pub num_cols : ℕ
  pub behind : List ℕ

unfoldable pub read_header : List ℕ → Option Header
read_header bs = elim (split 8 bs) [
  | none ↦ none
  | some (xmin, bs1) ↦ elim (split 8 bs1) [
    | none ↦ none
    | some (xmax, bs2) ↦ elim (split 8 bs2) [
      | none ↦ none
      | some (page, bs3) ↦ elim (split 2 bs3) [
        | none ↦ none
        | some (slot, bs4) ↦ elim (split 4 bs4) [
          | none ↦ none
          | some (num_cols, behind) ↦ some (record {
            xmin = of_bytes xmin;
            xmax = of_bytes xmax;
            next_ver_page = of_bytes page;
            next_ver_slot = of_bytes slot;
            num_cols = of_bytes num_cols;
            behind = behind;
          })
        ]
      ]
    ]
  ]
]

-- kMaxTupleColumns
abbrev pub max_tuple_columns : ℕ
max_tuple_columns = 4096

-- The values of Tuple::deserialize_from_page, behind the header.
unfoldable pub read_values : List Value → ℕ → List ℕ → List Value
read_values defaults num_cols bs =
    if ltb max_tuple_columns num_cols then [] else elim (split (bitmap_size num_cols) bs) [
      | none ↦ []
      | some (_, body) ↦ elim (read_columns (length defaults) bs body 0 num_cols) [
        | none ↦ []
        | some vs ↦ vs ++ drop (length vs) defaults
      ]
    ]

-- Tuple::deserialize_from_page
unfoldable pub deserialize_from_page : List ℕ → List Value → Tuple
deserialize_from_page bs defaults = elim (read_header bs) [
  | none ↦ empty_tuple
  | some h ↦ record {
    xmin = h.xmin;
    xmax = h.xmax;
    next_ver_page = h.next_ver_page;
    next_ver_slot = h.next_ver_slot;
    values = read_values defaults h.num_cols h.behind;
  }
]

-- The loop of Tuple::read_column_from_page from column `i` on.
unfoldable pub read_column_at : List ℕ → ℕ → List ℕ → ℕ → ℕ → Option Value
read_column_at bitmap idx bs i zero = none
read_column_at bitmap idx bs i (suc n) =
    if i == idx
    then (if is_null_at bitmap i
        then some null_value
        else elim (read_value bs) [ none ↦ none | some (v, _) ↦ some v ])
    else elim (if is_null_at bitmap i then some bs else skip_value bs) [
      | none ↦ none
      | some behind ↦ read_column_at bitmap idx behind (suc i) n
    ]

-- Tuple::read_column_from_page: the value, where it answers true.
unfoldable pub read_column_from_page : List ℕ → List Value → ℕ → Option Value
read_column_from_page bs defaults column_idx =
    if leb (length defaults) column_idx then none else elim (read_header bs) [
      | none ↦ none
      | some h ↦
          if leb h.num_cols column_idx
          then get_elem? defaults column_idx
          else elim (split (bitmap_size h.num_cols) h.behind) [
            | none ↦ none
            | some (_, body) ↦ read_column_at h.behind column_idx body 0 h.num_cols
          ]
    ]

-- Tuple::serialized_size, in 32 bits.
unfoldable pub values_size : List Value → ℕ
values_size [] = 0
values_size (v ∷ vs) =
    ((if is_null v then 0 else Value.serialized_size v) + values_size vs) % 4294967296

unfoldable pub serialized_size : Tuple → ℕ
serialized_size t = (30 + bitmap_size (length t.values) + values_size t.values) % 4294967296
