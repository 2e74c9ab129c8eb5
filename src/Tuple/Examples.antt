-- ===== src/Tuple/Examples.antt =====
-- A row of an integer, a NULL and a string, read by a schema with one column more.
use minidb.Prelude.{ℕ, ◌≡◌, ◌<◌, refl, List, [], ◌∷◌, ◌++◌, arith, length, take, drop, get_elem?}
use minidb.Prelude.Bytes.{to_bytes, of_bytes, split}
use minidb.Value
use minidb.Value.{Value, number_value, string_value, null_value, int32_type, bool_type, fixed_size}
use minidb.Value.Stored.{a_null, a_word, a_string}
use minidb.Tuple.{
  Tuple, null_bitmap, serialize_values, serialize_to_page, read_value, read_columns, read_header,
  read_values, is_null_at, deserialize_from_page, read_column_from_page, serialized_size,
}
use minidb.Tuple.RoundTrip.{IsTuple, deserialize_from_page-serialize_to_page}
use minidb.Tuple.Columns.{read_column_from_page-deserialize_from_page}

abbrev row : Tuple
row = record {
  xmin = 7;
  xmax = 0;
  next_ver_page = 4;
  next_ver_slot = 2;
  values = number_value int32_type 300 ∷ null_value ∷ string_value (97 ∷ 98 ∷ []) ∷ [];
}

abbrev defaults : List Value
defaults = null_value ∷ null_value ∷ null_value ∷ number_value int32_type 5 ∷ []

row-IsTuple : IsTuple row
unfolding fixed_size
row-IsTuple = record {
  xmin_fits = omega arith;
  xmax_fits = omega arith;
  page_fits = omega arith;
  slot_fits = omega arith;
  few = omega arith;
  are_values = (
    a_word int32_type 300 refl (omega arith),
    (a_null, (a_string (97 ∷ 98 ∷ []) (omega arith), tt)),
  );
}

row-length : length (serialize_to_page row ++ 9 ∷ []) < 4294967296
unfolding serialize_to_page serialize_values Value.serialize null_bitmap to_bytes fixed_size
row-length = omega arith

deserialize_from_page-serialize_to_page_example :
    (deserialize_from_page (serialize_to_page row ++ 9 ∷ []) defaults
      ≡ record row { values = take 4 row.values ++ drop 3 defaults })
    × (serialized_size row ≡ length (serialize_to_page row))
deserialize_from_page-serialize_to_page_example =
    deserialize_from_page-serialize_to_page row defaults (9 ∷ []) row-IsTuple row-length

abbrev row_bytes : List ℕ
row_bytes = serialize_to_page row

row_bytes_lem :
    serialize_to_page row
    ≡ to_bytes 8 7
      ++ (to_bytes 8 0
          ++ (to_bytes 8 4
              ++ (2 ∷ 0 ∷ 3 ∷ 0 ∷ 0 ∷ 0 ∷ 2 ∷ 1 ∷ 44 ∷ 1 ∷ 0 ∷ 0 ∷ 5 ∷ 2 ∷ 0 ∷ 0 ∷ 0 ∷ 97 ∷ 98
                  ∷ [])))
unfolding serialize_to_page serialize_values Value.serialize null_bitmap to_bytes fixed_size
row_bytes_lem = refl

read_column_from_page-deserialize_from_page_example :
    read_column_from_page row_bytes defaults 2
    ≡ get_elem? (deserialize_from_page row_bytes defaults).values 2
unfolding serialize_to_page serialize_values Value.serialize null_bitmap to_bytes of_bytes
    fixed_size split deserialize_from_page read_header read_values read_columns read_value
    is_null_at
read_column_from_page-deserialize_from_page_example =
    read_column_from_page-deserialize_from_page row_bytes defaults 2 (omega arith) (omega arith)
