-- ===== src/IndexKey/Examples.antt =====
-- A key of an integer and a string, in a slot of 20 bytes.
use minidb.Prelude.{ℕ, ◌≡◌, refl, List, [], ◌∷◌, some, true, false, arith, length, All}
use minidb.Prelude.Order.{less, IsOrder}
use minidb.Value.{Value, number_value, string_value, null_value, int32_type, fixed_size}
use minidb.Value.Stored.{IsValue, a_word, a_string}
use minidb.IndexKey.{
  IndexKeyColumn, compare_value_with_null_order, compare, value_size, values_size, encode, decode,
}
use minidb.IndexKey.Compare.{compare-IsOrder}
use minidb.IndexKey.Codec.{decode-encode}

abbrev seven_ab : List Value
seven_ab = number_value int32_type 7 ∷ string_value (97 ∷ 98 ∷ []) ∷ []

abbrev blank : List ℕ
blank = 1 ∷ 1 ∷ 1 ∷ 1 ∷ 1 ∷ 1 ∷ 1 ∷ 1 ∷ 1 ∷ 1 ∷ 1 ∷ 1 ∷ 1 ∷ 1 ∷ 1 ∷ 1 ∷ 1 ∷ 1 ∷ 1 ∷ 1 ∷ []

abbrev falling : List IndexKeyColumn
falling = record { descending = true; nulls_first = false } ∷ []

null_ends : compare falling (null_value ∷ []) seven_ab ≡ less
unfolding compare compare_value_with_null_order
null_ends = refl

compare-IsOrder_example : IsOrder (compare falling)
compare-IsOrder_example = compare-IsOrder falling

seven_ab-IsValue : All IsValue seven_ab
unfolding fixed_size
seven_ab-IsValue =
    (a_word int32_type 7 refl (omega arith), (a_string (97 ∷ 98 ∷ []) (omega arith), tt))

decode-encode_example :
    (out : List ℕ) × (encode seven_ab blank ≡ some out)
    × (decode out ≡ seven_ab)
    × (length out ≡ 20)
unfolding values_size value_size fixed_size
decode-encode_example =
    decode-encode seven_ab blank seven_ab-IsValue (omega arith) (omega arith) (omega arith)
