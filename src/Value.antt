-- ===== src/Value.antt =====
-- record/value.h and value.cpp: a value is its type id, the bits of its union and its string. The bits
-- of an integer are its two's complement and those of a float its IEEE 754 format, as numbers; a string
-- is its bytes. Arithmetic, casts and printing are not here.
pub mod Compare
pub mod Stored
mod Examples
use minidb.Prelude.{
  ℕ, zero, suc, ◌+◌, ◌-◌, ◌*◌, ◌%◌, Bool, true, false, not, ◌&&◌, ◌||◌, List, [], ◌∷◌, ◌++◌, Option,
  none, some, ltb, leb, ◌==◌, if◌then◌else◌, length,
}
use minidb.Prelude.Bytes.{to_bytes, of_bytes, split}
use minidb.Prelude.Order.{Order, less, same, more, cmp, lex}

-- TypeId, as its byte: a byte that was read may be none of these.
abbrev pub bool_type : ℕ
bool_type = 0

abbrev pub int32_type : ℕ
int32_type = 1

abbrev pub int64_type : ℕ
int64_type = 2

abbrev pub float_type : ℕ
float_type = 3

abbrev pub double_type : ℕ
double_type = 4

abbrev pub varchar_type : ℕ
varchar_type = 5

abbrev pub timestamp_type : ℕ
timestamp_type = 6

abbrev pub datetime_type : ℕ
datetime_type = 7

abbrev pub null_type : ℕ
null_type = 255

pub record Value : Type 0 where
  pub type_id : ℕ
  pub bits : ℕ
  pub string_val : List ℕ

-- The constructors of Value.
abbrev pub null_value : Value
null_value = record { type_id = null_type; bits = 0; string_val = [] }

abbrev pub number_value : ℕ → ℕ → Value
number_value type bits = record { type_id = type; bits = bits; string_val = [] }

abbrev pub string_value : List ℕ → Value
string_value s = record { type_id = varchar_type; bits = 0; string_val = s }

abbrev pub is_null : Value → Bool
is_null v = v.type_id == null_type

-- The place of the bits of an i32 and an i64 in the order of the numbers that they stand for.
abbrev pub signed32 : ℕ → ℕ
signed32 b = (b + 2147483648) % 4294967296

abbrev pub signed64 : ℕ → ℕ
signed64 b = (b + 9223372036854775808) % 18446744073709551616

-- `v != v` of a float and of a double.
abbrev pub is_nan32 : ℕ → Bool
is_nan32 b = ltb 2139095040 (b % 2147483648)

abbrev pub is_nan64 : ℕ → Bool
is_nan64 b = ltb 9218868437227405312 (b % 9223372036854775808)

-- The place of a float and of a double that is a number in the order of IEEE 754; both zeros have
-- the same.
abbrev pub order32 : ℕ → ℕ
order32 b = if ltb b 2147483648 then 2147483648 + b else 4294967296 - b

abbrev pub order64 : ℕ → ℕ
order64 b = if ltb b 9223372036854775808 then 9223372036854775808 + b else 18446744073709551616 - b

abbrev pub compare_float : ℕ → ℕ → Order
compare_float a b =
    if is_nan32 a || is_nan32 b
    then (if is_nan32 a then (if is_nan32 b then same else more) else less)
    else cmp (order32 a) (order32 b)

abbrev pub compare_double : ℕ → ℕ → Order
compare_double a b =
    if is_nan64 a || is_nan64 b
    then (if is_nan64 a then (if is_nan64 b then same else more) else less)
    else cmp (order64 a) (order64 b)

-- Value::compare, by the sign of its answer; String::compare is `lex`.
unfoldable pub compare : Value → Value → Order
unfolding lex
compare a b =
    if not (a.type_id == b.type_id)
    then cmp a.type_id b.type_id
    else if a.type_id == null_type
    then same
    else if a.type_id == bool_type
    then cmp a.bits b.bits
    else if a.type_id == int32_type
    then cmp (signed32 a.bits) (signed32 b.bits)
    else if a.type_id == int64_type || a.type_id == timestamp_type || a.type_id == datetime_type
    then cmp (signed64 a.bits) (signed64 b.bits)
    else if a.type_id == float_type
    then compare_float a.bits b.bits
    else if a.type_id == double_type
    then compare_double a.bits b.bits
    else if a.type_id == varchar_type
    then lex a.string_val b.string_val
    else same

-- The bytes of a fixed-size value after its type byte, or 0 for a type that has none.
unfoldable pub fixed_size : ℕ → ℕ
fixed_size type =
    if type == bool_type
    then 1
    else if type == int32_type || type == float_type
    then 4
    else if type == int64_type
        || type == double_type
        || type == timestamp_type
        || type == datetime_type
    then 8
    else 0

-- Value::serialize: the bytes that it writes.
unfoldable pub serialize : Value → List ℕ
serialize v =
    v.type_id
    ∷ (if v.type_id == varchar_type
        then to_bytes 4 (length v.string_val) ++ v.string_val
        else if v.type_id == bool_type
        then (if v.bits == 0 then 0 else 1) ∷ []
        else to_bytes (fixed_size v.type_id) v.bits)

-- Value::deserialize, `none` where it reads past the bytes.
unfoldable pub deserialize : List ℕ → Option Value
deserialize [] = none
deserialize (type ∷ bs) =
    if type == varchar_type
    then elim (split 4 bs) [
      | none ↦ none
      | some (len, rest) ↦ elim (split (of_bytes len) rest) [
        | none ↦ none
        | some (s, _) ↦ some (string_value s)
      ]
    ]
    else if fixed_size type == 0
    then some null_value
    else elim (split (fixed_size type) bs) [
      | none ↦ none
      | some (b, _) ↦ some (
          number_value type
            (if type == bool_type then (if of_bytes b == 1 then 1 else 0) else of_bytes b))
    ]

-- Value::serialized_size, in 32 bits.
unfoldable pub serialized_size : Value → ℕ
serialized_size v =
    if v.type_id == varchar_type
    then (1 + 4 + length v.string_val) % 4294967296
    else 1 + fixed_size v.type_id
