-- ===== src/Value/Stored.antt =====
-- The bytes of a value in a tuple (record/value.cpp, `serialize` and `deserialize`).
use mathlib.Core.List.{append_assoc}
use minidb.Prelude.{
  ◌%◌, ℕ, ◌<◌, ◌≡◌, refl, false, List, ◌++◌, some, arith, ◌==◌, length, length-append,
}
use minidb.Prelude.Bytes.{
  to_bytes, of_bytes, split, InBytes, InBytes-4, InBytes-8, of_bytes-to_bytes, length-to_bytes,
  split-append,
}
use minidb.Value.{
  Value, number_value, string_value, null_value, serialize, deserialize, serialized_size,
  fixed_size, bool_type, varchar_type,
}

-- The values that the constructors of Value make, in the ranges of their C++ types.
pub data IsValue : Value → Type 0 where
  a_null : IsValue null_value
  a_bool : (b : ℕ) → b < 2 → IsValue (number_value bool_type b)
  a_word : (t x : ℕ) → fixed_size t ≡ 4 → x < 4294967296 → IsValue (number_value t x)
  a_long : (t x : ℕ) → fixed_size t ≡ 8 → x < 18446744073709551616 → IsValue (number_value t x)
  a_string : (s : List ℕ) → length s < 4294967296 → IsValue (string_value s)

pub fixed_sizes :
    (t n : ℕ)
    → fixed_size t ≡ n
    → 1 < n
    → ((t == varchar_type) ≡ false) × ((t == bool_type) ≡ false)
unfolding fixed_size
fixed_sizes t n e l = ground arith

size :
    (t n x : ℕ)
    → fixed_size t ≡ n
    → 1 < n
    → n < 9
    → serialized_size (number_value t x) ≡ length (serialize (number_value t x)) % 4294967296
unfolding serialize serialized_size
size t n x e l few =
    let (v, b) = fixed_sizes t n e l in ground (arith, length-to_bytes (fixed_size t) x, few)

number-RoundTrip :
    (t n x : ℕ) (rest : List ℕ)
    → fixed_size t ≡ n
    → 1 < n
    → InBytes n x
    → deserialize (serialize (number_value t x) ++ rest) ≡ some (number_value t x)
number-RoundTrip t n x rest e l h =
    let (v, b) = fixed_sizes t n e l in
    let cut = split-append n (to_bytes n x) rest (length-to_bytes n x) in
    let back = of_bytes-to_bytes n x h in unfold serialize deserialize in ground (arith, cut, back)

bool-RoundTrip :
    (b : ℕ) (rest : List ℕ)
    → b < 2
    → deserialize (serialize (number_value bool_type b) ++ rest) ≡ some (number_value bool_type b)
unfolding serialize deserialize fixed_size split of_bytes
bool-RoundTrip b rest h = ground arith

string-RoundTrip :
    (s rest : List ℕ)
    → length s < 4294967296
    → deserialize (serialize (string_value s) ++ rest) ≡ some (string_value s)
unfolding serialize deserialize
string-RoundTrip s rest h =
    let len = to_bytes 4 (length s) in
    let assoc = append_assoc len s rest in
    let cut = split-append 4 len (s ++ rest) (length-to_bytes 4 (length s)) in
    let back = of_bytes-to_bytes 4 (length s) (InBytes-4 (length s) h) in
    let whole = split-append (length s) s rest refl in ground (arith, assoc, cut, back, whole)

-- Every value comes back from its bytes, whatever follows them, and serialized_size is their number in
-- 32 bits.
pub deserialize-serialize :
    (v : Value) (rest : List ℕ)
    → IsValue v
    → (deserialize (serialize v ++ rest) ≡ some v)
      × (serialized_size v ≡ length (serialize v) % 4294967296)
deserialize-serialize v rest a_null =
    unfold serialize deserialize serialized_size fixed_size to_bytes in (refl, refl)
deserialize-serialize v rest (a_bool b h) =
    (bool-RoundTrip b rest h, unfold serialize serialized_size fixed_size in refl)
deserialize-serialize v rest (a_word t x e h) = (
  number-RoundTrip t 4 x rest e (omega arith) (InBytes-4 x h),
  size t 4 x e (omega arith) (omega arith),
)
deserialize-serialize v rest (a_long t x e h) = (
  number-RoundTrip t 8 x rest e (omega arith) (InBytes-8 x h),
  size t 8 x e (omega arith) (omega arith),
)
deserialize-serialize v rest (a_string s h) = (
  string-RoundTrip s rest h,
  unfold serialize serialized_size in
      omega (arith, length-append (to_bytes 4 (length s)) s, length-to_bytes 4 (length s)),
)
