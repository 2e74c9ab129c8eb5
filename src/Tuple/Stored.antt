-- ===== src/Tuple/Stored.antt =====
-- The values and the header of a row come back from their bytes (record/tuple.cpp).
use mathlib.Core.List.{append_assoc}
use minidb.Prelude.{
  ℕ, zero, suc, ◌+◌, ◌-◌, ◌<◌, ◌≡◌, refl, sym, ap, subst, ◌∙◌, inl, inr, true, false, List, [], ◌∷◌,
  ◌++◌, some, arith, ltb, ◌==◌, if◌then◌else◌, length, take, map, All, Bool-cases,
}
use minidb.Prelude.Bytes.{
  to_bytes, of_bytes, split, InBytes, InBytes-2, InBytes-4, InBytes-8, of_bytes-to_bytes,
  length-to_bytes, split-append,
}
use minidb.Value
use minidb.Value.{
  Value, null_value, number_value, string_value, is_null, fixed_size, bool_type, varchar_type,
  null_type,
}
use minidb.Value.Stored.{IsValue, a_null, a_bool, a_word, a_long, a_string, fixed_sizes}
use minidb.Tuple.{read_value, read_columns, read_header, is_null_at, serialize_values}
use minidb.Tuple.Bitmap.{flag_at}

number-RoundTrip :
    (t n x : ℕ) (rest : List ℕ)
    → fixed_size t ≡ n
    → 1 < n
    → InBytes n x
    → read_value (Value.serialize (number_value t x) ++ rest) ≡ some (number_value t x, rest)
number-RoundTrip t n x rest e l h =
    let (v, b) = fixed_sizes t n e l in
    let known : (t == null_type) ≡ false = unfold fixed_size in ground (arith, e, l) in
    let some' : (n == 0) ≡ false = ground (arith, l) in
    let cut = split-append n (to_bytes n x) rest (length-to_bytes n x) in
    let back = of_bytes-to_bytes n x h in
    unfold Value.serialize read_value in ground (arith, e, v, b, known, some', cut, back)

bool-RoundTrip :
    (b : ℕ) (rest : List ℕ)
    → b < 2
    → read_value (Value.serialize (number_value bool_type b) ++ rest)
      ≡ some (number_value bool_type b, rest)
unfolding Value.serialize read_value fixed_size split of_bytes
bool-RoundTrip zero rest h = refl
bool-RoundTrip (suc zero) rest h = refl
bool-RoundTrip (suc (suc b)) rest h = absurd (omega arith)

string-RoundTrip :
    (s rest : List ℕ)
    → length s < 4294967296
    → read_value (Value.serialize (string_value s) ++ rest) ≡ some (string_value s, rest)
unfolding Value.serialize read_value
string-RoundTrip s rest h =
    let len = to_bytes 4 (length s) in
    let assoc = append_assoc len s rest in
    let cut = split-append 4 len (s ++ rest) (length-to_bytes 4 (length s)) in
    let back = of_bytes-to_bytes 4 (length s) (InBytes-4 (length s) h) in
    let whole = split-append (length s) s rest refl in ground (arith, assoc, cut, back, whole)

read_value-serialize :
    (v : Value) (rest : List ℕ)
    → IsValue v
    → is_null v ≡ false
    → read_value (Value.serialize v ++ rest) ≡ some (v, rest)
read_value-serialize v rest a_null f = cc
read_value-serialize v rest (a_bool b h) f = bool-RoundTrip b rest h
read_value-serialize v rest (a_word t x e h) f =
    number-RoundTrip t 4 x rest e (omega arith) (InBytes-4 x h)
read_value-serialize v rest (a_long t x e h) f =
    number-RoundTrip t 8 x rest e (omega arith) (InBytes-8 x h)
read_value-serialize v rest (a_string s h) f = string-RoundTrip s rest h

only_null : (v : Value) → IsValue v → is_null v ≡ true → v ≡ null_value
only_null v a_null f = refl
only_null v (a_bool b h) f = cc
only_null v (a_word t x e h) f = absurd (unfold fixed_size in ground (arith, e, f))
only_null v (a_long t x e h) f = absurd (unfold fixed_size in ground (arith, e, f))
only_null v (a_string s h) f = cc

-- From column `i` on the bitmap says which values are NULL.
unfoldable pub AreFlags : List ℕ → ℕ → List Value → Type 0
AreFlags bitmap i [] = Unit
AreFlags bitmap i (v ∷ vs) = (is_null_at bitmap i ≡ is_null v) × AreFlags bitmap (suc i) vs

pub of_flags :
    (bitmap : List ℕ) (i : ℕ) (vs : List Value)
    → ((k : ℕ) → k < length vs → is_null_at bitmap (i + k) ≡ flag_at (map is_null vs) k)
    → AreFlags bitmap i vs
unfolding AreFlags
of_flags bitmap i [] f = tt
of_flags bitmap i (v ∷ vs) f =
    let first : is_null_at bitmap (i + 0) ≡ is_null v = f 0 (omega arith) in
    let start : i + 0 ≡ i = omega arith in
    (
      subst (λ j. is_null_at bitmap j ≡ is_null v) start first,
      of_flags bitmap (suc i) vs (λ k l.
          let next : i + suc k ≡ suc i + k = omega arith in
          subst (λ j. is_null_at bitmap j ≡ flag_at (map is_null vs) k) next
            (f (suc k) (omega arith))),
    )

take-next :
    (count i : ℕ) (v : Value) (vs : List Value)
    → take (count - i) (v ∷ vs)
      ≡ (if ltb i count then v ∷ take (count - suc i) vs else take (count - suc i) vs)
take-next count i v vs = elim (Bool-cases (ltb i count)) [
  | inl more' ↦
      let n : suc (count - suc i) ≡ count - i = ground (arith, more') in
      rw more' (subst (λ m. take m (v ∷ vs) ≡ v ∷ take (count - suc i) vs) n refl)
  | inr past ↦
      let n : 0 ≡ count - i = ground (arith, past) in
      let m : 0 ≡ count - suc i = ground (arith, past) in
      rw past (
        subst (λ a. take a (v ∷ vs) ≡ take (count - suc i) vs) n
          (subst (λ b. [] ≡ take b vs) m refl))
]

take-empty : (n : ℕ) (vs : List Value) → length vs ≡ 0 → take n vs ≡ []
take-empty zero [] e = refl
take-empty (suc n) [] e = refl
take-empty zero (v ∷ vs) e = refl
take-empty (suc n) (v ∷ vs) e = absurd (omega arith)

read_columns-step :
    (count : ℕ) (bitmap bs behind : List ℕ) (i n : ℕ) (v : Value) (ws : List Value)
    → (if is_null_at bitmap i then some (null_value, bs) else read_value bs) ≡ some (v, behind)
    → read_columns count bitmap behind (suc i) n ≡ some ws
    → read_columns count bitmap bs i (suc n) ≡ some (if ltb i count then v ∷ ws else ws)
unfolding read_columns
read_columns-step count bitmap bs behind i n v ws here others = ground (arith, here, others)

first_column :
    (bitmap : List ℕ) (i : ℕ) (v : Value) (vs : List Value) (rest : List ℕ)
    → is_null_at bitmap i ≡ is_null v
    → IsValue v
    → (if is_null_at bitmap i
        then some (null_value, serialize_values (v ∷ vs) ++ rest)
        else read_value (serialize_values (v ∷ vs) ++ rest))
      ≡ some (v, serialize_values vs ++ rest)
unfolding serialize_values
first_column bitmap i v vs rest flag k = elim (Bool-cases (is_null v)) [
  | inl yes' ↦
      let same = only_null v k yes' in
      let set' : is_null_at bitmap i ≡ true = flag ∙ yes' in
      rw (set', yes') (ap (λ u. some (u, serialize_values vs ++ rest)) (sym same))
  | inr no' ↦
      let clear' : is_null_at bitmap i ≡ false = flag ∙ no' in
      rw (clear', no')
        (ap read_value (append_assoc (Value.serialize v) (serialize_values vs) rest)
          ∙ read_value-serialize v (serialize_values vs ++ rest) k no')
]

-- The values come back, without those past the schema.
pub read_columns-serialize_values :
    (count : ℕ) (bitmap : List ℕ) (i : ℕ) (vs : List Value) (rest : List ℕ)
    → AreFlags bitmap i vs
    → All IsValue vs
    → read_columns count bitmap (serialize_values vs ++ rest) i (length vs)
      ≡ some (take (count - i) vs)
unfolding AreFlags
read_columns-serialize_values count bitmap i [] rest f k =
    unfold read_columns in ap (λ l. some l) (sym (take-empty (count - i) [] refl))
read_columns-serialize_values count bitmap i (v ∷ vs) rest f k =
    let next = read_columns-serialize_values count bitmap (suc i) vs rest f.1 k.1 in
    read_columns-step count bitmap (serialize_values (v ∷ vs) ++ rest) (serialize_values vs ++ rest)
      i (length vs) v (take (count - suc i) vs) (first_column bitmap i v vs rest f.0 k.0) next
    ∙ ap (λ l. some l) (sym (take-next count i v vs))

-- The fields of the header, and all that stands behind them.
pub read_header-to_bytes :
    (xmin xmax page slot n : ℕ) (body : List ℕ)
    → xmin < 18446744073709551616
    → xmax < 18446744073709551616
    → page < 18446744073709551616
    → slot < 65536
    → n < 4294967296
    → read_header (
        to_bytes 8 xmin
        ++ (to_bytes 8 xmax ++ (to_bytes 8 page ++ (to_bytes 2 slot ++ (to_bytes 4 n ++ body)))))
      ≡ some (record {
        xmin = xmin;
        xmax = xmax;
        next_ver_page = page;
        next_ver_slot = slot;
        num_cols = n;
        behind = body;
      })
unfolding read_header
read_header-to_bytes xmin xmax page slot n body h1 h2 h3 h4 h5 =
    let b5 = to_bytes 4 n ++ body in
    let b4 = to_bytes 2 slot ++ b5 in
    let b3 = to_bytes 8 page ++ b4 in
    let b2 = to_bytes 8 xmax ++ b3 in
    let s1 = split-append 8 (to_bytes 8 xmin) b2 (length-to_bytes 8 xmin) in
    let s2 = split-append 8 (to_bytes 8 xmax) b3 (length-to_bytes 8 xmax) in
    let s3 = split-append 8 (to_bytes 8 page) b4 (length-to_bytes 8 page) in
    let s4 = split-append 2 (to_bytes 2 slot) b5 (length-to_bytes 2 slot) in
    let s5 = split-append 4 (to_bytes 4 n) body (length-to_bytes 4 n) in
    let f1 = of_bytes-to_bytes 8 xmin (InBytes-8 xmin h1) in
    let f2 = of_bytes-to_bytes 8 xmax (InBytes-8 xmax h2) in
    let f3 = of_bytes-to_bytes 8 page (InBytes-8 page h3) in
    let f4 = of_bytes-to_bytes 2 slot (InBytes-2 slot h4) in
    let f5 = of_bytes-to_bytes 4 n (InBytes-4 n h5) in
    ground (arith, s1, s2, s3, s4, s5, f1, f2, f3, f4, f5)
