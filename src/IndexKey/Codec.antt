-- ===== src/IndexKey/Codec.antt =====
-- The bytes of an index key (index/index_key.cpp, `encode` and `decode`).
use mathlib.Core.List.{append_assoc}
use minidb.Prelude.{
  ℕ, zero, suc, ◌+◌, ◌-◌, ◌%◌, ◌≤◌, ◌<◌, ◌≡◌, refl, ap, sym, ◌∙◌, inl, inr, true, ◌&&◌, List, [],
  ◌∷◌, ◌++◌, some, arith, leb, ◌==◌, if◌then◌else◌, Bool-cases, length, length-append, take, All,
}
use minidb.Prelude.Bytes.{
  to_bytes, of_bytes, split, InBytes, InBytes-2, InBytes-4, InBytes-8, of_bytes-to_bytes,
  length-to_bytes, split-append,
}
use minidb.Value.{Value, number_value, string_value, fixed_size, bool_type, varchar_type}
use minidb.Value.Stored.{IsValue, a_null, a_bool, a_word, a_long, a_string, fixed_sizes}
use minidb.IndexKey.{
  value_size, values_size, encoded_size, fits, index_key_magic, encode_value, encode_values, zeroed,
  encode, decode_value, decode_values, decode,
}

-- A value comes back with the bytes that follow it.
record Returns (v : Value) (rest : List ℕ) : Type 0 where
  type : ℕ
  bs : List ℕ
  starts : encode_value v ++ rest ≡ type ∷ bs
  returns : decode_value type bs ≡ some (v, rest)

number-Returns :
    (t n x : ℕ) (rest : List ℕ)
    → fixed_size t ≡ n
    → 1 < n
    → InBytes n x
    → Returns (number_value t x) rest
number-Returns t n x rest e l h =
    let (v, b) = fixed_sizes t n e l in
    let cut = split-append n (to_bytes n x) rest (length-to_bytes n x) in
    let back = of_bytes-to_bytes n x h in
    record {
      type = t;
      bs = to_bytes n x ++ rest;
      starts = unfold encode_value in ground arith;
      returns = unfold decode_value in ground (arith, cut, back);
    }

string-Returns : (s rest : List ℕ) → length s < 65536 → Returns (string_value s) rest
string-Returns s rest small =
    let len = to_bytes 2 (length s) in
    let cut = split-append 2 len (s ++ rest) (length-to_bytes 2 (length s)) in
    let back = of_bytes-to_bytes 2 (length s) (InBytes-2 (length s) small) in
    let whole = split-append (length s) s rest refl in
    record {
      type = varchar_type;
      bs = len ++ (s ++ rest);
      starts = unfold encode_value in ap (λ l. varchar_type ∷ l) (append_assoc len s rest);
      returns = unfold decode_value in ground (arith, cut, back, whole);
    }

string_small : (s : List ℕ) → value_size (string_value s) < 65536 → length s < 65536
unfolding value_size
string_small s h = omega arith

value-Returns : (v : Value) (rest : List ℕ) → IsValue v → value_size v < 65536 → Returns v rest
value-Returns v rest a_null small = record {
  type = 255;
  bs = rest;
  starts = unfold encode_value fixed_size to_bytes in refl;
  returns = unfold decode_value fixed_size in refl;
}
value-Returns v rest (a_bool b h) small = record {
  type = bool_type;
  bs = (if b == 0 then 0 else 1) ∷ rest;
  starts = unfold encode_value in refl;
  returns = unfold decode_value fixed_size split of_bytes in ground arith;
}
value-Returns v rest (a_word t x e h) small =
    number-Returns t 4 x rest e (omega arith) (InBytes-4 x h)
value-Returns v rest (a_long t x e h) small =
    number-Returns t 8 x rest e (omega arith) (InBytes-8 x h)
value-Returns v rest (a_string s h) small = string-Returns s rest (string_small s small)

fixed_size_bool : (t : ℕ) → (t == bool_type) ≡ true → fixed_size t ≡ 1
unfolding fixed_size
fixed_size_bool t e = ground arith

length-encode_value : (v : Value) → length (encode_value v) ≡ value_size v
unfolding encode_value value_size
length-encode_value v =
    let two = length-to_bytes 2 (length v.string_val) in
    let both = length-append (to_bytes 2 (length v.string_val)) v.string_val in
    let fixed = length-to_bytes (fixed_size v.type_id) v.bits in
    let one = fixed_size_bool v.type_id in
    elim (Bool-cases (v.type_id == varchar_type)) [
      | inl e ↦ rw e (omega (arith, two, both))
      | inr n ↦ elim (Bool-cases (v.type_id == bool_type)) [
        | inl e ↦ rw (n, e) (omega (arith, one e))
        | inr m ↦ rw (n, m) (omega (arith, fixed))
      ]
    ]

pub length-encode_values : (k : List Value) → length (encode_values k) ≡ values_size k
unfolding encode_values values_size
length-encode_values [] = refl
length-encode_values (v ∷ vs) = omega (
  arith,
  length-append (encode_value v) (encode_values vs),
  length-encode_value v,
  length-encode_values vs,
)

decode_values-encode_values :
    (k : List Value)
    → All IsValue k
    → values_size k < 65536
    → decode_values (length k) (encode_values k) ≡ some k
unfolding decode_values encode_values values_size
decode_values-encode_values [] h small = refl
decode_values-encode_values (v ∷ vs) h small =
    let r = value-Returns v (encode_values vs) h.0 (omega arith) in
    let rest = decode_values-encode_values vs h.1 (omega arith) in
    step r.type r.bs r.starts r.returns rest
  where
    step :
        (type : ℕ) (bs : List ℕ)
        → encode_value v ++ encode_values vs ≡ type ∷ bs
        → decode_value type bs ≡ some (v, encode_values vs)
        → decode_values (length vs) (encode_values vs) ≡ some vs
        → decode_values (suc (length vs)) (encode_value v ++ encode_values vs) ≡ some (v ∷ vs)
    step type bs e f g = rw e (ground (arith, f, g))

pub take-length : (xs ys : List ℕ) → take (length xs) (xs ++ ys) ≡ xs
take-length [] ys = elim ys as (λ l. take 0 l ≡ []) [ [] ↦ refl | y ∷ r ↦ refl ]
take-length (x ∷ xs) ys = ap (λ l. x ∷ l) (take-length xs ys)

length-zeroed :
    (actual : ℕ) (slot : List ℕ)
    → actual ≤ length slot
    → actual + length (zeroed actual slot) ≡ length slot
length-zeroed zero [] h = refl
length-zeroed zero (x ∷ xs) h = ground arith
length-zeroed (suc n) [] h = absurd (omega arith)
length-zeroed (suc n) (x ∷ xs) h = let rest = length-zeroed n xs (omega arith) in ground arith

module _ (k : List Value) (ks : All IsValue k) where
  unfoldable pub header : List ℕ → List ℕ
  header tail =
      to_bytes 2 index_key_magic
      ++ (to_bytes 2 (length k) ++ (to_bytes 2 (values_size k) ++ (encode_values k ++ tail)))

  pub length-header : (tail : List ℕ) → length (header tail) ≡ 6 + values_size k + length tail
  unfolding header
  length-header tail =
      let body = encode_values k ++ tail in
      let pay = to_bytes 2 (values_size k) in
      let count = to_bytes 2 (length k) in
      omega (
        arith,
        length-append (to_bytes 2 index_key_magic) (count ++ (pay ++ body)),
        length-append count (pay ++ body),
        length-append pay body,
        length-append (encode_values k) tail,
        length-encode_values k,
        length-to_bytes 2 index_key_magic,
        length-to_bytes 2 (length k),
        length-to_bytes 2 (values_size k),
      )

  pub decode-header :
      (tail : List ℕ) → values_size k < 65530 → length k < 65536 → decode (header tail) ≡ k
  unfolding decode
  decode-header tail small few =
      let body = encode_values k ++ tail in
      let pay = to_bytes 2 (values_size k) in
      let count = to_bytes 2 (length k) in
      let magic = to_bytes 2 index_key_magic in
      let s1 : split 2 (header tail) ≡ some (magic, count ++ (pay ++ body)) =
        unfold header in
        split-append 2 magic (count ++ (pay ++ body)) (length-to_bytes 2 index_key_magic) in
      let s2 = split-append 2 count (pay ++ body) (length-to_bytes 2 (length k)) in
      let s3 = split-append 2 pay body (length-to_bytes 2 (values_size k)) in
      let b1 = of_bytes-to_bytes 2 index_key_magic (InBytes-2 index_key_magic (omega arith)) in
      let b2 = of_bytes-to_bytes 2 (length k) (InBytes-2 (length k) few) in
      let b3 = of_bytes-to_bytes 2 (values_size k) (InBytes-2 (values_size k) (omega arith)) in
      let cut : take (values_size k) body ≡ encode_values k =
        ap (λ n. take n body) (sym (length-encode_values k)) ∙ take-length (encode_values k) tail in
      let all = decode_values-encode_values k ks (omega arith) in
      let long = length-header tail in ground (arith, s1, s2, s3, b1, b2, b3, cut, all, long)

pub encode-header :
    (k : List Value) (ks : All IsValue k) (slot : List ℕ)
    → length k ≤ 255
    → 6 + values_size k ≤ length slot
    → length slot < 65536
    → encode k slot ≡ some (header k ks (zeroed (6 + values_size k) slot))
unfolding encode fits encoded_size header
encode-header k ks slot few small short =
    let exact : (6 + values_size k) % 4294967296 ≡ 6 + values_size k = omega arith in
    let pay : 6 + values_size k - 6 ≡ values_size k = omega arith in
    let roomy : (leb (6 + values_size k) (length slot) && leb (length k) 255) ≡ true =
      ground arith in
    rw (exact, roomy, pay) refl

-- A key of at most 255 values that fits a slot shorter than 2^16 bytes is encoded into it, whatever the
-- slot held, the slot keeps its length, and the key comes back from it.
pub decode-encode :
    (k : List Value) (slot : List ℕ)
    → All IsValue k
    → length k ≤ 255
    → 6 + values_size k ≤ length slot
    → length slot < 65536
    → (out : List ℕ) × (encode k slot ≡ some out) × (decode out ≡ k) × (length out ≡ length slot)
decode-encode k slot ks few small short = (
  header k ks (zeroed (6 + values_size k) slot),
  encode-header k ks slot few small short,
  decode-header k ks (zeroed (6 + values_size k) slot) (omega arith) (omega arith),
  length-header k ks (zeroed (6 + values_size k) slot)
      ∙ length-zeroed (6 + values_size k) slot small,
)
