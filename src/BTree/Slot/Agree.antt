-- ===== src/BTree/Slot/Agree.antt =====
-- The comparison of a key with an encoded slot (index/btree.cpp) against IndexKey::compare.
use minidb.Prelude.{
  ℕ, suc, ◌+◌, ◌*◌, ◌<◌, ◌≡◌, refl, sym, subst, ◌∙◌, ◌⊎◌, inl, inr, true, false, List, [], ◌∷◌,
  ◌++◌, Option, none, some, arith, ◌==◌, ==_iff, if◌then◌else◌, length, min, All, Bool-cases,
}
use minidb.Prelude.Bytes.{
  of_bytes, to_bytes, split, InBytes, InBytes-4, InBytes-8, of_bytes-to_bytes, length-to_bytes,
  split-append,
}
use minidb.Prelude.Order.{Order, less, same, more, cmp, then_by}
use minidb.Value
use minidb.Value.{
  Value, number_value, string_value, null_value, bool_type, int32_type, int64_type, float_type,
  double_type, varchar_type, timestamp_type, datetime_type, null_type, is_null, fixed_size,
}
use minidb.Value.Stored.{IsValue, a_null, a_bool, a_word, a_long, a_string, fixed_sizes}
use minidb.IndexKey
use minidb.IndexKey.{encode_value, encode_values, values_size, value_size}
use minidb.BTree.Slot.{compare_bits, compare_slot_value, compare_slot_values}

-- The comparison of the numbers of one type is that of the values.
abbrev Agrees : ℕ → Type 0
Agrees t =
    (x y : ℕ) (s u : List ℕ)
    → compare_bits t x y
      ≡ Value.compare (record { type_id = t; bits = x; string_val = s })
          (record { type_id = t; bits = y; string_val = u })

literal_Agrees :
    Agrees int32_type
    × Agrees int64_type
    × Agrees float_type
    × Agrees double_type
    × Agrees timestamp_type
    × Agrees datetime_type
unfolding Value.compare compare_bits
literal_Agrees = (
  λ x y s u. refl,
  λ x y s u. refl,
  λ x y s u. refl,
  λ x y s u. refl,
  λ x y s u. refl,
  λ x y s u. refl,
)

fixed_cases :
    (t : ℕ)
    → 1 < fixed_size t
    → (t ≡ int32_type)
      ⊎ (t ≡ int64_type)
      ⊎ (t ≡ float_type)
      ⊎ (t ≡ double_type)
      ⊎ (t ≡ timestamp_type)
      ⊎ (t ≡ datetime_type)
unfolding fixed_size
fixed_cases t l = ground arith

fixed_Agrees : (t : ℕ) → 1 < fixed_size t → Agrees t
fixed_Agrees t l = elim (fixed_cases t l) [
  | inl e ↦ subst Agrees (sym e) literal_Agrees.0
  | inr (inl e) ↦ subst Agrees (sym e) literal_Agrees.1
  | inr (inr (inl e)) ↦ subst Agrees (sym e) literal_Agrees.2
  | inr (inr (inr (inl e))) ↦ subst Agrees (sym e) literal_Agrees.3
  | inr (inr (inr (inr (inl e)))) ↦ subst Agrees (sym e) literal_Agrees.4
  | inr (inr (inr (inr (inr e)))) ↦ subst Agrees (sym e) literal_Agrees.5
]

-- The round of a stored value: it finds no answer, or the order of the values, with the bytes that
-- follow the value where that is `same`.
pub record Round (v u : Value) (rest : List ℕ) : Type 0 where
  type : ℕ
  bs : List ℕ
  starts : encode_value v ++ rest ≡ type ∷ bs
  finds :
      (compare_slot_value type bs u ≡ none)
      ⊎ ((o : Order) × (after : List ℕ) × (compare_slot_value type bs u ≡ some (o, after))
          × (o ≡ Value.compare v u)
          × (o ≡ same → after ≡ rest))

-- Types that differ decide.
other_type :
    (v u : Value) (rest bs : List ℕ)
    → encode_value v ++ rest ≡ v.type_id ∷ bs
    → (v.type_id == u.type_id) ≡ false
    → Round v u rest
other_type v u rest bs e n = record {
  type = v.type_id;
  bs = bs;
  starts = e;
  finds = inr (
    cmp v.type_id u.type_id,
    bs,
    unfold compare_slot_value in rw n refl,
    unfold Value.compare in rw n refl,
    λ q. absurd (ground (arith, n, q)),
  );
}

not_null : (t : ℕ) → 1 < fixed_size t → ((t == null_type) ≡ false) × ((fixed_size t == 0) ≡ false)
not_null t l = (ground (arith, null_size), ground arith)
  where
    null_size : fixed_size null_type ≡ 0
    null_size = unfold fixed_size in refl

found :
    (t n x : ℕ) (u : Value) (rest : List ℕ)
    → (t == u.type_id) ≡ true
    → (t == null_type) ≡ false
    → (fixed_size t == 0) ≡ false
    → fixed_size t ≡ n
    → split n (to_bytes n x ++ rest) ≡ some (to_bytes n x, rest)
    → of_bytes (to_bytes n x) ≡ x
    → compare_slot_value t (to_bytes n x ++ rest) u ≡ some (compare_bits t x u.bits, rest)
unfolding compare_slot_value
found t n x u rest k nz fz e cut back = rw (k, nz, fz, e, cut, back) refl

number-Round :
    (t n x : ℕ) (u : Value) (rest : List ℕ)
    → fixed_size t ≡ n
    → 1 < n
    → InBytes n x
    → Round (number_value t x) u rest
number-Round t n x u rest e l h =
    let (v, b) = fixed_sizes t n e l in
    let bs = to_bytes n x ++ rest in
    let starts : encode_value (number_value t x) ++ rest ≡ t ∷ bs =
      unfold encode_value in ground arith in
    elim (Bool-cases (t == u.type_id)) [
      | inr m ↦ other_type (number_value t x) u rest bs starts m
      | inl k ↦
          let kind : t ≡ u.type_id = (==_iff t u.type_id).0 k in
          let (nz, fz) = not_null t (omega (arith, e, l)) in
          let cut = split-append n (to_bytes n x) rest (length-to_bytes n x) in
          let back = of_bytes-to_bytes n x h in
          let agree = fixed_Agrees t (omega (arith, e, l)) x u.bits [] u.string_val in
          let moved =
            subst
              (λ k.
                compare_bits t x u.bits
                ≡ Value.compare (number_value t x)
                    (record { type_id = k; bits = u.bits; string_val = u.string_val }))
              kind agree in
          record {
            type = t;
            bs = bs;
            starts = starts;
            finds = inr (
              compare_bits t x u.bits,
              rest,
              found t n x u rest k nz fz e cut back,
              moved,
              λ q. refl,
            );
          }
    ]

bool_found :
    (x : ℕ) (u : Value) (rest : List ℕ)
    → (bool_type == u.type_id) ≡ true
    → compare_slot_value bool_type (x ∷ rest) u ≡ some (compare_bits bool_type x u.bits, rest)
unfolding compare_slot_value fixed_size split of_bytes
bool_found x u rest k = let one : x + 256 * 0 ≡ x = omega arith in rw (k, one) refl

bool_order :
    (b : ℕ) (u : Value)
    → b < 2
    → (bool_type == u.type_id) ≡ true
    → compare_bits bool_type (if b == 0 then 0 else 1) u.bits
      ≡ Value.compare (number_value bool_type b) u
unfolding compare_bits Value.compare
bool_order b u h k = rw k (ground arith)

bool-Round : (b : ℕ) (u : Value) (rest : List ℕ) → b < 2 → Round (number_value bool_type b) u rest
bool-Round b u rest h =
    let x : ℕ = if b == 0 then 0 else 1 in
    let starts : encode_value (number_value bool_type b) ++ rest ≡ bool_type ∷ (x ∷ rest) =
      unfold encode_value in refl in
    elim (Bool-cases (bool_type == u.type_id)) [
      | inr m ↦ other_type (number_value bool_type b) u rest (x ∷ rest) starts m
      | inl k ↦ record {
        type = bool_type;
        bs = x ∷ rest;
        starts = starts;
        finds = inr (
          compare_bits bool_type x u.bits,
          rest,
          bool_found x u rest k,
          bool_order b u h k,
          λ q. refl,
        );
      }
    ]

string-Round : (s : List ℕ) (u : Value) (rest : List ℕ) → Round (string_value s) u rest
string-Round s u rest =
    let bs = (to_bytes 2 (length s) ++ s) ++ rest in
    let starts : encode_value (string_value s) ++ rest ≡ varchar_type ∷ bs =
      unfold encode_value in refl in
    elim (Bool-cases (varchar_type == u.type_id)) [
      | inr m ↦ other_type (string_value s) u rest bs starts m
      | inl k ↦ record {
        type = varchar_type;
        bs = bs;
        starts = starts;
        finds = inl (unfold compare_slot_value fixed_size in rw k refl);
      }
    ]

value-Round : (v u : Value) (rest : List ℕ) → IsValue v → is_null v ≡ false → Round v u rest
value-Round v u rest a_null n = cc
value-Round v u rest (a_bool b h) n = bool-Round b u rest h
value-Round v u rest (a_word t x e h) n = number-Round t 4 x u rest e (omega arith) (InBytes-4 x h)
value-Round v u rest (a_long t x e h) n = number-Round t 8 x u rest e (omega arith) (InBytes-8 x h)
value-Round v u rest (a_string s h) n = string-Round s u rest

-- No value of the key is NULL.
abbrev pub HasNoNull : List Value → Type 0
HasNoNull k = All (λ v. is_null v ≡ false) k

compare_cons :
    (v u : Value) (vs us : List Value)
    → is_null v ≡ false
    → is_null u ≡ false
    → IndexKey.compare [] (v ∷ vs) (u ∷ us)
      ≡ then_by (Value.compare v u) (IndexKey.compare [] vs us)
unfolding IndexKey.compare IndexKey.compare_value_with_null_order
compare_cons v u vs us n m = rw (n, m) refl

step :
    (n type : ℕ) (bs after : List ℕ) (u : Value) (us : List Value) (ends o : Order)
    → compare_slot_value type bs u ≡ some (o, after)
    → compare_slot_values (suc n) (type ∷ bs) (u ∷ us) ends
      ≡ elim o [ less ↦ some less | more ↦ some more | same ↦ compare_slot_values n after us ends ]
unfolding compare_slot_values
step n type bs after u us ends less e = ground (arith, e)
step n type bs after u us ends same e = ground (arith, e)
step n type bs after u us ends more e = ground (arith, e)

-- No answer, or this one.
abbrev pub Found : Option Order → Order → Type 0
Found x c = (x ≡ none) ⊎ (x ≡ some c)

none_step :
    (n type : ℕ) (bs : List ℕ) (u : Value) (us : List Value) (ends : Order)
    → compare_slot_value type bs u ≡ none
    → compare_slot_values (suc n) (type ∷ bs) (u ∷ us) ends ≡ none
unfolding compare_slot_values
none_step n type bs u us ends e = ground (arith, e)

Found-step :
    (n type : ℕ) (bs after : List ℕ) (u : Value) (us : List Value) (ends o q : Order)
    → compare_slot_value type bs u ≡ some (o, after)
    → (o ≡ same → Found (compare_slot_values n after us ends) q)
    → Found (compare_slot_values (suc n) (type ∷ bs) (u ∷ us) ends) (then_by o q)
Found-step n type bs after u us ends less q e h = inr (step n type bs after u us ends less e)
Found-step n type bs after u us ends more q e h = inr (step n type bs after u us ends more e)
Found-step n type bs after u us ends same q e h = elim (h refl) [
  | inl f ↦ inl (step n type bs after u us ends same e ∙ f)
  | inr f ↦ inr (step n type bs after u us ends same e ∙ f)
]

-- The loop over an encoded key finds no answer or the order of the keys.
pub values_agree :
    (k w : List Value)
    → All IsValue k
    → HasNoNull k
    → HasNoNull w
    → Found
        (compare_slot_values
          (min (length k) (length w))
          (encode_values k)
          w
          (cmp (length k) (length w)))
        (IndexKey.compare [] k w)
values_agree [] [] h n m = inr (unfold compare_slot_values IndexKey.compare in ground arith)
values_agree [] (u ∷ us) h n m = inr (unfold compare_slot_values IndexKey.compare in ground arith)
values_agree (v ∷ vs) [] h n m = inr (unfold compare_slot_values IndexKey.compare in ground arith)
values_agree (v ∷ vs) (u ∷ us) h n m =
    let r = value-Round v u (encode_values vs) h.0 n.0 in
    let rest = values_agree vs us h.1 n.1 m.1 in
    let few = min (length vs) (length us) in
    let last = cmp (length vs) (length us) in
    let ends : cmp (length (v ∷ vs)) (length (u ∷ us)) ≡ last = ground arith in
    let count : min (length (v ∷ vs)) (length (u ∷ us)) ≡ suc few = ground arith in
    let bytes : encode_values (v ∷ vs) ≡ r.type ∷ r.bs = unfold encode_values in r.starts in
    let round : Found (compare_slot_values (suc few) (r.type ∷ r.bs) (u ∷ us) last)
        (then_by (Value.compare v u) (IndexKey.compare [] vs us)) =
      elim r.finds [
        | inl e ↦ inl (none_step few r.type r.bs u us last e)
        | inr (o, after, e, oe, imp) ↦
            subst
              (λ p.
                Found (compare_slot_values (suc few) (r.type ∷ r.bs) (u ∷ us) last)
                  (then_by p (IndexKey.compare [] vs us)))
              oe
              (Found-step few r.type r.bs after u us last o (IndexKey.compare [] vs us) e (λ q.
                subst (λ b. Found (compare_slot_values few b us last) (IndexKey.compare [] vs us))
                  (sym (imp q)) rest))
      ] in
    let run : compare_slot_values (min (length (v ∷ vs)) (length (u ∷ us))) (encode_values (v ∷ vs))
          (u ∷ us) (cmp (length (v ∷ vs)) (length (u ∷ us)))
        ≡ compare_slot_values (suc few) (r.type ∷ r.bs) (u ∷ us) last =
      λ i. compare_slot_values (count i) (bytes i) (u ∷ us) (ends i) in
    rw (run, compare_cons v u vs us n.0 m.0) round
