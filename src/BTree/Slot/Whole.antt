-- ===== src/BTree/Slot/Whole.antt =====
-- A whole slot of index/btree.cpp: the comparison that the tree makes at it.
use minidb.Prelude.{
  ℕ, ◌+◌, ◌≤◌, ◌<◌, ◌≡◌, refl, sym, ap, subst, ◌∙◌, inl, inr, false, List, [], ◌∷◌, ◌++◌, none,
  some, arith, ◌==◌, length, take, min, All,
}
use minidb.Prelude.Bytes.{
  to_bytes, split, InBytes-2, of_bytes-to_bytes, length-to_bytes, split-append,
}
use minidb.Prelude.Order.{less, more, cmp}
use minidb.Value.{Value, null_value, null_type, fixed_size}
use minidb.Value.Stored.{IsValue, a_null}
use minidb.IndexKey
use minidb.IndexKey.{
  encode_values, values_size, index_key_magic, encode, encode_value, value_size, zeroed,
}
use minidb.IndexKey.Codec.{
  header, length-header, decode-header, encode-header, take-length, length-encode_values,
}
use minidb.BTree.Slot.{compare_slot_values, compare_slot_key, slot_order, compare_slot_value}
use minidb.BTree.Slot.Agree.{HasNoNull, values_agree}

compare_slot_key-header :
    (k w : List Value) (ks : All IsValue k) (tail : List ℕ)
    → values_size k < 65530
    → length k < 65536
    → compare_slot_key (header k ks tail) w
      ≡ compare_slot_values
          (min (length k) (length w))
          (encode_values k)
          w
          (cmp (length k) (length w))
unfolding compare_slot_key
compare_slot_key-header k w ks tail small few =
    let body = encode_values k ++ tail in
    let pay = to_bytes 2 (values_size k) in
    let count = to_bytes 2 (length k) in
    let magic = to_bytes 2 index_key_magic in
    let s1 : split 2 (header k ks tail) ≡ some (magic, count ++ (pay ++ body)) =
      unfold header in
      split-append 2 magic (count ++ (pay ++ body)) (length-to_bytes 2 index_key_magic) in
    let s2 = split-append 2 count (pay ++ body) (length-to_bytes 2 (length k)) in
    let s3 = split-append 2 pay body (length-to_bytes 2 (values_size k)) in
    let b1 = of_bytes-to_bytes 2 index_key_magic (InBytes-2 index_key_magic (omega arith)) in
    let b2 = of_bytes-to_bytes 2 (length k) (InBytes-2 (length k) few) in
    let b3 = of_bytes-to_bytes 2 (values_size k) (InBytes-2 (values_size k) (omega arith)) in
    let cut : take (values_size k) body ≡ encode_values k =
      ap (λ n. take n body) (sym (length-encode_values k)) ∙ take-length (encode_values k) tail in
    let long = length-header k ks tail in ground (arith, s1, s2, s3, b1, b2, b3, cut, long)

-- At the slot of a key without NULLs that fits it, the comparison of the tree with another key without
-- NULLs is IndexKey::compare, whether or not the fast one finds the answer.
pub slot_order-compare :
    (k w : List Value) (slot out : List ℕ)
    → All IsValue k
    → HasNoNull k
    → HasNoNull w
    → length k ≤ 255
    → 6 + values_size k ≤ length slot
    → length slot < 65536
    → encode k slot ≡ some out
    → slot_order out w ≡ IndexKey.compare [] k w
slot_order-compare k w slot out ks n m few small short e =
    let tail = zeroed (6 + values_size k) slot in
    let made = encode-header k ks slot few small short in
    let same_out : header k ks tail ≡ out =
      ap (λ o. elim o [ none ↦ out | some y ↦ y ]) (sym made ∙ e) in
    let loop = compare_slot_key-header k w ks tail (omega arith) (omega arith) in
    let back = decode-header k ks tail (omega arith) (omega arith) in
    subst (λ o. slot_order o w ≡ IndexKey.compare [] k w) same_out (order loop back)
  where
    order :
        compare_slot_key (header k ks (zeroed (6 + values_size k) slot)) w
          ≡ compare_slot_values
              (min (length k) (length w))
              (encode_values k)
              w
              (cmp (length k) (length w))
        → IndexKey.decode (header k ks (zeroed (6 + values_size k) slot)) ≡ k
        → slot_order (header k ks (zeroed (6 + values_size k) slot)) w ≡ IndexKey.compare [] k w
    order loop back = elim (values_agree k w ks n m) [
      | inl f ↦ unfold slot_order in ground (arith, loop, back, f)
      | inr f ↦ unfold slot_order in ground (arith, loop, back, f)
    ]

null_loop :
    (v : Value)
    → v.type_id < null_type
    → compare_slot_values
        (min (length (null_value ∷ [])) (length (v ∷ [])))
        (encode_values (null_value ∷ []))
        (v ∷ [])
        (cmp (length (null_value ∷ [])) (length (v ∷ [])))
      ≡ some more
unfolding compare_slot_values compare_slot_value encode_values encode_value fixed_size to_bytes
null_loop v other =
    let apart : (255 == v.type_id) ≡ false = ground arith in
    let above : cmp 255 v.type_id ≡ more = ground arith in ground (arith, apart, above)

null_compare :
    (v : Value) → v.type_id < null_type → IndexKey.compare [] (null_value ∷ []) (v ∷ []) ≡ less
unfolding IndexKey.compare IndexKey.compare_value_with_null_order
null_compare v other = ground arith

-- At the slot of a key that is one NULL, the tree puts a key of one other value before it, where
-- IndexKey::compare puts it after.
pub null_slot_order :
    (v : Value) (slot out : List ℕ)
    → v.type_id < null_type
    → 7 ≤ length slot
    → length slot < 65536
    → encode (null_value ∷ []) slot ≡ some out
    → (slot_order out (v ∷ []) ≡ more) × (IndexKey.compare [] (null_value ∷ []) (v ∷ []) ≡ less)
null_slot_order v slot out other small short e =
    let k : List Value = null_value ∷ [] in
    let ks : All IsValue k = (a_null, tt) in
    let size : values_size k ≡ 1 = unfold values_size value_size fixed_size in refl in
    let tail = zeroed (6 + values_size k) slot in
    let made = encode-header k ks slot (omega arith) (omega (arith, size)) short in
    let same_out : header k ks tail ≡ out =
      ap (λ o. elim o [ none ↦ out | some y ↦ y ]) (sym made ∙ e) in
    let loop = compare_slot_key-header k (v ∷ []) ks tail (omega (arith, size)) (omega arith) in
    let found = loop ∙ null_loop v other in
    (
      subst (λ o. slot_order o (v ∷ []) ≡ more) same_out
          (unfold slot_order in ground (arith, found)),
      null_compare v other,
    )
