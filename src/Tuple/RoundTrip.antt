-- ===== src/Tuple/RoundTrip.antt =====
-- The round trip of a row through its bytes (record/tuple.cpp).
use mathlib.Core.List.{append_assoc}
use minidb.Prelude.{
  ℕ, ◌+◌, ◌%◌, ◌*◌, ◌≤◌, ◌<◌, ◌≡◌, refl, subst, ◌∙◌, inl, inr, false, List, [], ◌∷◌, ◌++◌, arith,
  ltb, length, take, drop, map, All, Bool-cases, length-append,
}
use minidb.Prelude.Bytes.{to_bytes, length-to_bytes, split-append}
use minidb.Value
use minidb.Value.{Value, is_null}
use minidb.Value.Stored.{IsValue, deserialize-serialize}
use minidb.Tuple.{
  Tuple, read_values, is_null_at, null_bitmap, bitmap_size, serialize_values, serialize_to_page,
  deserialize_from_page, serialized_size, values_size,
}
use minidb.Tuple.Bitmap.{flag_at, is_null_at-null_bitmap, is_null_at-append, length-null_bitmap}
use minidb.Tuple.Stored.{of_flags, read_columns-serialize_values, read_header-to_bytes}

-- The fields fit their C++ types, and there are at most as many columns as are read.
pub record IsTuple (t : Tuple) : Type 0 where
  pub xmin_fits : t.xmin < 18446744073709551616
  pub xmax_fits : t.xmax < 18446744073709551616
  pub page_fits : t.next_ver_page < 18446744073709551616
  pub slot_fits : t.next_ver_slot < 65536
  pub few : length t.values ≤ 4096
  pub are_values : All IsValue t.values

drop-length-take :
    (vs ds : List Value) → drop (length (take (length ds) vs)) ds ≡ drop (length vs) ds
drop-length-take [] [] = refl
drop-length-take [] (d ∷ ds) = refl
drop-length-take (v ∷ vs) [] = refl
drop-length-take (v ∷ vs) (d ∷ ds) = drop-length-take vs ds

-- What the reading takes from the bitmap and the values that were written.
read_values-serialize_values :
    (defaults vs : List Value) (rest : List ℕ)
    → length vs ≤ 4096
    → All IsValue vs
    → read_values defaults
        (length vs)
        (null_bitmap (bitmap_size (length vs)) (map is_null vs) ++ (serialize_values vs ++ rest))
      ≡ take (length defaults) vs ++ drop (length vs) defaults
unfolding read_values
read_values-serialize_values defaults vs rest few ks =
    let size = bitmap_size (length vs) in
    let bitmap = null_bitmap size (map is_null vs) in
    let long = length-null_bitmap size (map is_null vs) in
    let bytes = bitmap ++ (serialize_values vs ++ rest) in
    let cut = split-append size bitmap (serialize_values vs ++ rest) long in
    let flags = of_flags bytes 0 vs (λ k l.
      let start : k ≡ 0 + k = omega arith in
      let within : k < 8 * size = omega arith in
      subst (λ j. is_null_at bytes j ≡ flag_at (map is_null vs) k) start
        (is_null_at-append bitmap (serialize_values vs ++ rest) k (omega (arith, within, long))
          ∙ is_null_at-null_bitmap size (map is_null vs) k within)) in
    let columns = read_columns-serialize_values (length defaults) bytes 0 vs rest flags ks in
    let narrow : ltb 4096 (length vs) ≡ false = ground (arith, few) in
    ground (arith, cut, columns, narrow, drop-length-take vs defaults)

reassociate :
    (a b c d e f g rest : List ℕ)
    → (a ++ (b ++ (c ++ (d ++ (e ++ (f ++ g)))))) ++ rest
      ≡ a ++ (b ++ (c ++ (d ++ (e ++ (f ++ (g ++ rest))))))
reassociate a b c d e f g rest = simp append_assoc

length-serialize_values :
    (vs : List Value) → All IsValue vs → values_size vs ≡ length (serialize_values vs) % 4294967296
unfolding serialize_values values_size
length-serialize_values [] k = refl
length-serialize_values (v ∷ vs) k =
    let rest = length-serialize_values vs k.1 in
    let size = (deserialize-serialize v [] k.0).1 in
    elim (Bool-cases (is_null v)) [
      | inl yes' ↦ rw yes' (omega (arith, rest))
      | inr no' ↦
          rw no'
            (omega (arith, length-append (Value.serialize v) (serialize_values vs), size, rest))
    ]

length-serialize_to_page :
    (t : Tuple)
    → All IsValue t.values
    → serialized_size t ≡ length (serialize_to_page t) % 4294967296
unfolding serialize_to_page serialized_size
length-serialize_to_page t k =
    let a = to_bytes 8 t.xmin in
    let b = to_bytes 8 t.xmax in
    let c = to_bytes 8 t.next_ver_page in
    let d = to_bytes 2 t.next_ver_slot in
    let e = to_bytes 4 (length t.values) in
    let size = bitmap_size (length t.values) in
    let f = null_bitmap size (map is_null t.values) in
    let g = serialize_values t.values in
    omega (
      arith,
      length-append a (b ++ (c ++ (d ++ (e ++ (f ++ g))))),
      length-append b (c ++ (d ++ (e ++ (f ++ g)))),
      length-append c (d ++ (e ++ (f ++ g))),
      length-append d (e ++ (f ++ g)),
      length-append e (f ++ g),
      length-append f g,
      length-to_bytes 8 t.xmin,
      length-to_bytes 8 t.xmax,
      length-to_bytes 8 t.next_ver_page,
      length-to_bytes 2 t.next_ver_slot,
      length-to_bytes 4 (length t.values),
      length-null_bitmap size (map is_null t.values),
      length-serialize_values t.values k,
    )

-- The size is that of the bytes, where these and what follows them are fewer than 2^32.
serialized_size-serialize_to_page :
    (t : Tuple) (rest : List ℕ)
    → All IsValue t.values
    → length (serialize_to_page t ++ rest) < 4294967296
    → serialized_size t ≡ length (serialize_to_page t)
serialized_size-serialize_to_page t rest k few =
    omega (arith, few, length-append (serialize_to_page t) rest, length-serialize_to_page t k)

-- A row of at most 4096 columns, with fields and values in the ranges of their types, comes back from its
-- bytes, whatever follows them, if all these are fewer than 2^32: the fields of the header, and the values
-- of the columns that the schema has, with its defaults for the columns that the row was written without.
-- serialized_size is the number of the bytes of the row.
pub deserialize_from_page-serialize_to_page :
    (t : Tuple) (defaults : List Value) (rest : List ℕ)
    → IsTuple t
    → length (serialize_to_page t ++ rest) < 4294967296
    → (deserialize_from_page (serialize_to_page t ++ rest) defaults
        ≡ record t { values = take (length defaults) t.values ++ drop (length t.values) defaults })
      × (serialized_size t ≡ length (serialize_to_page t))
unfolding deserialize_from_page serialize_to_page
deserialize_from_page-serialize_to_page t defaults rest k few =
    let body =
      null_bitmap (bitmap_size (length t.values)) (map is_null t.values)
      ++ (serialize_values t.values ++ rest) in
    let head =
      read_header-to_bytes t.xmin t.xmax t.next_ver_page t.next_ver_slot (length t.values) body
        k.xmin_fits k.xmax_fits k.page_fits k.slot_fits (omega (arith, k.few)) in
    let values = read_values-serialize_values defaults t.values rest k.few k.are_values in
    let bytes =
      reassociate (to_bytes 8 t.xmin) (to_bytes 8 t.xmax) (to_bytes 8 t.next_ver_page)
        (to_bytes 2 t.next_ver_slot) (to_bytes 4 (length t.values))
        (null_bitmap (bitmap_size (length t.values)) (map is_null t.values))
        (serialize_values t.values) rest in
    (ground (arith, head, values, bytes), serialized_size-serialize_to_page t rest k.are_values few)
