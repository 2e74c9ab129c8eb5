-- ===== src/Tuple/Bitmap.antt =====
-- The null bitmap of a row (record/tuple.cpp): what is written is what is read.
use minidb.Prelude.{
  ℕ, zero, suc, ◌+◌, ◌-◌, ◌*◌, ◌/◌, ◌%◌, ◌<◌, ◌≡◌, refl, ap, subst, ◌∙◌, inl, inr, Bool, true,
  false, List, [], ◌∷◌, ◌++◌, none, some, arith, ltb, length, get_elem?, take, drop, Bool-cases,
}
use minidb.Tuple.{byte_of, null_bitmap, bit, is_null_at}

abbrev pub flag_at : List Bool → ℕ → Bool
flag_at flags i = elim (get_elem? flags i) [ none ↦ false | some b ↦ b ]

bit-zero : (i : ℕ) → bit 0 i ≡ false
unfolding bit
bit-zero zero = refl
bit-zero (suc i) = bit-zero i

bit-byte_of : (flags : List Bool) (i : ℕ) → bit (byte_of flags) i ≡ flag_at flags i
unfolding bit byte_of
bit-byte_of [] i = bit-zero i
bit-byte_of (true ∷ flags) zero = ground arith
bit-byte_of (false ∷ flags) zero = ground arith
bit-byte_of (b ∷ flags) (suc i) =
    let half : byte_of flags ≡ byte_of (b ∷ flags) / 2 =
      elim b as (λ c. byte_of flags ≡ byte_of (c ∷ flags) / 2) [
        | true ↦ omega arith
        | false ↦ omega arith
      ] in
    subst (λ x. bit x i ≡ flag_at flags i) half (bit-byte_of flags i)

get_elem?-take :
    {A : Type 0} (n : ℕ) (xs : List A) (i : ℕ) → i < n → get_elem? (take n xs) i ≡ get_elem? xs i
get_elem?-take zero xs i l = absurd (omega arith)
get_elem?-take (suc n) [] i l = refl
get_elem?-take (suc n) (x ∷ xs) zero l = refl
get_elem?-take (suc n) (x ∷ xs) (suc i) l = get_elem?-take n xs i (omega arith)

get_elem?-drop :
    {A : Type 0} (n : ℕ) (xs : List A) (i j : ℕ)
    → i ≡ n + j
    → get_elem? (drop n xs) j ≡ get_elem? xs i
get_elem?-drop zero xs i j e = ap (get_elem? xs) (omega (arith, e))
get_elem?-drop (suc n) [] i j e = refl
get_elem?-drop (suc n) (x ∷ xs) zero j e = absurd (omega arith)
get_elem?-drop (suc n) (x ∷ xs) (suc i) j e = get_elem?-drop n xs i j (omega arith)

abbrev bit_in : List ℕ → ℕ → ℕ → Bool
bit_in bitmap byte place = elim (get_elem? bitmap byte) [ none ↦ false | some b ↦ bit b place ]

-- A flag comes back from its bit.
pub is_null_at-null_bitmap :
    (n : ℕ) (flags : List Bool) (i : ℕ)
    → i < 8 * n
    → is_null_at (null_bitmap n flags) i ≡ flag_at flags i
unfolding is_null_at null_bitmap
is_null_at-null_bitmap zero flags i l = absurd (omega arith)
is_null_at-null_bitmap (suc n) flags i l = elim (Bool-cases (ltb i 8)) [
  | inl here ↦
      let byte : 0 ≡ i / 8 = ground (arith, here) in
      let place : i ≡ i % 8 = ground (arith, here) in
      let first =
        bit-byte_of (take 8 flags) i
        ∙ ap (λ o. elim o [ none ↦ false | some b ↦ b ])
            (get_elem?-take 8 flags i (ground (arith, here))) in
      let bytes = null_bitmap (suc n) flags in
      subst (λ q. bit_in bytes q (i % 8) ≡ flag_at flags i) byte
        (subst (λ p. bit_in bytes 0 p ≡ flag_at flags i) place first)
  | inr later ↦
      let j = i - 8 in
      let byte : suc (j / 8) ≡ i / 8 = ground (arith, later) in
      let place : j % 8 ≡ i % 8 = ground (arith, later) in
      let rest =
        is_null_at-null_bitmap n (drop 8 flags) j (omega arith)
        ∙ ap (λ o. elim o [ none ↦ false | some b ↦ b ])
            (get_elem?-drop 8 flags i j (ground (arith, later))) in
      let bytes = null_bitmap (suc n) flags in
      subst (λ q. bit_in bytes q (i % 8) ≡ flag_at flags i) byte
        (subst (λ p. bit_in bytes (suc (j / 8)) p ≡ flag_at flags i) place rest)
]

pub length-null_bitmap : (n : ℕ) (flags : List Bool) → length (null_bitmap n flags) ≡ n
unfolding null_bitmap
length-null_bitmap zero flags = refl
length-null_bitmap (suc n) flags = ap suc (length-null_bitmap n (drop 8 flags))

get_elem?-front : (xs ys : List ℕ) (i : ℕ) → i < length xs → get_elem? (xs ++ ys) i ≡ get_elem? xs i
get_elem?-front [] ys i l = absurd (omega arith)
get_elem?-front (x ∷ xs) ys zero l = refl
get_elem?-front (x ∷ xs) ys (suc i) l = get_elem?-front xs ys i (omega arith)

-- What stands behind the bitmap does not matter.
pub is_null_at-append :
    (bitmap rest : List ℕ) (i : ℕ)
    → i < 8 * length bitmap
    → is_null_at (bitmap ++ rest) i ≡ is_null_at bitmap i
unfolding is_null_at
is_null_at-append bitmap rest i l =
    ap (λ o. elim o [ none ↦ false | some b ↦ bit b (i % 8) ])
      (get_elem?-front bitmap rest (i / 8) (omega arith))
