-- ===== src/Page/Slots.antt =====
-- Line pointers of storage/page.cpp by their index: what a write of one leaves, and what the loops of
-- insert_tuple find.
use minidb.Prelude.{
  ℕ, zero, suc, ◌+◌, ◌≤◌, ◌<◌, ◌≡◌, refl, ap, subst, inl, inr, ◌&&◌, List, [], ◌∷◌, ◌++◌, Option,
  none, some, arith, ltb, leb, ◌==◌, if◌then◌else◌, length, get_elem?, set, Bool-cases,
}
use minidb.Page.{LinePointer, max_align, min_tuple_offset, find_fit, put_line_pointer, is_usable}
use minidb.Page.Space.{min_tuple_offset-le}

pub get_elem?-set :
    (lps : List LinePointer) (i j : ℕ) (lp : LinePointer)
    → i < length lps
    → get_elem? (set lps i lp) j ≡ (if i == j then some lp else get_elem? lps j)
get_elem?-set [] i j lp lt = absurd (omega arith)
get_elem?-set (x ∷ lps) zero zero lp lt = ground arith
get_elem?-set (x ∷ lps) zero (suc j) lp lt = ground arith
get_elem?-set (x ∷ lps) (suc i) zero lp lt = ground arith
get_elem?-set (x ∷ lps) (suc i) (suc j) lp lt =
    let rest = get_elem?-set lps i j lp (omega arith) in ground arith

get_elem?-snoc :
    (lps : List LinePointer) (j : ℕ) (lp : LinePointer)
    → get_elem? (lps ++ lp ∷ []) j ≡ (if length lps == j then some lp else get_elem? lps j)
get_elem?-snoc [] zero lp = refl
get_elem?-snoc [] (suc j) lp = ground arith
get_elem?-snoc (x ∷ lps) zero lp = ground arith
get_elem?-snoc (x ∷ lps) (suc j) lp = let rest = get_elem?-snoc lps j lp in ground arith

pub get_elem?-put_line_pointer :
    (i j : ℕ) (lp : LinePointer) (lps : List LinePointer)
    → i ≤ length lps
    → get_elem? (put_line_pointer i lp lps) j ≡ (if i == j then some lp else get_elem? lps j)
unfolding put_line_pointer
get_elem?-put_line_pointer i j lp lps le = elim (Bool-cases (i == length lps)) [
  | inl e ↦ let last = get_elem?-snoc lps j lp in ground arith
  | inr n ↦ let inner = get_elem?-set lps i j lp (ground arith) in ground arith
]

pub set-put_line_pointer :
    (lps : List LinePointer) (i : ℕ) (lp : LinePointer)
    → i < length lps
    → set lps i lp ≡ put_line_pointer i lp lps
unfolding put_line_pointer
set-put_line_pointer lps i lp lt = ground arith

pub length-set :
    (lps : List LinePointer) (i : ℕ) (lp : LinePointer) → length (set lps i lp) ≡ length lps
length-set [] i lp = refl
length-set (x ∷ lps) zero lp = refl
length-set (x ∷ lps) (suc i) lp = ap suc (length-set lps i lp)

length-snoc : (lps : List LinePointer) (lp : LinePointer) → length (lps ++ lp ∷ []) ≡ length lps + 1
length-snoc [] lp = refl
length-snoc (x ∷ lps) lp = omega (arith, length-snoc lps lp)

pub length-put_line_pointer :
    (i : ℕ) (lp : LinePointer) (lps : List LinePointer)
    → length (put_line_pointer i lp lps) ≡ (if i == length lps then length lps + 1 else length lps)
unfolding put_line_pointer
length-put_line_pointer i lp lps = ground (arith, length-snoc lps lp, length-set lps i lp)

-- What strategy 1 finds.
pub record Fits (aligned_len n : ℕ) (lp : LinePointer) (lps : List LinePointer) : Type 0 where
  pub at : get_elem? lps n ≡ some lp
  pub below : n < length lps
  pub space : 0 < lp.length
  pub wide : aligned_len ≤ max_align lp.length

pub find_fit-Fits :
    (aligned_len i k : ℕ) (lp : LinePointer) (lps : List LinePointer)
    → find_fit aligned_len i lps ≡ some (k, lp)
    → (n : ℕ) × (k ≡ i + n) × Fits aligned_len n lp lps
unfolding find_fit
find_fit-Fits len i k lp [] e = cc
find_fit-Fits len i k lp (x ∷ lps) e =
    let serves = is_usable x && ltb 0 x.length && leb len (max_align x.length) in
    elim (Bool-cases serves) [
      | inl hit ↦
          let e' : ◌≡◌ {A = Option (ℕ × LinePointer)} (some (i, x)) (some (k, lp)) = ground arith in
          let at : i ≡ k = ap (λ o. elim o [ none ↦ 0 | some y ↦ y.0 ]) e' in
          let same : x ≡ lp = ap (λ o. elim o [ none ↦ x | some y ↦ y.1 ]) e' in
          subst (λ (y : LinePointer). (n : ℕ) × (k ≡ i + n) × Fits len n y (x ∷ lps)) same
            (
              0,
              omega arith,
              record { at = refl; below = omega arith; space = ground arith; wide = ground arith },
            )
      | inr miss ↦
          let (n, q, f) = find_fit-Fits len (suc i) k lp lps (ground arith) in
          (
            suc n,
            omega arith,
            record { at = f.at; below = omega (arith, f.below); space = f.space; wide = f.wide },
          )
    ]

pub min_tuple_offset-at :
    (lps : List LinePointer) (b j : ℕ) (lp : LinePointer)
    → get_elem? lps j ≡ some lp
    → 0 < lp.offset
    → min_tuple_offset b lps ≤ lp.offset
unfolding min_tuple_offset
min_tuple_offset-at [] b j lp e z = cc
min_tuple_offset-at (x ∷ lps) b zero lp e z =
    let same : x.offset ≡ lp.offset = ap (λ o. elim o [ none ↦ 0 | some y ↦ y.offset ]) e in
    ground (arith, min_tuple_offset-le b lps, min_tuple_offset-le x.offset lps)
min_tuple_offset-at (x ∷ lps) b (suc j) lp e z = min_tuple_offset-at lps _ j lp e z
