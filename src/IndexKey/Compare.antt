-- ===== src/IndexKey/Compare.antt =====
-- The order of index keys (index/index_key.cpp, `compare` and `starts_with`).
use minidb.Prelude.{
  ◌≡◌, refl, ap, ◌∙◌, Bool, true, false, ◌&&◌, List, [], ◌∷◌, arith, leb, if◌then◌else◌, length,
  take,
}
use minidb.Prelude.Order.{Order, less, same, more, invert, then_by, IsOrder, IsOrder-invert}
use minidb.Value.{Value}
use minidb.Value.Compare.{compare-IsOrder as value-IsOrder}
use minidb.IndexKey.{
  IndexKeyColumn, head_column, tail_columns, compare_value_with_null_order, compare_column, compare,
  is_same, matches, starts_with,
}

nulls-IsOrder : (nf : Bool) → IsOrder (compare_value_with_null_order nf)
unfolding compare_value_with_null_order
nulls-IsOrder nf =
    let o = value-IsOrder in
    record {
      flip = λ a b. ground (arith, o.flip a b);
      trans = λ a b c p q. ground (arith, o.trans a b c);
      congr = λ a b c p. ground (arith, o.congr a b c);
    }

column-IsOrder : (c : IndexKeyColumn) → IsOrder (compare_column c)
column-IsOrder c = column c.descending c.nulls_first
  where
    column :
        (desc nf : Bool)
        → IsOrder λ a b.
          if desc
          then invert (compare_value_with_null_order nf a b)
          else compare_value_with_null_order nf a b
    column true nf = IsOrder-invert (compare_value_with_null_order nf) (nulls-IsOrder nf)
    column false nf = nulls-IsOrder nf

compare-flip :
    (cs : List IndexKeyColumn) (a b : List Value) → compare cs b a ≡ invert (compare cs a b)
unfolding compare
compare-flip cs [] [] = refl
compare-flip cs [] (y ∷ b) = refl
compare-flip cs (x ∷ a) [] = refl
compare-flip cs (x ∷ a) (y ∷ b) =
    let o = column-IsOrder (head_column cs) in
    let rest = compare-flip (tail_columns cs) a b in
    rw (o.flip x y, rest)
      (then_invert (compare_column (head_column cs) x y) (compare (tail_columns cs) a b))
  where
    then_invert : (p q : Order) → then_by (invert p) (invert q) ≡ invert (then_by p q)
    then_invert less q = refl
    then_invert same q = refl
    then_invert more q = refl

same_right {ℓ} :
    {A : Type ℓ} (h : A → A → Order) → IsOrder h → (a b c : A) → h b c ≡ same → h a c ≡ h a b
same_right h o a b c e =
    let swapped = o.congr b c a e in ground (arith, o.flip c a, o.flip b a, swapped)

then_trans :
    (p q r p' q' r' : Order)
    → (p ≡ less → q ≡ less → r ≡ less)
    → (p ≡ same → r ≡ q)
    → (q ≡ same → r ≡ p)
    → (p' ≡ less → q' ≡ less → r' ≡ less)
    → then_by p p' ≡ less
    → then_by q q' ≡ less
    → then_by r r' ≡ less
then_trans less less r p' q' r' h i j k e f = ap (λ o. then_by o r') (h refl refl)
then_trans less same r p' q' r' h i j k e f = ap (λ o. then_by o r') (j refl)
then_trans less more r p' q' r' h i j k e f = cc
then_trans same less r p' q' r' h i j k e f = ap (λ o. then_by o r') (i refl)
then_trans same same r p' q' r' h i j k e f = ap (λ o. then_by o r') (i refl) ∙ k e f
then_trans same more r p' q' r' h i j k e f = cc
then_trans more q r p' q' r' h i j k e f = cc

compare_trans :
    (cs : List IndexKeyColumn) (a b c : List Value)
    → compare cs a b ≡ less
    → compare cs b c ≡ less
    → compare cs a c ≡ less
unfolding compare
compare_trans cs [] [] c p q = cc
compare_trans cs [] (y ∷ b) [] p q = cc
compare_trans cs [] (y ∷ b) (z ∷ c) p q = refl
compare_trans cs (x ∷ a) [] c p q = cc
compare_trans cs (x ∷ a) (y ∷ b) [] p q = cc
compare_trans cs (x ∷ a) (y ∷ b) (z ∷ c) p q =
    let h = compare_column (head_column cs) in
    let o = column-IsOrder (head_column cs) in
    then_trans (h x y) (h y z) (h x z) (compare (tail_columns cs) a b)
      (compare (tail_columns cs) b c) (compare (tail_columns cs) a c) (o.trans x y z)
      (o.congr x y z) (same_right h o x y z) (compare_trans (tail_columns cs) a b c) p q

then_congr :
    (p p' q q' r r' : Order)
    → (p ≡ same → q ≡ r)
    → (p' ≡ same → q' ≡ r')
    → then_by p p' ≡ same
    → then_by q q' ≡ then_by r r'
then_congr less p' q q' r r' h k e = cc
then_congr same p' q q' r r' h k e = cc (h refl, k e)
then_congr more p' q q' r r' h k e = cc

compare_congr :
    (cs : List IndexKeyColumn) (a b c : List Value)
    → compare cs a b ≡ same
    → compare cs a c ≡ compare cs b c
unfolding compare
compare_congr cs [] [] c p = refl
compare_congr cs [] (y ∷ b) c p = cc
compare_congr cs (x ∷ a) [] c p = cc
compare_congr cs (x ∷ a) (y ∷ b) [] p = refl
compare_congr cs (x ∷ a) (y ∷ b) (z ∷ c) p =
    let h = compare_column (head_column cs) in
    let o = column-IsOrder (head_column cs) in
    then_congr (h x y) (compare (tail_columns cs) a b) (h x z) (compare (tail_columns cs) a c)
      (h y z) (compare (tail_columns cs) b c) (o.congr x y z)
      (compare_congr (tail_columns cs) a b c) p

-- Index keys are totally preordered by compare, under every schema: with descending columns, nulls
-- first or last, and keys of any length.
pub compare-IsOrder : (cs : List IndexKeyColumn) → IsOrder (compare cs)
compare-IsOrder cs = record {
  flip = compare-flip cs;
  trans = compare_trans cs;
  congr = compare_congr cs;
}

-- A key starts with a prefix exactly when it is no shorter and its first values compare as the same.
pub starts_with-compare :
    (cs : List IndexKeyColumn) (key prefix : List Value)
    → starts_with cs key prefix
      ≡ (leb (length prefix) (length key) && is_same (compare cs (take (length prefix) key) prefix))
unfolding starts_with matches compare
starts_with-compare cs key [] =
    elim key
      as (λ k. starts_with cs k [] ≡ (leb 0 (length k) && is_same (compare cs (take 0 k) []))) [
        | [] ↦ refl
        | x ∷ xs ↦ ground arith
      ]
starts_with-compare cs [] (y ∷ ys) = ground arith
starts_with-compare cs (x ∷ xs) (y ∷ ys) =
    let rest = starts_with-compare (tail_columns cs) xs ys in ground arith
