-- ===== src/BTree/Split.antt =====
-- The splits of index/btree.cpp and where the parent takes in the new node.
use minidb.Prelude.{
  ℕ, zero, suc, ◌+◌, ◌/◌, ◌≤◌, ◌<◌, ◌≡◌, ◌≢◌, refl, sym, ap, subst, inl, inr, false, List, [], ◌∷◌,
  ◌++◌, none, some, arith, length, get_elem?, take, drop, All, Bool-cases, take-append-drop,
  length-take-le,
}
use minidb.Prelude.Order.{Order, more, IsOrder}
use minidb.RecordId.{RecordId}
use minidb.BTree.{
  index_max_keys, is_more, parent_position, insert_separator, split_leaf, split_internal,
}
use minidb.BTree.Search.{get_elem?-lt}
use minidb.BTree.Leaf.{IsSorted, All-above}

length-drop-add :
    {A : Type 0} (n : ℕ) (xs : List A) → n ≤ length xs → length (drop n xs) + n ≡ length xs
length-drop-add zero xs h = omega arith
length-drop-add (suc n) [] h = absurd (omega arith)
length-drop-add (suc n) (x ∷ xs) h = omega (arith, length-drop-add n xs (omega arith))

-- The entry at an index stands between what is before and behind it.
take-get_elem?-drop :
    {A : Type 0} (n : ℕ) (xs : List A) (a : A)
    → get_elem? xs n ≡ some a
    → take n xs ++ a ∷ drop (suc n) xs ≡ xs
take-get_elem?-drop n [] a e = cc
take-get_elem?-drop zero (x ∷ xs) a e = ap (λ o. elim o [ none ↦ x ∷ xs | some y ↦ y ∷ xs ]) (sym e)
take-get_elem?-drop (suc n) (x ∷ xs) a e = ap (λ r. x ∷ r) (take-get_elem?-drop n xs a e)

-- A split keeps the entries of a leaf that is one over, and each half has room for more.
pub split_leaf-halves :
    {K : Type 0} (entries : List (K × RecordId))
    → length entries ≡ index_max_keys + 1
    → (let s = split_leaf entries in
        (s.0 ++ s.1 ≡ entries)
        × ((0 < length s.0) × (length s.0 < index_max_keys))
        × ((0 < length s.1) × (length s.1 < index_max_keys)))
unfolding split_leaf
split_leaf-halves entries full =
    let mid = length entries / 2 in
    let left = length-take-le mid entries (omega arith) in
    let right = length-drop-add mid entries (omega arith) in
    (
      take-append-drop mid entries,
      (omega (arith, left), omega (arith, left)),
      (omega (arith, right), omega (arith, right)),
    )

-- A split of an internal node that is one over moves one key up and keeps the others and the
-- children in their order; each half has one child more than keys, and room for more.
pub split_internal-halves :
    {K : Type 0} (keys : List K) (children : List ℕ)
    → length keys ≡ index_max_keys + 1
    → length children ≡ length keys + 1
    → (let s = split_internal keys children in
        ((k : K) × (s.push_key ≡ some k) × (s.left_keys ++ k ∷ s.right_keys ≡ keys))
        × (s.left_children ++ s.right_children ≡ children)
        × ((length s.left_children ≡ length s.left_keys + 1)
            × (length s.left_keys < index_max_keys))
        × ((length s.right_children ≡ length s.right_keys + 1)
            × (length s.right_keys < index_max_keys)))
unfolding split_internal
split_internal-halves keys children full n =
    let mid = length keys / 2 in
    let (k, at) = get_elem?-lt keys mid (omega arith) in
    let next : suc mid ≡ mid + 1 = omega arith in
    let lk = length-take-le mid keys (omega arith) in
    let lc = length-take-le (mid + 1) children (omega arith) in
    let rk = length-drop-add (mid + 1) keys (omega arith) in
    let rc = length-drop-add (mid + 1) children (omega arith) in
    (
      (
        k,
        at,
        subst (λ m. take mid keys ++ k ∷ drop m keys ≡ keys) next
            (take-get_elem?-drop mid keys k at),
      ),
      take-append-drop (mid + 1) children,
      (omega (arith, lk, lc), omega (arith, lk)),
      (omega (arith, rk, rc), omega (arith, rk)),
    )

module _ {K : Type 0} (compare : K → K → Order) where
  parent_position-le : (keys : List K) (key : K) → parent_position compare keys key ≤ length keys
  unfolding parent_position
  parent_position-le [] key = omega arith
  parent_position-le (k ∷ ks) key = ground (arith, parent_position-le ks key)

  -- The scan passes the separators that are not above the key.
  parent_position-behind :
      (before after : List K) (key : K)
      → All (λ k. is_more (compare k key) ≡ false) before
      → parent_position compare (before ++ after) key
        ≡ length before + parent_position compare after key
  unfolding parent_position
  parent_position-behind [] after key low = omega arith
  parent_position-behind (k ∷ ks) after key low =
      rw (low.0) (omega (arith, parent_position-behind ks after key low.1))

  -- An insertion behind the front of a list.
  insert-front :
      {A : Type 0} (xs ys : List A) (a : A)
      → take (length xs) (xs ++ ys) ++ a ∷ drop (length xs) (xs ++ ys) ≡ xs ++ a ∷ ys
  insert-front [] ys a = refl
  insert-front (x ∷ xs) ys a = ap (λ r. x ∷ r) (insert-front xs ys a)

  insert-front_left :
      {A : Type 0} (xs ys : List A) (l a : A)
      → take (suc (length xs)) (xs ++ l ∷ ys) ++ a ∷ drop (suc (length xs)) (xs ++ l ∷ ys)
        ≡ xs ++ l ∷ a ∷ ys
  insert-front_left [] ys l a = refl
  insert-front_left (x ∷ xs) ys l a = ap (λ r. x ∷ r) (insert-front_left xs ys l a)

  -- The next separator, where there is one, is above the key.
  abbrev pub IsNextAbove : List K → K → Type 0
  IsNextAbove [] key = Unit
  IsNextAbove (k ∷ ks) key = compare k key ≡ more

  parent_position-above :
      (ks : List K) (key : K) → IsNextAbove ks key → parent_position compare ks key ≡ 0
  unfolding parent_position
  parent_position-above [] key up = refl
  parent_position-above (k ∷ ks) key up = rw up refl

  -- The parent takes in the new node just behind its left sibling, when the separators before the
  -- sibling are not above the new one and the separator behind it is.
  pub insert_separator-adjacent :
      (before after : List K) (front back : List ℕ) (key : K) (left right : ℕ)
      → length front ≡ length before
      → All (λ k. is_more (compare k key) ≡ false) before
      → IsNextAbove after key
      → insert_separator compare (before ++ after) (front ++ left ∷ back) key right
        ≡ (before ++ key ∷ after, front ++ left ∷ right ∷ back)
  unfolding insert_separator
  insert_separator-adjacent before after front back key left right n low up =
      let at : length before ≡ parent_position compare (before ++ after) key =
        omega (
          arith,
          parent_position-behind before after key low,
          parent_position-above after key up,
        ) in
      let behind : suc (length front) ≡ parent_position compare (before ++ after) key + 1 =
        omega arith in
      let keys =
        subst
          (λ p. take p (before ++ after) ++ key ∷ drop p (before ++ after) ≡ before ++ key ∷ after)
          at (insert-front before after key) in
      let children =
        subst
          (λ p.
            take p (front ++ left ∷ back) ++ right ∷ drop p (front ++ left ∷ back)
            ≡ front ++ left ∷ right ∷ back)
          behind (insert-front_left front back left right) in
      rw (keys, children) refl

  All-insert :
      (P : K → Type 0) (p : ℕ) (ks : List K) (key : K)
      → All P ks
      → P key
      → All P (take p ks ++ key ∷ drop p ks)
  All-insert P zero ks key h q = (q, h)
  All-insert P (suc p) [] key h q = (q, tt)
  All-insert P (suc p) (k ∷ ks) key h q = (h.0, All-insert P p ks key h.1 q)

  -- The separators of the parent still ascend.
  pub insert_separator-IsSorted :
      (o : IsOrder compare) (keys : List K) (children : List ℕ) (key : K) (right : ℕ)
      → IsSorted compare keys
      → IsSorted compare (insert_separator compare keys children key right).0
  unfolding insert_separator parent_position IsSorted
  insert_separator-IsSorted o [] children key right s = (tt, tt)
  insert_separator-IsSorted o (k ∷ ks) children key right s =
      elim (Bool-cases (is_more (compare k key))) [
        | inl up ↦
            let above : compare k key ≡ more = ground arith in
            rw up (((λ q. cc (o.flip k key, above, q)), All-above compare o k key ks above s.0), s)
        | inr low ↦
            let le : compare k key ≢ more = λ q. ground arith in
            rw low (
              All-insert (λ l. compare k l ≢ more) (parent_position compare ks key) ks key s.0 le,
              insert_separator-IsSorted o ks children key right s.1,
            )
      ]
