-- ===== src/BTree/Leaf.antt =====
-- Insertion into a leaf of index/btree.cpp against insertion in order.
use minidb.Prelude.{
  ℕ, zero, suc, ◌-◌, ◌≤◌, ◌≡◌, ◌≢◌, refl, sym, ap, subst, ◌∙◌, inl, inr, true, false, List, [], ◌∷◌,
  ◌++◌, none, some, arith, if◌then◌else◌, length, get_elem?, take, drop, map, All, Bool-cases,
}
use minidb.Prelude.Order.{Order, less, same, more, IsOrder}
use minidb.RecordId.{RecordId}
use minidb.BTree.{is_more, first_above, leaf_position, insert_into_leaf}
use minidb.BTree.Search.{IsMonotone, IsFirst, get_elem?-lt, get_elem?-bound, find_first-IsFirst}

-- No key is above a later one.
unfoldable pub IsSorted : {K : Type 0} → (K → K → Order) → List K → Type 0
IsSorted compare [] = Unit
IsSorted compare (k ∷ ks) = All (λ l. compare k l ≢ more) ks × IsSorted compare ks

-- The entry before the first one with a key above its own.
unfoldable pub insert_sorted :
    {K : Type 0} → (K → K → Order) → List (K × RecordId) → K → RecordId → List (K × RecordId)
insert_sorted compare [] key rid = (key, rid) ∷ []
insert_sorted compare (e ∷ es) key rid =
    let rest = e ∷ insert_sorted compare es key rid in
    if is_more (compare e.0 key) then (key, rid) ∷ e ∷ es else rest

All-get_elem? :
    {K : Type 0} (P : K → Type 0) (ks : List K) (j : ℕ) (b : K)
    → All P ks
    → get_elem? ks j ≡ some b
    → P b
All-get_elem? P [] j b h e = cc
All-get_elem? P (x ∷ xs) zero b h e = subst P (ap (λ o. elim o [ none ↦ x | some y ↦ y ]) e) h.0
All-get_elem? P (x ∷ xs) (suc j) b h e = All-get_elem? P xs j b h.1 e

module _ {K : Type 0} (compare : K → K → Order) (o : IsOrder compare) where
  pub not_more_self : (k : K) → compare k k ≢ more
  not_more_self k e = cc (o.flip k k, e)

  -- What is above a key stays so upwards.
  pub above_stays : (a b key : K) → compare a b ≢ more → compare a key ≡ more → compare b key ≡ more
  above_stays a b key le up = cases (compare a b) refl
    where
      cases : (q : Order) → compare a b ≡ q → compare b key ≡ more
      cases less e =
          let down = o.trans key a b (ground (arith, o.flip a key, up)) e in
          ground (arith, o.flip key b, down)
      cases same e = sym (o.congr a b key e) ∙ up
      cases more e = absurd (le e)

  pub sorted_pair :
      (ks : List K) (i j : ℕ) (a b : K)
      → IsSorted compare ks
      → i ≤ j
      → get_elem? ks i ≡ some a
      → get_elem? ks j ≡ some b
      → compare a b ≢ more
  unfolding IsSorted
  sorted_pair [] i j a b s le e f = cc
  sorted_pair (x ∷ xs) zero zero a b s le e f =
      subst (λ y. compare a y ≢ more) (ap (λ r. elim r [ none ↦ a | some y ↦ y ]) (sym e ∙ f))
        (not_more_self a)
  sorted_pair (x ∷ xs) zero (suc j) a b s le e f =
      subst (λ y. compare y b ≢ more) (ap (λ r. elim r [ none ↦ x | some y ↦ y ]) e)
        (All-get_elem? (λ l. compare x l ≢ more) xs j b s.0 f)
  sorted_pair (x ∷ xs) (suc i) zero a b s le e f = absurd (omega arith)
  sorted_pair (x ∷ xs) (suc i) (suc j) a b s le e f = sorted_pair xs i j a b s.1 (omega arith) e f

  pub above-IsMonotone :
      (ks : List K) (key : K) → IsSorted compare ks → IsMonotone (λ k. is_more (compare k key)) ks
  above-IsMonotone ks key s = record {
    stays = λ i j a b le e f t.
        let up : compare a key ≡ more = ground arith in
        ground (arith, above_stays a b key (sorted_pair ks i j a b s le e f) up);
  }

  -- The position of an insertion is the first key above.
  leaf_position-IsFirst :
      (ks : List K) (key : K)
      → IsSorted compare ks
      → IsFirst (λ k. is_more (compare k key)) ks (leaf_position compare ks key)
  leaf_position-IsFirst [] key s = record {
    bound = unfold leaf_position in omega arith;
    before = λ i a l e. cc;
    after = λ i a l e. cc;
  }
  leaf_position-IsFirst (x ∷ xs) key s =
      let ks = x ∷ xs in
      let n = length ks in
      let (k, at) = get_elem?-lt ks (n - 1) (omega arith) in
      elim (Bool-cases (is_more (compare k key))) [
        | inl up ↦
            let same' : leaf_position compare ks key ≡ first_above compare ks key =
              unfold leaf_position in ground (arith, at, up) in
            subst (IsFirst (λ l. is_more (compare l key)) ks) (sym same') (
              unfold first_above in
              find_first-IsFirst (λ l. is_more (compare l key)) ks (above-IsMonotone ks key s))
        | inr low ↦
            let same' : leaf_position compare ks key ≡ n =
              unfold leaf_position in ground (arith, at, low) in
            subst (IsFirst (λ l. is_more (compare l key)) ks) (sym same') (record {
              bound = omega arith;
              before = λ i a l e. elim (Bool-cases (is_more (compare a key))) [
                | inr f ↦ f
                | inl t ↦
                    let m = above-IsMonotone ks key s in
                    cc (m.stays i (n - 1) a k (omega arith) e at t, low)
              ];
              after = λ i a l e. absurd (omega (arith, get_elem?-bound ks i a e));
            })
      ]

  -- The first index above is where insert_sorted inserts.
  insert-insert_sorted :
      (entries : List (K × RecordId)) (key : K) (rid : RecordId) (r : ℕ)
      → IsFirst (λ k. is_more (compare k key)) (map (λ e. e.0) entries) r
      → take r entries ++ (key, rid) ∷ drop r entries ≡ insert_sorted compare entries key rid
  unfolding insert_sorted
  insert-insert_sorted [] key rid zero f = refl
  insert-insert_sorted [] key rid (suc r) f = refl
  insert-insert_sorted (e ∷ es) key rid zero f =
      let up : is_more (compare e.0 key) ≡ true = f.after 0 e.0 (omega arith) refl in rw up refl
  insert-insert_sorted (e ∷ es) key rid (suc r) f =
      let low : is_more (compare e.0 key) ≡ false = f.before 0 e.0 (omega arith) refl in
      let rest = insert-insert_sorted es key rid r (record {
        bound = omega (arith, f.bound);
        before = λ i a l q. f.before (suc i) a (omega arith) q;
        after = λ i a l q. f.after (suc i) a (omega arith) q;
      }) in
      rw low (ap (λ l. e ∷ l) rest)

  All-insert_sorted :
      (P : K → Type 0) (entries : List (K × RecordId)) (key : K) (rid : RecordId)
      → All P (map (λ e. e.0) entries)
      → P key
      → All P (map (λ e. e.0) (insert_sorted compare entries key rid))
  unfolding insert_sorted
  All-insert_sorted P [] key rid h p = (p, tt)
  All-insert_sorted P (e ∷ es) key rid h p = elim (Bool-cases (is_more (compare e.0 key))) [
    | inl up ↦ rw up (p, h)
    | inr low ↦ rw low (h.0, All-insert_sorted P es key rid h.1 p)
  ]

  pub All-above :
      (a key : K) (ks : List K)
      → compare a key ≡ more
      → All (λ l. compare a l ≢ more) ks
      → All (λ l. compare key l ≢ more) ks
  All-above a key [] up h = tt
  All-above a key (l ∷ ks) up h =
      ((λ e. cc (above_stays a l key h.0 up, o.flip key l, e)), All-above a key ks up h.1)

  insert_sorted-IsSorted :
      (entries : List (K × RecordId)) (key : K) (rid : RecordId)
      → IsSorted compare (map (λ e. e.0) entries)
      → IsSorted compare (map (λ e. e.0) (insert_sorted compare entries key rid))
  unfolding insert_sorted IsSorted
  insert_sorted-IsSorted [] key rid s = (tt, tt)
  insert_sorted-IsSorted (e ∷ es) key rid s = elim (Bool-cases (is_more (compare e.0 key))) [
    | inl up ↦
        let above : compare e.0 key ≡ more = ground arith in
        rw up (
          ((λ q. cc (o.flip e.0 key, above, q)), All-above e.0 key (map (λ e. e.0) es) above s.0),
          s,
        )
    | inr low ↦
        let le : compare e.0 key ≢ more = λ q. ground arith in
        rw low (
          All-insert_sorted (λ l. compare e.0 l ≢ more) es key rid s.0 le,
          insert_sorted-IsSorted es key rid s.1,
        )
  ]

  -- For a total preorder of keys, an insertion into a sorted leaf, by the append or by the binary
  -- search, is the insertion in order, behind the entries with the same key, and the leaf stays sorted.
  pub insert_into_leaf-insert_sorted :
      (entries : List (K × RecordId)) (key : K) (rid : RecordId)
      → IsSorted compare (map (λ e. e.0) entries)
      → (insert_into_leaf compare entries key rid ≡ insert_sorted compare entries key rid)
        × IsSorted compare (map (λ e. e.0) (insert_into_leaf compare entries key rid))
  insert_into_leaf-insert_sorted entries key rid s =
      let at = leaf_position-IsFirst (map (λ e. e.0) entries) key s in
      let equal : insert_into_leaf compare entries key rid ≡ insert_sorted compare entries key rid =
        unfold insert_into_leaf in
        insert-insert_sorted entries key rid (leaf_position compare (map (λ e. e.0) entries) key)
          at in
      (
        equal,
        subst (λ l. IsSorted compare (map (λ e. e.0) l)) (sym equal)
            (insert_sorted-IsSorted entries key rid s),
      )
