-- ===== src/BTree/Scan.antt =====
-- The scan of the leaves in range_search of index/btree.cpp against a selection of all the entries.
use minidb.Prelude.{
  ℕ, zero, suc, ◌≤◌, ◌≡◌, ◌≢◌, refl, sym, subst, inl, inr, true, false, not, ◌&&◌, List, [], ◌∷◌,
  ◌++◌, Option, some, arith, ◌==◌, if◌then◌else◌, length, map, All, Bool-cases,
}
use minidb.Prelude.Order.{Order, more, IsOrder}
use minidb.RecordId.{RecordId}
use minidb.BTree.{
  Node, leaf, null_page_id, is_more, is_less, has_visited, scan_entries, scan_leaves,
}
use minidb.BTree.Leaf.{IsSorted, above_stays}

-- The record ids of the entries with a key from `low` to `high`, in their order.
unfoldable pub selected :
    {K : Type 0} → (K → K → Order) → K → K → List (K × RecordId) → List RecordId
selected compare low high [] = []
selected compare low high (e ∷ es) =
    let rest = selected compare low high es in
    if not (is_less (compare e.0 low)) && not (is_more (compare e.0 high)) then e.1 ∷ rest else rest

-- The leaves from a page id on, linked to the end.
abbrev pub IsChain :
    {K : Type 0} → (ℕ → Option (Node K)) → ℕ → List (ℕ × List (K × RecordId)) → Type 0
IsChain fetch id [] = id ≡ null_page_id
IsChain {K} fetch id (l ∷ ls) =
    (id ≡ l.0)
    × (id ≢ null_page_id)
    × All (λ m. l.0 ≢ m.0) ls
    × ((next : ℕ) × (fetch id ≡ some (leaf l.1 next)) × IsChain fetch next ls)

-- The entries of a list of leaves.
abbrev pub entries_of : {K : Type 0} → List (ℕ × List (K × RecordId)) → List (K × RecordId)
entries_of [] = []
entries_of (l ∷ ls) = l.1 ++ entries_of ls

module _ {K : Type 0} (compare : K → K → Order) (o : IsOrder compare) (low high : K) where
  -- Behind a key above the bound nothing is selected.
  selected_above :
      (a : K) (es : List (K × RecordId))
      → compare a high ≡ more
      → All (λ l. compare a l ≢ more) (map (λ e. e.0) es)
      → selected compare low high es ≡ []
  unfolding selected
  selected_above a [] up h = refl
  selected_above a (e ∷ es) up h =
      let here = above_stays compare o a e.0 high h.0 up in
      ground (arith, here, selected_above a es up h.1)

  pub IsSorted-behind :
      (es fs : List (K × RecordId))
      → IsSorted compare (map (λ e. e.0) (es ++ fs))
      → IsSorted compare (map (λ e. e.0) fs)
  unfolding IsSorted
  IsSorted-behind [] fs s = s
  IsSorted-behind (e ∷ es) fs s = IsSorted-behind es fs s.1

  -- A leaf and what follows it: the scan stops only where nothing more is selected.
  scan_entries-selected :
      (es fs : List (K × RecordId))
      → IsSorted compare (map (λ e. e.0) (es ++ fs))
      → (let here = scan_entries compare low high es in
          if here.1 then here.0 else here.0 ++ selected compare low high fs)
        ≡ selected compare low high (es ++ fs)
  unfolding scan_entries selected IsSorted
  scan_entries-selected [] fs s = refl
  scan_entries-selected (e ∷ es) fs s =
      let rest = scan_entries-selected es fs s.1 in
      elim (Bool-cases (is_more (compare e.0 high))) [
        | inl up ↦
            let above : compare e.0 high ≡ more = ground arith in
            rw (up, selected_above e.0 (es ++ fs) above s.0) ground arith
        | inr in_range ↦ elim (Bool-cases (is_less (compare e.0 low))) [
          | inl below ↦ rw (in_range, below) rest
          | inr kept ↦ ground (arith, rest, in_range, kept)
        ]
      ]

  still_new :
      (id : ℕ) (visited : List ℕ) (ls : List (ℕ × List (K × RecordId)))
      → All (λ m. id ≢ m.0) ls
      → All (λ l. has_visited l.0 visited ≡ false) ls
      → All (λ l. has_visited l.0 (id ∷ visited) ≡ false) ls
  unfolding has_visited
  still_new id visited [] apart v = tt
  still_new id visited (l ∷ ls) apart v =
      (ground (arith, apart.0, v.0), still_new id visited ls apart.1 v.1)

  -- With more hops than leaves the scan selects from all the entries of the chain.
  pub scan_leaves-selected :
      (fetch : ℕ → Option (Node K)) (hops id : ℕ) (visited : List ℕ)
      (ls : List (ℕ × List (K × RecordId)))
      → length ls ≤ hops
      → IsChain fetch id ls
      → All (λ l. has_visited l.0 visited ≡ false) ls
      → IsSorted compare (map (λ e. e.0) (entries_of ls))
      → scan_leaves compare fetch low high hops visited id
        ≡ selected compare low high (entries_of ls)
  unfolding scan_leaves selected
  scan_leaves-selected fetch zero id visited [] le c v s = refl
  scan_leaves-selected fetch (suc hops) id visited [] le c v s =
      let null : (id == null_page_id) ≡ true = ground arith in rw null refl
  scan_leaves-selected fetch zero id visited (l ∷ ls) le c v s = absurd (omega arith)
  scan_leaves-selected fetch (suc hops) id visited (l ∷ ls) le (at, there, apart, (next, f, c)) v
        s =
      let there' : (id == null_page_id) ≡ false = ground arith in
      let fresh : has_visited id visited ≡ false =
        subst (λ i. has_visited i visited ≡ false) (sym at) v.0 in
      let rest =
        scan_leaves-selected fetch hops next (id ∷ visited) ls (omega arith) c
          (still_new id visited ls (subst (λ i. All (λ m. i ≢ m.0) ls) (sym at) apart) v.1)
          (IsSorted-behind l.1 (entries_of ls) s) in
      rw (there', fresh, f, rest) (scan_entries-selected l.1 (entries_of ls) s)
