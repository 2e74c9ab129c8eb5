-- ===== src/BTree/Range.antt =====
-- range_search of index/btree.cpp over the pages of a whole tree.
use minidb.Prelude.{
  ℕ, zero, suc, ◌≤◌, ◌≡◌, ◌≢◌, refl, sym, ap, subst, ◌∙◌, false, List, [], ◌∷◌, ◌++◌, Option, arith,
  ◌==◌, length, map, All, append_assoc, length-append,
}
use minidb.Prelude.Order.{Order, less, IsOrder}
use minidb.RecordId.{RecordId}
use minidb.BTree.{
  Node, null_page_id, max_page_chain_hops, has_visited, scan_leaves, find_leaf_lower_bound,
  range_search,
}
use minidb.BTree.Leaf.{IsSorted}
use minidb.BTree.Scan.{selected, IsChain, entries_of, IsSorted-behind, scan_leaves-selected}
use minidb.BTree.Tree.{Tree, tip, branch, root_id, leaves, IsStored, IsSearchTree}
use minidb.BTree.Descent.{IsLocated, reached, descend-IsLocated}

-- A leaf further on in a chain starts a chain.
IsChain-behind :
    {K : Type 0} (fetch : ℕ → Option (Node K)) (start id : ℕ) (entries : List (K × RecordId))
    (front back : List (ℕ × List (K × RecordId)))
    → IsChain fetch start (front ++ (id, entries) ∷ back)
    → IsChain fetch id ((id, entries) ∷ back)
IsChain-behind fetch start id entries [] back c =
    subst (λ i. IsChain fetch i ((id, entries) ∷ back)) c.0 c
IsChain-behind fetch start id entries (l ∷ front) back c =
    IsChain-behind fetch c.3.0 id entries front back c.3.2

entries_of-append :
    {K : Type 0} (ls ms : List (ℕ × List (K × RecordId)))
    → entries_of (ls ++ ms) ≡ entries_of ls ++ entries_of ms
entries_of-append [] ms = refl
entries_of-append (l ∷ ls) ms =
    ap (λ r. l.1 ++ r) (entries_of-append ls ms)
    ∙ sym (append_assoc l.1 (entries_of ls) (entries_of ms))

module _ {K : Type 0} (compare : K → K → Order) (o : IsOrder compare) (low high : K) where
  selected-below :
      (es fs : List (K × RecordId))
      → All (λ e. compare e.0 low ≡ less) es
      → selected compare low high (es ++ fs) ≡ selected compare low high fs
  unfolding selected
  selected-below [] fs b = refl
  selected-below (e ∷ es) fs b = rw (b.0) (selected-below es fs b.1)

  selected-front :
      (ls : List (ℕ × List (K × RecordId))) (fs : List (K × RecordId))
      → All (λ l. All (λ e. compare e.0 low ≡ less) l.1) ls
      → selected compare low high (entries_of ls ++ fs) ≡ selected compare low high fs
  selected-front [] fs b = refl
  selected-front (l ∷ ls) fs b =
      ap (selected compare low high) (append_assoc l.1 (entries_of ls) fs)
      ∙ selected-below l.1 (entries_of ls ++ fs) b.0
      ∙ selected-front ls fs b.1

  All-fresh : (ms : List (ℕ × List (K × RecordId))) → All (λ m. has_visited m.0 [] ≡ false) ms
  unfolding has_visited
  All-fresh [] = tt
  All-fresh (m ∷ ms) = (refl, All-fresh ms)

  -- The scan from a leaf that has only lower leaves before it.
  scan_leaves-located :
      (fetch : ℕ → Option (Node K)) (hops start id : ℕ) (ls : List (ℕ × List (K × RecordId)))
      → IsLocated compare low ls id
      → IsChain fetch start ls
      → IsSorted compare (map (λ e. e.0) (entries_of ls))
      → length ls ≤ hops
      → scan_leaves compare fetch low high hops [] id ≡ selected compare low high (entries_of ls)
  scan_leaves-located fetch hops start id ls l c sorted short =
      let here = (id, l.entries) ∷ l.back in
      let parts : entries_of ls ≡ entries_of l.front ++ entries_of here =
        ap entries_of l.parts ∙ entries_of-append l.front here in
      let scanned =
        scan_leaves-selected compare o low high fetch hops id [] here
          (omega (arith, short, ap length l.parts, length-append l.front here))
          (IsChain-behind fetch start id l.entries l.front l.back
            (subst (IsChain fetch start) l.parts c))
          (All-fresh here)
          (IsSorted-behind compare o low high (entries_of l.front) (entries_of here)
            (subst (λ es. IsSorted compare (map (λ e. e.0) es)) parts sorted)) in
      scanned
      ∙ sym (selected-front l.front (entries_of here) l.below)
      ∙ ap (selected compare low high) (sym parts)

  root-nonnull :
      (fetch : ℕ → Option (Node K)) (hops : ℕ) (visited : List ℕ) (t : Tree K)
      → IsStored fetch hops visited t
      → root_id t ≢ null_page_id
  unfolding IsStored
  root-nonnull fetch hops visited (tip id entries) d = d.1
  root-nonnull fetch zero visited (branch id subs) d = elim d [ ]
  root-nonnull fetch (suc hops) visited (branch id subs) d = d.0

  -- For a total preorder of keys, and pages that hold a tree with its separators in order and its leaves
  -- linked into a chain of at most kMaxPageChainHops whose entries ascend, range_search answers the
  -- record ids of exactly the entries from `low` to `high`, in the order of the leaves.
  pub range_search-selected :
      (fetch : ℕ → Option (Node K)) (t : Tree K) (start : ℕ)
      → IsStored fetch max_page_chain_hops [] t
      → IsSearchTree compare t
      → IsChain fetch start (leaves t)
      → IsSorted compare (map (λ e. e.0) (entries_of (leaves t)))
      → length (leaves t) ≤ max_page_chain_hops
      → range_search compare fetch (root_id t) low high
        ≡ selected compare low high (entries_of (leaves t))
  unfolding range_search find_leaf_lower_bound
  range_search-selected fetch t start d s c sorted short =
      let l = descend-IsLocated compare o low fetch t max_page_chain_hops [] null_page_id d s in
      let there : (root_id t == null_page_id) ≡ false =
        ground (arith, root-nonnull fetch max_page_chain_hops [] t d) in
      rw there (
        scan_leaves-located fetch max_page_chain_hops start
          (reached compare o low fetch max_page_chain_hops [] null_page_id (root_id t)) (leaves t) l
          c sorted short)
