-- ===== src/BTree/Examples.antt =====
-- Nodes with number keys, and slots of index keys.
use minidb.Prelude.{
  ℕ, zero, suc, ◌+◌, ◌≤◌, ◌<◌, ◌≡◌, refl, List, [], ◌∷◌, ◌++◌, Option, none, some, arith, ◌==◌,
  if◌then◌else◌, length, map, All, ltb,
}
use minidb.Prelude.Bytes.{to_bytes}
use minidb.Prelude.Order.{less, more, cmp, cmp-IsOrder}
use minidb.RecordId.{RecordId}
use minidb.Value.{Value, number_value, null_value, int32_type, fixed_size}
use minidb.Value.Stored.{IsValue, a_word}
use minidb.IndexKey
use minidb.IndexKey.{
  encode, encode_value, encode_values, encoded_size, fits, value_size, values_size,
}
use minidb.BTree.{
  search, Node, leaf, internal, is_more, insert_into_leaf, insert_separator, split_internal,
  find_first, has_visited, range_search, max_page_chain_hops, parent_position, index_max_keys,
}
use minidb.BTree.Slot.{slot_order}
use minidb.BTree.Slot.Whole.{slot_order-compare, null_slot_order}
use minidb.BTree.Search.{IsFirst, find_first-IsFirst}
use minidb.BTree.Leaf.{IsSorted, insert_sorted, above-IsMonotone, insert_into_leaf-insert_sorted}
use minidb.BTree.Split.{split_internal-halves}
use minidb.BTree.Scan.{selected, IsChain, entries_of}
use minidb.BTree.Tree.{
  Tree, tip, branch, only, before, leaves, children_leaves, IsStored, AreStored, IsSearchTree,
  AreSearchTrees,
}
use minidb.BTree.Lookup.{IsWide, search-range_search}
use minidb.BTree.Range.{range_search-selected}

abbrev row : ℕ → RecordId
row n = record { page_id = 40; slot_idx = n }

abbrev low_keys : List ℕ
low_keys = 10 ∷ 20 ∷ []

low_keys-IsSorted : IsSorted cmp low_keys
unfolding IsSorted
low_keys-IsSorted = (((λ e. cc), tt), (tt, tt))

find_first-IsFirst_example :
    IsFirst (λ k. is_more (cmp k 15)) low_keys (find_first (λ k. is_more (cmp k 15)) low_keys 2 0 2)
find_first-IsFirst_example =
    find_first-IsFirst (λ k. is_more (cmp k 15)) low_keys
      (above-IsMonotone cmp cmp-IsOrder low_keys 15 low_keys-IsSorted)

abbrev low_entries : List (ℕ × RecordId)
low_entries = (10, row 0) ∷ (20, row 1) ∷ []

abbrev high_entries : List (ℕ × RecordId)
high_entries = (30, row 2) ∷ (40, row 3) ∷ []

insert_into_leaf-insert_sorted_example :
    (insert_into_leaf cmp low_entries 15 (row 9) ≡ insert_sorted cmp low_entries 15 (row 9))
    × IsSorted cmp (map (λ e. e.0) (insert_into_leaf cmp low_entries 15 (row 9)))
insert_into_leaf-insert_sorted_example =
    insert_into_leaf-insert_sorted cmp cmp-IsOrder low_entries 15 (row 9) low_keys-IsSorted

-- n, ..., 2, 1
abbrev countdown : ℕ → List ℕ
countdown zero = []
countdown (suc n) = suc n ∷ countdown n

abbrev over_full : List (ℕ × RecordId)
over_full = map (λ n. (n, row n)) (countdown 58)

split_internal-halves_example :
    let s = split_internal (countdown 58) (countdown 59) in
    ((k : ℕ) × (s.push_key ≡ some k) × (s.left_keys ++ k ∷ s.right_keys ≡ countdown 58))
    × (s.left_children ++ s.right_children ≡ countdown 59)
    × ((length s.left_children ≡ length s.left_keys + 1) × (length s.left_keys < index_max_keys))
    × ((length s.right_children ≡ length s.right_keys + 1) × (length s.right_keys < index_max_keys))
split_internal-halves_example = split_internal-halves (countdown 58) (countdown 59) refl refl

-- The first child splits at a key that equals the separator behind it: the new node, 8, comes behind
-- all the children, not behind the first.
displaced :
    insert_separator cmp (5 ∷ 5 ∷ []) (2 ∷ 3 ∷ 4 ∷ []) 5 8 ≡ (5 ∷ 5 ∷ 5 ∷ [], 2 ∷ 3 ∷ 4 ∷ 8 ∷ [])
unfolding insert_separator parent_position
displaced = refl

-- Page 1 is the root over the leaves 2 and 3.
abbrev two_leaves : Tree ℕ
two_leaves = branch 1 (before (tip 2 low_entries) 30 (only (tip 3 high_entries)))

abbrev pages : ℕ → Option (Node ℕ)
pages id =
    if id == 1
    then some (internal (30 ∷ []) (2 ∷ 3 ∷ []))
    else if id == 2
    then some (leaf low_entries 3)
    else if id == 3
    then some (leaf high_entries 0)
    else none

two_leaves-IsStored : IsStored pages max_page_chain_hops [] two_leaves
unfolding IsStored AreStored has_visited
two_leaves-IsStored = (
  (λ e. cc),
  refl,
  refl,
  ((omega arith, (λ e. cc), refl, (3, refl)), (omega arith, (λ e. cc), refl, (0, refl))),
)

two_leaves-IsSearchTree : IsSearchTree cmp two_leaves
unfolding IsSearchTree AreSearchTrees leaves
two_leaves-IsSearchTree = (tt, tt, tt, (((λ e. cc), ((λ e. cc), tt)), tt))

two_leaves-IsChain : IsChain pages 2 (leaves two_leaves)
unfolding leaves children_leaves
two_leaves-IsChain =
    (refl, (λ e. cc), ((λ e. cc), tt), (3, refl, (refl, (λ e. cc), tt, (0, refl, refl))))

two_leaves-IsSorted : IsSorted cmp (map (λ e. e.0) (entries_of (leaves two_leaves)))
unfolding leaves children_leaves IsSorted
two_leaves-IsSorted = (
  ((λ e. cc), ((λ e. cc), ((λ e. cc), tt))),
  (((λ e. cc), ((λ e. cc), tt)), (((λ e. cc), tt), (tt, tt))),
)

two_leaves-short : length (leaves two_leaves) ≤ max_page_chain_hops
unfolding leaves children_leaves
two_leaves-short = omega arith

range_search-selected_example :
    range_search cmp pages 1 15 30 ≡ selected cmp 15 30 (entries_of (leaves two_leaves))
range_search-selected_example =
    range_search-selected cmp cmp-IsOrder 15 30 pages two_leaves 2 two_leaves-IsStored
      two_leaves-IsSearchTree two_leaves-IsChain two_leaves-IsSorted two_leaves-short

two_rows : selected cmp 15 30 (entries_of (leaves two_leaves)) ≡ row 1 ∷ row 2 ∷ []
unfolding selected leaves children_leaves
two_rows = refl

abbrev seven : List Value
seven = number_value int32_type 7 ∷ []

abbrev nine : List Value
nine = number_value int32_type 9 ∷ []

abbrev slot : List ℕ
slot = 1 ∷ 1 ∷ 1 ∷ 1 ∷ 1 ∷ 1 ∷ 1 ∷ 1 ∷ 1 ∷ 1 ∷ 1 ∷ 1 ∷ []

abbrev null_out : List ℕ
null_out = 75 ∷ 73 ∷ 1 ∷ 0 ∷ 1 ∷ 0 ∷ 255 ∷ 0 ∷ 1 ∷ 1 ∷ 1 ∷ 1 ∷ []

abbrev seven_out : List ℕ
seven_out = 75 ∷ 73 ∷ 1 ∷ 0 ∷ 5 ∷ 0 ∷ 1 ∷ 7 ∷ 0 ∷ 0 ∷ 0 ∷ 0 ∷ []

encode-null : encode (null_value ∷ []) slot ≡ some null_out
unfolding encode encode_values encode_value encoded_size values_size value_size fits fixed_size
    to_bytes
encode-null = refl

encode-seven : encode seven slot ≡ some seven_out
unfolding encode encode_values encode_value encoded_size values_size value_size fits fixed_size
    to_bytes
encode-seven = refl

seven-IsValue : All IsValue seven
unfolding fixed_size
seven-IsValue = (a_word int32_type 7 refl (omega arith), tt)

slot_order-compare_example : slot_order seven_out nine ≡ IndexKey.compare [] seven nine
unfolding values_size value_size fixed_size
slot_order-compare_example =
    slot_order-compare seven nine slot seven_out seven-IsValue (refl, tt) (refl, tt) (omega arith)
      (omega arith) (omega arith) encode-seven

null_slot_order_example :
    (slot_order null_out nine ≡ more) × (IndexKey.compare [] (null_value ∷ []) nine ≡ less)
null_slot_order_example =
    null_slot_order (number_value int32_type 9) slot null_out (omega arith) (omega arith)
      (omega arith) encode-null

-- Keys of one column.
abbrev one_column : ℕ → ℕ
one_column k = 1

one_column-All : (es : List (ℕ × RecordId)) → All (λ e. one_column e.0 ≤ one_column 30) es
one_column-All [] = tt
one_column-All (e ∷ es) = (omega arith, one_column-All es)

pages-IsWide : IsWide one_column pages 30
unfolding IsWide
pages-IsWide id entries next f = one_column-All entries

search-range_search_example :
    search cmp one_column (λ k q. k == q) (λ k q. ltb q k) pages 1 30
    ≡ range_search cmp pages 1 30 30
search-range_search_example =
    search-range_search cmp one_column (λ k q. k == q) (λ k q. ltb q k) pages 1 30 pages-IsWide
