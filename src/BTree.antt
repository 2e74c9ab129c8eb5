-- ===== src/BTree.antt =====
-- index/btree.h and btree.cpp: the nodes of the B+ tree and the scans of its leaves. The pool is a
-- function from page ids to nodes, `none` where a page cannot be fetched. Keys are any type with a
-- comparison; Slot has the one that the tree makes at an encoded key.
pub mod Slot
pub mod Search
pub mod Leaf
pub mod Split
pub mod Scan
pub mod Tree
pub mod Descent
pub mod Range
pub mod Lookup
mod Examples
use minidb.Prelude.{
  ℕ, zero, suc, ◌+◌, ◌-◌, ◌/◌, Bool, true, false, not, ◌&&◌, ◌||◌, List, [], ◌∷◌, ◌++◌, Option,
  none, some, ltb, leb, ◌==◌, if◌then◌else◌, length, get_elem?, take, drop, map,
}
use minidb.Prelude.Order.{Order, less, same, more}
use minidb.RecordId.{RecordId}

abbrev null_page_id : ℕ
null_page_id = 0

-- kMaxPageChainHops
abbrev max_page_chain_hops : ℕ
max_page_chain_hops = 1000000

-- kIndexMaxKeys, of kPageSize and the sizes of a slot.
abbrev pub index_max_keys : ℕ
index_max_keys = 57

pub data Node (K : Type 0) : Type 0 where
  leaf : (entries : List (K × RecordId)) (next : ℕ) → Node K
  internal : (keys : List K) (children : List ℕ) → Node K

abbrev pub is_more : Order → Bool
is_more more = true
is_more _ = false

abbrev pub is_less : Order → Bool
is_less less = true
is_less _ = false

-- The binary search that the tree makes in a node: the first index in [lo, hi) where the test holds.
-- A round halves the range, so that `hi - lo` rounds are enough.
unfoldable pub find_first : {K : Type 0} → (K → Bool) → List K → ℕ → ℕ → ℕ → ℕ
find_first test keys zero lo hi = lo
find_first test keys (suc fuel) lo hi =
    let mid = lo + (hi - lo) / 2 in
    let left : Bool = elim (get_elem? keys mid) [ none ↦ false | some k ↦ test k ] in
    if ltb lo hi
    then find_first test keys fuel (if left then lo else mid + 1) (if left then mid else hi)
    else lo

module _ {K : Type 0} (compare : K → K → Order) where
  -- The first key above `key`, as find_leaf_with_parent and insert_into_leaf look for it.
  unfoldable pub first_above : List K → K → ℕ
  unfolding find_first
  first_above keys key =
      find_first (λ k. is_more (compare k key)) keys (length keys) 0 (length keys)

  -- The first key not below `key`, as find_leaf_lower_bound looks for it.
  unfoldable pub first_not_below : List K → K → ℕ
  unfolding find_first
  first_not_below keys key =
      find_first (λ k. not (is_less (compare k key))) keys (length keys) 0 (length keys)

  -- The position that insert_into_leaf finds: the end where the last key is not above.
  unfoldable pub leaf_position : List K → K → ℕ
  leaf_position keys key =
      let n = length keys in
      if ltb 0 n
      then (elim (get_elem? keys (n - 1)) [
        | none ↦ n
        | some k ↦ if is_more (compare k key) then first_above keys key else n
      ])
      else n

  -- BPlusTree::insert_into_leaf, of the entries of the leaf.
  unfoldable pub insert_into_leaf : List (K × RecordId) → K → RecordId → List (K × RecordId)
  insert_into_leaf entries key rid =
      let pos = leaf_position (map (λ e. e.0) entries) key in
      take pos entries ++ (key, rid) ∷ drop pos entries

  -- The position in the parent: the first key above, by a scan.
  unfoldable pub parent_position : List K → K → ℕ
  parent_position [] key = 0
  parent_position (k ∷ ks) key =
      let rest = suc (parent_position ks key) in if is_more (compare k key) then 0 else rest

  -- insert_into_parent, of the keys and children of the parent.
  unfoldable pub insert_separator : List K → List ℕ → K → ℕ → List K × List ℕ
  unfolding parent_position
  insert_separator keys children key right =
      let pos = parent_position keys key in
      (
        take pos keys ++ key ∷ drop pos keys,
        take (pos + 1) children ++ right ∷ drop (pos + 1) children,
      )

  -- The loop of range_search over the entries of a leaf: the results, and whether it returned.
  unfoldable pub scan_entries : K → K → List (K × RecordId) → List RecordId × Bool
  scan_entries low high [] = ([], false)
  scan_entries low high (e ∷ es) =
      let rest = scan_entries low high es in
      if is_more (compare e.0 high)
      then ([], true)
      else if is_less (compare e.0 low)
      then rest
      else (e.1 ∷ rest.0, rest.1)

-- split_leaf, of the entries: what stays and what moves to the new leaf.
unfoldable pub split_leaf :
    {K : Type 0} → List (K × RecordId) → List (K × RecordId) × List (K × RecordId)
split_leaf entries = let mid = length entries / 2 in (take mid entries, drop mid entries)

-- split_internal: the keys and children that stay, the key that moves up, and those of the new node.
pub record InternalSplit (K : Type 0) : Type 0 where
  pub left_keys : List K
  pub left_children : List ℕ
  pub push_key : Option K
  pub right_keys : List K
  pub right_children : List ℕ

unfoldable pub split_internal : {K : Type 0} → List K → List ℕ → InternalSplit K
split_internal keys children =
    let mid = length keys / 2 in
    record {
      left_keys = take mid keys;
      left_children = take (mid + 1) children;
      push_key = get_elem? keys mid;
      right_keys = drop (mid + 1) keys;
      right_children = drop (mid + 1) children;
    }

unfoldable pub has_visited : ℕ → List ℕ → Bool
has_visited id [] = false
has_visited id (x ∷ xs) = if x == id then true else has_visited id xs

module _ {K : Type 0} (fetch : ℕ → Option (Node K)) where
  -- The loops of find_leaf_with_parent and find_leaf_lower_bound, by the search in a node: the leaf and
  -- its parent. A page that cannot be fetched, a page seen before and too many hops end the descent.
  unfoldable pub descend : (List K → ℕ) → ℕ → List ℕ → ℕ → ℕ → ℕ × ℕ
  unfolding has_visited
  descend position zero visited parent current = (current, null_page_id)
  descend position (suc hops) visited parent current =
      if current == null_page_id || has_visited current visited
      then (current, null_page_id)
      else elim (fetch current) [
        | none ↦ (current, null_page_id)
        | some (leaf entries next) ↦ (current, parent)
        | some (internal keys children) ↦ elim (get_elem? children (position keys)) [
          | none ↦ (null_page_id, null_page_id)
          | some child ↦ descend position hops (current ∷ visited) current child
        ]
      ]

module _ {K : Type 0} (compare : K → K → Order) (fetch : ℕ → Option (Node K)) where
  unfoldable pub find_leaf_with_parent : ℕ → K → ℕ × ℕ
  find_leaf_with_parent root key =
      descend fetch (λ keys. first_above compare keys key) max_page_chain_hops [] null_page_id root

  unfoldable pub find_leaf_lower_bound : ℕ → K → ℕ
  find_leaf_lower_bound root key =
      (descend fetch (λ keys. first_not_below compare keys key) max_page_chain_hops [] null_page_id
        root).0

  -- The loop of range_search over the leaves.
  unfoldable pub scan_leaves : K → K → ℕ → List ℕ → ℕ → List RecordId
  unfolding scan_entries has_visited
  scan_leaves low high zero visited id = []
  scan_leaves low high (suc hops) visited id =
      if id == null_page_id || has_visited id visited then [] else elim (fetch id) [
        | none ↦ []
        | some (internal keys children) ↦ []
        | some (leaf entries next) ↦
            let here = scan_entries compare low high entries in
            let rest = scan_leaves low high hops (id ∷ visited) next in
            if here.1 then here.0 else here.0 ++ rest
      ]

  -- BPlusTree::range_search
  unfoldable pub range_search : ℕ → K → K → List RecordId
  range_search root low high =
      if root == null_page_id
      then []
      else scan_leaves low high max_page_chain_hops [] (find_leaf_lower_bound root low)

-- Of BPlusTree::search: a slot with more columns than the key is compared by IndexKey's starts_with
-- and `>`, any other by the comparison of the tree.
module _ {K : Type 0} (compare : K → K → Order) (columns : K → ℕ)
    (starts_with above : K → K → Bool) where
  -- The loop over the entries of a leaf: the results, and whether it returned.
  unfoldable pub search_entries : K → List (K × RecordId) → List RecordId × Bool
  search_entries key [] = ([], false)
  search_entries key (e ∷ es) =
      let rest = search_entries key es in
      if ltb (columns key) (columns e.0)
      then (if starts_with e.0 key
          then (e.1 ∷ rest.0, rest.1)
          else if above e.0 key
          then ([], true)
          else rest)
      else elim (compare e.0 key) [
        | same ↦ (e.1 ∷ rest.0, rest.1)
        | more ↦ ([], true)
        | less ↦ rest
      ]

module _ {K : Type 0} (compare : K → K → Order) (columns : K → ℕ) (starts_with above : K → K → Bool)
    (fetch : ℕ → Option (Node K)) where
  -- The loop over the leaves.
  unfoldable pub search_leaves : K → ℕ → List ℕ → ℕ → List RecordId
  unfolding search_entries has_visited
  search_leaves key zero visited id = []
  search_leaves key (suc hops) visited id =
      if id == null_page_id || has_visited id visited then [] else elim (fetch id) [
        | none ↦ []
        | some (internal keys children) ↦ []
        | some (leaf entries next) ↦
            let here = search_entries compare columns starts_with above key entries in
            let rest = search_leaves key hops (id ∷ visited) next in
            if here.1 then here.0 else here.0 ++ rest
      ]

  -- BPlusTree::search
  unfoldable pub search : ℕ → K → List RecordId
  search root key =
      if root == null_page_id
      then []
      else search_leaves key max_page_chain_hops [] (find_leaf_lower_bound compare fetch root key)
