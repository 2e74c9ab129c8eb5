-- ===== src/BTree/Tree.antt =====
-- A whole B+ tree of index/btree.cpp as a value, and what it means that the pages hold it.
use minidb.Prelude.{ℕ, zero, suc, ◌<◌, ◌≡◌, ◌≢◌, false, List, [], ◌∷◌, ◌++◌, Option, some, All}
use minidb.Prelude.Order.{Order, more}
use minidb.RecordId.{RecordId}
use minidb.BTree.{Node, leaf, internal, null_page_id, has_visited}

mutual
  -- A leaf, or an internal node with its children.
  pub data Tree (K : Type 0) : Type 0 where
    tip : (id : ℕ) (entries : List (K × RecordId)) → Tree K
    branch : (id : ℕ) (subs : Children K) → Tree K

  -- Children with a separator between each two.
  pub data Children (K : Type 0) : Type 0 where
    only : (sub : Tree K) → Children K
    before : (sub : Tree K) (key : K) (subs : Children K) → Children K

abbrev pub root_id : {K : Type 0} → Tree K → ℕ
root_id (tip id entries) = id
root_id (branch id subs) = id

abbrev pub child_ids : {K : Type 0} → Children K → List ℕ
child_ids (only t) = root_id t ∷ []
child_ids (before t k f) = root_id t ∷ child_ids f

abbrev pub separators : {K : Type 0} → Children K → List K
separators (only t) = []
separators (before t k f) = k ∷ separators f

unfoldable mutual
  -- The leaves from left to right.
  pub leaves : {K : Type 0} → Tree K → List (ℕ × List (K × RecordId))
  leaves (tip id entries) = (id, entries) ∷ []
  leaves (branch id subs) = children_leaves subs

  pub children_leaves : {K : Type 0} → Children K → List (ℕ × List (K × RecordId))
  children_leaves (only t) = leaves t
  children_leaves (before t k f) = leaves t ++ children_leaves f

module _ {K : Type 0} (fetch : ℕ → Option (Node K)) where
  unfoldable mutual
    -- The pages hold the nodes, no node is its own ancestor, and the tree is at most `hops` high.
    pub IsStored : ℕ → List ℕ → Tree K → Type 0
    IsStored hops visited (tip id entries) =
        (0 < hops)
        × (id ≢ null_page_id)
        × (has_visited id visited ≡ false)
        × ((next : ℕ) × (fetch id ≡ some (leaf entries next)))
    IsStored zero visited (branch id subs) = ⊥
    IsStored (suc hops) visited (branch id subs) =
        (id ≢ null_page_id)
        × (has_visited id visited ≡ false)
        × (fetch id ≡ some (internal (separators subs) (child_ids subs)))
        × AreStored hops (id ∷ visited) subs

    pub AreStored : ℕ → List ℕ → Children K → Type 0
    AreStored hops visited (only t) = IsStored hops visited t
    AreStored hops visited (before t k f) = IsStored hops visited t × AreStored hops visited f

module _ {K : Type 0} (compare : K → K → Order) where
  unfoldable mutual
    -- Separators ascend, and no key of a child is above the separator behind it.
    pub IsSearchTree : Tree K → Type 0
    IsSearchTree (tip id entries) = Unit
    IsSearchTree (branch id subs) = AreSearchTrees subs

    pub AreSearchTrees : Children K → Type 0
    AreSearchTrees (only t) = IsSearchTree t
    AreSearchTrees (before t k f) =
        IsSearchTree t
        × AreSearchTrees f
        × All (λ s. compare k s ≢ more) (separators f)
        × All (λ l. All (λ e. compare e.0 k ≢ more) l.1) (leaves t)
