-- ===== src/BTree/Descent.antt =====
-- The descent of find_leaf_lower_bound of index/btree.cpp.
use minidb.Prelude.{
  ℕ, zero, suc, ◌≡◌, ◌≢◌, refl, sym, ap, subst, ◌∙◌, inl, inr, false, not, List, [], ◌∷◌, ◌++◌,
  Option, some, arith, ◌==◌, get_elem?, All, All-append, append_assoc, Bool-cases,
}
use minidb.Prelude.Order.{Order, less, same, more, IsOrder}
use minidb.RecordId.{RecordId}
use minidb.BTree.{
  Node, leaf, internal, null_page_id, is_less, first_not_below, has_visited, descend,
}
use minidb.BTree.Search.{IsMonotone, IsFirst, find_first-IsFirst}
use minidb.BTree.Leaf.{IsSorted, sorted_pair}
use minidb.BTree.Tree.{
  Tree, tip, branch, Children, only, before, root_id, child_ids, separators, leaves,
  children_leaves, IsStored, AreStored, IsSearchTree, AreSearchTrees,
}

-- The leaf stands in the list behind leaves that are all below the key.
pub record IsLocated {K : Type 0} (compare : K → K → Order) (key : K)
    (ls : List (ℕ × List (K × RecordId))) (id : ℕ) : Type 0 where
  pub front : List (ℕ × List (K × RecordId))
  pub entries : List (K × RecordId)
  pub back : List (ℕ × List (K × RecordId))
  pub parts : ls ≡ front ++ (id, entries) ∷ back
  pub below : All (λ l. All (λ e. compare e.0 key ≡ less) l.1) front

module _ {K : Type 0} (compare : K → K → Order) (o : IsOrder compare) (key : K) where
  not_below_stays : (a b : K) → compare a b ≢ more → compare b key ≡ less → compare a key ≡ less
  not_below_stays a b le down = cases (compare a b) refl
    where
      cases : (q : Order) → compare a b ≡ q → compare a key ≡ less
      cases less e = o.trans a b key e down
      cases same e = o.congr a b key e ∙ down
      cases more e = absurd (le e)

  not_below-IsMonotone :
      (ks : List K) → IsSorted compare ks → IsMonotone (λ k. not (is_less (compare k key))) ks
  not_below-IsMonotone ks s = record {
    stays = λ i j a b le e f t. elim (Bool-cases (is_less (compare b key))) [
      | inr no' ↦ rw no' refl
      | inl yes' ↦
          let down : compare b key ≡ less = ground arith in
          ground (arith, not_below_stays a b (sorted_pair compare o ks i j a b s le e f) down)
    ];
  }

  first_not_below-IsFirst :
      (ks : List K)
      → IsSorted compare ks
      → IsFirst (λ k. not (is_less (compare k key))) ks (first_not_below compare ks key)
  unfolding first_not_below
  first_not_below-IsFirst ks s =
      find_first-IsFirst (λ k. not (is_less (compare k key))) ks (not_below-IsMonotone ks s)

  separators-IsSorted :
      (f : Children K) → AreSearchTrees compare f → IsSorted compare (separators f)
  unfolding IsSorted AreSearchTrees
  separators-IsSorted (only t) s = tt
  separators-IsSorted (before t k f) s = (s.2, separators-IsSorted f s.1)

  -- All of a child is below the key when the separator behind it is.
  below_separator :
      (k : K) (es : List (K × RecordId))
      → compare k key ≡ less
      → All (λ e. compare e.0 k ≢ more) es
      → All (λ e. compare e.0 key ≡ less) es
  below_separator k [] down h = tt
  below_separator k (e ∷ es) down h =
      (not_below_stays e.0 k h.0 down, below_separator k es down h.1)

  below_separators :
      (k : K) (ls : List (ℕ × List (K × RecordId)))
      → compare k key ≡ less
      → All (λ l. All (λ e. compare e.0 k ≢ more) l.1) ls
      → All (λ l. All (λ e. compare e.0 key ≡ less) l.1) ls
  below_separators k [] down h = tt
  below_separators k (l ∷ ls) down h =
      (below_separator k l.1 down h.0, below_separators k ls down h.1)

  module _ (fetch : ℕ → Option (Node K)) where
    -- The leaf that the descent ends in.
    abbrev pub reached : ℕ → List ℕ → ℕ → ℕ → ℕ
    reached hops visited parent id =
        (descend fetch (λ ks. first_not_below compare ks key) hops visited parent id).0

    descend-leaf :
        (position : List K → ℕ) (hops id parent next : ℕ) (visited : List ℕ)
        (entries : List (K × RecordId))
        → id ≢ null_page_id
        → has_visited id visited ≡ false
        → fetch id ≡ some (leaf entries next)
        → descend fetch position (suc hops) visited parent id ≡ (id, parent)
    unfolding descend
    descend-leaf position hops id parent next visited entries nonnull new f =
        let there : (id == null_page_id) ≡ false = ground arith in rw (there, new, f) refl

    descend-internal :
        (position : List K → ℕ) (hops id parent child : ℕ) (visited : List ℕ) (ks : List K)
        (cs : List ℕ)
        → id ≢ null_page_id
        → has_visited id visited ≡ false
        → fetch id ≡ some (internal ks cs)
        → get_elem? cs (position ks) ≡ some child
        → descend fetch position (suc hops) visited parent id
          ≡ descend fetch position hops (id ∷ visited) id child
    unfolding descend
    descend-internal position hops id parent child visited ks cs nonnull new f at =
        let there : (id == null_page_id) ≡ false = ground arith in rw (there, new, f, at) refl

    mutual
      unfolding IsStored AreStored IsSearchTree AreSearchTrees leaves children_leaves

      -- The descent ends in a leaf, and all the leaves before it are below the key.
      pub descend-IsLocated :
          (t : Tree K) (hops : ℕ) (visited : List ℕ) (parent : ℕ)
          → IsStored fetch hops visited t
          → IsSearchTree compare t
          → IsLocated compare key (leaves t) (reached hops visited parent (root_id t))
      descend-IsLocated (tip id entries) zero visited parent d s = absurd (omega (arith, d.0))
      descend-IsLocated (tip id entries) (suc hops) visited parent (le, nonnull, new, there) s =
          record {
            front = [];
            entries = entries;
            back = [];
            parts =
                ap (λ d. (d.0, entries) ∷ [])
                  (sym (
                    descend-leaf (λ ks. first_not_below compare ks key) hops id parent there.0
                      visited entries nonnull new there.1));
            below = tt;
          }
      descend-IsLocated (branch id subs) zero visited parent d s = elim d [ ]
      descend-IsLocated (branch id subs) (suc hops) visited parent (nonnull, new, f, d) s =
          let (child, at, l) =
            child-IsLocated subs hops (id ∷ visited) id
              (first_not_below compare (separators subs) key) d s
              (first_not_below-IsFirst (separators subs) (separators-IsSorted subs s)) in
          subst (λ d. IsLocated compare key (children_leaves subs) d.0)
            (sym (
              descend-internal (λ ks. first_not_below compare ks key) hops id parent child visited
                (separators subs) (child_ids subs) nonnull new f at))
            l

      child-IsLocated :
          (f : Children K) (hops : ℕ) (visited : List ℕ) (parent r : ℕ)
          → AreStored fetch hops visited f
          → AreSearchTrees compare f
          → IsFirst (λ k. not (is_less (compare k key))) (separators f) r
          → (child : ℕ) × (get_elem? (child_ids f) r ≡ some child)
            × IsLocated compare key (children_leaves f) (reached hops visited parent child)
      child-IsLocated (only t) hops visited parent zero d s at =
          (root_id t, refl, descend-IsLocated t hops visited parent d s)
      child-IsLocated (only t) hops visited parent (suc r) d s at = absurd (omega (arith, at.bound))
      child-IsLocated (before t k f) hops visited parent zero d s at =
          let l = descend-IsLocated t hops visited parent d.0 s.0 in
          (
            root_id t,
            refl,
            record {
              front = l.front;
              entries = l.entries;
              back = l.back ++ children_leaves f;
              parts =
                  ap (λ ls. ls ++ children_leaves f) l.parts
                  ∙ append_assoc l.front
                      ((reached hops visited parent (root_id t), l.entries) ∷ l.back)
                      (children_leaves f);
              below = l.below;
            },
          )
      child-IsLocated (before t k f) hops visited parent (suc r) d s at =
          let (child, e, l) = child-IsLocated f hops visited parent r d.1 s.1 (record {
            bound = omega (arith, at.bound);
            before = λ i a le q. at.before (suc i) a (omega arith) q;
            after = λ i a le q. at.after (suc i) a (omega arith) q;
          }) in
          (
            child,
            e,
            record {
              front = leaves t ++ l.front;
              entries = l.entries;
              back = l.back;
              parts =
                  ap (λ ls. leaves t ++ ls) l.parts
                  ∙ sym (
                      append_assoc (leaves t) l.front
                        ((reached hops visited parent child, l.entries) ∷ l.back));
              below =
                  All-append (λ l. All (λ e. compare e.0 key ≡ less) l.1) (leaves t) l.front
                    (below_separators k (leaves t)
                      (ground (arith, at.before 0 k (omega arith) refl)) s.3)
                    l.below;
            },
          )
