-- ===== src/BTree/Lookup.antt =====
-- search of index/btree.cpp against range_search.
use minidb.Prelude.{
  ℕ, zero, suc, ◌≤◌, ◌≡◌, refl, ap, inl, inr, Bool, false, List, [], ◌∷◌, Option, some, arith, ltb,
  ◌==◌, if◌then◌else◌, All, Option-cases,
}
use minidb.Prelude.Order.{Order}
use minidb.RecordId.{RecordId}
use minidb.BTree.{
  Node, leaf, internal, null_page_id, max_page_chain_hops, find_leaf_lower_bound, scan_entries,
  scan_leaves, range_search, search_entries, search_leaves, search,
}

-- No key of a page has more columns than the key.
unfoldable pub IsWide : {K : Type 0} → (K → ℕ) → (ℕ → Option (Node K)) → K → Type 0
IsWide {K} columns fetch key =
    (id : ℕ) (entries : List (K × RecordId)) (next : ℕ)
    → fetch id ≡ some (leaf entries next)
    → All (λ e. columns e.0 ≤ columns key) entries

module _ {K : Type 0} (compare : K → K → Order) (columns : K → ℕ) (starts_with above : K → K → Bool)
    (fetch : ℕ → Option (Node K)) where
  search_entries-scan_entries :
      (key : K) (entries : List (K × RecordId))
      → All (λ e. columns e.0 ≤ columns key) entries
      → search_entries compare columns starts_with above key entries
        ≡ scan_entries compare key key entries
  unfolding search_entries scan_entries
  search_entries-scan_entries key [] w = refl
  search_entries-scan_entries key (e ∷ es) w =
      let rest = search_entries-scan_entries key es w.1 in
      let wide : ltb (columns key) (columns e.0) ≡ false = ground (arith, w.0) in
      ground (arith, rest, wide)

  search_leaves-step :
      (key : K) (hops : ℕ) (visited : List ℕ) (id : ℕ)
      → IsWide columns fetch key
      → ((next : ℕ)
          → search_leaves compare columns starts_with above fetch key hops (id ∷ visited) next
            ≡ scan_leaves compare fetch key key hops (id ∷ visited) next)
      → search_leaves compare columns starts_with above fetch key (suc hops) visited id
        ≡ scan_leaves compare fetch key key (suc hops) visited id
  unfolding search_leaves scan_leaves IsWide
  search_leaves-step key hops visited id w rest = elim (Option-cases (fetch id)) [
    | inl f ↦ rw f refl
    | inr (internal keys children, f) ↦ rw f refl
    | inr (leaf entries next, f) ↦
        rw (f, search_entries-scan_entries key entries (w id entries next f), rest next) refl
  ]

  search_leaves-scan_leaves :
      (key : K) (hops : ℕ) (visited : List ℕ) (id : ℕ)
      → IsWide columns fetch key
      → search_leaves compare columns starts_with above fetch key hops visited id
        ≡ scan_leaves compare fetch key key hops visited id
  search_leaves-scan_leaves key zero visited id w = unfold search_leaves scan_leaves in refl
  search_leaves-scan_leaves key (suc hops) visited id w =
      search_leaves-step key hops visited id w
        (λ next. search_leaves-scan_leaves key hops (id ∷ visited) next w)

  -- Where no key of a leaf has more columns than the key, search answers what range_search answers from
  -- the key to itself.
  pub search-range_search :
      (root : ℕ) (key : K)
      → IsWide columns fetch key
      → search compare columns starts_with above fetch root key
        ≡ range_search compare fetch root key key
  unfolding search range_search
  search-range_search root key w =
      ap (λ found. if root == null_page_id then [] else found)
        (search_leaves-scan_leaves key max_page_chain_hops []
          (find_leaf_lower_bound compare fetch root key) w)
