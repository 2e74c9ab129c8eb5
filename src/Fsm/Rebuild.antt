-- ===== src/Fsm/Rebuild.antt =====
-- The walk of `FreeSpaceMap::rebuild` (storage/fsm.cpp) over the links of a heap file's pages.
use minidb.Prelude.{
  ℕ, zero, suc, ◌≤◌, ◌<◌, ◌≡◌, refl, sym, ap, subst, ◌≢◌, inl, inr, List, [], ◌∷◌, Option, none,
  some, arith, Elem, All-of_Elem, length, map,
}
use minidb.Prelude.Distinct.{Absent, Distinct}
use minidb.Fsm.{Entry, PageView, null_page_id, fsm_encode, walk, rebuild}
use minidb.Fsm.Search.{IsAccurate}

abbrev id_of : Entry → ℕ
id_of e = e.page_id

-- The pages that a walk over the links from `pid` visits: the links end at the null page, and no
-- page comes twice.
pub data Chain (fetch : ℕ → Option PageView) : ℕ → List ℕ → Type 0 where
  end : {pid : ℕ} → pid ≡ null_page_id → Chain fetch pid []
  link :
      {pid : ℕ} {ps : List ℕ} (v : PageView)
      → pid ≢ null_page_id
      → fetch pid ≡ some v
      → Chain fetch v.next_page_id ps
      → Chain fetch pid (pid ∷ ps)

abbrev pub free_of : (ℕ → Option PageView) → ℕ → ℕ
free_of fetch pid = elim (fetch pid) [ none ↦ 0 | some v ↦ v.free_space ]

walk-Chain :
    (fetch : ℕ → Option PageView) (fuel : ℕ) {pid : ℕ} {ps : List ℕ}
    → Chain fetch pid ps
    → length ps < fuel
    → walk fuel fetch pid
      ≡ map (λ p. record { page_id = p; category = fsm_encode (free_of fetch p) }) ps
unfolding walk
walk-Chain fetch zero c h = elim h [ ]
walk-Chain fetch (suc fuel) (end z) h = ground arith
walk-Chain fetch (suc fuel) (link v nz e c) h = ground (arith, walk-Chain fetch fuel c, e, nz)

Chain-unique :
    {fetch : ℕ → Option PageView} {pid : ℕ} {ps qs : List ℕ}
    → Chain fetch pid ps
    → Chain fetch pid qs
    → length ps ≡ length qs
Chain-unique (end z) (end w) = refl
Chain-unique (end z) (link v nz e c) = absurd (nz z)
Chain-unique (link v nz e c) (end z) = absurd (nz z)
Chain-unique {fetch} (link v nz e c) (link {ps = rest} w nz' e' c') =
    let same : w.next_page_id ≡ v.next_page_id = ground arith in
    ap suc (Chain-unique c (subst (λ k. Chain fetch k rest) same c'))

Chain-from :
    {fetch : ℕ → Option PageView} {pid : ℕ} {ps : List ℕ} (q : ℕ)
    → Chain fetch pid ps
    → Elem q ps
    → (qs : List ℕ) × Chain fetch q qs × (length qs ≤ length ps)
Chain-from q (end z) m = elim m [ ]
Chain-from {fetch} q (link {pid = first} {ps = rest} v nz e c) (inl p) =
    (first ∷ rest, subst (λ k. Chain fetch k (first ∷ rest)) (sym p) (link v nz e c), omega arith)
Chain-from q (link v nz e c) (inr m) = let (qs, d, h) = Chain-from q c m in (qs, d, omega arith)

-- A walk that ends visits no page twice.
Chain-Distinct :
    {fetch : ℕ → Option PageView} {pid : ℕ} {ps : List ℕ}
    → Chain fetch pid ps
    → Distinct (λ p. p) ps
Chain-Distinct (end z) = tt
Chain-Distinct {fetch} (link {pid} {ps} v nz e c) = (
  All-of_Elem (λ q. q ≢ pid) ps
      (λ q m r.
        let (qs, d, h) = Chain-from q c m in
        let d' : Chain fetch pid qs = subst (λ k. Chain fetch k qs) r d in
        absurd (omega (arith, Chain-unique (link v nz e c) d'))),
  Chain-Distinct c,
)

abbrev entry_of : (ℕ → Option PageView) → ℕ → Entry
entry_of fetch p = record { page_id = p; category = fsm_encode (free_of fetch p) }

Absent-map :
    (fetch : ℕ → Option PageView) (k : ℕ) (ps : List ℕ)
    → Absent (λ p. p) k ps
    → Absent id_of k (map (entry_of fetch) ps)
Absent-map fetch k [] a = tt
Absent-map fetch k (p ∷ ps) a = (a.0, Absent-map fetch k ps a.1)

Distinct-map :
    (fetch : ℕ → Option PageView) (ps : List ℕ)
    → Distinct (λ p. p) ps
    → Distinct id_of (map (entry_of fetch) ps)
Distinct-map fetch [] d = tt
Distinct-map fetch (p ∷ ps) d = (Absent-map fetch p ps d.0, Distinct-map fetch ps d.1)

category-map :
    (fetch : ℕ → Option PageView) (ps : List ℕ) (e : Entry)
    → Elem e (map (entry_of fetch) ps)
    → e.category ≡ fsm_encode (free_of fetch e.page_id)
category-map fetch [] e m = elim m [ ]
category-map fetch (p ∷ ps) e (inl q) =
    subst (λ (x : Entry). x.category ≡ fsm_encode (free_of fetch x.page_id)) (sym q) refl
category-map fetch (p ∷ ps) e (inr m) = category-map fetch ps e m

-- When the links from the first data page end at the null page, and the fuel is more than the pages
-- on the way, `rebuild` tracks exactly those pages in order, whatever the map was, and is accurate.
pub rebuild-IsAccurate :
    (fetch : ℕ → Option PageView) (fuel first : ℕ) (ps : List ℕ) (es : List Entry)
    → Chain fetch first ps
    → length ps < fuel
    → (map id_of (rebuild fuel fetch first es) ≡ ps)
      × IsAccurate (free_of fetch) (rebuild fuel fetch first es)
unfolding rebuild
rebuild-IsAccurate fetch fuel first ps es c h = rw (walk-Chain fetch fuel c h) (
  ids ps,
  record { category = category-map fetch ps; distinct = Distinct-map fetch ps (Chain-Distinct c) },
)
  where
    ids : (qs : List ℕ) → map id_of (map (entry_of fetch) qs) ≡ qs
    ids [] = refl
    ids (q ∷ qs) = ap (λ r. q ∷ r) (ids qs)
