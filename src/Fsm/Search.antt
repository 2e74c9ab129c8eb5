-- ===== src/Fsm/Search.antt =====
-- The search of the free-space map (storage/fsm.cpp), and what each operation keeps of the map.
use minidb.Prelude.{
  ℕ, ◌+◌, ◌≤◌, ◌<◌, ◌≡◌, refl, sym, subst, ◌≢◌, inl, inr, List, [], ◌∷◌, arith, leb, ◌==◌,
  if◌then◌else◌, Elem, All, Bool-cases,
}
use minidb.Prelude.Distinct.{Distinct}
use minidb.Fsm.{Entry, null_page_id, fsm_encode, fsm_needed_category, first_at_least, find_page}

-- The category of each entry is that of its page, and no page has two entries.
pub record IsAccurate (free : ℕ → ℕ) (es : List Entry) : Type 0 where
  pub category : (e : Entry) → Elem e es → e.category ≡ fsm_encode (free e.page_id)
  pub distinct : Distinct (λ e. e.page_id) es

-- A write to the free space of one page.
abbrev pub with_free : (ℕ → ℕ) → ℕ → ℕ → ℕ → ℕ
with_free free pid bytes q = if pid == q then bytes else free q

-- The two encodings fit: a category that is enough promises enough bytes.
category_promises_bytes :
    (needed free : ℕ)
    → needed + 6 ≤ 8160
    → fsm_needed_category needed ≤ fsm_encode free
    → needed + 6 ≤ free
unfolding fsm_encode fsm_needed_category
category_promises_bytes needed free h k = ground arith

category_too_small :
    (needed free : ℕ) → fsm_encode free < fsm_needed_category needed → free < needed + 6 + 31
unfolding fsm_encode fsm_needed_category
category_too_small needed free k = ground arith

first_at_least_sound :
    (c : ℕ) (es : List Entry)
    → first_at_least c es ≢ null_page_id
    → (e : Entry) × Elem e es × (e.page_id ≡ first_at_least c es) × (c ≤ e.category)
unfolding first_at_least
first_at_least_sound c [] h = absurd (h refl)
first_at_least_sound c (e ∷ es) h = elim (Bool-cases (leb c e.category)) [
  | inl fits ↦ (e, inl refl, rw fits, ground arith)
  | inr small ↦
      let (x, m, p, q) = first_at_least_sound c es (rw small at h) in (x, inr m, rw small p, q)
]

-- A page that the search returns in an accurate map has as many free bytes as the tuple, unrounded, and
-- its line pointer take, if these are at most 8160.
pub find_page_has_room :
    (free : ℕ → ℕ) (needed : ℕ) (es : List Entry)
    → IsAccurate free es
    → needed + 6 ≤ 8160
    → find_page needed es ≢ null_page_id
    → needed + 6 ≤ free (find_page needed es)
unfolding find_page
find_page_has_room free needed es acc h found =
    let (e, m, p, q) = first_at_least_sound (fsm_needed_category needed) es found in
    rw (← p) (category_promises_bytes needed (free e.page_id) h (rw (acc.category e m) at q))

first_at_least_none :
    (c : ℕ) (es : List Entry) (e : Entry)
    → All (λ x. x.page_id ≢ null_page_id) es
    → first_at_least c es ≡ null_page_id
    → Elem e es
    → e.category < c
unfolding first_at_least
first_at_least_none c [] e h z m = elim m [ ]
first_at_least_none c (x ∷ es) e h z m = elim (Bool-cases (leb c x.category)) [
  | inl fits ↦ absurd (h.0 (rw fits at z))
  | inr small ↦ elim m [
    | inl p ↦ subst (λ (y : Entry). y.category < c) (sym p) (ground arith)
    | inr n ↦ first_at_least_none c es e h.1 (rw small at z) n
  ]
]

-- When the search returns no page, every tracked page is nearly too full: its free bytes are fewer
-- than the tuple and its line pointer, rounded up to whole categories.
pub find_page_none :
    (free : ℕ → ℕ) (needed : ℕ) (es : List Entry) (e : Entry)
    → IsAccurate free es
    → All (λ x. x.page_id ≢ null_page_id) es
    → find_page needed es ≡ null_page_id
    → Elem e es
    → free e.page_id < needed + 6 + 31
unfolding find_page
find_page_none free needed es e acc h z m =
    category_too_small needed (free e.page_id)
      (rw (acc.category e m) at (first_at_least_none (fsm_needed_category needed) es e h z m))
