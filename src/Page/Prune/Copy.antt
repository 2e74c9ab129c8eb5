-- ===== src/Page/Prune/Copy.antt =====
-- The loops of Page::prune of storage/page.cpp that copy the tuples.
use minidb.Prelude.{
  ℕ, zero, suc, ◌+◌, ◌-◌, ◌*◌, ◌/◌, ◌≤◌, ◌<◌, ◌≡◌, refl, sym, ap, subst, ◌∙◌, inl, inr, true, false,
  List, [], ◌∷◌, some, arith, get_elem?, Bool-cases,
}
use minidb.Page.{LinePointer, is_valid, u16, memcpy, data_upper_bound}
use minidb.Page.Prune.{next_end, copy_tuples, used_space}

pub used_here :
    (lp : LinePointer) (lps : List LinePointer)
    → is_valid lp ≡ true
    → used_space (lp ∷ lps) ≡ (lp.length + 7) / 8 * 8 + used_space lps
unfolding used_space
used_here lp lps v = ground (arith, v)

pub used_other :
    (lp : LinePointer) (lps : List LinePointer)
    → is_valid lp ≡ false
    → used_space (lp ∷ lps) ≡ used_space lps
unfolding used_space
used_other lp lps v = ground (arith, v)

-- Without a wrap the next tuple is as far below as its length, rounded.
pub next_end_lem :
    (at : ℕ) (lp : LinePointer) (lps : List LinePointer)
    → is_valid lp ≡ true
    → at ≤ data_upper_bound
    → used_space (lp ∷ lps) ≤ at
    → (next_end at lp + lp.length ≤ at)
      × (used_space lps ≤ next_end at lp)
      × (next_end at lp ≤ data_upper_bound)
      × (at ≡ next_end at lp + (lp.length + 7) / 8 * 8)
next_end_lem at lp lps v low fits =
    let u = used_here lp lps v in
    let size : ℕ = (lp.length + 7) / 8 * 8 in
    let bound : size ≤ at = omega (arith, u, fits) in
    let wraps : u16 size ≡ size = omega (arith, bound, low) in
    let n : next_end at lp ≡ u16 (at + 65536 - u16 size) = ground (arith, v) in
    let e : next_end at lp ≡ at - size = omega (arith, n, wraps, bound, low) in
    (
      omega (arith, e, bound),
      omega (arith, e, u, fits),
      omega (arith, e, low),
      omega (arith, e, bound),
    )

-- Where a tuple goes.
unfoldable pub place : ℕ → List LinePointer → ℕ → ℕ
place at [] i = at
place at (lp ∷ lps) zero = next_end at lp
place at (lp ∷ lps) (suc i) = place (next_end at lp) lps i

-- One step of a loop, for a tuple and for a slot without one.
module _ (from : LinePointer → ℕ → ℕ → ℕ) where
  copy_here :
      (at : ℕ) (bytes : ℕ → ℕ) (lp : LinePointer) (lps : List LinePointer)
      → is_valid lp ≡ true
      → copy_tuples from at bytes (lp ∷ lps)
        ≡ copy_tuples from
            (next_end at lp)
            (memcpy bytes (next_end at lp) (from lp (next_end at lp)) lp.length)
            lps
  unfolding copy_tuples
  copy_here at bytes lp lps v = ground (arith, v)

  copy_other :
      (at : ℕ) (bytes : ℕ → ℕ) (lp : LinePointer) (lps : List LinePointer)
      → is_valid lp ≡ false
      → copy_tuples from at bytes (lp ∷ lps) ≡ copy_tuples from at bytes lps
  unfolding copy_tuples
  copy_other at bytes lp lps v = ground (arith, v)

  -- A loop writes below its bound.
  copy_above :
      (at : ℕ) (bytes : ℕ → ℕ) (lps : List LinePointer) (a : ℕ)
      → at ≤ data_upper_bound
      → used_space lps ≤ at
      → at ≤ a
      → copy_tuples from at bytes lps a ≡ bytes a
  unfolding copy_tuples
  copy_above at bytes [] a low fits above = refl
  copy_above at bytes (lp ∷ lps) a low fits above = elim (Bool-cases (is_valid lp)) [
    | inl v ↦
        let (ends, rest, low', e) = next_end_lem at lp lps v low fits in
        ap (λ f. f a) (copy_here at bytes lp lps v)
        ∙ copy_above (next_end at lp)
            (memcpy bytes (next_end at lp) (from lp (next_end at lp)) lp.length) lps a low' rest
            (omega (arith, ends, above))
        ∙ ground (arith, ends, above)
    | inr no' ↦
        ap (λ f. f a) (copy_other at bytes lp lps no')
        ∙ copy_above at bytes lps a low (omega (arith, used_other lp lps no', fits)) above
  ]

  copy_first :
      (at : ℕ) (bytes : ℕ → ℕ) (lp : LinePointer) (lps : List LinePointer) (k : ℕ)
      → at ≤ data_upper_bound
      → used_space (lp ∷ lps) ≤ at
      → is_valid lp ≡ true
      → k < lp.length
      → copy_tuples from at bytes (lp ∷ lps) (next_end at lp + k) ≡ from lp (next_end at lp) k
  copy_first at bytes lp lps k low fits v lt =
      let n = next_end at lp in
      let (ends, rest, low', e) = next_end_lem at lp lps v low fits in
      let back : n + k - n ≡ k = omega arith in
      ap (λ f. f (n + k)) (copy_here at bytes lp lps v)
      ∙ copy_above n (memcpy bytes n (from lp n) lp.length) lps (n + k) low' rest (omega arith)
      ∙ ground (arith, lt, ap (from lp n) back)

  -- A tuple's bytes are what the loop copies.
  pub copy_at :
      (at : ℕ) (bytes : ℕ → ℕ) (lps : List LinePointer) (i : ℕ) (lp : LinePointer) (k : ℕ)
      → at ≤ data_upper_bound
      → used_space lps ≤ at
      → get_elem? lps i ≡ some lp
      → is_valid lp ≡ true
      → k < lp.length
      → copy_tuples from at bytes lps (place at lps i + k) ≡ from lp (place at lps i) k
  unfolding place
  copy_at at bytes [] i lp k low fits e v lt = cc
  copy_at at bytes (x ∷ lps) zero lp k low fits e v lt =
      let same : x ≡ lp = cc in
      subst
        (λ y. copy_tuples from at bytes (x ∷ lps) (next_end at x + k) ≡ from y (next_end at x) k)
        same
        (copy_first at bytes x lps k low fits (subst (λ y. is_valid y ≡ true) (sym same) v)
          (subst (λ (y : LinePointer). k < y.length) (sym same) lt))
  copy_at at bytes (x ∷ lps) (suc i) lp k low fits e v lt = elim (Bool-cases (is_valid x)) [
    | inl vx ↦
        let (ends, rest, low', q) = next_end_lem at x lps vx low fits in
        ap (λ f. f (place (next_end at x) lps i + k)) (copy_here at bytes x lps vx)
        ∙ copy_at (next_end at x) (memcpy bytes (next_end at x) (from x (next_end at x)) x.length)
            lps i lp k low' rest e v lt
    | inr no' ↦
        let same : next_end at x ≡ at = ground (arith, no') in
        subst
          (λ n. copy_tuples from at bytes (x ∷ lps) (place n lps i + k) ≡ from lp (place n lps i) k)
          (sym same)
          (ap (λ f. f (place at lps i + k)) (copy_other at bytes x lps no')
            ∙ copy_at at bytes lps i lp k low (omega (arith, used_other x lps no', fits)) e v lt)
  ]
