-- ===== src/Page/Changes.antt =====
-- The operations of storage/page.cpp that change one line pointer in place: mark_dead, reclaim_slot and
-- redirect_slot.
use minidb.Prelude.{
  ℕ, zero, suc, ◌<◌, ◌≡◌, refl, sym, ap, subst, ◌∙◌, ◌⊎◌, inl, inr, List, [], ◌∷◌, none, some,
  arith, ltb, ◌==◌, length, get_elem?, set, Bool-cases,
}
use minidb.Page.{LinePointer, Page}
use minidb.Page.Slots.{get_elem?-set, length-set}
use minidb.Page.Fresh.{IsPacked}

get_elem?-lt :
    (lps : List LinePointer) (i : ℕ) (lp : LinePointer) → get_elem? lps i ≡ some lp → i < length lps
get_elem?-lt [] i lp e = cc
get_elem?-lt (x ∷ lps) zero lp e = omega arith
get_elem?-lt (x ∷ lps) (suc i) lp e = omega (arith, get_elem?-lt lps i lp e)

-- The new line pointer has no space, or the space of the old one.
unfoldable pub SameSpace : LinePointer → LinePointer → Type 0
SameSpace new old = (new.length ≡ 0) ⊎ ((new.offset ≡ old.offset) × (new.length ≡ old.length))

module _ (p : Page) (i : ℕ) (new old : LinePointer) (k : IsPacked p)
    (here : get_elem? p.line_pointers i ≡ some old) (s : SameSpace new old) where
  changed : Page
  changed = record p { line_pointers = set p.line_pointers i new }

  -- Every line pointer with space has the space of the old one at its index.
  origin :
      (j : ℕ) (a : LinePointer)
      → get_elem? changed.line_pointers j ≡ some a
      → 0 < a.length
      → (b : LinePointer) × (get_elem? p.line_pointers j ≡ some b)
        × (a.offset ≡ b.offset)
        × (a.length ≡ b.length)
  unfolding changed SameSpace
  origin j a q z =
      let rule = get_elem?-set p.line_pointers i j new (get_elem?-lt p.line_pointers i old here) in
      elim (Bool-cases (i == j)) [
        | inr n ↦ (a, ground (arith, rule), refl, refl)
        | inl e ↦
            let at : i ≡ j = ground arith in
            let both : some new ≡ some a = ground (arith, rule) in
            let same : new ≡ a = ap (λ o. elim o [ none ↦ a | some y ↦ y ]) both in
            let off = ap (λ (y : LinePointer). y.offset) same in
            let len = ap (λ (y : LinePointer). y.length) same in
            elim s [
              | inl zero_space ↦ absurd (omega (arith, zero_space, len))
              | inr (o, l) ↦ (
                old,
                subst (λ t. get_elem? p.line_pointers t ≡ some old) at here,
                sym off ∙ o,
                sym len ∙ l,
              )
            ]
      ]

  pub changed-IsPacked : IsPacked (record p { line_pointers = set p.line_pointers i new })
  unfolding changed
  changed-IsPacked =
      let size = length-set p.line_pointers i new in
      record {
        few = omega (arith, k.few, size);
        inside = λ j a q z.
            let (b, e, o, l) = origin j a q z in
            let old_space = k.inside j b e (omega arith) in rw (size, o, l) old_space;
        small = λ j a q. elim (Bool-cases (ltb 0 a.length)) [
          | inr n ↦ ground arith
          | inl z ↦ let (b, e, o, l) = origin j a q (ground arith) in omega (arith, k.small j b e)
        ];
        apart = λ j m a c q r ne za zc.
            let (b, e, o, l) = origin j a q za in
            let (d, e', o', l') = origin m c r zc in
            rw (o, l, o', l') (k.apart j m b d e e' ne (omega arith) (omega arith));
      }
