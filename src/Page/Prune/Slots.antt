-- ===== src/Page/Prune/Slots.antt =====
-- The slots after Page::prune of storage/page.cpp.
use minidb.Prelude.{
  ℕ, zero, suc, ◌+◌, ◌*◌, ◌/◌, ◌≤◌, ◌≡◌, refl, sym, ap, subst, ◌∙◌, inl, inr, true, false, List, [],
  ◌∷◌, none, some, arith, if◌then◌else◌, get_elem?, Bool-cases,
}
use minidb.Page.{LinePointer, is_valid, is_dead, lp_unused, data_upper_bound}
use minidb.Page.Prune.{mark_unused, next_end, move_offsets, used_space}
use minidb.Page.Prune.Copy.{used_here, used_other, next_end_lem, place}

-- The slots after the loops.
pub move_offsets-valid :
    (at : ℕ) (lps : List LinePointer) (i : ℕ) (lp : LinePointer)
    → get_elem? lps i ≡ some lp
    → is_valid lp ≡ true
    → get_elem? (move_offsets at lps) i ≡ some (record lp { offset = place at lps i })
unfolding move_offsets place
move_offsets-valid at [] i lp e v = cc
move_offsets-valid at (x ∷ lps) zero lp e v =
    let same : x ≡ lp = cc in
    subst
      (λ (y : LinePointer).
        some (if is_valid x then record x { offset = next_end at x } else x)
        ≡ some (record y { offset = next_end at x }))
      same
      (let vx : is_valid x ≡ true = subst (λ y. is_valid y ≡ true) (sym same) v in
        ground (arith, vx))
move_offsets-valid at (x ∷ lps) (suc i) lp e v = move_offsets-valid (next_end at x) lps i lp e v

pub move_offsets-invalid :
    (at : ℕ) (lps : List LinePointer) (i : ℕ) (lp : LinePointer)
    → get_elem? lps i ≡ some lp
    → is_valid lp ≡ false
    → get_elem? (move_offsets at lps) i ≡ some lp
unfolding move_offsets
move_offsets-invalid at [] i lp e v = cc
move_offsets-invalid at (x ∷ lps) zero lp e v =
    let same : x ≡ lp = cc in
    let vx : is_valid x ≡ false = subst (λ y. is_valid y ≡ false) (sym same) v in
    ground (arith, vx, same)
move_offsets-invalid at (x ∷ lps) (suc i) lp e v = move_offsets-invalid (next_end at x) lps i lp e v

pub move_offsets-none :
    (at : ℕ) (lps : List LinePointer) (i : ℕ)
    → get_elem? lps i ≡ none
    → get_elem? (move_offsets at lps) i ≡ none
unfolding move_offsets
move_offsets-none at [] i e = refl
move_offsets-none at (x ∷ lps) zero e = cc
move_offsets-none at (x ∷ lps) (suc i) e = move_offsets-none (next_end at x) lps i e

unfoldable pub marked : LinePointer → LinePointer
marked lp = if is_dead lp then record { offset = 0; length = 0; flags = lp_unused } else lp

pub marked-valid : (lp : LinePointer) → is_valid lp ≡ true → marked lp ≡ lp
unfolding marked
marked-valid lp v = ground (arith, v)

pub marked-invalid : (lp : LinePointer) → is_valid lp ≡ false → is_valid (marked lp) ≡ false
unfolding marked
marked-invalid lp v = ground (arith, v)

pub mark_unused-get_elem? :
    (lps : List LinePointer) (i : ℕ)
    → get_elem? (mark_unused lps) i
      ≡ elim (get_elem? lps i) [ none ↦ none | some lp ↦ some (marked lp) ]
unfolding mark_unused marked
mark_unused-get_elem? [] i = refl
mark_unused-get_elem? (x ∷ lps) zero = refl
mark_unused-get_elem? (x ∷ lps) (suc i) = mark_unused-get_elem? lps i

pub used_space-mark_unused :
    (lps : List LinePointer) → used_space (mark_unused lps) ≡ used_space lps
unfolding mark_unused
used_space-mark_unused [] = refl
used_space-mark_unused (lp ∷ lps) =
    let rest = used_space-mark_unused lps in
    elim (Bool-cases (is_valid lp)) [
      | inl v ↦
          let kept : (if is_dead lp
                then record { offset = 0; length = 0; flags = lp_unused }
                else lp)
              ≡ lp =
            ground (arith, v) in
          ap (λ x. used_space (x ∷ mark_unused lps)) kept
          ∙ used_here lp (mark_unused lps) v
          ∙ ap (λ n. (lp.length + 7) / 8 * 8 + n) rest
          ∙ sym (used_here lp lps v)
      | inr no' ↦
          used_other
            (if is_dead lp then record { offset = 0; length = 0; flags = lp_unused } else lp)
            (mark_unused lps) (ground (arith, no'))
          ∙ rest
          ∙ sym (used_other lp lps no')
    ]

step_used :
    (at : ℕ) (x : LinePointer) (lps : List LinePointer)
    → at ≤ data_upper_bound
    → used_space (x ∷ lps) ≤ at
    → (next_end at x ≤ data_upper_bound)
      × (used_space lps ≤ next_end at x)
      × (at + used_space lps ≤ next_end at x + used_space (x ∷ lps))
step_used at x lps low fits = elim (Bool-cases (is_valid x)) [
  | inr no' ↦
      let same : next_end at x ≡ at = ground (arith, no') in
      let u = used_other x lps no' in
      (omega (arith, same, low), omega (arith, same, u, fits), omega (arith, same, u))
  | inl v ↦
      let (ends, rest, low', q) = next_end_lem at x lps v low fits in
      let u = used_here x lps v in (low', rest, omega (arith, q, u))
]

-- No tuple goes below the space of all.
pub place-used_space :
    (at : ℕ) (lps : List LinePointer) (i : ℕ) (lp : LinePointer)
    → at ≤ data_upper_bound
    → used_space lps ≤ at
    → get_elem? lps i ≡ some lp
    → at ≤ place at lps i + used_space lps
unfolding place
place-used_space at [] i lp low fits e = cc
place-used_space at (x ∷ lps) zero lp low fits e =
    let (low', rest, both) = step_used at x lps low fits in omega (arith, both)
place-used_space at (x ∷ lps) (suc i) lp low fits e =
    let (low', rest, both) = step_used at x lps low fits in
    omega (arith, place-used_space (next_end at x) lps i lp low' rest e, both)
