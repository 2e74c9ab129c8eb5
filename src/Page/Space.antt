-- ===== src/Page/Space.antt =====
-- The space check of storage/page.cpp against the insertion that it stands for.
use minidb.Prelude.{
  ℕ, suc, ◌+◌, ◌-◌, ◌≤◌, ◌<◌, ◌≡◌, refl, ap, ◌∙◌, inl, inr, Bool, true, false, List, [], ◌∷◌,
  Option, none, some, arith, ltb, leb, if◌then◌else◌, length, Elem, Bool-cases, Option-cases,
}
use minidb.Page.{
  LinePointer, Page, num_tuples, max_align, in_page, lp_end, lp_unused, lp_dead, min_tuple_offset,
  data_upper_bound, find_fit, find_unused, append_tuple, insert_tuple, fits_dead, has_enough_space,
}

-- What the operations keep: the line pointers are in the page, an unused one has no space and a
-- dead one still has the space of its tuple.
pub record HasSlots (p : Page) : Type 0 where
  pub few : num_tuples p ≤ 1361
  pub unused : (lp : LinePointer) → Elem lp p.line_pointers → lp.flags ≡ lp_unused → lp.length ≡ 0
  pub dead : (lp : LinePointer) → Elem lp p.line_pointers → lp.flags ≡ lp_dead → 0 < lp.length

pub is_some : {A : Type 0} → Option A → Bool
is_some none = false
is_some (some a) = true

fits_dead-find_fit :
    (len i : ℕ) (lps : List LinePointer)
    → ((lp : LinePointer) → Elem lp lps → lp.flags ≡ lp_unused → lp.length ≡ 0)
    → ((lp : LinePointer) → Elem lp lps → lp.flags ≡ lp_dead → 0 < lp.length)
    → fits_dead len lps ≡ is_some (find_fit len i lps)
unfolding fits_dead find_fit is_some
fits_dead-find_fit len i [] u d = refl
fits_dead-find_fit len i (lp ∷ lps) u d =
    let rest = fits_dead-find_fit len (suc i) lps (λ q m. u q (inr m)) (λ q m. d q (inr m)) in
    let u0 = u lp (inl refl) in let d0 = d lp (inl refl) in ground (arith, rest, u0, d0)

pub min_tuple_offset-le : (b : ℕ) (lps : List LinePointer) → min_tuple_offset b lps ≤ b
unfolding min_tuple_offset
min_tuple_offset-le b [] = omega arith
min_tuple_offset-le b (lp ∷ lps) =
    ground (arith, min_tuple_offset-le b lps, min_tuple_offset-le lp.offset lps)

pub find_unused-lt :
    (i k : ℕ) (lps : List LinePointer) → find_unused i lps ≡ some k → k < i + length lps
unfolding find_unused
find_unused-lt i k [] e = cc
find_unused-lt i k (lp ∷ lps) e = ground (arith, find_unused-lt (suc i) k lps)

append_tuple-is_some :
    (p : Page) (src : ℕ → ℕ) (len target count : ℕ)
    → target < count
    → count ≤ 1362
    → is_some (append_tuple p src len target count).1 ≡ (
        if ltb (min_tuple_offset data_upper_bound p.line_pointers) (max_align len)
        then false
        else leb (lp_end count) (min_tuple_offset data_upper_bound p.line_pointers - max_align len))
unfolding append_tuple is_some
append_tuple-is_some p src len target count lt few =
    let low : min_tuple_offset data_upper_bound p.line_pointers ≤ 8184 =
      min_tuple_offset-le data_upper_bound p.line_pointers in
    elim (Bool-cases (ltb (min_tuple_offset data_upper_bound p.line_pointers) (max_align len))) [
      | inl big ↦ rw big refl
      | inr fits ↦
          rw fits
            (elim (Bool-cases (
              ltb (min_tuple_offset data_upper_bound p.line_pointers - max_align len)
                (lp_end count))) [
                  | inl over ↦ ground arith
                  | inr room ↦ let here : in_page target ≡ true = ground arith in ground arith
                ])
    ]

-- has_enough_space is right: on a page whose slots are well-formed it answers true exactly when
-- insert_tuple of a tuple of that size finds a slot.
pub has_enough_space-insert_tuple :
    (p : Page) (tuple_data : ℕ → ℕ) (len : ℕ)
    → HasSlots p
    → has_enough_space p len ≡ is_some (insert_tuple p tuple_data len).1
unfolding has_enough_space insert_tuple is_some
has_enough_space-insert_tuple p tuple_data len h =
    let fit = fits_dead-find_fit (max_align len) 0 p.line_pointers h.unused h.dead in
    elim (Option-cases (find_fit (max_align len) 0 p.line_pointers)) [
      | inr (found, e) ↦ let yes = fit ∙ ap is_some e in ground arith
      | inl e ↦
          let no = fit ∙ ap is_some e in
          elim (Option-cases (find_unused 0 p.line_pointers)) [
            | inl none' ↦
                let last =
                  append_tuple-is_some p tuple_data len (num_tuples p) (num_tuples p + 1)
                    (omega arith) (omega (arith, h.few)) in
                ground arith
            | inr (k, q) ↦
                let reused =
                  append_tuple-is_some p tuple_data len k (num_tuples p)
                    (omega (arith, find_unused-lt 0 k p.line_pointers q)) (omega (arith, h.few)) in
                ground arith
          ]
    ]
