-- ===== src/Page/Packed.antt =====
-- The operations of storage/page.cpp that place or mark one tuple keep a page packed.
use minidb.Prelude.{
  ℕ, zero, suc, ◌+◌, ◌≤◌, ◌<◌, ◌≡◌, refl, sym, subst, inl, inr, true, ◌&&◌, List, [], ◌∷◌, Option,
  none, some, arith, ltb, ◌==◌, if◌then◌else◌, length, get_elem?, set, Bool-cases, Option-cases,
}
use minidb.Page.{
  LinePointer, Page, num_tuples, lp_dead, lp_unused, lp_redirect, mark_dead, reclaim_slot,
  redirect_slot, insert_tuple_at, append_tuple, get_tuple, is_valid, init,
}
use minidb.Page.Slots.{get_elem?-set}
use minidb.Page.Fresh.{IsPacked, Outcome, append_tuple-Outcome}
use minidb.Page.Insert.{Placed-IsPacked, read_tuple}
use minidb.Page.Changes.{SameSpace, changed-IsPacked}

get_elem?-below :
    (lps : List LinePointer) (i : ℕ)
    → i < length lps
    → (lp : LinePointer) × (get_elem? lps i ≡ some lp)
get_elem?-below [] i lt = absurd (omega arith)
get_elem?-below (x ∷ lps) zero lt = (x, refl)
get_elem?-below (x ∷ lps) (suc i) lt = get_elem?-below lps i (omega arith)

pub get_elem?-bounds :
    (lps : List LinePointer) (i : ℕ) (lp : LinePointer) → get_elem? lps i ≡ some lp → i < length lps
get_elem?-bounds [] i lp e = cc
get_elem?-bounds (x ∷ lps) zero lp e = omega arith
get_elem?-bounds (x ∷ lps) (suc i) lp e = omega (arith, get_elem?-bounds lps i lp e)

get_elem?-none : (lps : List LinePointer) (i : ℕ) → get_elem? lps i ≡ none → length lps ≤ i
get_elem?-none [] i e = omega arith
get_elem?-none (x ∷ lps) zero e = cc
get_elem?-none (x ∷ lps) (suc i) e = omega (arith, get_elem?-none lps i e)

pub mark_dead-IsPacked : (p : Page) (idx : ℕ) → IsPacked p → IsPacked (mark_dead p idx).0
unfolding mark_dead SameSpace
mark_dead-IsPacked p idx k = elim (Option-cases (get_elem? p.line_pointers idx)) [
  | inl n ↦ let same : (mark_dead p idx).0 ≡ p = ground arith in subst IsPacked (sym same) k
  | inr (lp, e) ↦ elim (Bool-cases (is_valid lp)) [
    | inr bad ↦ let same : (mark_dead p idx).0 ≡ p = ground arith in subst IsPacked (sym same) k
    | inl ok ↦
        let new : LinePointer = record lp { flags = lp_dead } in
        let same : (mark_dead p idx).0 ≡ record p { line_pointers = set p.line_pointers idx new } =
          ground arith in
        subst IsPacked (sym same) (changed-IsPacked p idx new lp k e (inr (refl, refl)))
  ]
]

pub reclaim_slot-IsPacked : (p : Page) (idx : ℕ) → IsPacked p → IsPacked (reclaim_slot p idx).0
unfolding reclaim_slot SameSpace
reclaim_slot-IsPacked p idx k = elim (Option-cases (get_elem? p.line_pointers idx)) [
  | inl n ↦ let same : (reclaim_slot p idx).0 ≡ p = ground arith in subst IsPacked (sym same) k
  | inr (lp, e) ↦
      let new : LinePointer = record { offset = 0; length = 0; flags = lp_unused } in
      let same : (reclaim_slot p idx).0 ≡ record p { line_pointers = set p.line_pointers idx new } =
        ground arith in
      subst IsPacked (sym same) (changed-IsPacked p idx new lp k e (inl refl))
]

pub redirect_slot-IsPacked :
    (p : Page) (idx target : ℕ) → IsPacked p → IsPacked (redirect_slot p idx target).0
unfolding redirect_slot SameSpace
redirect_slot-IsPacked p idx target k =
    elim (Bool-cases (ltb idx (num_tuples p) && ltb target (num_tuples p))) [
      | inr bad ↦ rw bad k
      | inl ok ↦
          let (lp, e) = get_elem?-below p.line_pointers idx (ground arith) in
          rw ok (
            changed-IsPacked p idx (record { offset = target; length = 0; flags = lp_redirect }) lp
              k e (inl refl))
    ]

Outcome-IsPacked :
    (p : Page) (src : ℕ → ℕ) (len : ℕ) (r : Page × Option ℕ)
    → len < 65529
    → IsPacked p
    → Outcome p src len r
    → IsPacked r.0
Outcome-IsPacked p src len r small k (inl (n, same)) = subst IsPacked (sym same) k
Outcome-IsPacked p src len r small k (inr (i, e, w)) = Placed-IsPacked p src len i r.0 small k w

-- insert_tuple_at keeps a page packed, whether it finds room or not.
pub insert_tuple_at-IsPacked :
    (p : Page) (tuple_data : ℕ → ℕ) (len target : ℕ)
    → len < 65529
    → IsPacked p
    → IsPacked (insert_tuple_at p tuple_data len target).0
unfolding insert_tuple_at
insert_tuple_at-IsPacked p src len target small k =
    elim (Option-cases (get_elem? p.line_pointers target)) [
      | inr (lp, e) ↦ elim (Bool-cases (is_valid lp)) [
        | inl ok ↦
            let same : (insert_tuple_at p src len target).0 ≡ p = ground arith in
            subst IsPacked (sym same) k
        | inr bad ↦
            let lt = get_elem?-bounds p.line_pointers target lp e in
            let same : insert_tuple_at p src len target
                ≡ append_tuple p src len target (num_tuples p) =
              ground arith in
            Outcome-IsPacked p src len (insert_tuple_at p src len target) small k (
              subst (Outcome p src len) (sym same) (
                append_tuple-Outcome p src len target (num_tuples p) k (omega (arith, lt))
                  (ground (arith, lt))))
      ]
      | inl n ↦
          let ge = get_elem?-none p.line_pointers target n in
          elim (Bool-cases (ltb (num_tuples p) target)) [
            | inl far ↦
                let same : (insert_tuple_at p src len target).0 ≡ p = ground arith in
                subst IsPacked (sym same) k
            | inr next ↦
                let last : target ≡ num_tuples p = ground (arith, ge) in
                let same : insert_tuple_at p src len target
                    ≡ append_tuple p src len target (num_tuples p + 1) =
                  ground arith in
                Outcome-IsPacked p src len (insert_tuple_at p src len target) small k (
                  subst (Outcome p src len) (sym same) (
                    append_tuple-Outcome p src len target (num_tuples p + 1) k (omega arith)
                      (ground arith)))
          ]
    ]

-- A slot that is marked dead has no tuple any more, and every other slot reads as before.
pub mark_dead-read_tuple :
    (p : Page) (idx j : ℕ)
    → (mark_dead p idx).1 ≡ true
    → read_tuple (mark_dead p idx).0 j ≡ (if idx == j then none else read_tuple p j)
unfolding mark_dead read_tuple get_tuple
mark_dead-read_tuple p idx j e = elim (Option-cases (get_elem? p.line_pointers idx)) [
  | inl n ↦ absurd (ground arith)
  | inr (lp, q) ↦
      let rule =
        get_elem?-set p.line_pointers idx j (record lp { flags = lp_dead })
          (get_elem?-bounds p.line_pointers idx lp q) in
      ground (arith, rule)
]

-- A page that init has just made is packed.
pub init-IsPacked : (page_id page_type : ℕ) → IsPacked (init page_id page_type)
unfolding init
init-IsPacked page_id page_type = record {
  few = omega arith;
  inside = λ i a e z. cc;
  small = λ i a e. cc;
  apart = λ i j a b e f ne z y. cc;
}
