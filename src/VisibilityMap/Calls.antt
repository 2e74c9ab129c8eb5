-- ===== src/VisibilityMap/Calls.antt =====
-- Runs of calls of storage/visibility_map.cpp from the empty map.
use minidb.Prelude.{
  ℕ, ◌≡◌, ◌≢◌, inl, inr, true, List, [], ◌∷◌, arith, ◌==◌, Elem, Bool-cases, Elem-back_to_front,
}
use minidb.Prelude.Distinct.{Absent, Distinct, Absent-subset, Distinct-back_to_front}
use minidb.VisibilityMap.{Entry, set_visible, set_frozen, clear_page, is_visible, is_frozen, remove}
use minidb.VisibilityMap.Lookup.{id_of, flags_of, flags_of_calls}

pub data Call : Type 0 where
  sets_visible sets_frozen clears_page removes : ℕ → Call
  clears : Call

unfoldable pub step : List Entry → Call → List Entry
step es (sets_visible pid) = set_visible es pid
step es (sets_frozen pid) = set_frozen es pid
step es (clears_page pid) = clear_page es pid
step es (removes pid) = remove es pid
step es clears = []

unfoldable pub run : List Entry → List Call → List Entry
unfolding step
run es [] = es
run es (c ∷ cs) = run (step es c) cs

-- No page has two entries, and a frozen page is visible.
pub record IsSound (es : List Entry) : Type 0 where
  pub distinct : Distinct id_of es
  pub frozen_visible : (b : ℕ) → is_frozen es b ≡ true → is_visible es b ≡ true

module _ (k a : ℕ) (ne : a ≢ k) where
  Absent-set_visible : (es : List Entry) → Absent id_of k es → Absent id_of k (set_visible es a)
  unfolding set_visible
  Absent-set_visible [] h = (ne, h)
  Absent-set_visible (e ∷ es) h = elim (Bool-cases (e.page_id == a)) [
    | inl hit ↦ rw hit h
    | inr miss ↦ rw miss (h.0, Absent-set_visible es h.1)
  ]

  Absent-set_frozen : (es : List Entry) → Absent id_of k es → Absent id_of k (set_frozen es a)
  unfolding set_frozen
  Absent-set_frozen [] h = (ne, h)
  Absent-set_frozen (e ∷ es) h = elim (Bool-cases (e.page_id == a)) [
    | inl hit ↦ rw hit h
    | inr miss ↦ rw miss (h.0, Absent-set_frozen es h.1)
  ]

Absent-clear_page :
    (k a : ℕ) (es : List Entry) → Absent id_of k es → Absent id_of k (clear_page es a)
unfolding clear_page
Absent-clear_page k a [] h = h
Absent-clear_page k a (e ∷ es) h = elim (Bool-cases (e.page_id == a)) [
  | inl hit ↦ rw hit h
  | inr miss ↦ rw miss (h.0, Absent-clear_page k a es h.1)
]

Elem-remove : (a : ℕ) (es : List Entry) (e : Entry) → Elem e (remove es a) → Elem e es
unfolding remove
Elem-remove a [] e m = m
Elem-remove a (x ∷ es) e m = elim (Bool-cases (x.page_id == a)) [
  | inl hit ↦ inr (Elem-back_to_front e es (rw hit at m))
  | inr miss ↦ elim (rw miss at m) [ inl p ↦ inl p | inr n ↦ inr (Elem-remove a es e n) ]
]

Distinct-set_visible :
    (a : ℕ) (es : List Entry) → Distinct id_of es → Distinct id_of (set_visible es a)
unfolding set_visible
Distinct-set_visible a [] d = (tt, tt)
Distinct-set_visible a (e ∷ es) d = elim (Bool-cases (e.page_id == a)) [
  | inl hit ↦ rw hit d
  | inr miss ↦
      let ne : a ≢ e.page_id = ground arith in
      rw miss (Absent-set_visible e.page_id a ne es d.0, Distinct-set_visible a es d.1)
]

Distinct-set_frozen :
    (a : ℕ) (es : List Entry) → Distinct id_of es → Distinct id_of (set_frozen es a)
unfolding set_frozen
Distinct-set_frozen a [] d = (tt, tt)
Distinct-set_frozen a (e ∷ es) d = elim (Bool-cases (e.page_id == a)) [
  | inl hit ↦ rw hit d
  | inr miss ↦
      let ne : a ≢ e.page_id = ground arith in
      rw miss (Absent-set_frozen e.page_id a ne es d.0, Distinct-set_frozen a es d.1)
]

Distinct-clear_page :
    (a : ℕ) (es : List Entry) → Distinct id_of es → Distinct id_of (clear_page es a)
unfolding clear_page
Distinct-clear_page a [] d = d
Distinct-clear_page a (e ∷ es) d = elim (Bool-cases (e.page_id == a)) [
  | inl hit ↦ rw hit d
  | inr miss ↦ rw miss (Absent-clear_page e.page_id a es d.0, Distinct-clear_page a es d.1)
]

Distinct-remove : (a : ℕ) (es : List Entry) → Distinct id_of es → Distinct id_of (remove es a)
unfolding remove
Distinct-remove a [] d = d
Distinct-remove a (e ∷ es) d = elim (Bool-cases (e.page_id == a)) [
  | inl hit ↦ rw hit (Distinct-back_to_front id_of es d.1)
  | inr miss ↦ rw miss (
    Absent-subset id_of e.page_id es (remove es a) (Elem-remove a es) d.0,
    Distinct-remove a es d.1,
  )
]

step-IsSound : (es : List Entry) (c : Call) → IsSound es → IsSound (step es c)
unfolding step flags_of is_visible is_frozen
step-IsSound es (sets_visible a) s = record {
  distinct = Distinct-set_visible a es s.distinct;
  frozen_visible =
      λ b f. let rule = (flags_of_calls es a b s.distinct).0 in ground (arith, s.frozen_visible b);
}
step-IsSound es (sets_frozen a) s = record {
  distinct = Distinct-set_frozen a es s.distinct;
  frozen_visible =
      λ b f. let rule = (flags_of_calls es a b s.distinct).1 in ground (arith, s.frozen_visible b);
}
step-IsSound es (clears_page a) s = record {
  distinct = Distinct-clear_page a es s.distinct;
  frozen_visible =
      λ b f. let rule = (flags_of_calls es a b s.distinct).2 in ground (arith, s.frozen_visible b);
}
step-IsSound es (removes a) s = record {
  distinct = Distinct-remove a es s.distinct;
  frozen_visible =
      λ b f. let rule = (flags_of_calls es a b s.distinct).3 in ground (arith, s.frozen_visible b);
}
step-IsSound es clears s = record { distinct = tt; frozen_visible = λ b f. f }

-- After any calls from a map in which no page has two entries and frozen pages are visible, the same
-- holds.
pub run-IsSound : (es : List Entry) (cs : List Call) → IsSound es → IsSound (run es cs)
unfolding run
run-IsSound es [] s = s
run-IsSound es (c ∷ cs) s = run-IsSound (step es c) cs (step-IsSound es c s)
