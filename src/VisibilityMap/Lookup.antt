-- ===== src/VisibilityMap/Lookup.antt =====
-- What each call of storage/visibility_map.cpp does to what the map answers.
use minidb.Prelude.{
  ℕ, ◌≡◌, refl, sym, ap, subst, ◌∙◌, ◌≢◌, inl, inr, Bool, true, false, List, [], ◌∷◌, none, arith,
  ◌==◌, if◌then◌else◌, All-Elem, Bool-cases, last, but_last, back_to_front, Elem-back_cons,
}
use minidb.Prelude.Distinct.{Absent, Distinct}
use minidb.VisibilityMap.{
  Entry, find_entry, set_visible, set_frozen, clear_page, is_visible, is_frozen, remove,
}

abbrev pub id_of : Entry → ℕ
id_of e = e.page_id

-- The two answers of the map for a page.
unfoldable pub flags_of : List Entry → ℕ → Bool × Bool
unfolding is_visible is_frozen
flags_of es pid = (is_visible es pid, is_frozen es pid)

flags_cons :
    (e : Entry) (es : List Entry) (pid : ℕ)
    → flags_of (e ∷ es) pid ≡ (if e.page_id == pid then (e.visible, e.frozen) else flags_of es pid)
unfolding flags_of is_visible is_frozen find_entry
flags_cons e es pid = ground arith

set_visible-flags :
    (es : List Entry) (a b : ℕ)
    → flags_of (set_visible es a) b ≡ (if a == b then (true, is_frozen es b) else flags_of es b)
unfolding set_visible flags_of is_visible is_frozen find_entry
set_visible-flags [] a b = ground arith
set_visible-flags (e ∷ es) a b = let rest = set_visible-flags es a b in ground arith

set_frozen-flags :
    (es : List Entry) (a b : ℕ)
    → flags_of (set_frozen es a) b ≡ (if a == b then (true, true) else flags_of es b)
unfolding set_frozen flags_of is_visible is_frozen find_entry
set_frozen-flags [] a b = ground arith
set_frozen-flags (e ∷ es) a b = let rest = set_frozen-flags es a b in ground arith

clear_page-flags :
    (es : List Entry) (a b : ℕ)
    → flags_of (clear_page es a) b ≡ (if a == b then (false, false) else flags_of es b)
unfolding clear_page flags_of is_visible is_frozen find_entry
clear_page-flags [] a b = ground arith
clear_page-flags (e ∷ es) a b = let rest = clear_page-flags es a b in ground arith

find_entry-back_cons :
    (x : Entry) (xs : List Entry) (b : ℕ)
    → Distinct id_of (x ∷ xs)
    → find_entry (last x xs ∷ but_last x xs) b ≡ find_entry (x ∷ xs) b
unfolding find_entry last but_last
find_entry-back_cons x [] b d = refl
find_entry-back_cons x (y ∷ ys) b d =
    let rest = find_entry-back_cons y ys b d.1 in
    let end = Elem-back_cons (last y ys) y ys (inl refl) in
    let other = All-Elem (λ (z : Entry). z.page_id ≢ x.page_id) (last y ys) (y ∷ ys) d.0 end in
    ground arith

find_entry-Absent : (es : List Entry) (b : ℕ) → Absent id_of b es → find_entry es b ≡ none
unfolding find_entry
find_entry-Absent [] b h = refl
find_entry-Absent (e ∷ es) b h = let rest = find_entry-Absent es b h.1 in ground (arith, h.0)

find_entry-back_to_front :
    (es : List Entry) (b : ℕ)
    → Distinct id_of es
    → find_entry (back_to_front es) b ≡ find_entry es b
unfolding back_to_front
find_entry-back_to_front [] b d = refl
find_entry-back_to_front (x ∷ xs) b d = find_entry-back_cons x xs b d

find_entry-remove :
    (es : List Entry) (a b : ℕ)
    → Distinct id_of es
    → find_entry (remove es a) b ≡ (if a == b then none else find_entry es b)
unfolding remove find_entry
find_entry-remove [] a b d = ground arith
find_entry-remove (e ∷ es) a b d =
    let rest = find_entry-remove es a b d.1 in
    let swapped = find_entry-back_to_front es b d.1 in
    elim (Bool-cases (e.page_id == a)) [
      | inl hit ↦
          let same : e.page_id ≡ a = ground arith in
          let gone = find_entry-Absent es a (subst (λ k. Absent id_of k es) same d.0) in
          elim (Bool-cases (a == b)) [
            | inl at ↦
                let here : a ≡ b = ground arith in
                let none' = ap (find_entry es) (sym here) ∙ gone in ground arith
            | inr off ↦ ground arith
          ]
      | inr miss ↦ ground arith
    ]

remove-flags :
    (es : List Entry) (a b : ℕ)
    → Distinct id_of es
    → flags_of (remove es a) b ≡ (if a == b then (false, false) else flags_of es b)
unfolding flags_of is_visible is_frozen
remove-flags es a b d = let rest = find_entry-remove es a b d in ground arith

-- Each call changes the answers for its own page only: set_visible makes it visible and keeps whether
-- it is frozen, set_frozen makes it both, clear_page and remove make it neither.
pub flags_of_calls :
    (es : List Entry) (a b : ℕ)
    → Distinct id_of es
    → (flags_of (set_visible es a) b ≡ (if a == b then (true, is_frozen es b) else flags_of es b))
      × (flags_of (set_frozen es a) b ≡ (if a == b then (true, true) else flags_of es b))
      × (flags_of (clear_page es a) b ≡ (if a == b then (false, false) else flags_of es b))
      × (flags_of (remove es a) b ≡ (if a == b then (false, false) else flags_of es b))
flags_of_calls es a b d = (
  set_visible-flags es a b,
  set_frozen-flags es a b,
  clear_page-flags es a b,
  remove-flags es a b d,
)
