-- ===== src/Fsm/Upkeep.antt =====
-- The operations that change the free-space map (storage/fsm.cpp) keep it accurate.
use minidb.Prelude.{
  ℕ, ◌≡◌, ◌≢◌, ◌⊎◌, inl, inr, List, [], ◌∷◌, arith, ◌==◌, Elem, Bool-cases, Elem-back_to_front,
  back_to_front, ==_iff, ==_refl, All-Elem,
}
use minidb.Prelude.Distinct.{Absent, Distinct, Absent-subset, Distinct-back_to_front}
use minidb.Fsm.{Entry, fsm_encode, set_category, update, remove}
use minidb.Fsm.Search.{IsAccurate, with_free}

abbrev id_of : Entry → ℕ
id_of e = e.page_id

-- An entry after a write is the written one, or an old one of another page.
Elem-set_category :
    (pid c : ℕ) (es : List Entry) (e : Entry)
    → Distinct id_of es
    → Elem e (set_category pid c es)
    → (e ≡ record { page_id = pid; category = c }) ⊎ ((e.page_id ≢ pid) × Elem e es)
unfolding set_category
Elem-set_category pid c [] e d (inl p) = inl p
Elem-set_category pid c [] e d (inr n) = elim n [ ]
Elem-set_category pid c (x ∷ es) e d m = elim (Bool-cases (x.page_id == pid)) [
  | inl hit ↦ elim (rw hit at m) [
    | inl p ↦ inl (ground arith)
    | inr n ↦ inr ((λ q. All-Elem (λ y. y.page_id ≢ x.page_id) e es d.0 n (ground arith)), inr n)
  ]
  | inr miss ↦ elim (rw miss at m) [
    | inl p ↦ inr ((λ q. ground arith), inl p)
    | inr n ↦ elim (Elem-set_category pid c es e d.1 n) [
      | inl p ↦ inl p
      | inr r ↦ inr (r.0, inr r.1)
    ]
  ]
]

Absent-set_category :
    (k pid c : ℕ) (es : List Entry)
    → pid ≢ k
    → Absent id_of k es
    → Absent id_of k (set_category pid c es)
unfolding set_category
Absent-set_category k pid c [] h a = (h, tt)
Absent-set_category k pid c (x ∷ es) h a = elim (Bool-cases (x.page_id == pid)) [
  | inl hit ↦ rw hit a
  | inr miss ↦ rw miss (a.0, Absent-set_category k pid c es h a.1)
]

Distinct-set_category :
    (pid c : ℕ) (es : List Entry) → Distinct id_of es → Distinct id_of (set_category pid c es)
unfolding set_category
Distinct-set_category pid c [] d = (tt, tt)
Distinct-set_category pid c (x ∷ es) d = elim (Bool-cases (x.page_id == pid)) [
  | inl hit ↦ rw hit d
  | inr miss ↦ rw miss (
    Absent-set_category x.page_id pid c es (λ q. ground arith) d.0,
    Distinct-set_category pid c es d.1,
  )
]

-- After `update` the map is accurate for the free space with the page's new value.
pub update-IsAccurate :
    (free : ℕ → ℕ) (pid bytes : ℕ) (es : List Entry)
    → IsAccurate free es
    → IsAccurate (with_free free pid bytes) (update pid bytes es)
unfolding update
update-IsAccurate free pid bytes es acc = record {
  category = λ e m. elim (Elem-set_category pid (fsm_encode bytes) es e acc.distinct m) [
    | inl p ↦ ground (arith, ==_refl pid)
    | inr r ↦ ground (arith, acc.category e r.1, r.0)
  ];
  distinct = Distinct-set_category pid (fsm_encode bytes) es acc.distinct;
}

Elem-remove : (pid : ℕ) (es : List Entry) (e : Entry) → Elem e (remove pid es) → Elem e es
unfolding remove
Elem-remove pid [] e m = m
Elem-remove pid (x ∷ es) e m = elim (Bool-cases (x.page_id == pid)) [
  | inl hit ↦ inr (Elem-back_to_front e es (rw hit at m))
  | inr miss ↦ elim (rw miss at m) [ inl p ↦ inl p | inr n ↦ inr (Elem-remove pid es e n) ]
]

Distinct-remove : (pid : ℕ) (es : List Entry) → Distinct id_of es → Distinct id_of (remove pid es)
unfolding remove
Distinct-remove pid [] d = d
Distinct-remove pid (x ∷ es) d = elim (Bool-cases (x.page_id == pid)) [
  | inl hit ↦ rw hit (Distinct-back_to_front id_of es d.1)
  | inr miss ↦ rw miss (
    Absent-subset id_of x.page_id es (remove pid es) (Elem-remove pid es) d.0,
    Distinct-remove pid es d.1,
  )
]

remove-Absent : (pid : ℕ) (es : List Entry) → Distinct id_of es → Absent id_of pid (remove pid es)
unfolding remove
remove-Absent pid [] d = tt
remove-Absent pid (x ∷ es) d = elim (Bool-cases (x.page_id == pid)) [
  | inl hit ↦ rw hit (
      Absent-subset id_of pid es (back_to_front es) (λ a. Elem-back_to_front a es)
        (rw ((==_iff x.page_id pid).0 hit) at d.0))
  | inr miss ↦ rw miss ((λ q. ground arith), remove-Absent pid es d.1)
]

-- After `remove` the map is accurate still, and has no entry of the page.
pub remove-IsAccurate :
    (free : ℕ → ℕ) (pid : ℕ) (es : List Entry)
    → IsAccurate free es
    → IsAccurate free (remove pid es) × Absent id_of pid (remove pid es)
remove-IsAccurate free pid es acc = (
  record {
    category = λ e m. acc.category e (Elem-remove pid es e m);
    distinct = Distinct-remove pid es acc.distinct;
  },
  remove-Absent pid es acc.distinct,
)
