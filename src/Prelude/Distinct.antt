-- ===== src/Prelude/Distinct.antt =====
-- Lists whose entries have different keys.
use mathlib.Core.Path.{sym}
use mathlib.Core.Logic.{◌≢◌}
use mathlib.Core.List.{List, [], ◌∷◌}
use Prim.Native.Nat.{ℕ}
use minidb.Prelude.Lists.{
  Elem, All, All-Elem, All-of_Elem, last, but_last, back_to_front, Elem-back_cons,
}

module _ {A : Type 0} where
  abbrev pub Absent : (A → ℕ) → ℕ → List A → Type 0
  Absent key k xs = All (λ x. key x ≢ k) xs

  abbrev pub Distinct : (A → ℕ) → List A → Type 0
  Distinct key [] = Unit
  Distinct key (x ∷ xs) = Absent key (key x) xs × Distinct key xs

module _ {A : Type 0} (key : A → ℕ) where
  pub Absent-subset :
      (k : ℕ) (xs ys : List A)
      → ((a : A) → Elem a ys → Elem a xs)
      → Absent key k xs
      → Absent key k ys
  Absent-subset k xs ys sub h = All-of_Elem _ ys (λ a m. All-Elem (λ x. key x ≢ k) a xs h (sub a m))

  Distinct-back_cons :
      (x : A) (xs : List A) → Distinct key (x ∷ xs) → Distinct key (last x xs ∷ but_last x xs)
  unfolding last but_last
  Distinct-back_cons x [] d = d
  Distinct-back_cons x (y ∷ ys) d =
      let ih = Distinct-back_cons y ys d.1 in
      let in_rest = λ (a : A) (m : Elem a (last y ys ∷ but_last y ys)). Elem-back_cons a y ys m in
      let old = Absent-subset (key x) (y ∷ ys) (last y ys ∷ but_last y ys) in_rest d.0 in
      (((λ e. old.0 (sym e)), ih.0), (old.1, ih.1))

  pub Distinct-back_to_front : (xs : List A) → Distinct key xs → Distinct key (back_to_front xs)
  unfolding back_to_front
  Distinct-back_to_front [] d = d
  Distinct-back_to_front (x ∷ xs) d = Distinct-back_cons x xs d
