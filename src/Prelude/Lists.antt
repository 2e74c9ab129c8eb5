-- ===== src/Prelude/Lists.antt =====
-- Lists measured by native numbers, membership by recursion, and `All`.
use Prim.Native.Nat.{ℕ, zero, suc, ◌+◌, ◌≤◌}
use mathlib.Core.Path.{◌≡◌, refl, sym, ap, subst}
use mathlib.Core.Logic.{◌⊎◌, inl, inr}
use mathlib.Core.List.{List, [], ◌∷◌, ◌++◌}
use mathlib.Core.Option.{Option, none, some}
use native.Mathlib.Omega.{arith}

module _ {ℓ} {A : Type ℓ} where
  abbrev pub length : List A → ℕ
  length [] = 0
  length (x ∷ xs) = suc (length xs)

  abbrev pub get_elem? : List A → ℕ → Option A
  get_elem? [] i = none
  get_elem? (x ∷ xs) zero = some x
  get_elem? (x ∷ xs) (suc i) = get_elem? xs i

  -- A write out of bounds changes nothing.
  abbrev pub set : List A → ℕ → A → List A
  set [] i v = []
  set (x ∷ xs) zero v = v ∷ xs
  set (x ∷ xs) (suc i) v = x ∷ set xs i v

  abbrev pub take : ℕ → List A → List A
  take zero xs = []
  take (suc n) [] = []
  take (suc n) (x ∷ xs) = x ∷ take n xs

  abbrev pub drop : ℕ → List A → List A
  drop zero xs = xs
  drop (suc n) [] = []
  drop (suc n) (x ∷ xs) = drop n xs

  unfoldable pub last : A → List A → A
  last x [] = x
  last x (y ∷ ys) = last y ys

  unfoldable pub but_last : A → List A → List A
  but_last x [] = []
  but_last x (y ∷ ys) = x ∷ but_last y ys

  -- `v[i] = v.back(); v.pop_back();`, of the entries that follow v[i]: the last comes to the front.
  unfoldable pub back_to_front : List A → List A
  unfolding last but_last
  back_to_front [] = []
  back_to_front (x ∷ xs) = last x xs ∷ but_last x xs

  pub length-append : (xs ys : List A) → length (xs ++ ys) ≡ length xs + length ys
  length-append [] ys = omega arith
  length-append (x ∷ xs) ys = omega (arith, length-append xs ys)

module _ {ℓ} {A : Type ℓ} where
  pub take-append-drop : (n : ℕ) (xs : List A) → take n xs ++ drop n xs ≡ xs
  take-append-drop zero xs = refl
  take-append-drop (suc n) [] = refl
  take-append-drop (suc n) (x ∷ xs) = ap (λ r. x ∷ r) (take-append-drop n xs)

  pub length-take-le : (n : ℕ) (xs : List A) → n ≤ length xs → length (take n xs) ≡ n
  length-take-le zero xs h = refl
  length-take-le (suc n) [] h = elim h [ ]
  length-take-le (suc n) (x ∷ xs) h = omega (arith, length-take-le n xs)

-- `a` is an entry of the list.
abbrev pub Elem : {A : Type 0} → A → List A → Type 0
Elem a [] = ⊥
Elem a (x ∷ xs) = (a ≡ x) ⊎ Elem a xs

-- Every entry has the property.
abbrev pub All : {A : Type 0} → (A → Type 0) → List A → Type 0
All P [] = Unit
All P (x ∷ xs) = P x × All P xs

module _ {A : Type 0} where
  pub Elem-append : (a : A) (xs ys : List A) → Elem a (xs ++ ys) → Elem a xs ⊎ Elem a ys
  Elem-append a [] ys m = inr m
  Elem-append a (x ∷ xs) ys (inl e) = inl (inl e)
  Elem-append a (x ∷ xs) ys (inr m) = elim (Elem-append a xs ys m) [
    | inl l ↦ inl (inr l)
    | inr r ↦ inr r
  ]

  pub Elem-append_left : (a : A) (xs ys : List A) → Elem a xs → Elem a (xs ++ ys)
  Elem-append_left a [] ys m = elim m [ ]
  Elem-append_left a (x ∷ xs) ys (inl e) = inl e
  Elem-append_left a (x ∷ xs) ys (inr m) = inr (Elem-append_left a xs ys m)

  pub Elem-append_right : (a : A) (xs ys : List A) → Elem a ys → Elem a (xs ++ ys)
  Elem-append_right a [] ys m = m
  Elem-append_right a (x ∷ xs) ys m = inr (Elem-append_right a xs ys m)

  -- The entry in the middle apart from the rest.
  pub Elem-middle : (a x : A) (xs ys : List A) → Elem a (xs ++ x ∷ ys) → (a ≡ x) ⊎ Elem a (xs ++ ys)
  Elem-middle a x [] ys m = m
  Elem-middle a x (z ∷ xs) ys (inl e) = inr (inl e)
  Elem-middle a x (z ∷ xs) ys (inr m) = elim (Elem-middle a x xs ys m) [
    | inl e ↦ inl e
    | inr r ↦ inr (inr r)
  ]

  pub Elem-middle_self : (x : A) (xs ys : List A) → Elem x (xs ++ x ∷ ys)
  Elem-middle_self x [] ys = inl refl
  Elem-middle_self x (z ∷ xs) ys = inr (Elem-middle_self x xs ys)

  pub Elem-middle_other : (a x : A) (xs ys : List A) → Elem a (xs ++ ys) → Elem a (xs ++ x ∷ ys)
  Elem-middle_other a x [] ys m = inr m
  Elem-middle_other a x (z ∷ xs) ys (inl e) = inl e
  Elem-middle_other a x (z ∷ xs) ys (inr m) = inr (Elem-middle_other a x xs ys m)

  pub All-Elem : (P : A → Type 0) (a : A) (xs : List A) → All P xs → Elem a xs → P a
  All-Elem P a [] h m = elim m [ ]
  All-Elem P a (x ∷ xs) h (inl e) = subst P (sym e) h.0
  All-Elem P a (x ∷ xs) h (inr m) = All-Elem P a xs h.1 m

  pub Elem-back_cons :
      (a x : A) (xs : List A) → Elem a (last x xs ∷ but_last x xs) → Elem a (x ∷ xs)
  unfolding last but_last
  Elem-back_cons a x [] m = m
  Elem-back_cons a x (y ∷ ys) (inl e) = inr (Elem-back_cons a y ys (inl e))
  Elem-back_cons a x (y ∷ ys) (inr (inl e)) = inl e
  Elem-back_cons a x (y ∷ ys) (inr (inr m)) = inr (Elem-back_cons a y ys (inr m))

  -- Nothing is added.
  pub Elem-back_to_front : (a : A) (xs : List A) → Elem a (back_to_front xs) → Elem a xs
  unfolding back_to_front
  Elem-back_to_front a [] m = m
  Elem-back_to_front a (x ∷ xs) m = Elem-back_cons a x xs m

  Elem-cons_back : (a x : A) (xs : List A) → Elem a (x ∷ xs) → Elem a (last x xs ∷ but_last x xs)
  unfolding last but_last
  Elem-cons_back a x [] m = m
  Elem-cons_back a x (y ∷ ys) (inl e) = inr (inl e)
  Elem-cons_back a x (y ∷ ys) (inr m) = elim (Elem-cons_back a y ys m) [
    | inl e ↦ inl e
    | inr r ↦ inr (inr r)
  ]

  -- Nothing is lost.
  pub back_to_front-Elem : (a : A) (xs : List A) → Elem a xs → Elem a (back_to_front xs)
  unfolding back_to_front
  back_to_front-Elem a [] m = m
  back_to_front-Elem a (x ∷ xs) m = Elem-cons_back a x xs m

  length-back_cons : (x : A) (xs : List A) → length (but_last x xs) ≡ length xs
  unfolding but_last
  length-back_cons x [] = refl
  length-back_cons x (y ∷ ys) = omega (arith, length-back_cons y ys)

  pub length-back_to_front : (xs : List A) → length (back_to_front xs) ≡ length xs
  unfolding back_to_front
  length-back_to_front [] = refl
  length-back_to_front (x ∷ xs) = omega (arith, length-back_cons x xs)

  pub All-of_Elem : (P : A → Type 0) (xs : List A) → ((a : A) → Elem a xs → P a) → All P xs
  All-of_Elem P [] h = tt
  All-of_Elem P (x ∷ xs) h = (h x (inl refl), All-of_Elem P xs (λ a m. h a (inr m)))

  pub All-append : (P : A → Type 0) (xs ys : List A) → All P xs → All P ys → All P (xs ++ ys)
  All-append P [] ys h g = g
  All-append P (x ∷ xs) ys h g = (h.0, All-append P xs ys h.1 g)
