-- ===== src/Prelude/Order.antt =====
-- Comparisons by three answers, as the sign of the int that a C++ compare returns.
use mathlib.Core.Path.{◌≡◌, refl, sym, ap, ◌∙◌}
use mathlib.Core.List.{List, [], ◌∷◌}
use native.Mathlib.Omega.{arith}
use Prim.Native.Nat.{ℕ}
use minidb.Prelude.Tests.{ltb, if◌then◌else◌}

pub data Order : Type 0 where
  less same more : Order

abbrev pub invert : Order → Order
invert less = more
invert same = same
invert more = less

-- `(a < b) ? -1 : (a > b) ? 1 : 0`
abbrev pub cmp : ℕ → ℕ → Order
cmp a b = if ltb a b then less else if ltb b a then more else same

-- The first answer, or the second where the first is `same`.
abbrev pub then_by : Order → Order → Order
then_by less o = less
then_by same o = o
then_by more o = more

-- A comparison that is a total preorder.
pub record IsOrder {ℓ} {A : Type ℓ} (compare : A → A → Order) : Type ℓ where
  pub flip : (a b : A) → compare b a ≡ invert (compare a b)
  pub trans : (a b c : A) → compare a b ≡ less → compare b c ≡ less → compare a c ≡ less
  pub congr : (a b c : A) → compare a b ≡ same → compare a c ≡ compare b c

pub cmp-IsOrder : IsOrder cmp
cmp-IsOrder = record {
  flip = λ a b. ground arith;
  trans = λ a b c p q. ground arith;
  congr = λ a b c p. ground arith;
}

-- Lists by their first difference; a prefix comes first.
unfoldable pub lex : List ℕ → List ℕ → Order
lex [] [] = same
lex [] (y ∷ ys) = less
lex (x ∷ xs) [] = more
lex (x ∷ xs) (y ∷ ys) = then_by (cmp x y) (lex xs ys)

lex-flip : (xs ys : List ℕ) → lex ys xs ≡ invert (lex xs ys)
unfolding lex
lex-flip [] [] = refl
lex-flip [] (y ∷ ys) = refl
lex-flip (x ∷ xs) [] = refl
lex-flip (x ∷ xs) (y ∷ ys) = ground (arith, lex-flip xs ys)

lex_trans : (xs ys zs : List ℕ) → lex xs ys ≡ less → lex ys zs ≡ less → lex xs zs ≡ less
unfolding lex
lex_trans [] [] zs p q = q
lex_trans [] (y ∷ ys) [] p q = cc
lex_trans [] (y ∷ ys) (z ∷ zs) p q = refl
lex_trans (x ∷ xs) [] zs p q = cc
lex_trans (x ∷ xs) (y ∷ ys) [] p q = q
lex_trans (x ∷ xs) (y ∷ ys) (z ∷ zs) p q = ground (arith, lex_trans xs ys zs)

lex_congr : (xs ys zs : List ℕ) → lex xs ys ≡ same → lex xs zs ≡ lex ys zs
unfolding lex
lex_congr [] [] zs p = refl
lex_congr [] (y ∷ ys) zs p = cc
lex_congr (x ∷ xs) [] zs p = cc
lex_congr (x ∷ xs) (y ∷ ys) [] p = refl
lex_congr (x ∷ xs) (y ∷ ys) (z ∷ zs) p = ground (arith, lex_congr xs ys zs)

pub lex-IsOrder : IsOrder lex
lex-IsOrder = record { flip = lex-flip; trans = lex_trans; congr = lex_congr }

-- Comparing by a code.
pub IsOrder-by {ℓ κ} :
    {A : Type ℓ} {B : Type κ} (f : A → B) (g : B → B → Order) (h : A → A → Order)
    → IsOrder g
    → ((a b : A) → h a b ≡ g (f a) (f b))
    → IsOrder h
IsOrder-by f g h o e = record {
  flip = λ a b. e b a ∙ o.flip (f a) (f b) ∙ ap invert (sym (e a b));
  trans = λ a b c p q. e a c ∙ o.trans (f a) (f b) (f c) (sym (e a b) ∙ p) (sym (e b c) ∙ q);
  congr = λ a b c p. e a c ∙ o.congr (f a) (f b) (f c) (sym (e a b) ∙ p) ∙ sym (e b c);
}

-- The other way round.
pub IsOrder-invert {ℓ} :
    {A : Type ℓ} (h : A → A → Order) → IsOrder h → IsOrder (λ a b. invert (h a b))
IsOrder-invert h o = record {
  flip = λ a b. ap invert (o.flip a b);
  trans = λ a b c p q.
      let back = o.trans c b a in ground (arith, o.flip a b, o.flip b c, o.flip a c, back);
  congr = λ a b c p. ap invert (o.congr a b c (ground arith));
}
