-- ===== src/Prelude/Bytes.antt =====
-- Numbers as bytes, the lowest first, as memcpy stores them.
use mathlib.Core.Path.{◌≡◌, refl, ap}
use mathlib.Core.Option.{Option, none, some}
use mathlib.Core.List.{List, [], ◌∷◌, ◌++◌}
use native.Mathlib.Omega.{arith}
use Prim.Native.Nat.{ℕ, zero, suc, ◌+◌, ◌*◌, ◌/◌, ◌%◌, ◌<◌}
use minidb.Prelude.Lists.{length}

unfoldable pub to_bytes : ℕ → ℕ → List ℕ
to_bytes zero v = []
to_bytes (suc n) v = v % 256 ∷ to_bytes n (v / 256)

unfoldable pub of_bytes : List ℕ → ℕ
of_bytes [] = 0
of_bytes (b ∷ bs) = b + 256 * of_bytes bs

-- The number needs no more than `n` bytes.
unfoldable pub InBytes : ℕ → ℕ → Type 0
InBytes zero v = v ≡ 0
InBytes (suc n) v = InBytes n (v / 256)

pub of_bytes-to_bytes : (n v : ℕ) → InBytes n v → of_bytes (to_bytes n v) ≡ v
unfolding of_bytes to_bytes InBytes
of_bytes-to_bytes zero v h = omega (arith, h)
of_bytes-to_bytes (suc n) v h = omega (arith, of_bytes-to_bytes n (v / 256) h)

pub length-to_bytes : (n v : ℕ) → length (to_bytes n v) ≡ n
unfolding to_bytes
length-to_bytes zero v = refl
length-to_bytes (suc n) v = ap suc (length-to_bytes n (v / 256))

pub InBytes-2 : (v : ℕ) → v < 65536 → InBytes 2 v
unfolding InBytes
InBytes-2 v h = omega arith

pub InBytes-4 : (v : ℕ) → v < 4294967296 → InBytes 4 v
unfolding InBytes
InBytes-4 v h = omega arith

pub InBytes-8 : (v : ℕ) → v < 18446744073709551616 → InBytes 8 v
unfolding InBytes
InBytes-8 v h = omega arith

module _ {ℓ} {A : Type ℓ} where
  -- The first `n` entries and the rest, where there are so many.
  unfoldable pub split : ℕ → List A → Option (List A × List A)
  split zero xs = some ([], xs)
  split (suc n) [] = none
  split (suc n) (x ∷ xs) = elim (split n xs) [ none ↦ none | some (a, b) ↦ some (x ∷ a, b) ]

  pub split-append : (n : ℕ) (xs ys : List A) → length xs ≡ n → split n (xs ++ ys) ≡ some (xs, ys)
  unfolding split
  split-append zero [] ys e = refl
  split-append zero (x ∷ xs) ys e = absurd (omega arith)
  split-append (suc n) [] ys e = absurd (omega arith)
  split-append (suc n) (x ∷ xs) ys e = rw (split-append n xs ys (omega arith)) refl
