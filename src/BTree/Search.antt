-- ===== src/BTree/Search.antt =====
-- The binary search in a node of index/btree.cpp.
use minidb.Prelude.{
  ℕ, zero, suc, ◌+◌, ◌-◌, ◌/◌, ◌≤◌, ◌<◌, ◌≡◌, refl, inl, inr, Bool, true, false, List, [], ◌∷◌,
  some, arith, ltb, length, get_elem?, Bool-cases,
}
use minidb.BTree.{find_first}

-- Once the test holds it holds from there on.
pub record IsMonotone {K : Type 0} (test : K → Bool) (keys : List K) : Type 0 where
  pub stays :
      (i j : ℕ) (a b : K)
      → i ≤ j
      → get_elem? keys i ≡ some a
      → get_elem? keys j ≡ some b
      → test a ≡ true
      → test b ≡ true

-- The test fails before `r` and holds from `r` on.
pub record IsFirst {K : Type 0} (test : K → Bool) (keys : List K) (r : ℕ) : Type 0 where
  pub bound : r ≤ length keys
  pub before : (i : ℕ) (a : K) → i < r → get_elem? keys i ≡ some a → test a ≡ false
  pub after : (i : ℕ) (a : K) → r ≤ i → get_elem? keys i ≡ some a → test a ≡ true

pub get_elem?-lt :
    {K : Type 0} (keys : List K) (i : ℕ) → i < length keys → (a : K) × (get_elem? keys i ≡ some a)
get_elem?-lt [] i lt = absurd (omega arith)
get_elem?-lt (x ∷ xs) zero lt = (x, refl)
get_elem?-lt (x ∷ xs) (suc i) lt = get_elem?-lt xs i (omega arith)

pub get_elem?-bound :
    {K : Type 0} (keys : List K) (i : ℕ) (a : K) → get_elem? keys i ≡ some a → i < length keys
get_elem?-bound [] i a e = cc
get_elem?-bound (x ∷ xs) zero a e = omega arith
get_elem?-bound (x ∷ xs) (suc i) a e = omega (arith, get_elem?-bound xs i a e)

module _ {K : Type 0} (test : K → Bool) (keys : List K) (m : IsMonotone test keys) where
  -- A round at least halves the range.
  find_first_step :
      (fuel lo hi : ℕ)
      → hi ≤ lo + fuel
      → lo ≤ hi
      → hi ≤ length keys
      → ((i : ℕ) (a : K) → i < lo → get_elem? keys i ≡ some a → test a ≡ false)
      → ((i : ℕ) (a : K) → hi ≤ i → get_elem? keys i ≡ some a → test a ≡ true)
      → IsFirst test keys (find_first test keys fuel lo hi)
  unfolding find_first
  find_first_step zero lo hi enough le top before after = record {
    bound = omega arith;
    before = before;
    after = λ i a ge e. after i a (omega arith) e;
  }
  find_first_step (suc fuel) lo hi enough le top before after = elim (Bool-cases (ltb lo hi)) [
    | inr done ↦ rw done (record {
      bound = omega arith;
      before = before;
      after = λ i a ge e. after i a (ground arith) e;
    })
    | inl go ↦
        let lt : lo < hi = ground arith in
        let mid = lo + (hi - lo) / 2 in
        let half : (lo ≤ mid) × (mid < hi) = (omega arith, omega arith) in
        let (k, at) = get_elem?-lt keys mid (omega (arith, half)) in
        elim (Bool-cases (test k)) [
          | inl yes' ↦
              rw (go, at, yes')
                (find_first_step fuel lo mid (omega (arith, half)) (half.0) (omega (arith, half))
                  before (λ i a ge e. m.stays mid i k a ge at e yes'))
          | inr no' ↦
              rw (go, at, no')
                (find_first_step fuel (mid + 1) hi (omega (arith, half)) (omega (arith, half)) top
                  (λ i a l e. earlier mid k at no' i a (omega arith) e) after)
        ]
  ]
    where
      earlier :
          (mid : ℕ) (k : K)
          → get_elem? keys mid ≡ some k
          → test k ≡ false
          → (i : ℕ) (a : K) → i ≤ mid
          → get_elem? keys i ≡ some a
          → test a ≡ false
      earlier mid k at no' i a l e = elim (Bool-cases (test a)) [
        | inl t ↦ cc (m.stays i mid a k l e at t, no')
        | inr f ↦ f
      ]

  -- Where a test holds from some key on, the search of a whole node is done after as many rounds as the
  -- node has keys, and finds the first key at which the test holds, or the end.
  pub find_first-IsFirst : IsFirst test keys (find_first test keys (length keys) 0 (length keys))
  find_first-IsFirst =
      find_first_step (length keys) 0 (length keys) (omega arith) (omega arith) (omega arith)
        (λ i a l e. absurd (omega arith))
        (λ i a ge e. absurd (omega (arith, get_elem?-bound keys i a e)))
