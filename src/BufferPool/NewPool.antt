-- ===== src/BufferPool/NewPool.antt =====
-- A pool that the constructor of storage/buffer_pool.cpp makes.
use minidb.Prelude.{
  ℕ, zero, suc, ◌%◌, ◌≡◌, refl, ap, subst, ◌∙◌, inl, inr, true, false, List, ◌∷◌, Option, arith,
  ◌==◌, Elem, Bool-cases,
}
use minidb.Page.{Page}
use minidb.BufferPool.{find_page_mapping, new_pool, frames_below, count_for}
use minidb.BufferPool.Invariant.{IsConsistent, content}
use minidb.BufferPool.Calls.{Call, run, remember}
use minidb.BufferPool.Touch.{Shows}
use minidb.BufferPool.Refinement.{run-Shows}

below_here :
    (count p n : ℕ)
    → (n % count == p) ≡ true
    → frames_below count p (suc n) ≡ n ∷ frames_below count p n
unfolding frames_below
below_here count p n h = ground (arith, h)

below_other :
    (count p n : ℕ)
    → (n % count == p) ≡ false
    → frames_below count p (suc n) ≡ frames_below count p n
unfolding frames_below
below_other count p n h = ground (arith, h)

frames_below-home : (count p n i : ℕ) → Elem i (frames_below count p n) → i % count ≡ p
unfolding frames_below
frames_below-home count p zero i m = elim m [ ]
frames_below-home count p (suc n) i m = elim (Bool-cases (n % count == p)) [
  | inl here ↦ elim (subst (λ l. Elem i l) (below_here count p n here) m) [
    | inl e ↦ ap (λ j. j % count) e ∙ ground (arith, here)
    | inr later ↦ frames_below-home count p n i later
  ]
  | inr other ↦
      frames_below-home count p n i (subst (λ l. Elem i l) (below_other count p n other) m)
]

pub new_pool-IsConsistent :
    (pool_size partitions : ℕ) (disk : ℕ → Page) (durable_lsn : Option ℕ)
    → IsConsistent (new_pool pool_size partitions disk durable_lsn)
unfolding new_pool find_page_mapping
new_pool-IsConsistent pool_size partitions disk durable_lsn = record {
  mapped = λ id i e. absurd (ground (arith, e));
  resident = λ i nz. absurd (nz refl);
  home = λ p i m. frames_below-home (count_for pool_size partitions) p pool_size i m;
  quiet = λ i. refl;
  clean = λ i nz. absurd (nz refl);
}

-- A new pool of any size on a store refines a memory without a cache: after any calls, whatever the store
-- and the log answer to them, the pool is consistent and shows what the calls make of the store's pages.
pub run-new_pool :
    (cs : List Call) (pool_size partitions : ℕ) (disk : ℕ → Page) (durable_lsn : Option ℕ)
    → Shows
        (run cs (new_pool pool_size partitions disk durable_lsn))
        (remember cs (new_pool pool_size partitions disk durable_lsn) disk)
run-new_pool cs pool_size partitions disk durable_lsn =
    let s = new_pool pool_size partitions disk durable_lsn in
    run-Shows cs s disk (new_pool-IsConsistent pool_size partitions disk durable_lsn)
      (λ id. unfold content find_page_mapping new_pool in refl)
