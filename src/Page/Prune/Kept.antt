-- ===== src/Page/Prune/Kept.antt =====
-- The tuples after Page::prune of storage/page.cpp.
use minidb.Prelude.{
  ℕ, zero, suc, ◌+◌, ◌*◌, ◌≤◌, ◌<◌, ◌≡◌, refl, sym, ap, ◌∙◌, inl, inr, true, false, none, some,
  arith, get_elem?, Bool-cases, Option-cases,
}
use minidb.Page.{
  LinePointer, Page, num_tuples, is_valid, data_upper_bound, page_header_size, line_pointer_size,
  get_tuple,
}
use minidb.Page.Insert.{bytes_of, read_tuple, read_tuple-valid, read_tuple-none}
use minidb.Page.Prune.{any_dead, mark_unused, copy_tuples, move_offsets, prune, used_space}
use minidb.Page.Prune.Copy.{place, copy_at}
use minidb.Page.Prune.Slots.{
  move_offsets-valid, move_offsets-invalid, move_offsets-none, marked, marked-valid, marked-invalid,
  mark_unused-get_elem?, used_space-mark_unused, place-used_space,
}

bytes_of_ext :
    (f g : ℕ → ℕ) (a b n : ℕ)
    → ((k : ℕ) → k < n → f (a + k) ≡ g (b + k))
    → bytes_of f a n ≡ bytes_of g b n
unfolding bytes_of
bytes_of_ext f g a b zero same = refl
bytes_of_ext f g a b (suc n) same =
    let next = bytes_of_ext f g (suc a) (suc b) n (λ k lt.
      let here = same (suc k) (omega (arith, lt)) in
      let l : suc a + k ≡ a + suc k = omega arith in
      let r : b + suc k ≡ suc b + k = omega arith in ap f l ∙ here ∙ ap g r) in
    let first : f a ≡ g b = ap f (omega arith) ∙ same zero (omega arith) ∙ ap g (omega arith) in
    ground (arith, next, first)

-- Where prune finds a dead tuple.
prune-moved :
    (p : Page)
    → any_dead p.line_pointers ≡ true
    → (let marked = mark_unused p.line_pointers in
        let tmp =
          copy_tuples (λ lp at k. p.bytes (lp.offset + k)) data_upper_bound (λ a. 0) marked in
        ((prune p).0.line_pointers ≡ move_offsets data_upper_bound marked)
        × ((prune p).0.bytes
            ≡ copy_tuples (λ lp at k. tmp (at + k)) data_upper_bound p.bytes marked))
unfolding prune
prune-moved p d = (ground (arith, d), ground (arith, d))

prune-same : (p : Page) → any_dead p.line_pointers ≡ false → (prune p).0 ≡ p
unfolding prune
prune-same p d = ground (arith, d)

read_tuple-bad :
    (p : Page) (j : ℕ) (lp : LinePointer)
    → get_elem? p.line_pointers j ≡ some lp
    → is_valid lp ≡ false
    → read_tuple p j ≡ none
unfolding read_tuple get_tuple
read_tuple-bad p j lp e bad = ground arith

-- prune keeps the tuple of every slot readable, byte for byte, if the line pointers and the tuples, each
-- rounded up to 8 bytes, fit in the page together.
pub prune-read_tuple :
    (p : Page) (idx : ℕ)
    → page_header_size + num_tuples p * line_pointer_size + used_space p.line_pointers
      ≤ data_upper_bound
    → read_tuple (prune p).0 idx ≡ read_tuple p idx
prune-read_tuple p idx fits = elim (Bool-cases (any_dead p.line_pointers)) [
  | inr d ↦ ap (λ q. read_tuple q idx) (prune-same p d)
  | inl d ↦
      let lps = p.line_pointers in
      let m = mark_unused lps in
      let (slots, bytes) = prune-moved p d in
      elim (Option-cases (get_elem? lps idx)) [
        | inl n ↦
            let n' : get_elem? m idx ≡ none = ground (arith, mark_unused-get_elem? lps idx, n) in
            read_tuple-none (prune p).0 p idx
              (ap (λ l. get_elem? l idx) slots ∙ move_offsets-none data_upper_bound m idx n') n
        | inr (lp, e) ↦ elim (Bool-cases (is_valid lp)) [
          | inr no' ↦
              let e' : get_elem? m idx ≡ some (marked lp) =
                ground (arith, mark_unused-get_elem? lps idx, e) in
              let bad = marked-invalid lp no' in
              read_tuple-bad (prune p).0 idx (marked lp)
                (ap (λ l. get_elem? l idx) slots
                  ∙ move_offsets-invalid data_upper_bound m idx (marked lp) e' bad)
                bad
              ∙ sym (read_tuple-bad p idx lp e no')
          | inl v ↦
              let e' : get_elem? m idx ≡ some lp =
                ground (arith, mark_unused-get_elem? lps idx, e, marked-valid lp v) in
              let room : used_space m ≤ data_upper_bound =
                omega (arith, used_space-mark_unused lps, fits) in
              let at : ℕ = place data_upper_bound m idx in
              let low : 0 < at = omega (
                arith,
                used_space-mark_unused lps,
                fits,
                place-used_space data_upper_bound m idx lp (omega arith) room e',
              ) in
              let first : LinePointer → ℕ → ℕ → ℕ = λ l a k. p.bytes (l.offset + k) in
              let tmp : ℕ → ℕ = copy_tuples first data_upper_bound (λ a. 0) m in
              let second : LinePointer → ℕ → ℕ → ℕ = λ l a k. tmp (a + k) in
              let moved : LinePointer = record lp { offset = at } in
              let stays : is_valid moved ≡ true = ground (arith, v, low) in
              read_tuple-valid (prune p).0 idx moved
                (ap (λ l. get_elem? l idx) slots
                  ∙ move_offsets-valid data_upper_bound m idx lp e' v)
                stays
              ∙ ap some (
                  bytes_of_ext (prune p).0.bytes p.bytes at lp.offset lp.length (λ k lt.
                    ap (λ f. f (at + k)) bytes
                    ∙ copy_at second data_upper_bound p.bytes m idx lp k (omega arith) room e' v lt
                    ∙ copy_at first data_upper_bound (λ a. 0) m idx lp k (omega arith) room e' v
                        lt))
              ∙ sym (read_tuple-valid p idx lp e v)
        ]
      ]
]
