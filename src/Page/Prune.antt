-- ===== src/Page/Prune.antt =====
-- Page::prune of storage/page.cpp: the slots of dead tuples become free, and the other tuples move
-- together at the end of the page.
pub mod Copy
pub mod Slots
pub mod Kept
use minidb.Prelude.{
  ℕ, zero, suc, ◌+◌, ◌-◌, ◌*◌, ◌/◌, ◌%◌, ◌≤◌, ◌<◌, ◌≡◌, refl, sym, ap, subst, ◌∙◌, inl, inr, Bool,
  true, false, List, [], ◌∷◌, Option, none, some, arith, ltb, leb, ◌==◌, if◌then◌else◌, length,
  get_elem?, Bool-cases, Option-cases,
}
use minidb.Page.{
  LinePointer, Page, num_tuples, is_valid, is_dead, u16, max_align, memcpy, lp_end, lp_unused,
  data_upper_bound, page_header_size, line_pointer_size, get_tuple,
}
use minidb.Page.Insert.{bytes_of, read_tuple, read_tuple-valid, read_tuple-none}

unfoldable pub any_dead : List LinePointer → Bool
any_dead [] = false
any_dead (lp ∷ lps) = let rest = any_dead lps in if is_dead lp then true else rest

-- LinePointer::mark_unused, for the dead ones, and their number.
unfoldable pub mark_unused : List LinePointer → List LinePointer
mark_unused [] = []
mark_unused (lp ∷ lps) =
    (if is_dead lp then record { offset = 0; length = 0; flags = lp_unused } else lp)
    ∷ mark_unused lps

unfoldable pub reclaimed : List LinePointer → ℕ
reclaimed [] = 0
reclaimed (lp ∷ lps) = let rest = reclaimed lps in if is_dead lp then u16 (rest + 1) else rest

-- Where the next tuple goes: below the last one, in 16 bits.
abbrev pub next_end : ℕ → LinePointer → ℕ
next_end at lp = if is_valid lp then u16 (at + 65536 - max_align lp.length) else at

-- Both loops copy the tuples one below the other, from `from`.
unfoldable pub copy_tuples : (LinePointer → ℕ → ℕ → ℕ) → ℕ → (ℕ → ℕ) → List LinePointer → ℕ → ℕ
copy_tuples from at bytes [] = bytes
copy_tuples from at bytes (lp ∷ lps) =
    copy_tuples from (next_end at lp)
      (if is_valid lp
        then memcpy bytes (next_end at lp) (from lp (next_end at lp)) lp.length
        else bytes)
      lps

unfoldable pub move_offsets : ℕ → List LinePointer → List LinePointer
move_offsets at [] = []
move_offsets at (lp ∷ lps) =
    (if is_valid lp then record lp { offset = next_end at lp } else lp)
    ∷ move_offsets (next_end at lp) lps

-- Page::prune
unfoldable pub prune : Page → Page × ℕ
unfolding any_dead mark_unused reclaimed copy_tuples move_offsets
prune p =
    if any_dead p.line_pointers
    then (let marked = mark_unused p.line_pointers in
        let tmp =
          copy_tuples (λ lp at k. p.bytes (lp.offset + k)) data_upper_bound (λ a. 0) marked in
        (
          record p {
            line_pointers = move_offsets data_upper_bound marked;
            bytes = copy_tuples (λ lp at k. tmp (at + k)) data_upper_bound p.bytes marked;
            free_space_offset = lp_end (num_tuples p);
          },
          reclaimed p.line_pointers,
        ))
    else (p, 0)

-- The space of the tuples, each rounded up to 8 bytes.
unfoldable pub used_space : List LinePointer → ℕ
used_space [] = 0
used_space (lp ∷ lps) =
    let rest = used_space lps in if is_valid lp then (lp.length + 7) / 8 * 8 + rest else rest
