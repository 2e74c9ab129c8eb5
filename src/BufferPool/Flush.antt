-- ===== src/BufferPool/Flush.antt =====
-- flush_page of storage/buffer_pool.cpp.
use native.Mathlib.Decide.{ℕ_discrete}
use minidb.Prelude.{
  ℕ, ◌≡◌, refl, sym, ap, subst, ◌∙◌, inl, inr, Bool, true, false, none, some, arith, ◌==◌,
  if◌then◌else◌, Bool-cases, Option-cases, ◌&&◌,
}
use minidb.BufferPool.{
  BufferPool, Answers, find_page_mapping, flush_page, flush_frame_wal_first, set_frame,
}
use minidb.BufferPool.Invariant.{IsConsistent, content}
use minidb.BufferPool.Fetch.{flush-fields}
use minidb.BufferPool.Touch.{Shows, Shows-ext, touched-Shows, same_memory}

module _ (page_id i : ℕ) (a : Answers) (s : BufferPool)
    (at : find_page_mapping s page_id ≡ some i) where
  abbrev flushed : BufferPool × Bool
  flushed = flush_frame_wal_first a (s.frames i).page s

  pub flush_page_clean : (s.frames i).is_dirty ≡ false → flush_page page_id a s ≡ s
  unfolding flush_page
  flush_page_clean c = ground (arith, at, c)

  pub flush_page_failed :
      (s.frames i).is_dirty ≡ true
      → flushed.1 && a.write_ok ≡ false
      → flush_page page_id a s ≡ flushed.0
  unfolding flush_page
  flush_page_failed d f = ground (arith, at, d, f)

  pub flush_page_done :
      (s.frames i).is_dirty ≡ true
      → flushed.1 && a.write_ok ≡ true
      → flush_page page_id a s
        ≡ set_frame
            (record (flushed.0) {
              disk = λ j. if j == (s.frames i).page_id then (s.frames i).page else s.disk j;
            })
            i
            (record (s.frames i) { is_dirty = false })
  unfolding flush_page
  flush_page_done d f = ground (arith, at, d, f)

  flush_mapped-Shows : IsConsistent s → Shows (flush_page page_id a s) (content s)
  flush_mapped-Shows k =
      let (frames, parts, count, disk) = flush-fields a (s.frames i).page s in
      let id_lem = (k.mapped page_id i at).0 in
      elim (Bool-cases (s.frames i).is_dirty) [
        | inr c ↦ subst (λ t. Shows t (content s)) (sym (flush_page_clean c)) (k, λ id. refl)
        | inl d ↦ elim (Bool-cases (flushed.1 && a.write_ok)) [
          | inr f ↦
              subst (λ t. Shows t (content s)) (sym (flush_page_failed d f))
                (Shows-ext flushed.0 _ (content s) (λ id. same_memory s page_id i id at)
                  (touched-Shows s page_id i (s.frames i) flushed.0 k at refl refl refl
                    (λ c. absurd (ground (arith, c, d)))
                    (λ j. elim (ℕ_discrete j i) [
                      | yes e ↦ ap (λ h. h j) frames ∙ ground (arith, e, ap s.frames e)
                      | no ne ↦ ap (λ h. h j) frames ∙ ground (arith, ne)
                    ])
                    count parts (λ id ne. ap (λ h. h id) disk)))
          | inl f ↦
              subst (λ t. Shows t (content s)) (sym (flush_page_done d f))
                (Shows-ext _ _ (content s) (λ id. same_memory s page_id i id at)
                  (touched-Shows s page_id i (record (s.frames i) { is_dirty = false }) _ k at refl
                    refl refl (λ c. ground (arith, id_lem))
                    (λ j. elim (ℕ_discrete j i) [
                      | yes e ↦ ground (arith, e)
                      | no ne ↦ ground (arith, ne, ap (λ h. h j) frames)
                    ])
                    count parts (λ id ne. ground (arith, id_lem, ne))))
        ]
      ]

pub flush_page-absent :
    (page_id : ℕ) (a : Answers) (s : BufferPool)
    → find_page_mapping s page_id ≡ none
    → flush_page page_id a s ≡ s
unfolding flush_page
flush_page-absent page_id a s un = ground (arith, un)

pub flush_page-Shows :
    (page_id : ℕ) (a : Answers) (s : BufferPool)
    → IsConsistent s
    → Shows (flush_page page_id a s) (content s)
flush_page-Shows page_id a s k = elim (Option-cases (find_page_mapping s page_id)) [
  | inl un ↦
      subst (λ t. Shows t (content s)) (sym (flush_page-absent page_id a s un)) (k, λ id. refl)
  | inr (i, at) ↦ flush_mapped-Shows page_id i a s at k
]
