-- ===== src/BufferPool/Touch.antt =====
-- unpin_page, mark_dirty and set_page_lsn of storage/buffer_pool.cpp, and a client that writes.
use native.Mathlib.Decide.{ℕ_discrete}
use minidb.Prelude.{
  ℕ, ◌-◌, ◌≡◌, ◌≢◌, refl, sym, ap, subst, ◌∙◌, inl, inr, Bool, true, false, none, some, arith, ltb,
  ◌==◌, if◌then◌else◌, Elem, Option-cases,
}
use minidb.Page.{Page}
use minidb.BufferPool.{
  Frame, BufferPool, null_page_id, find_page_mapping, unpin_page, mark_dirty, set_page_lsn,
  set_frame,
}
use minidb.BufferPool.Invariant.{IsConsistent, content}
use minidb.BufferPool.Replaced.{Replaced-content, Replaced-IsConsistent}
use minidb.BufferPool.Tables.{touched-Replaced}
use minidb.BufferPool.Served.{content-mapped}
use minidb.BufferPool.Calls.{write_page, advance_lsn, write, is_cached, effect}

-- What every call does: the pool stays consistent, and shows the memory `m`.
abbrev pub Shows : BufferPool → (ℕ → Page) → Type 0
Shows s m = IsConsistent s × ((id : ℕ) → content s id ≡ m id)

pub Shows-ext :
    (s : BufferPool) (m m' : ℕ → Page) → ((id : ℕ) → m id ≡ m' id) → Shows s m → Shows s m'
Shows-ext s m m' e (k, c) = (k, λ id. c id ∙ e id)

-- A frame that keeps its page id, in a pool that is otherwise as it was but for what the store has of
-- the page.
pub touched-Shows :
    (s : BufferPool) (page_id i : ℕ) (g : Frame) (s' : BufferPool)
    → IsConsistent s
    → find_page_mapping s page_id ≡ some i
    → g.page_id ≡ (s.frames i).page_id
    → g.partition_idx ≡ (s.frames i).partition_idx
    → g.is_io_in_progress ≡ (s.frames i).is_io_in_progress
    → (g.is_dirty ≡ false → g.page ≡ s'.disk page_id)
    → ((j : ℕ) → s'.frames j ≡ (if j == i then g else s.frames j))
    → s'.partition_count ≡ s.partition_count
    → s'.partitions ≡ s.partitions
    → ((id : ℕ) → id ≢ page_id → s'.disk id ≡ s.disk id)
    → Shows s' (λ id. if id == page_id then g.page else content s id)
touched-Shows s page_id i g s' k at same_id idx io clean frames count parts disk =
    let (id_lem, nz) = k.mapped page_id i at in
    let held : (s.frames i).page_id ≢ null_page_id = λ z. nz (sym id_lem ∙ z) in
    let r =
      touched-Replaced s i g s' k held same_id idx (io ∙ k.quiet i)
        (λ c. clean c ∙ ap s'.disk (sym id_lem)) frames count
        (λ q. ap (λ f. (f q).page_table) parts)
        (λ q j m. k.home q j (subst (λ f. Elem j (f q).lru_list) parts m))
        (λ id ne. disk id (λ e. ne (e ∙ sym id_lem))) in
    (
      Replaced-IsConsistent s i g s' k r,
      λ id.
          let whole : g.page_id ≡ page_id = same_id ∙ id_lem in
          ground (arith, Replaced-content s i g s' k r id, whole, nz),
    )

set_frame-Shows :
    (s : BufferPool) (page_id i : ℕ) (g : Frame)
    → IsConsistent s
    → find_page_mapping s page_id ≡ some i
    → g.page_id ≡ (s.frames i).page_id
    → g.partition_idx ≡ (s.frames i).partition_idx
    → g.is_io_in_progress ≡ (s.frames i).is_io_in_progress
    → (g.is_dirty ≡ false → g.page ≡ s.disk page_id)
    → Shows (set_frame s i g) (λ id. if id == page_id then g.page else content s id)
set_frame-Shows s page_id i g k at same_id idx io clean =
    touched-Shows s page_id i g (set_frame s i g) k at same_id idx io clean (λ j. refl) refl refl
      (λ id ne. refl)

-- A clean frame has what the store has of the page.
clean_page :
    (s : BufferPool) (page_id i : ℕ)
    → IsConsistent s
    → find_page_mapping s page_id ≡ some i
    → (s.frames i).is_dirty ≡ false
    → (s.frames i).page ≡ s.disk page_id
clean_page s page_id i k at c =
    let (id_lem, nz) = k.mapped page_id i at in
    k.clean i (λ z. nz (sym id_lem ∙ z)) c ∙ ap s.disk id_lem

pub same_memory :
    (s : BufferPool) (page_id i id : ℕ)
    → find_page_mapping s page_id ≡ some i
    → (if id == page_id then (s.frames i).page else content s id) ≡ content s id
same_memory s page_id i id at = elim (ℕ_discrete id page_id) [
  | yes e ↦ ground (arith, e, ap (content s) e, content-mapped s page_id i at)
  | no ne ↦ ground (arith, ne)
]

-- A call that finds the page's frame, or leaves the pool as it is.
by_mapping :
    (page_id : ℕ) (s s' : BufferPool) (m : ℕ → Page) (g : ℕ → Frame)
    → (find_page_mapping s page_id ≡ none → s' ≡ s)
    → ((i : ℕ) → find_page_mapping s page_id ≡ some i → s' ≡ set_frame s i (g i))
    → IsConsistent s
    → ((id : ℕ) → find_page_mapping s page_id ≡ none → content s id ≡ m id)
    → ((i : ℕ) → find_page_mapping s page_id ≡ some i → Shows (set_frame s i (g i)) m)
    → Shows s' m
by_mapping page_id s s' m g absent there k same changed =
    elim (Option-cases (find_page_mapping s page_id)) [
      | inl un ↦ subst (λ t. Shows t m) (sym (absent un)) (k, λ id. same id un)
      | inr (i, at) ↦ subst (λ t. Shows t m) (sym (there i at)) (changed i at)
    ]

pub unpin_page-Shows :
    (page_id : ℕ) (s : BufferPool) → IsConsistent s → Shows (unpin_page page_id s) (content s)
unfolding unpin_page
unpin_page-Shows page_id s k =
    let g : ℕ → Frame = λ i. record (s.frames i) { pin_count = (s.frames i).pin_count - 1 } in
    by_mapping page_id s (unpin_page page_id s) (content s) g (λ un. ground (arith, un))
      (λ i at. ground (arith, at)) k (λ id un. refl)
      (λ i at.
        Shows-ext (set_frame s i (g i)) _ (content s) (λ id. same_memory s page_id i id at)
          (set_frame-Shows s page_id i (g i) k at refl refl refl (clean_page s page_id i k at)))

pub mark_dirty-Shows :
    (page_id : ℕ) (s : BufferPool) → IsConsistent s → Shows (mark_dirty page_id s) (content s)
unfolding mark_dirty
mark_dirty-Shows page_id s k =
    let g : ℕ → Frame = λ i. record (s.frames i) { is_dirty = true } in
    by_mapping page_id s (mark_dirty page_id s) (content s) g (λ un. ground (arith, un))
      (λ i at. ground (arith, at)) k (λ id un. refl)
      (λ i at.
        Shows-ext (set_frame s i (g i)) _ (content s) (λ id. same_memory s page_id i id at)
          (set_frame-Shows s page_id i (g i) k at refl refl refl (λ c. absurd (ground (arith, c)))))

pub set_page_lsn-Shows :
    (page_id lsn : ℕ) (made : Bool) (s : BufferPool)
    → IsConsistent s
    → Shows
        (set_page_lsn page_id lsn s)
        (effect (advance_lsn page_id lsn) made (is_cached s page_id) (content s))
unfolding set_page_lsn effect is_cached
set_page_lsn-Shows page_id lsn made s k =
    let g : ℕ → Frame = λ i. record (s.frames i) {
      page =
          if ltb (s.frames i).page.lsn lsn
          then record ((s.frames i).page) { lsn = lsn }
          else (s.frames i).page;
      is_dirty = true;
    } in
    by_mapping page_id s (set_page_lsn page_id lsn s) _ g (λ un. ground (arith, un))
      (λ i at. ground (arith, at)) k (λ id un. ground (arith, un))
      (λ i at.
        Shows-ext (set_frame s i (g i)) _ _
          (λ id. elim (ℕ_discrete id page_id) [
            | yes e ↦ ground (arith, e, at, ap (content s) e ∙ content-mapped s page_id i at)
            | no ne ↦ ground (arith, ne)
          ])
          (set_frame-Shows s page_id i (g i) k at refl refl refl (λ c. absurd (ground (arith, c)))))

pub write_page-Shows :
    (page_id : ℕ) (page : Page) (made : Bool) (s : BufferPool)
    → IsConsistent s
    → Shows
        (write_page page_id page s)
        (effect (write page_id page) made (is_cached s page_id) (content s))
unfolding write_page effect is_cached
write_page-Shows page_id page made s k =
    let g : ℕ → Frame = λ i. record (s.frames i) { page = page; is_dirty = true } in
    by_mapping page_id s (write_page page_id page s) _ g (λ un. ground (arith, un))
      (λ i at. ground (arith, at)) k (λ id un. ground (arith, un))
      (λ i at.
        Shows-ext (set_frame s i (g i)) _ _ (λ id. ground (arith, at))
          (set_frame-Shows s page_id i (g i) k at refl refl refl (λ c. absurd (ground (arith, c)))))
