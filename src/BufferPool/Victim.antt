-- ===== src/BufferPool/Victim.antt =====
-- BufferPool::find_victim_frame of storage/buffer_pool.cpp.
use minidb.Prelude.{
  ℕ, ◌≡◌, ◌⊎◌, refl, sym, subst, ◌∙◌, inl, inr, Bool, true, false, List, [], ◌∷◌, Option, none,
  some, arith, ◌==◌, if◌then◌else◌, Elem, Bool-cases, Option-cases, not, ◌&&◌,
}
use minidb.BufferPool.{Frame, BufferPool, null_page_id, find_victim, find_victim_frame}

abbrev pub is_empty : Frame → Bool
is_empty f = not f.is_io_in_progress && f.page_id == null_page_id

abbrev pub is_evictable : Frame → Bool
is_evictable f = not f.is_io_in_progress && f.pin_count == 0

module _ (frames : ℕ → Frame) where
  -- One step of the loop.
  step_none :
      (i : ℕ) (is : List ℕ)
      → find_victim frames none (i ∷ is) ≡ (
          if is_empty (frames i)
          then some i
          else find_victim frames (if is_evictable (frames i) then some i else none) is)
  unfolding find_victim
  step_none i is = refl

  step_some :
      (e i : ℕ) (is : List ℕ)
      → find_victim frames (some e) (i ∷ is)
        ≡ (if is_empty (frames i) then some i else find_victim frames (some e) is)
  unfolding find_victim
  step_some e i is = refl

  -- Nobody uses the frame that is found.
  pub victim-free :
      (e : Option ℕ) (is : List ℕ) (v : ℕ)
      → ((j : ℕ) → e ≡ some j → (is_empty (frames j) ≡ true) ⊎ (is_evictable (frames j) ≡ true))
      → find_victim frames e is ≡ some v
      → (is_empty (frames v) ≡ true) ⊎ (is_evictable (frames v) ≡ true)
  unfolding find_victim
  victim-free e [] v free h = free v h
  victim-free (some e) (i ∷ is) v free h = elim (Bool-cases (is_empty (frames i))) [
    | inl here ↦
        let at : i ≡ v = ground (arith, step_some e i is, h, here) in
        inl (subst (λ j. is_empty (frames j) ≡ true) at here)
    | inr other ↦ victim-free (some e) is v free (ground (arith, step_some e i is, h, other))
  ]
  victim-free none (i ∷ is) v free h = elim (Bool-cases (is_empty (frames i))) [
    | inl here ↦
        let at : i ≡ v = ground (arith, step_none i is, h, here) in
        inl (subst (λ j. is_empty (frames j) ≡ true) at here)
    | inr other ↦
        victim-free (if is_evictable (frames i) then some i else none) is v
          (λ j q. elim (Bool-cases (is_evictable (frames i))) [
            | inl can ↦
                let at : i ≡ j = ground (arith, can, q) in
                inr (subst (λ n. is_evictable (frames n) ≡ true) at can)
            | inr cannot ↦ absurd (ground (arith, cannot, q))
          ])
          (ground (arith, step_none i is, h, other))
  ]

  -- What the loop remembers after a frame that is not empty.
  remembered : Option ℕ → ℕ → Option ℕ
  remembered (some e) i = some e
  remembered none i = if is_evictable (frames i) then some i else none

  step_other :
      (e : Option ℕ) (i : ℕ) (is : List ℕ)
      → is_empty (frames i) ≡ false
      → find_victim frames e (i ∷ is) ≡ find_victim frames (remembered e i) is
  unfolding remembered
  step_other (some e) i is o = ground (arith, step_some e i is, o)
  step_other none i is o = ground (arith, step_none i is, o)

  step_here :
      (e : Option ℕ) (i : ℕ) (is : List ℕ)
      → is_empty (frames i) ≡ true
      → find_victim frames e (i ∷ is) ≡ some i
  step_here (some e) i is o = ground (arith, step_some e i is, o)
  step_here none i is o = ground (arith, step_none i is, o)

  -- An empty frame of the list is preferred, whatever has been remembered.
  victim_empty :
      (e : Option ℕ) (is : List ℕ) (i : ℕ)
      → Elem i is
      → is_empty (frames i) ≡ true
      → (v : ℕ) × (find_victim frames e is ≡ some v) × (is_empty (frames v) ≡ true)
  victim_empty e [] i m here = elim m [ ]
  victim_empty e (x ∷ is) i m here = elim (Bool-cases (is_empty (frames x))) [
    | inl first ↦ (x, step_here e x is first, first)
    | inr other ↦ elim m [
      | inl at ↦
          absurd (ground (arith, here, other, subst (λ j. is_empty (frames j) ≡ true) at here))
      | inr later ↦
          let (v, found', empty) = victim_empty (remembered e x) is i later here in
          (v, step_other e x is other ∙ found', empty)
    ]
  ]

  remembered-none :
      (e : Option ℕ) (i : ℕ)
      → remembered e i ≡ none
      → (e ≡ none) × (is_evictable (frames i) ≡ false)
  unfolding remembered
  remembered-none (some e) i h = absurd (ground (arith, h))
  remembered-none none i h = (refl, ground (arith, h))

  -- Where none is found, every frame is in use.
  victim_none :
      (e : Option ℕ) (is : List ℕ)
      → find_victim frames e is ≡ none
      → (e ≡ none)
        × ((i : ℕ) → Elem i is → (is_empty (frames i) ≡ false) × (is_evictable (frames i) ≡ false))
  unfolding find_victim
  victim_none e [] h = (h, λ i z. elim z [ ])
  victim_none e (x ∷ is) h = elim (Bool-cases (is_empty (frames x))) [
    | inl here ↦ absurd (ground (arith, sym h ∙ step_here e x is here))
    | inr other ↦
        let (before, after) = victim_none (remembered e x) is (sym (step_other e x is other) ∙ h) in
        let (none_yet, busy') = remembered-none e x before in
        (
          none_yet,
          λ i m. elim m [
            | inl at ↦
                subst (λ j. (is_empty (frames j) ≡ false) × (is_evictable (frames j) ≡ false))
                  (sym at) (other, busy')
            | inr later ↦ after i later
          ],
        )
  ]

-- What find_victim_frame answers, for each frame of the partition: a frame that nobody uses, an empty one
-- if the given frame is empty, or nothing, and then the given frame is pinned or has I/O in progress.
pub find_victim_frame_lem :
    (s : BufferPool) (p i : ℕ)
    → Elem i (s.partitions p).lru_list
    → ((v : ℕ) × (find_victim_frame s p ≡ some v)
        × ((is_empty (s.frames v) ≡ true)
            ⊎ ((is_evictable (s.frames v) ≡ true) × (is_empty (s.frames i) ≡ false))))
      ⊎ ((find_victim_frame s p ≡ none)
          × (is_empty (s.frames i) ≡ false)
          × (is_evictable (s.frames i) ≡ false))
find_victim_frame_lem s p i m =
    let l = (s.partitions p).lru_list in
    elim (Option-cases (find_victim_frame s p)) [
      | inl full ↦
          let (unready, unevictable) = (victim_none s.frames none l full).1 i m in
          inr (full, unready, unevictable)
      | inr (v, at) ↦ inl (
        v,
        at,
        elim (Bool-cases (is_empty (s.frames i))) [
          | inl here ↦
              let (w, at', empty) = victim_empty s.frames none l i m here in
              let same : w ≡ v = ground (arith, sym at' ∙ at) in
              inl (subst (λ j. is_empty (s.frames j) ≡ true) same empty)
          | inr full ↦ elim (victim-free s.frames none l v (λ j q. absurd (ground (arith, q))) at) [
            | inl e ↦ inl e
            | inr can ↦ inr (can, full)
          ]
        ],
      )
    ]
