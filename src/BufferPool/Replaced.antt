-- ===== src/BufferPool/Replaced.antt =====
-- What one frame's change of page does to the pool (storage/buffer_pool.cpp).
use minidb.Prelude.{
  ℕ, ◌%◌, ◌≡◌, ◌≢◌, refl, sym, ap, subst, ◌∙◌, inl, inr, false, none, some, arith, ◌==◌,
  if◌then◌else◌, Elem, Bool-cases, Option-cases, ◌&&◌, not,
}
use native.Mathlib.Decide.{ℕ_discrete}
use minidb.BufferPool.{Frame, BufferPool, null_page_id, partition_for, find_page_mapping}
use minidb.BufferPool.Invariant.{IsConsistent, content}

-- One frame, `v`, has given up its page for another, and the page is in the store.
pub record Replaced (s : BufferPool) (v : ℕ) (new : Frame) (s' : BufferPool) : Type 0 where
  pub fresh :
      new.page_id ≢ (s.frames v).page_id
      → new.page_id ≢ null_page_id
      → find_page_mapping s new.page_id ≡ none
  pub frames : (j : ℕ) → s'.frames j ≡ (if j == v then new else s.frames j)
  pub count : s'.partition_count ≡ s.partition_count
  pub mapping :
      (id : ℕ)
      → find_page_mapping s' id ≡ (
          if id == new.page_id && not (id == null_page_id)
          then some v
          else if id == (s.frames v).page_id
          then none
          else find_page_mapping s id)
  pub lists : (p i : ℕ) → Elem i (s'.partitions p).lru_list → (s.frames i).partition_idx ≡ p
  pub same_idx : new.partition_idx ≡ (s.frames v).partition_idx
  pub at_home : new.page_id ≢ null_page_id → partition_for s new.page_id ≡ new.partition_idx
  pub at_rest : new.is_io_in_progress ≡ false
  pub disk :
      (id : ℕ)
      → (id == (s.frames v).page_id && not (id == null_page_id)) ≡ false
      → s'.disk id ≡ s.disk id
  pub stored :
      (s.frames v).page_id ≢ null_page_id
      → new.page_id ≢ (s.frames v).page_id
      → s'.disk (s.frames v).page_id ≡ (s.frames v).page
  pub new_clean : new.page_id ≢ null_page_id → new.is_dirty ≡ false → new.page ≡ s'.disk new.page_id

module _ (s : BufferPool) (v : ℕ) (new : Frame) (s' : BufferPool) (k : IsConsistent s)
    (r : Replaced s v new s') where
  unmapped_null : find_page_mapping s null_page_id ≡ none
  unmapped_null = elim (Option-cases (find_page_mapping s null_page_id)) [
    | inl n ↦ n
    | inr (i, e) ↦ absurd ((k.mapped null_page_id i e).1 refl)
  ]

  -- The pool shows what it has shown, and the page of the frame.
  pub Replaced-content :
      (id : ℕ)
      → content s' id
        ≡ (if id == new.page_id && not (id == null_page_id) then new.page else content s id)
  unfolding content
  Replaced-content id = elim (Bool-cases (id == new.page_id && not (id == null_page_id))) [
    | inl here ↦ ground (arith, r.mapping id, here, r.frames v)
    | inr other ↦ elim (Bool-cases (id == (s.frames v).page_id)) [
      | inl was ↦ elim (Bool-cases (id == null_page_id)) [
        | inl null' ↦
            let e : id ≡ null_page_id = ground (arith, null') in
            let un = subst (λ j. find_page_mapping s j ≡ none) (sym e) unmapped_null in
            ground (arith, r.mapping id, other, un, r.disk id)
        | inr some' ↦
            let e : (s.frames v).page_id ≡ id = ground (arith, was) in
            let held =
              subst (λ j. find_page_mapping s j ≡ some v) e (k.resident v (ground arith)).0 in
            let kept : s'.disk id ≡ (s.frames v).page =
              subst (λ j. s'.disk j ≡ (s.frames v).page) e
                (r.stored (ground arith) (ground arith)) in
            ground (arith, r.mapping id, other, was, held, kept)
      ]
      | inr no' ↦ elim (Option-cases (find_page_mapping s id)) [
        | inl un ↦ ground (arith, r.mapping id, other, no', un, r.disk id)
        | inr (i, at) ↦
            let held = (k.mapped id i at).0 in
            let apart : (i == v) ≡ false = elim (Bool-cases (i == v)) [
              | inr f ↦ f
              | inl t ↦
                  let e : i ≡ v = ground (arith, t) in
                  absurd (ground (arith, subst (λ j. (s.frames j).page_id ≡ id) e held))
            ] in
            ground (arith, r.mapping id, other, no', at, r.frames i, apart)
      ]
    ]
  ]

  frame_here : s'.frames v ≡ new
  frame_here = ground (arith, r.frames v)

  frame_other : (i : ℕ) → i ≢ v → s'.frames i ≡ s.frames i
  frame_other i ne = ground (arith, r.frames i)

  partition_same : (id : ℕ) → partition_for s' id ≡ partition_for s id
  partition_same id = ap (λ n. if n == 0 then 0 else id % n) r.count

  -- Another frame has neither the old page nor the new one.
  not_old :
      (i : ℕ)
      → i ≢ v
      → (s.frames i).page_id ≢ null_page_id
      → (s.frames i).page_id ≢ (s.frames v).page_id
  not_old i ne held e =
      let mine = (k.resident i held).0 in
      let his = (k.resident v (λ z. held (e ∙ z))).0 in
      ne (ground (arith, mine, subst (λ j. find_page_mapping s j ≡ some v) (sym e) his))

  not_new :
      (i : ℕ) → i ≢ v → (s.frames i).page_id ≢ null_page_id → (s.frames i).page_id ≢ new.page_id
  not_new i ne held e =
      let mine = (k.resident i held).0 in
      let un = r.fresh (λ q. not_old i ne held (e ∙ q)) (λ q. held (e ∙ q)) in
      ground (arith, mine, subst (λ j. find_page_mapping s j ≡ none) (sym e) un)

  mapped' :
      (id i : ℕ)
      → find_page_mapping s' id ≡ some i
      → ((s'.frames i).page_id ≡ id) × (id ≢ null_page_id)
  mapped' id i e = elim (Bool-cases (id == new.page_id && not (id == null_page_id))) [
    | inl here ↦
        let at : v ≡ i = ground (arith, r.mapping id, here, e) in
        let f : s'.frames i ≡ new = subst (λ j. s'.frames j ≡ new) at frame_here in
        (ap (λ (g : Frame). g.page_id) f ∙ ground (arith, here), ground (arith, here))
    | inr other ↦
        let old : find_page_mapping s id ≡ some i = ground (arith, r.mapping id, other, e) in
        let apart : id ≢ (s.frames v).page_id = ground (arith, r.mapping id, other, e) in
        let held = k.mapped id i old in
        let f =
          frame_other i (λ q. apart (sym (subst (λ j. (s.frames j).page_id ≡ id) q held.0))) in
        (ap (λ (g : Frame). g.page_id) f ∙ held.0, held.1)
  ]

  resident' :
      (i : ℕ)
      → (s'.frames i).page_id ≢ null_page_id
      → (find_page_mapping s' (s'.frames i).page_id ≡ some i)
        × (partition_for s' (s'.frames i).page_id ≡ (s'.frames i).partition_idx)
  resident' i ne = elim (ℕ_discrete i v) [
    | yes here ↦
        let f : s'.frames i ≡ new = ap s'.frames here ∙ frame_here in
        let held : new.page_id ≢ null_page_id = λ z. ne (ap (λ (g : Frame). g.page_id) f ∙ z) in
        subst
          (λ (g : Frame).
            (find_page_mapping s' g.page_id ≡ some i)
            × (partition_for s' g.page_id ≡ g.partition_idx))
          (sym f)
          (
            ground (arith, r.mapping new.page_id, held, here),
            partition_same new.page_id ∙ r.at_home held,
          )
    | no other ↦
        let f = sym (frame_other i other) in
        subst
          (λ (g : Frame).
            (find_page_mapping s' g.page_id ≡ some i)
            × (partition_for s' g.page_id ≡ g.partition_idx))
          f
          (let held : (s.frames i).page_id ≢ null_page_id =
              λ z. ne (ap (λ (g : Frame). g.page_id) (sym f) ∙ z) in
            let mine = k.resident i held in
            let old = not_old i other held in
            let new' = not_new i other held in
            (
              ground (arith, r.mapping (s.frames i).page_id, mine.0, old, new'),
              partition_same (s.frames i).page_id ∙ mine.1,
            ))
  ]

  clean' :
      (i : ℕ)
      → (s'.frames i).page_id ≢ null_page_id
      → (s'.frames i).is_dirty ≡ false
      → (s'.frames i).page ≡ s'.disk (s'.frames i).page_id
  clean' i ne c = elim (ℕ_discrete i v) [
    | yes here ↦
        let f : s'.frames i ≡ new = ap s'.frames here ∙ frame_here in
        subst (λ (g : Frame). g.page ≡ s'.disk g.page_id) (sym f)
          (r.new_clean (λ z. ne (ap (λ (g : Frame). g.page_id) f ∙ z))
            (ap (λ (g : Frame). g.is_dirty) (sym f) ∙ c))
    | no other ↦
        let f = frame_other i other in
        subst (λ (g : Frame). g.page ≡ s'.disk g.page_id) (sym f)
          (let held : (s.frames i).page_id ≢ null_page_id =
              λ z. ne (ap (λ (g : Frame). g.page_id) f ∙ z) in
            let tidy = k.clean i held (ap (λ (g : Frame). g.is_dirty) (sym f) ∙ c) in
            let old = not_old i other held in
            tidy ∙ sym (r.disk (s.frames i).page_id (ground (arith, old))))
  ]

  pub Replaced-IsConsistent : IsConsistent s'
  Replaced-IsConsistent = record {
    mapped = mapped';
    resident = resident';
    home = λ p i m. ground (arith, r.frames i, r.lists p i m, r.same_idx);
    quiet = λ i. ground (arith, r.frames i, r.at_rest, k.quiet i);
    clean = clean';
  }
