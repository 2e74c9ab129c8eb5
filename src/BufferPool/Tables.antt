-- ===== src/BufferPool/Tables.antt =====
-- The page tables of storage/buffer_pool.cpp after a change of one frame.
use minidb.Prelude.{
  ℕ, ◌%◌, ◌≡◌, ◌≢◌, refl, sym, ap, subst, ◌∙◌, inl, inr, true, false, none, some, arith, ◌==◌,
  if◌then◌else◌, Elem, Option-cases, ◌&&◌, not,
}
use native.Mathlib.Decide.{ℕ_discrete}
use minidb.Prelude.Assoc.{Assoc, find}
use minidb.BufferPool.{Frame, BufferPool, null_page_id, partition_for, find_page_mapping}
use minidb.BufferPool.Invariant.{IsConsistent}
use minidb.BufferPool.Replaced.{Replaced}

null-unmapped :
    (s : BufferPool) → IsConsistent s → (id : ℕ) → id ≡ null_page_id → find_page_mapping s id ≡ none
null-unmapped s k id z = elim (Option-cases (find_page_mapping s id)) [
  | inl n ↦ n
  | inr (i, e) ↦ absurd ((k.mapped id i e).1 z)
]

-- The same from the page table of the partition that changes.
pub table-mapping :
    (s : BufferPool) (v page_id : ℕ) (table : Assoc ℕ) (s' : BufferPool)
    → IsConsistent s
    → (page_id ≢ null_page_id → partition_for s page_id ≡ (s.frames v).partition_idx)
    → s'.partition_count ≡ s.partition_count
    → ((q : ℕ)
        → (s'.partitions q).page_table
          ≡ (if q == (s.frames v).partition_idx then table else (s.partitions q).page_table))
    → ((id : ℕ)
        → find id table ≡ (
            if id == page_id && not (id == null_page_id)
            then some v
            else if id == (s.frames v).page_id && not (id == null_page_id)
            then none
            else find id (s.partitions (s.frames v).partition_idx).page_table))
    → (id : ℕ)
    → find_page_mapping s' id ≡ (
        if id == page_id && not (id == null_page_id)
        then some v
        else if id == (s.frames v).page_id
        then none
        else find_page_mapping s id)
table-mapping s v page_id table s' k at_home count tables finds id =
    let p = (s.frames v).partition_idx in
    let q = partition_for s id in
    let same_q : partition_for s' id ≡ q = ap (λ n. if n == 0 then 0 else id % n) count in
    let look : find_page_mapping s' id
        ≡ find id (if q == p then table else (s.partitions q).page_table) =
      unfold find_page_mapping in
      ap (λ r. find id (s'.partitions r).page_table) same_q ∙ ap (find id) (tables q) in
    let m : find_page_mapping s id ≡ find id (s.partitions q).page_table =
      unfold find_page_mapping in refl in
    look ∙ (elim (ℕ_discrete q p) [
      | yes in_p ↦
          let hit : (q == p) ≡ true = ground (arith, in_p) in
          let t : find id (s.partitions p).page_table ≡ find_page_mapping s id =
            sym (m ∙ ap (λ r. find id (s.partitions r).page_table) in_p) in
          elim (ℕ_discrete id null_page_id) [
            | yes z ↦ rw hit (ground (arith, finds id, t, null-unmapped s k id z, z))
            | no nz ↦ rw hit (ground (arith, finds id, t, nz))
          ]
      | no away ↦
          let miss : (q == p) ≡ false = ground (arith, away) in
          elim (ℕ_discrete id null_page_id) [
            | yes z ↦ rw miss (sym m ∙ ground (arith, null-unmapped s k id z, z))
            | no nz ↦
                let not_id : id ≢ page_id =
                  λ e. away (ap (partition_for s) e ∙ at_home (λ z. nz (e ∙ z))) in
                let not_evict : id ≢ (s.frames v).page_id =
                  λ e. away (ap (partition_for s) e ∙ (k.resident v (λ z. nz (e ∙ z))).1) in
                rw miss (sym m ∙ ground (arith, not_id, not_evict))
          ]
    ])

-- A frame that keeps its page id.
pub touched-Replaced :
    (s : BufferPool) (i : ℕ) (g : Frame) (s' : BufferPool)
    → IsConsistent s
    → (s.frames i).page_id ≢ null_page_id
    → g.page_id ≡ (s.frames i).page_id
    → g.partition_idx ≡ (s.frames i).partition_idx
    → g.is_io_in_progress ≡ false
    → (g.is_dirty ≡ false → g.page ≡ s'.disk (s.frames i).page_id)
    → ((j : ℕ) → s'.frames j ≡ (if j == i then g else s.frames j))
    → s'.partition_count ≡ s.partition_count
    → ((q : ℕ) → (s'.partitions q).page_table ≡ (s.partitions q).page_table)
    → ((q j : ℕ) → Elem j (s'.partitions q).lru_list → (s.frames j).partition_idx ≡ q)
    → ((id : ℕ) → id ≢ (s.frames i).page_id → s'.disk id ≡ s.disk id)
    → Replaced s i g s'
touched-Replaced s i g s' k held id_lem idx io clean frames count tables lists disk =
    let mine = k.resident i held in
    record {
      fresh = λ ne. absurd (ne id_lem);
      frames = frames;
      count = count;
      mapping = λ id.
          let same' : find_page_mapping s' id ≡ find_page_mapping s id =
            unfold find_page_mapping in
            ap (λ n. find id (s'.partitions (if n == 0 then 0 else id % n)).page_table) count
            ∙ ap (find id) (tables (partition_for s id)) in
          elim (ℕ_discrete id (s.frames i).page_id) [
            | yes e ↦
                let at = subst (λ j. find_page_mapping s j ≡ some i) (sym e) mine.0 in
                ground (arith, same', at, id_lem, held)
            | no ne ↦ ground (arith, same', id_lem, ne)
          ];
      lists = lists;
      same_idx = idx;
      at_home = λ nz. ap (partition_for s) id_lem ∙ mine.1 ∙ sym idx;
      at_rest = io;
      disk = λ id e. elim (ℕ_discrete id (s.frames i).page_id) [
        | yes q ↦ absurd (ground (arith, q, held, e))
        | no ne ↦ disk id ne
      ];
      stored = λ nz ne. absurd (ne id_lem);
      new_clean = λ nz c. clean c ∙ ap s'.disk (sym id_lem);
    }
