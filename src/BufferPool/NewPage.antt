-- ===== src/BufferPool/NewPage.antt =====
-- new_page of storage/buffer_pool.cpp.
use native.Mathlib.Decide.{ℕ_discrete}
use minidb.Prelude.{
  ℕ, ◌≡◌, ◌≢◌, refl, sym, subst, inl, inr, Bool, true, false, Option, none, some, arith, Elem,
  Bool-cases, Option-cases,
}
use minidb.Page.{init}
use minidb.BufferPool.{
  Frame, BufferPool, Answers, null_page_id, partition_for, find_page_mapping, find_victim_frame,
  reserve, new_page, make_new, write_back,
}
use minidb.BufferPool.Invariant.{IsConsistent, content}
use minidb.BufferPool.Replaced.{Replaced, Replaced-content, Replaced-IsConsistent}
use minidb.BufferPool.Fetch.{victim-Elem}
use minidb.BufferPool.Blocks.{make_new_done}
use minidb.BufferPool.Reserve.{failed_write-Replaced, reserve-part}
use minidb.BufferPool.Load.{filled-Replaced, written-idx}
use minidb.BufferPool.Victim.{victim-free}
use minidb.BufferPool.Served.{
  Serves, IsServed-Serves, HasPinRoom, Replaced-same, old_page, Replaced-kept, answer_here,
  refused-IsServed, IsServed,
}
use minidb.BufferPool.FetchPage.{need_flush}
use minidb.BufferPool.MakeNew.{
  created, new_page-null, new_page-hit, new_page-full, create, new_page-victim, Serves-ext,
  create_done, create_failed, moved-Serves,
}

module _ (page_id page_type v : ℕ) (need : Bool) (a : Answers) (s : BufferPool) (k : IsConsistent s)
    (nz : page_id ≢ null_page_id) (un : find_page_mapping s page_id ≡ none)
    (at : find_victim_frame s (partition_for s page_id) ≡ some v) where
  listed : Elem v (s.partitions (partition_for s page_id)).lru_list
  listed = elim (victim-Elem s.frames none (s.partitions (partition_for s page_id)).lru_list v at) [
    | inl z ↦ absurd (ground (arith, z))
    | inr m ↦ m
  ]

  abbrev fresh_frame : Frame
  fresh_frame = record {
    page = init page_id page_type;
    page_id = page_id;
    pin_count = 1;
    is_dirty = true;
    is_io_in_progress = false;
    partition_idx = (s.frames v).partition_idx;
  }

  abbrev written : BufferPool × Bool
  written = write_back (partition_for s page_id) v (s.frames v).page_id need a (reserve page_id v s)

  made-Replaced :
      written.1 ≡ true → Replaced s v fresh_frame (make_new page_id page_type v written.0).0
  made-Replaced done =
      let (answer, frames, count, tables, lists, disk) =
        make_new_done page_id v written.0 page_type in
      filled-Replaced s page_id v k nz un listed need false a fresh_frame
        (make_new page_id page_type v written.0).0 done
        (λ j. ground (arith, frames j, written-idx s page_id v k nz un listed need a done)) count
        tables lists disk refl refl refl (λ c. absurd (ground (arith, c)))

  create-IsServed :
      (let r =
          create page_id page_type
            (partition_for (reserve page_id v s) page_id)
            v
            (s.frames v).page_id
            need
            a
            (reserve page_id v s) in
        IsServed s (created s page_id page_type r.1) page_id r)
  unfolding created
  create-IsServed =
      let P : BufferPool × Option ℕ → Type 0 =
        λ r. IsServed s (created s page_id page_type r.1) page_id r in
      let hp = reserve-part s page_id v k nz un listed in
      let p = partition_for s page_id in
      let t = reserve page_id v s in
      let e = (s.frames v).page_id in
      let l = (s.partitions p).lru_list in
      let free = victim-free s.frames none l v (λ j q. absurd (ground (arith, q))) at in
      elim (Bool-cases written.1) [
        | inr failed ↦
            let c = failed_write-Replaced s page_id v k nz un listed need a failed in
            subst P
              (sym (
                create_failed page_id page_type p v e need a t (partition_for t page_id) hp failed))
              (record {
                consistent = Replaced-IsConsistent s v _ written.0 k c;
                shown = Replaced-same s v _ written.0 k c (old_page s v k);
                pins = Replaced-kept s v _ written.0 c free;
                answer = λ j q. absurd (ground (arith, q));
              })
        | inl done ↦
            let c = made-Replaced done in
            let r = make_new page_id page_type v written.0 in
            let ok = (make_new_done page_id v written.0 page_type).0 in
            subst P
              (sym (create_done page_id page_type p v e need a t (partition_for t page_id) hp done))
              (record {
                consistent = Replaced-IsConsistent s v fresh_frame r.0 k c;
                shown =
                    λ id. ground (arith, Replaced-content s v fresh_frame r.0 k c id, ok, un, nz);
                pins = Replaced-kept s v fresh_frame r.0 c free;
                answer = λ j q.
                    answer_here r.0 v j page_id (created s page_id page_type r.1 page_id)
                      fresh_frame (ground (arith, c.frames v)) (ground (arith, ok, q)) refl
                      (ground (arith, ok, un)) (ground arith);
              })
      ]

pub new_page-Serves :
    (page_id page_type : ℕ) (a : Answers) (s : BufferPool)
    → IsConsistent s
    → (let r = new_page page_id page_type a s in
        Serves s (created s page_id page_type r.1) page_id r)
new_page-Serves page_id page_type a s k =
    let P : BufferPool × Option ℕ → Type 0 =
      λ r. Serves s (created s page_id page_type r.1) page_id r in
    let refused : P (s, none) =
      unfold created in
      IsServed-Serves s (content s) page_id (s, none) (refused-IsServed s page_id k) in
    elim (ℕ_discrete page_id null_page_id) [
      | yes z ↦ subst P (sym (new_page-null page_id page_type a s z)) refused
      | no nz ↦ elim (Option-cases (find_page_mapping s page_id)) [
        | inr (i, at) ↦ subst P (sym (new_page-hit page_id page_type i a s nz at (k.quiet i))) (
            Serves-ext s (content s) _ page_id _ (λ id. unfold created in ground (arith, at))
              (moved-Serves s page_id i k at))
        | inl un ↦ elim (Option-cases (find_victim_frame s (partition_for s page_id))) [
          | inl full ↦ subst P (sym (new_page-full page_id page_type a s nz un full)) refused
          | inr (v, at) ↦ subst P (sym (new_page-victim page_id page_type v a s nz un at)) (
              IsServed-Serves s _ page_id _ (
                create-IsServed page_id page_type v (need_flush (s.frames v) s.durable_lsn) a s k nz
                  un at))
        ]
      ]
    ]

-- new_page in a consistent pool in which the pins of the page are fewer than 2^32 - 1, whatever the
-- store and the log answer: the pool stays consistent, pinned frames stay, the frame that is answered is
-- pinned and has the page, and the pool shows the same pages but for an empty page where it has made
-- one.
pub new_page-IsServed :
    (page_id page_type : ℕ) (a : Answers) (s : BufferPool)
    → IsConsistent s
    → HasPinRoom s page_id
    → (let r = new_page page_id page_type a s in
        IsServed s (created s page_id page_type r.1) page_id r)
new_page-IsServed page_id page_type a s k room = (new_page-Serves page_id page_type a s k).1 room
