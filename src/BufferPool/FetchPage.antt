-- ===== src/BufferPool/FetchPage.antt =====
-- fetch_page of storage/buffer_pool.cpp.
use native.Mathlib.Decide.{ℕ_discrete}
use minidb.Prelude.{
  ℕ, ◌≡◌, ◌≢◌, refl, sym, ap, subst, ◌∙◌, inl, inr, Bool, false, Option, none, some, arith, ◌==◌,
  Elem, Option-cases, not, ◌&&◌,
}
use minidb.BufferPool.{
  add_pin, Frame, BufferPool, Answers, null_page_id, partition_for, find_page_mapping,
  find_victim_frame, is_ahead, reserve, load, fetch_hit, claim, fetch_page,
}
use minidb.BufferPool.Invariant.{IsConsistent, content}
use minidb.BufferPool.Replaced.{Replaced-IsConsistent}
use minidb.BufferPool.Fetch.{victim-Elem}
use minidb.BufferPool.Load.{load-Replaced, loaded}
use minidb.BufferPool.Victim.{victim-free}
use minidb.BufferPool.Served.{
  Serves, IsServed-Serves, HasPinRoom, content-mapped, content-absent, Replaced-same, old_page,
  pinned, pinned-Replaced, Replaced-kept, answer_here, kept_here, kept_frame, refused-IsServed,
  IsServed,
}

unfoldable pub need_flush : Frame → Option ℕ → Bool
need_flush f durable = f.is_dirty && not (f.page_id == null_page_id) && is_ahead durable f.page.lsn

pub fetch_page-hit :
    (page_id i : ℕ) (seq : Bool) (a : Answers) (s : BufferPool)
    → page_id ≢ null_page_id
    → find_page_mapping s page_id ≡ some i
    → (s.frames i).is_io_in_progress ≡ false
    → fetch_page page_id seq a s ≡ (pinned i s, some i)
unfolding fetch_page fetch_hit pinned
fetch_page-hit page_id i seq a s nz at quiet = ground (arith, nz, at, quiet)

pub fetch_page-full :
    (page_id : ℕ) (seq : Bool) (a : Answers) (s : BufferPool)
    → page_id ≢ null_page_id
    → find_page_mapping s page_id ≡ none
    → find_victim_frame s (partition_for s page_id) ≡ none
    → fetch_page page_id seq a s ≡ (s, none)
unfolding fetch_page fetch_hit claim
fetch_page-full page_id seq a s nz un no' = ground (arith, nz, un, no')

pub fetch_page-victim :
    (page_id v : ℕ) (seq : Bool) (a : Answers) (s : BufferPool)
    → page_id ≢ null_page_id
    → find_page_mapping s page_id ≡ none
    → find_victim_frame s (partition_for s page_id) ≡ some v
    → fetch_page page_id seq a s
      ≡ load page_id seq v
          (s.frames v).page_id
          (need_flush (s.frames v) s.durable_lsn)
          a
          (reserve page_id v s)
unfolding fetch_page fetch_hit claim need_flush
fetch_page-victim page_id v seq a s nz un at = ground (arith, nz, un, at)

pub fetch_page-null :
    (page_id : ℕ) (seq : Bool) (a : Answers) (s : BufferPool)
    → page_id ≡ null_page_id
    → fetch_page page_id seq a s ≡ (s, none)
unfolding fetch_page
fetch_page-null page_id seq a s z = ground (arith, z)

hit-Serves :
    (s : BufferPool) (page_id i : ℕ)
    → IsConsistent s
    → find_page_mapping s page_id ≡ some i
    → Serves s (content s) page_id (pinned i s, some i)
unfolding pinned
hit-Serves s page_id i k at =
    let (id_lem, nz) = k.mapped page_id i at in
    let held : (s.frames i).page_id ≢ null_page_id = λ z. nz (sym id_lem ∙ z) in
    let g : Frame = record (s.frames i) { pin_count = add_pin (s.frames i).pin_count } in
    let r = pinned-Replaced s i k held in
    let at_i : (pinned i s).frames i ≡ g = ground arith in
    let consistent = Replaced-IsConsistent s i g (pinned i s) k r in
    let shown = Replaced-same s i g (pinned i s) k r (λ ne. old_page s i k held) in
    (
      (consistent, shown),
      λ room.
          let small = room i at in
          record {
            consistent = consistent;
            shown = shown;
            pins = λ j held' pin. elim (ℕ_discrete j i) [
              | yes here ↦ kept_here s (pinned i s) i j g at_i here refl refl (omega (arith, small))
              | no other ↦
                  kept_frame s (pinned i s) j (s.frames j) (ground (arith, other)) refl refl
                    (ground arith)
            ];
            answer = λ j e.
                answer_here (pinned i s) i j page_id (content s page_id) g at_i (ground (arith, e))
                  id_lem (sym (content-mapped s page_id i at)) (omega (arith, small));
          },
    )

-- What the I/O does, once a victim is found.
load-IsServed :
    (page_id v : ℕ) (seq need : Bool) (a : Answers) (s : BufferPool)
    → IsConsistent s
    → page_id ≢ null_page_id
    → find_page_mapping s page_id ≡ none
    → find_victim_frame s (partition_for s page_id) ≡ some v
    → IsServed s
        (content s)
        page_id
        (load page_id seq v (s.frames v).page_id need a (reserve page_id v s))
load-IsServed page_id v seq need a s k nz un at =
    let l = (s.partitions (partition_for s page_id)).lru_list in
    let listed : Elem v l = elim (victim-Elem s.frames none l v at) [
      | inl z ↦ absurd (ground (arith, z))
      | inr m ↦ m
    ] in
    let free = victim-free s.frames none l v (λ j q. absurd (ground (arith, q))) at in
    let r = load page_id seq v (s.frames v).page_id need a (reserve page_id v s) in
    elim (load-Replaced s page_id v k nz un listed seq need a) [
      | inl (ok, c) ↦ record {
        consistent = Replaced-IsConsistent s v _ r.0 k c;
        shown = Replaced-same s v _ r.0 k c (λ ne. sym (content-absent s page_id un));
        pins = Replaced-kept s v _ r.0 c free;
        answer = λ j e.
            answer_here r.0 v j page_id (content s page_id) (loaded s page_id v k nz un listed)
              (ground (arith, c.frames v)) (ground (arith, ok, e)) refl
              (sym (content-absent s page_id un)) (ground arith);
      }
      | inr (no', (new, c, which)) ↦ record {
        consistent = Replaced-IsConsistent s v new r.0 k c;
        shown = Replaced-same s v new r.0 k c (λ ne. elim which [
          | inl z ↦ absurd (ne z)
          | inr same ↦
              let same_id = ap (λ (f : Frame). f.page_id) same in
              ap (λ (f : Frame). f.page) same
              ∙ old_page s v k (λ z. ne (same_id ∙ z))
              ∙ ap (content s) (sym same_id)
        ]);
        pins = Replaced-kept s v new r.0 c free;
        answer = λ j e. absurd (ground (arith, no', e));
      }
    ]

pub fetch_page-Serves :
    (page_id : ℕ) (seq : Bool) (a : Answers) (s : BufferPool)
    → IsConsistent s
    → Serves s (content s) page_id (fetch_page page_id seq a s)
fetch_page-Serves page_id seq a s k =
    let P : BufferPool × Option ℕ → Type 0 = Serves s (content s) page_id in
    let refused = IsServed-Serves s (content s) page_id (s, none) (refused-IsServed s page_id k) in
    elim (ℕ_discrete page_id null_page_id) [
      | yes z ↦ subst P (sym (fetch_page-null page_id seq a s z)) refused
      | no nz ↦ elim (Option-cases (find_page_mapping s page_id)) [
        | inr (i, at) ↦
            subst P (sym (fetch_page-hit page_id i seq a s nz at (k.quiet i)))
              (hit-Serves s page_id i k at)
        | inl un ↦ elim (Option-cases (find_victim_frame s (partition_for s page_id))) [
          | inl full ↦ subst P (sym (fetch_page-full page_id seq a s nz un full)) refused
          | inr (v, at) ↦ subst P (sym (fetch_page-victim page_id v seq a s nz un at)) (
              IsServed-Serves s (content s) page_id _ (
                load-IsServed page_id v seq (need_flush (s.frames v) s.durable_lsn) a s k nz un at))
        ]
      ]
    ]

-- fetch_page in a consistent pool in which the pins of the page are fewer than 2^32 - 1, whatever the
-- store and the log answer: the pool stays consistent and shows the same pages, pinned frames stay, and
-- what is answered is a pinned frame of the page.
pub fetch_page-IsServed :
    (page_id : ℕ) (seq : Bool) (a : Answers) (s : BufferPool)
    → IsConsistent s
    → HasPinRoom s page_id
    → IsServed s (content s) page_id (fetch_page page_id seq a s)
fetch_page-IsServed page_id seq a s k room = (fetch_page-Serves page_id seq a s k).1 room
