-- ===== src/BufferPool/MakeNew.antt =====
-- What new_page of storage/buffer_pool.cpp comes to in each case.
use native.Mathlib.Decide.{ℕ_discrete}
use minidb.Prelude.{
  ℕ, ◌≡◌, ◌≢◌, refl, sym, ap, subst, ◌∙◌, inl, inr, Bool, true, false, [], ◌∷◌, ◌++◌, Option, none,
  some, arith, ◌==◌, if◌then◌else◌, Elem, Elem-append,
}
use minidb.Page.{Page, init}
use minidb.BufferPool.{
  add_pin, Frame, BufferPool, Answers, null_page_id, partition_for, find_page_mapping,
  find_victim_frame, reserve, claim, new_page, make_new, write_back, set_frame, move_to_front,
  without,
}
use minidb.BufferPool.Invariant.{IsConsistent, content}
use minidb.BufferPool.Replaced.{Replaced, Replaced-IsConsistent}
use minidb.BufferPool.Tables.{touched-Replaced}
use minidb.BufferPool.Fetch.{without-Elem}
use minidb.BufferPool.Served.{
  Serves, content-mapped, Replaced-same, old_page, answer_here, kept_here, kept_frame, IsServed,
}
use minidb.BufferPool.FetchPage.{need_flush}

-- The memory after a call: the page is empty if the pool has made it, and not if it had a frame already.
unfoldable pub created : BufferPool → ℕ → ℕ → Option ℕ → ℕ → Page
created s page_id page_type answer id = elim answer [
  | none ↦ content s id
  | some i ↦ elim (find_page_mapping s page_id) [
    | some j ↦ content s id
    | none ↦ if id == page_id then init page_id page_type else content s id
  ]
]

pub new_page-null :
    (page_id page_type : ℕ) (a : Answers) (s : BufferPool)
    → page_id ≡ null_page_id
    → new_page page_id page_type a s ≡ (s, none)
unfolding new_page
new_page-null page_id page_type a s z = ground (arith, z)

unfoldable pub moved_pinned : ℕ → ℕ → BufferPool → BufferPool
unfolding without
moved_pinned p i s =
    move_to_front p i
      (set_frame s i (record (s.frames i) { pin_count = add_pin (s.frames i).pin_count }))

pub new_page-hit :
    (page_id page_type i : ℕ) (a : Answers) (s : BufferPool)
    → page_id ≢ null_page_id
    → find_page_mapping s page_id ≡ some i
    → (s.frames i).is_io_in_progress ≡ false
    → new_page page_id page_type a s ≡ (moved_pinned (partition_for s page_id) i s, some i)
unfolding new_page claim moved_pinned
new_page-hit page_id page_type i a s nz at quiet = ground (arith, nz, at, quiet)

pub new_page-full :
    (page_id page_type : ℕ) (a : Answers) (s : BufferPool)
    → page_id ≢ null_page_id
    → find_page_mapping s page_id ≡ none
    → find_victim_frame s (partition_for s page_id) ≡ none
    → new_page page_id page_type a s ≡ (s, none)
unfolding new_page claim
new_page-full page_id page_type a s nz un no' = ground (arith, nz, un, no')

-- The I/O of new_page.
unfoldable pub create : ℕ → ℕ → ℕ → ℕ → ℕ → Bool → Answers → BufferPool → BufferPool × Option ℕ
create page_id page_type p v e need a t =
    let written = write_back p v e need a t in
    if written.1 then make_new page_id page_type v written.0 else (written.0, none)

pub new_page-victim :
    (page_id page_type v : ℕ) (a : Answers) (s : BufferPool)
    → page_id ≢ null_page_id
    → find_page_mapping s page_id ≡ none
    → find_victim_frame s (partition_for s page_id) ≡ some v
    → new_page page_id page_type a s
      ≡ create page_id page_type
          (partition_for (reserve page_id v s) page_id)
          v
          (s.frames v).page_id
          (need_flush (s.frames v) s.durable_lsn)
          a
          (reserve page_id v s)
unfolding new_page claim need_flush create
new_page-victim page_id page_type v a s nz un at = ground (arith, nz, un, at)

IsServed-ext :
    (s : BufferPool) (m m' : ℕ → Page) (page_id : ℕ) (r : BufferPool × Option ℕ)
    → ((id : ℕ) → m id ≡ m' id)
    → IsServed s m page_id r
    → IsServed s m' page_id r
IsServed-ext s m m' page_id r e k = record {
  consistent = k.consistent;
  shown = λ id. k.shown id ∙ e id;
  pins = k.pins;
  answer = λ i h. let (id_lem, page, pins) = k.answer i h in (id_lem, page ∙ e page_id, pins);
}

pub Serves-ext :
    (s : BufferPool) (m m' : ℕ → Page) (page_id : ℕ) (r : BufferPool × Option ℕ)
    → ((id : ℕ) → m id ≡ m' id)
    → Serves s m page_id r
    → Serves s m' page_id r
Serves-ext s m m' page_id r e ((k, shown), served) =
    ((k, λ id. shown id ∙ e id), λ room. IsServed-ext s m m' page_id r e (served room))

pub create_done :
    (page_id page_type p v e : ℕ) (need : Bool) (a : Answers) (t : BufferPool) (q : ℕ)
    → q ≡ p
    → (write_back p v e need a t).1 ≡ true
    → create page_id page_type q v e need a t
      ≡ make_new page_id page_type v (write_back p v e need a t).0
unfolding create
create_done page_id page_type p v e need a t q same done =
    subst
      (λ n.
        create page_id page_type n v e need a t
        ≡ make_new page_id page_type v (write_back p v e need a t).0)
      (sym same) (ground (arith, done))

pub create_failed :
    (page_id page_type p v e : ℕ) (need : Bool) (a : Answers) (t : BufferPool) (q : ℕ)
    → q ≡ p
    → (write_back p v e need a t).1 ≡ false
    → create page_id page_type q v e need a t ≡ ((write_back p v e need a t).0, none)
unfolding create
create_failed page_id page_type p v e need a t q same failed =
    subst (λ n. create page_id page_type n v e need a t ≡ ((write_back p v e need a t).0, none))
      (sym same) (ground (arith, failed))

-- A page that already has a frame is pinned, and moves to the front of its list.
moved-Replaced :
    (s : BufferPool) (page_id i : ℕ)
    → IsConsistent s
    → find_page_mapping s page_id ≡ some i
    → Replaced s i
        (record (s.frames i) { pin_count = add_pin (s.frames i).pin_count })
        (moved_pinned (partition_for s page_id) i s)
unfolding moved_pinned
moved-Replaced s page_id i k at =
    let p = partition_for s page_id in
    let (id_lem, nz) = k.mapped page_id i at in
    let held : (s.frames i).page_id ≢ null_page_id = λ z. nz (sym id_lem ∙ z) in
    let home : (s.frames i).partition_idx ≡ p =
      sym (k.resident i held).1 ∙ ap (partition_for s) id_lem in
    touched-Replaced s i _ (moved_pinned p i s) k held refl refl (k.quiet i) (k.clean i held)
      (λ j. refl) refl (λ q. ground arith)
      (λ q j m. elim (ℕ_discrete q p) [
        | no away ↦ k.home q j (subst (λ l. Elem j l) (ground (arith, away)) m)
        | yes here ↦
            let l = (s.partitions q).lru_list in
            let m' : Elem j (without i l ++ i ∷ []) =
              subst (λ w. Elem j w) (ground (arith, here, ap (λ n. (s.partitions n).lru_list) here))
                m in
            elim (Elem-append j (without i l) (i ∷ []) m') [
              | inl n ↦ k.home q j (without-Elem i j l n)
              | inr n ↦ elim n [
                | inl e ↦ ap (λ n. (s.frames n).partition_idx) e ∙ home ∙ sym here
                | inr z ↦ elim z [ ]
              ]
            ]
      ])
      (λ id ne. refl)

pub moved-Serves :
    (s : BufferPool) (page_id i : ℕ)
    → IsConsistent s
    → find_page_mapping s page_id ≡ some i
    → Serves s (content s) page_id (moved_pinned (partition_for s page_id) i s, some i)
unfolding moved_pinned
moved-Serves s page_id i k at =
    let s' = moved_pinned (partition_for s page_id) i s in
    let (id_lem, nz) = k.mapped page_id i at in
    let held : (s.frames i).page_id ≢ null_page_id = λ z. nz (sym id_lem ∙ z) in
    let g : Frame = record (s.frames i) { pin_count = add_pin (s.frames i).pin_count } in
    let r = moved-Replaced s page_id i k at in
    let at_i : s'.frames i ≡ g = ground arith in
    let consistent = Replaced-IsConsistent s i g s' k r in
    let shown = Replaced-same s i g s' k r (λ ne. old_page s i k held) in
    (
      (consistent, shown),
      λ room.
          let small = room i at in
          record {
            consistent = consistent;
            shown = shown;
            pins = λ j held' pin. elim (ℕ_discrete j i) [
              | yes here ↦ kept_here s s' i j g at_i here refl refl (omega (arith, small))
              | no other ↦
                  kept_frame s s' j (s.frames j) (ground (arith, other)) refl refl (ground arith)
            ];
            answer = λ j e.
                answer_here s' i j page_id (content s page_id) g at_i (ground (arith, e)) id_lem
                  (sym (content-mapped s page_id i at)) (omega (arith, small));
          },
    )
