-- ===== src/BufferPool/Served.antt =====
-- What a call for a page of storage/buffer_pool.cpp leaves: the pages that the pool shows, and the pins.
use native.Mathlib.Decide.{ℕ_discrete}
use minidb.Prelude.{
  ℕ, ◌<◌, ◌≤◌, ◌≡◌, ◌≢◌, ◌⊎◌, refl, sym, ap, subst, ◌∙◌, inl, inr, true, Option, none, some, arith,
  ◌==◌, Bool-cases, not, ◌&&◌,
}
use minidb.Page.{Page}
use minidb.BufferPool.{add_pin, Frame, BufferPool, null_page_id, find_page_mapping, set_frame}
use minidb.BufferPool.Invariant.{IsConsistent, content}
use minidb.BufferPool.Replaced.{Replaced, Replaced-content}
use minidb.BufferPool.Tables.{touched-Replaced}
use minidb.BufferPool.Victim.{is_empty, is_evictable}

pub content-mapped :
    (s : BufferPool) (id i : ℕ) → find_page_mapping s id ≡ some i → content s id ≡ (s.frames i).page
unfolding content
content-mapped s id i e = ground (arith, e)

pub content-absent :
    (s : BufferPool) (id : ℕ) → find_page_mapping s id ≡ none → content s id ≡ s.disk id
unfolding content
content-absent s id e = ground (arith, e)

-- A change that leaves what the pool shows.
pub Replaced-same :
    (s : BufferPool) (v : ℕ) (new : Frame) (s' : BufferPool)
    → IsConsistent s
    → Replaced s v new s'
    → (new.page_id ≢ null_page_id → new.page ≡ content s new.page_id)
    → (id : ℕ) → content s' id ≡ content s id
Replaced-same s v new s' k r same id =
    let c = Replaced-content s v new s' k r id in
    elim (Bool-cases (id == new.page_id && not (id == null_page_id))) [
      | inr other ↦ ground (arith, c, other)
      | inl here ↦
          let e : new.page_id ≡ id = ground (arith, here) in
          let nz : new.page_id ≢ null_page_id = ground (arith, here) in
          let p : new.page ≡ content s id = same nz ∙ ap (content s) e in ground (arith, c, here, p)
    ]

pub old_page :
    (s : BufferPool) (v : ℕ)
    → IsConsistent s
    → (s.frames v).page_id ≢ null_page_id
    → (s.frames v).page ≡ content s (s.frames v).page_id
old_page s v k nz = sym (content-mapped s (s.frames v).page_id v (k.resident v nz).0)

unfoldable pub pinned : ℕ → BufferPool → BufferPool
pinned i s = set_frame s i (record (s.frames i) { pin_count = add_pin (s.frames i).pin_count })

-- The pin count of the page's frame, if it has one, can grow without wrapping around.
abbrev pub HasPinRoom : BufferPool → ℕ → Type 0
HasPinRoom s page_id =
    (i : ℕ) → find_page_mapping s page_id ≡ some i → (s.frames i).pin_count < 4294967295

-- Between two states, the frames that are pinned keep their page, and the pins.
pub record IsKeptPinned (s s' : BufferPool) (j : ℕ) : Type 0 where
  pub same_page_id : (s'.frames j).page_id ≡ (s.frames j).page_id
  pub same_page : (s'.frames j).page ≡ (s.frames j).page
  pub still_pinned : (s.frames j).pin_count ≤ (s'.frames j).pin_count

-- A call for a page: the pool stays consistent and shows the memory `m`, frames that are pinned stay as
-- they are, and the frame that is answered is pinned and has the page.
pub record IsServed (s : BufferPool) (m : ℕ → Page) (page_id : ℕ) (r : BufferPool × Option ℕ)
    : Type 0 where
  pub consistent : IsConsistent r.0
  pub shown : (id : ℕ) → content r.0 id ≡ m id
  pub pins :
      (j : ℕ)
      → (s.frames j).page_id ≢ null_page_id
      → (s.frames j).pin_count ≢ 0
      → IsKeptPinned s r.0 j
  pub answer :
      (i : ℕ)
      → r.1 ≡ some i
      → ((r.0.frames i).page_id ≡ page_id)
        × ((r.0.frames i).page ≡ m page_id)
        × (1 ≤ (r.0.frames i).pin_count)

pub pinned-Replaced :
    (s : BufferPool) (i : ℕ)
    → IsConsistent s
    → (s.frames i).page_id ≢ null_page_id
    → Replaced s i (record (s.frames i) { pin_count = add_pin (s.frames i).pin_count }) (pinned i s)
unfolding pinned
pinned-Replaced s i k held =
    touched-Replaced s i _ (pinned i s) k held refl refl (k.quiet i) (k.clean i held) (λ j. refl)
      refl (λ q. refl) k.home (λ id ne. refl)

pub kept_frame :
    (s s' : BufferPool) (j : ℕ) (g : Frame)
    → s'.frames j ≡ g
    → g.page_id ≡ (s.frames j).page_id
    → g.page ≡ (s.frames j).page
    → (s.frames j).pin_count ≤ g.pin_count
    → IsKeptPinned s s' j
kept_frame s s' j g e id_lem page pins = record {
  same_page_id = ap (λ (f : Frame). f.page_id) e ∙ id_lem;
  same_page = ap (λ (f : Frame). f.page) e ∙ page;
  still_pinned = subst (λ (f : Frame). (s.frames j).pin_count ≤ f.pin_count) (sym e) pins;
}

-- A victim has no pin.
pub Replaced-kept :
    (s : BufferPool) (v : ℕ) (new : Frame) (s' : BufferPool)
    → Replaced s v new s'
    → ((is_empty (s.frames v) ≡ true) ⊎ (is_evictable (s.frames v) ≡ true))
    → (j : ℕ) → (s.frames j).page_id ≢ null_page_id
    → (s.frames j).pin_count ≢ 0
    → IsKeptPinned s s' j
Replaced-kept s v new s' r free j held pin = elim (ℕ_discrete j v) [
  | no other ↦
      kept_frame s s' j (s.frames j) (ground (arith, r.frames j, other)) refl refl (ground arith)
  | yes here ↦ elim free [
    | inl e ↦ absurd (ground (arith, held, subst (λ n. is_empty (s.frames n) ≡ true) (sym here) e))
    | inr c ↦
        absurd (ground (arith, pin, subst (λ n. is_evictable (s.frames n) ≡ true) (sym here) c))
  ]
]

pub kept_here :
    (s s' : BufferPool) (i j : ℕ) (g : Frame)
    → s'.frames i ≡ g
    → j ≡ i
    → g.page_id ≡ (s.frames i).page_id
    → g.page ≡ (s.frames i).page
    → (s.frames i).pin_count ≤ g.pin_count
    → IsKeptPinned s s' j
kept_here s s' i j g e here id_lem page pins =
    subst (IsKeptPinned s s') (sym here) (kept_frame s s' i g e id_lem page pins)

pub answer_here :
    (s' : BufferPool) (i j page_id : ℕ) (page : Page) (g : Frame)
    → s'.frames i ≡ g
    → i ≡ j
    → g.page_id ≡ page_id
    → g.page ≡ page
    → 1 ≤ g.pin_count
    → ((s'.frames j).page_id ≡ page_id)
      × ((s'.frames j).page ≡ page)
      × (1 ≤ (s'.frames j).pin_count)
answer_here s' i j page_id page g e at id_lem same pins =
    subst
      (λ n.
        ((s'.frames n).page_id ≡ page_id)
        × ((s'.frames n).page ≡ page)
        × (1 ≤ (s'.frames n).pin_count))
      at
      (subst (λ (f : Frame). (f.page_id ≡ page_id) × (f.page ≡ page) × (1 ≤ f.pin_count)) (sym e)
        (id_lem, same, pins))

pub refused-IsServed :
    (s : BufferPool) (page_id : ℕ) → IsConsistent s → IsServed s (content s) page_id (s, none)
refused-IsServed s page_id k = record {
  consistent = k;
  shown = λ id. refl;
  pins =
      λ j held pin. record { same_page_id = refl; same_page = refl; still_pinned = ground arith };
  answer = λ i e. absurd (ground (arith, e));
}

-- What holds of a call whatever the pins are, and what holds where they have room.
abbrev pub Serves : BufferPool → (ℕ → Page) → ℕ → BufferPool × Option ℕ → Type 0
Serves s m page_id r =
    (IsConsistent r.0 × ((id : ℕ) → content r.0 id ≡ m id))
    × (HasPinRoom s page_id → IsServed s m page_id r)

pub IsServed-Serves :
    (s : BufferPool) (m : ℕ → Page) (page_id : ℕ) (r : BufferPool × Option ℕ)
    → IsServed s m page_id r
    → Serves s m page_id r
IsServed-Serves s m page_id r k = ((k.consistent, k.shown), λ room. k)
