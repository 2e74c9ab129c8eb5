-- ===== src/Page/Fresh.antt =====
-- What an insertion of storage/page.cpp writes: the tuples of a page stay apart, and an insertion leaves
-- the others as they are.
use minidb.Prelude.{
  ℕ, ◌+◌, ◌-◌, ◌≤◌, ◌<◌, ◌≡◌, refl, sym, ap, subst, ◌∙◌, ◌≢◌, ◌⊎◌, inl, inr, true, false, Option,
  none, some, arith, ltb, ◌==◌, if◌then◌else◌, length, get_elem?, set, Option-cases,
}
use minidb.Page.{
  LinePointer, Page, num_tuples, max_align, in_page, lp_end, min_tuple_offset, data_upper_bound,
  find_fit, find_unused, append_tuple, insert_tuple, normal, put_line_pointer, memcpy,
}
use minidb.Page.Space.{min_tuple_offset-le, find_unused-lt}
use minidb.Page.Slots.{
  set-put_line_pointer, length-put_line_pointer, Fits, find_fit-Fits, min_tuple_offset-at,
}

-- The tuples of the page: the space of a line pointer is in the tuple area, behind the line pointers,
-- and apart from that of every other.
pub record IsPacked (p : Page) : Type 0 where
  pub few : num_tuples p ≤ 1361
  pub inside :
      (i : ℕ) (a : LinePointer)
      → get_elem? p.line_pointers i ≡ some a
      → 0 < a.length
      → (lp_end (num_tuples p) ≤ a.offset) × (a.offset + max_align a.length ≤ data_upper_bound)
  pub small : (i : ℕ) (a : LinePointer) → get_elem? p.line_pointers i ≡ some a → a.length < 65529
  pub apart :
      (i j : ℕ) (a b : LinePointer)
      → get_elem? p.line_pointers i ≡ some a
      → get_elem? p.line_pointers j ≡ some b
      → i ≢ j
      → 0 < a.length
      → 0 < b.length
      → (a.offset + max_align a.length ≤ b.offset) ⊎ (b.offset + max_align b.length ≤ a.offset)

-- A tuple placed in slot `i`.
pub record Placed (p : Page) (src : ℕ → ℕ) (len i : ℕ) (p' : Page) : Type 0 where
  pub at : ℕ
  pub target : i ≤ num_tuples p
  pub slots : p'.line_pointers ≡ put_line_pointer i (normal at len) p.line_pointers
  pub bytes : (a : ℕ) → p'.bytes a ≡ memcpy p.bytes at src len a
  pub behind : lp_end (num_tuples p') ≤ at
  pub within : at + max_align len ≤ data_upper_bound
  pub others :
      (j : ℕ) (b : LinePointer)
      → get_elem? p.line_pointers j ≡ some b
      → i ≢ j
      → 0 < b.length
      → (lp_end (num_tuples p') ≤ b.offset)
        × ((at + max_align len ≤ b.offset) ⊎ (b.offset + max_align b.length ≤ at))

append_tuple-Placed :
    (p : Page) (src : ℕ → ℕ) (len target count i : ℕ)
    → IsPacked p
    → target ≤ num_tuples p
    → count ≡ (if target == num_tuples p then num_tuples p + 1 else num_tuples p)
    → (append_tuple p src len target count).1 ≡ some i
    → Placed p src len i (append_tuple p src len target count).0
unfolding append_tuple
append_tuple-Placed p src len target count i k le size e =
    let low = min_tuple_offset data_upper_bound p.line_pointers in
    let fits : ltb low (max_align len) ≡ false = ground arith in
    let room : ltb (low - max_align len) (lp_end count) ≡ false = ground arith in
    let here : in_page target ≡ true = ground arith in
    let same : target ≡ i =
      ap (λ o. elim o [ none ↦ 0 | some y ↦ y ]) (rw (fits, room, here) at e) in
    let grown = length-put_line_pointer target (normal (low - max_align len) len) p.line_pointers in
    let ends : length (put_line_pointer target (normal (low - max_align len) len) p.line_pointers)
        ≡ count =
      grown ∙ sym size in
    let top = min_tuple_offset-le data_upper_bound p.line_pointers in
    rw (fits, room, here)
      (record {
        at = low - max_align len;
        target = omega arith;
        slots =
            ap (λ t. put_line_pointer t (normal (low - max_align len) len) p.line_pointers) same;
        bytes = λ a. refl;
        behind = rw ends (ground arith);
        within = ground arith;
        others = λ j b q ne z.
            let inn = k.inside j b q z in
            let below = min_tuple_offset-at p.line_pointers data_upper_bound j b q (omega arith) in
            (rw ends (ground arith), inl (ground arith));
      })

append_tuple-none :
    (p : Page) (src : ℕ → ℕ) (len target count : ℕ)
    → (append_tuple p src len target count).1 ≡ none
    → (append_tuple p src len target count).0 ≡ p
unfolding append_tuple
append_tuple-none p src len target count e = ground arith

reuse-Placed :
    (p : Page) (src : ℕ → ℕ) (len n : ℕ) (lp : LinePointer)
    → IsPacked p
    → Fits (max_align len) n lp p.line_pointers
    → Placed p src len n (record p {
      line_pointers = set p.line_pointers n (normal lp.offset len);
      bytes = memcpy p.bytes lp.offset src len;
    })
reuse-Placed p src len n lp k f =
    let put = set-put_line_pointer p.line_pointers n (normal lp.offset len) f.below in
    let grown = length-put_line_pointer n (normal lp.offset len) p.line_pointers in
    let same : length (set p.line_pointers n (normal lp.offset len)) ≡ num_tuples p =
      ap length put ∙ ground (arith, grown, f.below) in
    let inn = k.inside n lp f.at f.space in
    record {
      at = lp.offset;
      target = omega (arith, f.below);
      slots = put;
      bytes = λ a. refl;
      behind = rw same (inn.0);
      within = omega (arith, inn.1, f.wide);
      others = λ j b q ne z. (
        rw same ((k.inside j b q z).0),
        elim (k.apart n j lp b f.at q ne f.space z) [
          | inl x ↦ inl (omega (arith, x, f.wide))
          | inr x ↦ inr x
        ],
      );
    }

-- An insertion either fails and leaves the page as it is, or places the tuple in the slot it answers.
abbrev pub Outcome : Page → (ℕ → ℕ) → ℕ → Page × Option ℕ → Type 0
Outcome p src len r =
    ((r.1 ≡ none) × (r.0 ≡ p)) ⊎ ((i : ℕ) × (r.1 ≡ some i) × Placed p src len i r.0)

pub append_tuple-Outcome :
    (p : Page) (src : ℕ → ℕ) (len target count : ℕ)
    → IsPacked p
    → target ≤ num_tuples p
    → count ≡ (if target == num_tuples p then num_tuples p + 1 else num_tuples p)
    → Outcome p src len (append_tuple p src len target count)
append_tuple-Outcome p src len target count k le size =
    elim (Option-cases (append_tuple p src len target count).1) [
      | inl n ↦ inl (n, append_tuple-none p src len target count n)
      | inr (i, s) ↦ inr (i, s, append_tuple-Placed p src len target count i k le size s)
    ]

-- The branches of insert_tuple.
insert_tuple-reuse :
    (p : Page) (src : ℕ → ℕ) (len i : ℕ) (lp : LinePointer)
    → find_fit (max_align len) 0 p.line_pointers ≡ some (i, lp)
    → insert_tuple p src len ≡ (
      record p {
        line_pointers = set p.line_pointers i (normal lp.offset len);
        bytes = memcpy p.bytes lp.offset src len;
      },
      some i,
    )
unfolding insert_tuple
insert_tuple-reuse p src len i lp e =
    ap
      (λ o. elim o [
        | some (n, l) ↦ (
          record p {
            line_pointers = set p.line_pointers n (normal l.offset len);
            bytes = memcpy p.bytes l.offset src len;
          },
          some n,
        )
        | none ↦ elim (find_unused 0 p.line_pointers) [
          | none ↦ append_tuple p src len (num_tuples p) (num_tuples p + 1)
          | some u ↦ append_tuple p src len u (num_tuples p)
        ]
      ])
      e

insert_tuple-append :
    (p : Page) (src : ℕ → ℕ) (len : ℕ)
    → find_fit (max_align len) 0 p.line_pointers ≡ none
    → find_unused 0 p.line_pointers ≡ none
    → insert_tuple p src len ≡ append_tuple p src len (num_tuples p) (num_tuples p + 1)
unfolding insert_tuple
insert_tuple-append p src len e f = ground arith

insert_tuple-unused :
    (p : Page) (src : ℕ → ℕ) (len u : ℕ)
    → find_fit (max_align len) 0 p.line_pointers ≡ none
    → find_unused 0 p.line_pointers ≡ some u
    → insert_tuple p src len ≡ append_tuple p src len u (num_tuples p)
unfolding insert_tuple
insert_tuple-unused p src len u e f = ground arith

pub insert_tuple-Outcome :
    (p : Page) (src : ℕ → ℕ) (len : ℕ) → IsPacked p → Outcome p src len (insert_tuple p src len)
insert_tuple-Outcome p src len k =
    elim (Option-cases (find_fit (max_align len) 0 p.line_pointers)) [
      | inr ((i, lp), e) ↦
          let (n, q, f) = find_fit-Fits (max_align len) 0 i lp p.line_pointers e in
          let same : n ≡ i = omega (arith, q) in
          let fi = subst (λ t. Fits (max_align len) t lp p.line_pointers) same f in
          subst (Outcome p src len) (sym (insert_tuple-reuse p src len i lp e))
            (inr (i, refl, reuse-Placed p src len i lp k fi))
      | inl e ↦ elim (Option-cases (find_unused 0 p.line_pointers)) [
        | inl f ↦ subst (Outcome p src len) (sym (insert_tuple-append p src len e f)) (
            append_tuple-Outcome p src len (num_tuples p) (num_tuples p + 1) k (omega arith)
              (ground arith))
        | inr (u, f) ↦
            let lt = find_unused-lt 0 u p.line_pointers f in
            subst (Outcome p src len) (sym (insert_tuple-unused p src len u e f)) (
              append_tuple-Outcome p src len u (num_tuples p) k (omega (arith, lt))
                (ground (arith, lt)))
      ]
    ]
