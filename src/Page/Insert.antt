-- ===== src/Page/Insert.antt =====
-- insert_tuple of storage/page.cpp on a packed page: the page stays packed, the tuple reads back and
-- the others read as before.
use minidb.Prelude.{
  ℕ, zero, suc, ◌+◌, ◌-◌, ◌≤◌, ◌<◌, ◌≡◌, refl, sym, ap, subst, ◌∙◌, ◌≢◌, ◌⊎◌, inl, inr, true, false,
  List, [], ◌∷◌, Option, none, some, arith, ◌==◌, if◌then◌else◌, length, get_elem?, Bool-cases,
  Option-cases,
}
use minidb.Page.{
  LinePointer, Page, num_tuples, max_align, lp_end, data_upper_bound, insert_tuple, normal, memcpy,
  get_tuple, is_valid,
}
use minidb.Page.Slots.{get_elem?-put_line_pointer, length-put_line_pointer}
use minidb.Page.Fresh.{IsPacked, Placed, insert_tuple-Outcome}

-- The `n` bytes from an offset on.
unfoldable pub bytes_of : (ℕ → ℕ) → ℕ → ℕ → List ℕ
bytes_of f a zero = []
bytes_of f a (suc n) = f a ∷ bytes_of f (suc a) n

-- The bytes of the tuple in a slot.
unfoldable pub read_tuple : Page → ℕ → Option (List ℕ)
unfolding bytes_of get_tuple
read_tuple p idx = elim (get_tuple p idx) [
  | none ↦ none
  | some (at, len) ↦ some (bytes_of p.bytes at len)
]

pub read_tuple-valid :
    (p : Page) (j : ℕ) (lp : LinePointer)
    → get_elem? p.line_pointers j ≡ some lp
    → is_valid lp ≡ true
    → read_tuple p j ≡ some (bytes_of p.bytes lp.offset lp.length)
unfolding read_tuple get_tuple
read_tuple-valid p j lp e ok = ground arith

-- Slots without a tuple read alike on any two pages.
pub read_tuple-none :
    (p q : Page) (j : ℕ)
    → get_elem? p.line_pointers j ≡ none
    → get_elem? q.line_pointers j ≡ none
    → read_tuple p j ≡ read_tuple q j
unfolding read_tuple get_tuple
read_tuple-none p q j e f = ground arith

pub read_tuple-invalid :
    (p q : Page) (j : ℕ) (lp : LinePointer)
    → get_elem? p.line_pointers j ≡ some lp
    → get_elem? q.line_pointers j ≡ some lp
    → is_valid lp ≡ false
    → read_tuple p j ≡ read_tuple q j
unfolding read_tuple get_tuple
read_tuple-invalid p q j lp e f bad = ground arith

bytes_of-memcpy :
    (old src : ℕ → ℕ) (at len d n : ℕ)
    → d + n ≤ len
    → bytes_of (memcpy old at src len) (at + d) n ≡ bytes_of src d n
unfolding bytes_of
bytes_of-memcpy old src at len d zero le = refl
bytes_of-memcpy old src at len d (suc n) le =
    let rest = bytes_of-memcpy old src at len (suc d) n (omega arith) in
    let back : at + d - at ≡ d = omega arith in
    let next : suc (at + d) ≡ at + suc d = omega arith in
    ground (arith, ap src back, ap (λ a. bytes_of (memcpy old at src len) a n) next)

bytes_of-outside :
    (old src : ℕ → ℕ) (at len a n : ℕ)
    → (at + len ≤ a) ⊎ (a + n ≤ at)
    → bytes_of (memcpy old at src len) a n ≡ bytes_of old a n
unfolding bytes_of
bytes_of-outside old src at len a zero out = refl
bytes_of-outside old src at len a (suc n) out =
    let rest =
      bytes_of-outside old src at len (suc a) n
        (elim out [ inl x ↦ inl (omega (arith, x)) | inr x ↦ inr (omega (arith, x)) ]) in
    elim out [ inl x ↦ ground arith | inr x ↦ ground arith ]

bytes_of-ext : (f g : ℕ → ℕ) (a n : ℕ) → ((x : ℕ) → f x ≡ g x) → bytes_of f a n ≡ bytes_of g a n
unfolding bytes_of
bytes_of-ext f g a zero same = refl
bytes_of-ext f g a (suc n) same = ground (arith, same a, bytes_of-ext f g (suc a) n same)

module _ (p : Page) (src : ℕ → ℕ) (len i : ℕ) (p' : Page) (small : len < 65529) (k : IsPacked p)
    (w : Placed p src len i p') where
  slot :
      (j : ℕ)
      → get_elem? p'.line_pointers j
        ≡ (if i == j then some (normal w.at len) else get_elem? p.line_pointers j)
  slot j =
      ap (λ l. get_elem? l j) w.slots
      ∙ get_elem?-put_line_pointer i j (normal w.at len) p.line_pointers w.target

  -- A line pointer after the insertion is the new one or an old one.
  slot_cases :
      (j : ℕ) (a : LinePointer)
      → get_elem? p'.line_pointers j ≡ some a
      → ((i ≡ j) × (normal w.at len ≡ a)) ⊎ ((i ≢ j) × (get_elem? p.line_pointers j ≡ some a))
  slot_cases j a q = elim (Bool-cases (i == j)) [
    | inl e ↦
        let both : some (normal w.at len) ≡ some a = ground (arith, slot j) in
        inl (ground arith, ap (λ o. elim o [ none ↦ a | some y ↦ y ]) both)
    | inr n ↦ inr (ground arith, ground (arith, slot j))
  ]

  pub Placed-IsPacked : IsPacked p'
  Placed-IsPacked = record {
    few =
        let grown = length-put_line_pointer i (normal w.at len) p.line_pointers in
        let size = ap length w.slots ∙ grown in ground (arith, size, k.few, w.behind, w.within);
    inside = λ j a q z. elim (slot_cases j a q) [
      | inl (e, same) ↦
          subst
            (λ (y : LinePointer).
              (lp_end (num_tuples p') ≤ y.offset)
              × (y.offset + max_align y.length ≤ data_upper_bound))
            same (w.behind, w.within)
      | inr (ne, old) ↦ ((w.others j a old ne z).0, (k.inside j a old z).1)
    ];
    small = λ j a q. elim (slot_cases j a q) [
      | inl (e, same) ↦ subst (λ (y : LinePointer). y.length < 65529) same small
      | inr (ne, old) ↦ k.small j a old
    ];
    apart = λ j l a b q r ne za zb. elim (slot_cases j a q) [
      | inl (e, same) ↦ elim (slot_cases l b r) [
        | inl (f, same') ↦ absurd (ne (sym e ∙ f))
        | inr (nf, old') ↦
            subst
              (λ (y : LinePointer).
                (y.offset + max_align y.length ≤ b.offset)
                ⊎ (b.offset + max_align b.length ≤ y.offset))
              same ((w.others l b old' nf zb).1)
      ]
      | inr (nj, old) ↦ elim (slot_cases l b r) [
        | inl (f, same') ↦
            subst
              (λ (y : LinePointer).
                (a.offset + max_align a.length ≤ y.offset)
                ⊎ (y.offset + max_align y.length ≤ a.offset))
              same' (elim ((w.others j a old nj za).1) [ inl x ↦ inr x | inr x ↦ inl x ])
        | inr (nf, old') ↦ k.apart j l a b old old' ne za zb
      ]
    ];
  }

  read_new :
      0 < len
      → get_elem? p'.line_pointers i ≡ some (normal w.at len)
      → read_tuple p' i ≡ some (bytes_of src 0 len)
  unfolding read_tuple get_tuple
  read_new z q =
      let few = Placed-IsPacked.few in
      let pos : 0 < w.at = omega (arith, w.behind) in
      let valid : is_valid (normal w.at len) ≡ true = ground arith in
      let shift : w.at + 0 ≡ w.at = omega arith in
      read_tuple-valid p' i (normal w.at len) q valid
      ∙ ap some (
          bytes_of-ext p'.bytes (memcpy p.bytes w.at src len) w.at len w.bytes
          ∙ ap (λ a. bytes_of (memcpy p.bytes w.at src len) a len) (sym shift)
          ∙ bytes_of-memcpy p.bytes src w.at len 0 len (omega arith))

  read_old :
      (j : ℕ)
      → i ≢ j
      → get_elem? p'.line_pointers j ≡ get_elem? p.line_pointers j
      → read_tuple p' j ≡ read_tuple p j
  unfolding read_tuple get_tuple
  read_old j ne q = elim (Option-cases (get_elem? p.line_pointers j)) [
    | inl n ↦ read_tuple-none p' p j (q ∙ n) n
    | inr (lp, e) ↦ elim (Bool-cases (is_valid lp)) [
      | inr bad ↦ read_tuple-invalid p' p j lp (q ∙ e) e bad
      | inl ok ↦
          let z : 0 < lp.length = ground arith in
          let room = k.small j lp e in
          let out = (w.others j lp e ne z).1 in
          read_tuple-valid p' j lp (q ∙ e) ok
          ∙ ap some (
              bytes_of-ext p'.bytes (memcpy p.bytes w.at src len) lp.offset lp.length w.bytes
              ∙ bytes_of-outside p.bytes src w.at len lp.offset lp.length
                  (elim out [ inl x ↦ inl (omega arith) | inr x ↦ inr (omega arith) ]))
          ∙ sym (read_tuple-valid p j lp e ok)
    ]
  ]

  Placed-read_tuple :
      (j : ℕ)
      → 0 < len
      → read_tuple p' j ≡ (if i == j then some (bytes_of src 0 len) else read_tuple p j)
  Placed-read_tuple j z = elim (Bool-cases (i == j)) [
    | inl e ↦
        let same : i ≡ j = ground arith in
        rw e (
          subst (λ t. read_tuple p' t ≡ some (bytes_of src 0 len)) same
            (read_new z (ground (arith, slot i))))
    | inr n ↦ rw n (read_old j (ground arith) (ground (arith, slot j)))
  ]

-- An insertion keeps a page packed, whether it finds room or not.
pub insert_tuple-IsPacked :
    (p : Page) (tuple_data : ℕ → ℕ) (len : ℕ)
    → len < 65529
    → IsPacked p
    → IsPacked (insert_tuple p tuple_data len).0
insert_tuple-IsPacked p tuple_data len small k = elim (insert_tuple-Outcome p tuple_data len k) [
  | inl (n, same) ↦ subst IsPacked (sym same) k
  | inr (i, e, w) ↦ Placed-IsPacked p tuple_data len i (insert_tuple p tuple_data len).0 small k w
]

-- After the insertion of a tuple of 1 to 65528 bytes into a packed page that answers slot `i`, slot `i`
-- reads as the tuple that was inserted and every other slot reads as before.
pub insert_tuple-read_tuple :
    (p : Page) (tuple_data : ℕ → ℕ) (len i j : ℕ)
    → 0 < len
    → len < 65529
    → IsPacked p
    → (insert_tuple p tuple_data len).1 ≡ some i
    → read_tuple (insert_tuple p tuple_data len).0 j
      ≡ (if i == j then some (bytes_of tuple_data 0 len) else read_tuple p j)
insert_tuple-read_tuple p tuple_data len i j z small k e =
    elim (insert_tuple-Outcome p tuple_data len k) [
      | inl (n, same) ↦ cc
      | inr (u, f, w) ↦
          let same : u ≡ i = ap (λ o. elim o [ none ↦ 0 | some y ↦ y ]) (sym f ∙ e) in
          subst
            (λ t.
              read_tuple (insert_tuple p tuple_data len).0 j
              ≡ (if t == j then some (bytes_of tuple_data 0 len) else read_tuple p j))
            same
            (Placed-read_tuple p tuple_data len u (insert_tuple p tuple_data len).0 small k w j z)
    ]
