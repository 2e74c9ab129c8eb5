-- ===== src/Tuple/Columns.antt =====
-- One column read alone against the whole row (record/tuple.cpp).
use minidb.Prelude.{
  ℕ, zero, suc, min, ◌-◌, ◌+◌, ◌≤◌, ◌<◌, ◌≡◌, ◌≢◌, refl, sym, ap, ◌∙◌, inl, inr, true, false, List,
  [], ◌∷◌, ◌++◌, Option, none, some, arith, ltb, leb, ◌==◌, if◌then◌else◌, length, get_elem?, drop,
  Bool-cases, Option-cases,
}
use minidb.Prelude.Bytes.{split}
use minidb.Value.{Value, null_value}
use minidb.Tuple.{
  read_value, skip_value, read_columns, read_column_at, read_column_from_page, read_header,
  read_values, deserialize_from_page, is_null_at, bitmap_size, max_tuple_columns,
}

-- Skipping a value is reading it without its value.
skip_value-read_value :
    (bs : List ℕ)
    → skip_value bs ≡ (elim (read_value bs) [ none ↦ none | some (v, behind) ↦ some behind ])
unfolding skip_value read_value
skip_value-read_value [] = refl
skip_value-read_value (type ∷ bs) = ground arith

-- A value or a NULL, as both loops take it from the bytes.
abbrev column_at : List ℕ → ℕ → List ℕ → Option (Value × List ℕ)
column_at bitmap i bs = if is_null_at bitmap i then some (null_value, bs) else read_value bs

-- The first column of a row that could be read, and the others.
record First (count : ℕ) (bitmap bs : List ℕ) (i n : ℕ) (vs : List Value) : Type 0 where
  v : Value
  behind : List ℕ
  ws : List Value
  here : column_at bitmap i bs ≡ some (v, behind)
  others : read_columns count bitmap behind (suc i) n ≡ some ws
  all : vs ≡ (if ltb i count then v ∷ ws else ws)

read_columns-First :
    (count : ℕ) (bitmap bs : List ℕ) (i n : ℕ) (vs : List Value)
    → read_columns count bitmap bs i (suc n) ≡ some vs
    → First count bitmap bs i n vs
unfolding read_columns
read_columns-First count bitmap bs i n vs e = elim (Option-cases (column_at bitmap i bs)) [
  | inl f ↦ absurd (ground (arith, f))
  | inr ((v, behind), f) ↦ elim (Option-cases (read_columns count bitmap behind (suc i) n)) [
    | inl g ↦ absurd (ground (arith, f, g))
    | inr (ws, g) ↦ record {
      v = v;
      behind = behind;
      ws = ws;
      here = f;
      others = g;
      all = ground (arith, f, g);
    }
  ]
]

read_column_at-other :
    (bitmap bs behind : List ℕ) (i n j : ℕ) (v : Value)
    → i ≢ j
    → column_at bitmap i bs ≡ some (v, behind)
    → read_column_at bitmap j bs i (suc n) ≡ read_column_at bitmap j behind (suc i) n
unfolding read_column_at
read_column_at-other bitmap bs behind i n j v ne here =
    let other : (i == j) ≡ false = ground arith in
    ground (arith, other, here, skip_value-read_value bs)

-- The column at `idx` is the value that the row has there.
read_column_at-read_columns :
    (count : ℕ) (bitmap bs : List ℕ) (i n idx j : ℕ) (vs : List Value)
    → j ≡ i + idx
    → j < count
    → idx < n
    → read_columns count bitmap bs i n ≡ some vs
    → read_column_at bitmap j bs i n ≡ get_elem? vs idx
read_column_at-read_columns count bitmap bs i zero idx j vs at l m e = absurd (omega arith)
read_column_at-read_columns count bitmap bs i (suc n) zero j vs at l m e =
    let f = read_columns-First count bitmap bs i n vs e in
    let kept : ltb i count ≡ true = ground arith in
    let found : (i == j) ≡ true = ground arith in
    unfold read_column_at in ground (arith, found, kept, f.here, f.all)
read_column_at-read_columns count bitmap bs i (suc n) (suc idx) j vs at l m e =
    let f = read_columns-First count bitmap bs i n vs e in
    let kept : ltb i count ≡ true = ground arith in
    let rest =
      read_column_at-read_columns count bitmap f.behind (suc i) n idx j f.ws (omega arith) l
        (omega arith) f.others in
    let tail : get_elem? f.ws idx ≡ get_elem? vs (suc idx) = ground (arith, kept, f.all) in
    read_column_at-other bitmap bs f.behind i n j f.v (λ e. omega arith) f.here ∙ rest ∙ tail

-- Every column of the bytes that the schema has is kept.
length-read_columns :
    (count : ℕ) (bitmap bs : List ℕ) (i n : ℕ) (vs : List Value)
    → read_columns count bitmap bs i n ≡ some vs
    → (i ≤ count → length vs ≡ min n (count - i)) × (count ≤ i → length vs ≡ 0)
length-read_columns count bitmap bs i zero vs e =
    let none' : vs ≡ [] = unfold read_columns in ground (arith, e) in
    ((λ le. omega (arith, ap length none')), (λ le. omega (arith, ap length none')))
length-read_columns count bitmap bs i (suc n) vs e =
    let f = read_columns-First count bitmap bs i n vs e in
    let rest = length-read_columns count bitmap f.behind (suc i) n f.ws f.others in
    elim (Bool-cases (ltb i count)) [
      | inl kept ↦
          let lt : i < count = ground (arith, kept) in
          let all : vs ≡ f.v ∷ f.ws = ground (arith, f.all, kept) in
          let size : length f.ws ≡ min n (count - suc i) = rest.0 (omega arith) in
          ((λ le. omega (arith, ap length all, size)), (λ le. absurd (omega arith)))
      | inr past ↦
          let ge : count ≤ i = ground (arith, past) in
          let all : vs ≡ f.ws = ground (arith, f.all, past) in
          let size : length f.ws ≡ 0 = rest.1 (omega arith) in
          ((λ le. omega (arith, ap length all, size)), (λ le. omega (arith, ap length all, size)))
    ]

get_elem?-front :
    (vs ws : List Value) (i : ℕ) → i < length vs → get_elem? (vs ++ ws) i ≡ get_elem? vs i
get_elem?-front [] ws i l = absurd (omega arith)
get_elem?-front (v ∷ vs) ws zero l = refl
get_elem?-front (v ∷ vs) ws (suc i) l = get_elem?-front vs ws i (omega arith)

get_elem?-past : (vs : List Value) (i : ℕ) → length vs ≤ i → get_elem? (vs ++ []) i ≡ none
get_elem?-past [] i l = refl
get_elem?-past (v ∷ vs) zero l = absurd (omega arith)
get_elem?-past (v ∷ vs) (suc i) l = get_elem?-past vs i (omega arith)

get_elem?-padding :
    (vs ds : List Value) (i : ℕ)
    → length vs ≤ i
    → get_elem? (vs ++ drop (length vs) ds) i ≡ get_elem? ds i
get_elem?-padding [] ds i l = refl
get_elem?-padding (v ∷ vs) ds zero l = absurd (omega arith)
get_elem?-padding (v ∷ vs) [] (suc i) l = get_elem?-past vs i (omega arith)
get_elem?-padding (v ∷ vs) (d ∷ ds) (suc i) l = get_elem?-padding vs ds i (omega arith)

-- Of a row whose columns could be read, the value at an index is the one of the column read alone.
row-column :
    (defaults : List Value) (bitmap body : List ℕ) (n idx : ℕ) (vs : List Value)
    → idx < length defaults
    → read_columns (length defaults) bitmap body 0 n ≡ some vs
    → (if leb n idx then get_elem? defaults idx else read_column_at bitmap idx body 0 n)
      ≡ get_elem? (vs ++ drop (length vs) defaults) idx
row-column defaults bitmap body n idx vs l e =
    let long = (length-read_columns (length defaults) bitmap body 0 n vs e).0 (omega arith) in
    elim (Bool-cases (leb n idx)) [
      | inl past ↦
          let le : length vs ≤ idx = ground (arith, long, past) in
          rw past (sym (get_elem?-padding vs defaults idx le))
      | inr stored ↦
          let lt : idx < n = ground (arith, stored) in
          let column =
            read_column_at-read_columns (length defaults) bitmap body 0 n idx idx vs (omega arith) l
              lt e in
          rw stored (
            column ∙ sym (get_elem?-front vs (drop (length vs) defaults) idx (omega (arith, long))))
    ]

read_values-row :
    (defaults : List Value) (n : ℕ) (bs : List ℕ)
    → 0 < length (read_values defaults n bs)
    → (piece : List ℕ) × (body : List ℕ) × (vs : List Value) × (split (bitmap_size n) bs
        ≡ some (piece, body))
      × (read_columns (length defaults) bs body 0 n ≡ some vs)
      × (read_values defaults n bs ≡ vs ++ drop (length vs) defaults)
unfolding read_values
read_values-row defaults n bs l = elim (Bool-cases (ltb max_tuple_columns n)) [
  | inl wide ↦ absurd (ground (arith, wide))
  | inr few ↦ elim (Option-cases (split (bitmap_size n) bs)) [
    | inl f ↦ absurd (ground (arith, few, f))
    | inr ((piece, body), f) ↦ elim (Option-cases (read_columns (length defaults) bs body 0 n)) [
      | inl g ↦ absurd (ground (arith, few, f, g))
      | inr (vs, g) ↦ (piece, body, vs, f, g, ground (arith, few, f, g))
    ]
  ]
]

-- In any bytes that are read as a row with columns, reading one column of the schema alone answers the
-- value that the whole row has there, for a column that the bytes hold and for one added later.
pub read_column_from_page-deserialize_from_page :
    (bs : List ℕ) (defaults : List Value) (column_idx : ℕ)
    → column_idx < length defaults
    → 0 < length (deserialize_from_page bs defaults).values
    → read_column_from_page bs defaults column_idx
      ≡ get_elem? (deserialize_from_page bs defaults).values column_idx
unfolding read_column_from_page deserialize_from_page
read_column_from_page-deserialize_from_page bs defaults idx l m =
    elim (Option-cases (read_header bs)) [
      | inl f ↦ absurd (ground (arith, f))
      | inr (h, f) ↦
          let long : 0 < length (read_values defaults h.num_cols h.behind) = ground (arith, f) in
          let (piece, body, vs, cut, columns, row) =
            read_values-row defaults h.num_cols h.behind long in
          let column = row-column defaults h.behind body h.num_cols idx vs l columns in
          let inside : leb (length defaults) idx ≡ false = ground arith in
          ground (arith, f, inside, cut, row, column)
    ]
