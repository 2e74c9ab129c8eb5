-- ===== src/Value/Compare.antt =====
-- The order of values (record/value.cpp, `compare`).
use minidb.Prelude.{
  ℕ, ◌≡◌, refl, true, false, ◌||◌, List, [], ◌∷◌, arith, ◌==◌, if◌then◌else◌, Bool-cases, inl, inr,
  subst, sym, ◌∙◌, ==_iff,
}
use minidb.Prelude.Order.{Order, cmp, then_by, lex, IsOrder, lex-IsOrder, IsOrder-by}
use minidb.Value.{
  Value, compare, bool_type, int32_type, int64_type, float_type, double_type, varchar_type,
  timestamp_type, datetime_type, signed32, signed64, is_nan32, is_nan64, order32, order64,
}

-- Numbers whose order, as lists, is that of the values.
payload : Value → List ℕ
payload v =
    if v.type_id == bool_type
    then v.bits ∷ []
    else if v.type_id == int32_type
    then signed32 v.bits ∷ []
    else if v.type_id == int64_type || v.type_id == timestamp_type || v.type_id == datetime_type
    then signed64 v.bits ∷ []
    else if v.type_id == float_type
    then (if is_nan32 v.bits then 18446744073709551616 else order32 v.bits) ∷ []
    else if v.type_id == double_type
    then (if is_nan64 v.bits then 18446744073709551617 else order64 v.bits) ∷ []
    else if v.type_id == varchar_type
    then v.string_val
    else []

code : Value → List ℕ
unfolding payload
code v = v.type_id ∷ payload v

-- Values of one type compare as their payloads.
abbrev OfType : ℕ → Type 0
OfType t =
    (x y : ℕ) (s u : List ℕ)
    → compare (record { type_id = t; bits = x; string_val = s })
        (record { type_id = t; bits = y; string_val = u })
      ≡ lex (payload (record { type_id = t; bits = x; string_val = s }))
          (payload (record { type_id = t; bits = y; string_val = u }))

one_number : (a b : ℕ) → cmp a b ≡ lex (a ∷ []) (b ∷ [])
unfolding lex
one_number a b = ground arith

other_OfType :
    (t : ℕ)
    → (t == bool_type) ≡ false
    → (t == int32_type) ≡ false
    → (t == int64_type) ≡ false
    → (t == timestamp_type) ≡ false
    → (t == datetime_type) ≡ false
    → (t == float_type) ≡ false
    → (t == double_type) ≡ false
    → (t == varchar_type) ≡ false
    → OfType t
unfolding compare payload lex
other_OfType t a b c d e f g h x y s u = ground arith

bool_OfType : OfType bool_type
unfolding compare payload
bool_OfType x y s u = one_number x y

int32_OfType : OfType int32_type
unfolding compare payload
int32_OfType x y s u = one_number (signed32 x) (signed32 y)

int64_OfType : OfType int64_type
unfolding compare payload
int64_OfType x y s u = one_number (signed64 x) (signed64 y)

timestamp_OfType : OfType timestamp_type
unfolding compare payload
timestamp_OfType x y s u = one_number (signed64 x) (signed64 y)

datetime_OfType : OfType datetime_type
unfolding compare payload
datetime_OfType x y s u = one_number (signed64 x) (signed64 y)

float_OfType : OfType float_type
unfolding compare payload lex
float_OfType x y s u = ground arith

double_OfType : OfType double_type
unfolding compare payload lex
double_OfType x y s u = ground arith

varchar_OfType : OfType varchar_type
unfolding compare payload
varchar_OfType x y s u = refl

of_type : (t : ℕ) → OfType t
of_type t = elim (Bool-cases (t == bool_type)) [
  | inl e ↦ at bool_type e bool_OfType
  | inr n0 ↦ elim (Bool-cases (t == int32_type)) [
    | inl e ↦ at int32_type e int32_OfType
    | inr n1 ↦ elim (Bool-cases (t == int64_type)) [
      | inl e ↦ at int64_type e int64_OfType
      | inr n2 ↦ elim (Bool-cases (t == timestamp_type)) [
        | inl e ↦ at timestamp_type e timestamp_OfType
        | inr n3 ↦ elim (Bool-cases (t == datetime_type)) [
          | inl e ↦ at datetime_type e datetime_OfType
          | inr n4 ↦ elim (Bool-cases (t == float_type)) [
            | inl e ↦ at float_type e float_OfType
            | inr n5 ↦ elim (Bool-cases (t == double_type)) [
              | inl e ↦ at double_type e double_OfType
              | inr n6 ↦ elim (Bool-cases (t == varchar_type)) [
                | inl e ↦ at varchar_type e varchar_OfType
                | inr n7 ↦ other_OfType t n0 n1 n2 n3 n4 n5 n6 n7
              ]
            ]
          ]
        ]
      ]
    ]
  ]
]
  where
    at : (k : ℕ) → (t == k) ≡ true → OfType k → OfType t
    at k e p = subst OfType (sym ((==_iff t k).0 e)) p

then_by_same : (x y : ℕ) (o : Order) → x ≡ y → o ≡ then_by (cmp x y) o
then_by_same x y o e = ground arith

then_by_other : (x y : ℕ) (o : Order) → (x == y) ≡ false → cmp x y ≡ then_by (cmp x y) o
then_by_other x y o e = ground arith

compare_other :
    (a b : Value) → (a.type_id == b.type_id) ≡ false → compare a b ≡ cmp a.type_id b.type_id
unfolding compare
compare_other a b n = rw n refl

compare-code : (a b : Value) → compare a b ≡ lex (code a) (code b)
unfolding code lex
compare-code a b = elim (Bool-cases (a.type_id == b.type_id)) [
  | inr n ↦ compare_other a b n ∙ then_by_other a.type_id b.type_id (lex (payload a) (payload b)) n
  | inl e ↦
      let kind : a.type_id ≡ b.type_id = (==_iff a.type_id b.type_id).0 e in
      let alike = of_type a.type_id a.bits b.bits a.string_val b.string_val in
      let moved =
        subst
          (λ t.
            compare a (record { type_id = t; bits = b.bits; string_val = b.string_val })
            ≡ lex (payload a)
                (payload (record { type_id = t; bits = b.bits; string_val = b.string_val })))
          kind alike in
      moved ∙ then_by_same a.type_id b.type_id (lex (payload a) (payload b)) kind
]

-- Values are totally preordered by compare, across all the types, NaN and both zeros included.
pub compare-IsOrder : IsOrder compare
compare-IsOrder = IsOrder-by code lex compare lex-IsOrder compare-code
