-- ===== src/Page.antt =====
-- storage/page.h and storage/page.cpp: the heap page. A page is its header fields, its line pointers,
-- one for each of its `num_tuples`, and the bytes of its tuple area by their offset in the page. The
-- line pointers and the tuple area do not overlap while the offsets are at least the end of the line
-- pointers.
pub mod Space
pub mod Slots
pub mod Fresh
pub mod Insert
pub mod Changes
pub mod Redirects
pub mod Packed
pub mod Calls
pub mod Prune
mod Examples
use minidb.Prelude.{
  ℕ, zero, suc, ◌+◌, ◌-◌, ◌*◌, ◌/◌, ◌%◌, Bool, true, false, not, ◌&&◌, ◌||◌, List, [], ◌∷◌, ◌++◌,
  Option, none, some, ltb, leb, ◌==◌, if◌then◌else◌, length, get_elem?, set,
}

abbrev page_size : ℕ
page_size = 8192

abbrev page_header_size : ℕ
page_header_size = 24

abbrev line_pointer_size : ℕ
line_pointer_size = 6

-- kDataUpperBound
abbrev data_upper_bound : ℕ
data_upper_bound = 8184

-- A value as it is stored in 16 bits.
abbrev u16 : ℕ → ℕ
u16 n = n % 65536

abbrev lp_unused : ℕ
lp_unused = 0

abbrev lp_normal : ℕ
lp_normal = 1

abbrev lp_redirect : ℕ
lp_redirect = 2

abbrev lp_dead : ℕ
lp_dead = 3

pub record LinePointer : Type 0 where
  pub offset : ℕ
  pub length : ℕ
  pub flags : ℕ

abbrev is_valid : LinePointer → Bool
is_valid lp = lp.flags == lp_normal && ltb 0 lp.offset && ltb 0 lp.length

abbrev is_dead : LinePointer → Bool
is_dead lp = lp.flags == lp_dead

abbrev is_redirect : LinePointer → Bool
is_redirect lp = lp.flags == lp_redirect

abbrev is_usable : LinePointer → Bool
is_usable lp = lp.flags == lp_unused || lp.flags == lp_dead

pub record Page : Type 0 where
  pub page_id : ℕ
  pub lsn : ℕ
  pub page_type : ℕ
  pub free_space_offset : ℕ
  pub line_pointers : List LinePointer
  pub bytes : ℕ → ℕ

abbrev num_tuples : Page → ℕ
num_tuples p = length p.line_pointers

-- Page::init
unfoldable pub init : ℕ → ℕ → Page
init page_id page_type = record {
  page_id = page_id;
  lsn = 0;
  page_type = page_type;
  free_space_offset = page_header_size;
  line_pointers = [];
  bytes = λ a. 0;
}

abbrev max_align : ℕ → ℕ
max_align size = u16 ((size + 7) / 8 * 8)

-- Page::line_pointer gives a null pointer past the end of the page.
abbrev in_page : ℕ → Bool
in_page idx = leb (u16 (page_header_size + idx * line_pointer_size) + line_pointer_size) page_size

-- The end of `n` line pointers.
abbrev lp_end : ℕ → ℕ
lp_end n = u16 (page_header_size + n * line_pointer_size)

abbrev memcpy : (ℕ → ℕ) → ℕ → (ℕ → ℕ) → ℕ → ℕ → ℕ
memcpy old at src len a = if leb at a && ltb a (at + len) then src (a - at) else old a

-- The smallest offset of a line pointer, from a bound.
unfoldable min_tuple_offset : ℕ → List LinePointer → ℕ
min_tuple_offset bound [] = bound
min_tuple_offset bound (lp ∷ lps) =
    min_tuple_offset (if ltb 0 lp.offset && ltb lp.offset bound then lp.offset else bound) lps

-- Strategy 1 of insert_tuple: the first slot, from `i`, whose space serves.
unfoldable find_fit : ℕ → ℕ → List LinePointer → Option (ℕ × LinePointer)
find_fit aligned_len i [] = none
find_fit aligned_len i (lp ∷ lps) =
    if is_usable lp && ltb 0 lp.length && leb aligned_len (max_align lp.length)
    then some (i, lp)
    else find_fit aligned_len (suc i) lps

-- `reusable_slot` of insert_tuple after a loop that finds no fit.
unfoldable find_unused : ℕ → List LinePointer → Option ℕ
find_unused i [] = none
find_unused i (lp ∷ lps) = if lp.flags == lp_unused then some i else find_unused (suc i) lps

abbrev normal : ℕ → ℕ → LinePointer
normal at len = record { offset = at; length = len; flags = lp_normal }

-- The write of a line pointer at an index of the list or at its end.
unfoldable put_line_pointer : ℕ → LinePointer → List LinePointer → List LinePointer
put_line_pointer i lp lps = if i == length lps then lps ++ lp ∷ [] else set lps i lp

-- The end of insert_tuple and insert_tuple_at: a tuple below the others, in the slot `target`, where
-- `count` line pointers are then in use. The answer is `none` for kNullSlot.
unfoldable append_tuple : Page → (ℕ → ℕ) → ℕ → ℕ → ℕ → Page × Option ℕ
unfolding min_tuple_offset put_line_pointer
append_tuple p tuple_data len target count =
    let low = min_tuple_offset data_upper_bound p.line_pointers in
    if ltb low (max_align len)
    then (p, none)
    else if ltb (low - max_align len) (lp_end count)
    then (p, none)
    else if not (in_page target)
    then (p, none)
    else (
      record p {
        line_pointers = put_line_pointer target (normal (low - max_align len) len) p.line_pointers;
        bytes = memcpy p.bytes (low - max_align len) tuple_data len;
        free_space_offset = lp_end count;
      },
      some target,
    )

-- Page::insert_tuple
unfoldable pub insert_tuple : Page → (ℕ → ℕ) → ℕ → Page × Option ℕ
unfolding find_fit find_unused append_tuple
insert_tuple p tuple_data len = elim (find_fit (max_align len) 0 p.line_pointers) [
  | some (i, lp) ↦ (
    record p {
      line_pointers = set p.line_pointers i (normal lp.offset len);
      bytes = memcpy p.bytes lp.offset tuple_data len;
    },
    some i,
  )
  | none ↦ elim (find_unused 0 p.line_pointers) [
    | none ↦ append_tuple p tuple_data len (num_tuples p) (num_tuples p + 1)
    | some i ↦ append_tuple p tuple_data len i (num_tuples p)
  ]
]

-- Page::insert_tuple_at
unfoldable pub insert_tuple_at : Page → (ℕ → ℕ) → ℕ → ℕ → Page × Option ℕ
unfolding append_tuple
insert_tuple_at p tuple_data len target = elim (get_elem? p.line_pointers target) [
  | some lp ↦ if is_valid lp then (p, none) else append_tuple p tuple_data len target (num_tuples p)
  | none ↦
      if ltb (num_tuples p) target
      then (p, none)
      else append_tuple p tuple_data len target (num_tuples p + 1)
]

-- Page::mark_dead, reclaim_slot and redirect_slot: a new line pointer in place, and true, or false.
unfoldable pub mark_dead : Page → ℕ → Page × Bool
mark_dead p idx = elim (get_elem? p.line_pointers idx) [
  | none ↦ (p, false)
  | some lp ↦
      if is_valid lp
      then (
        record p { line_pointers = set p.line_pointers idx (record lp { flags = lp_dead }) },
        true,
      )
      else (p, false)
]

unfoldable pub reclaim_slot : Page → ℕ → Page × Bool
reclaim_slot p idx = elim (get_elem? p.line_pointers idx) [
  | none ↦ (p, false)
  | some lp ↦ (
    record p {
      line_pointers =
          set p.line_pointers idx (record { offset = 0; length = 0; flags = lp_unused });
    },
    true,
  )
]

unfoldable pub redirect_slot : Page → ℕ → ℕ → Page × Bool
redirect_slot p idx target_slot =
    if ltb idx (num_tuples p) && ltb target_slot (num_tuples p)
    then (
      record p {
        line_pointers =
            set p.line_pointers idx
              (record { offset = target_slot; length = 0; flags = lp_redirect });
      },
      true,
    )
    else (p, false)

-- Page::redirect_target
unfoldable pub redirect_target : Page → ℕ → Option ℕ
redirect_target p idx = elim (get_elem? p.line_pointers idx) [
  | none ↦ none
  | some lp ↦ if is_redirect lp then some lp.offset else none
]

-- Page::get_tuple_data with get_tuple_length: where the tuple of a slot is.
unfoldable pub get_tuple : Page → ℕ → Option (ℕ × ℕ)
get_tuple p idx = elim (get_elem? p.line_pointers idx) [
  | none ↦ none
  | some lp ↦ if is_valid lp then some (lp.offset, lp.length) else none
]

-- Page::get_free_space
unfoldable pub get_free_space : Page → ℕ
unfolding min_tuple_offset
get_free_space p =
    let low = min_tuple_offset data_upper_bound p.line_pointers in
    if ltb low (lp_end (num_tuples p)) then 0 else low - lp_end (num_tuples p)

-- The loop of has_enough_space: whether a dead slot serves.
unfoldable fits_dead : ℕ → List LinePointer → Bool
fits_dead aligned_len [] = false
fits_dead aligned_len (lp ∷ lps) =
    if is_dead lp && leb aligned_len (max_align lp.length) then true else fits_dead aligned_len lps

-- Page::has_enough_space
unfoldable pub has_enough_space : Page → ℕ → Bool
unfolding fits_dead find_unused min_tuple_offset
has_enough_space p tuple_size =
    let low = min_tuple_offset data_upper_bound p.line_pointers in
    let count : ℕ = elim (find_unused 0 p.line_pointers) [
      | none ↦ num_tuples p + 1
      | some _ ↦ num_tuples p
    ] in
    if fits_dead (max_align tuple_size) p.line_pointers
    then true
    else if ltb low (max_align tuple_size)
    then false
    else leb (lp_end count) (low - max_align tuple_size)
