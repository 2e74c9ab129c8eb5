-- ===== src/VisibilityMap.antt =====
-- storage/visibility_map.h and visibility_map.cpp: which pages are all-visible and all-frozen. The two
-- bits of an entry's flags are two Booleans; the latch makes each call one step.
pub mod Lookup
pub mod Calls
mod Examples
use minidb.Prelude.{
  ℕ, suc, ◌+◌, Bool, true, false, not, ◌&&◌, ◌||◌, List, [], ◌∷◌, ◌++◌, Option, none, some, ◌==◌,
  if◌then◌else◌, length, back_to_front,
}

-- Entry: kVisible and kFrozen of its flags.
pub record Entry : Type 0 where
  pub page_id : ℕ
  pub visible : Bool
  pub frozen : Bool

-- VisibilityMap::find_entry
unfoldable pub find_entry : List Entry → ℕ → Option Entry
find_entry [] pid = none
find_entry (e ∷ es) pid = if e.page_id == pid then some e else find_entry es pid

-- VisibilityMap::set_visible: `flags |= kVisible` of the entry, or a new one at the end.
unfoldable pub set_visible : List Entry → ℕ → List Entry
set_visible [] pid = record { page_id = pid; visible = true; frozen = false } ∷ []
set_visible (e ∷ es) pid =
    if e.page_id == pid then record e { visible = true } ∷ es else e ∷ set_visible es pid

-- VisibilityMap::set_frozen: `flags |= (kVisible | kFrozen)`
unfoldable pub set_frozen : List Entry → ℕ → List Entry
set_frozen [] pid = record { page_id = pid; visible = true; frozen = true } ∷ []
set_frozen (e ∷ es) pid =
    if e.page_id == pid
    then record e { visible = true; frozen = true } ∷ es
    else e ∷ set_frozen es pid

-- VisibilityMap::clear_page: `flags = 0`
unfoldable pub clear_page : List Entry → ℕ → List Entry
clear_page [] pid = []
clear_page (e ∷ es) pid =
    if e.page_id == pid
    then record e { visible = false; frozen = false } ∷ es
    else e ∷ clear_page es pid

-- VisibilityMap::is_visible
unfoldable pub is_visible : List Entry → ℕ → Bool
unfolding find_entry
is_visible es pid = elim (find_entry es pid) [ none ↦ false | some e ↦ e.visible ]

-- VisibilityMap::is_frozen
unfoldable pub is_frozen : List Entry → ℕ → Bool
unfolding find_entry
is_frozen es pid = elim (find_entry es pid) [ none ↦ false | some e ↦ e.frozen ]

-- VisibilityMap::remove: the last entry takes the place of the removed one.
unfoldable pub remove : List Entry → ℕ → List Entry
unfolding back_to_front
remove [] pid = []
remove (e ∷ es) pid = if e.page_id == pid then back_to_front es else e ∷ remove es pid

-- VisibilityMap::size
abbrev pub size : List Entry → ℕ
size es = length es

-- VisibilityMap::stats
unfoldable pub stats : List Entry → ℕ × ℕ
stats [] = (0, 0)
stats (e ∷ es) =
    let rest = stats es in
    ((if e.visible then 1 else 0) + rest.0, (if e.frozen then 1 else 0) + rest.1)
