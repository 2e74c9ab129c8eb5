-- ===== src/Fsm.antt =====
-- storage/fsm.h and storage/fsm.cpp: the free-space map of a heap file. Page ids, byte counts and
-- categories are numbers; the latch makes each operation atomic, and so each is one function.
pub mod Search
pub mod Upkeep
pub mod Rebuild
mod Examples
use minidb.Prelude.{
  ℕ, zero, suc, ◌+◌, ◌/◌, ◌*◌, true, false, List, [], ◌∷◌, Option, none, some, ltb, leb, ◌==◌,
  if◌then◌else◌, back_to_front,
}

-- fsm_encode: the category of a page with so many free bytes.
unfoldable pub fsm_encode : ℕ → ℕ
fsm_encode free_bytes = let cat = free_bytes / 32 in if ltb 255 cat then 255 else cat

-- fsm_decode
unfoldable pub fsm_decode : ℕ → ℕ
fsm_decode category = category * 32

-- fsm_needed_category: a tuple takes its size and a line pointer of 6 bytes.
unfoldable pub fsm_needed_category : ℕ → ℕ
fsm_needed_category tuple_size =
    let cat = (tuple_size + 6 + 31) / 32 in if ltb 255 cat then 255 else cat

pub record Entry : Type 0 where
  pub page_id : ℕ
  pub category : ℕ

abbrev pub null_page_id : ℕ
null_page_id = 0

set_category : ℕ → ℕ → List Entry → List Entry
set_category pid cat [] = record { page_id = pid; category = cat } ∷ []
set_category pid cat (e ∷ es) =
    if e.page_id == pid then record e { category = cat } ∷ es else e ∷ set_category pid cat es

-- FreeSpaceMap::update
unfoldable pub update : ℕ → ℕ → List Entry → List Entry
unfolding set_category fsm_encode
update pid free_bytes es = set_category pid (fsm_encode free_bytes) es

first_at_least : ℕ → List Entry → ℕ
first_at_least min_cat [] = null_page_id
first_at_least min_cat (e ∷ es) =
    if leb min_cat e.category then e.page_id else first_at_least min_cat es

-- FreeSpaceMap::find_page
unfoldable pub find_page : ℕ → List Entry → ℕ
unfolding first_at_least fsm_needed_category
find_page needed es = first_at_least (fsm_needed_category needed) es

-- FreeSpaceMap::remove
unfoldable pub remove : ℕ → List Entry → List Entry
unfolding back_to_front
remove pid [] = []
remove pid (e ∷ es) = if e.page_id == pid then back_to_front es else e ∷ remove pid es

-- What `rebuild` reads of a page that the buffer pool hands out.
pub record PageView : Type 0 where
  pub free_space : ℕ
  pub next_page_id : ℕ

-- The walk of FreeSpaceMap::rebuild over the linked data pages, on fuel. `fetch` is the buffer
-- pool: `none` where `fetch_page` fails.
walk : ℕ → (ℕ → Option PageView) → ℕ → List Entry
walk zero fetch pid = []
walk (suc fuel) fetch pid = elim (pid == null_page_id) [
  | true ↦ []
  | false ↦ elim (fetch pid) [
    | none ↦ []
    | some v ↦
        record { page_id = pid; category = fsm_encode v.free_space }
        ∷ walk fuel fetch v.next_page_id
  ]
]

-- FreeSpaceMap::rebuild: the old entries are cleared first.
unfoldable pub rebuild : ℕ → (ℕ → Option PageView) → ℕ → List Entry → List Entry
unfolding walk fsm_encode
rebuild fuel fetch first es = walk fuel fetch first
