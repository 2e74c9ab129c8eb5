-- ===== src/Fsm/Examples.antt =====
-- Concrete runs of the free-space map: three pages, of which the second is the first with room.
use minidb.Prelude.{
  ℕ, ◌+◌, ◌≤◌, ◌≡◌, refl, List, [], ◌∷◌, none, some, Option, arith, if◌then◌else◌, ◌==◌, map,
}
use minidb.Fsm.{Entry, PageView, find_page, rebuild}
use minidb.Fsm.Search.{IsAccurate, find_page_has_room}
use minidb.Fsm.Rebuild.{Chain, free_of, rebuild-IsAccurate}

abbrev links : ℕ → Option PageView
links p =
    if p == 7
    then some (record { free_space = 40; next_page_id = 9 })
    else if p == 9
    then some (record { free_space = 500; next_page_id = 0 })
    else none

links-Chain : Chain links 7 (7 ∷ 9 ∷ [])
links-Chain =
    Chain.link (record { free_space = 40; next_page_id = 9 }) (omega arith) refl
      (Chain.link (record { free_space = 500; next_page_id = 0 }) (omega arith) refl
        (Chain.end refl))

abbrev tracked : List Entry
tracked = record { page_id = 7; category = 1 } ∷ record { page_id = 9; category = 15 } ∷ []

tracked-IsAccurate : IsAccurate (free_of links) tracked
unfolding rebuild
tracked-IsAccurate = (rebuild-IsAccurate links 3 7 (7 ∷ 9 ∷ []) [] links-Chain (omega arith)).1

find_page_runs : find_page 100 tracked ≡ 9
unfolding find_page
find_page_runs = refl

find_page_has_room_example : 100 + 6 ≤ free_of links (find_page 100 tracked)
unfolding find_page
find_page_has_room_example =
    find_page_has_room (free_of links) 100 tracked tracked-IsAccurate (omega arith) (omega arith)

rebuild-IsAccurate_example :
    (map (λ (e : Entry). e.page_id) (rebuild 3 links 7 []) ≡ 7 ∷ 9 ∷ [])
    × IsAccurate (free_of links) (rebuild 3 links 7 [])
rebuild-IsAccurate_example = rebuild-IsAccurate links 3 7 (7 ∷ 9 ∷ []) [] links-Chain (omega arith)
