-- ===== src/VisibilityMap/Examples.antt =====
-- A run of the visibility map: two pages are marked, and the first is changed and removed.
use minidb.Prelude.{ℕ, ◌≡◌, refl, true, false, List, [], ◌∷◌, arith}
use minidb.Prelude.Distinct.{Distinct}
use minidb.VisibilityMap.{
  Entry, find_entry, set_visible, set_frozen, clear_page, is_visible, is_frozen, stats,
}
use minidb.VisibilityMap.Lookup.{id_of}
use minidb.VisibilityMap.Calls.{
  Call, sets_visible, sets_frozen, clears_page, step, run, IsSound, run-IsSound,
}

abbrev some_calls : List Call
some_calls = sets_visible 4 ∷ sets_frozen 9 ∷ clears_page 4 ∷ []

abbrev two_pages : List Entry
two_pages =
    record { page_id = 4; visible = false; frozen = false }
    ∷ record { page_id = 9; visible = true; frozen = true }
    ∷ []

some_calls-run : run [] some_calls ≡ two_pages
unfolding run step set_visible set_frozen clear_page
some_calls-run = refl

two_pages-stats : stats two_pages ≡ (1, 1)
unfolding stats
two_pages-stats = refl

empty-IsSound : IsSound []
unfolding is_frozen is_visible find_entry
empty-IsSound = record { distinct = tt; frozen_visible = empty_lem }
  where
    empty_lem : (b : ℕ) → is_frozen [] b ≡ true → is_visible [] b ≡ true
    empty_lem b f = cc

run-IsSound_example : IsSound (run [] some_calls)
run-IsSound_example = run-IsSound [] some_calls empty-IsSound

two_pages-Distinct : Distinct id_of two_pages
two_pages-Distinct = (((λ e. omega arith), tt), (tt, tt))
