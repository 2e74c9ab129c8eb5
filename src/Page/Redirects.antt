-- ===== src/Page/Redirects.antt =====
-- A redirected slot and the free space of storage/page.cpp: the line pointer of a redirect holds the
-- target slot where another holds its offset, and the search for the lowest tuple reads it as one.
use minidb.Prelude.{ℕ, ◌≤◌, ◌<◌, ◌≡◌, true, ◌&&◌, arith, ltb, set, Bool-cases, inl, inr}
use minidb.Page.{
  LinePointer, Page, num_tuples, lp_redirect, data_upper_bound, min_tuple_offset, redirect_slot,
  get_free_space,
}
use minidb.Page.Slots.{get_elem?-set, length-set, min_tuple_offset-at}

redirected :
    (p : Page) (idx target : ℕ)
    → 0 < target
    → target < num_tuples p
    → idx < num_tuples p
    → min_tuple_offset data_upper_bound
        (set p.line_pointers idx (record { offset = target; length = 0; flags = lp_redirect }))
      ≤ target
redirected p idx target z t i =
    let new : LinePointer = record { offset = target; length = 0; flags = lp_redirect } in
    let here = get_elem?-set p.line_pointers idx idx new i in
    min_tuple_offset-at (set p.line_pointers idx new) data_upper_bound idx new
      (ground (arith, here)) z

-- Once a slot is redirected to any slot but the first, the page reports no free space.
pub redirect_slot-get_free_space :
    (p : Page) (idx target : ℕ)
    → num_tuples p ≤ 1361
    → 0 < target
    → (redirect_slot p idx target).1 ≡ true
    → get_free_space (redirect_slot p idx target).0 ≡ 0
unfolding redirect_slot get_free_space
redirect_slot-get_free_space p idx target few z e =
    let new : LinePointer = record { offset = target; length = 0; flags = lp_redirect } in
    elim (Bool-cases (ltb idx (num_tuples p) && ltb target (num_tuples p))) [
      | inr bad ↦ cc (rw bad at e)
      | inl ok ↦
          let low = redirected p idx target z (ground arith) (ground arith) in
          let size = length-set p.line_pointers idx new in rw ok (ground arith)
    ]
