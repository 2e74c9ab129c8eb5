-- ===== src/Page/Examples.antt =====
-- Concrete pages: an empty page, with one tuple, and with its first slot dead.
use minidb.Prelude.{
  ◌+◌, ◌*◌, ℕ, ◌≡◌, refl, ap, inl, inr, true, [], ◌∷◌, List, some, arith, ◌==◌, if◌then◌else◌,
}
use minidb.Page.{
  LinePointer, Page, init, insert_tuple, redirect_slot, get_free_space, has_enough_space, find_fit,
  find_unused, append_tuple, mark_dead, num_tuples, min_tuple_offset, put_line_pointer, fits_dead,
}
use minidb.Page.Space.{HasSlots, is_some, has_enough_space-insert_tuple}
use minidb.Page.Fresh.{IsPacked}
use minidb.Page.Insert.{bytes_of, read_tuple, insert_tuple-IsPacked, insert_tuple-read_tuple}
use minidb.Page.Calls.{Call, insert, insert_at, mark, reclaim, redirect, run, run-IsPacked}
use minidb.Page.Redirects.{redirect_slot-get_free_space}
use minidb.Page.Prune.{prune, used_space}
use minidb.Page.Prune.Kept.{prune-read_tuple}
use minidb.Page.Packed.{init-IsPacked}

abbrev sevens : ℕ → ℕ
sevens a = 7

abbrev empty_page : Page
empty_page = init 3 1

abbrev one_tuple : Page
one_tuple = (insert_tuple empty_page sevens 10).0

one_tuple-IsPacked : IsPacked one_tuple
one_tuple-IsPacked = insert_tuple-IsPacked empty_page sevens 10 (omega arith) (init-IsPacked 3 1)

one_tuple_lem : one_tuple.line_pointers ≡ record { offset = 8168; length = 10; flags = 1 } ∷ []
unfolding init insert_tuple find_fit find_unused append_tuple min_tuple_offset put_line_pointer
one_tuple_lem = refl

abbrev two_tuples : Page
two_tuples = (insert_tuple one_tuple sevens 20).0

two_tuples-IsPacked : IsPacked two_tuples
two_tuples-IsPacked = insert_tuple-IsPacked one_tuple sevens 20 (omega arith) one_tuple-IsPacked

insert_tuple-read_tuple_example :
    read_tuple two_tuples 1
    ≡ (if 1 == 1 then some (bytes_of sevens 0 20) else read_tuple one_tuple 1)
unfolding init insert_tuple find_fit find_unused append_tuple min_tuple_offset put_line_pointer
insert_tuple-read_tuple_example =
    insert_tuple-read_tuple one_tuple sevens 20 1 1 (omega arith) (omega arith) one_tuple-IsPacked
      refl

-- A redirected slot and the reuse of a dead one among the calls.
abbrev some_calls : List Call
some_calls =
    insert sevens 10
    ∷ insert sevens 20
    ∷ mark 0
    ∷ insert_at sevens 8 0
    ∷ insert sevens 30
    ∷ redirect 1 2
    ∷ reclaim 0
    ∷ []

run-IsPacked_example : IsPacked (run some_calls (init 3 1))
run-IsPacked_example =
    run-IsPacked some_calls 3 1
      (omega arith, (omega arith, (tt, (omega arith, (omega arith, (tt, (tt, tt)))))))

redirect_slot-get_free_space_example : get_free_space (redirect_slot two_tuples 0 1).0 ≡ 0
unfolding init insert_tuple find_fit find_unused append_tuple min_tuple_offset put_line_pointer
    redirect_slot
redirect_slot-get_free_space_example =
    redirect_slot-get_free_space two_tuples 0 1 (omega arith) (omega arith) refl

abbrev one_dead : Page
one_dead = record {
  page_id = 3;
  lsn = 0;
  page_type = 1;
  free_space_offset = 30;
  line_pointers = record { offset = 8168; length = 10; flags = 3 } ∷ [];
  bytes = sevens;
}

one_dead-HasSlots : HasSlots one_dead
one_dead-HasSlots = record {
  few = omega arith;
  unused = λ lp m f. elim m [
    | inl e ↦ absurd (omega (arith, ap (λ (y : LinePointer). y.flags) e))
    | inr n ↦ elim n [ ]
  ];
  dead = λ lp m f. elim m [
    | inl e ↦ omega (arith, ap (λ (y : LinePointer). y.length) e)
    | inr n ↦ elim n [ ]
  ];
}

has_enough_space-insert_tuple_example :
    has_enough_space one_dead 16 ≡ is_some (insert_tuple one_dead sevens 16).1
has_enough_space-insert_tuple_example =
    has_enough_space-insert_tuple one_dead sevens 16 one_dead-HasSlots

one_dead_has_space : has_enough_space one_dead 16 ≡ true
unfolding has_enough_space fits_dead
one_dead_has_space = refl

-- The first of two tuples is dead, and the second moves.
abbrev first_dead : Page
first_dead = (mark_dead two_tuples 0).0

first_dead-used_space : 24 + num_tuples first_dead * 6 + used_space first_dead.line_pointers ≡ 60
unfolding init insert_tuple find_fit find_unused append_tuple min_tuple_offset put_line_pointer
    mark_dead used_space
first_dead-used_space = refl

prune-read_tuple_example : read_tuple (prune first_dead).0 1 ≡ read_tuple first_dead 1
prune-read_tuple_example = prune-read_tuple first_dead 1 (omega (arith, first_dead-used_space))
