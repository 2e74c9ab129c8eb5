-- ===== src/Page/Calls.antt =====
-- Any calls of storage/page.h on a page that init has made.
use minidb.Prelude.{ℕ, ◌<◌, List, [], ◌∷◌, All}
use minidb.Page.{Page, init, insert_tuple, insert_tuple_at, mark_dead, reclaim_slot, redirect_slot}
use minidb.Page.Fresh.{IsPacked}
use minidb.Page.Insert.{insert_tuple-IsPacked}
use minidb.Page.Packed.{
  insert_tuple_at-IsPacked, mark_dead-IsPacked, reclaim_slot-IsPacked, redirect_slot-IsPacked,
  init-IsPacked,
}

pub data Call : Type 0 where
  insert : (tuple_data : ℕ → ℕ) (len : ℕ) → Call
  insert_at : (tuple_data : ℕ → ℕ) (len target : ℕ) → Call
  mark : (idx : ℕ) → Call
  reclaim : (idx : ℕ) → Call
  redirect : (idx target : ℕ) → Call

unfoldable pub step : Call → Page → Page
step (insert tuple_data len) p = (insert_tuple p tuple_data len).0
step (insert_at tuple_data len target) p = (insert_tuple_at p tuple_data len target).0
step (mark idx) p = (mark_dead p idx).0
step (reclaim idx) p = (reclaim_slot p idx).0
step (redirect idx target) p = (redirect_slot p idx target).0

unfoldable pub run : List Call → Page → Page
run [] p = p
run (c ∷ cs) p = run cs (step c p)

-- A tuple that is inserted is shorter than the 16-bit sums can wrap.
abbrev pub IsShort : Call → Type 0
IsShort (insert tuple_data len) = len < 65529
IsShort (insert_at tuple_data len target) = len < 65529
IsShort _ = Unit

step-IsPacked : (c : Call) (p : Page) → IsShort c → IsPacked p → IsPacked (step c p)
unfolding step
step-IsPacked (insert tuple_data len) p s k = insert_tuple-IsPacked p tuple_data len s k
step-IsPacked (insert_at tuple_data len target) p s k =
    insert_tuple_at-IsPacked p tuple_data len target s k
step-IsPacked (mark idx) p s k = mark_dead-IsPacked p idx k
step-IsPacked (reclaim idx) p s k = reclaim_slot-IsPacked p idx k
step-IsPacked (redirect idx target) p s k = redirect_slot-IsPacked p idx target k

run_from : (cs : List Call) (p : Page) → All IsShort cs → IsPacked p → IsPacked (run cs p)
unfolding run
run_from [] p s k = k
run_from (c ∷ cs) p s k = run_from cs (step c p) s.1 (step-IsPacked c p s.0 k)

-- After any insertions of tuples shorter than 65529 bytes, dead marks, reclaims and redirects on a new
-- page, its tuples lie inside the page and behind the slots, and no two of them overlap.
pub run-IsPacked :
    (cs : List Call) (page_id page_type : ℕ)
    → All IsShort cs
    → IsPacked (run cs (init page_id page_type))
run-IsPacked cs page_id page_type s =
    run_from cs (init page_id page_type) s (init-IsPacked page_id page_type)
