-- ===== src/BufferPool/Refinement.antt =====
-- The buffer pool of storage/buffer_pool.cpp refines a memory without a cache.
use minidb.Prelude.{
  ℕ, ◌≡◌, ap, ◌∙◌, Bool, false, List, [], ◌∷◌, arith, ltb, ◌==◌, if◌then◌else◌, ◌&&◌,
}
use minidb.Page.{Page}
use minidb.BufferPool.{BufferPool, Answers, new_page}
use minidb.BufferPool.Invariant.{IsConsistent, content}
use minidb.BufferPool.FetchPage.{fetch_page-Serves}
use minidb.BufferPool.NewPage.{new_page-Serves}
use minidb.BufferPool.MakeNew.{created}
use minidb.BufferPool.Calls.{
  Call, fetch, create, unpin, dirty, advance_lsn, flush, write, call, is_cached, is_answered,
  effect, is_made, page_of, run, remember,
}
use minidb.BufferPool.Touch.{
  Shows, Shows-ext, unpin_page-Shows, mark_dirty-Shows, set_page_lsn-Shows, write_page-Shows,
}
use minidb.BufferPool.Flush.{flush_page-Shows}

create-Shows :
    (page_id page_type : ℕ) (a : Answers) (s : BufferPool)
    → IsConsistent s
    → Shows (new_page page_id page_type a s).0 (
        effect
          (create page_id page_type a)
          (is_answered (new_page page_id page_type a s).1)
          (is_cached s page_id)
          (content s))
unfolding effect is_answered is_cached created
create-Shows page_id page_type a s k =
    let r = new_page-Serves page_id page_type a s k in
    Shows-ext (new_page page_id page_type a s).0 _ _ (λ id. ground arith) r.0

-- One call.
pub call-Shows :
    (c : Call) (s : BufferPool)
    → IsConsistent s
    → Shows (call c s) (effect c (is_made c s) (is_cached s (page_of c)) (content s))
unfolding call effect is_made page_of
call-Shows (fetch page_id seq a) s k = (fetch_page-Serves page_id seq a s k).0
call-Shows (create page_id page_type a) s k = create-Shows page_id page_type a s k
call-Shows (unpin page_id) s k = unpin_page-Shows page_id s k
call-Shows (dirty page_id) s k = mark_dirty-Shows page_id s k
call-Shows (advance_lsn page_id lsn) s k = set_page_lsn-Shows page_id lsn false s k
call-Shows (flush page_id a) s k = flush_page-Shows page_id a s k
call-Shows (write page_id page) s k = write_page-Shows page_id page false s k

effect_ext :
    (c : Call) (made cached : Bool) (m m' : ℕ → Page)
    → ((id : ℕ) → m id ≡ m' id)
    → (id : ℕ) → effect c made cached m id ≡ effect c made cached m' id
unfolding effect
effect_ext (fetch page_id seq a) made cached m m' e id = e id
effect_ext (create page_id page_type a) made cached m m' e id = ground (arith, e id)
effect_ext (unpin page_id) made cached m m' e id = e id
effect_ext (dirty page_id) made cached m m' e id = e id
effect_ext (advance_lsn page_id lsn) made cached m m' e id =
    ap
      (λ (p : Page). if cached && id == page_id && ltb p.lsn lsn then record p { lsn = lsn } else p)
      (e id)
effect_ext (flush page_id a) made cached m m' e id = e id
effect_ext (write page_id page) made cached m m' e id = ground (arith, e id)

-- The pool refines a memory without a cache: after a sequence of calls from a consistent pool that shows
-- the memory `m`, whatever the store and the log answer, the pool is consistent and shows what the calls
-- make of `m`.
pub run-Shows :
    (cs : List Call) (s : BufferPool) (m : ℕ → Page)
    → IsConsistent s
    → ((id : ℕ) → content s id ≡ m id)
    → Shows (run cs s) (remember cs s m)
unfolding run remember
run-Shows [] s m k e = (k, e)
run-Shows (c ∷ cs) s m k e =
    let (k', e') = call-Shows c s k in
    run-Shows cs (call c s) (effect c (is_made c s) (is_cached s (page_of c)) m) k'
      (λ id. e' id ∙ effect_ext c (is_made c s) (is_cached s (page_of c)) (content s) m e id)
