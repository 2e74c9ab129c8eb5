-- ===== src/Txn/Lifecycle/Repeatable.antt =====
-- Snapshot isolation in transaction/transaction.cpp: what a transaction sees does not change while
-- others begin, commit and roll back.
use minidb.Prelude.{
  ℕ, ◌+◌, ◌<◌, ◌≡◌, refl, sym, subst, ◌∙◌, ◌≢◌, inl, inr, false, List, none, some, arith, ◌==◌,
  if◌then◌else◌, Bool-cases, Option-cases,
}
use minidb.Prelude.Assoc.{Assoc, insert, find-insert}
use minidb.Txn.Log.{Transaction}
use minidb.Txn.Manager.{
  TxnSlot, TxnFinalState, TransactionManager, get_txn_state, logged, was_active, is_uncommitted,
  is_visible,
}
use minidb.Txn.Manager.Visible.{is_visible-agree}
use minidb.Txn.Lifecycle.{claim, begin, record_final}
use minidb.Txn.Lifecycle.Finishes.{Finishes, rollback-Finishes, commit-Finishes}
use minidb.Txn.Lifecycle.Sessions.{
  IsLogged, Reads, Runs, OtherStep, begins, commits, rolls_back, OtherSteps, stay, more, Keeps,
}
use minidb.Txn.Lifecycle.Claims.{claim_cases, get_txn_state-claim}

logged-record_final :
    (id x : ℕ) (f : TxnFinalState) (tm tm' : TransactionManager) (log : Assoc TxnFinalState)
    → tm.status_log ≡ some log
    → tm'.status_log ≡ record_final id f tm.status_log
    → logged tm' x ≡ (if id == x then some f else logged tm x)
unfolding logged record_final
logged-record_final id x f tm tm' log e e' = ground (arith, find-insert id x f log)

agree_of_parts :
    (tm tm' : TransactionManager) (x : ℕ)
    → logged tm' x ≡ logged tm x
    → get_txn_state tm'.slots x ≡ get_txn_state tm.slots x
    → is_uncommitted tm' x ≡ is_uncommitted tm x
unfolding is_uncommitted
agree_of_parts tm tm' x e f = ground arith

module _ {Info : Type 0} (t : Transaction Info) (tm tm' : TransactionManager) (id : ℕ) where
  -- A transaction that runs is not one that the snapshot counts as over.
  not_idle :
      (x : ℕ)
      → Reads tm t
      → Runs tm id
      → id ≢ t.txn_id
      → x < t.snapshot_id
      → was_active x t.active_snapshot ≡ false
      → x ≢ id
  not_idle x r run ne lt idle e =
      let same : run.slot.txn_id ≡ x = run.same ∙ sym e in
      let act = r.running run.slot run.here run.live (omega arith) (λ q. ne (sym run.same ∙ q)) in
      cc (act, same, idle)

  -- The end of another transaction.
  Finishes-Keeps :
      IsLogged tm → Reads tm t → Runs tm id → id ≢ t.txn_id → Finishes id tm tm' → Keeps t tm tm'
  Finishes-Keeps l r run ne f =
      let rule = λ (x : ℕ). logged-record_final id x f.final tm tm' l.has_log.0 l.has_log.1 f.log in
      record {
        logs = record {
          has_log =
              (insert id f.final l.has_log.0, f.log ∙ (unfold record_final in rw (l.has_log.1)));
          dead = λ s m d z. elim (f.ends.slots s m) [
            | inl old ↦ λ e. ground (arith, rule s.txn_id, l.dead s old d z)
            | inr gone ↦ λ e. ground (arith, rule s.txn_id, gone.0)
          ];
        };
        reads = record {
          past = omega (arith, f.grows, r.past);
          running = λ s m lv lt own. elim (f.ends.slots s m) [
            | inl old ↦ r.running s old lv lt own
            | inr gone ↦ cc (lv, gone.1)
          ];
        };
        agree = λ x nz lt idle.
            let other = not_idle x r run ne lt idle in
            agree_of_parts tm tm' x (ground (arith, rule x)) (f.ends.others x other);
      }

Keeps-refl :
    {Info : Type 0} (t : Transaction Info) (tm : TransactionManager)
    → IsLogged tm
    → Reads tm t
    → Keeps t tm tm
Keeps-refl t tm l r = record { logs = l; reads = r; agree = λ x nz lt idle. refl }

is_uncommitted-logged :
    (tm tm' : TransactionManager) (x : ℕ)
    → logged tm x ≢ none
    → logged tm' x ≡ logged tm x
    → is_uncommitted tm' x ≡ is_uncommitted tm x
unfolding is_uncommitted
is_uncommitted-logged tm tm' x h e = ground arith

-- The begin of another transaction.
claim-Keeps :
    {Info : Type 0} (t : Transaction Info) (tm : TransactionManager) (ss : List TxnSlot)
    → IsLogged tm
    → Reads tm t
    → claim tm.next_txn_id (tm.next_txn_id + 1) tm.slots ≡ some ss
    → Keeps t tm (record tm { slots = ss; next_txn_id = tm.next_txn_id + 1 })
claim-Keeps t tm ss l r e =
    let tm' : TransactionManager = record tm { slots = ss; next_txn_id = tm.next_txn_id + 1 } in
    record {
      logs = record {
        has_log = l.has_log;
        dead = λ s m d z. elim (claim_cases tm.next_txn_id _ tm.slots ss s e m) [
          | inl old ↦ λ n. l.dead s old d z (unfold logged in n)
          | inr (p, q) ↦ λ n. ground arith
        ];
      };
      reads = record {
        past = omega (arith, r.past);
        running = λ s m lv lt own. elim (claim_cases tm.next_txn_id _ tm.slots ss s e m) [
          | inl old ↦ r.running s old lv lt own
          | inr (p, q) ↦ absurd (omega (arith, r.past))
        ];
      };
      agree = λ x nz lt idle.
          elim (get_txn_state-claim tm.next_txn_id _ x tm.slots ss e (λ q. omega (arith, r.past))) [
            | inl p ↦ agree_of_parts tm tm' x (unfold logged in refl) p
            | inr (s, m, d, p) ↦
                is_uncommitted-logged tm tm' x
                  (subst (λ k. logged tm k ≢ none) p (l.dead s m d (λ q. nz (sym p ∙ q))))
                  (unfold logged in refl)
          ];
    }

-- Every step of another session keeps what the transaction counts on.
OtherStep-Keeps :
    {Info : Type 0} {t : Transaction Info} {tm tm' : TransactionManager}
    → OtherStep t tm tm'
    → IsLogged tm
    → Reads tm t
    → Keeps t tm tm'
OtherStep-Keeps {t} {tm} (begins admitted) l r = elim (Bool-cases admitted) [
  | inr refused ↦ unfold begin in rw refused (Keeps-refl t tm l r)
  | inl ok ↦ elim (Option-cases (claim tm.next_txn_id (tm.next_txn_id + 1) tm.slots)) [
    | inl full ↦ unfold begin in rw (ok, full) (Keeps-refl t tm l r)
    | inr (ss, e) ↦ unfold begin in rw (ok, e) (claim-Keeps t tm ss l r e)
  ]
]
OtherStep-Keeps {t} {tm} (commits u lsn run ne) l r =
    Finishes-Keeps t tm _ u.txn_id l r run ne (commit-Finishes tm u lsn)
OtherStep-Keeps {t} {tm} (rolls_back u run ne) l r =
    Finishes-Keeps t tm _ u.txn_id l r run ne (rollback-Finishes tm u)

-- Repeatable reads: from a manager whose log has the transactions of its idle slots, and for a
-- transaction whose snapshot was taken from it, any begins, commits and rollbacks of other
-- transactions leave the visibility of every version as it is.
pub is_visible-OtherSteps :
    {Info : Type 0} (t : Transaction Info) (tm tm' : TransactionManager) (xmin xmax : ℕ)
    → OtherSteps t tm tm'
    → IsLogged tm
    → Reads tm t
    → is_visible tm' xmin xmax t ≡ is_visible tm xmin xmax t
is_visible-OtherSteps t tm tm' xmin xmax steps l r = (walk steps).1
  where
    walk :
        {after : TransactionManager}
        → OtherSteps t tm after
        → (IsLogged after × Reads after t)
          × (is_visible after xmin xmax t ≡ is_visible tm xmin xmax t)
    walk stay = ((l, r), refl)
    walk (more {mid} {after} steps s) =
        let (kept, same) = walk steps in
        let k = OtherStep-Keeps s kept.0 kept.1 in
        ((k.logs, k.reads), is_visible-agree mid after xmin xmax t k.agree ∙ same)
