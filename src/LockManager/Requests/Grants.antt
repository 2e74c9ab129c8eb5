-- ===== src/LockManager/Requests/Grants.antt =====
-- `grant_pending` (concurrency/lock_manager.cpp) on the requests of one object: it keeps mutual
-- exclusion, keeps what was granted, and grants all that it can.
use mathlib.Core.List.{append_assoc, append-nil}
use minidb.Prelude.{
  ◌≡◌, refl, sym, ap, subst, ◌∙◌, ◌⊎◌, inl, inr, true, false, List, [], ◌∷◌, ◌++◌, arith, Elem,
  Elem-middle, Elem-middle_self, Elem-middle_other, Bool-cases, Elem-append,
}
use minidb.LockManager.Requests.{LockRequest, can_grant, grant_one, grant_loop}
use minidb.LockManager.Requests.Clear.{
  IsClear, IsExclusive, can_grant-IsClear, IsClear-can_grant, IsExclusive-middle,
  IsExclusive-subset,
}

abbrev now_granted : LockRequest → LockRequest
now_granted r = record r { granted = true; waiting = false }

-- What one step of the loop does to its request: it stays, granted already or refused, or it is
-- granted.
grant_one_cases :
    (rs : List LockRequest) (r : LockRequest)
    → ((grant_one rs r ≡ r) × (r.granted ≡ true))
      ⊎ ((grant_one rs r ≡ r) × (r.granted ≡ false) × (can_grant rs r.txn_id r.mode ≡ false))
      ⊎ ((grant_one rs r ≡ now_granted r)
          × (r.granted ≡ false)
          × (can_grant rs r.txn_id r.mode ≡ true))
unfolding grant_one
grant_one_cases rs r = elim (Bool-cases r.granted) [
  | inl g ↦ inl (rw g, g)
  | inr g ↦ elim (Bool-cases (can_grant rs r.txn_id r.mode)) [
    | inl c ↦ inr (inr (ground arith, g, c))
    | inr c ↦ inr (inl (ground arith, g, c))
  ]
]

module _ (done rs : List LockRequest) (r : LockRequest) where
  abbrev here : List LockRequest
  here = done ++ r ∷ rs

  abbrev stepped : List LockRequest
  stepped = done ++ grant_one here r ∷ rs

  others : (q : LockRequest) → Elem q (done ++ rs) → Elem q here
  others q m = Elem-middle_other q r done rs m

  IsExclusive-step : IsExclusive here → IsExclusive stepped
  IsExclusive-step x =
      IsExclusive-middle done rs (grant_one here r)
        (IsExclusive-subset here (done ++ rs) (λ q m g. others q m) x)
        λ g. elim (grant_one_cases here r) [
          | inl (e, held) ↦ rw e (record {
            free = λ q m h ne. x.apart q r (others q m) (Elem-middle_self r done rs) h held ne;
          })
          | inr (inl (e, idle, c)) ↦ absurd (cc)
          | inr (inr (e, idle, c)) ↦ rw e (record {
            free = λ q m h ne. (can_grant-IsClear here r.txn_id r.mode c).free q (others q m) h ne;
          })
        ]

  -- What was granted stays in the list.
  granted-step : (q : LockRequest) → q.granted ≡ true → Elem q here → Elem q stepped
  granted-step q g m = elim (Elem-middle q r done rs m) [
    | inr n ↦ Elem-middle_other q (grant_one here r) done rs n
    | inl e ↦ elim (grant_one_cases here r) [
      | inl (same, held) ↦ rw (e, same) (Elem-middle_self r done rs)
      | inr (inl (same, idle, c)) ↦ absurd (cc)
      | inr (inr (same, idle, c)) ↦ absurd (cc)
    ]
  ]

module _ (P : List LockRequest → Type 0) where
  abbrev regroup :
      (done rs : List LockRequest) (g : LockRequest)
      → P (done ++ g ∷ rs)
      → P ((done ++ g ∷ []) ++ rs)
  regroup done rs g h = subst P (sym (append_assoc done (g ∷ []) rs)) h

IsExclusive-grant_loop :
    (done rs : List LockRequest) → IsExclusive (done ++ rs) → IsExclusive (grant_loop done rs)
unfolding grant_loop
IsExclusive-grant_loop done [] x = rw append-nil at x
IsExclusive-grant_loop done (r ∷ rs) x =
    IsExclusive-grant_loop (done ++ grant_one (done ++ r ∷ rs) r ∷ []) rs
      (regroup IsExclusive done rs _ (IsExclusive-step done rs r x))

granted-grant_loop :
    (done rs : List LockRequest) (q : LockRequest)
    → q.granted ≡ true
    → Elem q (done ++ rs)
    → Elem q (grant_loop done rs)
unfolding grant_loop
granted-grant_loop done [] q g m = rw append-nil at m
granted-grant_loop done (r ∷ rs) q g m =
    granted-grant_loop (done ++ grant_one (done ++ r ∷ rs) r ∷ []) rs q g
      (regroup (λ l. Elem q l) done rs _ (granted-step done rs r q g m))

-- A request that is not granted at the end was refused when the loop passed it, and what refused
-- it is still granted.
maximal :
    (done rs : List LockRequest) (p : LockRequest)
    → ((q : LockRequest)
        → Elem q done
        → q.granted ≡ false
        → can_grant (grant_loop done rs) q.txn_id q.mode ≡ false)
    → Elem p (grant_loop done rs)
    → p.granted ≡ false
    → can_grant (grant_loop done rs) p.txn_id p.mode ≡ false
unfolding grant_loop
maximal done [] p h m g = h p m g
maximal done (r ∷ rs) p h m g = maximal (done ++ g' ∷ []) rs p upto m g
  where
    here' : List LockRequest
    here' = done ++ r ∷ rs

    g' : LockRequest
    g' = grant_one here' r

    final : List LockRequest
    final = grant_loop (done ++ g' ∷ []) rs

    kept : (q : LockRequest) → q.granted ≡ true → Elem q here' → Elem q final
    kept q gr e = granted-grant_loop done (r ∷ rs) q gr e

    refused : can_grant here' r.txn_id r.mode ≡ false → can_grant final r.txn_id r.mode ≡ false
    refused c = elim (Bool-cases (can_grant final r.txn_id r.mode)) [
      | inr f ↦ f
      | inl t ↦
          let clear = can_grant-IsClear final r.txn_id r.mode t in
          let before : IsClear here' r.txn_id r.mode = record {
            free = λ q e gr ne. clear.free q (kept q gr e) gr ne;
          } in
          cc (IsClear-can_grant here' r.txn_id r.mode before)
    ]

    upto :
        (q : LockRequest)
        → Elem q (done ++ g' ∷ [])
        → q.granted ≡ false
        → can_grant final q.txn_id q.mode ≡ false
    upto q e idle = elim (Elem-append q done (g' ∷ []) e) [
      | inl old ↦ h q old idle
      | inr (inr none') ↦ absurd none'
      | inr (inl same) ↦ elim (grant_one_cases here' r) [
        | inl (eq, held) ↦ absurd (cc)
        | inr (inr (eq, was, c)) ↦ absurd (cc)
        | inr (inl (eq, was, c)) ↦
            subst (λ (z : LockRequest). can_grant final z.txn_id z.mode ≡ false) (sym (same ∙ eq))
              (refused c)
      ]
    ]

-- `grant_pending` keeps the granted requests of an object apart.
pub IsExclusive-grant_pending :
    (rs : List LockRequest) → IsExclusive rs → IsExclusive (grant_loop [] rs)
IsExclusive-grant_pending rs x = IsExclusive-grant_loop [] rs x

-- `grant_pending` takes nothing back.
pub granted-grant_pending :
    (rs : List LockRequest) (q : LockRequest)
    → q.granted ≡ true
    → Elem q rs
    → Elem q (grant_loop [] rs)
granted-grant_pending rs q g m = granted-grant_loop [] rs q g m

-- After `grant_pending` no request waits that could be granted: each that is left has a granted
-- request of another transaction against it.
pub grant_pending_maximal :
    (rs : List LockRequest) (p : LockRequest)
    → Elem p (grant_loop [] rs)
    → p.granted ≡ false
    → can_grant (grant_loop [] rs) p.txn_id p.mode ≡ false
grant_pending_maximal rs p m g = maximal [] rs p (λ q e. absurd e) m g

txn-grant_one : (rs : List LockRequest) (r : LockRequest) → (grant_one rs r).txn_id ≡ r.txn_id
unfolding grant_one
txn-grant_one rs r = ground arith

txn-grant_loop :
    (done rs : List LockRequest) (q : LockRequest)
    → Elem q (grant_loop done rs)
    → (p : LockRequest) × Elem p (done ++ rs) × (p.txn_id ≡ q.txn_id)
unfolding grant_loop
txn-grant_loop done [] q m = (q, rw append-nil m, refl)
txn-grant_loop done (r ∷ rs) q m =
    let g = grant_one (done ++ r ∷ rs) r in
    let (p, i, t) = txn-grant_loop (done ++ g ∷ []) rs q m in
    elim (Elem-middle p g done rs (rw append_assoc at i)) [
      | inl e ↦ (
        r,
        Elem-middle_self r done rs,
        sym (txn-grant_one (done ++ r ∷ rs) r) ∙ sym (ap (λ (x : LockRequest). x.txn_id) e) ∙ t,
      )
      | inr n ↦ (p, Elem-middle_other p r done rs n, t)
    ]

-- `grant_pending` adds no request of a transaction that had none.
pub txn-grant_pending :
    (rs : List LockRequest) (q : LockRequest)
    → Elem q (grant_loop [] rs)
    → (p : LockRequest) × Elem p rs × (p.txn_id ≡ q.txn_id)
txn-grant_pending rs q m = txn-grant_loop [] rs q m
