-- ===== src/LockManager/Deadlock/Waits.antt =====
-- The wait-for graph that `find_holder_for` (concurrency/lock_manager.cpp) reads off the lock table,
-- and what `detect_deadlock` answers about it.
use minidb.Prelude.{
  ℕ, ◌≡◌, refl, sym, ap, subst, ◌↔◌, ◌⊎◌, inl, inr, true, false, not, ◌&&◌, List, [], ◌∷◌, arith,
  ◌==◌, Elem, Elem-append, Elem-append_left, Elem-append_right, Bool-cases, length,
}
use minidb.Prelude.Assoc.{Assoc}
use minidb.LockManager.Mode.{LockMode, is_compatible}
use minidb.LockManager.Requests.{LockRequest, LockObject}
use minidb.LockManager.Deadlock.{
  blockers, holders_on, find_holder_for, txns_on, txns, detect_deadlock,
}
use minidb.LockManager.Deadlock.Search.{cycles}
use minidb.LockManager.Deadlock.Sound.{Leads, edge, step, cycles_sound}
use minidb.LockManager.Deadlock.Complete.{Covers, cycles_complete}

-- Among `rs` the transaction `a` has a request that is not granted, and among `all` `b` has a
-- granted one in a mode that conflicts with it.
pub data Blocks (all rs : List LockRequest) (a b : ℕ) : Type 0 where
  blocks :
      (p q : LockRequest)
      → Elem p rs
      → Elem q all
      → p.txn_id ≡ a
      → p.granted ≡ false
      → q.txn_id ≡ b
      → q.granted ≡ true
      → is_compatible q.mode p.mode ≡ false
      → Blocks all rs a b

-- So on some object of the table: `a` waits for `b`.
pub data WaitsFor (table : Assoc LockObject) (a b : ℕ) : Type 0 where
  waits :
      (k : ℕ) (obj : LockObject)
      → Elem (k, obj) table
      → Blocks obj.requests obj.requests a b
      → WaitsFor table a b

-- A chain of such waits, at least one.
pub data WaitChain (table : Assoc LockObject) (a : ℕ) : ℕ → Type 0 where
  one : {b : ℕ} → WaitsFor table a b → WaitChain table a b
  more : {b c : ℕ} → WaitChain table a b → WaitsFor table b c → WaitChain table a c

Elem-blockers :
    (mode : LockMode) (rs : List LockRequest) (b : ℕ)
    → Elem b (blockers mode rs)
    → (q : LockRequest) × Elem q rs
      × (q.txn_id ≡ b)
      × (q.granted ≡ true)
      × (is_compatible q.mode mode ≡ false)
unfolding blockers
Elem-blockers mode [] b m = elim m [ ]
Elem-blockers mode (r ∷ rs) b m = elim (Bool-cases (r.granted && not (is_compatible r.mode mode))) [
  | inl hit ↦ elim (rw hit at m) [
    | inl e ↦ (r, inl refl, sym e, ground arith, ground arith)
    | inr n ↦ let (q, k, t, g, c) = Elem-blockers mode rs b n in (q, inr k, t, g, c)
  ]
  | inr miss ↦ let (q, k, t, g, c) = Elem-blockers mode rs b (rw miss at m) in (q, inr k, t, g, c)
]

blockers-Elem :
    (mode : LockMode) (rs : List LockRequest) (q : LockRequest)
    → Elem q rs
    → q.granted ≡ true
    → is_compatible q.mode mode ≡ false
    → Elem q.txn_id (blockers mode rs)
unfolding blockers
blockers-Elem mode [] q m g c = elim m [ ]
blockers-Elem mode (r ∷ rs) q (inl e) g c =
    let hit : (r.granted && not (is_compatible r.mode mode)) ≡ true = ground arith in
    rw hit (inl (ap (λ (x : LockRequest). x.txn_id) e))
blockers-Elem mode (r ∷ rs) q (inr m) g c =
    elim (Bool-cases (r.granted && not (is_compatible r.mode mode))) [
      | inl hit ↦ rw hit (inr (blockers-Elem mode rs q m g c))
      | inr miss ↦ rw miss (blockers-Elem mode rs q m g c)
    ]

Blocks-more :
    {all rs : List LockRequest} {a b : ℕ} (r : LockRequest)
    → Blocks all rs a b
    → Blocks all (r ∷ rs) a b
Blocks-more r (blocks p q i k ta ga tb gb c) = blocks p q (inr i) k ta ga tb gb c

Elem-holders_on :
    (a : ℕ) (all rs : List LockRequest) (b : ℕ) → Elem b (holders_on a all rs) → Blocks all rs a b
unfolding holders_on
Elem-holders_on a all [] b m = elim m [ ]
Elem-holders_on a all (r ∷ rs) b m = elim (Bool-cases (not r.granted && r.txn_id == a)) [
  | inl hit ↦ elim (Elem-append b (blockers r.mode all) (holders_on a all rs) (rw hit at m)) [
    | inl n ↦
        let (q, k, t, g, c) = Elem-blockers r.mode all b n in
        blocks r q (inl refl) k (ground arith) (ground arith) t g c
    | inr n ↦ Blocks-more r (Elem-holders_on a all rs b n)
  ]
  | inr miss ↦ Blocks-more r (Elem-holders_on a all rs b (rw miss at m))
]

holders_on-Elem :
    (all rs : List LockRequest) (p q : LockRequest)
    → Elem p rs
    → Elem q all
    → p.granted ≡ false
    → q.granted ≡ true
    → is_compatible q.mode p.mode ≡ false
    → Elem q.txn_id (holders_on p.txn_id all rs)
unfolding holders_on
holders_on-Elem all [] p q i k ga gb c = elim i [ ]
holders_on-Elem all (r ∷ rs) p q (inl e) k ga gb c =
    let hit : (not r.granted && r.txn_id == p.txn_id) ≡ true = ground arith in
    rw hit (
      Elem-append_left q.txn_id (blockers r.mode all) _
        (blockers-Elem r.mode all q k gb (ground arith)))
holders_on-Elem all (r ∷ rs) p q (inr i) k ga gb c =
    elim (Bool-cases (not r.granted && r.txn_id == p.txn_id)) [
      | inl hit ↦ rw hit (
          Elem-append_right q.txn_id (blockers r.mode all) _
            (holders_on-Elem all rs p q i k ga gb c))
      | inr miss ↦ rw miss (holders_on-Elem all rs p q i k ga gb c)
    ]

WaitsFor-more :
    {table : Assoc LockObject} {a b : ℕ} (x : ℕ × LockObject)
    → WaitsFor table a b
    → WaitsFor (x ∷ table) a b
WaitsFor-more x (waits k obj m w) = waits k obj (inr m) w

find_holder_for-WaitsFor :
    (table : Assoc LockObject) (a b : ℕ) → Elem b (find_holder_for table a) → WaitsFor table a b
unfolding find_holder_for
find_holder_for-WaitsFor [] a b m = elim m [ ]
find_holder_for-WaitsFor ((k, obj) ∷ objs) a b m =
    elim (Elem-append b (holders_on a obj.requests obj.requests) (find_holder_for objs a) m) [
      | inl n ↦ waits k obj (inl refl) (Elem-holders_on a obj.requests obj.requests b n)
      | inr n ↦ WaitsFor-more (k, obj) (find_holder_for-WaitsFor objs a b n)
    ]

holder_at :
    (table : Assoc LockObject) (x : ℕ × LockObject) (b a : ℕ)
    → Elem x table
    → Elem b (holders_on a x.1.requests x.1.requests)
    → Elem b (find_holder_for table a)
unfolding find_holder_for
holder_at [] x b a m i = elim m [ ]
holder_at ((k, obj) ∷ objs) x b a (inl e) i =
    Elem-append_left b (holders_on a obj.requests obj.requests) (find_holder_for objs a)
      (subst (λ (y : ℕ × LockObject). Elem b (holders_on a y.1.requests y.1.requests)) e i)
holder_at ((k, obj) ∷ objs) x b a (inr m) i =
    Elem-append_right b (holders_on a obj.requests obj.requests) (find_holder_for objs a)
      (holder_at objs x b a m i)

WaitsFor-find_holder_for :
    (table : Assoc LockObject) (a b : ℕ) → WaitsFor table a b → Elem b (find_holder_for table a)
WaitsFor-find_holder_for table a b (waits k obj m (blocks p q i j ta ga tb gb c)) =
    holder_at table (k, obj) b a m
      (subst (λ t. Elem t (holders_on a obj.requests obj.requests)) tb
        (subst (λ t. Elem q.txn_id (holders_on t obj.requests obj.requests)) ta
          (holders_on-Elem obj.requests obj.requests p q i j ga gb c)))

Leads-WaitChain :
    (table : Assoc LockObject) {a b : ℕ} → Leads (find_holder_for table) a b → WaitChain table a b
Leads-WaitChain table {a} {b} (edge m) = one (find_holder_for-WaitsFor table a b m)
Leads-WaitChain table {b = c} (step {b = m'} p m) =
    more (Leads-WaitChain table p) (find_holder_for-WaitsFor table m' c m)

WaitChain-Leads :
    (table : Assoc LockObject) {a b : ℕ} → WaitChain table a b → Leads (find_holder_for table) a b
WaitChain-Leads table {a} {b} (one w) = edge (WaitsFor-find_holder_for table a b w)
WaitChain-Leads table {b = c} (more {b = m'} p w) =
    step (WaitChain-Leads table p) (WaitsFor-find_holder_for table m' c w)

-- A transaction with no request on any object has no holders.
Elem-txns_on : (rs : List LockRequest) (r : LockRequest) → Elem r rs → Elem r.txn_id (txns_on rs)
unfolding txns_on
Elem-txns_on [] r m = m
Elem-txns_on (x ∷ rs) r (inl e) = inl (ap (λ (y : LockRequest). y.txn_id) e)
Elem-txns_on (x ∷ rs) r (inr m) = inr (Elem-txns_on rs r m)

length-cases : (l : List ℕ) → (length l ≡ 0) ⊎ ((b : ℕ) × Elem b l)
length-cases [] = inl refl
length-cases (b ∷ l) = inr (b, inl refl)

WaitsFor-txns : (table : Assoc LockObject) (a b : ℕ) → WaitsFor table a b → Elem a (txns table)
unfolding txns
WaitsFor-txns [] a b (waits k obj m w) = elim m [ ]
WaitsFor-txns ((j, o) ∷ objs) a b (waits k obj (inl e) (blocks p q i x ta ga tb gb c)) =
    Elem-append_left a (txns_on o.requests) (txns objs) (
      subst (λ t. Elem t (txns_on o.requests)) ta
        (Elem-txns_on o.requests p (subst (λ (y : ℕ × LockObject). Elem p y.1.requests) e i)))
WaitsFor-txns ((j, o) ∷ objs) a b (waits k obj (inr m) w) =
    Elem-append_right a (txns_on o.requests) (txns objs) (WaitsFor-txns objs a b (waits k obj m w))

txns-Covers : (table : Assoc LockObject) → Covers (find_holder_for table) (txns table)
txns-Covers table = record {
  at = λ a. elim (length-cases (find_holder_for table a)) [
    | inl z ↦ inr z
    | inr (b, m) ↦ inl (WaitsFor-txns table a b (find_holder_for-WaitsFor table a b m))
  ];
}

-- `detect_deadlock` answers true exactly when a chain of waits on table locks leads from the
-- transaction back to itself: the fuel of its loop is never what decides.
pub detect_deadlock_iff :
    (table : Assoc LockObject) (txn : ℕ)
    → (detect_deadlock table txn ≡ true) ↔ WaitChain table txn txn
unfolding detect_deadlock
detect_deadlock_iff table txn = (
  (λ h. Leads-WaitChain table (cycles_sound (find_holder_for table) (txns table) txn h)),
  λ w. elim (Bool-cases (cycles (find_holder_for table) (txns table) txn)) [
    | inl t ↦ t
    | inr f ↦ absurd (
        cycles_complete (find_holder_for table) (txns table) txn (txns-Covers table) f
          (WaitChain-Leads table w))
  ],
)
