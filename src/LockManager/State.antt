-- ===== src/LockManager/State.antt =====
-- The state of the lock manager (concurrency/lock_manager.h), the outcome of a call, and the small
-- changes that its calls share. A pointer to an object is the object's key.
use minidb.Prelude.{ℕ, Bool, true, false, List, [], ◌∷◌, ◌++◌, none, some, ◌==◌, if◌then◌else◌}
use minidb.Prelude.Assoc.{Assoc, find, insert}
use minidb.LockManager.Mode.{access_share}
use minidb.LockManager.Requests.{LockObject}

pub record LockManager : Type 0 where
  pub lock_table : Assoc LockObject
  pub txn_locks : Assoc (List ℕ)
  pub record_locks : Assoc LockObject
  pub txn_record_locks : Assoc (List ℕ)

abbrev pub empty : LockManager
empty = record { lock_table = []; txn_locks = []; record_locks = []; txn_record_locks = [] }

pub data Status : Type 0 where
  ok lock_conflict : Status

-- A call returns, or its thread waits on the condition variable.
pub data Outcome : Type 0 where
  returns : Status → Outcome
  waits : Outcome

-- The object of a key, created where there is none.
unfoldable pub object_at : ℕ → ℕ → Assoc LockObject → LockObject
object_at key table_id objs = elim (find key objs) [
  | none ↦ record { table_id = table_id; requests = []; granted_mask = access_share }
  | some obj ↦ obj
]

unfoldable pub member : ℕ → List ℕ → Bool
member k [] = false
member k (j ∷ js) = if j == k then true else member k js

-- The transaction's list of held keys, with one more.
unfoldable pub note_held : ℕ → ℕ → Assoc (List ℕ) → Assoc (List ℕ)
unfolding member
note_held txn key held = elim (find txn held) [
  | none ↦ insert txn (key ∷ []) held
  | some ks ↦ insert txn (if member key ks then ks else ks ++ key ∷ []) held
]

unfoldable pub put_table : LockManager → ℕ → LockObject → LockManager
put_table lm key obj = record lm { lock_table = insert key obj lm.lock_table }

unfoldable pub put_record : LockManager → ℕ → LockObject → LockManager
put_record lm key obj = record lm { record_locks = insert key obj lm.record_locks }
