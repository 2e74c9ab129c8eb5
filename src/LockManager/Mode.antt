-- ===== src/LockManager/Mode.antt =====
-- Lock modes and their compatibility (concurrency/lock_manager.h, `kLockCompatibility`).
use minidb.Prelude.{ℕ, ◌≤◌, ◌≡◌, Bool, true, false, arith, ltb, if◌then◌else◌}

pub data LockMode : Type 0 where
  access_share row_exclusive exclusive access_exclusive : LockMode

-- static_cast<u8>(mode)
abbrev pub rank : LockMode → ℕ
rank access_share = 0
rank row_exclusive = 1
rank exclusive = 2
rank access_exclusive = 3

-- LockManager::is_compatible, the matrix row by row.
unfoldable pub is_compatible : LockMode → LockMode → Bool
is_compatible access_share access_exclusive = false
is_compatible access_share _ = true
is_compatible row_exclusive access_share = true
is_compatible row_exclusive row_exclusive = true
is_compatible row_exclusive _ = false
is_compatible exclusive access_share = true
is_compatible exclusive _ = false
is_compatible access_exclusive _ = false

-- LockManager::max_mode
unfoldable pub max_mode : LockMode → LockMode → LockMode
max_mode a b = if ltb (rank b) (rank a) then a else b

pub is_compatible_comm : (a b : LockMode) → is_compatible a b ≡ is_compatible b a
unfolding is_compatible
is_compatible_comm a b = ground arith

pub eq_of_rank : (a b : LockMode) → rank a ≡ rank b → a ≡ b
eq_of_rank a b h = ground arith

-- The matrix is monotone: what conflicts with a mode conflicts with every stronger one.
pub is_compatible_mono :
    (held a b : LockMode)
    → rank a ≤ rank b
    → is_compatible held b ≡ true
    → is_compatible held a ≡ true
unfolding is_compatible
is_compatible_mono held a b h c = ground arith
