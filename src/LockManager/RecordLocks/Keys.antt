-- ===== src/LockManager/RecordLocks/Keys.antt =====
-- The keys of record and logical locks (`record_lock_key`, `logical_lock_key` of
-- concurrency/lock_manager.cpp) and the hash of a text (container/hash_map.h), on 64-bit words.
use Prim.Native.Nat.{bit_xor}
use minidb.Prelude.{ℕ, ◌+◌, ◌*◌, ◌/◌, ◌%◌, ◌^◌, List, [], ◌∷◌}
use minidb.RecordId.{RecordId}

abbrev u64_mod : ℕ
u64_mod = 2 ^ 64

-- `h ^= x + 0x9e3779b97f4a7c15 + (h << 6) + (h >> 2)`
mix : ℕ → ℕ → ℕ
mix h x = bit_xor h ((x + 0x9e3779b97f4a7c15 + (h * 64) % u64_mod + h / 4) % u64_mod)

unfoldable pub record_lock_key : ℕ → RecordId → ℕ
unfolding mix
record_lock_key table_id rid =
    mix (mix ((table_id * 11400714819323198485) % u64_mod) rid.page_id) rid.slot_idx

-- Hash<String>, of the bytes of the text: FNV-1a.
hash_from : ℕ → List ℕ → ℕ
hash_from h [] = h
hash_from h (c ∷ cs) = hash_from ((bit_xor h c * 1099511628211) % u64_mod) cs

unfoldable pub logical_lock_key : ℕ → List ℕ → ℕ
unfolding hash_from
logical_lock_key table_id key =
    bit_xor (bit_xor ((table_id * 1099511628211) % u64_mod) (hash_from 1469598103934665603 key))
      0xD15EA5E5D15EA5E5

-- The record that stands for a logical key: `lock_key` is `lock_record` of it.
unfoldable pub pseudo_record : ℕ → List ℕ → RecordId
unfolding logical_lock_key
pseudo_record table_id key = record { page_id = logical_lock_key table_id key; slot_idx = 0 }
