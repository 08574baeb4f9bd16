-- ===== src/Hash.antt =====
-- FNV-1a with 64 bits, which src/wal.rs and src/sstable.rs each define.
use sift_core.Bytes.{Bytes, IsU64}
use sift_core.Prelude.{ℕ, ◌*◌, ◌%◌, ◌^◌, bit_xor, [], ◌∷◌, arith}

unfoldable pub fnv_step : ℕ → ℕ → ℕ
fnv_step hash b = bit_xor hash b * 0x100000001b3 % 2 ^ 64

unfoldable pub fnv_from : ℕ → Bytes → ℕ
fnv_from hash [] = hash
fnv_from hash (b ∷ bs) = fnv_from (fnv_step hash b) bs

unfoldable pub fnv1a : Bytes → ℕ
unfolding fnv_step fnv_from
fnv1a bytes = fnv_from 0xcbf29ce484222325 bytes

fnv_from-IsU64 : (hash : ℕ) (bs : Bytes) → IsU64 hash → IsU64 (fnv_from hash bs)
unfolding fnv_from fnv_step
fnv_from-IsU64 hash [] h = h
fnv_from-IsU64 hash (b ∷ bs) h = fnv_from-IsU64 (fnv_step hash b) bs (omega arith)

-- The hash is a 64-bit word, so its eight bytes hold it whole.
pub fnv1a-IsU64 : (bs : Bytes) → IsU64 (fnv1a bs)
unfolding fnv1a
fnv1a-IsU64 bs = fnv_from-IsU64 _ bs (omega arith)
