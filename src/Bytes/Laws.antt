-- ===== src/Bytes/Laws.antt =====
-- Reading back what was written: little-endian numbers and exact reads.
use sift_core.Prelude.{ℕ, zero, suc, ◌/◌, ◌≡◌, refl, ap, arith, length, All}
use sift_core.Bytes.Defs.{IsByte, IsU32, IsU64, le_bytes, from_le, u32_le, u64_le}

pub length-le_bytes : (n v : ℕ) → length (le_bytes n v) ≡ n
unfolding le_bytes
length-le_bytes zero v = refl
length-le_bytes (suc n) v = ap suc (length-le_bytes n (v / 256))

pub length-u32_le : (v : ℕ) → length (u32_le v) ≡ 4
unfolding u32_le
length-u32_le v = refl

pub length-u64_le : (v : ℕ) → length (u64_le v) ≡ 8
unfolding u64_le
length-u64_le v = refl

pub le_bytes-IsByte : (n v : ℕ) → All IsByte (le_bytes n v)
unfolding le_bytes
le_bytes-IsByte zero v = tt
le_bytes-IsByte (suc n) v = (omega arith, le_bytes-IsByte n (v / 256))

pub from_le-u32_le : (v : ℕ) → IsU32 v → from_le (u32_le v) ≡ v
unfolding from_le u32_le
from_le-u32_le v h = omega arith

pub from_le-u64_le : (v : ℕ) → IsU64 v → from_le (u64_le v) ≡ v
unfolding from_le u64_le
from_le-u64_le v h = omega arith
