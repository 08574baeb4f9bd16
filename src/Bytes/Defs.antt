-- ===== src/Bytes/Defs.antt =====
-- The definitions of `Bytes`.
use sift_core.Prelude.{
  ℕ, zero, suc, ◌+◌, ◌*◌, ◌/◌, ◌%◌, ◌^◌, ◌<◌, List, [], ◌∷◌, compare, Ordering, Bool, true, false,
}

abbrev pub Bytes : Type 0
Bytes = List ℕ

abbrev pub IsByte : ℕ → Type 0
IsByte b = b < 256

abbrev pub IsU32 : ℕ → Type 0
IsU32 v = v < 2 ^ 32

abbrev pub IsU64 : ℕ → Type 0
IsU64 v = v < 2 ^ 64

-- `v.to_le_bytes()` at a width of `n` bytes.
unfoldable pub le_bytes : ℕ → ℕ → Bytes
le_bytes zero v = []
le_bytes (suc n) v = (v % 256) ∷ le_bytes n (v / 256)

-- `from_le_bytes`.
unfoldable pub from_le : Bytes → ℕ
from_le [] = 0
from_le (b ∷ bs) = b + 256 * from_le bs

-- `(n as u32).to_le_bytes()`: the cast of a `usize` wraps.
unfoldable pub u32_le : ℕ → Bytes
unfolding le_bytes
u32_le n = le_bytes 4 (n % 2 ^ 32)

unfoldable pub u64_le : ℕ → Bytes
unfolding le_bytes
u64_le n = le_bytes 8 n

-- `<[u8] as Ord>::cmp`.
unfoldable pub cmp_bytes : Bytes → Bytes → Ordering
cmp_bytes [] [] = Ordering.eq
cmp_bytes [] (b ∷ bs) = Ordering.lt
cmp_bytes (a ∷ as') [] = Ordering.gt
cmp_bytes (a ∷ as') (b ∷ bs) = elim (compare a b) [
  | Ordering.lt ↦ Ordering.lt
  | Ordering.eq ↦ cmp_bytes as' bs
  | Ordering.gt ↦ Ordering.gt
]

-- `==` on slices.
unfoldable pub bytes_eq : Bytes → Bytes → Bool
unfolding cmp_bytes
bytes_eq a b = elim (cmp_bytes a b) [ Ordering.eq ↦ true | _ ↦ false ]
