-- ===== src/Sstable/Bloom.antt =====
-- src/sstable.rs, the Bloom filter.
pub mod Marks
pub mod Members
use sift_core.Bits.{is_clear, set_bit}
use sift_core.Bytes.{Bytes}
use sift_core.Hash.{fnv_step, fnv1a}
use sift_core.Prelude.{
  ℕ, zero, suc, ◌+◌, ◌*◌, ◌/◌, ◌%◌, ◌^◌, max, Bool, true, false, none, some, ◌==◌, if◌then◌else◌,
  get_elem?, set, get_or, replicate,
}
use sift_core.Result.{Result, ok, panicked}

pub record BloomFilter : Type 0 where
  pub bits : Bytes
  pub num_bits : ℕ
  pub num_hashes : ℕ

abbrev pub bits_per_key : ℕ
bits_per_key = 10

-- `(10 as f64 * LN_2).round().clamp(1.0, 30.0) as u32`.
abbrev pub hashes_per_key : ℕ
hashes_per_key = 7

-- `BloomFilter::with_capacity`.
unfoldable pub with_capacity : ℕ → BloomFilter
with_capacity expected_entries =
    let num_bits = max (max expected_entries 1 * bits_per_key % 2 ^ 64) 64 in
    record {
      bits = replicate ((num_bits + 7) / 8) 0;
      num_bits = num_bits;
      num_hashes = hashes_per_key;
    }

-- `BloomFilter::hashes`: the second hash is one more round of FNV-1a, on the byte 1.
unfoldable pub hashes : Bytes → ℕ × ℕ
unfolding fnv1a fnv_step
hashes key = (fnv1a key, fnv_step (fnv1a key) 1)

-- The bit of round `i`.
unfoldable pub bit_of : BloomFilter → ℕ → ℕ → ℕ → ℕ
bit_of bf h1 h2 i = (h1 + i * h2 % 2 ^ 64) % 2 ^ 64 % bf.num_bits

-- The rounds of `add` from `i` on.
unfoldable pub add_loop : ℕ → ℕ → ℕ → ℕ → BloomFilter → BloomFilter
unfolding bit_of
add_loop zero i h1 h2 bf = bf
add_loop (suc n) i h1 h2 bf =
    let bit = bit_of bf h1 h2 i in
    add_loop n (i + 1) h1 h2
      (record bf { bits = set bf.bits (bit / 8) (set_bit (get_or bf.bits (bit / 8) 0) (bit % 8)) })

-- `BloomFilter::add`. The index is in range for a valid filter (`bit_of_in_range`).
unfoldable pub add : BloomFilter → Bytes → BloomFilter
unfolding add_loop hashes
add bf key = let (h1, h2) = hashes key in add_loop bf.num_hashes 0 h1 h2 bf

-- The rounds of `might_contain` from `i` on. A remainder by 0 and an index out of range panic.
unfoldable pub might_loop : ℕ → ℕ → ℕ → ℕ → BloomFilter → Result Bool
unfolding bit_of
might_loop zero i h1 h2 bf = ok true
might_loop (suc n) i h1 h2 bf =
    let bit = bit_of bf h1 h2 i in
    let rest = might_loop n (i + 1) h1 h2 bf in
    if bf.num_bits == 0 then panicked else elim (get_elem? bf.bits (bit / 8)) [
      | none ↦ panicked
      | some byte ↦ if is_clear byte (bit % 8) then ok false else rest
    ]

-- `BloomFilter::might_contain`.
unfoldable pub might_contain : BloomFilter → Bytes → Result Bool
unfolding might_loop hashes
might_contain bf key = let (h1, h2) = hashes key in might_loop bf.num_hashes 0 h1 h2 bf

-- `BloomFilter::from_raw`.
unfoldable pub from_raw : Bytes → ℕ → ℕ → BloomFilter
from_raw bits num_bits num_hashes = record {
  bits = bits;
  num_bits = num_bits;
  num_hashes = num_hashes;
}
