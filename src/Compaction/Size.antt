-- ===== src/Compaction/Size.antt =====
-- How large the table of a compaction is.
use mathlib.Core.List.{Perm}
use sift_core.Sstable.Records.{encode_entries, length-encode_entry}
use sift_core.Bytes.{Bytes, u32_le, u64_le, length-u32_le, length-u64_le}
use sift_core.Compaction.Surviving.{surviving}
use sift_core.Key.{Entry}
use sift_core.Prelude.{
  ℕ, ◌+◌, ◌%◌, ◌≤◌, ◌≡◌, refl, Bool, Option, some, List, [], ◌∷◌, arith, length, length-append,
  total, ◌^◌, ◌<◌, ap, none, ◌++◌, total-Perm,
}
use sift_core.Sstable.{
  encode_entry, encode_index, new_writer, encode_footer, file_bytes, SstableMeta,
}
use sift_core.Sstable.Written.{sparse_of, keys_of, add_entries-Written}
use sift_core.Disk.{FileName, Disk}
use sift_core.Sstable.Bloom.{BloomFilter, with_capacity}
use sift_core.Sstable.Bloom.Marks.{with_capacity-IsValid}
use sift_core.Sstable.Bloom.Members.{add_all-size, with_capacity-size}
use sift_core.Sstable.OpenBack.{length-encode_footer}
use sift_core.Sstable.ReadBack.{write_run}
use sift_core.Compaction.{sum_counts}
use sift_core.Compaction.Stored.{AllStored, flat}

abbrev pub entry_size : Entry → ℕ
entry_size e = length (encode_entry e)

pub total-encode_entries : (es : List Entry) → length (encode_entries es) ≡ total entry_size es
unfolding encode_entries
total-encode_entries [] = refl
total-encode_entries (e ∷ es) =
    omega (arith, length-append (encode_entry e) (encode_entries es), total-encode_entries es)

total-surviving :
    (is_last_level : Bool) (prev : Option Bytes) (es : List Entry)
    → total entry_size (surviving is_last_level prev es) ≤ total entry_size es
unfolding surviving
total-surviving is_last_level prev [] = omega arith
total-surviving is_last_level prev (e ∷ es) = ground (
  arith,
  total-surviving is_last_level prev es,
  total-surviving is_last_level (some e.0.user_key) es,
)

-- The sparse index is no longer than the data.
encode_index-sparse_of :
    (since off : ℕ) (es : List Entry)
    → length (encode_index (sparse_of since off es)) ≤ total entry_size es
unfolding encode_index
encode_index-sparse_of since off [] = omega arith
encode_index-sparse_of since off (e ∷ es) =
    let index = encode_index (sparse_of ((since + 1) % 16) (off + length (encode_entry e)) es) in
    let rest = encode_index-sparse_of ((since + 1) % 16) (off + length (encode_entry e)) es in
    ground (
      arith,
      rest,
      length-encode_entry e,
      length-append (u32_le (length e.0.user_key)) (e.0.user_key ++ (u64_le off ++ index)),
      length-u32_le (length e.0.user_key),
      length-append e.0.user_key (u64_le off ++ index),
      length-append (u64_le off) index,
      length-u64_le off,
    )

-- The file of a run below 2 ^ 57 bytes, with a filter for fewer than 2 ^ 55 entries, stays below 2
-- ^ 60 bytes, the bound under which it is read back.
pub write_run_small :
    (path : FileName) (expected : ℕ) (es : List Entry)
    → total entry_size es < 2 ^ 57
    → expected < 2 ^ 55
    → length (file_bytes (write_run path expected es)) < 2 ^ 60
unfolding file_bytes new_writer
write_run_small path expected es small few =
    let w = write_run path expected es in
    let written = add_entries-Written (new_writer path expected) es in
    let index = encode_index w.sparse_index in
    let footer = encode_footer w w.offset (w.offset + length index) in
    omega (
      arith,
      ap length written.data_block,
      ap (λ i. length (encode_index i)) written.sparse_index,
      ap (λ (b : BloomFilter). length b.bits) written.bloom,
      add_all-size (keys_of es) (with_capacity expected) (with_capacity-IsValid expected),
      with_capacity-size expected few,
      encode_index-sparse_of 0 0 es,
      total-encode_entries es,
      length-append w.data_block (index ++ (w.bloom.bits ++ footer)),
      length-append index (w.bloom.bits ++ footer),
      length-append w.bloom.bits footer,
      length-encode_footer w w.offset (w.offset + length index),
    )

pub merged_small :
    (path : FileName) (expected : ℕ) (is_last_level : Bool) (es all : List Entry)
    → Perm es all
    → total entry_size all < 2 ^ 57
    → expected < 2 ^ 55
    → length (file_bytes (write_run path expected (surviving is_last_level none es))) < 2 ^ 60
merged_small path expected is_last_level es all same small few =
    write_run_small path expected (surviving is_last_level none es)
      (omega (arith, total-surviving is_last_level none es, total-Perm entry_size same, small)) few

length-total : (es : List Entry) → length es ≤ total entry_size es
length-total [] = omega arith
length-total (e ∷ es) = omega (arith, length-total es, length-encode_entry e)

sum_counts-length :
    (d : Disk) (ts : List SstableMeta) (runs : List (List Entry))
    → AllStored d ts runs
    → sum_counts ts ≤ length (flat runs)
unfolding sum_counts
sum_counts-length d [] [] s = omega arith
sum_counts-length d [] (es ∷ runs) s = elim s [ ]
sum_counts-length d (t ∷ ts) [] s = elim s [ ]
sum_counts-length d (t ∷ ts) (es ∷ runs) s =
    omega (arith, s.0.count, sum_counts-length d ts runs s.1, length-append es (flat runs))

-- The filter of a compaction is for no more entries than its inputs have bytes.
pub sum_counts-total :
    (d : Disk) (ts : List SstableMeta) (runs : List (List Entry))
    → AllStored d ts runs
    → sum_counts ts ≤ total entry_size (flat runs)
sum_counts-total d ts runs s =
    omega (arith, sum_counts-length d ts runs s, length-total (flat runs))
