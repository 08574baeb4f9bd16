-- ===== src/Sstable.antt =====
-- src/sstable.rs: the immutable sorted table on disk. The writer, the reader and the file format.
pub mod Bloom
pub mod Table
pub mod Iter
pub mod Records
pub mod Blocks
pub mod Search
pub mod Written
pub mod Sparse
pub mod IndexBack
pub mod OpenBack
pub mod Versions
pub mod Lookup
pub mod ReadBack
pub mod Scan
use sift_core.Bytes.{Bytes, u32_le, u64_le}
use sift_core.Disk.{FileName}
use sift_core.Key.{Value, Entry}
use sift_core.Prelude.{
  ℕ, ◌+◌, ◌*◌, ◌%◌, Option, none, some, List, [], ◌∷◌, ◌++◌, ◌==◌, if◌then◌else◌, length,
}
use sift_core.Sstable.Bloom.{BloomFilter, with_capacity}

abbrev pub sparse_interval : ℕ
sparse_interval = 16

abbrev pub footer_magic : ℕ
footer_magic = 0x7470_7566_6665_7221

abbrev pub footer_size : ℕ
footer_size = 8 * 7

pub record SstableMeta : Type 0 where
  pub path : FileName
  pub min_key : Bytes
  pub max_key : Bytes
  pub entry_count : ℕ

-- `struct SSTableWriter`. `data_block` is what went through its `BufWriter`.
pub record SstableWriter : Type 0 where
  pub path : FileName
  pub data_block : Bytes
  pub offset : ℕ
  pub sparse_index : List (Bytes × ℕ)
  pub bloom : BloomFilter
  pub entries_since_index : ℕ
  pub entry_count : ℕ
  pub min_key : Option Bytes
  pub max_key : Bytes

-- The writer that `SSTableWriter::create` returns.
unfoldable pub new_writer : FileName → ℕ → SstableWriter
new_writer path expected_entries = record {
  path = path;
  data_block = [];
  offset = 0;
  sparse_index = [];
  bloom = with_capacity expected_entries;
  entries_since_index = 0;
  entry_count = 0;
  min_key = none;
  max_key = [];
}

-- `match value { Put(v) => (0, v), Delete => (1, []) }`.
unfoldable pub value_op : Value → ℕ
value_op (Value.put v) = 0
value_op Value.delete = 1

unfoldable pub value_bytes : Value → Bytes
value_bytes (Value.put v) = v
value_bytes Value.delete = []

-- The bytes of an entry.
unfoldable pub encode_entry : Entry → Bytes
unfolding value_op value_bytes
encode_entry (ik, value) =
    u32_le (length ik.user_key)
    ++ (ik.user_key
        ++ (u64_le ik.seq
            ++ ((value_op value ∷ [])
                ++ (u32_le (length (value_bytes value)) ++ value_bytes value))))

-- `SSTableWriter::add`.
unfoldable pub add_entry : SstableWriter → Entry → SstableWriter
unfolding encode_entry
add_entry w (ik, value) =
    let record_bytes = encode_entry (ik, value) in
    record {
      path = w.path;
      data_block = w.data_block ++ record_bytes;
      offset = w.offset + length record_bytes;
      sparse_index =
          if w.entries_since_index == 0
          then w.sparse_index ++ ((ik.user_key, w.offset) ∷ [])
          else w.sparse_index;
      bloom = Bloom.add w.bloom ik.user_key;
      entries_since_index = (w.entries_since_index + 1) % sparse_interval;
      entry_count = w.entry_count + 1;
      min_key = elim w.min_key [ none ↦ some ik.user_key | some k ↦ some k ];
      max_key = ik.user_key;
    }

unfoldable pub add_entries : SstableWriter → List Entry → SstableWriter
unfolding add_entry
add_entries w [] = w
add_entries w (e ∷ es) = add_entries (add_entry w e) es

-- The bytes of the sparse index.
unfoldable pub encode_index : List (Bytes × ℕ) → Bytes
encode_index [] = []
encode_index ((key, off) ∷ rest) = u32_le (length key) ++ (key ++ (u64_le off ++ encode_index rest))

-- The bytes that `SSTableWriter::finish` puts behind the data block.
unfoldable pub encode_footer : SstableWriter → ℕ → ℕ → Bytes
encode_footer w index_offset bloom_offset =
    u64_le index_offset
    ++ (u64_le (length w.sparse_index)
        ++ (u64_le bloom_offset
            ++ (u64_le w.bloom.num_bits
                ++ (u64_le w.bloom.num_hashes ++ (u64_le w.entry_count ++ u64_le footer_magic)))))

-- The whole file.
unfoldable pub file_bytes : SstableWriter → Bytes
unfolding encode_index encode_footer
file_bytes w =
    let index_buf = encode_index w.sparse_index in
    w.data_block
    ++ (index_buf ++ (w.bloom.bits ++ encode_footer w w.offset (w.offset + length index_buf)))

-- What `SSTableWriter::finish` returns.
unfoldable pub meta_of : SstableWriter → SstableMeta
meta_of w = record {
  path = w.path;
  min_key = elim w.min_key [ none ↦ [] | some k ↦ k ];
  max_key = w.max_key;
  entry_count = w.entry_count;
}
