-- ===== src/Tests/Table.antt =====
-- Runs of the table and of the memtable.
use sift_core.Sstable.Table
use sift_core.Sstable.Bloom
use sift_core.MemTable
use sift_core.MemTable.{MemTable}
use sift_core.MemTable.Reads
use sift_core.MemTable.Reads.{new-IsValid, write-IsValid}
use sift_core.Key.{max_seq, Value, cmp, Entry}
use sift_core.Key.Order.{IsSorted}
use sift_core.Key.Snapshot.{find_visible, find_visible-IsNewest, IsNewest}
use sift_core.Sstable.{
  encode_entry, value_bytes, new_writer, add_entries, encode_index, encode_footer, file_bytes,
  add_entry,
}
use sift_core.Sstable.Table.{read_record, open_bytes, index_key, search_position}
use sift_core.Sstable.Records.{Fits}
use sift_core.Tests.Data.{key_a, key_b, internal, three_entries}
use sift_core.Bytes.{cmp_bytes, from_le, u32_le, u64_le, bytes_eq, le_bytes}
use sift_core.Prelude.{
  ◌+◌, ◌/◌, ◌≡◌, refl, some, [], ◌∷◌, arith, All, ◌^◌, ◌<◌, true, none, ltb→lt, length, ℕ, zero,
  suc, List,
}
use sift_core.Result.{ok}
use sift_core.Disk.{sst, sst_tmp}
use sift_core.Sstable.Sparse.{length-sparse_index}
use sift_core.Sstable.Bloom.{with_capacity, might_contain}
use sift_core.Sstable.Bloom.Marks.{with_capacity-IsValid}
use sift_core.Sstable.Bloom.Members.{add_all, no_false_negatives}
use sift_core.Sstable.OpenBack.{table_of, open_bytes-file_bytes}
use sift_core.Sstable.ReadBack.{write_run, write_run-WriterFits, get-write_run}
use sift_core.Reader.{read_exact}
use sift_core.Sstable.Versions.{versions}

pub IsValid-two :
    MemTable.Reads.IsValid
      (MemTable.delete (MemTable.put MemTable.new key_a (7 ∷ 8 ∷ []) 1) key_a 2)
IsValid-two =
    (write-IsValid (MemTable.put MemTable.new key_a (7 ∷ 8 ∷ []) 1) key_a [] 2 (omega arith)
      (write-IsValid MemTable.new key_a (7 ∷ 8 ∷ []) 1 (omega arith) new-IsValid).0).1

pub three_entries-IsSorted : IsSorted three_entries
unfolding cmp cmp_bytes
three_entries-IsSorted = ((refl, (refl, tt)), ((refl, tt), (tt, tt)))

find_visible-IsNewest_example : IsNewest key_a 1 three_entries (find_visible key_a 1 three_entries)
find_visible-IsNewest_example = find_visible-IsNewest key_a 1 three_entries three_entries-IsSorted

pub three_entries-Fits : All Fits three_entries
unfolding value_bytes
three_entries-Fits = (
  record { key = omega arith; seq = omega arith; val = omega arith },
  (
    record { key = omega arith; seq = omega arith; val = omega arith },
    (record { key = omega arith; seq = omega arith; val = omega arith }, tt),
  ),
)

pub small_file : length (file_bytes (write_run (sst 1) 1 three_entries)) < 2 ^ 60
unfolding file_bytes add_entries new_writer encode_index encode_footer Bloom.add with_capacity
    encode_entry u32_le u64_le le_bytes value_bytes add_entry
small_file = ltb→lt _ _ refl

get-write_run_example :
    (open_bytes (sst 2) (file_bytes (write_run (sst 1) 1 three_entries))
      ≡ ok (table_of (sst 2) (write_run (sst 1) 1 three_entries)))
    × (Table.get (table_of (sst 2) (write_run (sst 1) 1 three_entries)) key_a 1
        ≡ ok (find_visible key_a 1 three_entries))
unfolding versions bytes_eq
get-write_run_example =
    get-write_run (sst 1) 1 three_entries three_entries-Fits small_file (sst 2) key_a 1
      three_entries-IsSorted (omega arith)

open_bytes-file_bytes_example :
    open_bytes (sst 2) (file_bytes (write_run (sst 1) 1 three_entries))
    ≡ ok (table_of (sst 2) (write_run (sst 1) 1 three_entries))
open_bytes-file_bytes_example =
    open_bytes-file_bytes (write_run (sst 1) 1 three_entries)
      (write_run-WriterFits (sst 1) 1 three_entries three_entries-Fits small_file) (sst 2)

no_false_negatives_example :
    might_contain (add_all (key_a ∷ key_b ∷ []) (with_capacity 2)) key_b ≡ ok true
no_false_negatives_example =
    no_false_negatives (key_a ∷ []) [] key_b (with_capacity 2) (with_capacity-IsValid 2)

-- A run of the whole path: the table of three entries answers each snapshot.
table_reads :
    (Table.get (table_of (sst 2) (write_run (sst 1) 1 three_entries)) key_a 5
      ≡ ok (some Value.delete))
    × (Table.get (table_of (sst 2) (write_run (sst 1) 1 three_entries)) key_a 1
        ≡ ok (some (Value.put (7 ∷ 8 ∷ []))))
    × (Table.get (table_of (sst 2) (write_run (sst 1) 1 three_entries)) key_a 0 ≡ ok none)
unfolding Table.get add_entries Bloom.add new_writer with_capacity u32_le u64_le cmp_bytes
    read_exact file_bytes from_le
table_reads = (refl, refl, refl)

-- Versions `n` to 1 of one key; each writes its number.
unfoldable countdown : ℕ → List Entry
countdown zero = []
countdown (suc n) = (internal key_a (suc n), Value.put (suc n ∷ [])) ∷ countdown n

-- With 48 versions the key heads three blocks, and the scan begins behind the newest versions: a
-- read at the newest snapshot returns a stale value.
stale_read :
    Table.get (table_of (sst 1) (write_run (sst 1) 48 (countdown 48))) key_a max_seq
    ≡ ok (some (Value.put (32 ∷ [])))
unfolding Table.get add_entries Bloom.add new_writer with_capacity u32_le u64_le cmp_bytes
    read_exact file_bytes from_le countdown
stale_read = refl

length-sparse_index_example :
    length (write_run (sst_tmp 1) 3 three_entries).sparse_index ≡ (length three_entries + 15) / 16
length-sparse_index_example = length-sparse_index (sst_tmp 1) 3 three_entries
