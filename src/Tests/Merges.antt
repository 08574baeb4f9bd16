-- ===== src/Tests/Merges.antt =====
-- Runs of a compaction, of a full scan and of an opening of a store with tables.
use mathlib.Core.List.{Perm}
use sift_core.HashMap
use sift_core.HashMap.{HashMap, bytes_key}
use sift_core.HashMap.Laws.{Distinct}
use sift_core.MemTable
use sift_core.Lsm
use sift_core.Wal
use sift_core.Sstable.Bloom
use sift_core.MemTable.{MemTable}
use sift_core.Lsm.{flush, delete, LsmEngine, put, live, get_at}
use sift_core.Bytes.{Bytes, le_bytes, from_le, u32_le, u64_le, cmp_bytes, bytes_eq}
use sift_core.Disk.{
  sst, sst_tmp, name_eq, lookup, without, store, create, write, sync_data, rename, read_file,
  contents,
}
use sift_core.Key.{Value, Entry, cmp, max_seq}
use sift_core.Prelude.{ℕ, ◌≡◌, refl, List, [], ◌∷◌, ltb→lt, true, none, ◌*◌, Option}
use sift_core.Result.{ok}
use sift_core.Sstable.{
  SstableMeta, file_bytes, new_writer, value_op, value_bytes, encode_entry, add_entry, add_entries,
  encode_index, encode_footer, meta_of,
}
use sift_core.Sstable.ReadBack.{write_run}
use sift_core.Tests.Data.{key_a, key_b}
use sift_core.Compaction.{
  cmp_item, pop_least, refill, is_newest_for_key, emit, merge_loop, fill_heap, bytes_left,
  finish_and_rename, compact, sum_counts, lookup_in_tiers,
}
use sift_core.Hash.{fnv_step, fnv1a}
use sift_core.Reader.{read_exact}
use sift_core.Sstable.Bloom.{with_capacity, hashes, bit_of, add_loop}
use sift_core.Sstable.Iter.{open_iter, next}
use sift_core.Sstable.Table.{footer_word, footer_of, record_body, read_record}
use sift_core.Wal.{Wal}
use sift_core.Lsm.Tables.{Few, get_at-first_found}
use sift_core.Compaction.Files.{write_table}
use sift_core.Compaction.Kept.{kept}
use sift_core.Compaction.Merged.{compact-write_table}
use sift_core.Compaction.Newest.{first_found}
use sift_core.Compaction.Reads.{Bounded, compact_reads}
use sift_core.Compaction.Stored.{flat}
use sift_core.Compaction.Surviving.{surviving, Ascending}
use sift_core.Lsm.Scan.{iter_all}
use sift_core.Lsm.ScanTables.{iter_all-get_stored}
use sift_core.Tests.OldStore.{old_runs, old_tables, old_disk, old_store, old_store-IsStore, old-Few}

-- A compaction of the three tables alone.
compact_answers :
    (compact old_tables 4 true old_disk).0
    ≡ ok (record { path = sst 4; min_key = key_b; max_key = key_b; entry_count = 1 })
unfolding create finish_and_rename write sync_data rename lookup store name_eq add_entries
    new_writer compact open_iter read_file footer_word footer_of file_bytes encode_index
    encode_footer Bloom.add with_capacity add_entry encode_entry u32_le u64_le le_bytes value_op
    value_bytes from_le next read_record record_body read_exact fill_heap refill bytes_left
    merge_loop pop_least cmp_item cmp cmp_bytes emit is_newest_for_key bytes_eq hashes fnv1a
    fnv_step add_loop bit_of without contents meta_of
compact_answers = refl

old-Bounded : Bounded old_runs
unfolding encode_entry u32_le u64_le le_bytes value_bytes
old-Bounded = ltb→lt _ _ refl

compact_reads_example :
    (found : Option Value) × (lookup_in_tiers old_tables key_b max_seq old_disk ≡ ok found)
    × (lookup_in_tiers
          (record { path = sst 4; min_key = key_b; max_key = key_b; entry_count = 1 } ∷ [])
          key_b
          max_seq
          (compact old_tables 4 true old_disk).1
        ≡ ok (kept true found))
compact_reads_example =
    compact_reads old_tables old_runs 4 true old_disk _ key_b old_store-IsStore.stored
      old_store-IsStore.aged.1 old-Few old-Bounded compact_answers

compact-write_table_example :
    (es : List Entry) × Perm es (flat old_runs)
    × Ascending es
    × (compact old_tables 4 true old_disk
        ≡ write_table
            (sst_tmp 4)
            (write_run (sst_tmp 4) (sum_counts old_tables) (surviving true none es))
            (sst 4)
            old_disk)
compact-write_table_example =
    compact-write_table old_tables old_runs 4 true old_disk old_store-IsStore.stored

get_at-first_found_example :
    get_at old_store key_b 3 old_disk ≡ ok (live (first_found key_b 3 ([] ∷ old_runs)))
unfolding MemTable.new
get_at-first_found_example =
    get_at-first_found old_store old_disk old_runs key_b 3 old_store-IsStore.valid
      old_store-IsStore.stored old-Few

iter_all-get_stored_example :
    (pairs : HashMap Bytes Bytes) × (iter_all old_store old_disk ≡ ok pairs)
    × Distinct pairs
    × ((key : Bytes)
        → Few key old_runs
        → Lsm.get old_store key old_disk ≡ ok (HashMap.get key pairs))
iter_all-get_stored_example =
    iter_all-get_stored old_store old_disk old_runs old_store-IsStore.valid old_store-IsStore.stored
      old_store-IsStore.aged

-- The directory, opened again.
abbrev reopened_table : ℕ → Bytes → SstableMeta
reopened_table id key = record { path = sst id; min_key = key; max_key = []; entry_count = 1 }

abbrev reopened_store : LsmEngine
reopened_store = record {
  wal = record { buffer = [] };
  memtable = MemTable.new;
  tiers = reopened_table 3 key_b ∷ reopened_table 2 key_a ∷ reopened_table 1 key_a ∷ [];
  next_seq = 1;
  next_sst_id = 4;
  flush_threshold_bytes = 4 * 1024 * 1024;
}
