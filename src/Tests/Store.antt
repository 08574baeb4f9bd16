-- ===== src/Tests/Store.antt =====
-- Runs of the engine.
use sift_core.MemTable
use sift_core.MemTable.Reads
use sift_core.Sstable.Records
use sift_core.Lsm
use sift_core.Sstable.Bloom
use sift_core.Wal
use sift_core.Lsm.{LsmEngine, put, delete, get_at, flush_table, flush}
use sift_core.Lsm.Open.{recover, open_engine}
use sift_core.Lsm.Recovery.{recover-last_write, last_write}
use sift_core.Lsm.Durable.{
  IsDurable, put-IsDurable, put_atomic, put_record, delete_record, StaysBelow,
}
use sift_core.Wal.Replay.{Fits, encode_all}
use sift_core.Tests.Data.{key_a, key_b, two_records, torn_disk, calm_disk, engine, three_entries}
use sift_core.Tests.Log.{put_a-Fits, delete_a-Fits, put_b, put_b-Fits, calm_holds, torn_holds}
use sift_core.Disk.{
  write, wal_log, sst, sst_tmp, Disk, name_eq, lookup, without, store, create, sync_data, rename,
  read_file,
}
use sift_core.MemTable.{MemTable}
use sift_core.Prelude.{◌≡◌, refl, ◌⊎◌, [], ◌∷◌, ◌++◌, arith, ltb→lt, ◌*◌, ◌^◌, ◌<◌, length, All}
use sift_core.Result.{ok}
use sift_core.Wal.{Wal}
use sift_core.Bytes.{le_bytes, from_le, u32_le, u64_le, cmp_bytes}
use sift_core.Lsm.Flush.{flush_writer}
use sift_core.MemTable.History.{Older}
use sift_core.Sstable.{
  file_bytes, new_writer, value_bytes, encode_entry, add_entry, add_entries, encode_index,
  encode_footer,
}
use sift_core.Sstable.ReadBack.{write_run}
use sift_core.Tests.Table.{IsValid-two, three_entries-Fits}
use sift_core.Compaction.{finish_and_rename}
use sift_core.Key.{cmp}
use sift_core.Sstable.Bloom.{with_capacity}
use sift_core.Sstable.Table.{footer_word, next_index_entry, footer_of, read_blocks}

engine-IsDurable : IsDurable engine calm_disk two_records
unfolding IsDurable
engine-IsDurable = (refl, calm_holds, refl, (put_a-Fits, (delete_a-Fits, tt)))

torn_engine-IsDurable : IsDurable engine torn_disk two_records
unfolding IsDurable
torn_engine-IsDurable = (refl, torn_holds, refl, (put_a-Fits, (delete_a-Fits, tt)))

delete_b-Fits : Fits (delete_record engine key_b)
delete_b-Fits = record { seq = omega arith; key = omega arith; val = omega arith }

put_below : StaysBelow engine (put_record engine key_b (9 ∷ []))
unfolding Lsm.apply_record recover MemTable.put MemTable.delete MemTable.new
put_below = ltb→lt _ _ refl

delete_below : StaysBelow engine (delete_record engine key_b)
unfolding Lsm.apply_record recover MemTable.put MemTable.delete MemTable.new
delete_below = ltb→lt _ _ refl

put_answers : (put key_b (9 ∷ []) engine calm_disk).0 ≡ ok 3
unfolding put Wal.sync MemTable.put recover MemTable.delete MemTable.new
put_answers = refl

delete_answers : (delete key_b engine calm_disk).0 ≡ ok 3
unfolding delete Wal.sync MemTable.delete recover MemTable.put MemTable.new
delete_answers = refl

put-IsDurable_example :
    (3 ≡ engine.next_seq)
    × IsDurable
        (put key_b (9 ∷ []) engine calm_disk).1
        (put key_b (9 ∷ []) engine calm_disk).2
        (two_records ++ (put_b ∷ []))
put-IsDurable_example =
    put-IsDurable key_b (9 ∷ []) engine calm_disk 3 two_records engine-IsDurable put_b-Fits
      put_below put_answers

put_atomic_example :
    (Wal.replay (put key_b (9 ∷ []) engine torn_disk).2 ≡ ok two_records)
    ⊎ (Wal.replay (put key_b (9 ∷ []) engine torn_disk).2 ≡ ok (two_records ++ (put_b ∷ [])))
put_atomic_example =
    put_atomic key_b (9 ∷ []) engine torn_disk two_records torn_engine-IsDurable put_b-Fits
      put_below

recover-last_write_example :
    MemTable.get (recover MemTable.new two_records) key_a 1 ≡ last_write key_a 1 two_records
recover-last_write_example =
    recover-last_write two_records key_a 1
      (omega arith, omega arith, (omega arith, omega arith, tt))

pub engine-IsValid : MemTable.Reads.IsValid engine.memtable
unfolding recover Lsm.apply_record
engine-IsValid = IsValid-two

pub engine-Older : Older 3 engine.memtable.entries
unfolding recover Lsm.apply_record MemTable.put MemTable.delete MemTable.new cmp cmp_bytes
engine-Older = (omega arith, (omega arith, tt))

-- The engine that a restart gives.
abbrev reopened : LsmEngine
reopened = record engine { flush_threshold_bytes = 4 * 1024 * 1024 }

pub flushed-Fits : All Records.Fits engine.memtable.entries
unfolding recover MemTable.delete MemTable.put MemTable.new cmp cmp_bytes
flushed-Fits = (three_entries-Fits.0, (three_entries-Fits.1.0, tt))

flushed_small : length (file_bytes (flush_writer 1 engine.memtable)) < 2 ^ 60
unfolding file_bytes add_entries new_writer encode_index encode_footer Bloom.add with_capacity
    encode_entry u32_le u64_le le_bytes value_bytes add_entry recover MemTable.delete MemTable.put
    MemTable.new cmp cmp_bytes
flushed_small = ltb→lt _ _ refl

flush_answers : (flush_table engine calm_disk).0 ≡ ok tt
unfolding flush_table create finish_and_rename write sync_data rename lookup store name_eq
    add_entries recover MemTable.delete MemTable.put MemTable.new cmp cmp_bytes new_writer
flush_answers = refl

-- A directory after a flush: one table, and an empty log.
abbrev flushed_disk : Disk
flushed_disk = record {
  files = (wal_log, []) ∷ (sst 1, file_bytes (write_run (sst_tmp 1) 1 three_entries)) ∷ [];
  faults = [];
}

abbrev restarted : LsmEngine
restarted = record {
  wal = record { buffer = [] };
  memtable = MemTable.new;
  tiers = record { path = sst 1; min_key = key_a; max_key = []; entry_count = 3 } ∷ [];
  next_seq = 1;
  next_sst_id = 2;
  flush_threshold_bytes = 4 * 1024 * 1024;
}

-- The numbers of the new writes start below those in the table.
restarted_run : (open_engine flushed_disk).0 ≡ ok restarted
unfolding open_engine lookup name_eq encode_all Wal.replay Wal.open_log store without read_file
    file_bytes add_entries new_writer u32_le u64_le Bloom.add with_capacity footer_word from_le
    cmp_bytes footer_of read_blocks next_index_entry
restarted_run = refl
