-- ===== src/Tests/Flushes.antt =====
-- Runs of a flush that meets an older table.
use sift_core.MemTable
use sift_core.Sstable.Bloom
use sift_core.Wal
use sift_core.Lsm.{LsmEngine, get_at, flush}
use sift_core.Lsm.Open.{recover}
use sift_core.Lsm.Durable.{IsDurable}
use sift_core.Wal.Replay.{encode_all}
use sift_core.Tests.Data.{key_a, key_b, two_records, engine, three_entries}
use sift_core.Disk.{
  write, wal_log, sst, sst_tmp, Disk, name_eq, lookup, store, create, sync_data, rename, contents,
  without,
}
use sift_core.MemTable.{MemTable}
use sift_core.Prelude.{some, ◌≡◌, refl, [], ◌∷◌, arith, ltb→lt, ◌^◌, ◌<◌, length}
use sift_core.Result.{ok}
use sift_core.Wal.{Wal}
use sift_core.Bytes.{bytes_eq, le_bytes, u32_le, u64_le, cmp_bytes}
use sift_core.Lsm.Flush.{flush_writer}
use sift_core.Sstable.{
  file_bytes, new_writer, value_bytes, encode_entry, add_entry, add_entries, encode_index,
  encode_footer,
}
use sift_core.Sstable.ReadBack.{write_run}
use sift_core.Compaction.{finish_and_rename, should_compact}
use sift_core.Key.{cmp}
use sift_core.Sstable.Bloom.{with_capacity}
use sift_core.Sstable.Versions.{versions}
use sift_core.Lsm.FlushWhole.{get_at-flush, flush-IsDurable}
use sift_core.Tests.Store.{engine-IsValid, flushed-Fits}

-- The engine and its directory with an older table.
abbrev engine_tables : LsmEngine
engine_tables = record engine {
  tiers = record { path = sst 7; min_key = key_a; max_key = key_b; entry_count = 3 } ∷ [];
  next_sst_id = 8;
}

abbrev disk_tables : Disk
disk_tables = record {
  files =
      (wal_log, encode_all two_records)
      ∷ (sst 7, file_bytes (write_run (sst_tmp 7) 1 three_entries))
      ∷ [];
  faults = [];
}

flush_tables_answers : (flush engine_tables disk_tables).0 ≡ ok tt
unfolding flush create finish_and_rename write sync_data rename lookup store name_eq add_entries
    recover MemTable.delete MemTable.put MemTable.new cmp cmp_bytes new_writer MemTable.is_empty
    Wal.reset should_compact
flush_tables_answers = refl

flush_tables_small : length (file_bytes (flush_writer 8 engine.memtable)) < 2 ^ 60
unfolding file_bytes add_entries new_writer encode_index encode_footer Bloom.add with_capacity
    encode_entry u32_le u64_le le_bytes value_bytes add_entry recover MemTable.delete MemTable.put
    MemTable.new cmp cmp_bytes
flush_tables_small = ltb→lt _ _ refl

get_at-flush_example :
    get_at (flush engine_tables disk_tables).1 key_b 3 (flush engine_tables disk_tables).2
    ≡ get_at engine_tables key_b 3 disk_tables
unfolding versions bytes_eq recover MemTable.delete MemTable.put MemTable.new cmp cmp_bytes name_eq
get_at-flush_example =
    get_at-flush engine_tables disk_tables key_b 3
      (engine-IsValid, flushed-Fits, flush_tables_small) ((refl, refl), tt) (refl, tt) (omega arith)
      (omega arith) flush_tables_answers

flush-IsDurable_example :
    IsDurable (flush engine_tables disk_tables).1 (flush engine_tables disk_tables).2 []
unfolding MemTable.is_empty recover MemTable.delete MemTable.put MemTable.new cmp cmp_bytes
flush-IsDurable_example =
    flush-IsDurable engine_tables disk_tables refl (omega arith) refl flush_tables_answers

-- A log that holds bytes back writes them behind the truncation, when the flush replaces it.
held_back_run :
    lookup wal_log
      (flush (record engine_tables { wal = record { buffer = 1 ∷ 2 ∷ [] } }) disk_tables).2.files
    ≡ some (1 ∷ 2 ∷ [])
unfolding flush create finish_and_rename write sync_data rename lookup store name_eq add_entries
    recover MemTable.delete MemTable.put MemTable.new cmp cmp_bytes new_writer MemTable.is_empty
    Wal.reset should_compact Wal.drop_writer contents without
held_back_run = refl
