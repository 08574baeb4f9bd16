-- ===== src/Tests/Faults.antt =====
-- A store with one table whose next flush tears the new table.
use sift_core.MemTable
use sift_core.Lsm
use sift_core.MemTable.Reads.{new-IsValid}
use sift_core.MemTable.{MemTable}
use sift_core.Bytes.{bytes_eq, cmp_bytes, le_bytes, u32_le, u64_le}
use sift_core.Disk.{create, write, sync_data, Disk, pass, fail, lookup, name_eq, sst_tmp}
use sift_core.Key.{Entry, Value}
use sift_core.Lsm.{LsmEngine, flush, put}
use sift_core.Lsm.Durable.{put_record, after_write}
use sift_core.Lsm.FlushedReads.{get-flush_faulty}
use sift_core.Lsm.FaultyPuts.{put_faulty}
use sift_core.Lsm.Puts.{logged_engine}
use sift_core.Sstable.Versions.{versions}
use sift_core.Wal
use sift_core.Lsm.Flushes.{FlushRoom}
use sift_core.Lsm.Tables.{IsStore, Few, IsStore-wal}
use sift_core.Lsm.Writes.{after_write-IsStore}
use sift_core.Prelude.{some, ◌⊎◌, if◌then◌else◌, ◌≡◌, [], ◌∷◌, List, refl, arith, ltb→lt}
use sift_core.Sstable.{value_bytes, encode_entry, new_writer, add_entries}
use sift_core.Compaction.{finish_and_rename}
use sift_core.Result.{ok, err, os_fault}
use sift_core.Tests.Data.{key_a, key_b}
use sift_core.Tests.OldStore.{old_disk, newest_run, newest_small, table, entry-Fits}

-- The second operation, the write of the table, stops after five bytes.
abbrev torn_disk : Disk
torn_disk = record { files = old_disk.files; faults = pass ∷ fail 5 ∷ [] }

abbrev one_table : LsmEngine
one_table = record {
  wal = record { buffer = [] };
  memtable = MemTable.new;
  tiers = table 3 key_b ∷ [];
  next_seq = 4;
  next_sst_id = 4;
  flush_threshold_bytes = 1;
}

abbrev one_run : List (List Entry)
one_run = newest_run ∷ []

one_table-IsStore : IsStore one_table torn_disk one_run
unfolding MemTable.new value_bytes lookup name_eq
one_table-IsStore = record {
  valid = new-IsValid;
  fits = tt;
  stored = (
    record {
      from = sst_tmp 3;
      expected = 1;
      fits =
          (entry-Fits key_b 3 (Value.put (9 ∷ [])) (omega arith) (omega arith) (omega arith), tt);
      sorted = (tt, tt);
      small = newest_small;
      count = refl;
      found = refl;
    },
    tt,
  );
  aged = (tt, ((tt, tt), tt));
  older = (omega arith, tt);
  named = ((3, refl, omega arith), tt);
}

abbrev written_table : LsmEngine
written_table = after_write one_table (put_record one_table key_a (5 ∷ [])) one_table.wal

written_table-IsStore : IsStore written_table torn_disk one_run
unfolding value_bytes
written_table-IsStore =
    after_write-IsStore one_table torn_disk torn_disk one_run (put_record one_table key_a (5 ∷ []))
      one_table.wal one_table-IsStore refl
      (entry-Fits key_a 4 (Value.put (5 ∷ [])) (omega arith) (omega arith) (omega arith))
      (omega arith) (refl, tt)

written_table-FlushRoom : FlushRoom written_table one_run
unfolding Lsm.apply_record MemTable.put MemTable.new encode_entry u32_le u64_le le_bytes value_bytes
written_table-FlushRoom = record {
  numbers = omega arith;
  estimate = ltb→lt _ _ refl;
  bounded = ltb→lt _ _ refl;
}

flush_torn : (flush written_table torn_disk).0 ≡ err os_fault
unfolding flush Lsm.apply_record MemTable.put MemTable.new MemTable.is_empty new_writer add_entries
    create finish_and_rename write
flush_torn = refl

get-flush_faulty_example :
    (runs' : List (List Entry)) × IsStore
      (flush written_table torn_disk).1
      (flush written_table torn_disk).2
      runs'
    × Few key_b ((flush written_table torn_disk).1.memtable.entries ∷ runs')
    × (Lsm.get (flush written_table torn_disk).1 key_b (flush written_table torn_disk).2
        ≡ Lsm.get written_table key_b torn_disk)
unfolding versions bytes_eq cmp_bytes Lsm.apply_record MemTable.put MemTable.new
get-flush_faulty_example =
    get-flush_faulty written_table torn_disk one_run key_b written_table-IsStore
      written_table-FlushRoom (omega arith, (omega arith, tt)) (omega arith)

-- The log takes the record, and the write of the table that follows stops after five bytes.
abbrev late_torn_disk : Disk
late_torn_disk = record { files = old_disk.files; faults = pass ∷ pass ∷ pass ∷ fail 5 ∷ [] }

put_torn : (put key_a (5 ∷ []) one_table late_torn_disk).0 ≡ err os_fault
unfolding put Wal.sync MemTable.put MemTable.new MemTable.is_empty new_writer add_entries create
    finish_and_rename write sync_data
put_torn = refl

logged_table-FlushRoom :
    FlushRoom (logged_engine one_table late_torn_disk (put_record one_table key_a (5 ∷ []))) one_run
unfolding Lsm.apply_record MemTable.put MemTable.new encode_entry u32_le u64_le le_bytes value_bytes
logged_table-FlushRoom = record {
  numbers = omega arith;
  estimate = ltb→lt _ _ refl;
  bounded = ltb→lt _ _ refl;
}

put_faulty_example :
    (Lsm.get
        (put key_a (5 ∷ []) one_table late_torn_disk).1
        key_b
        (put key_a (5 ∷ []) one_table late_torn_disk).2
      ≡ Lsm.get one_table key_b late_torn_disk)
    ⊎ (Lsm.get
          (put key_a (5 ∷ []) one_table late_torn_disk).1
          key_b
          (put key_a (5 ∷ []) one_table late_torn_disk).2
        ≡ (if bytes_eq key_a key_b
            then ok (some (5 ∷ []))
            else Lsm.get one_table key_b late_torn_disk))
unfolding value_bytes versions bytes_eq cmp_bytes Lsm.apply_record MemTable.put MemTable.new
put_faulty_example =
    put_faulty key_a (5 ∷ []) one_table late_torn_disk one_run key_b
      (IsStore-wal one_table torn_disk late_torn_disk one_run one_table.wal one_table-IsStore
        (refl, tt))
      (entry-Fits key_a 4 (Value.put (5 ∷ [])) (omega arith) (omega arith) (omega arith))
      (omega arith) logged_table-FlushRoom (omega arith) (omega arith, (omega arith, tt))
