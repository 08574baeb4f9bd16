-- ===== src/Tests/OldStore.antt =====
-- A store with three tables.
use sift_core.HashMap.{bytes_key}
use sift_core.MemTable
use sift_core.MemTable.Reads.{new-IsValid}
use sift_core.Sstable.Records.{Fits}
use sift_core.MemTable.{MemTable}
use sift_core.Lsm.{LsmEngine}
use sift_core.Bytes.{Bytes, le_bytes, u32_le, u64_le, cmp_bytes, bytes_eq}
use sift_core.Compaction.Size.{write_run_small}
use sift_core.Disk.{wal_log, sst, sst_tmp, Disk, name_eq, lookup}
use sift_core.Key.{Value, Entry, Seq}
use sift_core.Prelude.{ℕ, ◌^◌, ◌<◌, refl, List, [], ◌∷◌, arith, ltb→lt, length}
use sift_core.Sstable.{SstableMeta, file_bytes, value_bytes, encode_entry}
use sift_core.Sstable.ReadBack.{write_run}
use sift_core.Tests.Data.{key_a, key_b, internal}
use sift_core.Lsm.Tables.{IsStore, Few}
use sift_core.Sstable.Versions.{versions}

-- Three tables: the oldest has a value of the key, the next deletes it, the newest has another key.
abbrev pub oldest_run : List Entry
oldest_run = (internal key_a 1, Value.put (7 ∷ [])) ∷ []

abbrev pub middle_run : List Entry
middle_run = (internal key_a 2, Value.delete) ∷ []

abbrev pub newest_run : List Entry
newest_run = (internal key_b 3, Value.put (9 ∷ [])) ∷ []

abbrev pub old_runs : List (List Entry)
old_runs = newest_run ∷ middle_run ∷ oldest_run ∷ []

abbrev pub table : ℕ → Bytes → SstableMeta
table id key = record { path = sst id; min_key = key; max_key = key; entry_count = 1 }

abbrev pub old_tables : List SstableMeta
old_tables = table 3 key_b ∷ table 2 key_a ∷ table 1 key_a ∷ []

abbrev pub old_disk : Disk
old_disk = record {
  files =
      (wal_log, [])
      ∷ (sst 1, file_bytes (write_run (sst_tmp 1) 1 oldest_run))
      ∷ (sst 2, file_bytes (write_run (sst_tmp 2) 1 middle_run))
      ∷ (sst 3, file_bytes (write_run (sst_tmp 3) 1 newest_run))
      ∷ [];
  faults = [];
}

-- Every write of this engine reaches its threshold.
abbrev pub old_store : LsmEngine
old_store = record {
  wal = record { buffer = [] };
  memtable = MemTable.new;
  tiers = old_tables;
  next_seq = 4;
  next_sst_id = 4;
  flush_threshold_bytes = 1;
}

oldest_small : length (file_bytes (write_run (sst_tmp 1) 1 oldest_run)) < 2 ^ 60
unfolding encode_entry u32_le u64_le le_bytes value_bytes
oldest_small = write_run_small (sst_tmp 1) 1 oldest_run (ltb→lt _ _ refl) (omega arith)

middle_small : length (file_bytes (write_run (sst_tmp 2) 1 middle_run)) < 2 ^ 60
unfolding encode_entry u32_le u64_le le_bytes value_bytes
middle_small = write_run_small (sst_tmp 2) 1 middle_run (ltb→lt _ _ refl) (omega arith)

pub newest_small : length (file_bytes (write_run (sst_tmp 3) 1 newest_run)) < 2 ^ 60
unfolding encode_entry u32_le u64_le le_bytes value_bytes
newest_small = write_run_small (sst_tmp 3) 1 newest_run (ltb→lt _ _ refl) (omega arith)

pub entry-Fits :
    (key : Bytes) (seq : Seq) (v : Value)
    → length key < 3
    → seq < 10
    → length (value_bytes v) < 3
    → Fits (internal key seq, v)
entry-Fits key seq v h k l = record { key = omega arith; seq = omega arith; val = omega arith }

pub old_store-IsStore : IsStore old_store old_disk old_runs
unfolding MemTable.new value_bytes lookup name_eq
old_store-IsStore = record {
  valid = new-IsValid;
  fits = tt;
  stored = (
    record {
      from = sst_tmp 3;
      expected = 1;
      fits =
          (entry-Fits key_b 3 (Value.put (9 ∷ [])) (omega arith) (omega arith) (omega arith), tt);
      sorted = (tt, tt);
      small = newest_small;
      count = refl;
      found = refl;
    },
    (
      record {
        from = sst_tmp 2;
        expected = 1;
        fits = (entry-Fits key_a 2 Value.delete (omega arith) (omega arith) (omega arith), tt);
        sorted = (tt, tt);
        small = middle_small;
        count = refl;
        found = refl;
      },
      (
        record {
          from = sst_tmp 1;
          expected = 1;
          fits = (
            entry-Fits key_a 1 (Value.put (7 ∷ [])) (omega arith) (omega arith) (omega arith),
            tt,
          );
          sorted = (tt, tt);
          small = oldest_small;
          count = refl;
          found = refl;
        },
        tt,
      ),
    ),
  );
  aged = (
    tt,
    (
      (
        (
          (λ _. (omega arith, λ e. absurd (omega arith))),
          ((λ _. (omega arith, λ e. absurd (omega arith))), tt),
        ),
        tt,
      ),
      ((((λ _. (omega arith, λ e. absurd (omega arith))), tt), tt), ((tt, tt), tt)),
    ),
  );
  older = (omega arith, (omega arith, (omega arith, tt)));
  named = ((3, refl, omega arith), ((2, refl, omega arith), ((1, refl, omega arith), tt)));
}

pub old-Few : Few key_b old_runs
unfolding versions bytes_eq cmp_bytes
old-Few = (omega arith, (omega arith, (omega arith, tt)))
