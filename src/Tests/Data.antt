-- ===== src/Tests/Data.antt =====
-- The inputs that the tests share.
use sift_core.MemTable
use sift_core.Wal.{WalRecord, Op}
use sift_core.Key.{InternalKey, Value, Entry}
use sift_core.Disk.{Disk, wal_log, Fault}
use sift_core.Lsm.{LsmEngine}
use sift_core.Lsm.Open.{recover}
use sift_core.Wal.Replay.{encode_all}
use sift_core.Bytes.{Bytes}
use sift_core.MemTable.{MemTable}
use sift_core.Prelude.{ℕ, List, [], ◌∷◌}

abbrev pub key_a : Bytes
key_a = 97 ∷ []

abbrev pub key_b : Bytes
key_b = 98 ∷ 99 ∷ []

abbrev pub put_a : WalRecord
put_a = record { seq = 1; op = Op.put; key = key_a; val = 7 ∷ 8 ∷ [] }

abbrev pub delete_a : WalRecord
delete_a = record { seq = 2; op = Op.delete; key = key_a; val = [] }

abbrev pub two_records : List WalRecord
two_records = put_a ∷ delete_a ∷ []

abbrev pub internal : Bytes → ℕ → InternalKey
internal key seq = record { user_key = key; seq = seq }

abbrev pub three_entries : List Entry
three_entries =
    (internal key_a 2, Value.delete)
    ∷ (internal key_a 1, Value.put (7 ∷ 8 ∷ []))
    ∷ (internal key_b 3, Value.put (9 ∷ []))
    ∷ []

-- A directory whose log holds the two records; its next write tears after five bytes.
abbrev pub torn_disk : Disk
torn_disk = record { files = (wal_log, encode_all two_records) ∷ []; faults = Fault.fail 5 ∷ [] }

-- The same directory without a fault.
abbrev pub calm_disk : Disk
calm_disk = record { files = (wal_log, encode_all two_records) ∷ []; faults = [] }

-- An engine that has logged the two records.
abbrev pub engine : LsmEngine
engine = record {
  wal = record { buffer = [] };
  memtable = recover MemTable.new two_records;
  tiers = [];
  next_seq = 3;
  next_sst_id = 1;
  flush_threshold_bytes = 4096;
}
