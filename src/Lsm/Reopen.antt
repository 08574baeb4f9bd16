-- ===== src/Lsm/Reopen.antt =====
-- A restart: `open` builds the memtable again from the log.
use sift_core.MemTable
use sift_core.Lsm.Durable.{IsDurable}
use sift_core.Wal.Replay.{encode_all, replay_bytes-encode_all_self}
use sift_core.Wal
use sift_core.Wal.{WalRecord, Wal}
use sift_core.Lsm.{LsmEngine}
use sift_core.Lsm.Open.{open_engine, assemble, recover, max_seq_of}
use sift_core.Disk.{Disk}
use sift_core.MemTable.{MemTable}
use sift_core.Prelude.{◌+◌, ◌%◌, ◌^◌, ◌≡◌, ap, ◌∙◌, List, arith}
use sift_core.Result.{ok}
use sift_core.Wal.Torn.{replay-of_bytes}

pub replay-IsDurable :
    (db : LsmEngine) (d : Disk) (rs : List WalRecord) → IsDurable db d rs → Wal.replay d ≡ ok rs
unfolding IsDurable
replay-IsDurable db d rs (clean, holds, same, all) =
    replay-of_bytes d (encode_all rs) holds ∙ ap ok (replay_bytes-encode_all_self rs all)

assembled :
    (rs : List WalRecord) (w : Wal) (d : Disk) (db : LsmEngine)
    → (assemble rs w d).0 ≡ ok db
    → (db.memtable ≡ recover MemTable.new rs) × (db.next_seq ≡ (max_seq_of 0 rs + 1) % 2 ^ 64)
unfolding assemble
assembled rs w d db h = ground arith

pub opened :
    (d : Disk) (rs : List WalRecord) (db : LsmEngine)
    → Wal.replay d ≡ ok rs
    → (open_engine d).0 ≡ ok db
    → (db.memtable ≡ recover MemTable.new rs) × (db.next_seq ≡ (max_seq_of 0 rs + 1) % 2 ^ 64)
unfolding open_engine
opened d rs db r h = ground (arith, r, assembled rs)
