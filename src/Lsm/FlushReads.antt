-- ===== src/Lsm/FlushReads.antt =====
-- A flush leaves every read as it was.
use sift_core.MemTable
use sift_core.MemTable.Reads.{get-eq-find_visible}
use sift_core.Lsm.{LsmEngine, flush_table, write_memtable, get_at}
use sift_core.Lsm.Flush.{
  Flushable, NamesOthers, lookup-flushed, tiers_keep, flush_table_steps, lookup_in_tiers-agree,
}
use sift_core.Bytes.{Bytes}
use sift_core.Disk.{Disk}
use sift_core.Key.{Seq}
use sift_core.MemTable.{MemTable, range, take_key, find_seq}
use sift_core.Prelude.{◌≤◌, ◌≡◌, refl, none, arith}
use sift_core.Result.{ok}
use sift_core.Sstable.Versions.{versions}

get-clear :
    (m : MemTable) (key : Bytes) (as_of : Seq) → MemTable.get (MemTable.clear m) key as_of ≡ none
unfolding MemTable.get MemTable.clear range take_key find_seq
get-clear m key as_of = refl

-- A read after the memtable became a table returns what it returned before, at every key and every
-- snapshot, if the memtable is valid and fits a table, holds 16 versions of the key at most, and the
-- older tables have other names.
pub get_at-flush_table :
    (db : LsmEngine) (d : Disk) (key : Bytes) (as_of : Seq)
    → Flushable db.next_sst_id db.memtable
    → NamesOthers db.next_sst_id db.tiers
    → versions key db.memtable.entries ≤ 16
    → (flush_table db d).0 ≡ ok tt
    → get_at (flush_table db d).1 key as_of (flush_table db d).2 ≡ get_at db key as_of d
unfolding get_at
get_at-flush_table db d key as_of able others once h =
    let (meta, (made, tiers, cleared, disk)) = flush_table_steps db d h in
    ground (
      arith,
      tiers,
      cleared,
      disk,
      get-clear db.memtable key as_of,
      get-eq-find_visible db.memtable key as_of able.0,
      lookup-flushed db.next_sst_id db.memtable d meta db.tiers key as_of able once made,
      lookup_in_tiers-agree db.tiers key as_of d (write_memtable db.next_sst_id db.memtable d).1
          (tiers_keep db.next_sst_id db.memtable d meta db.tiers made others),
    )
