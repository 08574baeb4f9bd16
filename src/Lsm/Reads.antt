-- ===== src/Lsm/Reads.antt =====
-- A read after a write.
use sift_core.MemTable
use sift_core.MemTable.{MemTable}
use sift_core.MemTable.Reads.{IsValid, get-eq-find_visible}
use sift_core.Lsm.{LsmEngine, get_at, apply_record}
use sift_core.Lsm.Recovery.{apply_record-IsValid, apply_record-entries, value_of, entry_of}
use sift_core.Lsm.Durable.{}
use sift_core.Bytes.{Bytes, IsU64}
use sift_core.Disk.{Disk}
use sift_core.Key.{Seq, as_put}
use sift_core.Key.Snapshot.{is_visible}
use sift_core.MemTable.History.{Older, find_visible-insert}
use sift_core.Prelude.{◌≡◌, ◌∙◌, some, arith, if◌then◌else◌}
use sift_core.Result.{ok}
use sift_core.Wal.{WalRecord}

-- The memtable after a record reads the record, where the snapshot sees it.
get-apply_record :
    (m : MemTable) (r : WalRecord) (key : Bytes) (as_of : Seq)
    → IsValid m
    → Older r.seq m.entries
    → IsU64 r.seq
    → MemTable.get (apply_record m r) key as_of
      ≡ (if is_visible key as_of (entry_of r) then some (value_of r) else MemTable.get m key as_of)
get-apply_record m r key as_of v older word =
    get-eq-find_visible (apply_record m r) key as_of (apply_record-IsValid m r word v)
    ∙ rw (
      apply_record-entries m r,
      find_visible-insert (entry_of r).0 (value_of r) m.entries key as_of older,
      get-eq-find_visible m key as_of v,
    )

pub get_at-after :
    (db db' : LsmEngine) (d : Disk) (r : WalRecord) (key : Bytes) (as_of : Seq)
    → IsValid db.memtable
    → Older r.seq db.memtable.entries
    → IsU64 r.seq
    → db'.memtable ≡ apply_record db.memtable r
    → db'.tiers ≡ db.tiers
    → get_at db' key as_of d ≡ (
        if is_visible key as_of (entry_of r)
        then ok (as_put (value_of r))
        else get_at db key as_of d)
unfolding get_at
get_at-after db db' d r key as_of v older word same tiers =
    ground (arith, same, tiers, get-apply_record db.memtable r key as_of v older word)
