-- ===== src/Lsm/FlushPut.antt =====
-- A put that fills the memtable: the write, and the flush that follows it.
use sift_core.Lsm.{LsmEngine, put, flush, get_at}
use sift_core.Lsm.Durable.{put_record, after_write, put_logged}
use sift_core.Lsm.Flush.{Flushable, NamesOthers}
use sift_core.Lsm.FlushWhole.{NoLog, get_at-flush, get_at-agree}
use sift_core.Lsm.Reads.{get_at-after}
use sift_core.MemTable.Reads.{IsValid}
use sift_core.MemTable.History.{Older}
use sift_core.Wal
use sift_core.Wal.{Wal, WalRecord}
use sift_core.Wal.Torn.{log_one}
use sift_core.Disk.{
  Disk, Files, Fault, pass, fail, wal_log, lookup, name_eq, FileName, write, sync_data,
}
use sift_core.Disk.Laws.{lookup-store}
use sift_core.Key.{Seq, as_put}
use sift_core.Key.Snapshot.{is_visible}
use sift_core.Sstable.Versions.{versions}
use sift_core.Sstable.{SstableMeta}
use sift_core.Bytes.{Bytes, IsU64, bytes_eq}
use sift_core.Prelude.{
  ◌≤◌, ◌<◌, ◌≡◌, refl, ◌∙◌, false, ◌&&◌, some, List, [], ◌∷◌, arith, leb, if◌then◌else◌, length,
  All, All-imp,
}
use sift_core.Result.{ok}

-- The write of a record changes no file but the log.
log_one-others :
    (w : Wal) (r : WalRecord) (files : Files) (faults : List Fault) (n : FileName)
    → name_eq wal_log n ≡ false
    → lookup n (log_one w r (record { files = files; faults = faults })).2.files ≡ lookup n files
unfolding Wal.sync Wal.append write sync_data
log_one-others w r files [] n apart = lookup-store wal_log n _ files ∙ rw apart refl
log_one-others w r files (pass ∷ fs) n apart = lookup-store wal_log n _ files ∙ rw apart refl
log_one-others w r files (fail k ∷ fs) n apart = lookup-store wal_log n _ files ∙ rw apart refl

pub log_one_keeps :
    (w : Wal) (r : WalRecord) (d : Disk) (tiers : List SstableMeta)
    → NoLog tiers
    → All (λ (m : SstableMeta). lookup m.path (log_one w r d).2.files ≡ lookup m.path d.files) tiers
log_one_keeps w r d tiers apart =
    All-imp (λ m no_log. log_one-others w r d.files d.faults m.path no_log) tiers apart

-- The engine between the write and the flush.
abbrev written : Bytes → Bytes → LsmEngine → Disk → LsmEngine
written key val db d =
    after_write db (put_record db key val) (log_one db.wal (put_record db key val) d).1

-- A put that reaches the threshold ends as the flush of the engine with the record.
put_flushes :
    (key val : Bytes) (db : LsmEngine) (d : Disk) (s : Seq)
    → db.flush_threshold_bytes ≤ (written key val db d).memtable.approx_bytes
    → (put key val db d).0 ≡ ok s
    → ((flush (written key val db d) (log_one db.wal (put_record db key val) d).2).0 ≡ ok tt)
      × ((put key val db d).1
          ≡ (flush (written key val db d) (log_one db.wal (put_record db key val) d).2).1)
      × ((put key val db d).2
          ≡ (flush (written key val db d) (log_one db.wal (put_record db key val) d).2).2)
unfolding put
put_flushes key val db d s reached h =
    let logged = put_logged key val db d s h in ground (arith, logged, reached)

-- After a put that answers and whose record takes the memtable to the flush threshold, so that it
-- ends in a flush, a read of the key at a snapshot from the new number on returns the value, and
-- every other read is what it was before the put. The memtable was valid and older than the new
-- number, a 64-bit word; with the record it fits a table and holds 16 versions of the read key at
-- most; there are at most two tables, none under the name of the log or of the new table.
get_at-put_flushing :
    (key val : Bytes) (db : LsmEngine) (d : Disk) (s : Seq) (k : Bytes) (as_of : Seq)
    → IsValid db.memtable
    → Older db.next_seq db.memtable.entries
    → IsU64 db.next_seq
    → db.flush_threshold_bytes ≤ (written key val db d).memtable.approx_bytes
    → Flushable db.next_sst_id (written key val db d).memtable
    → NamesOthers db.next_sst_id db.tiers
    → NoLog db.tiers
    → length db.tiers < 3
    → versions k (written key val db d).memtable.entries ≤ 16
    → (put key val db d).0 ≡ ok s
    → get_at (put key val db d).1 k as_of (put key val db d).2
      ≡ (if bytes_eq key k && leb db.next_seq as_of then ok (some val) else get_at db k as_of d)
unfolding is_visible as_put
get_at-put_flushing key val db d s k as_of valid older word reached able others apart few
      few_versions h =
    let r = put_record db key val in
    let mid = written key val db d in
    let d1 = (log_one db.wal r d).2 in
    let (flushed, store_, disk) = put_flushes key val db d s reached h in
    let same_reads = get_at-flush mid d1 k as_of able others apart few few_versions flushed in
    let after = get_at-after db mid d1 r k as_of valid older word refl refl in
    let before =
      get_at-agree db db d d1 k as_of refl refl (log_one_keeps db.wal r d db.tiers apart) in
    rw (store_, disk) (same_reads ∙ after ∙ rw before refl)
