-- ===== src/Lsm/Answers.antt =====
-- src/lsm.rs, `put` on a directory where nothing fails.
use sift_core.Sstable.Records.{Fits}
use sift_core.Lsm
use sift_core.Lsm.{LsmEngine, put, apply_record, maybe_flush}
use sift_core.Wal
use sift_core.Wal.{Wal, WalRecord}
use sift_core.Bytes.{Bytes, bytes_eq}
use sift_core.Disk.{Disk, write, sync_data}
use sift_core.Key.{Entry}
use sift_core.Lsm.Calm.{IsCalm, maybe_flush_answers}
use sift_core.Lsm.Durable.{put_record}
use sift_core.Lsm.FlushPut.{log_one_keeps}
use sift_core.Lsm.Flushes.{FlushRoom}
use sift_core.Lsm.Puts.{logged_disk, logged_engine, get-put}
use sift_core.Lsm.Recovery.{entry_of}
use sift_core.Lsm.Tables.{IsStore, Few, Numbered-NoLog}
use sift_core.Lsm.Writes.{after_write-IsStore}
use sift_core.Prelude.{◌+◌, ◌^◌, ◌<◌, ◌≡◌, refl, some, List, ◌∷◌, arith, if◌then◌else◌}
use sift_core.Result.{ok}
use sift_core.Wal.Torn.{log_one}

log_one_answers :
    (w : Wal) (r : WalRecord) (d : Disk)
    → IsCalm d
    → ((log_one w r d).0 ≡ ok tt) × IsCalm (log_one w r d).2
unfolding Wal.sync Wal.append write sync_data
log_one_answers w r d calm = ground (arith, calm)

put_of_steps :
    (key val : Bytes) (db : LsmEngine) (d : Disk)
    → (log_one db.wal (put_record db key val) d).0 ≡ ok tt
    → (maybe_flush
        (logged_engine db d (put_record db key val))
        (logged_disk db d (put_record db key val))).0
      ≡ ok tt
    → (put key val db d).0 ≡ ok db.next_seq
unfolding put
put_of_steps key val db d logged flushed = ground (arith, logged, flushed)

module _ (db : LsmEngine) (d : Disk) (runs : List (List Entry)) (s : IsStore db d runs)
    (numbers : db.next_seq + 1 < 2 ^ 64) (calm : IsCalm d) where
  -- The flush that may follow a write answers.
  follows :
      (r : WalRecord)
      → r.seq ≡ db.next_seq
      → Fits (entry_of r)
      → FlushRoom (logged_engine db d r) runs
      → (maybe_flush (logged_engine db d r) (logged_disk db d r)).0 ≡ ok tt
  follows r number fits room =
      maybe_flush_answers (logged_engine db d r) (logged_disk db d r) runs
        (after_write-IsStore db d (logged_disk db d r) runs r (log_one db.wal r d).1 s number fits
          numbers
          (log_one_keeps db.wal r d db.tiers (Numbered-NoLog db.next_sst_id db.tiers s.named)))
        room (log_one_answers db.wal r d calm).1

  put_answers :
      (key val : Bytes)
      → Fits (entry_of (put_record db key val))
      → FlushRoom (logged_engine db d (put_record db key val)) runs
      → (put key val db d).0 ≡ ok db.next_seq
  put_answers key val fits room =
      put_of_steps key val db d (log_one_answers db.wal (put_record db key val) d calm).0
        (follows (put_record db key val) refl fits room)

  -- Where no operation on the directory fails, a put answers with the next number, whether a
  -- flush or a compaction follows or not, and a read of now then answers with the value at its key
  -- and with what it returned before at every other key. The tables of the engine hold sorted runs
  -- that writers put there, newer versions stand before older ones, and the next numbers are new;
  -- the record fits its widths, there is room for a flush and the next numbers, and no run, nor
  -- the memtable with the record, holds more than 16 versions of the read key.
  pub put-get_answers :
      (key val k : Bytes)
      → Fits (entry_of (put_record db key val))
      → FlushRoom (logged_engine db d (put_record db key val)) runs
      → Few k ((apply_record db.memtable (put_record db key val)).entries ∷ runs)
      → ((put key val db d).0 ≡ ok db.next_seq)
        × (Lsm.get (put key val db d).1 k (put key val db d).2
            ≡ (if bytes_eq key k then ok (some val) else Lsm.get db k d))
  put-get_answers key val k fits room few =
      let answers = put_answers key val fits room in
      (answers, get-put db d runs s numbers key val db.next_seq k fits room few answers)
