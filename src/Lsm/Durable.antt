-- ===== src/Lsm/Durable.antt =====
-- Writes reach the log before the memtable, so a restart finds what was acknowledged.
use sift_core.MemTable
use sift_core.Wal.Replay.{Fits}
use sift_core.Wal
use sift_core.Wal.{Wal, WalRecord, Op}
use sift_core.Lsm.{LsmEngine, apply_record, put, delete}
use sift_core.Bytes.{Bytes}
use sift_core.Disk.{Disk}
use sift_core.Prelude.{
  ◌+◌, ◌%◌, ◌^◌, ◌<◌, ◌≡◌, [], arith, refl, sym, ap, ◌∙◌, List, ◌∷◌, ◌++◌, All, All-append, subst,
  ◌⊎◌,
}
use sift_core.Result.{ok, IoError, err}
use sift_core.Wal.Torn.{log_one, HoldsLog, log_one_durable, log_one_atomic}
use sift_core.Key.{Seq}
use sift_core.Lsm.Open.{recover}
use sift_core.MemTable.{MemTable}

abbrev pub put_record : LsmEngine → Bytes → Bytes → WalRecord
put_record db key val = record { seq = db.next_seq; op = Op.put; key = key; val = val }

abbrev pub delete_record : LsmEngine → Bytes → WalRecord
delete_record db key = record { seq = db.next_seq; op = Op.delete; key = key; val = [] }

-- The engine after a record has reached the log and the memtable.
abbrev pub after_write : LsmEngine → WalRecord → Wal → LsmEngine
after_write db r w = record db {
  wal = w;
  memtable = apply_record db.memtable r;
  next_seq = (db.next_seq + 1) % 2 ^ 64;
}

-- The memtable stays below the flush threshold.
abbrev pub StaysBelow : LsmEngine → WalRecord → Type 0
StaysBelow db r = (apply_record db.memtable r).approx_bytes < db.flush_threshold_bytes

pub put_lem :
    (key val : Bytes) (db : LsmEngine) (d : Disk)
    → StaysBelow db (put_record db key val)
    → (log_one db.wal (put_record db key val) d).0 ≡ ok tt
    → put key val db d ≡ (
      ok db.next_seq,
      after_write db (put_record db key val) (log_one db.wal (put_record db key val) d).1,
      (log_one db.wal (put_record db key val) d).2,
    )
unfolding put
put_lem key val db d below e = ground (arith, e)

-- A write that answers has reached the log.
pub put_logged :
    (key val : Bytes) (db : LsmEngine) (d : Disk) (s : Seq)
    → (put key val db d).0 ≡ ok s
    → (log_one db.wal (put_record db key val) d).0 ≡ ok tt
unfolding put
put_logged key val db d s e = ground arith

recover-snoc :
    (rs : List WalRecord) (r : WalRecord) (m : MemTable)
    → recover m (rs ++ (r ∷ [])) ≡ apply_record (recover m rs) r
unfolding recover
recover-snoc [] r m = refl
recover-snoc (x ∷ rs) r m = recover-snoc rs r (apply_record m x)

-- The log file is the history of the memtable, and nothing is held back from it.
unfoldable pub IsDurable : LsmEngine → Disk → List WalRecord → Type 0
IsDurable db d rs =
    (db.wal.buffer ≡ []) × HoldsLog d rs × (db.memtable ≡ recover MemTable.new rs) × All Fits rs

after_write-IsDurable :
    (db : LsmEngine) (d : Disk) (r : WalRecord) (rs : List WalRecord)
    → IsDurable db d rs
    → Fits r
    → (log_one db.wal r d).0 ≡ ok tt
    → IsDurable (after_write db r (log_one db.wal r d).1) (log_one db.wal r d).2 (rs ++ (r ∷ []))
unfolding IsDurable
after_write-IsDurable db d r rs (clean, holds, same, all) fits e =
    let (holds', clean') = log_one_durable db.wal r d rs clean holds e in
    (
      clean',
      holds',
      ap (λ m. apply_record m r) same ∙ sym (recover-snoc rs r MemTable.new),
      All-append Fits rs (r ∷ []) all (fits, tt),
    )

-- A put on a durable engine that answers, leaves the memtable below the threshold and has a record
-- that fits its widths, answers the next sequence number and adds its record to the history that
-- the log and the memtable share.
pub put-IsDurable :
    (key val : Bytes) (db : LsmEngine) (d : Disk) (s : Seq) (rs : List WalRecord)
    → IsDurable db d rs
    → Fits (put_record db key val)
    → StaysBelow db (put_record db key val)
    → (put key val db d).0 ≡ ok s
    → (s ≡ db.next_seq)
      × IsDurable (put key val db d).1 (put key val db d).2 (rs ++ (put_record db key val ∷ []))
put-IsDurable key val db d s rs durable fits below e =
    let logged = put_logged key val db d s e in
    let run = put_lem key val db d below logged in
    (
      cc (run, e),
      subst (λ t. IsDurable t.1 t.2 (rs ++ (put_record db key val ∷ []))) (sym run)
          (after_write-IsDurable db d (put_record db key val) rs durable fits logged),
    )

pub delete_lem :
    (key : Bytes) (db : LsmEngine) (d : Disk)
    → StaysBelow db (delete_record db key)
    → (log_one db.wal (delete_record db key) d).0 ≡ ok tt
    → delete key db d ≡ (
      ok db.next_seq,
      after_write db (delete_record db key) (log_one db.wal (delete_record db key) d).1,
      (log_one db.wal (delete_record db key) d).2,
    )
unfolding delete
delete_lem key db d below e = ground (arith, e)

pub delete_logged :
    (key : Bytes) (db : LsmEngine) (d : Disk) (s : Seq)
    → (delete key db d).0 ≡ ok s
    → (log_one db.wal (delete_record db key) d).0 ≡ ok tt
unfolding delete
delete_logged key db d s e = ground arith

-- A delete on a durable engine that answers, leaves the memtable below the threshold and has a
-- record that fits its widths, answers the next sequence number and adds its tombstone to the
-- history that the log and the memtable share.
pub delete-IsDurable :
    (key : Bytes) (db : LsmEngine) (d : Disk) (s : Seq) (rs : List WalRecord)
    → IsDurable db d rs
    → Fits (delete_record db key)
    → StaysBelow db (delete_record db key)
    → (delete key db d).0 ≡ ok s
    → (s ≡ db.next_seq)
      × IsDurable (delete key db d).1 (delete key db d).2 (rs ++ (delete_record db key ∷ []))
delete-IsDurable key db d s rs durable fits below e =
    let logged = delete_logged key db d s e in
    let run = delete_lem key db d below logged in
    (
      cc (run, e),
      subst (λ t. IsDurable t.1 t.2 (rs ++ (delete_record db key ∷ []))) (sym run)
          (after_write-IsDurable db d (delete_record db key) rs durable fits logged),
    )

-- A put whose log write fails answers the error and changes neither the memtable nor the tables.
pub put_unlogged :
    (key val : Bytes) (db : LsmEngine) (d : Disk) (e : IoError)
    → (log_one db.wal (put_record db key val) d).0 ≡ err e
    → ((put key val db d).0 ≡ err e)
      × ((put key val db d).1.memtable ≡ db.memtable)
      × ((put key val db d).1.tiers ≡ db.tiers)
unfolding put
put_unlogged key val db d e h = ground (arith, h)

put_disk :
    (key val : Bytes) (db : LsmEngine) (d : Disk)
    → StaysBelow db (put_record db key val)
    → (put key val db d).2 ≡ (log_one db.wal (put_record db key val) d).2
unfolding put
put_disk key val db d below = ground arith

-- Wherever a put on a durable engine stops, whether it answers or fails, the log that it leaves
-- replays to the history without the record or with it, if the record fits its widths and leaves
-- the memtable below the threshold.
pub put_atomic :
    (key val : Bytes) (db : LsmEngine) (d : Disk) (rs : List WalRecord)
    → IsDurable db d rs
    → Fits (put_record db key val)
    → StaysBelow db (put_record db key val)
    → (Wal.replay (put key val db d).2 ≡ ok rs)
      ⊎ (Wal.replay (put key val db d).2 ≡ ok (rs ++ (put_record db key val ∷ [])))
unfolding IsDurable
put_atomic key val db d rs (clean, holds, same, all) fits below =
    rw (put_disk key val db d below)
      (log_one_atomic db.wal (put_record db key val) d rs clean holds all fits)
