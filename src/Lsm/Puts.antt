-- ===== src/Lsm/Puts.antt =====
-- src/lsm.rs, `put` and `delete` on an engine with tables, to their end.
use sift_core.Sstable.Records.{Fits}
use sift_core.Lsm
use sift_core.Lsm.{LsmEngine, put, delete, apply_record, maybe_flush}
use sift_core.Bytes.{Bytes, bytes_eq}
use sift_core.Disk.{Disk}
use sift_core.Key.{Seq, as_put, Entry}
use sift_core.Lsm.Durable.{put_record, delete_record, after_write, put_logged, delete_logged}
use sift_core.Lsm.FlushPut.{log_one_keeps}
use sift_core.Lsm.Flushes.{FlushRoom}
use sift_core.Lsm.Recovery.{entry_of}
use sift_core.Lsm.Tables.{IsStore, Few, Numbered-NoLog}
use sift_core.Lsm.Writes.{Wrote, flushed-Wrote}
use sift_core.Prelude.{
  ◌+◌, ◌^◌, ◌<◌, ◌≡◌, refl, subst, sym, none, some, List, ◌∷◌, arith, if◌then◌else◌,
}
use sift_core.Result.{Result, ok}
use sift_core.Wal.{WalRecord}
use sift_core.Wal.Torn.{log_one}

abbrev pub logged_disk : LsmEngine → Disk → WalRecord → Disk
logged_disk db d r = (log_one db.wal r d).2

abbrev pub logged_engine : LsmEngine → Disk → WalRecord → LsmEngine
logged_engine db d r = after_write db r (log_one db.wal r d).1

-- The write of `r` ends as the flush that may follow it.
abbrev EndsAs : LsmEngine → Disk → WalRecord → Result Seq × LsmEngine × Disk → Type 0
EndsAs db d r run =
    ((maybe_flush (logged_engine db d r) (logged_disk db d r)).0 ≡ ok tt)
    × (run.1 ≡ (maybe_flush (logged_engine db d r) (logged_disk db d r)).1)
    × (run.2 ≡ (maybe_flush (logged_engine db d r) (logged_disk db d r)).2)

put_ends :
    (key val : Bytes) (db : LsmEngine) (d : Disk) (s : Seq)
    → (put key val db d).0 ≡ ok s
    → EndsAs db d (put_record db key val) (put key val db d)
unfolding put
put_ends key val db d s h = let logged = put_logged key val db d s h in ground (arith, logged)

delete_ends :
    (key : Bytes) (db : LsmEngine) (d : Disk) (s : Seq)
    → (delete key db d).0 ≡ ok s
    → EndsAs db d (delete_record db key) (delete key db d)
unfolding delete
delete_ends key db d s h = let logged = delete_logged key db d s h in ground (arith, logged)

ends-Wrote :
    (db : LsmEngine) (d : Disk) (runs : List (List Entry)) (r : WalRecord)
    (run : Result Seq × LsmEngine × Disk)
    → IsStore db d runs
    → r.seq ≡ db.next_seq
    → Fits (entry_of r)
    → db.next_seq + 1 < 2 ^ 64
    → FlushRoom (logged_engine db d r) runs
    → EndsAs db d r run
    → Wrote db d runs r run.1 run.2
ends-Wrote db d runs r run s number fits numbers room (ended, engine, disk) =
    subst (λ e. Wrote db d runs r e run.2) (sym engine)
      (subst (Wrote db d runs r (maybe_flush (logged_engine db d r) (logged_disk db d r)).1)
        (sym disk)
        (flushed-Wrote db d runs r (log_one db.wal r d).1 (logged_disk db d r) s number fits numbers
          (log_one_keeps db.wal r d db.tiers (Numbered-NoLog db.next_sst_id db.tiers s.named)) room
          ended))

module _ (db : LsmEngine) (d : Disk) (runs : List (List Entry)) (s : IsStore db d runs)
    (numbers : db.next_seq + 1 < 2 ^ 64) where
  -- A put that answers, of a record that fits its widths, keeps what the engine keeps, if there is
  -- room for a flush and the next numbers: with its flush and its compaction, if they follow.
  pub put-IsStore :
      (key val : Bytes) (seq : Seq)
      → Fits (entry_of (put_record db key val))
      → FlushRoom (logged_engine db d (put_record db key val)) runs
      → (put key val db d).0 ≡ ok seq
      → Wrote db d runs (put_record db key val) (put key val db d).1 (put key val db d).2
  put-IsStore key val seq fits room h =
      ends-Wrote db d runs (put_record db key val) (put key val db d) s refl fits numbers room
        (put_ends key val db d seq h)

  pub delete-IsStore :
      (key : Bytes) (seq : Seq)
      → Fits (entry_of (delete_record db key))
      → FlushRoom (logged_engine db d (delete_record db key)) runs
      → (delete key db d).0 ≡ ok seq
      → Wrote db d runs (delete_record db key) (delete key db d).1 (delete key db d).2
  delete-IsStore key seq fits room h =
      ends-Wrote db d runs (delete_record db key) (delete key db d) s refl fits numbers room
        (delete_ends key db d seq h)

  -- After a put that answers, a read of now returns the value at its key and what it returned
  -- before at every other key, whether the put ended in a flush, or in a flush and a compaction,
  -- or in neither. The tables of the engine hold sorted runs that writers put there, newer
  -- versions stand before older ones, and the next numbers are new; the record fits its widths,
  -- there is room for a flush and the next numbers, and no run, nor the memtable with the record,
  -- holds more than 16 versions of the read key.
  pub get-put :
      (key val : Bytes) (seq : Seq) (k : Bytes)
      → Fits (entry_of (put_record db key val))
      → FlushRoom (logged_engine db d (put_record db key val)) runs
      → Few k ((apply_record db.memtable (put_record db key val)).entries ∷ runs)
      → (put key val db d).0 ≡ ok seq
      → Lsm.get (put key val db d).1 k (put key val db d).2
        ≡ (if bytes_eq key k then ok (some val) else Lsm.get db k d)
  unfolding as_put
  get-put key val seq k fits room few h = (put-IsStore key val seq fits room h).reads k few

  -- After a delete that answers, a read of now returns nothing at its key and what it returned
  -- before at every other key, whether the delete ended in a flush, or in a flush and a
  -- compaction, or in neither. The tables of the engine hold sorted runs that writers put there,
  -- newer versions stand before older ones, and the next numbers are new; the record fits its
  -- widths, there is room for a flush and the next numbers, and no run, nor the memtable with the
  -- record, holds more than 16 versions of the read key.
  pub get-delete :
      (key : Bytes) (seq : Seq) (k : Bytes)
      → Fits (entry_of (delete_record db key))
      → FlushRoom (logged_engine db d (delete_record db key)) runs
      → Few k ((apply_record db.memtable (delete_record db key)).entries ∷ runs)
      → (delete key db d).0 ≡ ok seq
      → Lsm.get (delete key db d).1 k (delete key db d).2
        ≡ (if bytes_eq key k then ok none else Lsm.get db k d)
  unfolding as_put
  get-delete key seq k fits room few h = (delete-IsStore key seq fits room h).reads k few
