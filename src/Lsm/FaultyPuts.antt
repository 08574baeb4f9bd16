-- ===== src/Lsm/FaultyPuts.antt =====
-- src/lsm.rs, `put` on any fault schedule.
use sift_core.Sstable.Records.{Fits}
use sift_core.Lsm
use sift_core.Lsm.{LsmEngine, put, apply_record, maybe_flush}
use sift_core.Bytes.{Bytes, bytes_eq}
use sift_core.Disk.{Disk}
use sift_core.Key.{Entry, as_put, max_seq}
use sift_core.Lsm.Compacts.{SameReads}
use sift_core.Lsm.Durable.{put_record}
use sift_core.Lsm.Faulty.{flush_faulty}
use sift_core.Lsm.FlushPut.{log_one_keeps}
use sift_core.Lsm.FlushWhole.{get_at-agree}
use sift_core.Lsm.Flushes.{FlushRoom}
use sift_core.Lsm.Puts.{logged_disk, logged_engine}
use sift_core.Lsm.Recovery.{entry_of}
use sift_core.Lsm.Tables.{IsStore, Few, Numbered-NoLog}
use sift_core.Lsm.Writes.{after_write-IsStore, kept-Wrote}
use sift_core.Prelude.{
  ◌+◌, ◌^◌, ◌<◌, ◌≤◌, ◌≡◌, ◌⊎◌, ◌∙◌, ap, refl, some, inl, inr, List, ◌∷◌, arith, length, leb,
  Bool-cases, if◌then◌else◌,
}
use sift_core.Result.{ok, Result-cases}
use sift_core.Wal.Torn.{log_one}

maybe_flush_faulty :
    (db : LsmEngine) (d : Disk) (runs : List (List Entry))
    → IsStore db d runs
    → FlushRoom db runs
    → length db.tiers ≤ 2
    → (runs' : List (List Entry)) × IsStore (maybe_flush db d).1 (maybe_flush db d).2 runs'
      × SameReads (db.memtable.entries ∷ runs) ((maybe_flush db d).1.memtable.entries ∷ runs')
unfolding maybe_flush
maybe_flush_faulty db d runs s room few =
    elim (Bool-cases (leb db.flush_threshold_bytes db.memtable.approx_bytes)) [
      | inl reached ↦ rw reached (flush_faulty db d runs s room few)
      | inr below ↦ rw below (runs, s, record { same = λ key. refl; few = λ key few. few })
    ]

-- A put whose record did not reach the log leaves the memtable and the tables.
unlogged :
    (key val : Bytes) (db : LsmEngine) (d : Disk)
    → ¬ ((log_one db.wal (put_record db key val) d).0 ≡ ok tt)
    → ((put key val db d).1.memtable ≡ db.memtable)
      × ((put key val db d).1.tiers ≡ db.tiers)
      × ((put key val db d).2 ≡ logged_disk db d (put_record db key val))
unfolding put
unlogged key val db d bad = elim (Result-cases (log_one db.wal (put_record db key val) d).0) [
  | inl (tt, e) ↦ absurd (bad e)
  | inr (inl (x, e)) ↦ (ground (arith, e), ground (arith, e), ground (arith, e))
  | inr (inr e) ↦ (ground (arith, e), ground (arith, e), ground (arith, e))
]

logged :
    (key val : Bytes) (db : LsmEngine) (d : Disk)
    → (log_one db.wal (put_record db key val) d).0 ≡ ok tt
    → ((put key val db d).1
        ≡ (maybe_flush
            (logged_engine db d (put_record db key val))
            (logged_disk db d (put_record db key val))).1)
      × ((put key val db d).2
          ≡ (maybe_flush
              (logged_engine db d (put_record db key val))
              (logged_disk db d (put_record db key val))).2)
unfolding put
logged key val db d e = ground (arith, e)

-- Whatever a put answers, an error or a panic included, a read of now of any key returns afterwards
-- what it returned before the put, or what it returns after a put that answers: the value at the
-- key of the put, and what it returned before at every other key. The engine has at most two
-- tables, so that no compaction follows; the tables hold sorted runs that writers put there, newer
-- versions stand before older ones, and the next numbers are new; the record fits its widths, there
-- is room for a flush and the next numbers, and no run, nor the memtable with the record, holds
-- more than 16 versions of the read key.
pub put_faulty :
    (key val : Bytes) (db : LsmEngine) (d : Disk) (runs : List (List Entry)) (k : Bytes)
    → IsStore db d runs
    → Fits (entry_of (put_record db key val))
    → db.next_seq + 1 < 2 ^ 64
    → FlushRoom (logged_engine db d (put_record db key val)) runs
    → length db.tiers ≤ 2
    → Few k ((apply_record db.memtable (put_record db key val)).entries ∷ runs)
    → (Lsm.get (put key val db d).1 k (put key val db d).2 ≡ Lsm.get db k d)
      ⊎ (Lsm.get (put key val db d).1 k (put key val db d).2
          ≡ (if bytes_eq key k then ok (some val) else Lsm.get db k d))
unfolding Lsm.get as_put
put_faulty key val db d runs k s fits numbers room few_tables few =
    let r = put_record db key val in
    let d1 = logged_disk db d r in
    let same = log_one_keeps db.wal r d db.tiers (Numbered-NoLog db.next_sst_id db.tiers s.named) in
    elim (Result-cases (log_one db.wal r d).0) [
      | inl (tt, e) ↦
          let (engine, disk) = logged key val db d e in
          let mid = logged_engine db d r in
          let wrote =
            kept-Wrote db d runs r (log_one db.wal r d).1 d1 s refl fits numbers same
              (maybe_flush mid d1).1 (maybe_flush mid d1).2
              (maybe_flush_faulty mid d1 runs
                (after_write-IsStore db d d1 runs r (log_one db.wal r d).1 s refl fits numbers same)
                room few_tables) in
          inr (
            ap (λ x. Lsm.get x k (put key val db d).2) engine
            ∙ ap (λ x. Lsm.get (maybe_flush mid d1).1 k x) disk
            ∙ wrote.reads k few)
      | inr bad ↦
          let (memtable, tiers, disk) =
            unlogged key val db d (λ e. elim bad [ inl (x, h) ↦ cc (h, e) | inr h ↦ cc (h, e) ]) in
          inl (
            ap (λ x. Lsm.get (put key val db d).1 k x) disk
            ∙ get_at-agree db (put key val db d).1 d d1 k max_seq memtable tiers same)
    ]
