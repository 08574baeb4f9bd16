-- ===== src/Lsm/FlushWhole.antt =====
-- The whole of `flush`, while there are too few tables for a compaction.
use sift_core.MemTable
use sift_core.Wal
use sift_core.MemTable.{MemTable}
use sift_core.Lsm.{LsmEngine, flush, flush_table, reset_wal, maybe_compact, get_at}
use sift_core.Lsm.Flush.{
  Flushable, NamesOthers, flush_table_steps, lookup_in_tiers-agree, flush_path_of,
}
use sift_core.Lsm.FlushReads.{get_at-flush_table}
use sift_core.Compaction.{should_compact}
use sift_core.Compaction.Files.{create_ok}
use sift_core.Sstable.{SstableMeta}
use sift_core.Sstable.Versions.{versions}
use sift_core.Bytes.{Bytes}
use sift_core.Disk.{wal_log, name_eq, Disk, lookup, store}
use sift_core.Disk.Laws.{lookup-store, name_eq_refl}
use sift_core.Key.{Seq}
use sift_core.Prelude.{
  ◌∷◌, ◌+◌, ◌≤◌, ◌<◌, ◌≡◌, refl, subst, sym, ap, ◌∙◌, inl, inr, false, List, [], arith, Bool-cases,
  length, All, All-imp,
}
use sift_core.Result.{ok}
use sift_core.Wal.{Wal}
use sift_core.Lsm.Durable.{IsDurable}
use sift_core.Lsm.Open.{recover}
use sift_core.Wal.Replay.{encode_all}
use sift_core.Wal.{Wal}
use sift_core.Disk.Others.{Keeps, create-others, write-others}
use sift_core.Disk.{FileName, create, write}

-- No table has the name of the log.
abbrev pub NoLog : List SstableMeta → Type 0
NoLog tiers = All (λ (m : SstableMeta). name_eq wal_log m.path ≡ false) tiers

-- The three steps of a flush that answers.
pub flush_steps :
    (db : LsmEngine) (d : Disk)
    → MemTable.is_empty db.memtable ≡ false
    → (flush db d).0 ≡ ok tt
    → ((flush_table db d).0 ≡ ok tt)
      × ((reset_wal (flush_table db d).1 (flush_table db d).2).0 ≡ ok tt)
      × (flush db d
          ≡ maybe_compact
              (reset_wal (flush_table db d).1 (flush_table db d).2).1
              (reset_wal (flush_table db d).1 (flush_table db d).2).2)
unfolding flush
flush_steps db d full h = ground (arith, full)

drop_writer_clean : (w : Wal) (d : Disk) → w.buffer ≡ [] → Wal.drop_writer w d ≡ d
unfolding Wal.drop_writer
drop_writer_clean w d clean = rw clean refl

drop_writer-others :
    (n : FileName) (w : Wal) (d : Disk)
    → name_eq wal_log n ≡ false
    → Keeps n d (Wal.drop_writer w d)
unfolding Wal.drop_writer
drop_writer-others n w d apart = written w.buffer
  where
    written : (b : Bytes) → Keeps n d (elim b [ [] ↦ d | c ∷ cs ↦ (write wal_log (c ∷ cs) d).1 ])
    written [] = refl
    written (c ∷ cs) = write-others n wal_log apart (c ∷ cs) d

pub reset_wal_ok :
    (db : LsmEngine) (d : Disk)
    → (reset_wal db d).0 ≡ ok tt
    → ((reset_wal db d).1.memtable ≡ db.memtable)
      × ((reset_wal db d).1.tiers ≡ db.tiers)
      × (db.wal.buffer ≡ [] → (reset_wal db d).2.files ≡ store wal_log [] d.files)
      × ((reset_wal db d).1.wal.buffer ≡ [])
unfolding reset_wal Wal.reset Wal.fresh
reset_wal_ok db d h = (
  ground (arith, create_ok wal_log d),
  ground (arith, create_ok wal_log d),
  λ clean. ground (arith, create_ok wal_log d, drop_writer_clean db.wal (Wal.reset d).1 clean),
  ground (arith, create_ok wal_log d),
)

-- The reset of the log, however it ends, touches no other file.
pub reset_wal-others :
    (n : FileName) (db : LsmEngine) (d : Disk)
    → name_eq wal_log n ≡ false
    → Keeps n d (reset_wal db d).2
unfolding reset_wal Wal.reset
reset_wal-others n db d apart =
    ground (
      arith,
      create-others n wal_log apart d,
      drop_writer-others n db.wal (create wal_log d).1 apart,
    )

few_tables : (db : LsmEngine) (d : Disk) → length db.tiers < 4 → maybe_compact db d ≡ (ok tt, db, d)
unfolding maybe_compact should_compact
few_tables db d few = ground arith

-- The reset of the log changes no table.
pub reset-Keeps :
    (db : LsmEngine) (d : Disk) (tiers : List SstableMeta)
    → NoLog tiers
    → All (λ (m : SstableMeta). Keeps m.path d (reset_wal db d).2) tiers
reset-Keeps db d tiers apart = All-imp (λ m no_log. reset_wal-others m.path db d no_log) tiers apart

pub get_at-agree :
    (db db' : LsmEngine) (d d' : Disk) (key : Bytes) (as_of : Seq)
    → db'.memtable ≡ db.memtable
    → db'.tiers ≡ db.tiers
    → All (λ (m : SstableMeta). lookup m.path d'.files ≡ lookup m.path d.files) db.tiers
    → get_at db' key as_of d' ≡ get_at db key as_of d
unfolding get_at
get_at-agree db db' d d' key as_of same tiers files =
    ground (arith, same, tiers, lookup_in_tiers-agree db.tiers key as_of d d' files)

flushed-NoLog :
    (db : LsmEngine) (d : Disk)
    → NoLog db.tiers
    → (flush_table db d).0 ≡ ok tt
    → NoLog (flush_table db d).1.tiers × (length (flush_table db d).1.tiers ≡ length db.tiers + 1)
unfolding name_eq
flushed-NoLog db d apart h =
    let (meta, (made, tiers, cleared, disk)) = flush_table_steps db d h in
    (
      subst NoLog (sym tiers) (
        ap (λ p. name_eq wal_log p) (flush_path_of db.next_sst_id db.memtable d meta made),
        apart,
      ),
      ap length tiers ∙ omega arith,
    )

-- A flush that answers leaves every read as it was, at every key and every snapshot, if it meets
-- at most two older tables, none of them under the name of the log or of the new table, and the
-- memtable is valid, fits a table, and holds 16 versions of the key at most.
pub get_at-flush :
    (db : LsmEngine) (d : Disk) (key : Bytes) (as_of : Seq)
    → Flushable db.next_sst_id db.memtable
    → NamesOthers db.next_sst_id db.tiers
    → NoLog db.tiers
    → length db.tiers < 3
    → versions key db.memtable.entries ≤ 16
    → (flush db d).0 ≡ ok tt
    → get_at (flush db d).1 key as_of (flush db d).2 ≡ get_at db key as_of d
unfolding flush
get_at-flush db d key as_of able others apart few versions_few h =
    elim (Bool-cases (MemTable.is_empty db.memtable)) [
      | inl empty ↦ rw empty refl
      | inr full ↦
          let (ended, cut, same) = flush_steps db d full h in
          let (no_log, more) = flushed-NoLog db d apart ended in
          let (memtable, tiers, files, clean) =
            reset_wal_ok (flush_table db d).1 (flush_table db d).2 cut in
          let whole =
            same
            ∙ few_tables (reset_wal (flush_table db d).1 (flush_table db d).2).1
                (reset_wal (flush_table db d).1 (flush_table db d).2).2
                (omega (arith, ap length tiers, more)) in
          ap (λ t. get_at t.1 key as_of t.2) whole
          ∙ get_at-agree (flush_table db d).1 _ (flush_table db d).2 _ key as_of memtable tiers
              (reset-Keeps (flush_table db d).1 (flush_table db d).2 _ no_log)
          ∙ get_at-flush_table db d key as_of able others versions_few ended
    ]

flush_table_wal : (db : LsmEngine) (d : Disk) → (flush_table db d).1.wal.buffer ≡ db.wal.buffer
unfolding flush_table
flush_table_wal db d = ground arith

-- A flush of a memtable that is not empty leaves an empty history, if it answers, the log holds
-- nothing back before it and it meets at most two older tables: the log file and the memtable are empty, and nothing is held back.
pub flush-IsDurable :
    (db : LsmEngine) (d : Disk)
    → MemTable.is_empty db.memtable ≡ false
    → length db.tiers < 3
    → db.wal.buffer ≡ []
    → (flush db d).0 ≡ ok tt
    → IsDurable (flush db d).1 (flush db d).2 []
unfolding IsDurable recover encode_all MemTable.new MemTable.clear
flush-IsDurable db d full few held h =
    let (ended, cut, same) = flush_steps db d full h in
    let (meta, (made, more, cleared, disk)) = flush_table_steps db d ended in
    let (memtable, tiers, files, clean) =
      reset_wal_ok (flush_table db d).1 (flush_table db d).2 cut in
    let whole =
      same
      ∙ few_tables (reset_wal (flush_table db d).1 (flush_table db d).2).1
          (reset_wal (flush_table db d).1 (flush_table db d).2).2
          (omega (arith, ap length tiers, ap length more)) in
    (
      ap (λ t. t.1.wal.buffer) whole ∙ clean,
      ap (λ t. lookup wal_log t.2.files) whole
          ∙ ap (λ f. lookup wal_log f) (files (flush_table_wal db d ∙ held))
          ∙ lookup-store wal_log wal_log [] (flush_table db d).2.files
          ∙ rw (name_eq_refl wal_log) refl,
      ap (λ t. t.1.memtable) whole ∙ memtable ∙ cleared,
      tt,
    )
