-- ===== src/Lsm/Faulty.antt =====
-- src/lsm.rs, `flush` on any fault schedule.
use sift_core.MemTable
use sift_core.Wal
use sift_core.Compaction.{finish, finish_and_rename, should_compact}
use sift_core.Compaction.Files.{write_table}
use sift_core.Disk.{
  FileName, Disk, name_eq, create, write, sync_data, lookup, sst, sst_tmp, wal_log,
}
use sift_core.Disk.Others.{Keeps, create-others, write-others, sync_data-others, rename-others}
use sift_core.Key.{Entry}
use sift_core.Lsm.{LsmEngine, flush, write_memtable, reset_wal, flush_table, maybe_compact}
use sift_core.Lsm.Compacts.{SameReads}
use sift_core.Lsm.Flush.{flush_writer, flush_path, write_memtable-write_table}
use sift_core.Lsm.Flushes.{
  FlushRoom, after_flush, flush_table_engine, flush_table-IsStore, flush-IsStore,
}
use sift_core.Lsm.Tables.{
  IsStore, IsStore-wal, AllStored-agree, Numbered-later, Numbered-NoLog, Numbered-NamesOthers,
}
use sift_core.Prelude.{
  ◌⊎◌, [], ◌≡◌, ◌≤◌, ◌+◌, ◌^◌, ◌%◌, ◌∙◌, ap, sym, subst, refl, false, inl, inr, List, ◌∷◌, arith,
  All, All-imp, Bool-cases, length,
}
use sift_core.Result.{IoError, Result, Result-cases, ok, err, panicked}
use sift_core.Sstable.{SstableWriter, file_bytes, SstableMeta}
use sift_core.Wal.{Wal}
use sift_core.Key.Snapshot.{find_visible}
use sift_core.Sstable.Versions.{versions}

-- However the writing of a table ends, it touches the temporary file and the final one only.
write_table-others :
    (n tmp final : FileName) (w : SstableWriter) (d : Disk)
    → w.path ≡ tmp
    → name_eq tmp n ≡ false
    → name_eq final n ≡ false
    → Keeps n d (write_table tmp w final d).1
unfolding write_table finish_and_rename finish
write_table-others n tmp final w d path apart other =
    let own = ap (λ p. name_eq p n) path ∙ apart in
    let d1 = (create tmp d).1 in
    let d2 = (write w.path (file_bytes w) d1).1 in
    ground (
      arith,
      create-others n tmp apart d,
      write-others n w.path own (file_bytes w) d1,
      sync_data-others n tmp apart d2,
      rename-others n w.path own final (sync_data d2).1 other,
    )

-- However the writing of a memtable ends, the tables keep their files.
write_memtable-others :
    (db : LsmEngine) (d : Disk) (runs : List (List Entry))
    → IsStore db d runs
    → All
        (λ (t : SstableMeta). Keeps t.path d (write_memtable db.next_sst_id db.memtable d).1)
        db.tiers
write_memtable-others db d runs s =
    let id = db.next_sst_id in
    All-imp
      (λ t (final, tmp).
        ap (λ r. lookup t.path r.1.files) (write_memtable-write_table id db.memtable d)
        ∙ write_table-others t.path (sst_tmp id) (sst id) (flush_writer id db.memtable) d
            (flush_path id db.memtable) tmp final)
      db.tiers (Numbered-NamesOthers id db.tiers s.named)

-- A table number that is used up, and a directory that keeps the files of the tables.
numbered-IsStore :
    (db : LsmEngine) (d d' : Disk) (runs : List (List Entry))
    → IsStore db d runs
    → FlushRoom db runs
    → All (λ (t : SstableMeta). Keeps t.path d d') db.tiers
    → IsStore (record db { next_sst_id = (db.next_sst_id + 1) % 2 ^ 64 }) d' runs
numbered-IsStore db d d' runs s room same = record {
  valid = s.valid;
  fits = s.fits;
  stored = AllStored-agree d d' db.tiers runs same s.stored;
  aged = s.aged;
  older = s.older;
  named =
      Numbered-later db.next_sst_id ((db.next_sst_id + 1) % 2 ^ 64) db.tiers
        (omega (arith, room.numbers)) s.named;
}

reset-others :
    (db : LsmEngine) (d : Disk) (runs : List (List Entry))
    → IsStore db d runs
    → All (λ (t : SstableMeta). Keeps t.path d (Wal.reset d).1) db.tiers
unfolding Wal.reset
reset-others db d runs s =
    All-imp (λ t apart. create-others t.path wal_log apart d) db.tiers
      (Numbered-NoLog db.next_sst_id db.tiers s.named)

-- The flush ends, with some answer, in this engine and this directory.
abbrev EndsIn : LsmEngine → Disk → LsmEngine → Disk → Type 0
EndsIn db d db' d' = (r : Result (Unit {0})) × (flush db d ≡ (r, db', d'))

-- What a flush may leave: the memtable with a number used up, or its table and the old log, or its
-- table and a new log.
table_fails :
    (db : LsmEngine) (d : Disk)
    → MemTable.is_empty db.memtable ≡ false
    → ¬ ((meta : SstableMeta) × ((write_memtable db.next_sst_id db.memtable d).0 ≡ ok meta))
    → EndsIn db d
        (record db { next_sst_id = (db.next_sst_id + 1) % 2 ^ 64 })
        (write_memtable db.next_sst_id db.memtable d).1
unfolding flush flush_table
table_fails db d full bad = elim (Result-cases (write_memtable db.next_sst_id db.memtable d).0) [
  | inl made ↦ absurd (bad made)
  | inr (inl (x, e)) ↦ (err x, ground (arith, full, e))
  | inr (inr e) ↦ (panicked, ground (arith, full, e))
]

reset_fails :
    (db : LsmEngine) (d : Disk) (meta : SstableMeta)
    → MemTable.is_empty db.memtable ≡ false
    → (write_memtable db.next_sst_id db.memtable d).0 ≡ ok meta
    → ¬ ((w : Wal) × ((Wal.reset (write_memtable db.next_sst_id db.memtable d).1).0 ≡ ok w))
    → EndsIn db d
        (after_flush db meta)
        (Wal.reset (write_memtable db.next_sst_id db.memtable d).1).1
unfolding flush reset_wal
reset_fails db d meta full made bad =
    elim (Result-cases (Wal.reset (write_memtable db.next_sst_id db.memtable d).1).0) [
      | inl cut ↦ absurd (bad cut)
      | inr (inl (x, e)) ↦ (err x, ground (arith, full, flush_table_engine db d meta made, e))
      | inr (inr e) ↦ (panicked, ground (arith, full, flush_table_engine db d meta made, e))
    ]

ends_early :
    (db : LsmEngine) (d : Disk) (meta : SstableMeta) (w : Wal)
    → MemTable.is_empty db.memtable ≡ false
    → length db.tiers ≤ 2
    → (write_memtable db.next_sst_id db.memtable d).0 ≡ ok meta
    → (Wal.reset (write_memtable db.next_sst_id db.memtable d).1).0 ≡ ok w
    → (flush db d).0 ≡ ok tt
unfolding flush reset_wal maybe_compact should_compact
ends_early db d meta w full few made cut =
    ground (arith, full, few, flush_table_engine db d meta made, cut)

SameReads-above_empty : (runs : List (List Entry)) → SameReads runs ([] ∷ runs)
SameReads-above_empty runs = record {
  same = λ key. unfold find_visible in refl;
  few = λ key few. ((unfold versions in omega arith), few);
}

-- However a flush without a compaction ends, it keeps what the engine keeps and the first answers of
-- its runs.
pub flush_faulty :
    (db : LsmEngine) (d : Disk) (runs : List (List Entry))
    → IsStore db d runs
    → FlushRoom db runs
    → length db.tiers ≤ 2
    → (runs' : List (List Entry)) × IsStore (flush db d).1 (flush db d).2 runs'
      × SameReads (db.memtable.entries ∷ runs) ((flush db d).1.memtable.entries ∷ runs')
unfolding MemTable.clear
flush_faulty db d runs s room few = elim (Bool-cases (MemTable.is_empty db.memtable)) [
  | inl empty ↦ flush-IsStore db d runs s room (unfold flush in ground (arith, empty))
  | inr full ↦
      let d1 = (write_memtable db.next_sst_id db.memtable d).1 in
      elim (Result-cases (write_memtable db.next_sst_id db.memtable d).0) [
        | inl (meta, made) ↦ elim (Result-cases (Wal.reset d1).0) [
          | inl (w, cut) ↦ flush-IsStore db d runs s room (ends_early db d meta w full few made cut)
          | inr bad ↦
              let s1 = flush_table-IsStore db d runs meta s room made in
              keeps (after_flush db meta) (Wal.reset d1).1 (db.memtable.entries ∷ runs)
                (IsStore-wal (after_flush db meta) d1 (Wal.reset d1).1 (db.memtable.entries ∷ runs)
                  db.wal s1 (reset-others (after_flush db meta) d1 (db.memtable.entries ∷ runs) s1))
                (SameReads-above_empty (db.memtable.entries ∷ runs))
                (reset_fails db d meta full made (λ (w, cut). apart bad cut))
        ]
        | inr bad ↦
            keeps (record db { next_sst_id = (db.next_sst_id + 1) % 2 ^ 64 }) d1 runs
              (numbered-IsStore db d d1 runs s room (write_memtable-others db d runs s))
              (record { same = λ key. refl; few = λ key few. few })
              (table_fails db d full (λ (meta, made). apart bad made))
      ]
]
  where
    apart :
        {A : Type 0} {r : Result A} {a : A}
        → (((e : IoError) × (r ≡ err e)) ⊎ (r ≡ panicked))
        → r ≡ ok a
        → ⊥
    apart (inl (e, h)) h' = cc (h, h')
    apart (inr h) h' = cc (h, h')

    keeps :
        (db' : LsmEngine) (d' : Disk) (runs' : List (List Entry))
        → IsStore db' d' runs'
        → SameReads (db.memtable.entries ∷ runs) (db'.memtable.entries ∷ runs')
        → EndsIn db d db' d'
        → (after : List (List Entry)) × IsStore (flush db d).1 (flush db d).2 after
          × SameReads (db.memtable.entries ∷ runs) ((flush db d).1.memtable.entries ∷ after)
    keeps db' d' runs' st same (r, e) = (
      runs',
      subst (λ t. IsStore t.1 t.2 runs') (sym e) st,
      subst (λ t. SameReads (db.memtable.entries ∷ runs) (t.1.memtable.entries ∷ runs')) (sym e)
          same,
    )
