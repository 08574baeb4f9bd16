-- ===== src/Lsm/Calm.antt =====
-- src/compaction.rs and src/lsm.rs on a directory where nothing fails.
use sift_core.Wal
use sift_core.MemTable
use sift_core.MemTable.{MemTable}
use sift_core.Compaction.{finish, finish_and_rename, should_compact, sum_counts, compact}
use sift_core.Compaction.Files.{write_table}
use sift_core.Disk.{
  FileName, Files, Disk, store, contents, create, write, sync_data, rename, sst, sst_tmp,
}
use sift_core.Disk.Laws.{name_eq_refl, lookup-store}
use sift_core.Prelude.{
  refl, leb, ◌≡◌, [], ◌++◌, arith, ℕ, ap, ◌∙◌, inl, inr, Bool, true, false, none, List, ◌∷◌,
  Bool-cases, length,
}
use sift_core.Result.{ok}
use sift_core.Sstable.{SstableMeta, SstableWriter, file_bytes, meta_of}
use sift_core.Compaction.Merged.{compact-write_table}
use sift_core.Compaction.Reads.{write_run_path}
use sift_core.Compaction.Stored.{AllStored}
use sift_core.Compaction.Surviving.{surviving}
use sift_core.Key.{Entry}
use sift_core.Lsm.{
  flush, maybe_flush, LsmEngine, maybe_compact, write_memtable, reset_wal, flush_table,
}
use sift_core.Lsm.Flush.{flush_writer, flush_path, write_memtable-write_table}
use sift_core.Lsm.Flushes.{
  FlushRoom, after_flush, flush_table_engine, flush_table-IsStore, reset_wal-IsStore,
}
use sift_core.Lsm.Tables.{IsStore}
use sift_core.Sstable.ReadBack.{write_run}
use sift_core.Wal.{Wal}

-- The schedule has no faults left.
abbrev pub IsCalm : Disk → Type 0
IsCalm d = d.faults ≡ []

write_table-IsCalm :
    (tmp : FileName) (w : SstableWriter) (final : FileName) (files : Files)
    → w.path ≡ tmp
    → (meta : SstableMeta) × ((write_table tmp w final (record { files = files; faults = [] })).0
        ≡ ok meta)
      × IsCalm (write_table tmp w final (record { files = files; faults = [] })).1
unfolding write_table create finish_and_rename finish write sync_data rename
write_table-IsCalm tmp w final files path = (
  record (meta_of w) { path = final },
  ground (
    arith,
    path,
    lookup-store w.path w.path (contents w.path (store tmp [] files) ++ file_bytes w)
        (store tmp [] files),
    name_eq_refl w.path,
  ),
  ground (
    arith,
    path,
    lookup-store w.path w.path (contents w.path (store tmp [] files) ++ file_bytes w)
        (store tmp [] files),
    name_eq_refl w.path,
  ),
)

calm_disk_eta : (d : Disk) → IsCalm d → d ≡ record { files = d.files; faults = [] }
calm_disk_eta d h = ap (λ fs. record { files = d.files; faults = fs }) h

write_table_answers :
    (tmp : FileName) (w : SstableWriter) (final : FileName) (d : Disk)
    → w.path ≡ tmp
    → IsCalm d
    → (meta : SstableMeta) × ((write_table tmp w final d).0 ≡ ok meta)
      × IsCalm (write_table tmp w final d).1
write_table_answers tmp w final d path calm =
    let (meta, answers, still) = write_table-IsCalm tmp w final d.files path in
    let e = calm_disk_eta d calm in
    (
      meta,
      ap (λ x. (write_table tmp w final x).0) e ∙ answers,
      ap (λ x. (write_table tmp w final x).1.faults) e ∙ still,
    )

reset_wal_answers :
    (db : LsmEngine) (d : Disk)
    → IsCalm d
    → ((reset_wal db d).0 ≡ ok tt) × IsCalm (reset_wal db d).2
unfolding reset_wal Wal.reset Wal.fresh Wal.drop_writer create write
reset_wal_answers db d calm = ground (arith, calm)

write_memtable_answers :
    (id : ℕ) (m : MemTable) (d : Disk)
    → IsCalm d
    → (meta : SstableMeta) × ((write_memtable id m d).0 ≡ ok meta)
      × IsCalm (write_memtable id m d).1
write_memtable_answers id m d calm =
    let e = write_memtable-write_table id m d in
    let (meta, answers, still) =
      write_table_answers (sst_tmp id) (flush_writer id m) (sst id) d (flush_path id m) calm in
    (meta, ap (λ t. t.0) e ∙ answers, ap (λ t. t.1.faults) e ∙ still)

compact_answers :
    (ts : List SstableMeta) (runs : List (List Entry)) (id : ℕ) (is_last_level : Bool) (d : Disk)
    → AllStored d ts runs
    → IsCalm d
    → (meta : SstableMeta) × ((compact ts id is_last_level d).0 ≡ ok meta)
compact_answers ts runs id is_last_level d s calm =
    let (es, same, up, whole) = compact-write_table ts runs id is_last_level d s in
    let out = surviving is_last_level none es in
    let (meta, answers, still) =
      write_table_answers (sst_tmp id) (write_run (sst_tmp id) (sum_counts ts) out) (sst id) d
        (write_run_path (sst_tmp id) (sum_counts ts) out) calm in
    (meta, ap (λ t. t.0) whole ∙ answers)

maybe_compact_answers :
    (db : LsmEngine) (runs : List (List Entry)) (d : Disk)
    → AllStored d db.tiers runs
    → IsCalm d
    → (maybe_compact db d).0 ≡ ok tt
unfolding maybe_compact
maybe_compact_answers db runs d s calm =
    let (meta, answers) = compact_answers db.tiers runs db.next_sst_id true d s calm in
    elim (Bool-cases (should_compact (length db.tiers))) [
      | inl full ↦ ground (arith, full, answers)
      | inr early ↦ ground (arith, early)
    ]

flush_of_steps :
    (db db1 db2 : LsmEngine) (d d1 d2 : Disk)
    → MemTable.is_empty db.memtable ≡ false
    → flush_table db d ≡ (ok tt, db1, d1)
    → reset_wal db1 d1 ≡ (ok tt, db2, d2)
    → flush db d ≡ maybe_compact db2 d2
unfolding flush
flush_of_steps db db1 db2 d d1 d2 full e1 e2 = ground (arith, full, e1, e2)

-- Where nothing fails, a flush of a sound engine answers.
flush_answers :
    (db : LsmEngine) (d : Disk) (runs : List (List Entry))
    → IsStore db d runs
    → FlushRoom db runs
    → IsCalm d
    → (flush db d).0 ≡ ok tt
flush_answers db d runs s room calm = elim (Bool-cases (MemTable.is_empty db.memtable)) [
  | inl empty ↦ unfold flush in ground (arith, empty)
  | inr full ↦
      let (meta, made, calm1) = write_memtable_answers db.next_sst_id db.memtable d calm in
      let d1 = (write_memtable db.next_sst_id db.memtable d).1 in
      let (cut_, calm2) = reset_wal_answers (after_flush db meta) d1 calm1 in
      let (w, e2, s2) =
        reset_wal-IsStore (after_flush db meta) d1 (db.memtable.entries ∷ runs)
          (flush_table-IsStore db d runs meta s room made) cut_ in
      ap (λ t. t.0)
        (flush_of_steps db (after_flush db meta) (record (after_flush db meta) { wal = w }) d d1
          (reset_wal (after_flush db meta) d1).2 full (flush_table_engine db d meta made) e2)
      ∙ maybe_compact_answers (record (after_flush db meta) { wal = w })
          (db.memtable.entries ∷ runs) (reset_wal (after_flush db meta) d1).2 s2.stored calm2
]

pub maybe_flush_answers :
    (db : LsmEngine) (d : Disk) (runs : List (List Entry))
    → IsStore db d runs
    → FlushRoom db runs
    → IsCalm d
    → (maybe_flush db d).0 ≡ ok tt
unfolding maybe_flush
maybe_flush_answers db d runs s room calm =
    elim (Bool-cases (leb db.flush_threshold_bytes db.memtable.approx_bytes)) [
      | inl reached ↦ rw reached (flush_answers db d runs s room calm)
      | inr below ↦ rw below refl
    ]
