-- ===== src/Lsm/Flushes.antt =====
-- src/lsm.rs, `flush`: the whole of it, with the compaction that may follow.
use sift_core.MemTable
use sift_core.MemTable.{MemTable}
use sift_core.MemTable.Reads.{IsValid}
use sift_core.Sstable.Records.{Fits}
use sift_core.Wal
use sift_core.Wal.{Wal}
use sift_core.Compaction.Reads.{Bounded}
use sift_core.Compaction.Size.{entry_size, write_run_small}
use sift_core.Compaction.Stored.{Stored, flat}
use sift_core.Disk.{sst, sst_tmp, Disk, lookup}
use sift_core.Disk.Laws.{name_eq_refl}
use sift_core.Key.{Entry}
use sift_core.Lsm.{
  LsmEngine, write_memtable, reset_wal, flush_table, flush, maybe_compact, maybe_flush,
}
use sift_core.Lsm.Flush.{
  flush_writer, flush_path_of, flush_count, flush_lookup, tiers_keep, flush_table_steps,
}
use sift_core.Lsm.Tables.{
  IsStore, AllStored-agree, Numbered-NamesOthers, Numbered-later, Numbered-NoLog, IsStore-wal,
}
use sift_core.Prelude.{
  ℕ, ◌+◌, ◌/◌, ◌%◌, ◌^◌, ◌<◌, max, ◌≡◌, refl, ap, ◌∙◌, List, ◌∷◌, arith, length, All, total-append,
  subst, sym, inl, inr, true, [], Bool-cases, leb,
}
use sift_core.Result.{ok, Result-cases}
use sift_core.Sstable.{SstableMeta, file_bytes}
use sift_core.Sstable.ReadBack.{count-length}
use sift_core.Key.Snapshot.{find_visible}
use sift_core.Lsm.Compacts.{SameReads, maybe_compact-IsStore}
use sift_core.Lsm.FlushWhole.{flush_steps, reset-Keeps}
use sift_core.Sstable.Versions.{versions}

-- The engine has room for a flush: the sizes of its memtable and of all it holds, and the number of
-- the next tables.
pub record FlushRoom (db : LsmEngine) (runs : List (List Entry)) : Type 0 where
  pub numbers : db.next_sst_id + 2 < 2 ^ 64
  pub estimate : db.memtable.approx_bytes < 2 ^ 60
  pub bounded : Bounded (db.memtable.entries ∷ runs)

flush_writer_small :
    (db : LsmEngine) (runs : List (List Entry))
    → FlushRoom db runs
    → length (file_bytes (flush_writer db.next_sst_id db.memtable)) < 2 ^ 60
flush_writer_small db runs room =
    write_run_small (sst_tmp db.next_sst_id) (max (db.memtable.approx_bytes / 48) 1)
      db.memtable.entries
      (omega (arith, room.bounded, total-append entry_size db.memtable.entries (flat runs)))
      (omega (arith, room.estimate))

flushed-Stored :
    (id : ℕ) (m : MemTable) (d : Disk) (meta : SstableMeta)
    → IsValid m
    → All Fits m.entries
    → length (file_bytes (flush_writer id m)) < 2 ^ 60
    → (write_memtable id m d).0 ≡ ok meta
    → Stored (write_memtable id m d).1 meta m.entries
flushed-Stored id m d meta valid fits small h = record {
  from = sst_tmp id;
  expected = max (m.approx_bytes / 48) 1;
  fits = fits;
  sorted = valid.sorted;
  small = small;
  count =
      flush_count id m d meta h
      ∙ count-length (sst_tmp id) (max (m.approx_bytes / 48) 1) m.entries fits small;
  found =
      ap (λ n. lookup n (write_memtable id m d).1.files) (flush_path_of id m d meta h)
      ∙ flush_lookup id m d meta (sst id) h
      ∙ rw (name_eq_refl (sst id)) refl;
}

abbrev pub after_flush : LsmEngine → SstableMeta → LsmEngine
after_flush db meta = record db {
  tiers = meta ∷ db.tiers;
  memtable = MemTable.clear db.memtable;
  next_sst_id = (db.next_sst_id + 1) % 2 ^ 64;
}

pub flush_table_engine :
    (db : LsmEngine) (d : Disk) (meta : SstableMeta)
    → (write_memtable db.next_sst_id db.memtable d).0 ≡ ok meta
    → flush_table db d
      ≡ (ok tt, after_flush db meta, (write_memtable db.next_sst_id db.memtable d).1)
unfolding flush_table
flush_table_engine db d meta h = ground (arith, h)

-- The first half of a flush makes the memtable the newest of the runs.
pub flush_table-IsStore :
    (db : LsmEngine) (d : Disk) (runs : List (List Entry)) (meta : SstableMeta)
    → IsStore db d runs
    → FlushRoom db runs
    → (write_memtable db.next_sst_id db.memtable d).0 ≡ ok meta
    → IsStore
        (after_flush db meta)
        (write_memtable db.next_sst_id db.memtable d).1
        (db.memtable.entries ∷ runs)
unfolding MemTable.clear
flush_table-IsStore db d runs meta s room made = record {
  valid = record { sorted = tt; fits = tt; counted = omega arith };
  fits = tt;
  stored = (
    flushed-Stored db.next_sst_id db.memtable d meta s.valid s.fits
        (flush_writer_small db runs room) made,
    AllStored-agree d (write_memtable db.next_sst_id db.memtable d).1 db.tiers runs
        (tiers_keep db.next_sst_id db.memtable d meta db.tiers made
          (Numbered-NamesOthers db.next_sst_id db.tiers s.named))
        s.stored,
  );
  aged = (tt, s.aged);
  older = s.older;
  named = (
    (
      db.next_sst_id,
      flush_path_of db.next_sst_id db.memtable d meta made,
      omega (arith, room.numbers),
    ),
    Numbered-later db.next_sst_id ((db.next_sst_id + 1) % 2 ^ 64) db.tiers
        (omega (arith, room.numbers)) s.named,
  );
}

SameReads-behind_empty :
    (runs after : List (List Entry)) → SameReads ([] ∷ runs) after → SameReads runs after
SameReads-behind_empty runs after r = record {
  same = λ key. r.same key ∙ (unfold find_visible in refl);
  few = λ key few. r.few key ((unfold versions in omega arith), few);
}

reset_steps :
    (db : LsmEngine) (d : Disk)
    → (reset_wal db d).0 ≡ ok tt
    → (w : Wal) × (reset_wal db d ≡ (ok tt, record db { wal = w }, (reset_wal db d).2))
unfolding reset_wal
reset_steps db d h = elim (Result-cases (Wal.reset d).0) [
  | inl (w, e) ↦ (w, ground (arith, e))
  | inr (inl (x, e)) ↦ absurd (ground (arith, e, h))
  | inr (inr e) ↦ absurd (ground (arith, e, h))
]

-- The reset of the log keeps what the engine keeps.
pub reset_wal-IsStore :
    (db : LsmEngine) (d : Disk) (runs : List (List Entry))
    → IsStore db d runs
    → (reset_wal db d).0 ≡ ok tt
    → (w : Wal) × (reset_wal db d ≡ (ok tt, record db { wal = w }, (reset_wal db d).2))
      × IsStore (record db { wal = w }) (reset_wal db d).2 runs
reset_wal-IsStore db d runs s h =
    let (w, e) = reset_steps db d h in
    (
      w,
      e,
      IsStore-wal db d (reset_wal db d).2 runs w s
          (reset-Keeps db d db.tiers (Numbered-NoLog db.next_sst_id db.tiers s.named)),
    )

-- A flush that answers keeps what the engine keeps and the first answers of its runs, whether a
-- compaction follows it or not.
pub flush-IsStore :
    (db : LsmEngine) (d : Disk) (runs : List (List Entry))
    → IsStore db d runs
    → FlushRoom db runs
    → (flush db d).0 ≡ ok tt
    → (runs' : List (List Entry)) × IsStore (flush db d).1 (flush db d).2 runs'
      × SameReads (db.memtable.entries ∷ runs) ((flush db d).1.memtable.entries ∷ runs')
unfolding MemTable.clear
flush-IsStore db d runs s room h = elim (Bool-cases (MemTable.is_empty db.memtable)) [
  | inl empty ↦
      let whole = nothing_to_do empty in
      (
        runs,
        subst (λ t. IsStore t.1 t.2 runs) (sym whole) s,
        subst (λ t. SameReads (db.memtable.entries ∷ runs) (t.1.memtable.entries ∷ runs))
            (sym whole) (record { same = λ key. refl; few = λ key few. few }),
      )
  | inr full ↦
      let (first, cut, same) = flush_steps db d full h in
      let (meta, (made, tiers, cleared, disk)) = flush_table_steps db d first in
      let d1 = (write_memtable db.next_sst_id db.memtable d).1 in
      let e1 = flush_table_engine db d meta made in
      let s1 = flush_table-IsStore db d runs meta s room made in
      let cut1 = subst (λ t. (reset_wal t.1 t.2).0 ≡ ok tt) e1 cut in
      let (w, e2, s2) =
        reset_wal-IsStore (after_flush db meta) d1 (db.memtable.entries ∷ runs) s1 cut1 in
      let whole =
        same
        ∙ ap (λ t. maybe_compact (reset_wal t.1 t.2).1 (reset_wal t.1 t.2).2) e1
        ∙ ap (λ t. maybe_compact t.1 t.2) e2 in
      let (runs', s3, reads) =
        maybe_compact-IsStore (record (after_flush db meta) { wal = w })
          (reset_wal (after_flush db meta) d1).2 (db.memtable.entries ∷ runs) s2 room.bounded
          (omega (arith, room.numbers)) (ap (λ t. t.0) (sym whole) ∙ h) in
      (
        runs',
        subst (λ t. IsStore t.1 t.2 runs') (sym whole) s3,
        subst (λ t. SameReads (db.memtable.entries ∷ runs) (t.1.memtable.entries ∷ runs'))
            (sym whole) (SameReads-behind_empty (db.memtable.entries ∷ runs) _ reads),
      )
]
  where
    nothing_to_do : MemTable.is_empty db.memtable ≡ true → flush db d ≡ (ok tt, db, d)
    nothing_to_do empty = unfold flush in ground (arith, empty)

-- `maybe_flush`, likewise.
pub maybe_flush-IsStore :
    (db : LsmEngine) (d : Disk) (runs : List (List Entry))
    → IsStore db d runs
    → FlushRoom db runs
    → (maybe_flush db d).0 ≡ ok tt
    → (runs' : List (List Entry)) × IsStore (maybe_flush db d).1 (maybe_flush db d).2 runs'
      × SameReads (db.memtable.entries ∷ runs) ((maybe_flush db d).1.memtable.entries ∷ runs')
unfolding maybe_flush
maybe_flush-IsStore db d runs s room h =
    elim (Bool-cases (leb db.flush_threshold_bytes db.memtable.approx_bytes)) [
      | inl reached ↦ rw reached (flush-IsStore db d runs s room (flushed reached))
      | inr below ↦ rw below (runs, s, record { same = λ key. refl; few = λ key few. few })
    ]
  where
    flushed : leb db.flush_threshold_bytes db.memtable.approx_bytes ≡ true → (flush db d).0 ≡ ok tt
    flushed reached = ground (arith, reached, h)
