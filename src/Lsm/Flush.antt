-- ===== src/Lsm/Flush.antt =====
-- A flush moves the memtable to a table and leaves every read as it was.
use sift_core.MemTable
use sift_core.MemTable.Reads.{IsValid}
use sift_core.Sstable.Records.{Fits}
use sift_core.MemTable.{MemTable}
use sift_core.Lsm.{write_memtable, LsmEngine, flush_table}
use sift_core.Compaction.{lookup_in_tiers}
use sift_core.Compaction.Files.{path-add_entries, write_table, lookup-write_table}
use sift_core.Sstable.{SstableMeta, new_writer, file_bytes, SstableWriter}
use sift_core.Sstable.ReadBack.{write_run, get-write_run}
use sift_core.Sstable.Table.{open_table}
use sift_core.Bytes.{Bytes}
use sift_core.Disk.{FileName, sst, sst_tmp, name_eq, Disk, lookup, read_file}
use sift_core.Disk.Laws.{name_eq_refl}
use sift_core.Key.{Seq, Value}
use sift_core.Prelude.{
  ℕ, ◌/◌, max, ◌≡◌, refl, ap, ◌∙◌, none, some, List, [], ◌∷◌, arith, if◌then◌else◌, All, false,
  All-imp, ◌^◌, ◌≤◌, ◌<◌, Option, length, sym,
}
use sift_core.Result.{ok, Result, err, panicked}
use sift_core.Key.Snapshot.{find_visible}
use sift_core.Sstable.Versions.{versions}

-- The writer of a flush, after the memtable went through it.
abbrev pub flush_writer : ℕ → MemTable → SstableWriter
flush_writer id m = write_run (sst_tmp id) (max (m.approx_bytes / 48) 1) m.entries

pub flush_path : (id : ℕ) (m : MemTable) → (flush_writer id m).path ≡ sst_tmp id
unfolding new_writer
flush_path id m = path-add_entries (new_writer (sst_tmp id) (max (m.approx_bytes / 48) 1)) m.entries

pub write_memtable-write_table :
    (id : ℕ) (m : MemTable) (d : Disk)
    → write_memtable id m d ≡ write_table (sst_tmp id) (flush_writer id m) (sst id) d
unfolding write_memtable write_table
write_memtable-write_table id m d = refl

pub flush_path_of :
    (id : ℕ) (m : MemTable) (d : Disk) (meta : SstableMeta)
    → (write_memtable id m d).0 ≡ ok meta
    → meta.path ≡ sst id
flush_path_of id m d meta h =
    (lookup-write_table (sst_tmp id) (flush_writer id m) (sst id) d meta (flush_path id m)
      (ap (λ t. t.0) (sym (write_memtable-write_table id m d)) ∙ h)).0

pub flush_count :
    (id : ℕ) (m : MemTable) (d : Disk) (meta : SstableMeta)
    → (write_memtable id m d).0 ≡ ok meta
    → meta.entry_count ≡ (flush_writer id m).entry_count
flush_count id m d meta h =
    (lookup-write_table (sst_tmp id) (flush_writer id m) (sst id) d meta (flush_path id m)
      (ap (λ t. t.0) (sym (write_memtable-write_table id m d)) ∙ h)).1

-- A flush changes no file but its table and the temporary of that table.
pub flush_lookup :
    (id : ℕ) (m : MemTable) (d : Disk) (meta : SstableMeta) (n : FileName)
    → (write_memtable id m d).0 ≡ ok meta
    → lookup n (write_memtable id m d).1.files ≡ (
        if name_eq (sst id) n
        then some (file_bytes (flush_writer id m))
        else if name_eq (sst_tmp id) n
        then none
        else lookup n d.files)
flush_lookup id m d meta n h =
    let same = write_memtable-write_table id m d in
    ap (λ t. lookup n t.1.files) same
    ∙ (lookup-write_table (sst_tmp id) (flush_writer id m) (sst id) d meta (flush_path id m)
          (ap (λ t. t.0) (sym same) ∙ h)).2
        n

-- A lookup across tables reads the files of the tables only.
pub lookup_in_tiers-agree :
    (tiers : List SstableMeta) (key : Bytes) (as_of : Seq) (d d' : Disk)
    → All (λ (m : SstableMeta). lookup m.path d'.files ≡ lookup m.path d.files) tiers
    → lookup_in_tiers tiers key as_of d' ≡ lookup_in_tiers tiers key as_of d
unfolding lookup_in_tiers open_table read_file
lookup_in_tiers-agree [] key as_of d d' same = refl
lookup_in_tiers-agree (m ∷ tiers) key as_of d d' same =
    ground (arith, same.0, lookup_in_tiers-agree tiers key as_of d d' same.1)

-- The tables have other names than the files of table `id`.
abbrev pub NamesOthers : ℕ → List SstableMeta → Type 0
NamesOthers id tiers =
    All
      (λ (m : SstableMeta).
        (name_eq (sst id) m.path ≡ false) × (name_eq (sst_tmp id) m.path ≡ false))
      tiers

pub tiers_keep :
    (id : ℕ) (m : MemTable) (d : Disk) (meta : SstableMeta) (tiers : List SstableMeta)
    → (write_memtable id m d).0 ≡ ok meta
    → NamesOthers id tiers
    → All
        (λ (t : SstableMeta). lookup t.path (write_memtable id m d).1.files ≡ lookup t.path d.files)
        tiers
tiers_keep id m d meta tiers h others =
    All-imp (λ t apart. flush_lookup id m d meta t.path h ∙ rw (apart.0, apart.1) refl) tiers others

-- What the memtable needs to fit a table: entries within the widths of the format, and a file
-- below 2 ^ 60 bytes.
abbrev pub Flushable : ℕ → MemTable → Type 0
Flushable id m = IsValid m × All Fits m.entries × (length (file_bytes (flush_writer id m)) < 2 ^ 60)

pub lookup-flushed :
    (id : ℕ) (m : MemTable) (d : Disk) (meta : SstableMeta) (tiers : List SstableMeta) (key : Bytes)
    (as_of : Seq)
    → Flushable id m
    → versions key m.entries ≤ 16
    → (write_memtable id m d).0 ≡ ok meta
    → lookup_in_tiers (meta ∷ tiers) key as_of (write_memtable id m d).1
      ≡ elim (find_visible key as_of m.entries) as (λ _. Result (Option Value)) [
        | some v ↦ ok (some v)
        | none ↦ lookup_in_tiers tiers key as_of (write_memtable id m d).1
      ]
unfolding lookup_in_tiers open_table read_file
lookup-flushed id m d meta tiers key as_of (valid, fits, small) once h =
    let (opens, reads) =
      get-write_run (sst_tmp id) (max (m.approx_bytes / 48) 1) m.entries fits small (sst id) key
        as_of valid.sorted once in
    ground (
      arith,
      flush_path_of id m d meta h,
      flush_lookup id m d meta (sst id) h,
      name_eq_refl (sst id),
      opens,
      reads,
    )

-- What a flush of the table leaves, if it answers.
abbrev pub FlushedTo : LsmEngine → Disk → SstableMeta → Type 0
FlushedTo db d meta =
    ((write_memtable db.next_sst_id db.memtable d).0 ≡ ok meta)
    × ((flush_table db d).1.tiers ≡ meta ∷ db.tiers)
    × ((flush_table db d).1.memtable ≡ MemTable.clear db.memtable)
    × ((flush_table db d).2 ≡ (write_memtable db.next_sst_id db.memtable d).1)

flush_table_ok :
    (db : LsmEngine) (d : Disk) (meta : SstableMeta)
    → (write_memtable db.next_sst_id db.memtable d).0 ≡ ok meta
    → FlushedTo db d meta
unfolding flush_table
flush_table_ok db d meta h = ground (arith, h)

pub flush_table_steps :
    (db : LsmEngine) (d : Disk)
    → (flush_table db d).0 ≡ ok tt
    → (meta : SstableMeta) × FlushedTo db d meta
unfolding flush_table
flush_table_steps db d h = steps (write_memtable db.next_sst_id db.memtable d).0 refl
  where
    steps :
        (r : Result SstableMeta)
        → (write_memtable db.next_sst_id db.memtable d).0 ≡ r
        → (meta : SstableMeta) × FlushedTo db d meta
    steps (ok meta) e = (meta, flush_table_ok db d meta e)
    steps (err x) e = absurd (ground (arith, h, e))
    steps panicked e = absurd (ground (arith, h, e))
