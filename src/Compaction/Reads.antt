-- ===== src/Compaction/Reads.antt =====
-- src/compaction.rs: reads of tables before and behind a compaction.
use sift_core.Sstable.Table
use native.Mathlib.Bridge.{le_prop}
use sift_core.Sstable.Records.{Fits}
use mathlib.Core.List.{Perm}
use mathlib.Core.List.Perm as Perm
use sift_core.Bytes.{Bytes}
use sift_core.Compaction.{sum_counts, compact, lookup_in_tiers, is_newest_for_key}
use sift_core.Compaction.Files.{path-add_entries, lookup-write_table}
use sift_core.Compaction.Merged.{compact-write_table}
use sift_core.Compaction.Newest.{first_found, NewestFirst}
use sift_core.Compaction.Shadowed.{All-surviving, surviving-IsSorted}
use sift_core.Compaction.Size.{merged_small, entry_size, sum_counts-total}
use sift_core.Compaction.Stored.{Stored, AllStored, flat, flat-Fits}
use sift_core.Compaction.Surviving.{surviving, Ascending}
use sift_core.Disk.{FileName, sst, sst_tmp, name_eq, Disk, lookup, read_file}
use sift_core.Disk.Laws.{name_eq_refl}
use sift_core.Key.{Seq, Value, Entry, max_seq}
use sift_core.Key.Order.{IsSorted}
use sift_core.Key.Snapshot.{find_visible}
use sift_core.Prelude.{
  ℕ, ◌^◌, ◌≤◌, ◌<◌, ◌≡◌, refl, sym, ap, ◌∙◌, Bool, false, Option, none, some, List, [], ◌∷◌, arith,
  All, All-Perm, Option-cases, total,
}
use sift_core.Result.{ok}
use sift_core.Sstable.{SstableMeta, new_writer}
use sift_core.Sstable.ReadBack.{write_run, get-write_run, count-length}
use sift_core.Sstable.Table.{Sstable, open_bytes, open_table}
use sift_core.Sstable.Versions.{versions}
use sift_core.Compaction.Kept.{kept, surviving-versions, surviving-find_visible}
use sift_core.Compaction.Tiers.{find_visible-merged}

pub open_stored :
    (d : Disk) (t : SstableMeta) (file : Bytes) (table : Sstable)
    → lookup t.path d.files ≡ some file
    → open_bytes t.path file ≡ ok table
    → open_table t.path d ≡ ok table
unfolding open_table read_file
open_stored d t file table found opens = ground (arith, found, opens)

lookup_step :
    (t : SstableMeta) (ts : List SstableMeta) (key : Bytes) (as_of : Seq) (d : Disk)
    (table : Sstable) (o rest : Option Value)
    → open_table t.path d ≡ ok table
    → Table.get table key as_of ≡ ok o
    → lookup_in_tiers ts key as_of d ≡ ok rest
    → lookup_in_tiers (t ∷ ts) key as_of d
      ≡ ok (elim o as (λ _. Option Value) [ none ↦ rest | some v ↦ some v ])
unfolding lookup_in_tiers
lookup_step t ts key as_of d table none rest opens gets others = ground (arith, opens, gets, others)
lookup_step t ts key as_of d table (some v) rest opens gets others = ground (arith, opens, gets)

-- A lookup across stored tables returns the first answer of their runs, at every snapshot, if each
-- run holds 16 versions of the key at most.
pub lookup_in_tiers-first_found :
    (d : Disk) (ts : List SstableMeta) (runs : List (List Entry)) (key : Bytes) (as_of : Seq)
    → AllStored d ts runs
    → All (λ (es : List Entry). versions key es ≤ 16) runs
    → lookup_in_tiers ts key as_of d ≡ ok (first_found key as_of runs)
lookup_in_tiers-first_found d [] [] key as_of s few = unfold lookup_in_tiers in refl
lookup_in_tiers-first_found d [] (es ∷ runs) key as_of s few = elim s [ ]
lookup_in_tiers-first_found d (t ∷ ts) [] key as_of s few = elim s [ ]
lookup_in_tiers-first_found d (t ∷ ts) (es ∷ runs) key as_of s few =
    let (opens, gets) =
      get-write_run s.0.from s.0.expected es s.0.fits s.0.small t.path key as_of s.0.sorted few.0 in
    lookup_step t ts key as_of d _ (find_visible key as_of es) (first_found key as_of runs)
      (open_stored d t _ _ s.0.found opens) gets
      (lookup_in_tiers-first_found d ts runs key as_of s.1 few.1)

pub AllStored-IsSorted :
    (d : Disk) (ts : List SstableMeta) (runs : List (List Entry))
    → AllStored d ts runs
    → All IsSorted runs
AllStored-IsSorted d [] [] s = tt
AllStored-IsSorted d [] (es ∷ runs) s = elim s [ ]
AllStored-IsSorted d (t ∷ ts) [] s = elim s [ ]
AllStored-IsSorted d (t ∷ ts) (es ∷ runs) s = (s.0.sorted, AllStored-IsSorted d ts runs s.1)

pub write_run_path :
    (path : FileName) (expected : ℕ) (es : List Entry) → (write_run path expected es).path ≡ path
unfolding new_writer
write_run_path path expected es = path-add_entries (new_writer path expected) es

-- The inputs of a compaction are small enough for its output to be read.
abbrev pub Bounded : List (List Entry) → Type 0
Bounded runs = total entry_size (flat runs) < 2 ^ 55

-- What a compaction that answers leaves: a stored table of what survives of the entries, and the
-- other files as they were.
pub record Compacted (runs : List (List Entry)) (id : ℕ) (is_last_level : Bool) (d d' : Disk)
    (meta : SstableMeta) : Type 0 where
  pub es : List Entry
  pub same : Perm es (flat runs)
  pub up : Ascending es
  pub fits : All Fits es
  pub stored : Stored d' meta (surviving is_last_level none es)
  pub path : meta.path ≡ sst id
  pub others :
      (n : FileName)
      → name_eq (sst id) n ≡ false
      → name_eq (sst_tmp id) n ≡ false
      → lookup n d'.files ≡ lookup n d.files

first_only :
    (key : Bytes) (as_of : Seq) (es : List Entry)
    → first_found key as_of (es ∷ []) ≡ find_visible key as_of es
first_only key as_of es = ground (arith, Option-cases (find_visible key as_of es))

Fits-prop : (e : Entry) → IsProp (Fits e)
Fits-prop e = hlevel le_prop

pub compact-Compacted :
    (ts : List SstableMeta) (runs : List (List Entry)) (id : ℕ) (is_last_level : Bool) (d : Disk)
    (meta : SstableMeta)
    → AllStored d ts runs
    → Bounded runs
    → (compact ts id is_last_level d).0 ≡ ok meta
    → Compacted runs id is_last_level d (compact ts id is_last_level d).1 meta
compact-Compacted ts runs id is_last_level d meta s bounded h =
    let (es, same, up, whole) = compact-write_table ts runs id is_last_level d s in
    let out = surviving is_last_level none es in
    let fits = All-Perm Fits Fits-prop (Perm.symm same) (flat-Fits d ts runs s) in
    let (path, count, files) =
      lookup-write_table (sst_tmp id) (write_run (sst_tmp id) (sum_counts ts) out) (sst id) d meta
        (write_run_path (sst_tmp id) (sum_counts ts) out) (ap (λ t. t.0) (sym whole) ∙ h) in
    let small =
      merged_small (sst_tmp id) (sum_counts ts) is_last_level es (flat runs) same
        (omega (arith, bounded)) (omega (arith, bounded, sum_counts-total d ts runs s)) in
    record {
      es = es;
      same = same;
      up = up;
      fits = fits;
      stored = record {
        from = sst_tmp id;
        expected = sum_counts ts;
        fits = All-surviving Fits is_last_level none es fits;
        sorted = surviving-IsSorted is_last_level none es up;
        small = small;
        count =
            count
            ∙ count-length (sst_tmp id) (sum_counts ts) out
                (All-surviving Fits is_last_level none es fits) small;
        found =
            ap (λ n. lookup n (compact ts id is_last_level d).1.files) path
            ∙ ap (λ t. lookup (sst id) t.1.files) whole
            ∙ files (sst id)
            ∙ rw (name_eq_refl (sst id)) refl;
      };
      path = path;
      others = λ n no_table no_tmp.
          ap (λ t. lookup n t.1.files) whole ∙ files n ∙ rw (no_table, no_tmp) refl;
    }

-- What survives answers the reads of now as the runs did, but for the tombstones.
pub kept_found :
    {id : ℕ} {is_last_level : Bool} {d : Disk} (runs : List (List Entry)) (d' : Disk)
    (meta : SstableMeta) (c : Compacted runs id is_last_level d d' meta) (key : Bytes)
    → All IsSorted runs
    → NewestFirst runs
    → first_found key max_seq (surviving is_last_level none c.es ∷ [])
      ≡ kept is_last_level (first_found key max_seq runs)
kept_found {is_last_level = is_last_level} runs d' meta c key sorted aged =
    first_only key max_seq (surviving is_last_level none c.es)
    ∙ surviving-find_visible is_last_level none key c.es c.up c.fits
        (unfold is_newest_for_key in refl)
    ∙ ap (kept is_last_level) (find_visible-merged key max_seq runs c.es sorted aged c.same c.up)

-- What a compaction keeps of the reads of now: where it answers, the newest version of a key is
-- found behind it as before it, but for tombstones at the last level. The inputs are stored tables
-- of fewer than 2 ^ 55 bytes, newer versions stand before older ones, and no input holds more than
-- 16 versions of the key.
pub compact_reads :
    (ts : List SstableMeta) (runs : List (List Entry)) (id : ℕ) (is_last_level : Bool) (d : Disk)
    (meta : SstableMeta) (key : Bytes)
    → AllStored d ts runs
    → NewestFirst runs
    → All (λ (es : List Entry). versions key es ≤ 16) runs
    → Bounded runs
    → (compact ts id is_last_level d).0 ≡ ok meta
    → (found : Option Value) × (lookup_in_tiers ts key max_seq d ≡ ok found)
      × (lookup_in_tiers (meta ∷ []) key max_seq (compact ts id is_last_level d).1
          ≡ ok (kept is_last_level found))
compact_reads ts runs id is_last_level d meta key s aged few bounded h =
    let c = compact-Compacted ts runs id is_last_level d meta s bounded h in
    (
      first_found key max_seq runs,
      lookup_in_tiers-first_found d ts runs key max_seq s few,
      lookup_in_tiers-first_found (compact ts id is_last_level d).1 (meta ∷ [])
            (surviving is_last_level none c.es ∷ []) key max_seq (c.stored, tt)
            (omega (arith, surviving-versions is_last_level none key c.es c.up), tt)
          ∙ ap ok (
              kept_found runs (compact ts id is_last_level d).1 meta c key
                (AllStored-IsSorted d ts runs s) aged),
    )
