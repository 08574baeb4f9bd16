-- ===== src/Lsm/OpenTables.antt =====
-- src/lsm.rs, `LsmEngine::open`: which tables it finds in a directory.
use sift_core.Bytes.{Bytes}
use sift_core.Compaction.{lookup_in_tiers}
use sift_core.Disk.{
  FileName, wal_log, sst, sst_tmp, foreign, name_eq, Files, Disk, lookup, without, remove_file,
  read_file, store,
}
use sift_core.Key.{Seq}
use sift_core.Lsm.{LsmEngine}
use sift_core.Lsm.Open.{table_ids, remove_temporaries, sort_desc, open_tiers}
use sift_core.Prelude.{ℕ, ◌≡◌, refl, ap, ◌∙◌, List, [], ◌∷◌, arith, sym, inl, inr, ◌-◌, length}
use sift_core.Result.{ok, Result, err, panicked, Result-cases}
use sift_core.Sstable.{SstableMeta, footer_size}
use sift_core.Sstable.Table.{
  Sstable, read_blocks, open_bytes, open_table, into_meta, footer_word, footer_of,
}
use sift_core.Disk.Laws.{remove_file-others}

abbrev pub paths : List SstableMeta → List FileName
paths [] = []
paths (t ∷ ts) = t.path ∷ paths ts

abbrev pub sst_names : List ℕ → List FileName
sst_names [] = []
sst_names (id ∷ ids) = sst id ∷ sst_names ids

-- The tables of the directory are those of the engine, the highest number first.
abbrev pub IsListed : LsmEngine → Disk → Type 0
IsListed db d = paths db.tiers ≡ sst_names (sort_desc (table_ids d.files))

-- A lookup across tables knows them by their paths.
pub lookup_in_tiers-paths :
    (ts ts' : List SstableMeta) (key : Bytes) (as_of : Seq) (d : Disk)
    → paths ts ≡ paths ts'
    → lookup_in_tiers ts key as_of d ≡ lookup_in_tiers ts' key as_of d
unfolding lookup_in_tiers
lookup_in_tiers-paths [] [] key as_of d h = refl
lookup_in_tiers-paths [] (t ∷ ts) key as_of d h = absurd (cc)
lookup_in_tiers-paths (t ∷ ts) [] key as_of d h = absurd (cc)
lookup_in_tiers-paths (t ∷ ts) (t' ∷ ts') key as_of d h =
    let path : t.path ≡ t'.path = cc in
    let others : paths ts ≡ paths ts' = cc in
    ground (arith, path, lookup_in_tiers-paths ts ts' key as_of d others)

read_blocks_path :
    (path : FileName) (file : Bytes) (bound start bo nb nh ec : ℕ) (t : Sstable)
    → read_blocks path file bound start bo nb nh ec ≡ ok t
    → t.path ≡ path
unfolding read_blocks
read_blocks_path path file bound start bo nb nh ec t h = ground (arith, h)

open_bytes_path :
    (path : FileName) (file : Bytes) (t : Sstable) → open_bytes path file ≡ ok t → t.path ≡ path
unfolding open_bytes
open_bytes_path path file t h =
    let footer = footer_of file in
    ground (
      arith,
      h,
      read_blocks_path path file (length file - footer_size) (footer_word footer 0)
          (footer_word footer 2) (footer_word footer 3) (footer_word footer 4)
          (footer_word footer 5) t,
    )

open_table_path :
    (path : FileName) (d : Disk) (t : Sstable) → open_table path d ≡ ok t → t.path ≡ path
unfolding open_table
open_table_path path d t h = elim (Result-cases (read_file path d)) [
  | inl (file, e) ↦ open_bytes_path path file t (ground (arith, h, e))
  | inr (inl (x, e)) ↦ absurd (ground (arith, h, e))
  | inr (inr e) ↦ absurd (ground (arith, h, e))
]

abbrev held_tiers : Result (List SstableMeta) → List SstableMeta
held_tiers (ok l) = l
held_tiers (err e) = []
held_tiers panicked = []

pub open_tiers-paths :
    (ids : List ℕ) (d : Disk) (ms : List SstableMeta)
    → open_tiers ids d ≡ ok ms
    → paths ms ≡ sst_names ids
unfolding open_tiers into_meta
open_tiers-paths [] d ms h = ap (λ r. paths (held_tiers r)) (sym h)
open_tiers-paths (id ∷ ids) d ms h = elim (Result-cases (open_table (sst id) d)) [
  | inl (t, opens) ↦ elim (Result-cases (open_tiers ids d)) [
    | inl (rest, others) ↦
        let path = open_table_path (sst id) d t opens in
        let below = open_tiers-paths ids d rest others in
        ground (arith, h, opens, others, path, below)
    | inr (inl (e, others)) ↦ absurd (ground (arith, h, opens, others))
    | inr (inr others) ↦ absurd (ground (arith, h, opens, others))
  ]
  | inr (inl (e, opens)) ↦ absurd (ground (arith, h, opens))
  | inr (inr opens) ↦ absurd (ground (arith, h, opens))
]

-- The log is no table.
table_ids-without : (fs : Files) → table_ids (without wal_log fs) ≡ table_ids fs
unfolding table_ids without name_eq
table_ids-without [] = refl
table_ids-without ((wal_log, x) ∷ fs) = table_ids-without fs
table_ids-without ((sst id, x) ∷ fs) = ap (λ t. id ∷ t) (table_ids-without fs)
table_ids-without ((sst_tmp id, x) ∷ fs) = table_ids-without fs
table_ids-without ((foreign id, x) ∷ fs) = table_ids-without fs

pub table_ids-store : (x : Bytes) (fs : Files) → table_ids (store wal_log x fs) ≡ table_ids fs
unfolding table_ids store
table_ids-store x fs = table_ids-without fs

-- The removal of unfinished files touches no table.
pub remove_temporaries-tables :
    (fs : Files) (d : Disk) (id : ℕ)
    → lookup (sst id) (remove_temporaries fs d).files ≡ lookup (sst id) d.files
unfolding remove_temporaries
remove_temporaries-tables [] d id = refl
remove_temporaries-tables ((wal_log, x) ∷ fs) d id = remove_temporaries-tables fs d id
remove_temporaries-tables ((sst k, x) ∷ fs) d id = remove_temporaries-tables fs d id
remove_temporaries-tables ((foreign k, x) ∷ fs) d id = remove_temporaries-tables fs d id
remove_temporaries-tables ((sst_tmp k, x) ∷ fs) d id =
    remove_temporaries-tables fs (remove_file (sst_tmp k) d) id
    ∙ remove_file-others (sst_tmp k) (sst id) d (unfold name_eq in refl)
