-- ===== src/Compaction/Stored.antt =====
-- What the tables of a directory hold: runs that writers put there.
use sift_core.Sstable.Records.{Fits}
use sift_core.Disk.{FileName, Disk, lookup}
use sift_core.Key.{Entry}
use sift_core.Key.Order.{IsSorted}
use sift_core.Prelude.{ℕ, ◌^◌, ◌<◌, ◌≡◌, some, List, [], ◌∷◌, ◌++◌, length, All, All-append}
use sift_core.Sstable.{SstableMeta, file_bytes}
use sift_core.Sstable.ReadBack.{write_run}

-- The table's file is what a writer made of the run.
pub record Stored (d : Disk) (t : SstableMeta) (es : List Entry) : Type 0 where
  pub from : FileName
  pub expected : ℕ
  pub fits : All Fits es
  pub sorted : IsSorted es
  pub small : length (file_bytes (write_run from expected es)) < 2 ^ 60
  pub count : t.entry_count ≡ length es
  pub found : lookup t.path d.files ≡ some (file_bytes (write_run from expected es))

-- The tables hold the runs, one each.
abbrev pub AllStored : Disk → List SstableMeta → List (List Entry) → Type 0
AllStored d [] [] = Unit
AllStored d (t ∷ ts) (es ∷ runs) = Stored d t es × AllStored d ts runs
AllStored d _ _ = ⊥

-- The runs one after the other.
abbrev pub flat : List (List Entry) → List Entry
flat [] = []
flat (es ∷ runs) = es ++ flat runs

pub flat-Fits :
    (d : Disk) (ts : List SstableMeta) (runs : List (List Entry))
    → AllStored d ts runs
    → All Fits (flat runs)
flat-Fits d [] [] s = tt
flat-Fits d [] (es ∷ runs) s = elim s [ ]
flat-Fits d (t ∷ ts) [] s = elim s [ ]
flat-Fits d (t ∷ ts) (es ∷ runs) s =
    All-append Fits es (flat runs) s.0.fits (flat-Fits d ts runs s.1)
