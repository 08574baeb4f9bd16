-- ===== src/Disk/Others.antt =====
-- The file operations on a fault schedule touch only the files that they name.
use sift_core.Bytes.{Bytes}
use sift_core.Disk.{FileName, Disk, lookup, create, write, rename, sync_data, name_eq}
use sift_core.Disk.Laws.{lookup-store, lookup-without}
use sift_core.Prelude.{◌≡◌, false, [], arith}

-- The file `n` in `d'` is the one in `d`.
abbrev pub Keeps : FileName → Disk → Disk → Type 0
Keeps n d d' = lookup n d'.files ≡ lookup n d.files

module _ (n m : FileName) (apart : name_eq m n ≡ false) where
  pub create-others : (d : Disk) → Keeps n d (create m d).1
  unfolding create
  create-others d = ground (arith, apart, lookup-store m n [] d.files)

  pub write-others : (b : Bytes) (d : Disk) → Keeps n d (write m b d).1
  unfolding write
  write-others b d = grind (arith, apart, lookup-store m n)

  pub sync_data-others : (d : Disk) → Keeps n d (sync_data d).1
  unfolding sync_data
  sync_data-others d = ground arith

  pub rename-others :
      (to : FileName) (d : Disk) → name_eq to n ≡ false → Keeps n d (rename m to d).1
  unfolding rename
  rename-others to d other =
      grind (arith, apart, other, lookup-store to n, lookup-without m n d.files)
