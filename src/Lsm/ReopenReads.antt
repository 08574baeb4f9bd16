-- ===== src/Lsm/ReopenReads.antt =====
-- src/lsm.rs, `LsmEngine::open`: the tables of a directory, opened again.
use sift_core.Wal
use sift_core.Bytes.{Bytes}
use sift_core.Disk.{wal_log, sst, Disk, lookup, store, contents, open_append}
use sift_core.Prelude.{ℕ, ◌≡◌, List, [], ◌∷◌, arith, subst, All}
use sift_core.Result.{ok}
use sift_core.Sstable.{SstableMeta}
use sift_core.Wal.{Wal}
use sift_core.Lsm.OpenTables.{paths, sst_names}

pub open_log_files :
    (d : Disk) (w : Wal)
    → (Wal.open_log d).0 ≡ ok w
    → (Wal.open_log d).1.files ≡ store wal_log (contents wal_log d.files) d.files
unfolding Wal.open_log Wal.fresh open_append
open_log_files d w h = ground (arith, h)

-- Where the tables of a directory stand as they did, so do those that it lists.
pub agree_on :
    (d d' : Disk) (ts : List SstableMeta) (ids : List ℕ)
    → paths ts ≡ sst_names ids
    → ((id : ℕ) → lookup (sst id) d'.files ≡ lookup (sst id) d.files)
    → All (λ (t : SstableMeta). lookup t.path d'.files ≡ lookup t.path d.files) ts
agree_on d d' [] ids e same = tt
agree_on d d' (t ∷ ts) [] e same = absurd (cc)
agree_on d d' (t ∷ ts) (id ∷ ids) e same =
    let path : sst id ≡ t.path = cc in
    let others : paths ts ≡ sst_names ids = cc in
    (
      subst (λ n. lookup n d'.files ≡ lookup n d.files) path (same id),
      agree_on d d' ts ids others same,
    )
