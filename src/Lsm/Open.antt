-- ===== src/Lsm/Open.antt =====
-- src/lsm.rs, `LsmEngine::open`: the recovery of the memtable and of the list of tables.
use sift_core.MemTable
use sift_core.MemTable.{MemTable}
use sift_core.Wal
use sift_core.Wal.{Wal, WalRecord, Op}
use sift_core.Sstable.{SstableMeta}
use sift_core.Sstable.Table.{open_table, into_meta}
use sift_core.Disk.{Disk, Files, sst, sst_tmp, remove_file}
use sift_core.Lsm.{LsmEngine, apply_record}
use sift_core.Key.{Seq}
use sift_core.Prelude.{ℕ, ◌+◌, ◌*◌, ◌%◌, ◌^◌, max, List, [], ◌∷◌, leb, if◌then◌else◌}
use sift_core.Result.{Result, ok, err, panicked}

-- The loop of `open` over the replayed records.
unfoldable pub recover : MemTable → List WalRecord → MemTable
unfolding apply_record
recover m [] = m
recover m (r ∷ rs) = recover (apply_record m r) rs

unfoldable pub max_seq_of : Seq → List WalRecord → Seq
max_seq_of s [] = s
max_seq_of s (r ∷ rs) = max_seq_of (max s r.seq) rs

-- The numbers of the tables in a directory, in the order in which it lists its files.
unfoldable pub table_ids : Files → List ℕ
table_ids [] = []
table_ids ((n, b) ∷ fs) = elim n [ sst id ↦ id ∷ table_ids fs | _ ↦ table_ids fs ]

-- `fs::remove_file` of every file that a flush or a compaction left unfinished.
unfoldable pub remove_temporaries : Files → Disk → Disk
remove_temporaries [] d = d
remove_temporaries ((n, b) ∷ fs) d =
    remove_temporaries fs (elim n [ sst_tmp id ↦ remove_file (sst_tmp id) d | _ ↦ d ])

unfoldable pub max_of : List ℕ → ℕ
max_of [] = 0
max_of (n ∷ ns) = max n (max_of ns)

-- `sort_by_key(Reverse(id))`: a stable insertion sort, the highest number first.
unfoldable pub insert_desc : ℕ → List ℕ → List ℕ
insert_desc n [] = n ∷ []
insert_desc n (m ∷ ms) = let rest = insert_desc n ms in if leb m n then n ∷ m ∷ ms else m ∷ rest

unfoldable pub sort_desc : List ℕ → List ℕ
unfolding insert_desc
sort_desc [] = []
sort_desc (n ∷ ns) = insert_desc n (sort_desc ns)

-- `SSTable::open(&path)?.into_meta()` for every table.
unfoldable pub open_tiers : List ℕ → Disk → Result (List SstableMeta)
unfolding open_table into_meta
open_tiers [] d = ok []
open_tiers (id ∷ ids) d = elim (open_table (sst id) d) [
  | ok t ↦ elim (open_tiers ids d) [
    | ok ms ↦ ok (into_meta t ∷ ms)
    | err e ↦ err e
    | panicked ↦ panicked
  ]
  | err e ↦ err e
  | panicked ↦ panicked
]

abbrev pub default_threshold : ℕ
default_threshold = 4 * 1024 * 1024

-- The engine that `open` builds from the replayed records and the tables of the directory.
unfoldable pub assemble : List WalRecord → Wal → Disk → Result LsmEngine × Disk
unfolding recover max_seq_of table_ids remove_temporaries max_of sort_desc open_tiers
assemble records wal d =
    let ids = table_ids d.files in
    let d' = remove_temporaries d.files d in
    elim (open_tiers (sort_desc ids) d') [
      | ok tiers ↦ (
        ok (record {
          wal = wal;
          memtable = recover MemTable.new records;
          tiers = tiers;
          next_seq = (max_seq_of 0 records + 1) % 2 ^ 64;
          next_sst_id = (max_of ids + 1) % 2 ^ 64;
          flush_threshold_bytes = default_threshold;
        }),
        d',
      )
      | err e ↦ (err e, d')
      | panicked ↦ (panicked, d')
    ]

-- `LsmEngine::open`.
unfoldable pub open_engine : Disk → Result LsmEngine × Disk
unfolding assemble
open_engine d = elim (Wal.replay d) [
  | ok records ↦
      let (r, d1) = Wal.open_log d in
      elim r [ ok wal ↦ assemble records wal d1 | err e ↦ (err e, d1) | panicked ↦ (panicked, d1) ]
  | err e ↦ (err e, d)
  | panicked ↦ (panicked, d)
]
