-- ===== src/Lsm/Tables.antt =====
-- What the engine keeps between its memtable and its tables, and what a read makes of it.
use sift_core.MemTable.Reads.{IsValid, get-eq-find_visible}
use sift_core.Sstable.Records.{Fits}
use sift_core.Bytes.{Bytes}
use sift_core.Compaction.Newest.{NewestFirst, first_found}
use sift_core.Compaction.Reads.{lookup_in_tiers-first_found}
use sift_core.Compaction.Stored.{Stored, AllStored, flat}
use sift_core.Disk.{wal_log, sst, sst_tmp, name_eq, Disk, lookup}
use sift_core.Key.{Seq, max_seq, Entry}
use sift_core.Lsm
use sift_core.Lsm.{LsmEngine, live, get_at}
use sift_core.Lsm.Flush.{NamesOthers}
use sift_core.Lsm.FlushWhole.{NoLog}
use sift_core.MemTable.History.{Older}
use sift_core.Prelude.{ℕ, ◌≤◌, ◌<◌, ◌≡◌, ap, ◌∙◌, List, [], ◌∷◌, arith, All, All-imp}
use sift_core.Result.{ok}
use sift_core.Sstable.{SstableMeta}
use sift_core.Sstable.Versions.{versions}
use sift_core.Wal.{Wal}

-- The tables have numbers below the next one.
abbrev pub Numbered : ℕ → List SstableMeta → Type 0
Numbered id tiers = All (λ (m : SstableMeta). (k : ℕ) × (m.path ≡ sst k) × (k < id)) tiers

-- The tables hold the runs, newer entries stand before older ones, the memtable before all, and
-- the next numbers are new.
pub record IsStore (db : LsmEngine) (d : Disk) (runs : List (List Entry)) : Type 0 where
  pub valid : IsValid db.memtable
  pub fits : All Fits db.memtable.entries
  pub stored : AllStored d db.tiers runs
  pub aged : NewestFirst (db.memtable.entries ∷ runs)
  pub older : Older db.next_seq (flat (db.memtable.entries ∷ runs))
  pub named : Numbered db.next_sst_id db.tiers

-- Each run holds 16 versions of the key at most.
abbrev pub Few : Bytes → List (List Entry) → Type 0
Few key runs = All (λ (es : List Entry). versions key es ≤ 16) runs

-- A read at any snapshot returns the live value of the first answer among the memtable and the
-- runs of the tables, each searched from its front, where the tables hold sorted runs that writers
-- put there, the memtable is valid, and no run holds more than 16 versions of the key.
pub get_at-first_found :
    (db : LsmEngine) (d : Disk) (runs : List (List Entry)) (key : Bytes) (as_of : Seq)
    → IsValid db.memtable
    → AllStored d db.tiers runs
    → Few key runs
    → get_at db key as_of d ≡ ok (live (first_found key as_of (db.memtable.entries ∷ runs)))
unfolding get_at
get_at-first_found db d runs key as_of valid stored few = ground (
  arith,
  get-eq-find_visible db.memtable key as_of valid,
  lookup_in_tiers-first_found d db.tiers runs key as_of stored few,
)

pub get-first_found :
    (db : LsmEngine) (d : Disk) (runs : List (List Entry)) (key : Bytes)
    → IsValid db.memtable
    → AllStored d db.tiers runs
    → Few key runs
    → Lsm.get db key d ≡ ok (live (first_found key max_seq (db.memtable.entries ∷ runs)))
unfolding Lsm.get
get-first_found db d runs key valid stored few =
    get_at-first_found db d runs key max_seq valid stored few

-- A table whose file is as it was holds what it held.
pub Stored-agree :
    (d d' : Disk) (t : SstableMeta) (es : List Entry)
    → lookup t.path d'.files ≡ lookup t.path d.files
    → Stored d t es
    → Stored d' t es
Stored-agree d d' t es same s = record {
  from = s.from;
  expected = s.expected;
  fits = s.fits;
  sorted = s.sorted;
  small = s.small;
  count = s.count;
  found = same ∙ s.found;
}

pub AllStored-agree :
    (d d' : Disk) (ts : List SstableMeta) (runs : List (List Entry))
    → All (λ (t : SstableMeta). lookup t.path d'.files ≡ lookup t.path d.files) ts
    → AllStored d ts runs
    → AllStored d' ts runs
AllStored-agree d d' [] [] same s = tt
AllStored-agree d d' [] (es ∷ runs) same s = elim s [ ]
AllStored-agree d d' (t ∷ ts) [] same s = elim s [ ]
AllStored-agree d d' (t ∷ ts) (es ∷ runs) same s =
    (Stored-agree d d' t es same.0 s.0, AllStored-agree d d' ts runs same.1 s.1)

pub Numbered-NoLog : (id : ℕ) (ts : List SstableMeta) → Numbered id ts → NoLog ts
unfolding name_eq
Numbered-NoLog id ts named = All-imp (λ t (k, path, below). ap (name_eq wal_log) path) ts named

pub Numbered-NamesOthers : (id : ℕ) (ts : List SstableMeta) → Numbered id ts → NamesOthers id ts
unfolding name_eq
Numbered-NamesOthers id ts named =
    All-imp
      (λ t (k, path, below).
        (ap (name_eq (sst id)) path ∙ ground (arith, below), ap (name_eq (sst_tmp id)) path))
      ts named

pub Numbered-later :
    (id id' : ℕ) (ts : List SstableMeta) → id ≤ id' → Numbered id ts → Numbered id' ts
Numbered-later id id' ts h named = All-imp (λ t (k, path, below). (k, path, omega arith)) ts named

-- What the engine keeps does not depend on its log.
pub IsStore-wal :
    (db : LsmEngine) (d d' : Disk) (runs : List (List Entry)) (w : Wal)
    → IsStore db d runs
    → All (λ (t : SstableMeta). lookup t.path d'.files ≡ lookup t.path d.files) db.tiers
    → IsStore (record db { wal = w }) d' runs
IsStore-wal db d d' runs w s same = record {
  valid = s.valid;
  fits = s.fits;
  stored = AllStored-agree d d' db.tiers runs same s.stored;
  aged = s.aged;
  older = s.older;
  named = s.named;
}
