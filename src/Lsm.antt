-- ===== src/Lsm.antt =====
-- src/lsm.rs: the storage engine. Every method takes the engine and the disk and returns both.
pub mod Open
pub mod Recovery
pub mod Durable
pub mod Reopen
pub mod Flush
pub mod FlushReads
pub mod FlushWhole
pub mod Reads
pub mod FlushPut
pub mod Scan
pub mod ScanReads
pub mod Tables
pub mod Compacts
pub mod Flushes
pub mod Writes
pub mod Puts
pub mod Calm
pub mod Answers
pub mod Faulty
pub mod FaultyPuts
pub mod FlushedReads
pub mod OpenTables
pub mod ReopenReads
pub mod OpenAnswers
pub mod ScanBest
pub mod ScanTables
use sift_core.MemTable
use sift_core.MemTable.{MemTable}
use sift_core.Wal
use sift_core.Wal.{Wal, WalRecord, Op}
use sift_core.Sstable.{SstableMeta, new_writer, add_entries}
use sift_core.Sstable.Table.{open_table, into_meta}
use sift_core.Disk.{Disk, Files, create, sst, sst_tmp, remove_file}
use sift_core.Bytes.{Bytes, bytes_eq}
use sift_core.Compaction.{should_compact, finish_and_rename, compact, lookup_in_tiers}
use sift_core.Key.{Seq, max_seq, Value, as_put, Entry}
use sift_core.Prelude.{
  ℕ, ◌+◌, ◌-◌, ◌*◌, ◌/◌, ◌%◌, ◌^◌, max, true, not, Option, none, some, List, [], ◌∷◌, leb,
  if◌then◌else◌, length, zero, suc, ltb,
}
use sift_core.Result.{Result, ok, err, panicked}

pub record LsmEngine : Type 0 where
  pub wal : Wal
  pub memtable : MemTable
  pub tiers : List SstableMeta
  pub next_seq : Seq
  pub next_sst_id : ℕ
  pub flush_threshold_bytes : ℕ

-- What a method of the engine is: a result, with the engine and the disk that it leaves.
abbrev pub Method {ℓ} : Type ℓ → Type ℓ
Method A = LsmEngine → Disk → Result A × LsmEngine × Disk

infixl 5 ◌>>=◌
abbrev pub ◌>>=◌ {ℓ κ} : {A : Type ℓ} {B : Type κ} → Method A → (A → Method B) → Method B
◌>>=◌ m f db d =
    let (r, db', d') = m db d in
    elim r [ ok a ↦ f a db' d' | err e ↦ (err e, db', d') | panicked ↦ (panicked, db', d') ]

infixl 5 ◌>>◌
abbrev pub ◌>>◌ {ℓ} : {B : Type ℓ} → Method (Unit {0}) → Method B → Method B
m >> k = m >>= λ _. k

abbrev pub pure {ℓ} : {A : Type ℓ} → A → Method A
pure a db d = (ok a, db, d)

-- `match rec.op { Put => memtable.put(...), Delete => memtable.delete(...) }`.
unfoldable pub apply_record : MemTable → WalRecord → MemTable
apply_record m r = elim r.op [
  | Op.put ↦ MemTable.put m r.key r.val r.seq
  | Op.delete ↦ MemTable.delete m r.key r.seq
]

-- `alloc_seq`.
unfoldable pub alloc_seq : Method Seq
alloc_seq db d = (ok db.next_seq, record db { next_seq = (db.next_seq + 1) % 2 ^ 64 }, d)

-- `self.wal.append(...)` and `self.wal.sync()`.
unfoldable pub log_write : Seq → Op → Bytes → Bytes → Method (Unit {0})
log_write seq op key val db d =
    let (r, w, d') = Wal.sync (Wal.append db.wal seq op key val) d in (r, record db { wal = w }, d')

-- Removes the inputs of a compaction; the results are dropped.
unfoldable pub remove_inputs : List SstableMeta → Disk → Disk
remove_inputs [] d = d
remove_inputs (m ∷ ms) d = remove_inputs ms (remove_file m.path d)

-- `maybe_compact`: `mem::take` leaves no tiers until the merged one is pushed.
unfoldable pub maybe_compact : Method (Unit {0})
unfolding remove_inputs
maybe_compact db d =
    if not (should_compact (length db.tiers))
    then (ok tt, db, d)
    else let inputs = db.tiers in
      let id = db.next_sst_id in
      let taken = record db { tiers = []; next_sst_id = (id + 1) % 2 ^ 64 } in
      let (r, d1) = compact inputs id true d in
      elim r [
        | ok merged ↦ (ok tt, record taken { tiers = merged ∷ [] }, remove_inputs inputs d1)
        | err e ↦ (err e, taken, d1)
        | panicked ↦ (panicked, taken, d1)
      ]

-- The table of a flush: the writer's file is created, filled, synced and renamed.
unfoldable pub write_memtable : ℕ → MemTable → Disk → Result SstableMeta × Disk
write_memtable id m d =
    let (r, d1) = create (sst_tmp id) d in
    elim r [
      | ok u ↦
          finish_and_rename
            (add_entries (new_writer (sst_tmp id) (max (m.approx_bytes / 48) 1)) m.entries) (sst id)
            d1
      | err e ↦ (err e, d1)
      | panicked ↦ (panicked, d1)
    ]

-- `self.wal = Wal::reset(...)?`: the assignment drops the old log once the file is truncated.
unfoldable pub reset_wal : Method (Unit {0})
unfolding Wal.drop_writer
reset_wal db d =
    let (r, d') = Wal.reset d in
    elim r [
      | ok w ↦ (ok tt, record db { wal = w }, Wal.drop_writer db.wal d')
      | err e ↦ (err e, db, d')
      | panicked ↦ (panicked, db, d')
    ]

-- The first half of `flush`: the table is written and takes the place of the memtable.
unfoldable pub flush_table : Method (Unit {0})
unfolding write_memtable
flush_table db d =
    let id = db.next_sst_id in
    let numbered = record db { next_sst_id = (id + 1) % 2 ^ 64 } in
    let (r, d1) = write_memtable id db.memtable d in
    elim r [
      | ok meta ↦ (
        ok tt,
        record numbered { tiers = meta ∷ db.tiers; memtable = MemTable.clear db.memtable },
        d1,
      )
      | err e ↦ (err e, numbered, d1)
      | panicked ↦ (panicked, numbered, d1)
    ]

-- `flush`.
unfoldable pub flush : Method (Unit {0})
unfolding flush_table reset_wal maybe_compact
flush db d =
    if MemTable.is_empty db.memtable
    then (ok tt, db, d)
    else (flush_table >>= λ _. reset_wal >>= λ _. maybe_compact) db d

unfoldable pub maybe_flush : Method (Unit {0})
unfolding flush
maybe_flush db d =
    if leb db.flush_threshold_bytes db.memtable.approx_bytes then flush db d else (ok tt, db, d)

-- `self.memtable.put(...)` and `self.memtable.delete(...)`.
unfoldable pub remember : WalRecord → Method (Unit {0})
unfolding apply_record
remember r db d = (ok tt, record db { memtable = apply_record db.memtable r }, d)

-- `put`.
unfoldable pub put : Bytes → Bytes → Method Seq
unfolding alloc_seq log_write remember maybe_flush
put key val = do
  seq ← alloc_seq
  log_write seq Op.put key val
  remember (record { seq = seq; op = Op.put; key = key; val = val })
  maybe_flush
  pure seq

-- `delete`.
unfoldable pub delete : Bytes → Method Seq
unfolding alloc_seq log_write remember maybe_flush
delete key = do
  seq ← alloc_seq
  log_write seq Op.delete key []
  remember (record { seq = seq; op = Op.delete; key = key; val = [] })
  maybe_flush
  pure seq

-- What a read makes of the value that it found.
abbrev pub live : Option Value → Option Bytes
live none = none
live (some v) = as_put v

-- `get_at`.
unfoldable pub get_at : LsmEngine → Bytes → Seq → Disk → Result (Option Bytes)
unfolding as_put
get_at db key as_of d = elim (MemTable.get db.memtable key as_of) [
  | some v ↦ ok (as_put v)
  | none ↦ elim (lookup_in_tiers db.tiers key as_of d) [
    | ok found ↦ ok (live found)
    | err e ↦ err e
    | panicked ↦ panicked
  ]
]

-- `get`.
unfoldable pub get : LsmEngine → Bytes → Disk → Result (Option Bytes)
unfolding get_at
get db key d = get_at db key max_seq d

-- `current_seq`.
unfoldable pub current_seq : LsmEngine → Seq
current_seq db = db.next_seq - 1

-- `tier_count`.
unfoldable pub tier_count : LsmEngine → ℕ
tier_count db = length db.tiers
