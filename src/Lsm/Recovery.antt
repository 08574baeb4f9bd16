-- ===== src/Lsm/Recovery.antt =====
-- What recovery makes of a log: the memtable is the history of the records.
use sift_core.MemTable
use sift_core.MemTable.{MemTable, insert, put, delete, new}
use sift_core.MemTable.Reads.{IsValid, write-IsValid, new-IsValid, get-eq-find_visible}
use sift_core.Wal.{WalRecord, Op}
use sift_core.Lsm.{apply_record}
use sift_core.Lsm.Open.{recover}
use sift_core.Bytes.{Bytes, IsU64}
use sift_core.Key.{Seq, InternalKey, Value, Entry}
use sift_core.Key.Snapshot.{is_visible, find_visible}
use sift_core.MemTable.History.{Older, find_visible-insert}
use sift_core.Prelude.{
  ◌+◌, ◌≤◌, ◌<◌, ◌≡◌, refl, Option, none, some, List, [], ◌∷◌, arith, if◌then◌else◌, All-imp, ◌∙◌,
}

-- The value that a record writes.
abbrev pub value_of : WalRecord → Value
value_of r = elim r.op [ Op.put ↦ Value.put r.val | Op.delete ↦ Value.delete ]

abbrev pub entry_of : WalRecord → Entry
entry_of r = (record { user_key = r.key; seq = r.seq }, value_of r)

-- The last record of the key that the snapshot sees: what a read of the history returns.
unfoldable pub last_write : Bytes → Seq → List WalRecord → Option Value
last_write key as_of [] = none
last_write key as_of (r ∷ rs) = elim (last_write key as_of rs) [
  | some v ↦ some v
  | none ↦ if is_visible key as_of (entry_of r) then some (value_of r) else none
]

-- The sequence numbers rise from `s` on and are 64-bit words.
abbrev pub Rises : Seq → List WalRecord → Type 0
Rises s [] = Unit
Rises s (r ∷ rs) = (s ≤ r.seq) × IsU64 r.seq × Rises (r.seq + 1) rs

pub apply_record-entries :
    (m : MemTable) (r : WalRecord)
    → (apply_record m r).entries ≡ insert (entry_of r).0 (value_of r) m.entries
unfolding apply_record put delete
apply_record-entries m r = ground arith

pub apply_record-IsValid :
    (m : MemTable) (r : WalRecord) → IsU64 r.seq → IsValid m → IsValid (apply_record m r)
unfolding apply_record
apply_record-IsValid m r h v = ground (arith, write-IsValid m r.key r.val r.seq h v)

pub Older-insert :
    (s : Seq) (k : InternalKey) (v : Value) (es : List Entry)
    → k.seq < s
    → Older s es
    → Older s (insert k v es)
unfolding insert
Older-insert s k v [] h older = (h, tt)
Older-insert s k v (e ∷ es) h older = ground (arith, Older-insert s k v es)

pub Older-weaken : (s t : Seq) (es : List Entry) → s ≤ t → Older s es → Older t es
Older-weaken s t es h older = All-imp (λ e k. omega arith) es older

-- Recovery from a log goes on from a memtable: it stays valid, and a read sees the last write of
-- the log before the versions that were there.
recover-reads :
    (rs : List WalRecord) (m : MemTable) (s : Seq)
    → IsValid m
    → Older s m.entries
    → Rises s rs
    → IsValid (recover m rs)
      × ((key : Bytes) (as_of : Seq)
          → find_visible key as_of (recover m rs).entries
            ≡ elim (last_write key as_of rs) as (λ _. Option Value) [
              | some v ↦ some v
              | none ↦ find_visible key as_of m.entries
            ])
unfolding recover last_write
recover-reads [] m s v older rises = (v, λ key as_of. refl)
recover-reads (r ∷ rs) m s v older rises =
    let (valid, reads) =
      recover-reads rs (apply_record m r) (r.seq + 1) (apply_record-IsValid m r rises.1 v)
        (rw apply_record-entries (
          Older-insert (r.seq + 1) (entry_of r).0 (value_of r) m.entries (omega arith)
            (Older-weaken s (r.seq + 1) m.entries (omega (arith, rises.0)) older)))
        rises.2 in
    (
      valid,
      λ key as_of. ground (
        arith,
        reads key as_of,
        apply_record-entries m r,
        find_visible-insert (entry_of r).0 (value_of r) m.entries key as_of
            (Older-weaken s r.seq m.entries rises.0 older),
      ),
    )

-- For a log whose sequence numbers rise and are 64-bit words, a read of the memtable that recovery
-- builds returns the last write of the log that the snapshot sees.
pub recover-last_write :
    (rs : List WalRecord) (key : Bytes) (as_of : Seq)
    → Rises 0 rs
    → MemTable.get (recover new rs) key as_of ≡ last_write key as_of rs
unfolding find_visible new
recover-last_write rs key as_of rises =
    let (valid, reads) = recover-reads rs new 0 new-IsValid tt rises in
    get-eq-find_visible (recover new rs) key as_of valid
    ∙ reads key as_of
    ∙ nothing (last_write key as_of rs)
  where
    nothing :
        (o : Option Value)
        → elim o as (λ _. Option Value) [
          | some v ↦ some v
          | none ↦ find_visible key as_of new.entries
        ]
          ≡ o
    nothing none = refl
    nothing (some v) = refl
