-- ===== src/Lsm/Scan.antt =====
-- src/lsm.rs, `iter_all`: the live pairs of the whole store.
use sift_core.HashMap.{HashMap}
use sift_core.Lsm.{LsmEngine}
use sift_core.Bytes.{Bytes, bytes_eq}
use sift_core.Disk.{Disk}
use sift_core.Key.{Seq, Value, Entry}
use sift_core.Prelude.{ℕ, zero, suc, ◌+◌, none, some, List, [], ◌∷◌, ltb, if◌then◌else◌, length}
use sift_core.Result.{Result, ok, err, panicked}
use sift_core.Sstable.{SstableMeta}
use sift_core.Sstable.Iter.{SstableIter, open_iter, next}

-- `latest`: the newest version of each user key so far, with its sequence number.
abbrev pub Latest : Type 0
Latest = HashMap Bytes (Seq × Value)

-- `latest.entry(key).and_modify(...).or_insert(...)`.
unfoldable pub merge_latest : Latest → Entry → Latest
merge_latest [] (ik, v) = (ik.user_key, (ik.seq, v)) ∷ []
merge_latest ((k, (s, old)) ∷ rest) (ik, v) =
    let later = merge_latest rest (ik, v) in
    if bytes_eq k ik.user_key
    then (if ltb s ik.seq then (k, (ik.seq, v)) ∷ rest else (k, (s, old)) ∷ rest)
    else (k, (s, old)) ∷ later

unfoldable pub merge_all : Latest → List Entry → Latest
unfolding merge_latest
merge_all l [] = l
merge_all l (e ∷ es) = merge_all (merge_latest l e) es

-- `for item in SSTableIter::open(...)? { ... }`, with fuel: every item takes a byte at least.
unfoldable pub merge_iter : ℕ → SstableIter → Latest → Result Latest
unfolding merge_latest
merge_iter zero it l = ok l
merge_iter (suc fuel) it l = elim (next it) [
  | ok none ↦ ok l
  | ok (some (e, it')) ↦ merge_iter fuel it' (merge_latest l e)
  | err e ↦ err e
  | panicked ↦ panicked
]

unfoldable pub merge_tiers : List SstableMeta → Latest → Disk → Result Latest
unfolding merge_iter
merge_tiers [] l d = ok l
merge_tiers (m ∷ ms) l d = elim (open_iter m.path d) [
  | ok it ↦ elim (merge_iter (length it.rest + 1) it l) [
    | ok l' ↦ merge_tiers ms l' d
    | err e ↦ err e
    | panicked ↦ panicked
  ]
  | err e ↦ err e
  | panicked ↦ panicked
]

-- The live pairs.
unfoldable pub live_pairs : Latest → List (Bytes × Bytes)
live_pairs [] = []
live_pairs ((k, (s, v)) ∷ rest) = elim v [
  | Value.put bytes ↦ (k, bytes) ∷ live_pairs rest
  | Value.delete ↦ live_pairs rest
]

-- `iter_all`.
unfoldable pub iter_all : LsmEngine → Disk → Result (List (Bytes × Bytes))
unfolding merge_tiers merge_all live_pairs
iter_all db d = elim (merge_tiers db.tiers [] d) [
  | ok l ↦ ok (live_pairs (merge_all l db.memtable.entries))
  | err e ↦ err e
  | panicked ↦ panicked
]
