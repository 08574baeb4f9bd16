-- ===== src/Compaction.antt =====
-- src/compaction.rs: the merge of several tables into one, and the lookup across tables.
pub mod Files
pub mod Least
pub mod Inputs
pub mod Rounds
pub mod Surviving
pub mod Drained
pub mod Popped
pub mod Shadowed
pub mod Kept
pub mod Stored
pub mod Opened
pub mod Merged
pub mod Size
pub mod Newest
pub mod Tiers
pub mod Reads
use sift_core.Sstable.{SstableMeta, SstableWriter, new_writer, add_entry, file_bytes, meta_of}
use sift_core.Sstable.Table.{open_table, get}
use sift_core.Bytes.{Bytes, bytes_eq}
use sift_core.Disk.{FileName, sst, sst_tmp, Disk, create, write, sync_data, rename}
use sift_core.Key.{Seq, InternalKey, Value, then_with, cmp}
use sift_core.Prelude.{
  ℕ, zero, suc, ◌+◌, ◌%◌, ◌^◌, compare, Ordering, Bool, true, not, Option, none, some, List, [],
  ◌∷◌, leb, if◌then◌else◌, length, get_elem?, set, replicate,
}
use sift_core.Result.{Result, ok, err, panicked}
use sift_core.Sstable.Iter.{SstableIter, open_iter, next}

abbrev pub compaction_trigger : ℕ
compaction_trigger = 4

unfoldable pub should_compact : ℕ → Bool
should_compact file_count = leb compaction_trigger file_count

-- An item of the heap: a key and the input that it comes from.
abbrev pub HeapItem : Type 0
HeapItem = InternalKey × ℕ

-- The order of the items, `(InternalKey, usize)`.
unfoldable pub cmp_item : HeapItem → HeapItem → Ordering
cmp_item (a, i) (b, j) = then_with (cmp a b) (compare i j)

-- `BinaryHeap::pop` of a heap of `Reverse`: the least item, and the others.
unfoldable pub pop_least : List HeapItem → Option (HeapItem × List HeapItem)
unfolding cmp_item
pop_least [] = none
pop_least (x ∷ xs) = elim (pop_least xs) [
  | none ↦ some (x, [])
  | some (y, ys) ↦ elim (cmp_item x y) [ Ordering.gt ↦ some (y, x ∷ ys) | _ ↦ some (x, xs) ]
]

-- The variables of the merge loop.
pub record Merge : Type 0 where
  pub heap : List HeapItem
  pub buffered : List (Option Value)
  pub iters : List SstableIter
  pub last_emitted_key : Option Bytes
  pub writer : SstableWriter

-- `if let Some(item) = iters[idx].next() { ... }`: the next item of an input goes to the heap and
-- its value to the buffer.
unfoldable pub refill : ℕ → Merge → Result Merge
refill idx m = elim (get_elem? m.iters idx) [
  | none ↦ panicked
  | some it ↦ elim (next it) [
    | ok none ↦ ok m
    | ok (some ((ik, v), it')) ↦ ok (record m {
      heap = (ik, idx) ∷ m.heap;
      buffered = set m.buffered idx (some v);
      iters = set m.iters idx it';
    })
    | err e ↦ err e
    | panicked ↦ panicked
  ]
]

-- `last_emitted_key.as_deref() != Some(ik.user_key.as_slice())`.
unfoldable pub is_newest_for_key : Option Bytes → Bytes → Bool
is_newest_for_key none key = true
is_newest_for_key (some last) key = not (bytes_eq last key)

-- The end of a round of the merge: shadowed versions and, at the last level, tombstones are
-- dropped.
unfoldable pub emit : Bool → InternalKey → Value → Merge → Merge
unfolding is_newest_for_key add_entry
emit is_last_level ik Value.delete m =
    if is_newest_for_key m.last_emitted_key ik.user_key
    then (if is_last_level then record m { last_emitted_key = some ik.user_key } else record m {
      last_emitted_key = some ik.user_key;
      writer = add_entry m.writer (ik, Value.delete);
    })
    else m
emit is_last_level ik (Value.put v) m =
    if is_newest_for_key m.last_emitted_key ik.user_key
    then record m {
      last_emitted_key = some ik.user_key;
      writer = add_entry m.writer (ik, Value.put v);
    }
    else m

-- `while let Some(Reverse((ik, idx))) = heap.pop()`, with fuel.
unfoldable pub merge_loop : ℕ → Bool → Merge → Result Merge
unfolding refill emit pop_least
merge_loop zero is_last_level m = ok m
merge_loop (suc fuel) is_last_level m = elim (pop_least m.heap) [
  | none ↦ ok m
  | some ((ik, idx), heap) ↦ elim (get_elem? m.buffered idx) [
    | none ↦ panicked
    | some none ↦ panicked
    | some (some value) ↦
        elim (refill idx (record m { heap = heap; buffered = set m.buffered idx none })) [
          | ok m' ↦ merge_loop fuel is_last_level (emit is_last_level ik value m')
          | err e ↦ err e
          | panicked ↦ panicked
        ]
  ]
]

-- `inputs.iter().map(|m| SSTableIter::open(&m.path)).collect()`.
unfoldable pub open_iters : List SstableMeta → Disk → Result (List SstableIter)
open_iters [] d = ok []
open_iters (m ∷ ms) d = elim (open_iter m.path d) [
  | ok it ↦ elim (open_iters ms d) [ ok its ↦ ok (it ∷ its) | err e ↦ err e | panicked ↦ panicked ]
  | err e ↦ err e
  | panicked ↦ panicked
]

-- The first item of every input, from input `i` on, `n` of them.
unfoldable pub fill_heap : ℕ → ℕ → Merge → Result Merge
unfolding refill
fill_heap zero i m = ok m
fill_heap (suc n) i m = elim (refill i m) [
  | ok m' ↦ fill_heap n (i + 1) m'
  | err e ↦ err e
  | panicked ↦ panicked
]

-- `inputs.iter().map(|m| m.entry_count).sum()`; an overflow of the sum wraps.
unfoldable pub sum_counts : List SstableMeta → ℕ
sum_counts [] = 0
sum_counts (m ∷ ms) = (m.entry_count + sum_counts ms) % 2 ^ 64

-- The bytes that the inputs have left: every item takes one at least.
unfoldable pub bytes_left : List SstableIter → ℕ
bytes_left [] = 0
bytes_left (it ∷ its) = length it.rest + bytes_left its

-- The merge before its first round: the first item of every input is in the heap.
unfoldable pub start_merge : List SstableIter → ℕ → FileName → Result Merge
unfolding fill_heap
start_merge iters expected_entries tmp_path = fill_heap (length iters) 0 (record {
  heap = [];
  buffered = replicate (length iters) none;
  iters = iters;
  last_emitted_key = none;
  writer = new_writer tmp_path expected_entries;
})

-- `SSTableWriter::finish`: the bytes of the file are written and synced.
unfoldable pub finish : SstableWriter → Disk → Result SstableMeta × Disk
finish w d =
    let (r1, d1) = write w.path (file_bytes w) d in
    elim r1 [
      | ok u ↦
          let (r2, d2) = sync_data d1 in
          elim r2 [ ok u ↦ (ok (meta_of w), d2) | err e ↦ (err e, d2) | panicked ↦ (panicked, d2) ]
      | err e ↦ (err e, d1)
      | panicked ↦ (panicked, d1)
    ]

-- `finish`, then the rename from the temporary name to the final one.
unfoldable pub finish_and_rename : SstableWriter → FileName → Disk → Result SstableMeta × Disk
unfolding finish
finish_and_rename w final_path d =
    let (r, d1) = finish w d in
    elim r [
      | ok meta ↦
          let (r2, d2) = rename w.path final_path d1 in
          elim r2 [
            | ok u ↦ (ok (record meta { path = final_path }), d2)
            | err e ↦ (err e, d2)
            | panicked ↦ (panicked, d2)
          ]
      | err e ↦ (err e, d1)
      | panicked ↦ (panicked, d1)
    ]

-- `SSTableWriter::create` for the output, and the rounds of the merge into it.
unfoldable pub run_merge : Bool → ℕ → Merge → FileName → FileName → Disk → Result SstableMeta × Disk
unfolding merge_loop finish_and_rename
run_merge is_last_level fuel m tmp_path output_path d =
    let (r, d1) = create tmp_path d in
    elim r [
      | ok u ↦ elim (merge_loop fuel is_last_level m) [
        | ok m' ↦ finish_and_rename m'.writer output_path d1
        | err e ↦ (err e, d1)
        | panicked ↦ (panicked, d1)
      ]
      | err e ↦ (err e, d1)
      | panicked ↦ (panicked, d1)
    ]

-- `compact`, to the table with the number `id`.
unfoldable pub compact : List SstableMeta → ℕ → Bool → Disk → Result SstableMeta × Disk
unfolding open_iters start_merge sum_counts run_merge bytes_left
compact inputs id is_last_level d = elim (open_iters inputs d) [
  | ok iters ↦ elim (start_merge iters (sum_counts inputs) (sst_tmp id)) [
    | ok m ↦ run_merge is_last_level (bytes_left iters + length iters + 1) m (sst_tmp id) (sst id) d
    | err e ↦ (err e, d)
    | panicked ↦ (panicked, d)
  ]
  | err e ↦ (err e, d)
  | panicked ↦ (panicked, d)
]

-- `lookup_in_tiers`: the first tier with an answer.
unfoldable pub lookup_in_tiers : List SstableMeta → Bytes → Seq → Disk → Result (Option Value)
lookup_in_tiers [] key as_of d = ok none
lookup_in_tiers (m ∷ tiers) key as_of d = elim (open_table m.path d) [
  | ok t ↦ elim (get t key as_of) [
    | ok none ↦ lookup_in_tiers tiers key as_of d
    | ok (some v) ↦ ok (some v)
    | err e ↦ err e
    | panicked ↦ panicked
  ]
  | err e ↦ err e
  | panicked ↦ panicked
]
