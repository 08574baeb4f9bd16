-- ===== src/Compaction/Merged.antt =====
-- src/compaction.rs: what `compact` writes.
use mathlib.Core.List.{Perm}
use sift_core.Compaction.{
  Merge, merge_loop, open_iters, sum_counts, bytes_left, start_merge, run_merge, compact,
}
use sift_core.Compaction.Drained.{merge_loop-Drained}
use sift_core.Compaction.Files.{write_table}
use sift_core.Compaction.Opened.{
  all_loaded, all_loaded-IsLoaded, entries-all_loaded, all_loaded-SortedRuns, start_merge-Tracks,
}
use sift_core.Compaction.Stored.{AllStored, flat}
use sift_core.Compaction.Surviving.{surviving, Ascending}
use sift_core.Disk.{FileName, sst, sst_tmp, Disk}
use sift_core.Key.{Entry}
use sift_core.Prelude.{ℕ, ◌+◌, ◌≡◌, refl, subst, ap, ◌∙◌, Bool, none, List, arith, length}
use sift_core.Result.{ok}
use sift_core.Sstable.{SstableMeta, add_entries}
use sift_core.Sstable.Iter.{SstableIter}
use sift_core.Sstable.ReadBack.{write_run}

run_merge-write_table :
    (is_last_level : Bool) (fuel : ℕ) (m m' : Merge) (tmp final : FileName) (d : Disk)
    → merge_loop fuel is_last_level m ≡ ok m'
    → run_merge is_last_level fuel m tmp final d ≡ write_table tmp m'.writer final d
unfolding run_merge write_table
run_merge-write_table is_last_level fuel m m' tmp final d ends = ground (arith, ends)

compact_runs :
    (ts : List SstableMeta) (id : ℕ) (is_last_level : Bool) (d : Disk) (its : List SstableIter)
    (m : Merge)
    → open_iters ts d ≡ ok its
    → start_merge its (sum_counts ts) (sst_tmp id) ≡ ok m
    → compact ts id is_last_level d
      ≡ run_merge is_last_level (bytes_left its + length its + 1) m (sst_tmp id) (sst id) d
unfolding compact
compact_runs ts id is_last_level d its m opens starts = rw (compact, opens, starts) refl

-- A compaction of stored tables writes one table, of what survives of their entries in the order
-- of the keys, and does nothing else: it opens every input, its merge takes every entry once and
-- ends within its fuel, and it ends as the writing of that table ends, whatever calls of the file
-- system fail. Of the entries of a key the first in the order survives, unless it is a tombstone
-- at the last level.
pub compact-write_table :
    (ts : List SstableMeta) (runs : List (List Entry)) (id : ℕ) (is_last_level : Bool) (d : Disk)
    → AllStored d ts runs
    → (es : List Entry) × Perm es (flat runs)
      × Ascending es
      × (compact ts id is_last_level d
          ≡ write_table
              (sst_tmp id)
              (write_run (sst_tmp id) (sum_counts ts) (surviving is_last_level none es))
              (sst id)
              d)
compact-write_table ts runs id is_last_level d s =
    let (its, m, opens, starts, t, writer, last_key, room) =
      start_merge-Tracks d ts runs (sum_counts ts) (sst_tmp id) s in
    let all = entries-all_loaded runs in
    let (m', es, ends, drained) =
      merge_loop-Drained (bytes_left its + length its + 1) is_last_level m (all_loaded runs) t
        (all_loaded-IsLoaded runs) (all_loaded-SortedRuns d ts runs s)
        (omega (arith, room, ap length all)) in
    (
      es,
      subst (Perm es) all drained.perm,
      drained.ascending,
      compact_runs ts id is_last_level d its m opens starts
          ∙ run_merge-write_table is_last_level _ m m' (sst_tmp id) (sst id) d ends
          ∙ ap (λ w. write_table (sst_tmp id) w (sst id) d)
              (drained.writer
                ∙ ap (λ w. add_entries w (surviving is_last_level m.last_emitted_key es)) writer
                ∙ ap (λ k. write_run (sst_tmp id) (sum_counts ts) (surviving is_last_level k es))
                    last_key),
    )
