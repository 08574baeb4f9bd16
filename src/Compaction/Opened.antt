-- ===== src/Compaction/Opened.antt =====
-- src/compaction.rs: the inputs of a compaction, opened, with the first item of each in the heap.
use mathlib.Core.List.{Perm}
use mathlib.Core.List.Perm as Perm
use sift_core.Compaction.{Merge, open_iters, fill_heap, bytes_left, start_merge}
use sift_core.Compaction.Inputs.{Input, waiting, loaded, entries, heads, Slots}
use sift_core.Compaction.Popped.{IsLoaded, SortedRuns}
use sift_core.Compaction.Rounds.{Tracks, Refilled, refill-Tracks}
use sift_core.Disk.{FileName, Disk}
use sift_core.Key.{Entry}
use sift_core.Prelude.{
  ℕ, ◌+◌, ◌≤◌, ◌≡◌, refl, subst, sym, ap, ◌∙◌, none, some, List, [], ◌∷◌, ◌++◌, append_assoc, arith,
  length, get_elem?, set, replicate, All, length-append,
}
use sift_core.Result.{ok}
use sift_core.Sstable.{SstableMeta, new_writer}
use sift_core.Sstable.Iter.{SstableIter}
use sift_core.Sstable.Lookup.{length-le}
use sift_core.Sstable.Records.{encode_entries}
use sift_core.Sstable.Scan.{Yields, open_iter-write_run}
use sift_core.Compaction.Stored.{AllStored, flat}

abbrev pub all_waiting : List (List Entry) → List Input
all_waiting [] = []
all_waiting (es ∷ runs) = waiting es ∷ all_waiting runs

abbrev pub all_loaded : List (List Entry) → List Input
all_loaded [] = []
all_loaded (es ∷ runs) = loaded es ∷ all_loaded runs

pub all_loaded-IsLoaded : (runs : List (List Entry)) → All IsLoaded (all_loaded runs)
all_loaded-IsLoaded [] = tt
all_loaded-IsLoaded (es ∷ runs) = (tt, all_loaded-IsLoaded runs)

pub entries-all_loaded : (runs : List (List Entry)) → entries (all_loaded runs) ≡ flat runs
entries-all_loaded [] = refl
entries-all_loaded (es ∷ runs) = ap (λ t. es ++ t) (entries-all_loaded runs)

pub all_loaded-SortedRuns :
    (d : Disk) (ts : List SstableMeta) (runs : List (List Entry))
    → AllStored d ts runs
    → SortedRuns (all_loaded runs)
all_loaded-SortedRuns d [] [] s = tt
all_loaded-SortedRuns d [] (es ∷ runs) s = elim s [ ]
all_loaded-SortedRuns d (t ∷ ts) [] s = elim s [ ]
all_loaded-SortedRuns d (t ∷ ts) (es ∷ runs) s = (s.0.sorted, all_loaded-SortedRuns d ts runs s.1)

-- The iterators of the tables, before their first item.
record Opened (its : List SstableIter) (runs : List (List Entry)) : Type 0 where
  slots : Slots (replicate (length its) none) its (all_waiting runs)
  count : length its ≡ length runs
  room : length (flat runs) ≤ bytes_left its

Opened-cons :
    (it : SstableIter) (es : List Entry) (its : List SstableIter) (runs : List (List Entry))
    → Yields it es
    → Opened its runs
    → Opened (it ∷ its) (es ∷ runs)
unfolding bytes_left
Opened-cons it es its runs y o = record {
  slots = ((refl, y), o.slots);
  count = omega (arith, o.count);
  room = omega (
    arith,
    o.room,
    length-append es (flat runs),
    length-le es,
    ap length y.bytes,
    length-append (encode_entries es) y.tail,
  );
}

open_iters-Opened :
    (d : Disk) (ts : List SstableMeta) (runs : List (List Entry))
    → AllStored d ts runs
    → (its : List SstableIter) × (open_iters ts d ≡ ok its) × Opened its runs
unfolding open_iters
open_iters-Opened d [] [] s =
    ([], refl, record { slots = tt; count = refl; room = unfold bytes_left in omega arith })
open_iters-Opened d [] (es ∷ runs) s = elim s [ ]
open_iters-Opened d (t ∷ ts) [] s = elim s [ ]
open_iters-Opened d (t ∷ ts) (es ∷ runs) s =
    let (it, first, y) =
      open_iter-write_run t.path d s.0.from s.0.expected es s.0.fits s.0.small s.0.found in
    let (its, others, o) = open_iters-Opened d ts runs s.1 in
    (it ∷ its, rw (open_iters, first, others) refl, Opened-cons it es its runs y o)

get_elem?-middle {ℓ} :
    {A : Type ℓ} (xs : List A) (y : A) (ys : List A)
    → get_elem? (xs ++ (y ∷ ys)) (length xs) ≡ some y
get_elem?-middle [] y ys = refl
get_elem?-middle (x ∷ xs) y ys = get_elem?-middle xs y ys

set-middle {ℓ} :
    {A : Type ℓ} (xs : List A) (y z : A) (ys : List A)
    → set (xs ++ (y ∷ ys)) (length xs) z ≡ (xs ++ (z ∷ [])) ++ ys
set-middle [] y z ys = refl
set-middle (x ∷ xs) y z ys = ap (λ t. x ∷ t) (set-middle xs y z ys)

-- The first item of every input goes to the heap.
fill_heap-Tracks :
    (runs : List (List Entry)) (front : List Input) (m : Merge)
    → Tracks (front ++ all_waiting runs) m
    → (m' : Merge) × (fill_heap (length runs) (length front) m ≡ ok m')
      × Tracks (front ++ all_loaded runs) m'
      × Refilled m m'
unfolding fill_heap
fill_heap-Tracks [] front m t = (m, refl, t, record { writer = refl; last_emitted_key = refl })
fill_heap-Tracks (es ∷ runs) front m t =
    let (m1, filled, t1, same) =
      refill-Tracks (length front) m (front ++ (waiting es ∷ all_waiting runs)) es t
        (get_elem?-middle front (waiting es) (all_waiting runs)) in
    let (m', rest, t', same') = fill_heap-Tracks runs (front ++ (loaded es ∷ [])) m1 (
      subst (λ l. Tracks l m1) (set-middle front (waiting es) (loaded es) (all_waiting runs)) t1) in
    (
      m',
      rw (fill_heap, filled)
          (ap (λ n. fill_heap (length runs) n m1)
              (omega (arith, length-append front (loaded es ∷ [])))
            ∙ rest),
      subst (λ l. Tracks l m') (append_assoc front (loaded es ∷ []) (all_loaded runs)) t',
      record {
        writer = same'.writer ∙ same.writer;
        last_emitted_key = same'.last_emitted_key ∙ same.last_emitted_key;
      },
    )

heads-all_waiting : (j : ℕ) (runs : List (List Entry)) → heads j (all_waiting runs) ≡ []
heads-all_waiting j [] = refl
heads-all_waiting j (es ∷ runs) = heads-all_waiting (j + 1) runs

-- The merge of stored tables begins: the iterators open, the first item of every input is in the
-- heap, nothing is written yet, and the inputs have as many entries left as they have bytes, at
-- most.
pub start_merge-Tracks :
    (d : Disk) (ts : List SstableMeta) (runs : List (List Entry)) (expected : ℕ) (path : FileName)
    → AllStored d ts runs
    → (its : List SstableIter) × (m : Merge) × (open_iters ts d ≡ ok its)
      × (start_merge its expected path ≡ ok m)
      × Tracks (all_loaded runs) m
      × (m.writer ≡ new_writer path expected)
      × (m.last_emitted_key ≡ none)
      × (length (flat runs) ≤ bytes_left its)
unfolding start_merge
start_merge-Tracks d ts runs expected path s =
    let (its, opens, o) = open_iters-Opened d ts runs s in
    let start : Merge = record {
      heap = [];
      buffered = replicate (length its) none;
      iters = its;
      last_emitted_key = none;
      writer = new_writer path expected;
    } in
    let (m, filled, t, same) = fill_heap-Tracks runs [] start (record {
      heap = subst (Perm []) (sym (heads-all_waiting 0 runs)) Perm.nil;
      slots = o.slots;
    }) in
    (
      its,
      m,
      opens,
      ap (λ n. fill_heap n 0 start) o.count ∙ filled,
      t,
      same.writer,
      same.last_emitted_key,
      o.room,
    )
