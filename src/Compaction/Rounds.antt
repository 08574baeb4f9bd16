-- ===== src/Compaction/Rounds.antt =====
-- src/compaction.rs: a round of the merge, on the inputs.
use mathlib.Core.List.{Perm, mem-cons_self}
use mathlib.Core.List.Perm as Perm
use sift_core.Compaction.{HeapItem, Merge, refill}
use sift_core.Compaction.Inputs.{
  Input, waiting, loaded, heads, Slots, Slots-get, Slots-set, set-get_elem?, heads-Mem,
  heads-waiting, heads-loaded, heads-loaded_none,
}
use sift_core.Key.{Entry}
use sift_core.Prelude.{
  ℕ, ◌≡◌, refl, subst, sym, ap, ◌∙◌, none, some, List, [], ◌∷◌, arith, get_elem?, set,
}
use sift_core.Result.{ok}
use sift_core.Sstable.Iter.{SstableIter, next}
use sift_core.Sstable.Scan.{next-none, next-some}

-- The heap, the buffer and the iterators of the merge are those of the inputs.
pub record Tracks (qs : List Input) (m : Merge) : Type 0 where
  pub heap : Perm m.heap (heads 0 qs)
  pub slots : Slots m.buffered m.iters qs

-- What a refill leaves as it is.
pub record Refilled (m m' : Merge) : Type 0 where
  pub writer : m'.writer ≡ m.writer
  pub last_emitted_key : m'.last_emitted_key ≡ m.last_emitted_key

refill_ends :
    (i : ℕ) (m : Merge) (it : SstableIter)
    → get_elem? m.iters i ≡ some it
    → next it ≡ ok none
    → refill i m ≡ ok m
unfolding refill
refill_ends i m it at end = ground (arith, at, end)

refill_takes :
    (i : ℕ) (m : Merge) (it it' : SstableIter) (e : Entry)
    → get_elem? m.iters i ≡ some it
    → next it ≡ ok (some (e, it'))
    → refill i m
      ≡ ok (record m {
        heap = (e.0, i) ∷ m.heap;
        buffered = set m.buffered i (some e.1);
        iters = set m.iters i it';
      })
unfolding refill
refill_takes i m it it' (k, v) at more = ground (arith, at, more)

-- A refill loads an input that waits.
pub refill-Tracks :
    (i : ℕ) (m : Merge) (qs : List Input) (es : List Entry)
    → Tracks qs m
    → get_elem? qs i ≡ some (waiting es)
    → (m' : Merge) × (refill i m ≡ ok m') × Tracks (set qs i (loaded es)) m' × Refilled m m'
refill-Tracks i m qs [] t at =
    let (v, it, at_v, at_it, slot) = Slots-get m.buffered m.iters qs i (waiting []) t.slots at in
    (
      m,
      refill_ends i m it at_it (next-none it slot.1),
      record {
        heap = subst (λ h. Perm m.heap h) (sym (heads-loaded_none 0 qs i at)) t.heap;
        slots =
            subst (λ vs. Slots vs m.iters (set qs i (loaded []))) (set-get_elem? m.buffered i at_v)
              (subst (λ its. Slots (set m.buffered i v) its (set qs i (loaded [])))
                (set-get_elem? m.iters i at_it)
                (Slots-set m.buffered m.iters qs i v it (loaded []) t.slots slot));
      },
      record { writer = refl; last_emitted_key = refl },
    )
refill-Tracks i m qs (e ∷ es) t at =
    let (v, it, at_v, at_it, slot) =
      Slots-get m.buffered m.iters qs i (waiting (e ∷ es)) t.slots at in
    let (it', more, left) = next-some it e es slot.1 in
    (
      record m {
        heap = (e.0, i) ∷ m.heap;
        buffered = set m.buffered i (some e.1);
        iters = set m.iters i it';
      },
      refill_takes i m it it' e at_it more,
      record {
        heap = Perm.trans (Perm.cons (e.0, i) t.heap) (heads-loaded 0 qs i i e es (omega arith) at);
        slots =
            Slots-set m.buffered m.iters qs i (some e.1) it' (loaded (e ∷ es)) t.slots (refl, left);
      },
      record { writer = refl; last_emitted_key = refl },
    )

-- A pop of the heap takes the first entry of an input, whose value is in the buffer, and the input
-- waits then.
pub pop-Tracks :
    (m : Merge) (qs : List Input) (item : HeapItem) (others : List HeapItem)
    → Tracks qs m
    → Perm (item ∷ others) m.heap
    → (e : Entry) × (es : List Entry) × (item.0 ≡ e.0)
      × (get_elem? qs item.1 ≡ some (loaded (e ∷ es)))
      × (get_elem? m.buffered item.1 ≡ some (some e.1))
      × Tracks
          (set qs item.1 (waiting es))
          (record m { heap = others; buffered = set m.buffered item.1 none })
pop-Tracks m qs (k, i) others t p =
    let all = Perm.trans p t.heap in
    let (e, es, key, at) = heads-Mem qs (k, i) ((Perm.mem_iff all).0 mem-cons_self) in
    let (v, it, at_v, at_it, slot) =
      Slots-get m.buffered m.iters qs i (loaded (e ∷ es)) t.slots at in
    (
      e,
      es,
      key,
      at,
      at_v ∙ ap some slot.0,
      record {
        heap = Perm.cons_inv (
            Perm.trans all (
              subst (λ x. Perm (heads 0 qs) ((x, i) ∷ heads 0 (set qs i (waiting es)))) (sym key)
                (heads-waiting 0 qs i i e es (omega arith) at)));
        slots =
            subst (λ its. Slots (set m.buffered i none) its (set qs i (waiting es)))
              (set-get_elem? m.iters i at_it)
              (Slots-set m.buffered m.iters qs i none it (waiting es) t.slots (refl, slot.1));
      },
    )
