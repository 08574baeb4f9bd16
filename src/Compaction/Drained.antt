-- ===== src/Compaction/Drained.antt =====
-- src/compaction.rs: the loop of the merge, to its end.
use mathlib.Core.List.{Perm}
use mathlib.Core.List.Perm as Perm
use sift_core.Compaction.{HeapItem, pop_least, Merge, refill, emit, merge_loop}
use sift_core.Compaction.Inputs.{Input, waiting, loaded, entries, heads, Slots}
use sift_core.Compaction.Least.{NotAfter, pop_least-IsLeast}
use sift_core.Compaction.Popped.{
  IsLoaded, SortedRuns, entries-waiting, entries-loaded, heads-NotAfter, entries-none,
}
use sift_core.Compaction.Rounds.{Tracks, Refilled, refill-Tracks, pop-Tracks}
use sift_core.Compaction.Surviving.{surviving, Ascending, emit-surviving, emit_keeps}
use sift_core.Key.{InternalKey, Value, Entry}
use sift_core.Prelude.{
  ℕ, suc, ◌≡◌, refl, subst, sym, ap, ◌∙◌, Bool, none, some, List, ◌∷◌, get_elem?, set, All,
  get_elem?-set_self, lt_of_get_elem?, All-get_elem?, All-set, All-Perm, set-set, zero, ◌<◌, [],
  arith, length, length-Perm, inl, inr, List-cases,
}
use sift_core.Result.{ok}
use sift_core.Sstable.{add_entries}

merge_loop_round :
    (fuel : ℕ) (is_last_level : Bool) (m m' : Merge) (ik : InternalKey) (i : ℕ) (v : Value)
    (others : List HeapItem)
    → pop_least m.heap ≡ some ((ik, i), others)
    → get_elem? m.buffered i ≡ some (some v)
    → refill i (record m { heap = others; buffered = set m.buffered i none }) ≡ ok m'
    → merge_loop (suc fuel) is_last_level m
      ≡ merge_loop fuel is_last_level (emit is_last_level ik v m')
unfolding merge_loop
merge_loop_round fuel is_last_level m m' ik i v others popped at filled =
    rw (merge_loop, popped, at, filled) refl

-- A round takes an entry `e` that stands behind no other entry, and the inputs `qs'` have the
-- others left.
record Round (is_last_level : Bool) (m : Merge) (qs : List Input) (e : Entry) (m' : Merge)
    (qs' : List Input) : Type 0 where
  step :
      (fuel : ℕ)
      → merge_loop (suc fuel) is_last_level m
        ≡ merge_loop fuel is_last_level (emit is_last_level e.0 e.1 m')
  tracks : Tracks qs' m'
  full : All IsLoaded qs'
  sorted : SortedRuns qs'
  same : Refilled m m'
  perm : Perm (entries qs) (e ∷ entries qs')
  least : All (λ (x : Entry). NotAfter e.0 x.0) (entries qs)

module _ (is_last_level : Bool) (m : Merge) (qs : List Input) (t : Tracks qs m)
    (full : All IsLoaded qs) (sorted : SortedRuns qs) where
  round :
      (x : HeapItem) (xs : List HeapItem)
      → m.heap ≡ x ∷ xs
      → (e : Entry) × (m' : Merge) × (qs' : List Input) × Round is_last_level m qs e m' qs'
  round x xs heap =
      let (item, others, popped, is) = pop_least-IsLeast x xs in
      let (e, es, key, at, value, waits) =
        pop-Tracks m qs item others t (subst (Perm (item ∷ others)) (sym heap) is.perm) in
      let i = item.1 in
      let there = get_elem?-set_self qs i (waiting es) (lt_of_get_elem? qs i at) in
      let (m', filled, tracks, same) =
        refill-Tracks i (record m { heap = others; buffered = set m.buffered i none })
          (set qs i (waiting es)) es waits there in
      let left = set-set qs i (waiting es) (loaded es) in
      let below = heads-NotAfter item.0 0 qs full sorted (
        All-Perm (λ (y : HeapItem). NotAfter item.0 y.0) (λ y. hlevel)
          (subst (λ h. Perm h (heads 0 qs)) heap t.heap) is.least) in
      (
        e,
        m',
        set qs i (loaded es),
        record {
          step = λ fuel.
              merge_loop_round fuel is_last_level m m' item.0 i e.1 others
                (ap pop_least heap ∙ popped) value filled
              ∙ ap (λ k. merge_loop fuel is_last_level (emit is_last_level k e.1 m')) key;
          tracks = subst (λ l. Tracks l m') left tracks;
          full = All-set IsLoaded qs i (loaded es) tt full;
          sorted = All-set _ qs i (loaded es) (All-get_elem? _ qs i sorted at).1 sorted;
          same = record { writer = same.writer; last_emitted_key = same.last_emitted_key };
          perm =
              subst (λ l. Perm (entries qs) (e ∷ l))
                (sym (entries-loaded (set qs i (waiting es)) i es there) ∙ ap entries left)
                (entries-waiting qs i e es at);
          least = subst (λ k. All (λ (x : Entry). NotAfter k x.0) (entries qs)) key below;
        },
      )

-- How a merge ends: the entries `es` that its rounds took are the entries of the inputs, in order,
-- and what survives of them went to the writer.
pub record Drained (is_last_level : Bool) (m : Merge) (qs : List Input) (m' : Merge)
    (es : List Entry) : Type 0 where
  pub perm : Perm es (entries qs)
  pub ascending : Ascending es
  pub writer : m'.writer ≡ add_entries m.writer (surviving is_last_level m.last_emitted_key es)

merge_loop_end :
    (fuel : ℕ) (is_last_level : Bool) (m : Merge)
    → m.heap ≡ []
    → merge_loop fuel is_last_level m ≡ ok m
unfolding merge_loop pop_least
merge_loop_end zero is_last_level m h = refl
merge_loop_end (suc fuel) is_last_level m h = rw h refl

after_emit :
    (is_last_level : Bool) (e : Entry) (m : Merge) (qs : List Input)
    → Tracks qs m
    → Tracks qs (emit is_last_level e.0 e.1 m)
after_emit is_last_level e m qs t =
    let (heap, buffered, iters) = emit_keeps is_last_level e.0 e.1 m in
    record {
      heap = subst (λ h. Perm h (heads 0 qs)) (sym heap) t.heap;
      slots =
          subst (λ vs. Slots vs (emit is_last_level e.0 e.1 m).iters qs) (sym buffered)
            (subst (λ its. Slots m.buffered its qs) (sym iters) t.slots);
    }

Drained-Round :
    (is_last_level : Bool) (m m1 m' : Merge) (qs qs' : List Input) (e : Entry) (es : List Entry)
    → Round is_last_level m qs e m1 qs'
    → Drained is_last_level (emit is_last_level e.0 e.1 m1) qs' m' es
    → Drained is_last_level m qs m' (e ∷ es)
Drained-Round is_last_level m m1 m' qs qs' e es r d =
    let perm = Perm.trans (Perm.cons e d.perm) (Perm.symm r.perm) in
    record {
      perm = perm;
      ascending = (
        (All-Perm (λ (x : Entry). NotAfter e.0 x.0) (λ x. hlevel) (Perm.symm perm) r.least).1,
        d.ascending,
      );
      writer =
          d.writer
          ∙ emit-surviving is_last_level e m1 es
          ∙ ap (λ w. add_entries w (surviving is_last_level m1.last_emitted_key (e ∷ es)))
              r.same.writer
          ∙ ap (λ k. add_entries m.writer (surviving is_last_level k (e ∷ es)))
              r.same.last_emitted_key;
    }

-- With more rounds than entries the merge loop ends and answers, and it took every entry of its
-- inputs once, in the order of the keys, and wrote what survives of them.
pub merge_loop-Drained :
    (fuel : ℕ) (is_last_level : Bool) (m : Merge) (qs : List Input)
    → Tracks qs m
    → All IsLoaded qs
    → SortedRuns qs
    → length (entries qs) < fuel
    → (m' : Merge) × (es : List Entry) × (merge_loop fuel is_last_level m ≡ ok m')
      × Drained is_last_level m qs m' es
merge_loop-Drained zero is_last_level m qs t full sorted enough = absurd (omega arith)
merge_loop-Drained (suc fuel) is_last_level m qs t full sorted enough = elim (List-cases m.heap) [
  | inl h ↦
      let nothing =
        entries-none 0 qs full
          (Perm.eq-nil (Perm.symm (subst (λ l. Perm l (heads 0 qs)) h t.heap))) in
      (
        m,
        [],
        merge_loop_end (suc fuel) is_last_level m h,
        record {
          perm = subst (Perm []) (sym nothing) Perm.nil;
          ascending = tt;
          writer = unfold surviving add_entries in refl;
        },
      )
  | inr (x, xs, h) ↦
      let (e, m1, qs', r) = round is_last_level m qs t full sorted x xs h in
      let (m', es, ends, d) =
        merge_loop-Drained fuel is_last_level (emit is_last_level e.0 e.1 m1) qs'
          (after_emit is_last_level e m1 qs' r.tracks) r.full r.sorted
          (omega (arith, length-Perm r.perm)) in
      (m', e ∷ es, r.step fuel ∙ ends, Drained-Round is_last_level m m1 m' qs qs' e es r d)
]
