-- ===== src/Compaction/Popped.antt =====
-- src/compaction.rs: what the inputs of a merge have left, and its order.
use mathlib.Core.List.{Perm, perm_middle}
use mathlib.Core.List.Perm as Perm
use sift_core.Compaction.{HeapItem}
use sift_core.Compaction.Inputs.{Input, waiting, loaded, run_of, entries, heads}
use sift_core.Compaction.Least.{NotAfter, NotAfter-trans}
use sift_core.Key.{InternalKey, Entry}
use sift_core.Key.Order.{Above, IsSorted}
use sift_core.Prelude.{
  ℕ, zero, suc, ◌+◌, ◌≡◌, refl, subst, sym, ap, some, List, [], ◌∷◌, ◌++◌, some_inj, get_elem?, set,
  All, All-append, All-imp,
}

abbrev pub IsLoaded : Input → Type 0
IsLoaded (waiting es) = ⊥
IsLoaded (loaded es) = Unit

-- Every input has a sorted run left.
abbrev pub SortedRuns : List Input → Type 0
SortedRuns qs = All (λ (q : Input). IsSorted (run_of q)) qs

pub entries-waiting :
    (qs : List Input) (i : ℕ) (e : Entry) (es : List Entry)
    → get_elem? qs i ≡ some (loaded (e ∷ es))
    → Perm (entries qs) (e ∷ entries (set qs i (waiting es)))
entries-waiting [] i e es h = absurd (cc)
entries-waiting (q ∷ qs) zero e es h =
    subst (λ x. Perm (entries (x ∷ qs)) (e ∷ (es ++ entries qs))) (sym (some_inj h)) (Perm.refl _)
entries-waiting (q ∷ qs) (suc i) e es h =
    Perm.trans (Perm.append_left (run_of q) (entries-waiting qs i e es h))
      (perm_middle (run_of q) _)

pub entries-loaded :
    (qs : List Input) (i : ℕ) (es : List Entry)
    → get_elem? qs i ≡ some (waiting es)
    → entries (set qs i (loaded es)) ≡ entries qs
entries-loaded [] i es h = refl
entries-loaded (q ∷ qs) zero es h = ap (λ x. entries (x ∷ qs)) (sym (some_inj h))
entries-loaded (q ∷ qs) (suc i) es h = ap (λ t. run_of q ++ t) (entries-loaded qs i es h)

pub NotAfter-Above :
    (k : InternalKey) (e : Entry) (es : List Entry)
    → NotAfter k e.0
    → Above e.0 es
    → All (λ (x : Entry). NotAfter k x.0) es
NotAfter-Above k e es h above = All-imp (λ x lt_. NotAfter-trans k e.0 x.0 h (λ g. cc)) es above

-- A key that stands behind no head stands behind nothing that the inputs have left.
pub heads-NotAfter :
    (k : InternalKey) (j : ℕ) (qs : List Input)
    → All IsLoaded qs
    → SortedRuns qs
    → All (λ (y : HeapItem). NotAfter k y.0) (heads j qs)
    → All (λ (x : Entry). NotAfter k x.0) (entries qs)
heads-NotAfter k j [] full sorted h = tt
heads-NotAfter k j (waiting es ∷ qs) full sorted h = elim full.0 [ ]
heads-NotAfter k j (loaded [] ∷ qs) full sorted h = heads-NotAfter k (j + 1) qs full.1 sorted.1 h
heads-NotAfter k j (loaded (e ∷ es) ∷ qs) full sorted h = (
  h.0,
  All-append _ es (entries qs) (NotAfter-Above k e es h.0 sorted.0.0)
      (heads-NotAfter k (j + 1) qs full.1 sorted.1 h.1),
)

-- Where the heap is empty, nothing is left.
pub entries-none : (j : ℕ) (qs : List Input) → All IsLoaded qs → heads j qs ≡ [] → entries qs ≡ []
entries-none j [] full h = refl
entries-none j (waiting es ∷ qs) full h = elim full.0 [ ]
entries-none j (loaded [] ∷ qs) full h = entries-none (j + 1) qs full.1 h
entries-none j (loaded (e ∷ es) ∷ qs) full h = absurd (cc)
