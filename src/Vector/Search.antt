-- ===== src/Vector/Search.antt =====
-- src/vector.rs, `search`: the exact scan with a bounded heap.
use sift_core.Floats.{Floats}
use sift_core.Vector.{VectorIndex, VectorError, dimension_mismatch, Metric, is_empty, row}
use sift_core.Vector.Kernel.{dot, l2_sq, norm}
use sift_core.Ranking.{Scored, offer_all, sort_scores}
use sift_core.Fallible.{Fallible, done, failed, crashed}
use sift_core.Prelude.{
  ℕ, ◌+◌, ◌-◌, ◌*◌, ◌%◌, ◌^◌, Ordering, Bool, true, false, not, ◌||◌, Option, none, some, List, [],
  ◌∷◌, ltb, ◌==◌, if◌then◌else◌, length,
}

-- `BinaryHeap::with_capacity(k + 1)` panics where its 16-byte items pass `isize::MAX`.
unfoldable pub heap_overflows : ℕ → Bool
heap_overflows k = ltb (2 ^ 63 - 1) ((k + 1) % 2 ^ 64 * 16)

module _ (f : Floats) where
  open f use {F32, mul, div, neg, literal, partial_cmp}

  -- `x == 0.0`.
  unfoldable pub is_zero : F32 → Bool
  is_zero x = elim (partial_cmp x (literal 0 1)) [ some Ordering.eq ↦ true | _ ↦ false ]

  -- `if metric == Metric::Cosine { norm(query) } else { 1.0 }`.
  unfoldable pub query_norm : Metric → List F32 → F32
  query_norm Metric.cosine query = norm f query
  query_norm Metric.dot query = literal 1 1
  query_norm Metric.l2 query = literal 1 1

  unfoldable pub score : Metric → List F32 → F32 → List F32 → F32
  unfolding is_zero
  score Metric.dot query qn r = dot f query r
  score Metric.l2 query qn r = neg (l2_sq f query r)
  score Metric.cosine query qn r =
      let denom = mul qn (norm f r) in
      if is_zero denom then literal 0 1 else div (dot f query r) denom

  -- The candidates of the scan, from row `i` on; a row out of range panics.
  unfoldable pub candidates :
      VectorIndex F32 → Metric → List F32 → F32 → List ℕ → ℕ → Option (List (Scored F32))
  unfolding score
  candidates v metric query qn [] i = some []
  candidates v metric query qn (id ∷ ids) i =
      let rest = candidates v metric query qn ids (i + 1) in
      elim (row v i) [
        | none ↦ none
        | some r ↦ elim rest [ none ↦ none | some cs ↦ some ((id, score metric query qn r) ∷ cs) ]
      ]

  unfoldable pub search :
      VectorIndex F32 → List F32 → ℕ → Metric → Fallible VectorError (List (Scored F32))
  unfolding heap_overflows query_norm candidates offer_all sort_scores
  search v query k metric =
      if not (length query == v.dim)
      then failed (dimension_mismatch v.dim (length query))
      else if k == 0 || is_empty v
      then done []
      else if heap_overflows k
      then crashed
      else elim (candidates v metric query (query_norm metric query) v.ids 0) [
        | none ↦ crashed
        | some cs ↦ done (sort_scores f (offer_all f k [] cs))
      ]
