-- ===== src/Ranking.antt =====
-- Lists of scored documents, in the order of their scores: `sort_by` with `partial_cmp`, which
-- src/vector.rs, src/text.rs and src/fusion.rs each call.
pub mod Order
pub mod Top
pub mod Cut
pub mod Known
use sift_core.Floats.{Floats}
use sift_core.Prelude.{
  ℕ, Ordering, Bool, true, false, some, List, [], ◌∷◌, if◌then◌else◌, Option, none, ltb, length,
}

-- A document with its score, `(u64, f32)`.
abbrev pub Scored {ℓ} : Type ℓ → Type ℓ
Scored F = ℕ × F

module _ (f : Floats) where
  open f use {F32, partial_cmp}

  -- `a < b`; false where one of them is NaN.
  unfoldable pub lt_score : F32 → F32 → Bool
  lt_score a b = elim (partial_cmp a b) [ some Ordering.lt ↦ true | _ ↦ false ]

  -- `a > b`.
  unfoldable pub gt_score : F32 → F32 → Bool
  gt_score a b = elim (partial_cmp a b) [ some Ordering.gt ↦ true | _ ↦ false ]

  -- An item that stands before the others goes behind those with a higher score.
  unfoldable pub insert_score : Scored F32 → List (Scored F32) → List (Scored F32)
  insert_score x [] = x ∷ []
  insert_score x (y ∷ ys) =
      let rest = insert_score x ys in if lt_score x.1 y.1 then y ∷ rest else x ∷ y ∷ ys

  -- `sort_by(|a, b| b.1.partial_cmp(&a.1).unwrap_or(Ordering::Equal))`: stable, the highest first.
  unfoldable pub sort_scores : List (Scored F32) → List (Scored F32)
  unfolding lt_score insert_score
  sort_scores [] = []
  sort_scores (x ∷ xs) = insert_score x (sort_scores xs)

  -- `heap.peek()` and `heap.pop()` of a `BinaryHeap<Reverse<Scored>>`: an item with a least score,
  -- and the others.
  unfoldable pub pop_worst : List (Scored F32) → Option (Scored F32 × List (Scored F32))
  unfolding lt_score
  pop_worst [] = none
  pop_worst (x ∷ xs) = elim (pop_worst xs) [
    | none ↦ some (x, [])
    | some (y, ys) ↦ if lt_score y.1 x.1 then some (y, x ∷ ys) else some (x, xs)
  ]

  -- A candidate for a heap that never holds more than `k` items.
  unfoldable pub offer : ℕ → List (Scored F32) → Scored F32 → List (Scored F32)
  unfolding pop_worst gt_score
  offer k heap candidate = if ltb (length heap) k then candidate ∷ heap else elim (pop_worst heap) [
    | none ↦ heap
    | some (worst, rest) ↦ if gt_score candidate.1 worst.1 then candidate ∷ rest else heap
  ]

  unfoldable pub offer_all : ℕ → List (Scored F32) → List (Scored F32) → List (Scored F32)
  unfolding offer
  offer_all k heap [] = heap
  offer_all k heap (c ∷ cs) = offer_all k (offer k heap c) cs
