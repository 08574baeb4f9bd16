-- ===== src/Vector/Kernel.antt =====
-- src/vector.rs, the distance kernels: sums with eight accumulators. The lengths of the two rows
-- agree, as `search` makes sure.
pub mod Sum
pub mod Once
use sift_core.Floats.{Floats}
use sift_core.Prelude.{ℕ, zero, suc, ◌/◌, List, [], ◌∷◌, length, drop, replicate}
use sift_core.Sstable.Bloom.{add}

-- The shape that `dot` and `l2_sq` share: `term` is what one pair of coordinates adds.
module _ {ℓ κ} {A : Type ℓ} {B : Type κ} (add : A → A → A) (zero_sum : A) (term : B → B → A) where
  -- `for l in 0..8 { acc[l] += ... }`.
  unfoldable pub add_lanes : List A → List B → List B → List A
  add_lanes (x ∷ acc) (p ∷ ps) (q ∷ qs) = add x (term p q) ∷ add_lanes acc ps qs
  add_lanes acc ps qs = acc

  -- `for c in 0..chunks`: the accumulators, and what is left of both rows.
  unfoldable pub add_chunks : ℕ → List A → List B → List B → List A × List B × List B
  unfolding add_lanes
  add_chunks zero acc ps qs = (acc, ps, qs)
  add_chunks (suc c) acc ps qs = add_chunks c (add_lanes acc ps qs) (drop 8 ps) (drop 8 qs)

  -- `acc.iter().sum()`.
  unfoldable pub sum_lanes : A → List A → A
  sum_lanes sum [] = sum
  sum_lanes sum (x ∷ xs) = sum_lanes (add sum x) xs

  -- `for i in (chunks * 8)..n { sum += ... }`.
  unfoldable pub add_tail : A → List B → List B → A
  add_tail sum (p ∷ ps) (q ∷ qs) = add_tail (add sum (term p q)) ps qs
  add_tail sum ps qs = sum

  unfoldable pub kernel : List B → List B → A
  unfolding add_chunks sum_lanes add_tail
  kernel ps qs =
      let (acc, ps', qs') = add_chunks (length ps / 8) (replicate 8 zero_sum) ps qs in
      add_tail (sum_lanes zero_sum acc) ps' qs'

module _ (f : Floats) where
  open f use {F32, add, sub, mul, sqrt, literal}

  unfoldable pub dot : List F32 → List F32 → F32
  unfolding kernel
  dot a b = kernel add (literal 0 1) mul a b

  unfoldable pub l2_sq : List F32 → List F32 → F32
  unfolding kernel
  l2_sq a b = kernel add (literal 0 1) (λ x y. mul (sub x y) (sub x y)) a b

  unfoldable pub norm : List F32 → F32
  unfolding dot
  norm a = sqrt (dot a a)
