-- ===== src/Fusion.antt =====
-- src/fusion.rs: reciprocal rank fusion.
pub mod Union
use sift_core.HashMap
use sift_core.HashMap.{HashMap, nat_key}
use sift_core.Floats.{Floats}
use sift_core.Ranking.{Scored, sort_scores}
use sift_core.Prelude.{ℕ, ◌+◌, List, [], ◌∷◌}
use sift_core.Sstable.Bloom.{add}
use sift_core.Vector.Search.{score}

module _ (f : Floats) where
  open f use {F32, add, div, literal}

  -- `for (rank, (id, _score)) in list.iter().enumerate()`, from a rank on.
  unfoldable pub fuse_list : F32 → ℕ → List (Scored F32) → HashMap ℕ F32 → HashMap ℕ F32
  fuse_list k_const rank [] fused = fused
  fuse_list k_const rank ((id, score) ∷ hits) fused =
      let share = div (literal 1 1) (add (add k_const (literal rank 1)) (literal 1 1)) in
      fuse_list k_const (rank + 1) hits (HashMap.update id (literal 0 1) (λ s. add s share) fused)

  unfoldable pub fuse_lists : F32 → List (List (Scored F32)) → HashMap ℕ F32 → HashMap ℕ F32
  unfolding fuse_list
  fuse_lists k_const [] fused = fused
  fuse_lists k_const (hits ∷ lists) fused =
      fuse_lists k_const lists (fuse_list k_const 0 hits fused)

  unfoldable pub reciprocal_rank_fusion : List (List (Scored F32)) → F32 → List (Scored F32)
  unfolding fuse_lists sort_scores
  reciprocal_rank_fusion lists k_const = sort_scores f (fuse_lists k_const lists [])
