-- ===== src/Fusion/Union.antt =====
-- Fusion returns each document of the lists once.
use mathlib.Core.List.{Perm}
use sift_core.HashMap.{HashMap, nat_key, get}
use sift_core.HashMap.Laws.{Distinct, held, get-update, update-Distinct}
use sift_core.Floats.{Floats, Documented}
use sift_core.Ranking.{Scored}
use sift_core.Fusion.{fuse_list, fuse_lists, reciprocal_rank_fusion}
use sift_core.Prelude.{
  ℕ, ◌+◌, ◌≡◌, refl, ap, ◌∙◌, List, [], ◌∷◌, sym, inl, inr, Option, none, some, ◌++◌, ◌==◌,
  if◌then◌else◌, ==_iff, Bool-cases,
}
use sift_core.Vector.Search.{score}
use sift_core.Ranking.Order.{Numbers, Descends, Perm-sort_scores, sort_scores-Descends}

module _ (f : Floats) where
  open f use {F32, add, div, literal}

  -- What the document gains from one list, rank by rank.
  unfoldable pub shares : F32 → ℕ → ℕ → List (Scored F32) → List F32
  shares k_const rank id [] = []
  shares k_const rank id ((j, score) ∷ hits) =
      let rest = shares k_const (rank + 1) id hits in
      if j == id
      then div (literal 1 1) (add (add k_const (literal rank 1)) (literal 1 1)) ∷ rest
      else rest

  -- What it gains from all the lists, in their order.
  unfoldable pub all_shares : F32 → ℕ → List (List (Scored F32)) → List F32
  unfolding shares
  all_shares k_const id [] = []
  all_shares k_const id (hits ∷ lists) = shares k_const 0 id hits ++ all_shares k_const id lists

  -- The sum of the shares on top of a score, where there is one.
  unfoldable pub grown : Option F32 → List F32 → Option F32
  grown o [] = o
  grown o (s ∷ ss) = grown (some (add (held (literal 0 1) o) s)) ss

  grown-append : (o : Option F32) (xs ys : List F32) → grown o (xs ++ ys) ≡ grown (grown o xs) ys
  unfolding grown
  grown-append o [] ys = refl
  grown-append o (x ∷ xs) ys = grown-append (some (add (held (literal 0 1) o) x)) xs ys

  get-fuse_list :
      (k_const : F32) (rank : ℕ) (hits : List (Scored F32)) (fused : HashMap ℕ F32) (id : ℕ)
      → get id (fuse_list f k_const rank hits fused)
        ≡ grown (get id fused) (shares k_const rank id hits)
  unfolding fuse_list shares grown
  get-fuse_list k_const rank [] fused id = refl
  get-fuse_list k_const rank ((j, score) ∷ hits) fused id =
      get-fuse_list k_const (rank + 1) hits _ id
      ∙ ap (λ o. grown o (shares k_const (rank + 1) id hits))
          (get-update j id (literal 0 1) _ fused)
      ∙ elim (Bool-cases (j == id)) [
        | inl here ↦ rw here (
            ap
              (λ i.
                grown
                  (some (
                    add (held (literal 0 1) (get i fused))
                      (div (literal 1 1) (add (add k_const (literal rank 1)) (literal 1 1)))))
                  (shares k_const (rank + 1) id hits))
              ((==_iff j id).0 here))
        | inr other ↦ rw other refl
      ]

  get-fuse_lists :
      (k_const : F32) (lists : List (List (Scored F32))) (fused : HashMap ℕ F32) (id : ℕ)
      → get id (fuse_lists f k_const lists fused)
        ≡ grown (get id fused) (all_shares k_const id lists)
  unfolding fuse_lists all_shares grown
  get-fuse_lists k_const [] fused id = refl
  get-fuse_lists k_const (hits ∷ lists) fused id =
      get-fuse_lists k_const lists _ id
      ∙ ap (λ o. grown o (all_shares k_const id lists)) (get-fuse_list k_const 0 hits fused id)
      ∙ sym (grown-append (get id fused) (shares k_const 0 id hits) (all_shares k_const id lists))

  fuse_list-Distinct :
      (k_const : F32) (rank : ℕ) (hits : List (Scored F32)) (fused : HashMap ℕ F32)
      → Distinct fused
      → Distinct (fuse_list f k_const rank hits fused)
  unfolding fuse_list
  fuse_list-Distinct k_const rank [] fused d = d
  fuse_list-Distinct k_const rank ((j, score) ∷ hits) fused d =
      fuse_list-Distinct k_const (rank + 1) hits _ (update-Distinct j (literal 0 1) _ fused d)

  fuse_lists-Distinct :
      (k_const : F32) (lists : List (List (Scored F32))) (fused : HashMap ℕ F32)
      → Distinct fused
      → Distinct (fuse_lists f k_const lists fused)
  unfolding fuse_lists
  fuse_lists-Distinct k_const [] fused d = d
  fuse_lists-Distinct k_const (hits ∷ lists) fused d =
      fuse_lists-Distinct k_const lists _ (fuse_list-Distinct k_const 0 hits fused d)

  -- Where no sum is NaN, fusion returns each document that one of the lists has once, with the sum of
  -- `1 / (k + rank + 1)` over the ranks at which the lists have it, the highest sum first.
  pub fusion_ranks :
      (doc : Documented f) (lists : List (List (Scored F32))) (k_const : F32)
      → Numbers f doc (fuse_lists f k_const lists [])
      → Distinct (fuse_lists f k_const lists [])
        × ((id : ℕ)
            → get id (fuse_lists f k_const lists []) ≡ grown none (all_shares k_const id lists))
        × Perm (reciprocal_rank_fusion f lists k_const) (fuse_lists f k_const lists [])
        × Descends f doc (reciprocal_rank_fusion f lists k_const)
  unfolding reciprocal_rank_fusion get
  fusion_ranks doc lists k_const numbers = (
    fuse_lists-Distinct k_const lists [] tt,
    λ id. get-fuse_lists k_const lists [] id,
    Perm-sort_scores f doc (fuse_lists f k_const lists []),
    sort_scores-Descends f doc (fuse_lists f k_const lists []) numbers,
  )
