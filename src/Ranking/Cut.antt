-- ===== src/Ranking/Cut.antt =====
-- The front of a sorted list: `truncate(k)`.
use mathlib.Core.List.{Perm}
use sift_core.Floats.{Floats, Documented}
use sift_core.Ranking.{Scored, sort_scores}
use sift_core.Ranking.Order.{Numbers, Descends, Perm-sort_scores, sort_scores-Descends}
use sift_core.Ranking.Top.{Beats}
use sift_core.Prelude.{
  ℕ, zero, suc, min, ◌≡◌, subst, sym, ap, ◌∙◌, List, [], ◌∷◌, ◌++◌, length, take, drop, All,
  length-take, take-append-drop, length-Perm,
}

All-take {ℓ κ} : {A : Type ℓ} (P : A → Type κ) (k : ℕ) (xs : List A) → All P xs → All P (take k xs)
All-take P zero xs a = tt
All-take P (suc k) [] a = tt
All-take P (suc k) (x ∷ xs) a = (a.0, All-take P k xs a.1)

All-drop {ℓ κ} : {A : Type ℓ} (P : A → Type κ) (k : ℕ) (xs : List A) → All P xs → All P (drop k xs)
All-drop P zero xs a = a
All-drop P (suc k) [] a = tt
All-drop P (suc k) (x ∷ xs) a = All-drop P k xs a.1

module _ (f : Floats) (doc : Documented f) where
  open f use {F32}

  take-Descends : (k : ℕ) (xs : List (Scored F32)) → Descends f doc xs → Descends f doc (take k xs)
  take-Descends zero xs d = tt
  take-Descends (suc k) [] d = tt
  take-Descends (suc k) (x ∷ xs) d = (All-take _ k xs d.0, take-Descends k xs d.1)

  take-Beats :
      (k : ℕ) (xs : List (Scored F32)) → Descends f doc xs → Beats f doc (take k xs) (drop k xs)
  take-Beats zero xs d = tt
  take-Beats (suc k) [] d = tt
  take-Beats (suc k) (x ∷ xs) d = (All-drop _ k xs d.0, take-Beats k xs d.1)

  -- The best `k` of some scores.
  pub record IsBest (k : ℕ) (out rest scores : List (Scored F32)) : Type 0 where
    pub perm : Perm (out ++ rest) scores
    pub beats : Beats f doc out rest
    pub descends : Descends f doc out
    pub size : length out ≡ min k (length scores)

  pub cut-IsBest :
      (k : ℕ) (scores : List (Scored F32))
      → Numbers f doc scores
      → IsBest k (take k (sort_scores f scores)) (drop k (sort_scores f scores)) scores
  cut-IsBest k scores numbers =
      let sorted = sort_scores f scores in
      let perm = Perm-sort_scores f doc scores in
      let down = sort_scores-Descends f doc scores numbers in
      record {
        perm = subst (λ t. Perm t scores) (sym (take-append-drop k sorted)) perm;
        beats = take-Beats k sorted down;
        descends = take-Descends k sorted down;
        size = length-take k sorted ∙ ap (min k) (length-Perm perm);
      }
