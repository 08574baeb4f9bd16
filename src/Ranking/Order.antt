-- ===== src/Ranking/Order.antt =====
-- The order of a sorted list of scores.
use mathlib.Core.List.{Perm}
use mathlib.Core.List.Perm as Perm
use sift_core.Floats.{Floats, Documented}
use sift_core.Ranking.{Scored, lt_score, gt_score, insert_score, sort_scores}
use sift_core.HashMap.Laws.{held}
use sift_core.Prelude.{
  ℕ, ◌≤◌, ◌≡◌, some, List, [], ◌∷◌, ltb, All, inl, inr, arith, Bool-cases, All-imp,
}

module _ (f : Floats) (doc : Documented f) where
  open f use {F32}

  -- The place of a value among the values; that of NaN says nothing.
  abbrev pub place : F32 → ℕ
  place x = held 0 (doc.rank x)

  -- The value is not NaN.
  abbrev pub IsNumber : F32 → Type 0
  IsNumber x = doc.rank x ≡ some (place x)

  abbrev pub Numbers : List (Scored F32) → Type 0
  Numbers xs = All (λ (e : Scored F32). IsNumber e.1) xs

  pub lt_score-place :
      (x y : F32) → IsNumber x → IsNumber y → lt_score f x y ≡ ltb (place x) (place y)
  unfolding lt_score
  lt_score-place x y hx hy = ground (arith, doc.ordered x y, hx, hy)

  pub gt_score-place :
      (x y : F32) → IsNumber x → IsNumber y → gt_score f x y ≡ ltb (place y) (place x)
  unfolding gt_score
  gt_score-place x y hx hy = ground (arith, doc.ordered x y, hx, hy)

  -- No score stands behind a lower one.
  abbrev pub Descends : List (Scored F32) → Type 0
  Descends [] = Unit
  Descends (x ∷ xs) = All (λ (y : Scored F32). place y.1 ≤ place x.1) xs × Descends xs

  pub Perm-insert_score :
      (x : Scored F32) (ys : List (Scored F32)) → Perm (insert_score f x ys) (x ∷ ys)
  unfolding insert_score
  Perm-insert_score x [] = Perm.refl (x ∷ [])
  Perm-insert_score x (y ∷ ys) = elim (Bool-cases (lt_score f x.1 y.1)) [
    | inl behind ↦ rw behind (Perm.trans (Perm.cons y (Perm-insert_score x ys)) (Perm.swap x y ys))
    | inr before ↦ rw before (Perm.refl (x ∷ y ∷ ys))
  ]

  -- Sorting keeps the items.
  pub Perm-sort_scores : (xs : List (Scored F32)) → Perm (sort_scores f xs) xs
  unfolding sort_scores
  Perm-sort_scores [] = Perm.nil
  Perm-sort_scores (x ∷ xs) =
      Perm.trans (Perm-insert_score x (sort_scores f xs)) (Perm.cons x (Perm-sort_scores xs))

  All-insert_score {κ} :
      (P : Scored F32 → Type κ) (x : Scored F32) (ys : List (Scored F32))
      → P x
      → All P ys
      → All P (insert_score f x ys)
  unfolding insert_score
  All-insert_score P x [] p a = (p, tt)
  All-insert_score P x (y ∷ ys) p a = elim (Bool-cases (lt_score f x.1 y.1)) [
    | inl behind ↦ rw behind (a.0, All-insert_score P x ys p a.1)
    | inr before ↦ rw before (p, a)
  ]

  pub All-sort_scores {κ} :
      (P : Scored F32 → Type κ) (xs : List (Scored F32)) → All P xs → All P (sort_scores f xs)
  unfolding sort_scores
  All-sort_scores P [] a = tt
  All-sort_scores P (x ∷ xs) a =
      All-insert_score P x (sort_scores f xs) a.0 (All-sort_scores P xs a.1)

  insert_score-Descends :
      (x : Scored F32) (ys : List (Scored F32))
      → IsNumber x.1
      → Numbers ys
      → Descends ys
      → Descends (insert_score f x ys)
  unfolding insert_score
  insert_score-Descends x [] hx hys d = (tt, tt)
  insert_score-Descends x (y ∷ ys) hx hys d = elim (Bool-cases (lt_score f x.1 y.1)) [
    | inl behind ↦ rw behind (
      All-insert_score (λ z. place z.1 ≤ place y.1) x ys
          (ground (arith, lt_score-place x.1 y.1 hx hys.0, behind)) d.0,
      insert_score-Descends x ys hx hys.1 d.1,
    )
    | inr before ↦
        let le : place y.1 ≤ place x.1 = ground (arith, lt_score-place x.1 y.1 hx hys.0, before) in
        rw before ((le, All-imp (λ z lower. omega arith) ys d.0), d)
  ]

  -- A sort of scores that are numbers descends.
  pub sort_scores-Descends : (xs : List (Scored F32)) → Numbers xs → Descends (sort_scores f xs)
  unfolding sort_scores
  sort_scores-Descends [] h = tt
  sort_scores-Descends (x ∷ xs) h =
      insert_score-Descends x (sort_scores f xs) h.0 (All-sort_scores (λ e. IsNumber e.1) xs h.1)
        (sort_scores-Descends xs h.1)
