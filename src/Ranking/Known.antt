-- ===== src/Ranking/Known.antt =====
-- A property of all the ids of a list of scores.
use mathlib.Core.List.{Perm, Permᴰ}
use mathlib.Core.Bool.{Bool-set}
use mathlib.Core.Logic.{∥∥₁_elim}
use sift_core.HashMap
use sift_core.HashMap.{HashMap, nat_key, contains}
use sift_core.Ranking.{Scored}
use sift_core.Prelude.{
  ℕ, zero, suc, ◌≡◌, refl, ap, ◌∙◌, Bool, true, ◌&&◌, List, [], ◌∷◌, ◌++◌, arith, take,
}

module _ {F : Type 0} (p : ℕ → Bool) where
  -- Each id has the property.
  abbrev pub known : List (Scored F) → Bool
  known [] = true
  known (x ∷ xs) = p x.0 && known xs

  known-Permᴰ : {xs ys : List (Scored F)} → Permᴰ xs ys → known xs ≡ known ys
  known-Permᴰ Permᴰ.nil = refl
  known-Permᴰ (Permᴰ.cons e q) = ground (arith, ap (λ x. p x.0) e, known-Permᴰ q)
  known-Permᴰ (Permᴰ.swap e e') = ground (arith, ap (λ x. p x.0) e, ap (λ x. p x.0) e')
  known-Permᴰ (Permᴰ.trans q r) = known-Permᴰ q ∙ known-Permᴰ r

  pub known-Perm : {xs ys : List (Scored F)} → Perm xs ys → known xs ≡ known ys
  known-Perm q = ∥∥₁_elim q (Bool-set _ _) known-Permᴰ

  pub known_front : (xs ys : List (Scored F)) → known (xs ++ ys) ≡ true → known xs ≡ true
  known_front [] ys h = refl
  known_front (x ∷ xs) ys h = ground (arith, known_front xs ys)

  pub known-take : (k : ℕ) (xs : List (Scored F)) → known xs ≡ true → known (take k xs) ≡ true
  known-take zero xs h = refl
  known-take (suc k) [] h = refl
  known-take (suc k) (x ∷ xs) h = ground (arith, known-take k xs)

  pub known-update :
      (id : ℕ) (d : F) (g : F → F) (m : HashMap ℕ F)
      → p id ≡ true
      → known m ≡ true
      → known (HashMap.update id d g m) ≡ true
  unfolding HashMap.update
  known-update id d g [] has h = ground arith
  known-update id d g ((j, w) ∷ m) has h = ground (arith, known-update id d g m)

  pub known_keys :
      (m : HashMap ℕ F) → ((id : ℕ) → contains id m ≡ true → p id ≡ true) → known m ≡ true
  unfolding contains
  known_keys [] h = refl
  known_keys ((j, w) ∷ m) h =
      let rest = known_keys m (λ id there. h id (ground (arith, there))) in
      ground (arith, h j, rest)
