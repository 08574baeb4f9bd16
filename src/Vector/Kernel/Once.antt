-- ===== src/Vector/Kernel/Once.antt =====
-- Which terms the kernels of src/vector.rs add up, whatever the addition is.
use sift_core.Floats.{Floats}
use sift_core.Prelude.{
  ℕ, zero, suc, ◌+◌, ◌/◌, ◌≡◌, refl, sym, ap, ◌∙◌, List, [], ◌∷◌, arith, length, drop, replicate,
  map,
}
use sift_core.Vector.Kernel.{add_lanes, add_chunks, sum_lanes, add_tail, kernel, dot, l2_sq}
use sift_core.Vector.Kernel.Sum.{Sums, sum_pairs, kernel-sum_pairs}

-- A way to add up terms of pairs: which pairs, and how the additions nest.
pub data Additions {ℓ} (B : Type ℓ) : Type ℓ where
  nothing : Additions B
  pair : B → B → Additions B
  plus : Additions B → Additions B → Additions B

module _ {ℓ κ} {A : Type ℓ} {B : Type κ} (add : A → A → A) (zero_sum : A) (term : B → B → A) where
  -- The value of the additions.
  unfoldable pub eval : Additions B → A
  eval nothing = zero_sum
  eval (pair p q) = term p q
  eval (plus s t) = add (eval s) (eval t)

  eval-add_lanes :
      (acc : List (Additions B)) (ps qs : List B)
      → map eval (add_lanes plus nothing pair acc ps qs)
        ≡ add_lanes add zero_sum term (map eval acc) ps qs
  unfolding add_lanes eval
  eval-add_lanes [] ps qs = refl
  eval-add_lanes (x ∷ acc) [] qs = refl
  eval-add_lanes (x ∷ acc) (p ∷ ps) [] = refl
  eval-add_lanes (x ∷ acc) (p ∷ ps) (q ∷ qs) =
      ap (λ t. add (eval x) (term p q) ∷ t) (eval-add_lanes acc ps qs)

  eval-sum_lanes :
      (s : Additions B) (xs : List (Additions B))
      → eval (sum_lanes plus nothing pair s xs) ≡ sum_lanes add zero_sum term (eval s) (map eval xs)
  unfolding sum_lanes eval
  eval-sum_lanes s [] = refl
  eval-sum_lanes s (x ∷ xs) = eval-sum_lanes (plus s x) xs

  eval-add_tail :
      (s : Additions B) (ps qs : List B)
      → eval (add_tail plus nothing pair s ps qs) ≡ add_tail add zero_sum term (eval s) ps qs
  unfolding add_tail eval
  eval-add_tail s [] qs = refl
  eval-add_tail s (p ∷ ps) [] = refl
  eval-add_tail s (p ∷ ps) (q ∷ qs) = eval-add_tail (plus s (pair p q)) ps qs

  -- The chunks, their accumulators and the tail, from some accumulators on.
  run : ℕ → List A → List B → List B → A
  run c acc ps qs =
      let (acc', ps', qs') = add_chunks add zero_sum term c acc ps qs in
      add_tail add zero_sum term (sum_lanes add zero_sum term zero_sum acc') ps' qs'

module _ {ℓ κ} {A : Type ℓ} {B : Type κ} (add : A → A → A) (zero_sum : A) (term : B → B → A) where
  eval-run :
      (c : ℕ) (acc : List (Additions B)) (ps qs : List B)
      → eval add zero_sum term (run plus nothing pair c acc ps qs)
        ≡ run add zero_sum term c (map (eval add zero_sum term) acc) ps qs
  unfolding run add_chunks eval
  eval-run zero acc ps qs =
      eval-add_tail add zero_sum term (sum_lanes plus nothing pair nothing acc) ps qs
      ∙ ap (λ s. add_tail add zero_sum term s ps qs) (eval-sum_lanes add zero_sum term nothing acc)
  eval-run (suc c) acc ps qs =
      eval-run c (add_lanes plus nothing pair acc ps qs) (drop 8 ps) (drop 8 qs)
      ∙ ap (λ l. run add zero_sum term c l (drop 8 ps) (drop 8 qs))
          (eval-add_lanes add zero_sum term acc ps qs)

  -- The kernel of any addition is the value of the additions that the kernel of additions makes.
  kernel-eval :
      (ps qs : List B)
      → kernel add zero_sum term ps qs ≡ eval add zero_sum term (kernel plus nothing pair ps qs)
  unfolding kernel run eval
  kernel-eval ps qs = sym (eval-run (length ps / 8) (replicate 8 nothing) ps qs)

nat-Sums : Sums ℕ ◌+◌ 0
nat-Sums = record {
  assoc = λ x y z. omega arith;
  comm = λ x y. omega arith;
  unit = λ x. omega arith;
}

-- Whatever the addition of floats does, the inner product and the squared distance of two rows add
-- up terms of the pairs of their coordinates in one and the same nesting of additions, and the
-- pairs in it are those of the rows, each as often as they have it, however pairs are counted.
pub distances_terms :
    (f : Floats) (a b : List f.F32)
    → (t : Additions f.F32) × (dot f a b ≡ eval f.add (f.literal 0 1) f.mul t)
      × (l2_sq f a b ≡ eval f.add (f.literal 0 1) (λ x y. f.mul (f.sub x y) (f.sub x y)) t)
      × ((weight : f.F32 → f.F32 → ℕ) → eval ◌+◌ 0 weight t ≡ sum_pairs ◌+◌ 0 weight a b)
unfolding dot l2_sq
distances_terms f a b = (
  kernel plus nothing pair a b,
  kernel-eval f.add (f.literal 0 1) f.mul a b,
  kernel-eval f.add (f.literal 0 1) (λ x y. f.mul (f.sub x y) (f.sub x y)) a b,
  λ weight. sym (kernel-eval ◌+◌ 0 weight a b) ∙ kernel-sum_pairs ◌+◌ 0 weight nat-Sums a b,
)
