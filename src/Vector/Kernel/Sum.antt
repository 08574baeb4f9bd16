-- ===== src/Vector/Kernel/Sum.antt =====
-- The kernels against a plain sum over the pairs of coordinates.
use sift_core.Vector.Kernel.{add_lanes, add_chunks, sum_lanes, add_tail, kernel}
use sift_core.Prelude.{
  ℕ, zero, suc, ◌/◌, ◌≡◌, refl, subst, sym, ap, ◌∙◌, List, [], ◌∷◌, length, drop, replicate,
}

-- A sum whose order does not matter.
pub record Sums {ℓ} (A : Type ℓ) (add : A → A → A) (none_yet : A) : Type ℓ where
  pub assoc : (x y z : A) → add (add x y) z ≡ add x (add y z)
  pub comm : (x y : A) → add x y ≡ add y x
  pub unit : (x : A) → add none_yet x ≡ x

module _ {ℓ κ} {A : Type ℓ} {B : Type κ} (add : A → A → A) (zero_sum : A) (term : B → B → A) where
  -- The terms of the pairs, added one after the other.
  unfoldable pub sum_pairs : List B → List B → A
  sum_pairs (p ∷ ps) (q ∷ qs) = add (term p q) (sum_pairs ps qs)
  sum_pairs ps qs = zero_sum

  sum_pairs_nil : (ps : List B) → sum_pairs ps [] ≡ zero_sum
  unfolding sum_pairs
  sum_pairs_nil [] = refl
  sum_pairs_nil (p ∷ ps) = refl

  module _ (sums : Sums A add zero_sum) where
    unit_right : (x : A) → add x zero_sum ≡ x
    unit_right x = sums.comm x zero_sum ∙ sums.unit x

    swap_middle : (a b c d : A) → add (add a b) (add c d) ≡ add (add a c) (add b d)
    swap_middle a b c d =
        sums.assoc a b (add c d)
        ∙ ap (add a) (sym (sums.assoc b c d) ∙ ap (λ t. add t d) (sums.comm b c) ∙ sums.assoc c b d)
        ∙ sym (sums.assoc a c (add b d))

    add_tail-sum_pairs :
        (s : A) (ps qs : List B) → add_tail add zero_sum term s ps qs ≡ add s (sum_pairs ps qs)
    unfolding add_tail sum_pairs
    add_tail-sum_pairs s [] qs = sym (unit_right s)
    add_tail-sum_pairs s (p ∷ ps) [] = sym (unit_right s)
    add_tail-sum_pairs s (p ∷ ps) (q ∷ qs) =
        add_tail-sum_pairs (add s (term p q)) ps qs ∙ sums.assoc s (term p q) (sum_pairs ps qs)

    -- The sum of the accumulators.
    abbrev total : List A → A
    total [] = zero_sum
    total (x ∷ xs) = add x (total xs)

    sum_lanes-total : (s : A) (xs : List A) → sum_lanes add zero_sum term s xs ≡ add s (total xs)
    unfolding sum_lanes
    sum_lanes-total s [] = sym (unit_right s)
    sum_lanes-total s (x ∷ xs) = sum_lanes-total (add s x) xs ∙ sums.assoc s x (total xs)

    total-replicate : (n : ℕ) → total (replicate n zero_sum) ≡ zero_sum
    total-replicate zero = refl
    total-replicate (suc n) = sums.unit _ ∙ total-replicate n

    -- A step of the lanes moves terms from the rows to the accumulators.
    total-add_lanes :
        (acc : List A) (ps qs : List B)
        → add
            (total (add_lanes add zero_sum term acc ps qs))
            (sum_pairs (drop (length acc) ps) (drop (length acc) qs))
          ≡ add (total acc) (sum_pairs ps qs)
    unfolding add_lanes sum_pairs
    total-add_lanes [] ps qs = refl
    total-add_lanes (x ∷ acc) [] qs = refl
    total-add_lanes (x ∷ acc) (p ∷ ps) [] =
        ap (add (add x (total acc))) (sum_pairs_nil (drop (length acc) ps))
    total-add_lanes (x ∷ acc) (p ∷ ps) (q ∷ qs) =
        sums.assoc _ _ _
        ∙ ap (add (add x (term p q))) (total-add_lanes acc ps qs)
        ∙ swap_middle x (term p q) (total acc) (sum_pairs ps qs)

    length-add_lanes :
        (acc : List A) (ps qs : List B)
        → length (add_lanes add zero_sum term acc ps qs) ≡ length acc
    unfolding add_lanes
    length-add_lanes [] ps qs = refl
    length-add_lanes (x ∷ acc) [] qs = refl
    length-add_lanes (x ∷ acc) (p ∷ ps) [] = refl
    length-add_lanes (x ∷ acc) (p ∷ ps) (q ∷ qs) = ap suc (length-add_lanes acc ps qs)

    -- What the chunks and the tail add up to together.
    finish : List A × List B × List B → A
    finish (acc, ps, qs) =
        add_tail add zero_sum term (sum_lanes add zero_sum term zero_sum acc) ps qs

    finish-total :
        (acc : List A) (ps qs : List B) → finish (acc, ps, qs) ≡ add (total acc) (sum_pairs ps qs)
    unfolding finish
    finish-total acc ps qs =
        add_tail-sum_pairs _ ps qs
        ∙ ap (λ t. add t (sum_pairs ps qs)) (sum_lanes-total zero_sum acc ∙ sums.unit (total acc))

    finish-add_chunks :
        (c : ℕ) (acc : List A) (ps qs : List B)
        → length acc ≡ 8
        → finish (add_chunks add zero_sum term c acc ps qs) ≡ add (total acc) (sum_pairs ps qs)
    unfolding add_chunks
    finish-add_chunks zero acc ps qs eight = finish-total acc ps qs
    finish-add_chunks (suc c) acc ps qs eight =
        finish-add_chunks c (add_lanes add zero_sum term acc ps qs) (drop 8 ps) (drop 8 qs)
          (length-add_lanes acc ps qs ∙ eight)
        ∙ subst
            (λ n.
              add (total (add_lanes add zero_sum term acc ps qs))
                (sum_pairs (drop n ps) (drop n qs))
              ≡ add (total acc) (sum_pairs ps qs))
            eight (total-add_lanes acc ps qs)

    -- Where the order of a sum does not matter, the kernel with its eight accumulators and its tail
    -- is the plain sum over the pairs of coordinates: each pair enters it once.
    pub kernel-sum_pairs : (ps qs : List B) → kernel add zero_sum term ps qs ≡ sum_pairs ps qs
    unfolding kernel finish
    kernel-sum_pairs ps qs =
        finish-add_chunks (length ps / 8) (replicate 8 zero_sum) ps qs refl
        ∙ ap (λ t. add t (sum_pairs ps qs)) (total-replicate 8)
        ∙ sums.unit (sum_pairs ps qs)
