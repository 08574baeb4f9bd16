-- ===== src/Tests/Vectors.antt =====
-- Runs of the vector index.
use sift_core.HashMap.{nat_key, contains}
use sift_core.Ranking.{Scored}
use sift_core.Ranking.Cut.{IsBest}
use sift_core.Vector.{VectorIndex, Metric}
use sift_core.Vector.Rows.{Rows, Holds}
use sift_core.Vector.Remove.{remove-Holds}
use sift_core.Vector.RemoveLast.{Removed}
use sift_core.Vector.TopK.{scores_of, search-top}
use sift_core.Vector.Search.{search, score, query_norm}
use sift_core.Ranking.Order.{Numbers}
use sift_core.Vector.Kernel.{kernel, dot, l2_sq, norm}
use sift_core.Vector.Kernel.{dot, l2_sq}
use sift_core.Vector.Kernel.Once.{Additions, eval, distances_terms}
use sift_core.Vector.Kernel.Sum.{sum_pairs}
use sift_core.Tests.Digits.{Digit, digit_0, digit_1, digit_2, digits, digits_documented}
use sift_core.Prelude.{replicate, ℕ, ◌+◌, ◌*◌, ◌≡◌, refl, List, [], ◌∷◌, arith}
use sift_core.Fallible.{done}

abbrev pub three_rows : Rows Digit
three_rows =
    (1, digit_1 ∷ digit_0 ∷ []) ∷ (2, digit_0 ∷ digit_2 ∷ []) ∷ (3, digit_1 ∷ digit_1 ∷ []) ∷ []

abbrev pub three_index : VectorIndex Digit
three_index = record {
  dim = 2;
  ids = 1 ∷ 2 ∷ 3 ∷ [];
  cells = digit_1 ∷ digit_0 ∷ digit_0 ∷ digit_2 ∷ digit_1 ∷ digit_1 ∷ [];
}

pub three-Holds : Holds three_index three_rows
unfolding contains
three-Holds = record {
  ids = refl;
  cells = refl;
  widths = (refl, (refl, (refl, tt)));
  distinct = (refl, (refl, (refl, tt)));
}

remove-Holds_example : Removed three_index 1 three_rows
remove-Holds_example = remove-Holds three_index three_rows 1 three-Holds

pub three-Numbers :
    (metric : Metric)
    → Numbers digits digits_documented (scores_of digits metric (digit_1 ∷ digit_1 ∷ []) three_rows)
unfolding score dot l2_sq query_norm norm
three-Numbers Metric.dot = (refl, (refl, (refl, tt)))
three-Numbers Metric.l2 = (refl, (refl, (refl, tt)))
three-Numbers Metric.cosine = (refl, (refl, (refl, tt)))

search-top_example :
    (out : List (Scored Digit)) × (search digits three_index (digit_1 ∷ digit_1 ∷ []) 2 Metric.dot
      ≡ done out)
    × (rest : List (Scored Digit)) × IsBest digits digits_documented 2 out rest
        (scores_of digits Metric.dot (digit_1 ∷ digit_1 ∷ []) three_rows)
search-top_example =
    search-top digits digits_documented three_index three_rows (digit_1 ∷ digit_1 ∷ []) 2 Metric.dot
      three-Holds refl (omega arith) (three-Numbers Metric.dot)

abbrev nine_ones : List Digit
nine_ones = replicate 9 digit_1

distances_terms_example :
    (t : Additions Digit) × (dot digits nine_ones nine_ones
      ≡ eval digits.add (digits.literal 0 1) digits.mul t)
    × (l2_sq digits nine_ones nine_ones
        ≡ eval digits.add
            (digits.literal 0 1)
            (λ x y. digits.mul (digits.sub x y) (digits.sub x y))
            t)
    × ((weight : Digit → Digit → ℕ)
        → eval ◌+◌ 0 weight t ≡ sum_pairs ◌+◌ 0 weight nine_ones nine_ones)
distances_terms_example = distances_terms digits nine_ones nine_ones

-- The sum of the products, in eight lanes and a tail.
kernel_run :
    kernel ◌+◌ 0 ◌*◌
      (1 ∷ 2 ∷ 3 ∷ 4 ∷ 5 ∷ 6 ∷ 7 ∷ 8 ∷ 9 ∷ [])
      (1 ∷ 1 ∷ 1 ∷ 1 ∷ 1 ∷ 1 ∷ 1 ∷ 1 ∷ 2 ∷ [])
    ≡ 54
unfolding kernel
kernel_run = refl
