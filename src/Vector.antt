-- ===== src/Vector.antt =====
-- src/vector.rs: the flat vector index, an array of ids beside one array of all rows.
pub mod Kernel
pub mod Search
pub mod Swap
pub mod Rows
pub mod Insert
pub mod RemoveLast
pub mod Remove
pub mod TopK
use sift_core.Fallible.{Fallible, done, failed, crashed}
use sift_core.Prelude.{
  ℕ, zero, suc, ◌+◌, ◌-◌, ◌*◌, Bool, true, false, not, Option, none, some, List, [], ◌∷◌, ◌++◌, leb,
  ◌==◌, if◌then◌else◌, length, get_elem?, set, take, drop,
}

pub data Metric : Type 0 where
  dot l2 cosine : Metric

pub data VectorError : Type 0 where
  dimension_mismatch : ℕ → ℕ → VectorError

-- Row `i` lives at `cells[i * dim .. (i + 1) * dim]`.
pub record VectorIndex {ℓ} (F : Type ℓ) : Type ℓ where
  pub dim : ℕ
  pub ids : List ℕ
  pub cells : List F

-- `self.ids.iter().position(|&x| x == id)`, counting from `i`.
unfoldable pub position : ℕ → List ℕ → ℕ → Option ℕ
position id [] i = none
position id (x ∷ xs) i = let rest = position id xs (i + 1) in if x == id then some i else rest

-- `xs.swap(i, j)`.
unfoldable pub swap {ℓ} : {A : Type ℓ} → List A → ℕ → ℕ → Option (List A)
swap xs i j = elim (get_elem? xs i) [
  | none ↦ none
  | some x ↦ elim (get_elem? xs j) [ none ↦ none | some y ↦ some (set (set xs i y) j x) ]
]

module _ {ℓ} {F : Type ℓ} where
  -- `xs[start .. start + v.len()].copy_from_slice(v)`; out of range it panics.
  unfoldable pub copy_at : ℕ → List F → List F → Option (List F)
  copy_at start v xs =
      if leb (start + length v) (length xs)
      then some (take start xs ++ (v ++ drop (start + length v) xs))
      else none

  -- `for d in 0..dim { data.swap(a + d, b + d) }`, from `d` on for `n` rounds.
  unfoldable pub swap_rows : ℕ → ℕ → ℕ → ℕ → List F → Option (List F)
  unfolding swap
  swap_rows zero d a b xs = some xs
  swap_rows (suc n) d a b xs = elim (swap xs (a + d) (b + d)) [
    | none ↦ none
    | some ys ↦ swap_rows n (d + 1) a b ys
  ]

  unfoldable pub new : ℕ → VectorIndex F
  new dim = record { dim = dim; ids = []; cells = [] }

  unfoldable pub len : VectorIndex F → ℕ
  len v = length v.ids

  unfoldable pub is_empty : VectorIndex F → Bool
  is_empty v = elim v.ids [ [] ↦ true | _ ↦ false ]

  -- `insert`: an id that is there has its row overwritten.
  unfoldable pub insert : VectorIndex F → ℕ → List F → Fallible VectorError (VectorIndex F)
  unfolding position copy_at
  insert v id row =
      if not (length row == v.dim)
      then failed (dimension_mismatch v.dim (length row))
      else elim (position id v.ids 0) [
        | some pos ↦ elim (copy_at (pos * v.dim) row v.cells) [
          | some cells ↦ done (record v { cells = cells })
          | none ↦ crashed
        ]
        | none ↦ done (record v { ids = v.ids ++ (id ∷ []); cells = v.cells ++ row })
      ]

  -- `remove`: the last row takes the place of the removed one.
  unfoldable pub remove : VectorIndex F → ℕ → Fallible VectorError (Bool × VectorIndex F)
  unfolding position swap swap_rows
  remove v id = elim (position id v.ids 0) [
    | none ↦ done (false, v)
    | some pos ↦
        let last = length v.ids - 1 in
        elim (swap v.ids pos last) [
          | none ↦ crashed
          | some ids ↦ elim (swap_rows v.dim 0 (pos * v.dim) (last * v.dim) v.cells) [
            | none ↦ crashed
            | some cells ↦
                done (true, record v { ids = take last ids; cells = take (last * v.dim) cells })
          ]
        ]
  ]

  -- `row`; out of range the slice panics.
  unfoldable pub row : VectorIndex F → ℕ → Option (List F)
  row v i =
      if leb ((i + 1) * v.dim) (length v.cells)
      then some (take v.dim (drop (i * v.dim) v.cells))
      else none
