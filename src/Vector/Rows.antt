-- ===== src/Vector/Rows.antt =====
-- The index as a map from ids to rows: what `insert` and `remove` do to it.
use native.Mathlib.Nat.{suc-mul}
use sift_core.Vector.{VectorIndex, position}
use sift_core.HashMap.{HashMap, nat_key, contains}
use sift_core.HashMap.Laws.{Distinct}
use sift_core.Prelude.{
  ℕ, suc, ◌+◌, ◌*◌, ◌≡◌, refl, sym, ap, ◌∙◌, inl, inr, true, false, none, some, List, [], ◌∷◌, ◌++◌,
  append_assoc, arith, ◌==◌, ==_iff, Bool-cases, length, All, length-append,
}

abbrev pub Rows {ℓ} : Type ℓ → Type ℓ
Rows F = HashMap ℕ (List F)

module _ {ℓ} {F : Type ℓ} where
  abbrev pub ids_of : Rows F → List ℕ
  ids_of [] = []
  ids_of ((id, r) ∷ rows) = id ∷ ids_of rows

  abbrev pub cells_of : Rows F → List F
  cells_of [] = []
  cells_of ((id, r) ∷ rows) = r ++ cells_of rows

  -- The index holds exactly these rows, in this order.
  pub record Holds (v : VectorIndex F) (rows : Rows F) : Type ℓ where
    pub ids : v.ids ≡ ids_of rows
    pub cells : v.cells ≡ cells_of rows
    pub widths : All (λ (e : ℕ × List F). length e.1 ≡ v.dim) rows
    pub distinct : Distinct rows

  -- Where a key stands in the rows.
  pub record Split (id : ℕ) (rows : Rows F) : Type ℓ where
    pub front : Rows F
    pub old : List F
    pub back : Rows F
    pub rows_split : rows ≡ front ++ ((id, old) ∷ back)
    pub before : contains id front ≡ false
    pub at : (i : ℕ) → position id (ids_of rows) i ≡ some (i + length front)

  pub contains-Split : (id : ℕ) (rows : Rows F) → contains id rows ≡ true → Split id rows
  unfolding contains position
  contains-Split id [] h = absurd (cc)
  contains-Split id ((j, r) ∷ rows) h = elim (Bool-cases (j == id)) [
    | inl here ↦ record {
      front = [];
      old = r;
      back = rows;
      rows_split = ap (λ k. (k, r) ∷ rows) ((==_iff j id).0 here);
      before = refl;
      at = λ i. ground (arith, here);
    }
    | inr later ↦
        let s = contains-Split id rows (ground (arith, later)) in
        record {
          front = (j, r) ∷ s.front;
          old = s.old;
          back = s.back;
          rows_split = ap (λ t. (j, r) ∷ t) s.rows_split;
          before = ground (arith, later, s.before);
          at = λ i. ground (arith, later, s.at (i + 1));
        }
  ]

  pub position-none :
      (id : ℕ) (rows : Rows F) (i : ℕ)
      → contains id rows ≡ false
      → position id (ids_of rows) i ≡ none
  unfolding contains position
  position-none id [] i h = refl
  position-none id ((j, r) ∷ rows) i h = ground (arith, position-none id rows (i + 1))

  pub ids_of-append : (xs ys : Rows F) → ids_of (xs ++ ys) ≡ ids_of xs ++ ids_of ys
  ids_of-append [] ys = refl
  ids_of-append ((j, r) ∷ xs) ys = ap (λ t. j ∷ t) (ids_of-append xs ys)

  pub cells_of-append : (xs ys : Rows F) → cells_of (xs ++ ys) ≡ cells_of xs ++ cells_of ys
  cells_of-append [] ys = refl
  cells_of-append ((j, r) ∷ xs) ys =
      ap (λ t. r ++ t) (cells_of-append xs ys) ∙ sym (append_assoc r (cells_of xs) (cells_of ys))

  abbrev pub Width : ℕ → Rows F → Type 0
  Width dim rows = All (λ (e : ℕ × List F). length e.1 ≡ dim) rows

  pub length-ids_of : (rows : Rows F) → length (ids_of rows) ≡ length rows
  length-ids_of [] = refl
  length-ids_of ((j, r) ∷ rows) = ap suc (length-ids_of rows)

  pub length-cells_of :
      (dim : ℕ) (rows : Rows F) → Width dim rows → length (cells_of rows) ≡ length rows * dim
  length-cells_of dim [] w = omega arith
  length-cells_of dim ((j, r) ∷ rows) w = omega (
    arith,
    length-append r (cells_of rows),
    length-cells_of dim rows w.1,
    suc-mul (length rows) dim,
  )

  pub Width-front : (dim : ℕ) (front back : Rows F) → Width dim (front ++ back) → Width dim front
  Width-front dim [] back w = tt
  Width-front dim (e ∷ front) back w = (w.0, Width-front dim front back w.1)

  pub Width-back : (dim : ℕ) (front back : Rows F) → Width dim (front ++ back) → Width dim back
  Width-back dim [] back w = w
  Width-back dim (e ∷ front) back w = Width-back dim front back w.1

  pub Width-head :
      (dim : ℕ) (front : Rows F) (e : ℕ × List F) (back : Rows F)
      → Width dim (front ++ (e ∷ back))
      → length e.1 ≡ dim
  Width-head dim front e back w = (Width-back dim front (e ∷ back) w).0
