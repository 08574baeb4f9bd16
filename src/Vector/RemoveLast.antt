-- ===== src/Vector/RemoveLast.antt =====
-- What `remove` does, and its run where the row stands last.
use sift_core.Vector
use sift_core.Vector.{VectorIndex, swap, swap_rows, position, len}
use sift_core.Vector.Swap.{swap_self, swap_rows_self}
use sift_core.Vector.Rows.{
  Rows, Holds, position-none, ids_of, cells_of, ids_of-append, cells_of-append, Width,
  length-ids_of, length-cells_of, Width-front, Width-head,
}
use sift_core.HashMap
use sift_core.HashMap.{nat_key, contains, HashMap}
use sift_core.HashMap.Moves.{get-without_last, Distinct-front}
use sift_core.Fallible.{done}
use sift_core.Prelude.{
  ℕ, ◌-◌, ◌*◌, ◌≡◌, refl, ap, ◌∙◌, true, none, some, List, [], ◌∷◌, ◌++◌, arith, ◌==◌,
  if◌then◌else◌, length, take, ◌+◌, ◌≤◌, subst, sym, false, append_assoc, length-append,
  take-append,
}
use sift_core.HashMap.Laws.{Distinct}
use sift_core.Text.{split}

module _ {ℓ} {F : Type ℓ} where
  -- The rows without those of `id`.
  abbrev pub Without : ℕ → Rows F → Rows F → Type ℓ
  Without id rows rows' =
      (j : ℕ) → HashMap.get j rows' ≡ (if id == j then none else HashMap.get j rows)

  abbrev pub Removed : VectorIndex F → ℕ → Rows F → Type ℓ
  Removed v id rows =
      (v' : VectorIndex F) × (rows' : Rows F) × (Vector.remove v id ≡ done (contains id rows, v'))
      × Holds v' rows'
      × (v'.dim ≡ v.dim)
      × Without id rows rows'

  -- The index with its last id and row cut off.
  abbrev pub cut : VectorIndex F → List ℕ → List F → VectorIndex F
  cut v ids cells = record v {
    ids = take (length v.ids - 1) ids;
    cells = take ((length v.ids - 1) * v.dim) cells;
  }

  -- The run of `remove` at position `pos`.
  pub run_remove :
      (v : VectorIndex F) (rows : Rows F) (id pos : ℕ) (ids : List ℕ) (cells : List F)
      → contains id rows ≡ true
      → position id v.ids 0 ≡ some pos
      → swap v.ids pos (length v.ids - 1) ≡ some ids
      → swap_rows v.dim 0 (pos * v.dim) ((length v.ids - 1) * v.dim) v.cells ≡ some cells
      → Vector.remove v id ≡ done (contains id rows, cut v ids cells)
  unfolding Vector.remove
  run_remove v rows id pos ids cells there at e e' = ground (arith, there, at, e, e')

  pub regroup : (xs ys zs ws : List F) → xs ++ (ys ++ (zs ++ ws)) ≡ (xs ++ (ys ++ zs)) ++ ws
  regroup xs ys zs ws = simp append_assoc

  pub run_missing :
      (v : VectorIndex F) (rows : Rows F) (id : ℕ)
      → Holds v rows
      → contains id rows ≡ false
      → Vector.remove v id ≡ done (contains id rows, v)
  unfolding Vector.remove
  run_missing v rows id holds missing =
      ground (arith, missing, holds.ids, position-none id rows 0 missing)

  -- The row stands last.
  pub remove_last :
      (v : VectorIndex F) (rows front : Rows F) (id : ℕ) (old : List F)
      → Holds v rows
      → rows ≡ front ++ ((id, old) ∷ [])
      → position id v.ids 0 ≡ some (length front)
      → contains id rows ≡ true
      → Removed v id rows
  remove_last v rows front id old holds split at there =
      let len : length v.ids ≡ length front + 1 = omega (
        arith,
        ap length holds.ids,
        length-ids_of rows,
        ap length split,
        length-append front ((id, old) ∷ []),
      ) in
      let last : length v.ids - 1 ≡ length front = omega (arith, len) in
      let widths = subst (Width v.dim) split holds.widths in
      let front_cells = length-cells_of v.dim front (Width-front v.dim front _ widths) in
      let ids : v.ids ≡ ids_of front ++ (id ∷ []) =
        holds.ids ∙ ap ids_of split ∙ ids_of-append front ((id, old) ∷ []) in
      let cells : v.cells ≡ cells_of front ++ (old ++ []) =
        holds.cells ∙ ap cells_of split ∙ cells_of-append front ((id, old) ∷ []) in
      let room : length front * v.dim + 0 + v.dim ≤ length v.cells = omega (
        arith,
        ap length cells,
        length-append (cells_of front) (old ++ []),
        length-append old [],
        front_cells,
        Width-head v.dim front (id, old) [] widths,
      ) in
      (
        cut v v.ids v.cells,
        front,
        run_remove v rows id (length front) v.ids v.cells there at
            (ap (λ t. swap v.ids (length front) t) last
              ∙ swap_self v.ids (length front) (omega (arith, len)))
            (ap (λ t. swap_rows v.dim 0 (length front * v.dim) (t * v.dim) v.cells) last
              ∙ swap_rows_self v.dim 0 (length front * v.dim) v.cells room),
        record {
          ids =
              ap (take (length v.ids - 1)) ids
              ∙ take-append (ids_of front) (id ∷ []) (length v.ids - 1)
                  (omega (arith, length-ids_of front, last));
          cells =
              ap (take ((length v.ids - 1) * v.dim)) cells
              ∙ take-append (cells_of front) (old ++ []) ((length v.ids - 1) * v.dim)
                  (front_cells ∙ ap (λ t. t * v.dim) (sym last));
          widths = Width-front v.dim front _ widths;
          distinct = Distinct-front front _ (subst Distinct split holds.distinct);
        },
        refl,
        λ j.
            get-without_last front id j old (subst Distinct split holds.distinct)
            ∙ ap (λ t. if id == j then none else HashMap.get j t) (sym split),
      )
