-- ===== src/Vector/Remove.antt =====
-- `remove` takes the row of an id out of the map of rows, and nothing else.
use native.Mathlib.Nat.{suc-mul, add-mul}
use sift_core.Vector.{VectorIndex, swap, swap_rows, position}
use sift_core.Vector.Swap.{swap-split, swap_rows-split}
use sift_core.Vector.Rows.{
  Rows, Holds, contains-Split, ids_of, cells_of, ids_of-append, cells_of-append, Width,
  length-ids_of, length-cells_of, Width-front, Width-back, Width-head,
}
use sift_core.HashMap
use sift_core.HashMap.{nat_key, contains, HashMap}
use sift_core.HashMap.Moves.{replace_by_last}
use sift_core.Prelude.{
  ℕ, ◌-◌, ◌*◌, ◌≡◌, refl, ap, ◌∙◌, ◌⊎◌, inl, inr, true, none, some, List, [], ◌∷◌, ◌++◌, arith,
  ◌==◌, if◌then◌else◌, Bool-cases, length, take, suc, ◌+◌, subst, sym, append_assoc, length-append,
  take-append, All-append,
}
use sift_core.HashMap.Laws.{Distinct, get-none}
use sift_core.Text.{split}
use sift_core.Vector.RemoveLast.{Removed, cut, run_remove, regroup, run_missing, remove_last}

module _ {ℓ} {F : Type ℓ} where
  -- The last row takes its place.
  remove_inner :
      (v : VectorIndex F) (rows front mid : Rows F) (id l : ℕ) (old r : List F)
      → Holds v rows
      → rows ≡ front ++ ((id, old) ∷ (mid ++ ((l, r) ∷ [])))
      → position id v.ids 0 ≡ some (length front)
      → contains id rows ≡ true
      → Removed v id rows
  remove_inner v rows front mid id l old r holds split at there =
      let tail = (id, old) ∷ (mid ++ ((l, r) ∷ [])) in
      let len : length v.ids ≡ length front + (length mid + 2) = omega (
        arith,
        ap length holds.ids,
        length-ids_of rows,
        ap length split,
        length-append front tail,
        length-append mid ((l, r) ∷ []),
      ) in
      let last : length v.ids - 1 ≡ length front + 1 + length mid = omega (arith, len) in
      let widths = subst (Width v.dim) split holds.widths in
      let front_width = Width-front v.dim front tail widths in
      let (old_width, rest_width) = Width-back v.dim front tail widths in
      let mid_width = Width-front v.dim mid ((l, r) ∷ []) rest_width in
      let r_width = Width-head v.dim mid (l, r) [] rest_width in
      let front_cells = length-cells_of v.dim front front_width in
      let mid_cells = length-cells_of v.dim mid mid_width in
      let ids : v.ids ≡ ids_of front ++ (id ∷ (ids_of mid ++ (l ∷ []))) =
        holds.ids
        ∙ ap ids_of split
        ∙ ids_of-append front tail
        ∙ ap (λ t. ids_of front ++ (id ∷ t)) (ids_of-append mid ((l, r) ∷ [])) in
      let cells : v.cells ≡ cells_of front ++ (old ++ (cells_of mid ++ (r ++ []))) =
        holds.cells
        ∙ ap cells_of split
        ∙ cells_of-append front tail
        ∙ ap (λ t. cells_of front ++ (old ++ t)) (cells_of-append mid ((l, r) ∷ [])) in
      let above : length front * v.dim + v.dim + length mid * v.dim ≡ (length v.ids - 1) * v.dim =
        sym (
          ap (λ t. t * v.dim) (last ∙ omega arith)
          ∙ add-mul (length front) (suc (length mid)) v.dim
          ∙ omega (arith, suc-mul (length mid) v.dim)) in
      (
        cut v (ids_of front ++ (l ∷ (ids_of mid ++ (id ∷ []))))
            (cells_of front ++ (r ++ (cells_of mid ++ (old ++ [])))),
        front ++ ((l, r) ∷ mid),
        run_remove v rows id (length front) _ _ there at
            (ap (λ t. swap t (length front) (length v.ids - 1)) ids
              ∙ swap-split (ids_of front) (ids_of mid) [] id l (length front) (length v.ids - 1)
                  (length-ids_of front)
                  (omega (arith, last, length-ids_of front, length-ids_of mid)))
            (ap (swap_rows v.dim 0 (length front * v.dim) ((length v.ids - 1) * v.dim)) cells
              ∙ swap_rows-split v.dim 0 (length front * v.dim) ((length v.ids - 1) * v.dim)
                  (cells_of front) old (cells_of mid) r [] old_width r_width
                  (omega (arith, front_cells)) (omega (arith, front_cells, mid_cells, above))),
        record {
          ids =
              ap (take (length v.ids - 1))
                (sym (append_assoc (ids_of front) (l ∷ ids_of mid) (id ∷ [])))
              ∙ take-append (ids_of front ++ (l ∷ ids_of mid)) (id ∷ []) (length v.ids - 1) (
                  omega (
                    arith,
                    length-append (ids_of front) (l ∷ ids_of mid),
                    length-ids_of front,
                    length-ids_of mid,
                    last,
                  ))
              ∙ sym (ids_of-append front ((l, r) ∷ mid));
          cells =
              ap (take ((length v.ids - 1) * v.dim))
                (regroup (cells_of front) r (cells_of mid) (old ++ []))
              ∙ take-append (cells_of front ++ (r ++ cells_of mid)) (old ++ [])
                  ((length v.ids - 1) * v.dim)
                  (omega (
                    arith,
                    length-append (cells_of front) (r ++ cells_of mid),
                    length-append r (cells_of mid),
                    front_cells,
                    mid_cells,
                    r_width,
                    above,
                  ))
              ∙ sym (cells_of-append front ((l, r) ∷ mid));
          widths = All-append _ front ((l, r) ∷ mid) front_width (r_width, mid_width);
          distinct = (replace_by_last id l old r front mid (subst Distinct split holds.distinct)).0;
        },
        refl,
        λ j.
            (replace_by_last id l old r front mid (subst Distinct split holds.distinct)).1 j
            ∙ ap (λ t. if id == j then none else HashMap.get j t) (sym split),
      )

  unsnoc :
      (rows : Rows F) → (rows ≡ []) ⊎ ((mid : Rows F) × (e : ℕ × List F) × (rows ≡ mid ++ (e ∷ [])))
  unsnoc [] = inl refl
  unsnoc (x ∷ xs) = elim (unsnoc xs) [
    | inl e ↦ inr ([], x, ap (λ t. x ∷ t) e)
    | inr (mid, l, e) ↦ inr (x ∷ mid, l, ap (λ t. x ∷ t) e)
  ]

  -- Where the index holds exactly the rows, `remove` answers whether the id was there and leaves the
  -- index with the other rows; it does not panic.
  pub remove-Holds : (v : VectorIndex F) (rows : Rows F) (id : ℕ) → Holds v rows → Removed v id rows
  remove-Holds v rows id holds = elim (Bool-cases (contains id rows)) [
    | inr missing ↦ (
      v,
      rows,
      run_missing v rows id holds missing,
      holds,
      refl,
      λ j. ground (arith, get-none id rows missing),
    )
    | inl there ↦
        let s = contains-Split id rows there in
        let at = ap (λ t. position id t 0) holds.ids ∙ s.at 0 ∙ ap some (omega arith) in
        elim (unsnoc s.back) [
          | inl e ↦
              remove_last v rows s.front id s.old holds
                (s.rows_split ∙ ap (λ t. s.front ++ ((id, s.old) ∷ t)) e) at there
          | inr (mid, (l, r), e) ↦
              remove_inner v rows s.front mid id l s.old r holds
                (s.rows_split ∙ ap (λ t. s.front ++ ((id, s.old) ∷ t)) e) at there
        ]
  ]
