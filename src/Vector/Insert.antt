-- ===== src/Vector/Insert.antt =====
-- `insert` writes the row of an id into the map of rows, and nothing else.
use sift_core.Vector
use sift_core.Vector.{VectorIndex, copy_at}
use sift_core.Vector.Rows.{
  Rows, Holds, contains-Split, position-none, ids_of, cells_of, ids_of-append, cells_of-append,
  Width, length-cells_of, Width-front, Width-head,
}
use sift_core.HashMap
use sift_core.HashMap.{nat_key, contains, HashMap}
use sift_core.HashMap.Laws.{insert-split, insert_absent, insert-Distinct, Distinct}
use sift_core.Fallible.{done}
use sift_core.Prelude.{
  ℕ, ◌+◌, ◌≡◌, refl, subst, sym, ap, ◌∙◌, inl, inr, true, some, List, [], ◌∷◌, ◌++◌, append_assoc,
  arith, le→leb, Bool-cases, length, drop, All, length-append, take-append, drop-append, All-append,
  append-nil, ◌*◌,
}

module _ {ℓ} {F : Type ℓ} where
  drop-append_back :
      (xs ys zs : List F) (n : ℕ) → length xs + length ys ≡ n → drop n (xs ++ (ys ++ zs)) ≡ zs
  drop-append_back xs ys zs n h =
      ap (drop n) (sym (append_assoc xs ys zs))
      ∙ drop-append (xs ++ ys) zs n (omega (arith, length-append xs ys))

  -- A copy over a block of its own length.
  copy_at-block :
      (front old back v : List F) (n : ℕ)
      → length front ≡ n
      → length old ≡ length v
      → copy_at n v (front ++ (old ++ back)) ≡ some (front ++ (v ++ back))
  unfolding copy_at
  copy_at-block front old back v n at same =
      rw
        (le→leb (n + length v) (length (front ++ (old ++ back)))
          (omega (arith, length-append front (old ++ back), length-append old back)))
        (rw
          (
            take-append front (old ++ back) n at,
            drop-append_back front old back (n + length v) (omega arith),
          )
          refl)

  All-replace {κ} :
      (P : ℕ × List F → Type κ) (front back : Rows F) (e e' : ℕ × List F)
      → P e'
      → All P (front ++ (e ∷ back))
      → All P (front ++ (e' ∷ back))
  All-replace P [] back e e' p a = (p, a.1)
  All-replace P (x ∷ front) back e e' p a = (a.0, All-replace P front back e e' p a.1)

  -- The index after an overwritten row.
  overwritten :
      (v : VectorIndex F) (rows : Rows F) (id : ℕ) (r : List F)
      → Holds v rows
      → length r ≡ v.dim
      → contains id rows ≡ true
      → (v' : VectorIndex F) × (Vector.insert v id r ≡ done v')
        × Holds v' (HashMap.insert id r rows)
        × (v'.dim ≡ v.dim)
  unfolding Vector.insert
  overwritten v rows id r holds width there =
      let s = contains-Split id rows there in
      let cells' = cells_of s.front ++ (r ++ cells_of s.back) in
      let v' = record v { cells = cells' } in
      let widths = subst (Width v.dim) s.rows_split holds.widths in
      let old_cells : v.cells ≡ cells_of s.front ++ (s.old ++ cells_of s.back) =
        holds.cells ∙ ap cells_of s.rows_split ∙ cells_of-append s.front ((id, s.old) ∷ s.back) in
      let now : HashMap.insert id r rows ≡ s.front ++ ((id, r) ∷ s.back) =
        ap (HashMap.insert id r) s.rows_split ∙ insert-split id r s.old s.front s.back s.before in
      let copied : copy_at ((0 + length s.front) * v.dim) r v.cells ≡ some cells' =
        ap (copy_at ((0 + length s.front) * v.dim) r) old_cells
        ∙ copy_at-block (cells_of s.front) s.old (cells_of s.back) r ((0 + length s.front) * v.dim)
            (length-cells_of v.dim s.front (Width-front v.dim s.front _ widths)
              ∙ ap (λ t. t * v.dim) (omega arith))
            (Width-head v.dim s.front (id, s.old) s.back widths ∙ sym width) in
      (
        v',
        ground (arith, width, holds.ids, s.at 0, copied),
        subst (Holds v') (sym now) (record {
          ids =
              holds.ids
              ∙ ap ids_of s.rows_split
              ∙ ids_of-append s.front ((id, s.old) ∷ s.back)
              ∙ sym (ids_of-append s.front ((id, r) ∷ s.back));
          cells = sym (cells_of-append s.front ((id, r) ∷ s.back));
          widths = All-replace _ s.front s.back (id, s.old) (id, r) width widths;
          distinct = subst Distinct now (insert-Distinct id r rows holds.distinct);
        }),
        refl,
      )

  -- A row of the right length is stored: the index then holds the rows with it, in place where the
  -- id was there and at the end otherwise.
  pub insert-Holds :
      (v : VectorIndex F) (rows : Rows F) (id : ℕ) (r : List F)
      → Holds v rows
      → length r ≡ v.dim
      → (v' : VectorIndex F) × (Vector.insert v id r ≡ done v')
        × Holds v' (HashMap.insert id r rows)
        × (v'.dim ≡ v.dim)
  unfolding Vector.insert
  insert-Holds v rows id r holds width = elim (Bool-cases (contains id rows)) [
    | inl there ↦ overwritten v rows id r holds width there
    | inr missing ↦
        let v' = record v { ids = v.ids ++ (id ∷ []); cells = v.cells ++ r } in
        (
          v',
          ground (arith, holds.ids, position-none id rows 0 missing),
          subst (Holds v') (sym (insert_absent id r rows missing)) (record {
            ids = ap (λ t. t ++ (id ∷ [])) holds.ids ∙ sym (ids_of-append rows ((id, r) ∷ []));
            cells =
                ap (λ t. t ++ r) holds.cells
                ∙ ap (λ t. cells_of rows ++ t) (sym (append-nil r))
                ∙ sym (cells_of-append rows ((id, r) ∷ []));
            widths = All-append _ rows ((id, r) ∷ []) holds.widths (width, tt);
            distinct =
                subst Distinct (insert_absent id r rows missing)
                  (insert-Distinct id r rows holds.distinct);
          }),
          refl,
        )
  ]
