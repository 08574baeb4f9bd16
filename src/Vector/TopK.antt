-- ===== src/Vector/TopK.antt =====
-- The search returns the best rows of the index.
use mathlib.Core.List.{Perm}
use mathlib.Core.List.Perm as Perm
use native.Mathlib.Nat.{suc-mul}
use sift_core.Floats.{Floats, Documented}
use sift_core.Vector.{VectorIndex, Metric, row, is_empty}
use sift_core.Vector.Rows.{
  Rows, Holds, cells_of, ids_of, cells_of-append, length-cells_of, Width, Width-front, Width-head,
}
use sift_core.Vector.Search.{score, candidates, query_norm, search, heap_overflows}
use sift_core.Ranking.{Scored, sort_scores, offer_all}
use sift_core.Ranking.Order.{Numbers, Perm-sort_scores, All-sort_scores, sort_scores-Descends}
use sift_core.Ranking.Top.{IsTop, new-IsTop, offer_all-IsTop}
use sift_core.Ranking.Cut.{IsBest}
use sift_core.Fallible.{done}
use sift_core.Prelude.{
  ℕ, ◌+◌, ◌-◌, ◌*◌, ◌^◌, ◌≤◌, ◌<◌, min, ◌≡◌, refl, ap, ◌∙◌, some, List, [], ◌∷◌, ◌++◌, arith,
  le→leb, length, take, drop, length-append, take-append, drop-append, suc, subst, sym,
  append_assoc, zero, inl, inr, append-nil, ltb, Bool-cases, length-Perm,
}
use sift_core.Engine.{query}

module _ (f : Floats) where
  open f use {F32}

  -- The score of every row.
  abbrev pub scores_of : Metric → List F32 → Rows F32 → List (Scored F32)
  scores_of metric query [] = []
  scores_of metric query ((id, r) ∷ rows) =
      (id, score f metric query (query_norm f metric query) r) ∷ scores_of metric query rows

  add_one : (n : ℕ) → n + 1 ≡ suc n
  add_one n = omega arith

  row-split :
      (v : VectorIndex F32) (front back : Rows F32) (id : ℕ) (r : List F32)
      → v.cells ≡ cells_of (front ++ ((id, r) ∷ back))
      → Width v.dim (front ++ ((id, r) ∷ back))
      → row v (length front) ≡ some r
  unfolding row
  row-split v front back id r cells widths =
      let at = length-cells_of v.dim front (Width-front v.dim front _ widths) in
      let width = Width-head v.dim front (id, r) back widths in
      let whole = cells ∙ cells_of-append front ((id, r) ∷ back) in
      let room : (length front + 1) * v.dim ≤ length v.cells = omega (
        arith,
        ap length whole,
        length-append (cells_of front) (r ++ cells_of back),
        length-append r (cells_of back),
        at,
        width,
        suc-mul (length front) v.dim,
        ap (λ t. t * v.dim) (add_one (length front)),
      ) in
      let block : take v.dim (drop (length front * v.dim) v.cells) ≡ r =
        ap (λ t. take v.dim (drop (length front * v.dim) t)) whole
        ∙ ap (take v.dim) (drop-append (cells_of front) (r ++ cells_of back) _ at)
        ∙ take-append r (cells_of back) v.dim width in
      ground (arith, le→leb _ _ room, block)

  candidates-scores_of :
      (v : VectorIndex F32) (metric : Metric) (query : List F32) (front back : Rows F32)
      → v.cells ≡ cells_of (front ++ back)
      → Width v.dim (front ++ back)
      → candidates f v metric query (query_norm f metric query) (ids_of back) (length front)
        ≡ some (scores_of metric query back)
  unfolding candidates
  candidates-scores_of v metric query front [] cells widths = refl
  candidates-scores_of v metric query front ((id, r) ∷ back) cells widths =
      let again = append_assoc front ((id, r) ∷ []) back in
      let later : candidates f v metric query (query_norm f metric query) (ids_of back)
            (length front + 1)
          ≡ some (scores_of metric query back) =
        subst
          (λ n.
            candidates f v metric query (query_norm f metric query) (ids_of back) n
            ≡ some (scores_of metric query back))
          (length-append front ((id, r) ∷ []))
          (candidates-scores_of v metric query (front ++ ((id, r) ∷ [])) back
            (cells ∙ ap cells_of (sym again)) (subst (Width v.dim) (sym again) widths)) in
      ground (arith, row-split v front back id r cells widths, later)

  search-scores_of :
      (v : VectorIndex F32) (e : ℕ × List F32) (rows : Rows F32) (query : List F32) (k : ℕ)
      (metric : Metric)
      → Holds v (e ∷ rows)
      → length query ≡ v.dim
      → 0 < k
      → k < 2 ^ 59 - 1
      → search f v query k metric
        ≡ done (sort_scores f (offer_all f k [] (scores_of metric query (e ∷ rows))))
  unfolding search heap_overflows is_empty
  search-scores_of v e rows query k metric holds same pos small =
      let all = candidates-scores_of v metric query [] (e ∷ rows) holds.cells holds.widths in
      let here : candidates f v metric query (query_norm f metric query) v.ids 0
          ≡ some (scores_of metric query (e ∷ rows)) =
        subst
          (λ t.
            candidates f v metric query (query_norm f metric query) t 0
            ≡ some (scores_of metric query (e ∷ rows)))
          (sym holds.ids) all in
      ground (arith, same, here, holds.ids)

  search_zero :
      (v : VectorIndex F32) (query : List F32) (metric : Metric)
      → length query ≡ v.dim
      → search f v query 0 metric ≡ done []
  unfolding search
  search_zero v query metric same = ground (arith, same)

  search_empty :
      (v : VectorIndex F32) (query : List F32) (k : ℕ) (metric : Metric)
      → v.ids ≡ []
      → length query ≡ v.dim
      → search f v query k metric ≡ done []
  unfolding search is_empty
  search_empty v query k metric none_held same = ground (arith, none_held, same)

  module _ (doc : Documented f) where
    top-length :
        (k : ℕ) (cs heap rest sorted seen : List (Scored F32))
        → length (sorted ++ rest) ≡ length cs
        → length sorted ≡ length heap
        → IsTop f doc k seen heap rest
        → length sorted ≡ min k (length cs)
    top-length k cs heap rest sorted seen whole same top =
        let sum = length-append sorted rest in
        elim (Bool-cases (ltb (length heap) k)) [
          | inl room ↦
              let empty = top.full (ground (arith, room)) in
              ground (arith, sum, whole, same, top.size, ap length empty)
          | inr full ↦ ground (arith, sum, whole, same, top.size, full)
        ]

    top-IsBest :
        (k : ℕ) (cs : List (Scored F32))
        → 0 < k
        → Numbers f doc cs
        → (rest : List (Scored F32)) × IsBest f doc k (sort_scores f (offer_all f k [] cs)) rest cs
    top-IsBest k cs pos numbers =
        let (rest, seen, perm, top) =
          offer_all-IsTop f doc k cs [] [] [] pos numbers (new-IsTop f doc k) in
        let sorted = Perm-sort_scores f doc (offer_all f k [] cs) in
        let whole = Perm.trans (Perm.append_right rest sorted) (Perm.trans top.perm perm) in
        (
          rest,
          record {
            perm = subst (Perm _) (append-nil cs) whole;
            beats = All-sort_scores f doc _ _ top.beats;
            descends = sort_scores-Descends f doc _ top.numbers;
            size =
                top-length k cs _ rest _ seen (length-Perm whole ∙ ap length (append-nil cs))
                  (length-Perm sorted) top;
          },
        )

    -- Where the index holds exactly the rows, the query has its length, no score is NaN and `k` is
    -- below the capacity of a heap, search answers the scores of the best rows, the best first: no
    -- row that it leaves out is better than one that it returns, and it returns `k` of them or all.
    pub search-top :
        (v : VectorIndex F32) (rows : Rows F32) (query : List F32) (k : ℕ) (metric : Metric)
        → Holds v rows
        → length query ≡ v.dim
        → k < 2 ^ 59 - 1
        → Numbers f doc (scores_of metric query rows)
        → (out : List (Scored F32)) × (search f v query k metric ≡ done out)
          × (rest : List (Scored F32)) × IsBest f doc k out rest (scores_of metric query rows)
    search-top v [] query k metric holds same small numbers = (
      [],
      search_empty v query k metric holds.ids same,
      [],
      record { perm = Perm.nil; beats = tt; descends = tt; size = ground arith },
    )
    search-top v (e ∷ rows) query zero metric holds same small numbers = (
      [],
      search_zero v query metric same,
      scores_of metric query (e ∷ rows),
      record { perm = Perm.refl _; beats = tt; descends = tt; size = ground arith },
    )
    search-top v (e ∷ rows) query (suc k) metric holds same small numbers =
        let (rest, best) =
          top-IsBest (suc k) (scores_of metric query (e ∷ rows)) (omega arith) numbers in
        (
          _,
          search-scores_of v e rows query (suc k) metric holds same (omega arith) small,
          rest,
          best,
        )
