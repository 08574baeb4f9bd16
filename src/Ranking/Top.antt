-- ===== src/Ranking/Top.antt =====
-- The bounded heap keeps the best.
use mathlib.Core.List.{Perm, perm_middle}
use mathlib.Core.List.Perm as Perm
use sift_core.Floats.{Floats, Documented}
use sift_core.Ranking.{Scored, lt_score, gt_score, pop_worst, offer, offer_all}
use sift_core.Ranking.Order.{IsNumber, Numbers, place, lt_score-place, gt_score-place}
use sift_core.Prelude.{
  ◌+◌, ◌≤◌, ◌≡◌, refl, inl, inr, some, List, [], ◌∷◌, arith, Bool-cases, length, All, ℕ, ◌<◌, ◌++◌,
  ltb, All-imp, subst, sym, none, if◌then◌else◌,
}

module _ (f : Floats) (doc : Documented f) where
  open f use {F32}

  -- `worst` has a least score among the items, and `rest` are the others.
  record IsWorst (worst : Scored F32) (rest items : List (Scored F32)) : Type 1 where
    perm : Perm (worst ∷ rest) items
    least : All (λ (e : Scored F32). place f doc worst.1 ≤ place f doc e.1) items
    number : IsNumber f doc worst.1
    numbers : Numbers f doc rest
    keeps : (P : Scored F32 → Type 0) → All P items → P worst × All P rest
    count : length items ≡ length rest + 1

  pop_worst-IsWorst :
      (x : Scored F32) (xs : List (Scored F32))
      → Numbers f doc (x ∷ xs)
      → (worst : Scored F32) × (rest : List (Scored F32)) × (pop_worst f (x ∷ xs)
          ≡ some (worst, rest))
        × IsWorst worst rest (x ∷ xs)
  unfolding pop_worst
  pop_worst-IsWorst x [] h = (
    x,
    [],
    refl,
    record {
      perm = Perm.refl (x ∷ []);
      least = (omega arith, tt);
      number = h.0;
      numbers = tt;
      keeps = λ P a. a;
      count = refl;
    },
  )
  pop_worst-IsWorst x (y ∷ ys) h =
      let (w, rest, e, is) = pop_worst-IsWorst y ys h.1 in
      elim (Bool-cases (lt_score f w.1 x.1)) [
        | inl lower ↦ (
          w,
          x ∷ rest,
          ground (arith, e, lower),
          record {
            perm = Perm.trans (Perm.swap x w rest) (Perm.cons x is.perm);
            least = (ground (arith, lt_score-place f doc w.1 x.1 is.number h.0, lower), is.least);
            number = is.number;
            numbers = (h.0, is.numbers);
            keeps = λ P a. ((is.keeps P a.1).0, (a.0, (is.keeps P a.1).1));
            count = omega (arith, is.count);
          },
        )
        | inr higher ↦
            let le : place f doc x.1 ≤ place f doc w.1 =
              ground (arith, lt_score-place f doc w.1 x.1 is.number h.0, higher) in
            (
              x,
              y ∷ ys,
              ground (arith, e, higher),
              record {
                perm = Perm.refl (x ∷ y ∷ ys);
                least = (omega arith, All-imp (λ e low. omega arith) (y ∷ ys) is.least);
                number = h.0;
                numbers = h.1;
                keeps = λ P a. a;
                count = omega arith;
              },
            )
      ]

  -- No item of `out` is better than an item of `kept`.
  abbrev pub Beats : List (Scored F32) → List (Scored F32) → Type 0
  Beats kept out =
      All (λ (k : Scored F32). All (λ (o : Scored F32). place f doc o.1 ≤ place f doc k.1) out) kept

  Beats-nil : (kept : List (Scored F32)) → Beats kept []
  Beats-nil [] = tt
  Beats-nil (k ∷ kept) = (tt, Beats-nil kept)

  Beats-cons :
      (o : Scored F32) (kept out : List (Scored F32))
      → All (λ (k : Scored F32). place f doc o.1 ≤ place f doc k.1) kept
      → Beats kept out
      → Beats kept (o ∷ out)
  Beats-cons o [] out low b = tt
  Beats-cons o (k ∷ kept) out low b = ((low.0, b.0), Beats-cons o kept out low.1 b.1)

  -- The heap after the candidates `seen`: `out` are those that it let go.
  pub record IsTop (k : ℕ) (seen heap out : List (Scored F32)) : Type 0 where
    pub perm : Perm (heap ++ out) seen
    pub beats : Beats heap out
    pub numbers : Numbers f doc heap
    pub size : length heap ≤ k
    pub full : length heap < k → out ≡ []

  pub new-IsTop : (k : ℕ) → IsTop k [] [] []
  new-IsTop k = record {
    perm = Perm.nil;
    beats = tt;
    numbers = tt;
    size = omega arith;
    full = λ h. refl;
  }

  -- A candidate for a full heap.
  abbrev replace : List (Scored F32) → Scored F32 → List (Scored F32)
  replace heap c = elim (pop_worst f heap) [
    | none ↦ heap
    | some (worst, rest) ↦ if gt_score f c.1 worst.1 then c ∷ rest else heap
  ]

  busy :
      (k : ℕ) (c : Scored F32) (seen heap out : List (Scored F32))
      → 0 < k
      → k ≤ length heap
      → IsNumber f doc c.1
      → IsTop k seen heap out
      → (out' : List (Scored F32)) × IsTop k (c ∷ seen) (replace heap c) out'
  busy k c seen [] out pos full hc top = absurd (omega arith)
  busy k c seen (x ∷ xs) out pos full hc top =
      let (w, rest, e, is) = pop_worst-IsWorst x xs top.numbers in
      let (out_w, out_rest) =
        is.keeps (λ h. All (λ (o : Scored F32). place f doc o.1 ≤ place f doc h.1) out) top.beats in
      elim (Bool-cases (gt_score f c.1 w.1)) [
        | inl better ↦
            let le : place f doc w.1 ≤ place f doc c.1 =
              ground (arith, gt_score-place f doc c.1 w.1 hc is.number, better) in
            let same : replace (x ∷ xs) c ≡ c ∷ rest = ground (arith, e, better) in
            subst (λ t. (o : List (Scored F32)) × IsTop k (c ∷ seen) t o) (sym same)
              (
                w ∷ out,
                record {
                  perm = Perm.cons c (
                      Perm.trans (perm_middle rest out)
                        (Perm.trans (Perm.append_right out is.perm) top.perm));
                  beats = (
                    (le, All-imp (λ o low. omega arith) out out_w),
                    Beats-cons w rest out
                        (is.keeps (λ h. place f doc w.1 ≤ place f doc h.1) is.least).1 out_rest,
                  );
                  numbers = (hc, is.numbers);
                  size = omega (arith, is.count, top.size);
                  full = λ h. absurd (omega (arith, is.count));
                },
              )
        | inr worse ↦
            let le : place f doc c.1 ≤ place f doc w.1 =
              ground (arith, gt_score-place f doc c.1 w.1 hc is.number, worse) in
            let same : replace (x ∷ xs) c ≡ x ∷ xs = ground (arith, e, worse) in
            subst (λ t. (o : List (Scored F32)) × IsTop k (c ∷ seen) t o) (sym same)
              (
                c ∷ out,
                record {
                  perm = Perm.trans (perm_middle (x ∷ xs) out) (Perm.cons c top.perm);
                  beats =
                      Beats-cons c (x ∷ xs) out (All-imp (λ h low. omega arith) (x ∷ xs) is.least)
                        top.beats;
                  numbers = top.numbers;
                  size = top.size;
                  full = λ h. absurd (omega arith);
                },
              )
      ]

  offer-IsTop :
      (k : ℕ) (c : Scored F32) (seen heap out : List (Scored F32))
      → 0 < k
      → IsNumber f doc c.1
      → IsTop k seen heap out
      → (out' : List (Scored F32)) × IsTop k (c ∷ seen) (offer f k heap c) out'
  unfolding offer
  offer-IsTop k c seen heap out pos hc top = elim (Bool-cases (ltb (length heap) k)) [
    | inl room ↦ rw room (
      out,
      record {
        perm = Perm.cons c top.perm;
        beats = (
          subst (λ o. All (λ (e : Scored F32). place f doc e.1 ≤ place f doc c.1) o)
              (sym (top.full (ground (arith, room)))) tt,
          top.beats,
        );
        numbers = (hc, top.numbers);
        size = ground (arith, room);
        full = λ h. top.full (omega arith);
      },
    )
    | inr no_room ↦ rw no_room (busy k c seen heap out pos (ground (arith, no_room)) hc top)
  ]

  pub offer_all-IsTop :
      (k : ℕ) (cs seen heap out : List (Scored F32))
      → 0 < k
      → Numbers f doc cs
      → IsTop k seen heap out
      → (out' : List (Scored F32)) × (seen' : List (Scored F32)) × Perm seen' (cs ++ seen)
        × IsTop k seen' (offer_all f k heap cs) out'
  unfolding offer_all
  offer_all-IsTop k [] seen heap out pos hcs top = (out, seen, Perm.refl seen, top)
  offer_all-IsTop k (c ∷ cs) seen heap out pos hcs top =
      let (out1, top1) = offer-IsTop k c seen heap out pos hcs.0 top in
      let (out', seen', p, top') =
        offer_all-IsTop k cs (c ∷ seen) (offer f k heap c) out1 pos hcs.1 top1 in
      (out', seen', Perm.trans p (perm_middle cs seen), top')
