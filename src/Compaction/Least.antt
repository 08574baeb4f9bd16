-- ===== src/Compaction/Least.antt =====
-- src/compaction.rs: `BinaryHeap::pop` takes a least item.
use Prim.Native.Nat.Ordering.{lt, gt}
use mathlib.Core.List.{Perm}
use mathlib.Core.List.Perm as Perm
use sift_core.Compaction.{HeapItem, cmp_item, pop_least}
use sift_core.Key.{InternalKey, cmp}
use sift_core.Key.Order.{cmp_refl, eq_of_cmp, cmp-lt_of_gt, cmp-gt_of_lt, cmp-lt_trans}
use sift_core.Prelude.{
  ◌≡◌, refl, ◌≢◌, inl, inr, some, List, [], ◌∷◌, arith, Ordering-gt, All, All-imp, Ordering-cases,
}

-- The first key does not stand behind the second.
abbrev pub NotAfter : InternalKey → InternalKey → Type 0
NotAfter a b = cmp a b ≢ gt

pub NotAfter-trans : (a b c : InternalKey) → NotAfter a b → NotAfter b c → NotAfter a c
NotAfter-trans a b c h k g = elim (Ordering-cases (cmp a b)) [
  | inl below ↦ k (cmp-gt_of_lt c b (cmp-lt_trans c a b (cmp-lt_of_gt a c g) below))
  | inr other ↦ ground (arith, h, k, g, eq_of_cmp a b)
]

pub NotAfter-refl : (a : InternalKey) → NotAfter a a
NotAfter-refl a = ground (arith, cmp_refl a)

NotAfter-of_lt : (a b : InternalKey) → cmp a b ≡ lt → NotAfter a b
NotAfter-of_lt a b h = λ e. cc

-- The item that is taken, the others, and the heap before.
pub record IsLeast (x : HeapItem) (others heap : List HeapItem) : Type 0 where
  pub perm : Perm (x ∷ others) heap
  pub least : All (λ (y : HeapItem). NotAfter x.0 y.0) heap

cmp_item-NotAfter : (x y : HeapItem) → cmp_item x y ≢ gt → NotAfter x.0 y.0
unfolding cmp_item
cmp_item-NotAfter (a, i) (b, j) h = ground (arith, h)

cmp_item-gt : (x y : HeapItem) → cmp_item x y ≡ gt → NotAfter y.0 x.0
unfolding cmp_item
cmp_item-gt (a, i) (b, j) h = ground (arith, h, cmp-lt_of_gt a b, eq_of_cmp a b, cmp_refl a)

pub pop_least-IsLeast :
    (x : HeapItem) (xs : List HeapItem)
    → (y : HeapItem) × (others : List HeapItem) × (pop_least (x ∷ xs) ≡ some (y, others))
      × IsLeast y others (x ∷ xs)
unfolding pop_least
pop_least-IsLeast x [] =
    (x, [], refl, record { perm = Perm.refl (x ∷ []); least = (NotAfter-refl x.0, tt) })
pop_least-IsLeast x (z ∷ zs) =
    let (y, others, e, is) = pop_least-IsLeast z zs in
    elim (Ordering-gt (cmp_item x y)) [
      | inl above ↦ (
        y,
        x ∷ others,
        ground (arith, e, above),
        record {
          perm = Perm.trans (Perm.swap x y others) (Perm.cons x is.perm);
          least = (cmp_item-gt x y above, is.least);
        },
      )
      | inr below ↦ (
        x,
        z ∷ zs,
        ground (arith, e, below),
        record {
          perm = Perm.refl (x ∷ z ∷ zs);
          least = (
            NotAfter-refl x.0,
            All-imp (λ u h. NotAfter-trans x.0 y.0 u.0 (cmp_item-NotAfter x y below) h) (z ∷ zs)
                is.least,
          );
        },
      )
    ]
