-- ===== src/Sstable/Blocks.antt =====
-- Every entry of the sparse index points at an entry of the run.
use Prim.Native.Nat.Ordering.{lt}
use sift_core.Bytes.{Bytes, IsU64}
use sift_core.Key.{InternalKey, cmp, Entry}
use sift_core.Key.Order.{Above, IsSorted}
use sift_core.Prelude.{
  ℕ, ◌+◌, ◌%◌, ◌≡◌, refl, ap, inl, inr, List, [], ◌∷◌, ◌++◌, arith, ◌==◌, Bool-cases, length, All,
  All-imp,
}
use sift_core.Sstable.{encode_entry}
use sift_core.Sstable.Records.{encode_entries, encode_entries-cons, Fits}
use sift_core.Sstable.Search.{NotAbove, Ascends}
use sift_core.Sstable.Written.{sparse_of}
use sift_core.Sstable.IndexBack.{IndexFits}

-- The index entry `x` points at an entry of the run, whose bytes begin at `base`.
pub record Points (base : ℕ) (es : List Entry) (x : Bytes × ℕ) : Type 0 where
  pub front : List Entry
  pub entry : Entry
  pub back : List Entry
  pub split : es ≡ front ++ (entry ∷ back)
  pub key : entry.0.user_key ≡ x.0
  pub offset : x.1 ≡ base + length (encode_entries front)

Points-cons :
    (base : ℕ) (e : Entry) (es : List Entry) (x : Bytes × ℕ)
    → Points (base + length (encode_entry e)) es x
    → Points base (e ∷ es) x
Points-cons base e es x p = record {
  front = e ∷ p.front;
  entry = p.entry;
  back = p.back;
  split = ap (λ t. e ∷ t) p.split;
  key = p.key;
  offset = omega (arith, p.offset, (encode_entries-cons e p.front []).1);
}

pub sparse_of-Points :
    (since base : ℕ) (es : List Entry) → All (Points base es) (sparse_of since base es)
sparse_of-Points since base [] = tt
sparse_of-Points since base (e ∷ es) = elim (Bool-cases (since == 0)) [
  | inl zero_ ↦
      rw zero_
        (head, rest (sparse_of-Points ((since + 1) % 16) (base + length (encode_entry e)) es))
  | inr other ↦
      rw other (rest (sparse_of-Points ((since + 1) % 16) (base + length (encode_entry e)) es))
]
  where
    head : Points base (e ∷ es) (e.0.user_key, base)
    head = record {
      front = [];
      entry = e;
      back = es;
      split = refl;
      key = refl;
      offset = unfold encode_entries in omega arith;
    }

    rest :
        All
          (Points (base + length (encode_entry e)) es)
          (sparse_of ((since + 1) % 16) (base + length (encode_entry e)) es)
        → All
            (Points base (e ∷ es))
            (sparse_of ((since + 1) % 16) (base + length (encode_entry e)) es)
    rest below = All-imp (λ x p. Points-cons base e es x p) _ below

pub cmp-not_gt : (a b : InternalKey) → cmp a b ≡ lt → NotAbove a.user_key b.user_key
unfolding cmp
cmp-not_gt a b h g = ground (arith, h, g)

sparse_of-NotAbove :
    (a : InternalKey) (since base : ℕ) (es : List Entry)
    → Above a es
    → All (λ (y : Bytes × ℕ). NotAbove a.user_key y.0) (sparse_of since base es)
sparse_of-NotAbove a since base [] above = tt
sparse_of-NotAbove a since base (e ∷ es) above =
    let rest =
      sparse_of-NotAbove a ((since + 1) % 16) (base + length (encode_entry e)) es above.1 in
    elim (Bool-cases (since == 0)) [
      | inl zero_ ↦ rw zero_ (cmp-not_gt a e.0 above.0, rest)
      | inr other ↦ rw other rest
    ]

-- The index of a sorted run ascends.
pub sparse_of-Ascends :
    (since base : ℕ) (es : List Entry) → IsSorted es → Ascends (sparse_of since base es)
sparse_of-Ascends since base [] sorted = tt
sparse_of-Ascends since base (e ∷ es) sorted =
    let next = (since + 1) % 16 in
    let rest = sparse_of-Ascends next (base + length (encode_entry e)) es sorted.1 in
    elim (Bool-cases (since == 0)) [
      | inl zero_ ↦
          rw zero_ (sparse_of-NotAbove e.0 next (base + length (encode_entry e)) es sorted.0, rest)
      | inr other ↦ rw other rest
    ]

-- The index of a run fits its fields, if the run ends inside 64 bits.
pub sparse_of-IndexFits :
    (since base : ℕ) (es : List Entry)
    → All Fits es
    → IsU64 (base + length (encode_entries es))
    → All IndexFits (sparse_of since base es)
sparse_of-IndexFits since base [] fits small = tt
sparse_of-IndexFits since base (e ∷ es) fits small =
    let size = (encode_entries-cons e es []).1 in
    let rest =
      sparse_of-IndexFits ((since + 1) % 16) (base + length (encode_entry e)) es fits.1
        (omega (arith, size, small)) in
    elim (Bool-cases (since == 0)) [
      | inl zero_ ↦ rw zero_ ((fits.0.key, omega (arith, small)), rest)
      | inr other ↦ rw other rest
    ]
