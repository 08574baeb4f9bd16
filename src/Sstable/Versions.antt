-- ===== src/Sstable/Versions.antt =====
-- How many blocks of the index a key can head.
use Prim.Native.Nat.Ordering.{gt}
use sift_core.Key.{InternalKey, Entry, cmp}
use sift_core.Key.Order.{IsSorted, Above}
use sift_core.Sstable.Search.{heads}
use sift_core.Sstable.Written.{sparse_of}
use sift_core.Bytes.Order.{eq_of_bytes_eq, gt_of_lt, eq_of_cmp_bytes, bytes_eq_refl}
use sift_core.Bytes.{Bytes, cmp_bytes, bytes_eq}
use sift_core.Prelude.{
  ℕ, ◌+◌, ◌%◌, ◌≤◌, ◌<◌, Ordering, ◌≡◌, refl, true, false, List, [], ◌∷◌, arith, if◌then◌else◌,
  length, inl, inr, ltb, ◌==◌, Bool-cases,
}
use sift_core.Sstable.{encode_entry}

-- How many versions of the key the run holds.
unfoldable pub versions : Bytes → List Entry → ℕ
versions key [] = 0
versions key (e ∷ es) = (if bytes_eq e.0.user_key key then 1 else 0) + versions key es

-- The versions of the key stand at the front of the run.
Leads : Bytes → List Entry → Type 0
Leads key [] = Unit
Leads key (e ∷ es) =
    ((bytes_eq e.0.user_key key ≡ true) → Leads key es)
    × ((bytes_eq e.0.user_key key ≡ false) → versions key es ≡ 0)

versions_past :
    (key : Bytes) (a : InternalKey) (es : List Entry)
    → cmp_bytes a.user_key key ≡ gt
    → Above a es
    → versions key es ≡ 0
unfolding versions cmp
versions_past key a [] h above = refl
versions_past key a (e ∷ es) h above = ground (
  arith,
  versions_past key a es h above.1,
  eq_of_bytes_eq e.0.user_key key,
  gt_of_lt a.user_key e.0.user_key,
  eq_of_cmp_bytes a.user_key e.0.user_key,
  gt_of_lt a.user_key key,
  above.0,
)

-- Behind a version of the key, another key is beyond it.
beyond :
    (key : Bytes) (a b : InternalKey)
    → bytes_eq a.user_key key ≡ true
    → bytes_eq b.user_key key ≡ false
    → cmp a b ≡ Ordering.lt
    → cmp_bytes b.user_key key ≡ gt
unfolding cmp
beyond key a b ha hb h = ground (
  arith,
  eq_of_bytes_eq a.user_key key,
  gt_of_lt a.user_key b.user_key,
  eq_of_cmp_bytes a.user_key b.user_key,
  bytes_eq_refl key,
)

IsSorted-Leads :
    (key : Bytes) (a : InternalKey) (es : List Entry)
    → bytes_eq a.user_key key ≡ true
    → Above a es
    → IsSorted es
    → Leads key es
unfolding Leads
IsSorted-Leads key a [] h above sorted = tt
IsSorted-Leads key a (e ∷ es) h above sorted = (
  λ same. IsSorted-Leads key e.0 es same sorted.0 sorted.1,
  λ other. versions_past key e.0 es (beyond key a e.0 h other above.0) sorted.0,
)

-- Without versions of the key there are no blocks that it heads.
heads_none :
    (key : Bytes) (since off : ℕ) (es : List Entry)
    → versions key es ≡ 0
    → heads key (sparse_of since off es) ≡ 0
unfolding versions heads
heads_none key since off [] h = refl
heads_none key since off (e ∷ es) h =
    ground (arith, heads_none key ((since + 1) % 16) (off + length (encode_entry e)) es)

-- Where the versions end before the next block begins, the key heads no block.
heads_before :
    (key : Bytes) (since off : ℕ) (es : List Entry)
    → Leads key es
    → 0 < since
    → since + versions key es ≤ 16
    → heads key (sparse_of since off es) ≡ 0
unfolding Leads versions heads
heads_before key since off [] leads pos room = refl
heads_before key since off (e ∷ es) leads pos room =
    let off' = off + length (encode_entry e) in
    elim (Bool-cases (bytes_eq e.0.user_key key)) [
      | inl same ↦ elim (Bool-cases (ltb (since + 1) 16)) [
        | inl inside ↦
            let ih =
              heads_before key ((since + 1) % 16) off' es (leads.0 same) (ground (arith, inside))
                (ground (arith, inside, same)) in
            ground (arith, ih)
        | inr last ↦
            let none_left =
              heads_none key ((since + 1) % 16) off' es (ground (arith, last, same)) in
            ground (arith, none_left)
      ]
      | inr other ↦
          let none_left = heads_none key ((since + 1) % 16) off' es (leads.1 other) in
          ground (arith, none_left)
    ]

heads_leading :
    (key : Bytes) (since off : ℕ) (es : List Entry)
    → Leads key es
    → since < 16
    → versions key es ≤ 16
    → heads key (sparse_of since off es) ≤ 1
unfolding Leads versions heads
heads_leading key since off [] leads inside few = omega arith
heads_leading key since off (e ∷ es) leads inside few =
    let off' = off + length (encode_entry e) in
    elim (Bool-cases (bytes_eq e.0.user_key key)) [
      | inl same ↦
          let fewer : 1 + versions key es ≤ 16 = ground (arith, same) in
          elim (Bool-cases (since == 0)) [
            | inl first ↦
                let start : (since + 1) % 16 ≡ 1 = ground (arith, first) in
                let rest =
                  heads_before key ((since + 1) % 16) off' es (leads.0 same) (omega (arith, start))
                    (omega (arith, start, fewer)) in
                ground (arith, rest, first, same)
            | inr later ↦
                let ih =
                  heads_leading key ((since + 1) % 16) off' es (leads.0 same) (omega arith)
                    (omega (arith, fewer)) in
                ground (arith, ih, later)
          ]
      | inr other ↦
          let none_left = heads_none key ((since + 1) % 16) off' es (leads.1 other) in
          ground (arith, none_left, other)
    ]

heads_sorted :
    (key : Bytes) (since off : ℕ) (es : List Entry)
    → IsSorted es
    → since < 16
    → versions key es ≤ 16
    → heads key (sparse_of since off es) ≤ 1
unfolding Leads versions heads
heads_sorted key since off [] sorted inside few = omega arith
heads_sorted key since off (e ∷ es) sorted inside few =
    elim (Bool-cases (bytes_eq e.0.user_key key)) [
      | inl same ↦ heads_leading key since off (e ∷ es) (leading same) inside few
      | inr other ↦
          let ih =
            heads_sorted key ((since + 1) % 16) (off + length (encode_entry e)) es sorted.1
              (omega arith) (ground (arith, other)) in
          ground (arith, ih, other)
    ]
  where
    leading : bytes_eq e.0.user_key key ≡ true → Leads key (e ∷ es)
    leading same =
        (λ same'. IsSorted-Leads key e.0 es same' sorted.0 sorted.1, λ other. absurd (ground arith))

-- A key with at most 16 versions in a sorted run heads one block of the index at most.
pub heads-sparse_of :
    (key : Bytes) (es : List Entry)
    → IsSorted es
    → versions key es ≤ 16
    → heads key (sparse_of 0 0 es) ≤ 1
heads-sparse_of key es sorted few = heads_sorted key 0 0 es sorted (omega arith) few
