-- ===== src/Sstable/Lookup.antt =====
-- The point lookup of a table that the writer wrote finds what its run of entries holds.
use sift_core.Sstable.Bloom.Marks.{IsValid}
use Prim.Native.Nat.Ordering.{lt}
use sift_core.Sstable.Table.{Sstable, get, search_position, block_start_offset, get_loop}
use sift_core.Bytes.{Bytes, cmp_bytes, bytes_eq}
use sift_core.Bytes.Order.{eq_of_cmp_bytes, lt_trans, eq_of_bytes_eq}
use sift_core.Key.{Seq, InternalKey, cmp, Entry}
use sift_core.Key.Order.{Above, IsSorted}
use sift_core.Key.Snapshot.{is_visible, find_visible}
use sift_core.Prelude.{
  ◌≡◌, refl, ap, ◌∙◌, ◌⊎◌, inl, inr, none, List, [], ◌∷◌, ◌++◌, append_assoc, arith, Bool-cases,
  length, drop, All, length-append, drop-append, ℕ, zero, suc, ◌+◌, ◌≤◌, subst, sym, false, get_or,
}
use sift_core.Sstable.Records.{
  encode_entries, encode_entries-append, At, Fits, length-encode_entry, encode_entries-cons,
  get_loop-eq-find_visible,
}
use sift_core.Sstable.Written.{keys_of, sparse_of}
use sift_core.Result.{ok}
use sift_core.Sstable.Blocks.{Points, sparse_of-Points, sparse_of-Ascends}
use sift_core.Sstable.Bloom.{might_contain, BloomFilter}
use sift_core.Sstable.Bloom.Members.{
  add_all, no_false_negatives, add_all-IsValid, might_contain_total,
}
use sift_core.Sstable.Search.{heads, Ascends, get_or-All, search_position_below}

-- Either the run holds versions of the key, or no snapshot sees one.
key_or_absent :
    (key : Bytes) (as_of : Seq) (es : List Entry)
    → ((front : List Bytes) × (back : List Bytes) × (keys_of es ≡ front ++ (key ∷ back)))
      ⊎ (find_visible key as_of es ≡ none)
unfolding find_visible is_visible
key_or_absent key as_of [] = inr refl
key_or_absent key as_of (e ∷ es) = elim (Bool-cases (bytes_eq e.0.user_key key)) [
  | inl here ↦ inl ([], keys_of es, ap (λ k. k ∷ keys_of es) (eq_of_bytes_eq e.0.user_key key here))
  | inr other ↦ elim (key_or_absent key as_of es) [
    | inl (front, back, split) ↦ inl (e.0.user_key ∷ front, back, ap (λ t. e.0.user_key ∷ t) split)
    | inr missing ↦ inr (ground (arith, other, missing))
  ]
]

-- Entries before one that is below the key are not versions of the key.
skip_front :
    (key : Bytes) (as_of : Seq) (front : List Entry) (e : Entry) (back : List Entry)
    → IsSorted (front ++ (e ∷ back))
    → cmp_bytes e.0.user_key key ≡ lt
    → find_visible key as_of (front ++ (e ∷ back)) ≡ find_visible key as_of (e ∷ back)
skip_front key as_of [] e back sorted below = refl
skip_front key as_of (x ∷ front) e back sorted below =
    step (Above-last x.0 front e back sorted.0) ∙ skip_front key as_of front e back sorted.1 below
  where
    Above-last :
        (a : InternalKey) (fs : List Entry) (y : Entry) (bs : List Entry)
        → Above a (fs ++ (y ∷ bs))
        → cmp a y.0 ≡ lt
    Above-last a [] y bs above = above.0
    Above-last a (f ∷ fs) y bs above = Above-last a fs y bs above.1

    step :
        cmp x.0 e.0 ≡ lt
        → find_visible key as_of ((x ∷ front) ++ (e ∷ back))
          ≡ find_visible key as_of (front ++ (e ∷ back))
    step before =
        unfold find_visible is_visible bytes_eq cmp in
        ground (
          arith,
          before,
          below,
          lt_trans x.0.user_key e.0.user_key key,
          eq_of_cmp_bytes x.0.user_key e.0.user_key,
        )

IsSorted-back : (front back : List Entry) → IsSorted (front ++ back) → IsSorted back
IsSorted-back [] back sorted = sorted
IsSorted-back (x ∷ front) back sorted = IsSorted-back front back sorted.1

All-back {κ} : (P : Entry → Type κ) (front back : List Entry) → All P (front ++ back) → All P back
All-back P [] back a = a
All-back P (x ∷ front) back a = All-back P front back a.1

-- The table's bytes are the entries and something behind them.
pub record Holds (t : Sstable) (es : List Entry) (tail : Bytes) : Type 0 where
  pub file : t.file ≡ encode_entries es ++ tail
  pub end : t.data_end ≡ length (encode_entries es)
  pub index : t.index ≡ sparse_of 0 0 es

At-split :
    (t : Sstable) (front back : List Entry) (tail : Bytes)
    → Holds t (front ++ back) tail
    → At t (length (encode_entries front)) back tail
At-split t front back tail h = record {
  bytes =
      ap (λ b. drop (length (encode_entries front)) b)
        (h.file
          ∙ ap (λ b. b ++ tail) (encode_entries-append front back)
          ∙ append_assoc (encode_entries front) (encode_entries back) tail)
      ∙ drop-append (encode_entries front) (encode_entries back ++ tail) _ refl;
  end = omega (
    arith,
    h.end,
    ap length (encode_entries-append front back),
    length-append (encode_entries front) (encode_entries back),
  );
}

-- Every record takes a byte at least.
pub length-le : (es : List Entry) → length es ≤ length (encode_entries es)
length-le [] = unfold encode_entries in omega arith
length-le (e ∷ es) =
    omega (arith, length-le es, (encode_entries-cons e es []).1, length-encode_entry e)

-- From a block that begins below the key, and from the first record, the scan finds the newest
-- version that the snapshot sees.
scan-first :
    (t : Sstable) (key : Bytes) (as_of : Seq) (es : List Entry) (tail : Bytes)
    → All Fits es
    → IsSorted es
    → Holds t es tail
    → get_loop (t.data_end + 1) t key as_of 0 ≡ ok (find_visible key as_of es)
scan-first t key as_of es tail fits sorted h =
    get_loop-eq-find_visible es (t.data_end + 1) t key as_of 0 tail fits sorted
      (record { bytes = h.file; end = omega (arith, h.end) }) (omega (arith, h.end, length-le es))

scan-block :
    (t : Sstable) (key : Bytes) (as_of : Seq) (es : List Entry) (tail : Bytes) (x : Bytes × ℕ)
    → All Fits es
    → IsSorted es
    → Holds t es tail
    → Points 0 es x
    → cmp_bytes x.0 key ≡ lt
    → get_loop (t.data_end + 1) t key as_of x.1 ≡ ok (find_visible key as_of es)
scan-block t key as_of es tail x fits sorted h p below =
    ap (λ o. get_loop (t.data_end + 1) t key as_of o) (omega (arith, p.offset))
    ∙ get_loop-eq-find_visible (p.entry ∷ p.back) (t.data_end + 1) t key as_of
        (length (encode_entries p.front)) tail
        (All-back Fits p.front (p.entry ∷ p.back) (subst (All Fits) p.split fits))
        (IsSorted-back p.front (p.entry ∷ p.back) sorted')
        (At-split t p.front (p.entry ∷ p.back) tail (subst (λ l. Holds t l tail) p.split h))
        (omega (
          arith,
          h.end,
          length-le (p.entry ∷ p.back),
          ap (λ l. length (encode_entries l)) p.split,
          ap length (encode_entries-append p.front (p.entry ∷ p.back)),
          length-append (encode_entries p.front) (encode_entries (p.entry ∷ p.back)),
        ))
    ∙ ap ok (
        sym (
          skip_front key as_of p.front p.entry p.back sorted'
            (ap (λ k. cmp_bytes k key) p.key ∙ below))
        ∙ ap (find_visible key as_of) (sym p.split))
  where
    sorted' : IsSorted (p.front ++ (p.entry ∷ p.back))
    sorted' = subst IsSorted p.split sorted

-- The offset at which the scan begins.
start_cases :
    (t : Sstable) (key : Bytes) (es : List Entry)
    → t.index ≡ sparse_of 0 0 es
    → IsSorted es
    → heads key t.index ≤ 1
    → (block_start_offset t key ≡ 0)
      ⊎ ((x : Bytes × ℕ) × (block_start_offset t key ≡ x.1)
          × Points 0 es x
          × (cmp_bytes x.0 key ≡ lt))
unfolding block_start_offset
start_cases t key es index sorted once = cases (search_position t.index key) refl
  where
    cases :
        (i : ℕ)
        → search_position t.index key ≡ i
        → (block_start_offset t key ≡ 0)
          ⊎ ((x : Bytes × ℕ) × (block_start_offset t key ≡ x.1)
              × Points 0 es x
              × (cmp_bytes x.0 key ≡ lt))
    cases zero e = inl (rw (block_start_offset, e))
    cases (suc i) e =
        let (below, inside) =
          search_position_below t.index key i
            (subst Ascends (sym index) (sparse_of-Ascends 0 0 es sorted)) once e in
        inr (
          get_or t.index i ([], 0),
          ground (arith, e),
          get_or-All (Points 0 es) t.index i
              (subst (λ xs. All (Points 0 es) xs) (sym index) (sparse_of-Points 0 0 es)) inside,
          below,
        )

scan :
    (t : Sstable) (key : Bytes) (as_of : Seq) (es : List Entry) (tail : Bytes)
    → All Fits es
    → IsSorted es
    → Holds t es tail
    → heads key t.index ≤ 1
    → get_loop (t.data_end + 1) t key as_of (block_start_offset t key)
      ≡ ok (find_visible key as_of es)
scan t key as_of es tail fits sorted h once = elim (start_cases t key es h.index sorted once) [
  | inl first ↦
      ap (λ o. get_loop (t.data_end + 1) t key as_of o) first
      ∙ scan-first t key as_of es tail fits sorted h
  | inr (x, at, p, below) ↦
      ap (λ o. get_loop (t.data_end + 1) t key as_of o) at
      ∙ scan-block t key as_of es tail x fits sorted h p below
]

-- `get` behind the filter.
pub get-Holds :
    (t : Sstable) (key : Bytes) (as_of : Seq) (es : List Entry) (tail : Bytes) (bf : BloomFilter)
    → All Fits es
    → IsSorted es
    → Holds t es tail
    → heads key t.index ≤ 1
    → IsValid bf
    → t.bloom ≡ add_all (keys_of es) bf
    → get t key as_of ≡ ok (find_visible key as_of es)
unfolding get
get-Holds t key as_of es tail bf fits sorted h once valid filter =
    elim (might_contain_total t.bloom key
      (subst IsValid (sym filter) (add_all-IsValid (keys_of es) bf valid))) [
        | inl maybe ↦ rw (get, maybe) (scan t key as_of es tail fits sorted h once)
        | inr never ↦ rw (get, never) (ap ok (sym (missing never (key_or_absent key as_of es))))
      ]
  where
    missing :
        might_contain t.bloom key ≡ ok false
        → ((front : List Bytes) × (back : List Bytes) × (keys_of es ≡ front ++ (key ∷ back)))
          ⊎ (find_visible key as_of es ≡ none)
        → find_visible key as_of es ≡ none
    missing never (inr e) = e
    missing never (inl (front, back, split)) = absurd (
        cc (
          never,
          no_false_negatives front back key bf valid,
          ap (λ ks. might_contain (add_all ks bf) key) split,
          ap (λ b. might_contain b key) filter,
        ))
