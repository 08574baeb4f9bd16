-- ===== src/Sstable/Search.antt =====
-- The binary search of the sparse index: the block before the position it returns begins below the
-- key, if the key heads one block at most.
use Prim.Native.Nat.Ordering.{lt, eq, gt}
use sift_core.Sstable.Table.{index_key, search_loop, search_position, next_base}
use sift_core.Bytes.{Bytes, cmp_bytes, bytes_eq}
use sift_core.Prelude.{
  ℕ, zero, suc, ◌+◌, ◌/◌, ◌≤◌, ◌<◌, Ordering, ◌≡◌, refl, ◌⊎◌, inl, inr, true, List, [], ◌∷◌, arith,
  ltb, if◌then◌else◌, Bool-cases, length, get_or, All, ◌-◌, ltb→lt, subst, ap, ◌∙◌,
}
use sift_core.Bytes.Order.{eq_of_cmp_bytes}
use sift_core.Sstable.Iter.{next}

abbrev pub Index : Type 0
Index = List (Bytes × ℕ)

-- How many blocks the key heads.
unfoldable pub heads : Bytes → Index → ℕ
heads key [] = 0
heads key (x ∷ xs) = (if bytes_eq x.0 key then 1 else 0) + heads key xs

abbrev pub NotAbove : Bytes → Bytes → Type 0
NotAbove a b = (cmp_bytes a b ≡ gt) → ⊥

-- The keys of the index ascend, and may repeat.
abbrev pub Ascends : Index → Type 0
Ascends [] = Unit
Ascends (x ∷ xs) = All (λ (y : Bytes × ℕ). NotAbove x.0 y.0) xs × Ascends xs

pub get_or-All :
    (P : Bytes × ℕ → Type 0) (xs : Index) (i : ℕ)
    → All P xs
    → i < length xs
    → P (get_or xs i ([], 0))
get_or-All P [] i a h = elim h [ ]
get_or-All P (x ∷ xs) zero a h = a.0
get_or-All P (x ∷ xs) (suc i) a h = get_or-All P xs i a.1 (omega arith)

Ascends-at :
    (xs : Index) (i : ℕ)
    → Ascends xs
    → suc i < length xs
    → NotAbove (index_key xs i) (index_key xs (suc i))
Ascends-at [] i a h = elim h [ ]
Ascends-at (x ∷ xs) zero a h = get_or-All (λ y. NotAbove x.0 y.0) xs 0 a.0 (omega arith)
Ascends-at (x ∷ xs) (suc i) a h = Ascends-at xs i a.1 (omega arith)

heads_pos :
    (xs : Index) (i : ℕ) (key : Bytes)
    → i < length xs
    → bytes_eq (index_key xs i) key ≡ true
    → 1 ≤ heads key xs
unfolding heads
heads_pos [] i key h e = elim h [ ]
heads_pos (x ∷ xs) zero key h e = ground arith
heads_pos (x ∷ xs) (suc i) key h e = omega (arith, heads_pos xs i key (omega arith) e)

heads_two :
    (xs : Index) (i : ℕ) (key : Bytes)
    → suc i < length xs
    → bytes_eq (index_key xs i) key ≡ true
    → bytes_eq (index_key xs (suc i)) key ≡ true
    → 2 ≤ heads key xs
unfolding heads
heads_two [] i key h e f = elim h [ ]
heads_two (x ∷ xs) zero key h e f = ground (arith, heads_pos xs 0 key (omega arith) f)
heads_two (x ∷ xs) (suc i) key h e f = omega (arith, heads_two xs i key (omega arith) e f)

next_base_inside :
    (xs : Index) (key : Bytes) (base mid : ℕ)
    → base ≤ mid
    → ((base ≡ 0) ⊎ NotAbove (index_key xs base) key)
    → (next_base xs key base mid ≤ mid)
      × ((next_base xs key base mid ≡ 0) ⊎ NotAbove (index_key xs (next_base xs key base mid)) key)
unfolding next_base
next_base_inside xs key base mid le not_above = cases (cmp_bytes (index_key xs mid) key) refl
  where
    cases :
        (o : Ordering)
        → cmp_bytes (index_key xs mid) key ≡ o
        → (next_base xs key base mid ≤ mid)
          × ((next_base xs key base mid ≡ 0)
              ⊎ NotAbove (index_key xs (next_base xs key base mid)) key)
    cases lt e = rw (next_base, e) (omega arith, inr (λ g. cc))
    cases eq e = rw (next_base, e) (omega arith, inr (λ g. cc))
    cases gt e = rw (next_base, e) (le, not_above)

-- What the loop of the search keeps: its base is inside, and is the first or not above the key.
search_loop_inside :
    (fuel : ℕ) (xs : Index) (key : Bytes) (size base : ℕ)
    → base + size ≤ length xs
    → 0 < size
    → ((base ≡ 0) ⊎ NotAbove (index_key xs base) key)
    → (search_loop fuel xs key size base < length xs)
      × ((search_loop fuel xs key size base ≡ 0)
          ⊎ NotAbove (index_key xs (search_loop fuel xs key size base)) key)
unfolding search_loop
search_loop_inside zero xs key size base room pos not_above = (omega arith, not_above)
search_loop_inside (suc fuel) xs key size base room pos not_above =
    let (inside, next) = next_base_inside xs key base (base + size / 2) (omega arith) not_above in
    elim (Bool-cases (ltb 1 size)) [
      | inl more ↦
          rw (search_loop, more)
            (search_loop_inside fuel xs key (size - size / 2)
              (next_base xs key base (base + size / 2)) (omega (arith, ltb→lt 1 size more))
              (omega (arith, ltb→lt 1 size more)) next)
      | inr done ↦ rw (search_loop, done) (omega arith, not_above)
    ]

-- The entry before one that has the key is below the key, if there is no other.
before_found :
    (xs : Index) (key : Bytes) (i : ℕ)
    → Ascends xs
    → heads key xs ≤ 1
    → suc i < length xs
    → cmp_bytes (index_key xs (suc i)) key ≡ eq
    → cmp_bytes (index_key xs i) key ≡ lt
before_found xs key i asc once inside here = cases (cmp_bytes (index_key xs i) key) refl
  where
    same : index_key xs (suc i) ≡ key
    same = eq_of_cmp_bytes (index_key xs (suc i)) key here

    cases :
        (o : Ordering) → cmp_bytes (index_key xs i) key ≡ o → cmp_bytes (index_key xs i) key ≡ lt
    cases lt c = c
    cases eq c = absurd (
        omega (
          arith,
          heads_two xs i key inside (unfold bytes_eq in ground (arith, c))
              (unfold bytes_eq in ground (arith, here)),
        ))
    cases gt c =
        absurd (Ascends-at xs i asc inside (ap (λ k. cmp_bytes (index_key xs i) k) same ∙ c))

-- The end of the search: where it returns a position behind the first, the entry before that
-- position is below the key.
search_end :
    (xs : Index) (key : Bytes) (base : ℕ)
    → Ascends xs
    → heads key xs ≤ 1
    → base < length xs
    → ((base ≡ 0) ⊎ NotAbove (index_key xs base) key)
    → (i : ℕ)
    → (elim (cmp_bytes (index_key xs base) key) as (λ _. ℕ) [ lt ↦ base + 1 | _ ↦ base ]) ≡ suc i
    → (cmp_bytes (index_key xs i) key ≡ lt) × (i < length xs)
search_end xs key base asc once inside not_above i e =
    cases (cmp_bytes (index_key xs base) key) refl
  where
    cases :
        (o : Ordering)
        → cmp_bytes (index_key xs base) key ≡ o
        → (cmp_bytes (index_key xs i) key ≡ lt) × (i < length xs)
    cases lt c =
        let at : base ≡ i = ground (arith, c, e) in
        (subst (λ k. cmp_bytes (index_key xs k) key ≡ lt) at c, omega (arith, at))
    cases eq c =
        let at : base ≡ suc i = ground (arith, c, e) in
        (
          before_found xs key i asc once (omega (arith, at))
              (subst (λ k. cmp_bytes (index_key xs k) key ≡ eq) at c),
          omega (arith, at),
        )
    cases gt c =
        let at : base ≡ suc i = ground (arith, c, e) in
        elim not_above [ inl first ↦ absurd (omega (arith, at, first)) | inr no_ ↦ absurd (no_ c) ]

-- Where the keys of the index ascend and the key heads one block at most, and the search returns a
-- position behind the first, the entry before it is below the key and inside the index.
pub search_position_below :
    (xs : Index) (key : Bytes) (i : ℕ)
    → Ascends xs
    → heads key xs ≤ 1
    → search_position xs key ≡ suc i
    → (cmp_bytes (index_key xs i) key ≡ lt) × (i < length xs)
unfolding search_position
search_position_below [] key i asc once e = absurd (omega arith)
search_position_below (x ∷ xs) key i asc once e =
    let (inside, not_above) =
      search_loop_inside (length (x ∷ xs)) (x ∷ xs) key (length (x ∷ xs)) 0 (omega arith)
        (omega arith) (inl refl) in
    search_end (x ∷ xs) key _ asc once inside not_above i e
