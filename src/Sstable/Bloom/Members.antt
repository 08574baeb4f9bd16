-- ===== src/Sstable/Bloom/Members.antt =====
-- The filter has no false negatives.
use sift_core.Sstable.Bloom.{
  BloomFilter, with_capacity, bit_of, might_loop, hashes, add, might_contain,
}
use sift_core.Bytes.{Bytes, IsU32, IsU64}
use sift_core.Prelude.{
  ℕ, ◌+◌, ◌*◌, ◌/◌, ◌%◌, ◌^◌, ◌≡◌, subst, sym, ap, ◌∙◌, false, arith, get_elem?-in_range, zero, suc,
  refl, true, List, [], ◌∷◌, ◌++◌, ◌⊎◌, inl, ◌≤◌, ◌<◌, max, length, length-replicate,
}
use sift_core.Result.{ok}
use sift_core.Sstable.Bloom.Marks.{
  IsValid, bit_of_in_range, Marked, add_loop-Adds, might_loop-Marked, Marked-might_loop,
}
use sift_core.Text.{b}

bit_of-num_bits :
    (a b : BloomFilter) (h1 h2 i : ℕ)
    → a.num_bits ≡ b.num_bits
    → bit_of a h1 h2 i ≡ bit_of b h1 h2 i
unfolding bit_of
bit_of-num_bits a b h1 h2 i e = ap (λ k. (h1 + i * h2 % 2 ^ 64) % 2 ^ 64 % k) e

-- A filter finds the key that was added to it.
pub might_contain-add :
    (bf : BloomFilter) (key : Bytes) → IsValid bf → might_contain (add bf key) key ≡ ok true
unfolding might_contain add
might_contain-add bf key v =
    let (h1, h2) = hashes key in
    let added = add_loop-Adds bf.num_hashes 0 h1 h2 bf v in
    might_loop-Marked (add bf key).num_hashes 0 h1 h2 (add bf key) added.valid.pos (λ j lo hi.
      subst (λ b. Marked (add bf key) b)
        (sym (bit_of-num_bits (add bf key) bf h1 h2 j added.num_bits))
        (added.marks j lo (omega (arith, added.num_hashes))))

-- A filter goes on finding what it found before.
pub might_contain-add_keep :
    (bf : BloomFilter) (key other : Bytes)
    → IsValid bf
    → might_contain bf other ≡ ok true
    → might_contain (add bf key) other ≡ ok true
unfolding might_contain add
might_contain-add_keep bf key other v e =
    let (h1, h2) = hashes key in
    let (o1, o2) = hashes other in
    let added = add_loop-Adds bf.num_hashes 0 h1 h2 bf v in
    might_loop-Marked (add bf key).num_hashes 0 o1 o2 (add bf key) added.valid.pos (λ j lo hi.
      subst (λ b. Marked (add bf key) b)
        (sym (bit_of-num_bits (add bf key) bf o1 o2 j added.num_bits))
        (added.keeps _
          (Marked-might_loop bf.num_hashes 0 o1 o2 bf e j lo (omega (arith, added.num_hashes)))))

pub add-IsValid : (bf : BloomFilter) (key : Bytes) → IsValid bf → IsValid (add bf key)
unfolding add
add-IsValid bf key v = let (h1, h2) = hashes key in (add_loop-Adds bf.num_hashes 0 h1 h2 bf v).valid

-- The keys are added one after the other.
unfoldable pub add_all : List Bytes → BloomFilter → BloomFilter
add_all [] bf = bf
add_all (k ∷ ks) bf = add_all ks (add bf k)

add_all_keep :
    (ks : List Bytes) (key : Bytes) (bf : BloomFilter)
    → IsValid bf
    → might_contain bf key ≡ ok true
    → might_contain (add_all ks bf) key ≡ ok true
unfolding add_all
add_all_keep [] key bf v e = e
add_all_keep (k ∷ ks) key bf v e =
    add_all_keep ks key (add bf k) (add-IsValid bf k v) (might_contain-add_keep bf k key v e)

-- Whatever keys are added to a valid filter and in whatever order, it finds each of them, and no
-- probe panics on the way.
pub no_false_negatives :
    (front back : List Bytes) (key : Bytes) (bf : BloomFilter)
    → IsValid bf
    → might_contain (add_all (front ++ (key ∷ back)) bf) key ≡ ok true
unfolding add_all
no_false_negatives [] back key bf v =
    add_all_keep back key (add bf key) (add-IsValid bf key v) (might_contain-add bf key v)
no_false_negatives (k ∷ front) back key bf v =
    no_false_negatives front back key (add bf k) (add-IsValid bf k v)

pub add_all-IsValid : (ks : List Bytes) (bf : BloomFilter) → IsValid bf → IsValid (add_all ks bf)
unfolding add_all
add_all-IsValid [] bf v = v
add_all-IsValid (k ∷ ks) bf v = add_all-IsValid ks (add bf k) (add-IsValid bf k v)

might_loop_total :
    (n i h1 h2 : ℕ) (bf : BloomFilter)
    → IsValid bf
    → (might_loop n i h1 h2 bf ≡ ok true) ⊎ (might_loop n i h1 h2 bf ≡ ok false)
unfolding might_loop
might_loop_total zero i h1 h2 bf v = inl refl
might_loop_total (suc n) i h1 h2 bf v =
    let (byte, e) =
      get_elem?-in_range bf.bits (bit_of bf h1 h2 i / 8) (bit_of_in_range bf h1 h2 i v) in
    ground (arith, v.pos, e, might_loop_total n (i + 1) h1 h2 bf v)

-- A valid filter answers every probe.
pub might_contain_total :
    (bf : BloomFilter) (key : Bytes)
    → IsValid bf
    → (might_contain bf key ≡ ok true) ⊎ (might_contain bf key ≡ ok false)
unfolding might_contain
might_contain_total bf key v = might_loop_total bf.num_hashes 0 (hashes key).0 (hashes key).1 bf v

-- Keys change the bits of a filter and nothing else.
pub add_all-shape :
    (ks : List Bytes) (bf : BloomFilter)
    → IsValid bf
    → ((add_all ks bf).num_bits ≡ bf.num_bits) × ((add_all ks bf).num_hashes ≡ bf.num_hashes)
unfolding add_all add
add_all-shape [] bf v = (refl, refl)
add_all-shape (k ∷ ks) bf v =
    let added = add_loop-Adds bf.num_hashes 0 (hashes k).0 (hashes k).1 bf v in
    let rest = add_all-shape ks (add bf k) (add-IsValid bf k v) in
    (rest.0 ∙ added.num_bits, rest.1 ∙ added.num_hashes)

pub add_all-size :
    (ks : List Bytes) (bf : BloomFilter) → IsValid bf → length (add_all ks bf).bits ≡ length bf.bits
unfolding add_all add
add_all-size [] bf v = refl
add_all-size (k ∷ ks) bf v =
    add_all-size ks (add bf k) (add-IsValid bf k v)
    ∙ (add_loop-Adds bf.num_hashes 0 (hashes k).0 (hashes k).1 bf v).size

pub with_capacity-size : (n : ℕ) → n < 2 ^ 55 → 8 * length (with_capacity n).bits ≤ 10 * n + 71
unfolding with_capacity
with_capacity-size n small =
    omega (arith, length-replicate {A = ℕ} ((max (max n 1 * 10 % 2 ^ 64) 64 + 7) / 8) 0)

pub with_capacity-shape :
    (n : ℕ) → IsU64 (with_capacity n).num_bits × IsU32 (with_capacity n).num_hashes
unfolding with_capacity
with_capacity-shape n = (omega arith, omega arith)
