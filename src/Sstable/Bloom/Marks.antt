-- ===== src/Sstable/Bloom/Marks.antt =====
-- The bits that the rounds of the filter set and test.
use sift_core.Sstable.Bloom.{BloomFilter, with_capacity, bit_of, add_loop, might_loop}
use sift_core.Bits.{is_clear, set_bit, set_bit-IsByte, is_clear-set_bit, is_clear-set_bit_keep}
use sift_core.Bytes.{IsByte}
use sift_core.Prelude.{
  ℕ, ◌+◌, ◌*◌, ◌/◌, ◌%◌, ◌^◌, ◌≤◌, ◌<◌, max, ◌≡◌, subst, sym, ap, ◌∙◌, false, some, some_inj, arith,
  ℕ_discrete, mod-lt, length, get_elem?, set, get_or, All, length-replicate, length-set,
  get_elem?-set_self, get_elem?-set_ne, get_or-of_get_elem?, get_elem?-in_range, All-get_elem?,
  All-set, All-replicate, zero, suc, refl, true,
}
use sift_core.Result.{ok}

-- The bits fit their bytes.
pub record IsValid (bf : BloomFilter) : Type 0 where
  pub pos : 0 < bf.num_bits
  pub room : bf.num_bits ≤ 8 * length bf.bits
  pub bytes : All IsByte bf.bits

pub with_capacity-IsValid : (n : ℕ) → IsValid (with_capacity n)
unfolding with_capacity
with_capacity-IsValid n = record {
  pos = omega arith;
  room = omega (arith, length-replicate {A = ℕ} ((max (max n 1 * 10 % 2 ^ 64) 64 + 7) / 8) 0);
  bytes = All-replicate IsByte _ 0 (omega arith);
}

-- Every probe of a valid filter stays inside its bytes.
pub bit_of_in_range :
    (bf : BloomFilter) (h1 h2 i : ℕ) → IsValid bf → bit_of bf h1 h2 i / 8 < length bf.bits
unfolding bit_of
bit_of_in_range bf h1 h2 i v = omega (arith, v.room, mod-lt ((h1 + i * h2 % 2 ^ 64) % 2 ^ 64) v.pos)

-- The bit is set.
abbrev pub Marked : BloomFilter → ℕ → Type 0
Marked bf bit =
    (byte : ℕ) × (get_elem? bf.bits (bit / 8) ≡ some byte) × (is_clear byte (bit % 8) ≡ false)

-- The filter after a bit is set.
abbrev mark : BloomFilter → ℕ → BloomFilter
mark bf bit = record bf {
  bits = set bf.bits (bit / 8) (set_bit (get_or bf.bits (bit / 8) 0) (bit % 8));
}

mark_byte :
    (bf : BloomFilter) (bit : ℕ)
    → IsValid bf
    → bit / 8 < length bf.bits
    → (x : ℕ) × (get_elem? bf.bits (bit / 8) ≡ some x)
      × (get_or bf.bits (bit / 8) 0 ≡ x)
      × (x < 256)
mark_byte bf bit v h =
    let (x, e) = get_elem?-in_range bf.bits (bit / 8) h in
    (
      x,
      e,
      get_or-of_get_elem? bf.bits (bit / 8) 0 e,
      All-get_elem? IsByte bf.bits (bit / 8) v.bytes e,
    )

mark-IsValid :
    (bf : BloomFilter) (bit : ℕ) → IsValid bf → bit / 8 < length bf.bits → IsValid (mark bf bit)
mark-IsValid bf bit v h =
    let (x, e, d, lt) = mark_byte bf bit v h in
    record {
      pos = v.pos;
      room = omega (
        arith,
        v.room,
        length-set bf.bits (bit / 8) (set_bit (get_or bf.bits (bit / 8) 0) (bit % 8)),
      );
      bytes =
          All-set IsByte bf.bits (bit / 8) _ (rw d (set_bit-IsByte x (bit % 8) lt (omega arith)))
            v.bytes;
    }

mark-Marked :
    (bf : BloomFilter) (bit : ℕ) → IsValid bf → bit / 8 < length bf.bits → Marked (mark bf bit) bit
mark-Marked bf bit v h =
    let (x, e, d, lt) = mark_byte bf bit v h in
    (
      _,
      get_elem?-set_self bf.bits (bit / 8) _ h,
      rw d (is_clear-set_bit x (bit % 8) lt (omega arith)),
    )

mark-Marked_keep :
    (bf : BloomFilter) (bit other : ℕ)
    → IsValid bf
    → bit / 8 < length bf.bits
    → Marked bf other
    → Marked (mark bf bit) other
mark-Marked_keep bf bit other v h (byte, found, set_) = elim (ℕ_discrete (bit / 8) (other / 8)) [
  | yes same ↦
      let (x, e, d, lt) = mark_byte bf bit v h in
      (
        set_bit (get_or bf.bits (bit / 8) 0) (bit % 8),
        subst
            (λ k.
              get_elem? (mark bf bit).bits k
              ≡ some (set_bit (get_or bf.bits (bit / 8) 0) (bit % 8)))
            same (get_elem?-set_self bf.bits (bit / 8) _ h),
        rw d (
            is_clear-set_bit_keep x (bit % 8) (other % 8) lt (omega arith) (omega arith) (
              subst (λ y. is_clear y (other % 8) ≡ false)
                (some_inj (sym found ∙ ap (λ k. get_elem? bf.bits k) (sym same) ∙ e)) set_)),
      )
  | no different ↦ (byte, get_elem?-set_ne bf.bits _ different ∙ found, set_)
]

-- The rounds of `add` from `i` on keep the filter valid, change its bits only, keep every bit that
-- is set, and set the bits of their own.
pub record Adds (n i h1 h2 : ℕ) (bf : BloomFilter) : Type 0 where
  pub valid : IsValid (add_loop n i h1 h2 bf)
  pub num_bits : (add_loop n i h1 h2 bf).num_bits ≡ bf.num_bits
  pub num_hashes : (add_loop n i h1 h2 bf).num_hashes ≡ bf.num_hashes
  pub size : length (add_loop n i h1 h2 bf).bits ≡ length bf.bits
  pub keeps : (bit : ℕ) → Marked bf bit → Marked (add_loop n i h1 h2 bf) bit
  pub marks : (j : ℕ) → i ≤ j → j < i + n → Marked (add_loop n i h1 h2 bf) (bit_of bf h1 h2 j)

pub add_loop-Adds : (n i h1 h2 : ℕ) (bf : BloomFilter) → IsValid bf → Adds n i h1 h2 bf
unfolding add_loop
add_loop-Adds zero i h1 h2 bf v = record {
  valid = v;
  num_bits = refl;
  num_hashes = refl;
  size = refl;
  keeps = λ bit m. m;
  marks = λ j lo hi. absurd (omega arith);
}
add_loop-Adds (suc n) i h1 h2 bf v =
    let bit = bit_of bf h1 h2 i in
    let inside = bit_of_in_range bf h1 h2 i v in
    let rest = add_loop-Adds n (i + 1) h1 h2 (mark bf bit) (mark-IsValid bf bit v inside) in
    record {
      valid = rest.valid;
      num_bits = rest.num_bits;
      num_hashes = rest.num_hashes;
      size =
          rest.size ∙ length-set bf.bits (bit / 8) (set_bit (get_or bf.bits (bit / 8) 0) (bit % 8));
      keeps = λ other m. rest.keeps other (mark-Marked_keep bf bit other v inside m);
      marks = λ j lo hi. elim (ℕ_discrete i j) [
        | yes same ↦
            subst (λ k. Marked (add_loop n (i + 1) h1 h2 (mark bf bit)) (bit_of bf h1 h2 k)) same
              (rest.keeps bit (mark-Marked bf bit v inside))
        | no different ↦ rest.marks j (omega arith) (omega arith)
      ];
    }

-- The rounds of `might_contain` from `i` on pass exactly if all their bits are set.
pub might_loop-Marked :
    (n i h1 h2 : ℕ) (bf : BloomFilter)
    → 0 < bf.num_bits
    → ((j : ℕ) → i ≤ j → j < i + n → Marked bf (bit_of bf h1 h2 j))
    → might_loop n i h1 h2 bf ≡ ok true
unfolding might_loop
might_loop-Marked zero i h1 h2 bf pos m = refl
might_loop-Marked (suc n) i h1 h2 bf pos m =
    let (byte, found, set_) = m i (omega arith) (omega arith) in
    ground (
      arith,
      found,
      set_,
      might_loop-Marked n (i + 1) h1 h2 bf pos (λ j lo hi. m j (omega arith) (omega arith)),
    )

might_loop_head :
    (n i h1 h2 : ℕ) (bf : BloomFilter)
    → might_loop (suc n) i h1 h2 bf ≡ ok true
    → Marked bf (bit_of bf h1 h2 i) × (might_loop n (i + 1) h1 h2 bf ≡ ok true)
unfolding might_loop
might_loop_head n i h1 h2 bf e = ground arith

pub Marked-might_loop :
    (n i h1 h2 : ℕ) (bf : BloomFilter)
    → might_loop n i h1 h2 bf ≡ ok true
    → (j : ℕ) → i ≤ j
    → j < i + n
    → Marked bf (bit_of bf h1 h2 j)
Marked-might_loop zero i h1 h2 bf e j lo hi = absurd (omega arith)
Marked-might_loop (suc n) i h1 h2 bf e j lo hi =
    let (here, rest) = might_loop_head n i h1 h2 bf e in
    elim (ℕ_discrete i j) [
      | yes same ↦ subst (λ k. Marked bf (bit_of bf h1 h2 k)) same here
      | no different ↦ Marked-might_loop n (i + 1) h1 h2 bf rest j (omega arith) (omega arith)
    ]
