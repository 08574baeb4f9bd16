-- ===== src/Bits.antt =====
-- Setting one bit of a byte, checked over all bytes.
use sift_core.Prelude.{
  ℕ, zero, suc, ◌^◌, ◌<◌, bit_and, bit_or, ◌≡◌, refl, Bool, true, false, not, ◌||◌, arith, ltb,
  ◌==◌, ltb→lt, if◌then◌else◌,
}

-- Every number under the bound passes the test.
passes : (ℕ → Bool) → ℕ → Bool
passes test zero = true
passes test (suc bound) = let others = passes test bound in if test bound then others else false

at_bound : (test : ℕ → Bool) (bound i : ℕ) → passes test bound ≡ true → i < bound → test i ≡ true
unfolding passes
at_bound test zero i all inside = elim inside [ ]
at_bound test (suc bound) i all inside = ground (arith, at_bound test bound i)

-- `x & (1 << b) == 0`.
abbrev pub is_clear : ℕ → ℕ → Bool
is_clear x b = bit_and x (2 ^ b) == 0

-- `x | (1 << a)`.
abbrev pub set_bit : ℕ → ℕ → ℕ
set_bit x a = bit_or x (2 ^ a)

-- The three laws, for the value `x` of a byte.
abbrev stays : ℕ → Bool
stays x = passes (λ a. ltb (set_bit x a) 256) 8

abbrev sets : ℕ → Bool
sets x = passes (λ a. not (is_clear (set_bit x a) a)) 8

abbrev keeps : ℕ → Bool
keeps x = passes (λ a. passes (λ b. is_clear x b || not (is_clear (set_bit x a) b)) 8) 8

stays_table : passes stays 256 ≡ true
unfolding passes
stays_table = refl

sets_table : passes sets 256 ≡ true
unfolding passes
sets_table = refl

keeps_table : passes keeps 256 ≡ true
unfolding passes
keeps_table = refl

pub set_bit-IsByte : (x a : ℕ) → x < 256 → a < 8 → set_bit x a < 256
set_bit-IsByte x a hx ha = ltb→lt _ 256 (at_bound _ 8 a (at_bound stays 256 x stays_table hx) ha)

pub is_clear-set_bit : (x a : ℕ) → x < 256 → a < 8 → is_clear (set_bit x a) a ≡ false
is_clear-set_bit x a hx ha = ground (
  arith,
  at_bound (λ a. not (is_clear (set_bit x a) a)) 8 a (at_bound sets 256 x sets_table hx) ha,
)

pub is_clear-set_bit_keep :
    (x a b : ℕ) → x < 256 → a < 8 → b < 8 → is_clear x b ≡ false → is_clear (set_bit x a) b ≡ false
is_clear-set_bit_keep x a b hx ha hb h = ground (
  arith,
  at_bound (λ b. is_clear x b || not (is_clear (set_bit x a) b)) 8 b
      (at_bound (λ a. passes (λ b. is_clear x b || not (is_clear (set_bit x a) b)) 8) 8 a
        (at_bound keeps 256 x keeps_table hx) ha)
      hb,
)
