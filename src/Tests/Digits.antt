-- ===== src/Tests/Digits.antt =====
-- Small stand-ins for `f32` and for the tables of Unicode, so that searches run in the tests.
use sift_core.Floats.{Floats, Documented, cmp_ranks}
use sift_core.Text.{Unicode}
use sift_core.Engine.RoundTrip.{Encodes}
use sift_core.Bytes.{IsU32}
use sift_core.Prelude.{
  ℕ, ◌+◌, ◌-◌, ◌*◌, ◌/◌, min, max, ◌≡◌, refl, ◌&&◌, Option, none, some, map, arith, ltb,
  if◌then◌else◌, [], ◌∷◌, get_or,
}

-- Seven numbers and NaN.
pub data Digit : Type 0 where
  digit_0 digit_1 digit_2 digit_3 digit_4 digit_5 digit_6 nan : Digit

abbrev pub value : Digit → ℕ
value digit_0 = 0
value digit_1 = 1
value digit_2 = 2
value digit_3 = 3
value digit_4 = 4
value digit_5 = 5
value digit_6 = 6
value nan = 7

abbrev pub digit : ℕ → Digit
digit n = get_or (digit_0 ∷ digit_1 ∷ digit_2 ∷ digit_3 ∷ digit_4 ∷ digit_5 ∷ digit_6 ∷ []) n nan

-- The largest number stands for all above it.
abbrev pub capped : ℕ → Digit
capped n = digit (min n 6)

abbrev pub digit_rank : Digit → Option ℕ
digit_rank nan = none
digit_rank d = some (value d)

abbrev pub digits : Floats
digits = record {
  F32 = Digit;
  add = λ a b. capped (value a + value b);
  sub = λ a b. capped (value a - value b);
  mul = λ a b. capped (value a * value b);
  div = λ a b. capped (value a / value b);
  neg = λ a. capped (6 - value a);
  sqrt = λ a. a;
  ln = λ a. a;
  fmax = λ a b. capped (max (value a) (value b));
  partial_cmp = λ a b. cmp_ranks (digit_rank a) (digit_rank b);
  literal = λ n d. capped (n / d);
  to_bits = value;
  from_bits = digit;
}

pub digit_bits : (x : Digit) → IsU32 (value x)
digit_bits digit_0 = omega arith
digit_bits digit_1 = omega arith
digit_bits digit_2 = omega arith
digit_bits digit_3 = omega arith
digit_bits digit_4 = omega arith
digit_bits digit_5 = omega arith
digit_bits digit_6 = omega arith
digit_bits nan = omega arith

pub digit-value : (x : Digit) → digit (value x) ≡ x
digit-value digit_0 = refl
digit-value digit_1 = refl
digit-value digit_2 = refl
digit-value digit_3 = refl
digit-value digit_4 = refl
digit-value digit_5 = refl
digit-value digit_6 = refl
digit-value nan = refl

abbrev pub digits_documented : Documented digits
digits_documented = record {
  rank = digit_rank;
  ordered = λ x y. refl;
  bits_word = digit_bits;
  from_bits-to_bits = digit-value;
}

-- Everything above the space is a letter, and a text is its own bytes.
abbrev pub ascii : Unicode
ascii = record {
  is_alphanumeric = λ c. ltb 32 c;
  to_lowercase = λ t. map (λ c. if ltb 64 c && ltb c 91 then c + 32 else c) t;
  as_bytes = λ t. t;
  from_utf8 = λ b. some b;
}

pub ascii-Encodes : Encodes ascii
ascii-Encodes = record { from_utf8-as_bytes = λ t. refl }
