-- ===== src/Floats.antt =====
-- `f32` as src/vector.rs, src/text.rs, src/fusion.rs and src/engine.rs use it: a parameter.
use sift_core.Bytes.{IsU32}
use sift_core.Prelude.{ℕ, compare, Ordering, ◌≡◌, Option, none, some}

pub record Floats : Type 1 where
  pub F32 : Type 0
  pub add : F32 → F32 → F32
  pub sub : F32 → F32 → F32
  pub mul : F32 → F32 → F32
  pub div : F32 → F32 → F32
  pub neg : F32 → F32
  pub sqrt : F32 → F32
  pub ln : F32 → F32
  -- `a.max(b)`.
  pub fmax : F32 → F32 → F32
  pub partial_cmp : F32 → F32 → Option Ordering
  -- The literal `n / d`, and `n as f32` at `d = 1`.
  pub literal : ℕ → ℕ → F32
  pub to_bits : F32 → ℕ
  pub from_bits : ℕ → F32

-- Where a value stands among the values, or nothing for NaN.
abbrev pub cmp_ranks : Option ℕ → Option ℕ → Option Ordering
cmp_ranks none o = none
cmp_ranks (some a) none = none
cmp_ranks (some a) (some b) = some (compare a b)

-- What the documentation of `f32` says: the values but NaN are totally ordered, NaN compares with
-- nothing, and the bits of a value are a 32-bit word that gives the value back.
pub record Documented (f : Floats) : Type 0 where
  pub rank : f.F32 → Option ℕ
  pub ordered : (x y : f.F32) → f.partial_cmp x y ≡ cmp_ranks (rank x) (rank y)
  pub bits_word : (x : f.F32) → IsU32 (f.to_bits x)
  pub from_bits-to_bits : (x : f.F32) → f.from_bits (f.to_bits x) ≡ x
