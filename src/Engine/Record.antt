-- ===== src/Engine/Record.antt =====
-- src/engine.rs: the errors, the record of a stored document and the bytes of its id.
use sift_core.Floats.{Floats}
use sift_core.Fallible.{Fallible, done, failed, ◌>>=◌}
use sift_core.Vector.{VectorError}
use sift_core.Text.{Text, Unicode, b}
use sift_core.Bytes.{Bytes, IsU64, le_bytes, from_le, u32_le}
use sift_core.Prelude.{
  ℕ, zero, suc, ◌+◌, ◌*◌, ◌/◌, ◌%◌, ◌^◌, ◌≡◌, none, some, List, [], ◌∷◌, ◌++◌, arith, ltb,
  if◌then◌else◌, length, take, drop, refl,
}
use sift_core.Result.{IoError}

-- What `EngineError::Corrupt` says.
pub data Message : Type 0 where
  truncated_length truncated_vector truncated_text not_utf8 truncated_blob : Message

pub data EngineError : Type 0 where
  io : IoError → EngineError
  vector : VectorError → EngineError
  corrupt : Message → EngineError

-- `id.to_be_bytes()` at a width of `n` bytes.
unfoldable pub be_bytes : ℕ → ℕ → Bytes
be_bytes zero v = []
be_bytes (suc n) v = v / 256 ^ n % 256 ∷ be_bytes n v

unfoldable pub u64_be : ℕ → Bytes
unfolding be_bytes
u64_be id = be_bytes 8 id

-- `u64::from_be_bytes`.
unfoldable pub from_be : ℕ → Bytes → ℕ
from_be n [] = n
from_be n (b ∷ bs) = from_be (n * 256 + b) bs

pub length-u64_be : (id : ℕ) → length (u64_be id) ≡ 8
unfolding u64_be
length-u64_be id = refl

-- An id comes back from its key.
pub from_be-u64_be : (id : ℕ) → IsU64 id → from_be 0 (u64_be id) ≡ id
unfolding from_be u64_be
from_be-u64_be id h = omega arith

-- `read_u32`: the cursor is what stands behind it.
unfoldable pub read_u32 : Bytes → Fallible EngineError (ℕ × Bytes)
read_u32 bytes =
    if ltb (length bytes) 4
    then failed (corrupt truncated_length)
    else done (from_le (take 4 bytes), drop 4 bytes)

-- `bytes[c..c + n]` behind a check of its length.
unfoldable pub read_front : ℕ → Message → Bytes → Fallible EngineError (Bytes × Bytes)
read_front n message bytes =
    if ltb (length bytes) n then failed (corrupt message) else done (take n bytes, drop n bytes)

module _ (f : Floats) (u : Unicode) where
  open f use {F32, to_bits, from_bits}

  -- `buf.extend_from_slice(&f.to_le_bytes())` for every coordinate.
  unfoldable pub floats_le : List F32 → Bytes
  floats_le [] = []
  floats_le (x ∷ xs) = le_bytes 4 (to_bits x) ++ floats_le xs

  unfoldable pub encode_record : List F32 → Text → Bytes → Bytes
  unfolding floats_le
  encode_record vec text blob =
      let text_bytes = u.as_bytes text in
      u32_le (length vec)
      ++ (floats_le vec
          ++ (u32_le (length text_bytes) ++ (text_bytes ++ (u32_le (length blob) ++ blob))))

  -- `for _ in 0..vec_len { vector.push(f32::from_le_bytes(...)) }`.
  unfoldable pub floats_of : ℕ → Bytes → List F32
  floats_of zero bytes = []
  floats_of (suc n) bytes = from_bits (from_le (take 4 bytes)) ∷ floats_of n (drop 4 bytes)

  -- `String::from_utf8`.
  unfoldable pub text_of : Bytes → Fallible EngineError Text
  text_of bytes = elim (u.from_utf8 bytes) [
    | none ↦ failed (corrupt not_utf8)
    | some text ↦ done text
  ]

  unfoldable pub decode_record : Bytes → Fallible EngineError (List F32 × Text × Bytes)
  unfolding read_u32 read_front floats_of text_of
  decode_record bytes = do
    (vec_len, r1) ← read_u32 bytes
    (vec_bytes, r2) ← read_front (vec_len * 4) truncated_vector r1
    (text_len, r3) ← read_u32 r2
    (text_bytes, r4) ← read_front text_len truncated_text r3
    text ← text_of text_bytes
    (blob_len, r5) ← read_u32 r4
    (blob, r6) ← read_front blob_len truncated_blob r5
    done (floats_of vec_len vec_bytes, text, blob)
