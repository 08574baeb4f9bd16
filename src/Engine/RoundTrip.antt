-- ===== src/Engine/RoundTrip.antt =====
-- A stored document reads back.
use sift_core.Floats.{Floats, Documented}
use sift_core.Fallible.{done, bind_done}
use sift_core.Text.{Text, Unicode}
use sift_core.Engine.Record.{
  Message, read_u32, read_front, floats_le, floats_of, encode_record, decode_record, text_of,
}
use sift_core.Bytes.{
  Bytes, IsU32, le_bytes, from_le, u32_le, length-le_bytes, length-u32_le, from_le-u32_le,
}
use sift_core.Prelude.{
  ℕ, ◌*◌, ◌≡◌, refl, false, some, List, [], ◌∷◌, ◌++◌, arith, ltb, length, length-append,
  take-append, drop-append, ap, ◌∙◌, append_assoc, sym, append-nil,
}

-- What the documentation of `str` says: its bytes are valid UTF-8 and give it back.
pub record Encodes (u : Unicode) : Type 0 where
  pub from_utf8-as_bytes : (t : Text) → u.from_utf8 (u.as_bytes t) ≡ some t

pub read_front-append :
    (xs rest : Bytes) (n : ℕ) (m : Message)
    → length xs ≡ n
    → read_front n m (xs ++ rest) ≡ done (xs, rest)
unfolding read_front
read_front-append xs rest n m e =
    let long : ltb (length (xs ++ rest)) n ≡ false = ground (arith, length-append xs rest, e) in
    rw (long, take-append xs rest n e, drop-append xs rest n e) refl

pub read_u32-append :
    (n : ℕ) (rest : Bytes) → IsU32 n → read_u32 (u32_le n ++ rest) ≡ done (n, rest)
unfolding read_u32
read_u32-append n rest word =
    let long : ltb (length (u32_le n ++ rest)) 4 ≡ false =
      ground (arith, length-append (u32_le n) rest, length-u32_le n) in
    rw (
      long,
      take-append (u32_le n) rest 4 (length-u32_le n),
      drop-append (u32_le n) rest 4 (length-u32_le n),
      from_le-u32_le n word,
    )

module _ (f : Floats) (u : Unicode) (doc : Documented f) where
  open f use {F32, to_bits, from_bits}

  pub length-floats_le : (xs : List F32) → length (floats_le f u xs) ≡ length xs * 4
  unfolding floats_le
  length-floats_le [] = omega arith
  length-floats_le (x ∷ xs) = omega (
    arith,
    length-append (le_bytes 4 (to_bits x)) (floats_le f u xs),
    length-floats_le xs,
    length-le_bytes 4 (to_bits x),
  )

  from_le-word : (v : ℕ) → IsU32 v → from_le (le_bytes 4 v) ≡ v
  unfolding from_le le_bytes
  from_le-word v h = omega arith

  floats_of-floats_le : (xs : List F32) → floats_of f u (length xs) (floats_le f u xs) ≡ xs
  unfolding floats_of floats_le
  floats_of-floats_le [] = refl
  floats_of-floats_le (x ∷ xs) =
      let word = le_bytes 4 (to_bits x) in
      let four = length-le_bytes 4 (to_bits x) in
      rw (
        take-append word (floats_le f u xs) 4 four,
        drop-append word (floats_le f u xs) 4 four,
        from_le-word (to_bits x) (doc.bits_word x),
        doc.from_bits-to_bits x,
        floats_of-floats_le xs,
      )

  pub text_of-as_bytes : Encodes u → (t : Text) → text_of f u (u.as_bytes t) ≡ done t
  unfolding text_of
  text_of-as_bytes enc t = ground (arith, enc.from_utf8-as_bytes t)

  -- A document whose lengths fit 32 bits is read back from its record, whatever stands behind it.
  pub decode_record-encode_record :
      (enc : Encodes u) (vec : List F32) (text : Text) (blob tail : Bytes)
      → IsU32 (length vec)
      → IsU32 (length (u.as_bytes text))
      → IsU32 (length blob)
      → decode_record f u (encode_record f u vec text blob ++ tail) ≡ done (vec, text, blob)
  unfolding decode_record encode_record
  decode_record-encode_record enc vec text blob tail vec_fits text_fits blob_fits =
      let text_bytes = u.as_bytes text in
      let rest5 = u32_le (length blob) ++ (blob ++ tail) in
      let rest3 = u32_le (length text_bytes) ++ (text_bytes ++ rest5) in
      let whole : encode_record f u vec text blob ++ tail
          ≡ u32_le (length vec) ++ (floats_le f u vec ++ rest3) =
        simp append_assoc refl in
      ap (decode_record f u) whole
      ∙ bind_done _ (read_u32-append (length vec) (floats_le f u vec ++ rest3) vec_fits)
      ∙ bind_done _ (read_front-append (floats_le f u vec) rest3 _ _ (length-floats_le vec))
      ∙ bind_done _ (read_u32-append (length text_bytes) (text_bytes ++ rest5) text_fits)
      ∙ bind_done _ (read_front-append text_bytes rest5 _ _ refl)
      ∙ bind_done _ (text_of-as_bytes enc text)
      ∙ bind_done _ (read_u32-append (length blob) (blob ++ tail) blob_fits)
      ∙ bind_done _ (read_front-append blob tail _ _ refl)
      ∙ ap (λ xs. done (xs, text, blob)) (floats_of-floats_le vec)

  -- The record itself.
  pub decode_record-stored :
      (enc : Encodes u) (vec : List F32) (text : Text) (blob : Bytes)
      → IsU32 (length vec)
      → IsU32 (length (u.as_bytes text))
      → IsU32 (length blob)
      → decode_record f u (encode_record f u vec text blob) ≡ done (vec, text, blob)
  decode_record-stored enc vec text blob vec_fits text_fits blob_fits =
      ap (decode_record f u) (sym (append-nil (encode_record f u vec text blob)))
      ∙ decode_record-encode_record enc vec text blob [] vec_fits text_fits blob_fits
