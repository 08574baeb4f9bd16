-- ===== src/Engine/Cut.antt =====
-- A record that is cut is refused.
use sift_core.Floats.{Floats, Documented}
use sift_core.Fallible.{Fallible, done, failed, ◌>>=◌, bind_done}
use sift_core.Text.{Text, Unicode}
use sift_core.Engine.Record.{
  EngineError, Message, corrupt, truncated_length, read_u32, read_front, floats_le, floats_of,
  text_of, encode_record, decode_record, truncated_blob,
}
use sift_core.Engine.RoundTrip.{
  Encodes, read_front-append, read_u32-append, length-floats_le, text_of-as_bytes,
}
use sift_core.Bytes.{Bytes, IsU32, u32_le, length-u32_le}
use sift_core.Prelude.{
  ℕ, zero, suc, ◌-◌, ◌≤◌, ◌<◌, ◌≡◌, refl, subst, sym, ap, ◌∙◌, inl, inr, List, [], ◌∷◌, ◌++◌, arith,
  ltb, Bool-cases, length, take, length-append, length-take,
}

-- The run ends in a corrupt record.
abbrev pub Refused {ℓ} : {A : Type ℓ} → Fallible EngineError A → Type ℓ
Refused r = (m : Message) × (r ≡ failed (corrupt m))

bind-Refused {ℓ κ} :
    {A : Type ℓ} {B : Type κ} {r : Fallible EngineError A} (k : A → Fallible EngineError B)
    → Refused r
    → Refused (r >>= k)
bind-Refused k (m, e) = (m, ap (λ t. t >>= k) e)

take_within {ℓ} :
    {A : Type ℓ} (n : ℕ) (xs ys : List A) → n ≤ length xs → take n (xs ++ ys) ≡ take n xs
take_within zero xs ys h = refl
take_within (suc n) [] ys h = absurd (omega (arith, h))
take_within (suc n) (x ∷ xs) ys h = ap (λ t. x ∷ t) (take_within n xs ys (omega (arith, h)))

take_beyond {ℓ} :
    {A : Type ℓ} (n : ℕ) (xs ys : List A)
    → length xs ≤ n
    → take n (xs ++ ys) ≡ xs ++ take (n - length xs) ys
take_beyond n [] ys h = ap (λ m. take m ys) (omega arith)
take_beyond zero (x ∷ xs) ys h = absurd (omega (arith, h))
take_beyond (suc n) (x ∷ xs) ys h =
    ap (λ t. x ∷ t)
      (take_beyond n xs ys (omega (arith, h)) ∙ ap (λ m. xs ++ take m ys) (omega arith))

-- A field of a cut record: the cut is inside the field, or behind it.
cut_field {ℓ κ} :
    {A : Type ℓ} {B : Type κ} (read : Bytes → Fallible EngineError (A × Bytes)) (xs ys : Bytes)
    (a : A) (n : ℕ) (k : A × Bytes → Fallible EngineError B)
    → ((cut : Bytes) → length cut < length xs → Refused (read cut))
    → ((rest : Bytes) → read (xs ++ rest) ≡ done (a, rest))
    → ((m : ℕ) → m < length ys → Refused (k (a, take m ys)))
    → n < length (xs ++ ys)
    → Refused (read (take n (xs ++ ys)) >>= k)
cut_field read xs ys a n k short whole behind cut = elim (Bool-cases (ltb n (length xs))) [
  | inl inside ↦
      let shorter : length (take n (xs ++ ys)) < length xs =
        ground (arith, length-take n (xs ++ ys), inside) in
      bind-Refused k (short (take n (xs ++ ys)) shorter)
  | inr outside ↦
      let past : length xs ≤ n = ground (arith, outside) in
      let same =
        ap (λ t. read t >>= k) (take_beyond n xs ys past)
        ∙ bind_done k (whole (take (n - length xs) ys)) in
      subst Refused (sym same)
        (behind (n - length xs) (omega (arith, cut, past, length-append xs ys)))
]

short_u32 : (cut : Bytes) → length cut < 4 → Refused (read_u32 cut)
unfolding read_u32
short_u32 cut h = (truncated_length, ground (arith, h))

short_front : (n : ℕ) (m : Message) (cut : Bytes) → length cut < n → Refused (read_front n m cut)
unfolding read_front
short_front n m cut h = (m, ground (arith, h))

module _ (f : Floats) (u : Unicode) (doc : Documented f) (enc : Encodes u) where
  open f use {F32}

  -- The last part of `decode_record`, behind the text.
  decode_blob : List F32 → Text → Bytes → Fallible EngineError (List F32 × Text × Bytes)
  decode_blob vec text bytes = do
    (blob_len, r5) ← read_u32 bytes
    (blob, r6) ← read_front blob_len truncated_blob r5
    done (vec, text, blob)

  cut_blob :
      (vec : List F32) (text : Text) (blob : Bytes) (vec_bytes : Bytes) (n : ℕ)
      → IsU32 (length blob)
      → n < length (u32_le (length blob) ++ blob)
      → Refused (
          text_of f u (u.as_bytes text) >>= λ t.
          decode_blob
            (floats_of f u (length vec) vec_bytes)
            t
            (take n (u32_le (length blob) ++ blob)))
  unfolding decode_blob
  cut_blob vec text blob vec_bytes n fits cut =
      subst Refused (sym (bind_done _ (text_of-as_bytes f u doc enc text))) (
        cut_field read_u32 (u32_le (length blob)) blob (length blob) n _
          (λ c h. short_u32 c (ground (arith, h, length-u32_le (length blob))))
          (λ rest. read_u32-append (length blob) rest fits)
          (λ m h. bind-Refused _ (
            short_front (length blob) truncated_blob (take m blob)
              (ground (arith, length-take m blob, h))))
          cut)

  -- Decoding a front of a record that is not all of it ends in a corrupt record, whatever the cut,
  -- where the lengths fit 32 bits.
  pub decode_record_cut :
      (vec : List F32) (text : Text) (blob : Bytes) (n : ℕ)
      → IsU32 (length vec)
      → IsU32 (length (u.as_bytes text))
      → IsU32 (length blob)
      → n < length (encode_record f u vec text blob)
      → Refused (decode_record f u (take n (encode_record f u vec text blob)))
  unfolding decode_record encode_record decode_blob
  decode_record_cut vec text blob n vec_fits text_fits blob_fits cut =
      let text_bytes = u.as_bytes text in
      cut_field read_u32 (u32_le (length vec)) _ (length vec) n _
        (λ c h. short_u32 c (ground (arith, h, length-u32_le (length vec))))
        (λ rest. read_u32-append (length vec) rest vec_fits)
        (λ n1.
          cut_field (read_front _ _) (floats_le f u vec) _ (floats_le f u vec) n1 _
            (λ c h. short_front _ _ c (ground (arith, h, length-floats_le f u doc vec)))
            (λ rest. read_front-append (floats_le f u vec) rest _ _ (length-floats_le f u doc vec))
            (λ n2.
              cut_field read_u32 (u32_le (length text_bytes)) _ (length text_bytes) n2 _
                (λ c h. short_u32 c (ground (arith, h, length-u32_le (length text_bytes))))
                (λ rest. read_u32-append (length text_bytes) rest text_fits)
                (λ n3.
                  cut_field (read_front _ _) text_bytes _ text_bytes n3 _
                    (λ c h. short_front _ _ c h)
                    (λ rest. read_front-append text_bytes rest _ _ refl)
                    (λ n4 h4. cut_blob vec text blob (floats_le f u vec) n4 blob_fits h4))))
        cut
