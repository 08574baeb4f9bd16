-- ===== src/Sstable/IndexBack.antt =====
-- The index block of a table parses back.
use sift_core.Sstable.{encode_index}
use sift_core.Sstable.Table.{slice, next_index_entry, parse_index, cons_result}
use sift_core.Reader.{Reader, ◌>>=◌}
use sift_core.Bytes.{
  Bytes, IsU32, IsU64, u32_le, u64_le, length-u32_le, length-u64_le, from_le-u32_le, from_le-u64_le,
}
use sift_core.Prelude.{
  ℕ, zero, suc, ◌≤◌, ◌<◌, ◌≡◌, refl, sym, ap, ◌∙◌, List, [], ◌∷◌, ◌++◌, arith, le→leb, length, All,
  length-append, take-append, drop-append,
}
use sift_core.Result.{ok}

-- An index entry fits its fields.
abbrev pub IndexFits : Bytes × ℕ → Type 0
IndexFits (key, off) = IsU32 (length key) × IsU64 off

slice-append : (n : ℕ) (xs ys : Bytes) → length xs ≡ n → slice n (xs ++ ys) ≡ ok (xs, ys)
unfolding slice
slice-append n xs ys h =
    rw (le→leb n (length (xs ++ ys)) (omega (arith, length-append xs ys)))
      (rw (take-append xs ys n h, drop-append xs ys n h))

slice_step {ℓ} :
    {A : Type ℓ} (n : ℕ) (xs ys : Bytes) (f : Bytes → Reader A)
    → length xs ≡ n
    → (slice n >>= f) (xs ++ ys) ≡ f xs ys
slice_step n xs ys f h = rw (◌>>=◌, slice-append n xs ys h)

next_index_entry-encode :
    (key : Bytes) (off : ℕ) (rest : Bytes)
    → IsU32 (length key)
    → IsU64 off
    → next_index_entry (u32_le (length key) ++ (key ++ (u64_le off ++ rest)))
      ≡ ok ((key, off), rest)
unfolding next_index_entry
next_index_entry-encode key off rest hk ho =
    slice_step 4 (u32_le (length key)) _ _ (length-u32_le _)
    ∙ slice_step _ key _ _ (sym (from_le-u32_le _ hk))
    ∙ slice_step 8 (u64_le off) rest _ (length-u64_le _)
    ∙ rw (from_le-u64_le off ho)

parse_index_step :
    (fuel : ℕ) (b : Bytes) (entry : Bytes × ℕ) (rest : Bytes)
    → 0 < length b
    → next_index_entry b ≡ ok (entry, rest)
    → parse_index (suc fuel) b ≡ cons_result entry (parse_index fuel rest)
unfolding parse_index
parse_index_step fuel [] entry rest h e = absurd (omega arith)
parse_index_step fuel (x ∷ b) entry rest h e = rw (parse_index, e)

-- The index block parses back.
pub parse_index-encode_index :
    (index : List (Bytes × ℕ)) (fuel : ℕ)
    → All IndexFits index
    → length (encode_index index) ≤ fuel
    → parse_index fuel (encode_index index) ≡ ok index
unfolding encode_index
parse_index-encode_index [] fuel fits h = unfold parse_index in refl
parse_index-encode_index ((key, off) ∷ index) zero fits h = absurd (
    omega (
      arith,
      length-append (u32_le (length key)) (key ++ (u64_le off ++ encode_index index)),
      length-u32_le (length key),
    ))
parse_index-encode_index ((key, off) ∷ index) (suc fuel) fits h =
    parse_index_step fuel _ (key, off) (encode_index index)
      (omega (
        arith,
        length-append (u32_le (length key)) (key ++ (u64_le off ++ encode_index index)),
        length-u32_le (length key),
      ))
      (next_index_entry-encode key off (encode_index index) fits.0.0 fits.0.1)
    ∙ ap (cons_result (key, off)) (
        parse_index-encode_index index fuel fits.1 (
          omega (
            arith,
            length-append (u32_le (length key)) (key ++ (u64_le off ++ encode_index index)),
            length-u32_le (length key),
            length-append key (u64_le off ++ encode_index index),
            length-append (u64_le off) (encode_index index),
            length-u64_le off,
          )))
