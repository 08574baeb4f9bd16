-- ===== src/Reader.antt =====
-- Sequential reads from a file (`BufReader`): a reader returns its value and the input it leaves.
pub mod Parses
use sift_core.Result
use sift_core.Result.{Result, ok, err, panicked, IoError, unexpected_eof}
use sift_core.Bytes.{Bytes}
use sift_core.Prelude.{
  ℕ, ◌<◌, ◌≡◌, ◌++◌, arith, leb, if◌then◌else◌, le→leb, length, take, drop, length-append,
  take-append, drop-append,
}

abbrev pub Reader {ℓ} : Type ℓ → Type ℓ
Reader A = Bytes → Result (A × Bytes)

infixl 5 ◌>>=◌
abbrev pub ◌>>=◌ {ℓ κ} : {A : Type ℓ} {B : Type κ} → Reader A → (A → Reader B) → Reader B
◌>>=◌ m f input = elim (m input) [ ok (a, rest) ↦ f a rest | err e ↦ err e | panicked ↦ panicked ]

abbrev pub pure {ℓ} : {A : Type ℓ} → A → Reader A
pure a input = ok (a, input)

abbrev pub raise {ℓ} : {A : Type ℓ} → IoError → Reader A
raise e input = err e

-- `reader.read_exact(&mut buf)` with a buffer of `n` bytes.
unfoldable pub read_exact : ℕ → Reader Bytes
read_exact n input =
    if leb n (length input) then ok (take n input, drop n input) else err unexpected_eof

-- An exact read takes a front of its length off.
pub read_exact-append :
    (n : ℕ) (xs ys : Bytes) → length xs ≡ n → read_exact n (xs ++ ys) ≡ ok (xs, ys)
unfolding read_exact
read_exact-append n xs ys h =
    rw (le→leb n (length (xs ++ ys)) (omega (arith, length-append xs ys)))
      (rw (take-append xs ys n h, drop-append xs ys n h))

-- A read beyond the end of the input fails.
pub read_exact_short : (n : ℕ) (xs : Bytes) → length xs < n → read_exact n xs ≡ err unexpected_eof
unfolding read_exact
read_exact_short n xs h = ground arith

-- A reader that begins with an exact read goes on behind it.
pub read_step {ℓ} :
    {A : Type ℓ} (n : ℕ) (xs ys : Bytes) (f : Bytes → Reader A)
    → length xs ≡ n
    → (read_exact n >>= f) (xs ++ ys) ≡ f xs ys
read_step n xs ys f h = rw (◌>>=◌, read_exact-append n xs ys h)
