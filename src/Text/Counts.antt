-- ===== src/Text/Counts.antt =====
-- The frequencies that `index_document` counts.
use sift_core.HashMap
use sift_core.HashMap.{HashMap, bytes_key, nat_key, contains}
use sift_core.HashMap.Laws.{Distinct, get-update, update-Distinct, held}
use sift_core.Text.{Text, term_freqs}
use sift_core.Text.Docs.{occurrences, positive}
use sift_core.Bytes.{bytes_eq}
use sift_core.Prelude.{
  ℕ, zero, suc, ◌+◌, ◌%◌, ◌^◌, ◌<◌, ◌≡◌, refl, ap, ◌∙◌, List, [], ◌∷◌, arith, if◌then◌else◌, length,
  inl, inr, Bool-cases, subst, sym, some,
}
use sift_core.Bytes.Order.{eq_of_bytes_eq}

pub term_freqs-Distinct :
    (ts : List Text) (freqs : HashMap Text ℕ) → Distinct freqs → Distinct (term_freqs ts freqs)
unfolding term_freqs
term_freqs-Distinct [] freqs d = d
term_freqs-Distinct (t ∷ ts) freqs d =
    term_freqs-Distinct ts (HashMap.update t 0 (λ n. (n + 1) % 2 ^ 32) freqs)
      (update-Distinct t 0 (λ n. (n + 1) % 2 ^ 32) freqs d)

-- One more.
abbrev one_more : Text → (Text → ℕ) → Text → ℕ
one_more x n t = if bytes_eq x t then n t + 1 else n t

held-positive : (n : ℕ) → held 0 (positive n) ≡ n
unfolding positive
held-positive zero = refl
held-positive (suc n) = refl

positive_more : (n : ℕ) → positive (n + 1) ≡ some (n + 1)
unfolding positive
positive_more n =
    let one_up : suc n ≡ n + 1 = omega arith in subst (λ m. positive m ≡ some m) one_up refl

one_more-update :
    (x : Text) (n : Text → ℕ) (freqs : HashMap Text ℕ)
    → ((t : Text) → HashMap.get t freqs ≡ positive (n t))
    → n x + 1 < 2 ^ 32
    → (t : Text)
    → HashMap.get t (HashMap.update x 0 (λ c. (c + 1) % 2 ^ 32) freqs) ≡ positive (one_more x n t)
one_more-update x n freqs is small t =
    let count : (held 0 (HashMap.get x freqs) + 1) % 2 ^ 32 ≡ n x + 1 =
      ap (λ o. (held 0 o + 1) % 2 ^ 32) (is x)
      ∙ ap (λ c. (c + 1) % 2 ^ 32) (held-positive (n x))
      ∙ omega (arith, small) in
    get-update x t 0 (λ c. (c + 1) % 2 ^ 32) freqs ∙ elim (Bool-cases (bytes_eq x t)) [
      | inl here ↦
          rw (here, count)
            (ap (λ s. some (n s + 1)) (eq_of_bytes_eq x t here) ∙ sym (positive_more (n t)))
      | inr other ↦ rw other (is t)
    ]

get-term_freqs :
    (ts : List Text) (n : Text → ℕ) (freqs : HashMap Text ℕ)
    → ((t : Text) → HashMap.get t freqs ≡ positive (n t))
    → ((t : Text) → n t + length ts < 2 ^ 32)
    → (t : Text) → HashMap.get t (term_freqs ts freqs) ≡ positive (n t + occurrences t ts)
unfolding term_freqs occurrences
get-term_freqs [] n freqs is small t = is t ∙ ap positive (omega arith)
get-term_freqs (x ∷ ts) n freqs is small t =
    let again =
      get-term_freqs ts (one_more x n) (HashMap.update x 0 (λ c. (c + 1) % 2 ^ 32) freqs)
        (one_more-update x n freqs is (omega (arith, small x))) (λ s. ground (arith, small s)) t in
    again ∙ ap positive (ground arith)

-- Each token has the number of its occurrences, where no count can overflow.
pub get-term_freqs_of :
    (ts : List Text) (t : Text)
    → length ts < 2 ^ 32
    → HashMap.get t (term_freqs ts []) ≡ positive (occurrences t ts)
unfolding HashMap.get positive
get-term_freqs_of ts t small =
    get-term_freqs ts (λ s. 0) [] (λ s. refl) (λ s. omega (arith, small)) t
    ∙ ap positive (omega arith)
