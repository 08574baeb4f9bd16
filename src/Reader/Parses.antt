-- ===== src/Reader/Parses.antt =====
-- Readers that only look at the bytes they take: more input behind those changes nothing.
use sift_core.Reader.{Reader, ◌>>=◌, pure, raise, read_exact, read_exact-append}
use sift_core.Result.{Result, ok, err, panicked, IoError}
use sift_core.Bytes.{Bytes}
use sift_core.Prelude.{
  ℕ, ◌+◌, ◌≤◌, ◌≡◌, Bool, true, false, [], ◌++◌, arith, if◌then◌else◌, length, take-append-drop,
  length-take, refl, sym, ap, ◌∙◌, append_assoc, length-append,
}

-- A successful read took a front of at least `n` bytes, and reads that front the same before any
-- other input.
pub record Took {ℓ} {A : Type ℓ} (p : Reader A) (n : ℕ) (input : Bytes) (a : A) (rest : Bytes)
    : Type ℓ where
  pub front : Bytes
  pub split : input ≡ front ++ rest
  pub size : n ≤ length front
  pub again : (more : Bytes) → p (front ++ more) ≡ ok (a, more)

pub record Parses {ℓ} {A : Type ℓ} (p : Reader A) (n : ℕ) : Type ℓ where
  pub took : (input : Bytes) (a : A) (rest : Bytes) → p input ≡ ok (a, rest) → Took p n input a rest

read_exact_inv :
    (k : ℕ) (xs a b : Bytes) → read_exact k xs ≡ ok (a, b) → (xs ≡ a ++ b) × (length a ≡ k)
unfolding read_exact
read_exact_inv k xs a b e = ground (arith, take-append-drop k xs, length-take k xs)

pub read_exact-Parses : (k : ℕ) → Parses (read_exact k) k
read_exact-Parses k = record {
  took = λ input a rest e.
      let (split, size) = read_exact_inv k input a rest e in
      record {
        front = a;
        split = split;
        size = omega arith;
        again = λ more. read_exact-append k a more size;
      };
}

pub pure-Parses {ℓ} : {A : Type ℓ} (x : A) → Parses (pure x) 0
pure-Parses x = record {
  took =
      λ input a rest e. record { front = []; split = cc; size = omega arith; again = λ more. cc };
}

pub raise-Parses {ℓ} : {A : Type ℓ} (e : IoError) → Parses (raise {A = A} e) 0
raise-Parses e = record { took = λ input a rest h. cc }

pub if-Parses {ℓ} :
    {A : Type ℓ} (b : Bool) (p q : Reader A)
    → Parses p 0
    → Parses q 0
    → Parses (if b then p else q) 0
if-Parses true p q hp hq = hp
if-Parses false p q hp hq = hq

-- What a successful bind says, with the read between its halves.
bind-Took {ℓ κ} :
    {A : Type ℓ} {B : Type κ} (p : Reader A) (f : A → Reader B) (n m : ℕ)
    → Parses p n
    → ((a : A) → Parses (f a) m)
    → (input : Bytes) (b : B) (rest : Bytes) (o : Result (A × Bytes)) → p input ≡ o
    → elim o as (λ _. Result (B × Bytes)) [
      | ok (a, mid) ↦ f a mid
      | err e ↦ err e
      | panicked ↦ panicked
    ]
      ≡ ok (b, rest)
    → Took (p >>= f) (n + m) input b rest
bind-Took p f n m hp hf input b rest (ok (a, mid)) ep ef =
    let first = hp.took input a mid ep in
    let second = (hf a).took mid b rest ef in
    record {
      front = first.front ++ second.front;
      split =
          first.split
          ∙ ap (λ t. first.front ++ t) second.split
          ∙ sym (append_assoc first.front second.front rest);
      size = omega (arith, length-append first.front second.front, first.size, second.size);
      again = λ more.
          rw (append_assoc first.front second.front more, first.again (second.front ++ more), ◌>>=◌)
            (second.again more);
    }
bind-Took p f n m hp hf input b rest (err e) ep ef = cc
bind-Took p f n m hp hf input b rest panicked ep ef = cc

pub bind-Parses {ℓ κ} :
    {A : Type ℓ} {B : Type κ} (p : Reader A) (f : A → Reader B) (n m : ℕ)
    → Parses p n
    → ((a : A) → Parses (f a) m)
    → Parses (p >>= f) (n + m)
bind-Parses p f n m hp hf = record {
  took = λ input b rest e. bind-Took p f n m hp hf input b rest (p input) refl e;
}

-- A bound on what a read takes can be forgotten.
pub weaken {ℓ} : {A : Type ℓ} {p : Reader A} {n : ℕ} → Parses p n → Parses p 0
weaken h = record {
  took = λ input a rest e.
      let t = h.took input a rest e in
      record { front = t.front; split = t.split; size = omega arith; again = t.again };
}
