-- ===== src/Wal/Rounds.antt =====
-- The loop of `replay`: every round takes bytes off, so its fuel suffices.
use sift_core.Wal.{WalRecord, op_of, check_record, next_record, Op, replay_loop}
use sift_core.Reader.{Reader, pure, raise, read_exact}
use sift_core.Bytes.{Bytes, from_le}
use sift_core.Prelude.{
  Option, none, some, get_or, ℕ, zero, suc, ◌+◌, ◌≤◌, ◌≡◌, refl, ap, List, [], ◌∷◌, ◌++◌, arith,
  length, length-append,
}
use sift_core.Reader.Parses.{
  Parses, read_exact-Parses, pure-Parses, raise-Parses, if-Parses, bind-Parses, weaken,
}
use sift_core.Result.{invalid_data, unexpected_eof, Result, ok, err, panicked}

check_record-Parses : (b0 b1 b2 b3 b4 b5 b6 : Bytes) → Parses (check_record b0 b1 b2 b3 b4 b5 b6) 0
unfolding check_record
check_record-Parses b0 b1 b2 b3 b4 b5 b6 =
    if-Parses _ _ _ (raise-Parses invalid_data) (cases (op_of (get_or b2 0 0)))
  where
    cases :
        (o : Option Op)
        → Parses
            (elim o as (λ _. Reader WalRecord) [
              | none ↦ raise invalid_data
              | some op ↦ pure (record { seq = from_le b1; op = op; key = b4; val = b6 })
            ])
            0
    cases none = raise-Parses invalid_data
    cases (some op) = pure-Parses _

pub next_record-Parses : Parses next_record 25
unfolding next_record
next_record-Parses = bind-Parses (read_exact 8) _ 8 17 (read_exact-Parses 8) λ b0.
    bind-Parses (read_exact 8) _ 8 9 (read_exact-Parses 8) λ b1.
      bind-Parses (read_exact 1) _ 1 8 (read_exact-Parses 1) λ b2.
        bind-Parses (read_exact 4) _ 4 4 (read_exact-Parses 4) λ b3.
          bind-Parses (read_exact (from_le b3)) _ 0 4 (weaken (read_exact-Parses (from_le b3)))
            λ b4. bind-Parses (read_exact 4) _ 4 0 (read_exact-Parses 4) λ b5.
              bind-Parses (read_exact (from_le b5)) _ 0 0 (weaken (read_exact-Parses (from_le b5)))
                λ b6. check_record-Parses b0 b1 b2 b3 b4 b5 b6

-- On no input at all the loop breaks.
pub next_record-nil : next_record [] ≡ err unexpected_eof
unfolding next_record read_exact
next_record-nil = refl

-- Any fuel of at least the input's length gives the same records.
pub replay_loop-fuel :
    (f g : ℕ) (input : Bytes) (out : List WalRecord)
    → length input ≤ f
    → length input ≤ g
    → replay_loop f input out ≡ replay_loop g input out
unfolding replay_loop
replay_loop-fuel zero zero input out hf hg = refl
replay_loop-fuel zero (suc g) [] out hf hg = rw (next_record-nil, replay_loop)
replay_loop-fuel zero (suc g) (b ∷ input) out hf hg = absurd (omega arith)
replay_loop-fuel (suc f) zero [] out hf hg = rw (next_record-nil, replay_loop)
replay_loop-fuel (suc f) zero (b ∷ input) out hf hg = absurd (omega arith)
replay_loop-fuel (suc f) (suc g) input out hf hg =
    round (replay_loop-fuel f g) (next_record input) refl
  where
    shorter :
        (r : WalRecord) (rest : Bytes)
        → next_record input ≡ ok (r, rest)
        → 25 + length rest ≤ length input
    shorter r rest e =
        let t = next_record-Parses.took input r rest e in
        omega (arith, t.size, ap length t.split, length-append t.front rest)

    round :
        ((rest : Bytes) (more : List WalRecord)
          → length rest ≤ f
          → length rest ≤ g
          → replay_loop f rest more ≡ replay_loop g rest more)
        → (o : Result (WalRecord × Bytes)) → next_record input ≡ o
        → replay_loop (suc f) input out ≡ replay_loop (suc g) input out
    round ih (ok (r, rest)) e =
        rw (e, replay_loop)
          (ih rest (out ++ (r ∷ [])) (omega (arith, shorter r rest e))
            (omega (arith, shorter r rest e)))
    round ih (err x) e = rw (e, replay_loop)
    round ih panicked e = rw (e, replay_loop)
