-- ===== src/Wal/Replay.antt =====
-- Replay reads back what `append` wrote.
use sift_core.Wal.{
  Op, WalRecord, put, delete, op_byte, op_of, encode_body, encode, check_record, next_record,
  replay_loop, replay_bytes,
}
use sift_core.Bytes.{
  Bytes, IsU32, IsU64, u32_le, u64_le, length-u32_le, length-u64_le, from_le-u32_le, from_le-u64_le,
}
use sift_core.Hash.{fnv1a, fnv1a-IsU64}
use sift_core.Prelude.{
  ◌≡◌, refl, some, [], ◌∷◌, ◌++◌, append_assoc, length, arith, sym, ◌∙◌, List, ℕ, zero, suc, ◌≤◌,
  append-nil, All, length-append, ap,
}
use sift_core.Result.{ok, Result, err, panicked}
use sift_core.Reader.{read_step}
use sift_core.Wal.Rounds.{next_record-nil}

op_of-op_byte : (op : Op) → op_of (op_byte op) ≡ some op
unfolding op_of op_byte
op_of-op_byte put = refl
op_of-op_byte delete = refl

-- The lengths and the sequence number fit their fields.
pub record Fits (r : WalRecord) : Type 0 where
  pub seq : IsU64 r.seq
  pub key : IsU32 (length r.key)
  pub val : IsU32 (length r.val)

abbrev pub encode_record : WalRecord → Bytes
encode_record r = encode r.seq r.op r.key r.val

-- The fields of a record one after the other, before what follows the record.
encode_fields :
    (r : WalRecord) (rest : Bytes)
    → encode_record r ++ rest
      ≡ u64_le (fnv1a (encode_body r.seq r.op r.key r.val))
        ++ (u64_le r.seq
            ++ ((op_byte r.op ∷ [])
                ++ (u32_le (length r.key)
                    ++ (r.key ++ (u32_le (length r.val) ++ (r.val ++ rest))))))
encode_fields r rest = unfold encode encode_body in simp append_assoc

encode_body_lem :
    (r : WalRecord)
    → encode_body r.seq r.op r.key r.val
      ≡ u64_le r.seq
        ++ ((op_byte r.op ∷ [])
            ++ (u32_le (length r.key) ++ (r.key ++ (u32_le (length r.val) ++ r.val))))
unfolding encode_body
encode_body_lem r = refl

pub next_record-encode :
    (r : WalRecord) (rest : Bytes) → Fits r → next_record (encode_record r ++ rest) ≡ ok (r, rest)
unfolding next_record check_record
next_record-encode r rest fits = rw (encode_fields r rest) (
    read_step 8 (u64_le (fnv1a body)) _ _ (length-u64_le _)
    ∙ read_step 8 (u64_le r.seq) _ _ (length-u64_le _)
    ∙ read_step 1 (op_byte r.op ∷ []) _ _ refl
    ∙ read_step 4 (u32_le (length r.key)) _ _ (length-u32_le _)
    ∙ read_step _ r.key _ _ (sym (from_le-u32_le (length r.key) fits.key))
    ∙ read_step 4 (u32_le (length r.val)) _ _ (length-u32_le _)
    ∙ read_step _ r.val rest _ (sym (from_le-u32_le (length r.val) fits.val))
    ∙ checked)
  where
    body : Bytes
    body = encode_body r.seq r.op r.key r.val

    checked :
        check_record
          (u64_le (fnv1a body))
          (u64_le r.seq)
          (op_byte r.op ∷ [])
          (u32_le (length r.key))
          r.key
          (u32_le (length r.val))
          r.val
          rest
        ≡ ok (r, rest)
    checked = ground (
      arith,
      from_le-u64_le r.seq fits.seq,
      from_le-u64_le (fnv1a body) (fnv1a-IsU64 body),
      encode_body_lem r,
      op_of-op_byte r.op,
    )

-- The bytes of a sequence of records.
unfoldable pub encode_all : List WalRecord → Bytes
encode_all [] = []
encode_all (r ∷ rs) = encode_record r ++ encode_all rs

length-encode_record : (r : WalRecord) → 1 ≤ length (encode_record r)
unfolding encode
length-encode_record r =
    rw
      (length-append (u64_le (fnv1a (encode_body r.seq r.op r.key r.val)))
        (encode_body r.seq r.op r.key r.val))
      (rw (length-u64_le (fnv1a (encode_body r.seq r.op r.key r.val))) (omega arith))

-- No record stands at the front of the input.
abbrev pub Breaks : Bytes → Type 0
Breaks tail = (r : WalRecord) (rest : Bytes) → next_record tail ≡ ok (r, rest) → ⊥

loop-Breaks :
    (f : ℕ) (tail : Bytes) (out : List WalRecord) → Breaks tail → replay_loop f tail out ≡ out
unfolding replay_loop
loop-Breaks zero tail out b = refl
loop-Breaks (suc f) tail out b = round (next_record tail) refl
  where
    round :
        (o : Result (WalRecord × Bytes)) → next_record tail ≡ o → replay_loop (suc f) tail out ≡ out
    round (ok (r, rest)) e = absurd (b r rest e)
    round (err x) e = rw (e, replay_loop)
    round panicked e = rw (e, replay_loop)

replay_loop-encode_all :
    (rs : List WalRecord) (f : ℕ) (tail : Bytes) (out : List WalRecord)
    → All Fits rs
    → Breaks tail
    → length (encode_all rs) ≤ f
    → replay_loop f (encode_all rs ++ tail) out ≡ out ++ rs
unfolding encode_all replay_loop
replay_loop-encode_all [] f tail out fits b h = loop-Breaks f tail out b ∙ sym (append-nil out)
replay_loop-encode_all (r ∷ rs) zero tail out fits b h =
    absurd (omega (arith, length-append (encode_record r) (encode_all rs), length-encode_record r))
replay_loop-encode_all (r ∷ rs) (suc f) tail out fits b h =
    rw
      (
        append_assoc (encode_record r) (encode_all rs) tail,
        replay_loop,
        next_record-encode r (encode_all rs ++ tail) fits.0,
      )
      (replay_loop-encode_all rs f tail (out ++ (r ∷ [])) fits.1 b
          (omega (arith, length-append (encode_record r) (encode_all rs), length-encode_record r))
        ∙ append_assoc out (r ∷ []) rs)

-- Replay of a log returns exactly its records, if their fields fit their widths, whatever bytes
-- stand behind them, if those do not begin with a record.
pub replay_bytes-encode_all :
    (rs : List WalRecord) (tail : Bytes)
    → All Fits rs
    → Breaks tail
    → replay_bytes (encode_all rs ++ tail) ≡ rs
unfolding replay_bytes
replay_bytes-encode_all rs tail fits b =
    replay_loop-encode_all rs _ tail [] fits b (omega (arith, length-append (encode_all rs) tail))

pub encode_all-append :
    (rs ss : List WalRecord) → encode_all (rs ++ ss) ≡ encode_all rs ++ encode_all ss
unfolding encode_all
encode_all-append [] ss = refl
encode_all-append (r ∷ rs) ss =
    ap (λ t. encode_record r ++ t) (encode_all-append rs ss)
    ∙ sym (append_assoc (encode_record r) (encode_all rs) (encode_all ss))

pub encode_all-snoc :
    (rs : List WalRecord) (r : WalRecord)
    → encode_all (rs ++ (r ∷ [])) ≡ encode_all rs ++ encode_record r
encode_all-snoc rs r =
    encode_all-append rs (r ∷ [])
    ∙ ap (λ t. encode_all rs ++ t) (unfold encode_all in append-nil (encode_record r))

nil-Breaks : Breaks []
nil-Breaks r rest e = cc (e, next_record-nil)

-- Replay of what `append` wrote, and nothing else.
pub replay_bytes-encode_all_self :
    (rs : List WalRecord) → All Fits rs → replay_bytes (encode_all rs) ≡ rs
replay_bytes-encode_all_self rs fits =
    ap replay_bytes (sym (append-nil (encode_all rs)))
    ∙ replay_bytes-encode_all rs [] fits nil-Breaks
