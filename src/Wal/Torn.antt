-- ===== src/Wal/Torn.antt =====
-- Torn writes: a log that ends inside a record replays to the records before it, and a sync that
-- fails part of the way leaves the log with or without its record.
use sift_core.Wal.{WalRecord, next_record, replay_bytes, Wal, append, unwritten, sync, replay}
use sift_core.Bytes.{Bytes}
use sift_core.Prelude.{
  ℕ, zero, suc, ◌≤◌, ◌<◌, ◌≡◌, refl, sym, ap, ◌∙◌, List, [], ◌∷◌, ◌++◌, append-nil, append_assoc,
  arith, length, take, drop, All, length-append, take-append-drop, length-drop, ◌⊎◌, some, inl, inr,
  ltb, ltb→lt, Bool-cases, All-append,
}
use sift_core.Reader.Parses.{Took}
use sift_core.Wal.Replay.{
  Fits, encode_record, next_record-encode, encode_all, Breaks, replay_bytes-encode_all,
  encode_all-snoc, replay_bytes-encode_all_self,
}
use sift_core.Wal.Rounds.{next_record-Parses}
use sift_core.Disk.{wal_log, Disk, lookup, write, sync_data, Fault, pass, fail, Files, next_fault}
use sift_core.Result.{Result, ok}
use sift_core.Disk.Laws.{name_eq_refl, lookup-store, contents-of_lookup}

take_all {ℓ} : {A : Type ℓ} (n : ℕ) (xs : List A) → length xs ≤ n → take n xs ≡ xs
take_all zero [] h = refl
take_all zero (x ∷ xs) h = absurd (omega arith)
take_all (suc n) [] h = refl
take_all (suc n) (x ∷ xs) h = ap (λ t. x ∷ t) (take_all n xs (omega arith))

-- A proper front of a record is no record.
torn-Breaks :
    (r : WalRecord) (n : ℕ)
    → Fits r
    → n < length (encode_record r)
    → Breaks (take n (encode_record r))
torn-Breaks r n fits short r' rest e =
    omega (arith, ap length left_over, length-append rest back, length-drop n (encode_record r))
  where
    t : Took next_record 25 (take n (encode_record r)) r' rest
    t = next_record-Parses.took (take n (encode_record r)) r' rest e

    back : Bytes
    back = drop n (encode_record r)

    whole : encode_record r ++ [] ≡ t.front ++ (rest ++ back)
    whole =
        append-nil (encode_record r)
        ∙ sym (take-append-drop n (encode_record r))
        ∙ ap (λ x. x ++ back) t.split
        ∙ append_assoc t.front rest back

    left_over : [] ≡ rest ++ back
    left_over = cc (next_record-encode r [] fits, t.again (rest ++ back), ap next_record whole)

-- A log that is cut inside its last record replays to the records before that one, if the fields
-- of all of them fit their widths.
pub replay_torn :
    (rs : List WalRecord) (r : WalRecord) (n : ℕ)
    → All Fits rs
    → Fits r
    → n < length (encode_record r)
    → replay_bytes (encode_all rs ++ take n (encode_record r)) ≡ rs
replay_torn rs r n all fits short =
    replay_bytes-encode_all rs (take n (encode_record r)) all (torn-Breaks r n fits short)

-- The log file holds the records and nothing else.
abbrev pub HoldsLog : Disk → List WalRecord → Type 0
HoldsLog d rs = lookup wal_log d.files ≡ some (encode_all rs)

-- `append` and `sync` of one record.
abbrev pub log_one : Wal → WalRecord → Disk → Result (Unit {0}) × Wal × Disk
log_one w r d = sync (append w r.seq r.op r.key r.val) d

pub replay-of_bytes :
    (d : Disk) (b : Bytes) → lookup wal_log d.files ≡ some b → replay d ≡ ok (replay_bytes b)
unfolding replay
replay-of_bytes d b e = rw (replay, e)

-- What a write puts into its file.
abbrev written : Fault → Bytes → Bytes
written pass b = b
written (fail k) b = take k b

-- The log file after `sync`.
log_one_file :
    (w : Wal) (r : WalRecord) (files : Files) (faults : List Fault) (b : Bytes)
    → w.buffer ≡ []
    → lookup wal_log files ≡ some b
    → lookup wal_log (log_one w r (record { files = files; faults = faults })).2.files
      ≡ some (b ++ written (next_fault faults) (encode_record r))
unfolding sync append write sync_data
log_one_file w r files [] b clean h =
    lookup-store wal_log wal_log _ files
    ∙ rw (name_eq_refl wal_log, contents-of_lookup wal_log files b h, clean)
log_one_file w r files (pass ∷ fs) b clean h =
    lookup-store wal_log wal_log _ files
    ∙ rw (name_eq_refl wal_log, contents-of_lookup wal_log files b h, clean)
log_one_file w r files (fail k ∷ fs) b clean h =
    lookup-store wal_log wal_log _ files
    ∙ rw (name_eq_refl wal_log, contents-of_lookup wal_log files b h, clean)

log_one_ok :
    (w : Wal) (r : WalRecord) (files : Files) (faults : List Fault)
    → (log_one w r (record { files = files; faults = faults })).0 ≡ ok tt
    → (next_fault faults ≡ pass)
      × ((log_one w r (record { files = files; faults = faults })).1.buffer ≡ [])
unfolding sync append write sync_data unwritten
log_one_ok w r files [] e = (refl, refl)
log_one_ok w r files (pass ∷ fs) e = (refl, refl)
log_one_ok w r files (fail k ∷ fs) e = cc

-- Where the log file holds the records and nothing is held back, a sync that succeeds has put the
-- new record behind the others, and again holds nothing back.
pub log_one_durable :
    (w : Wal) (r : WalRecord) (d : Disk) (rs : List WalRecord)
    → w.buffer ≡ []
    → HoldsLog d rs
    → (log_one w r d).0 ≡ ok tt
    → HoldsLog (log_one w r d).2 (rs ++ (r ∷ [])) × ((log_one w r d).1.buffer ≡ [])
log_one_durable w r d rs clean h e =
    let (passed, empty) = log_one_ok w r d.files d.faults e in
    (
      log_one_file w r d.files d.faults (encode_all rs) clean h
          ∙ ap some (
              ap (λ f. encode_all rs ++ written f (encode_record r)) passed
              ∙ sym (encode_all-snoc rs r)),
      empty,
    )

cut_replays :
    (rs : List WalRecord) (r : WalRecord) (f : Fault)
    → All Fits rs
    → Fits r
    → (replay_bytes (encode_all rs ++ written f (encode_record r)) ≡ rs)
      ⊎ (replay_bytes (encode_all rs ++ written f (encode_record r)) ≡ rs ++ (r ∷ []))
cut_replays rs r pass all fits = inr (
    ap replay_bytes (sym (encode_all-snoc rs r))
    ∙ replay_bytes-encode_all_self _ (All-append Fits rs (r ∷ []) all (fits, tt)))
cut_replays rs r (fail k) all fits = elim (Bool-cases (ltb k (length (encode_record r)))) [
  | inl short ↦ inl (replay_torn rs r k all fits (ltb→lt _ _ short))
  | inr long ↦ inr (
      ap (λ t. replay_bytes (encode_all rs ++ t)) (take_all k (encode_record r) (ground arith))
      ∙ cut_replays_whole)
]
  where
    cut_replays_whole : replay_bytes (encode_all rs ++ encode_record r) ≡ rs ++ (r ∷ [])
    cut_replays_whole =
        ap replay_bytes (sym (encode_all-snoc rs r))
        ∙ replay_bytes-encode_all_self _ (All-append Fits rs (r ∷ []) all (fits, tt))

-- Where the log file holds records that fit their widths and nothing is held back, recovery sees
-- every earlier record after the write of one more, wherever that write stops, and sees the new
-- record or not.
pub log_one_atomic :
    (w : Wal) (r : WalRecord) (d : Disk) (rs : List WalRecord)
    → w.buffer ≡ []
    → HoldsLog d rs
    → All Fits rs
    → Fits r
    → (replay (log_one w r d).2 ≡ ok rs) ⊎ (replay (log_one w r d).2 ≡ ok (rs ++ (r ∷ [])))
log_one_atomic w r d rs clean h all fits =
    let e =
      replay-of_bytes (log_one w r d).2 _
        (log_one_file w r d.files d.faults (encode_all rs) clean h) in
    elim (cut_replays rs r (next_fault d.faults) all fits) [
      | inl without_ ↦ inl (e ∙ ap ok without_)
      | inr with_ ↦ inr (e ∙ ap ok with_)
    ]
