-- ===== src/Disk/Laws.antt =====
-- Reading a file after the directory changed.
use sift_core.Bytes.{Bytes}
use sift_core.Disk.{
  FileName, wal_log, sst, sst_tmp, foreign, name_eq, Files, lookup, without, store, contents, Fault,
  pass, fail, Disk, remove_file,
}
use sift_core.Prelude.{
  ◌≡◌, refl, true, none, some, [], ◌∷◌, arith, if◌then◌else◌, ==_refl, ◌∙◌, false, List,
}

pub name_eq_refl : (n : FileName) → name_eq n n ≡ true
unfolding name_eq
name_eq_refl wal_log = refl
name_eq_refl (sst a) = ==_refl a
name_eq_refl (sst_tmp a) = ==_refl a
name_eq_refl (foreign a) = ==_refl a

pub eq_of_name_eq : (n m : FileName) → name_eq n m ≡ true → n ≡ m
unfolding name_eq
eq_of_name_eq n m h = ground arith

pub lookup-without :
    (n m : FileName) (fs : Files)
    → lookup m (without n fs) ≡ (if name_eq n m then none else lookup m fs)
unfolding lookup without
lookup-without n m [] = ground arith
lookup-without n m ((k, b) ∷ fs) = ground (
  arith,
  lookup-without n m fs,
  eq_of_name_eq k n,
  eq_of_name_eq k m,
  eq_of_name_eq n m,
  name_eq_refl n,
  name_eq_refl m,
)

pub lookup-store :
    (n m : FileName) (b : Bytes) (fs : Files)
    → lookup m (store n b fs) ≡ (if name_eq n m then some b else lookup m fs)
unfolding store lookup
lookup-store n m b fs = ground (arith, lookup-without n m fs)

pub contents-of_lookup :
    (n : FileName) (fs : Files) (b : Bytes) → lookup n fs ≡ some b → contents n fs ≡ b
unfolding contents
contents-of_lookup n fs b h = rw (contents, h)

-- The removal of a file touches no other.
pub remove_file-others :
    (m n : FileName) (d : Disk)
    → name_eq m n ≡ false
    → lookup n (remove_file m d).files ≡ lookup n d.files
remove_file-others m n d apart = removed d.faults
  where
    removed :
        (fs : List Fault)
        → lookup n (remove_file m (record d { faults = fs })).files ≡ lookup n d.files
    removed [] = unfold remove_file in lookup-without m n d.files ∙ rw apart refl
    removed (pass ∷ fs) = unfold remove_file in lookup-without m n d.files ∙ rw apart refl
    removed (fail k ∷ fs) = unfold remove_file in refl

pub ruleset file_laws = (lookup-without, lookup-store, name_eq_refl)
