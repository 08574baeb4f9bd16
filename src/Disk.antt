-- ===== src/Disk.antt =====
-- The file system as the sources use it (`std::fs`): a directory of named byte strings, and a
-- schedule of faults. Each call that can fail takes one item off the schedule; a write that fails
-- may have written a front of its bytes. A crash is a fault whose error ends the program.
pub mod Laws
pub mod Others
use sift_core.Bytes.{Bytes}
use sift_core.Prelude.{
  ℕ, Bool, true, false, Option, none, some, List, [], ◌∷◌, ◌++◌, ◌==◌, if◌then◌else◌, take,
}
use sift_core.Result.{not_found, os_fault, Result, ok, err}

-- The names that the engine builds with `dir.join` and parses back in `LsmEngine::open`; any other
-- name is `foreign`.
pub data FileName : Type 0 where
  wal_log : FileName
  sst : ℕ → FileName
  sst_tmp : ℕ → FileName
  foreign : ℕ → FileName

unfoldable pub name_eq : FileName → FileName → Bool
name_eq wal_log wal_log = true
name_eq (sst a) (sst b) = a == b
name_eq (sst_tmp a) (sst_tmp b) = a == b
name_eq (foreign a) (foreign b) = a == b
name_eq _ _ = false

-- `fail n`: the call fails, and a write has written `n` bytes.
pub data Fault : Type 0 where
  pass : Fault
  fail : ℕ → Fault

abbrev pub Files : Type 0
Files = List (FileName × Bytes)

pub record Disk : Type 0 where
  pub files : Files
  pub faults : List Fault

unfoldable pub lookup : FileName → Files → Option Bytes
lookup n [] = none
lookup n ((m, b) ∷ fs) = let rest = lookup n fs in if name_eq m n then some b else rest

unfoldable pub without : FileName → Files → Files
without n [] = []
without n ((m, b) ∷ fs) = let rest = without n fs in if name_eq m n then rest else (m, b) ∷ rest

unfoldable pub store : FileName → Bytes → Files → Files
store n b fs = (n, b) ∷ without n fs

abbrev pub next_fault : List Fault → Fault
next_fault [] = pass
next_fault (f ∷ fs) = f

abbrev pub later_faults : List Fault → List Fault
later_faults [] = []
later_faults (f ∷ fs) = fs

abbrev pub step_fault : Disk → Disk
step_fault d = record d { faults = later_faults d.faults }

-- What a file holds; a file that is not there holds nothing.
unfoldable pub contents : FileName → Files → Bytes
contents n fs = elim (lookup n fs) [ none ↦ [] | some b ↦ b ]

-- `File::create`, and `OpenOptions` with `create` and `truncate`.
unfoldable pub create : FileName → Disk → Result (Unit {0}) × Disk
create n d = elim (next_fault d.faults) [
  | pass ↦ (ok tt, record (step_fault d) { files = store n [] d.files })
  | fail k ↦ (err os_fault, step_fault d)
]

-- `OpenOptions` with `create` and `append`.
unfoldable pub open_append : FileName → Disk → Result (Unit {0}) × Disk
open_append n d = elim (next_fault d.faults) [
  | pass ↦ (ok tt, record (step_fault d) { files = store n (contents n d.files) d.files })
  | fail k ↦ (err os_fault, step_fault d)
]

-- A write at the end of a file.
unfoldable pub write : FileName → Bytes → Disk → Result (Unit {0}) × Disk
write n b d = elim (next_fault d.faults) [
  | pass ↦ (ok tt, record (step_fault d) { files = store n (contents n d.files ++ b) d.files })
  | fail k ↦ (
    err os_fault,
    record (step_fault d) { files = store n (contents n d.files ++ take k b) d.files },
  )
]

-- How a call that takes one item off the schedule ends.
abbrev pub outcome : Fault → Result (Unit {0})
outcome pass = ok tt
outcome (fail k) = err os_fault

-- `sync_data`.
unfoldable pub sync_data : Disk → Result (Unit {0}) × Disk
sync_data d = (outcome (next_fault d.faults), step_fault d)

-- `fs::rename`.
unfoldable pub rename : FileName → FileName → Disk → Result (Unit {0}) × Disk
rename from to d = elim (next_fault d.faults) [
  | pass ↦ elim (lookup from d.files) [
    | none ↦ (err not_found, step_fault d)
    | some b ↦ (ok tt, record (step_fault d) { files = store to b (without from d.files) })
  ]
  | fail k ↦ (err os_fault, step_fault d)
]

-- `fs::remove_file(...).ok()`: the result is dropped.
unfoldable pub remove_file : FileName → Disk → Disk
remove_file n d = elim (next_fault d.faults) [
  | pass ↦ record (step_fault d) { files = without n d.files }
  | fail k ↦ step_fault d
]

-- `File::open` and reads to the end.
unfoldable pub read_file : FileName → Disk → Result Bytes
read_file n d = elim (lookup n d.files) [ none ↦ err not_found | some b ↦ ok b ]
