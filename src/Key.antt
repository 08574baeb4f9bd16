-- ===== src/Key.antt =====
-- src/lib.rs: sequence numbers, internal keys with their order, and values.
pub mod Order
pub mod Snapshot
use sift_core.Bytes.{Bytes, cmp_bytes}
use sift_core.Prelude.{ℕ, ◌-◌, ◌^◌, compare, Ordering, Option, none, some}

-- `type Seq = u64`.
abbrev pub Seq : Type 0
Seq = ℕ

abbrev pub max_seq : Seq
max_seq = 2 ^ 64 - 1

pub record InternalKey : Type 0 where
  pub user_key : Bytes
  pub seq : Seq

-- A value is live bytes or a tombstone.
pub data Value : Type 0 where
  put : Bytes → Value
  delete : Value

unfoldable pub as_put : Value → Option Bytes
as_put (put v) = some v
as_put delete = none

-- `Ordering::then_with`.
abbrev pub then_with : Ordering → Ordering → Ordering
then_with Ordering.eq second = second
then_with Ordering.lt second = Ordering.lt
then_with Ordering.gt second = Ordering.gt

-- `impl Ord for InternalKey`: the user key ascending, then the sequence number descending.
unfoldable pub cmp : InternalKey → InternalKey → Ordering
cmp a b = then_with (cmp_bytes a.user_key b.user_key) (compare b.seq a.seq)

abbrev pub Entry : Type 0
Entry = InternalKey × Value
