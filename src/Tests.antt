-- ===== src/Tests.antt =====
-- Runs of the development at concrete inputs.
pub mod Data
pub mod Log
pub mod Table
pub mod Store
pub mod Flushes
pub mod OldStore
pub mod Faults
pub mod Compactions
pub mod Merges
pub mod Resurrected
pub mod Digits
pub mod Vectors
pub mod Texts
pub mod Documents
pub mod Reopened
