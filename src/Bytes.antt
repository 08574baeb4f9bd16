-- ===== src/Bytes.antt =====
-- Bytes as numbers, and what the sources use of the standard library on them: `to_le_bytes`,
-- `from_le_bytes`, `Read::read_exact` and the order of slices.
mod Defs
mod Laws
pub mod Order
unfoldable pub use Defs.*
pub use Laws.*
