-- ===== src/Ledger/Ops.antt =====
-- crates/minocrab-ledger/src/ops.rs: the instructions of each ledger operation. A `_at` form takes a
-- path; the other form is the same on the path of one field.
mod Cells
mod Collections
mod ListOps
mod Trees
mod Blind
unfoldable pub use Cells.*
unfoldable pub use Collections.*
unfoldable pub use ListOps.*
unfoldable pub use Trees.*
unfoldable pub use Blind.*
