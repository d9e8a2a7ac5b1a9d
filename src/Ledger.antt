-- ===== src/Ledger.antt =====
-- crates/minocrab-ledger: the encoders of ledger operations, and the upstream types they stand on.
pub mod Fab
pub mod Impact
pub mod Laws
pub mod Meaning
pub mod Reads
pub mod Ops
pub mod Kernel
pub mod KernelReads
