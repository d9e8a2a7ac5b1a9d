-- ===== src/Passes.antt =====
-- The IR passes of crates/minocrab-ir/src/v3/passes.rs, a module for each.
pub mod Kept
pub mod Fold
pub mod Asserts
pub mod Dedup
pub mod Pipeline
