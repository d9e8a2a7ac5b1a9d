-- ===== src/Builder.antt =====
-- `Builder3` of crates/minocrab-ir/src/v3.rs: the typed circuit builder.
pub mod Types
pub mod State
pub mod Fresh
pub mod Arithmetic
pub mod Encodings
pub mod Effects
pub mod Finish
