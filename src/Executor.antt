-- ===== src/Executor.antt =====
-- crates/minocrab-sim/src/v3/exec.rs: the decoder of transcripts into Impact operations, and the
-- executor that runs a circuit's reads against a ledger state.
pub mod Decoder
pub mod Gather
pub mod Execute
pub mod Answers
pub mod Settling
pub mod Settled
