-- ===== src/Tests.antt =====
-- Tests: the properties applied at concrete inputs.
mod Instance
mod Passes
mod Run
mod Ledger
mod Kept
mod Meaning
mod Executor
mod Sequences
