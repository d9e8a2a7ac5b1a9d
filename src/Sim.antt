-- ===== src/Sim.antt =====
-- The ZKIR v3 interpreter of crates/minocrab-sim/src/v3.rs.
pub mod Value
pub mod Backend
pub mod Exec
pub mod Resolve
pub mod Bits
pub mod Inversion
pub mod Step
pub mod Run
