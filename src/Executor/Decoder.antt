-- ===== src/Executor/Decoder.antt =====
-- `Decoder` of crates/minocrab-sim/src/v3/exec.rs: reading a stream of field elements.
mod Reader
mod State
mod Program
pub mod Total
pub mod Declares
pub mod RoundTrip
unfoldable pub use Reader.*
unfoldable pub use State.*
unfoldable pub use Program.*
