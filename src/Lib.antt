-- ===== src/Lib.antt =====
-- minocrab: the circuit builder, the IR passes and the interpreter for ZKIR v3, the ledger
-- operations that circuits emit, and the executor that runs a circuit against a ledger state.
--
-- The program builds a circuit as a stream of instructions over named, typed values (`Builder3`),
-- runs passes over the stream that only delete instructions and inline constants, and checks a
-- circuit against a proof preimage with an off-circuit interpreter. A circuit emits the ledger
-- operations that it stands for as field elements; the executor decodes that transcript, gathers the
-- reads from a ledger state, and repeats the walk until its reads are the ones it was given. What is
-- modelled:
--
--   crates/minocrab-ir/src/v3.rs            Builder: `Builder3` with its type tests (Builder/Types),
--                                           its state and helpers (Builder/State), its instruction
--                                           methods (Builder/Arithmetic, Encodings, Effects) and
--                                           `finish` (Builder/Finish)
--   crates/minocrab-ir/src/v3/passes.rs     Prelude/Assoc: `AssocMap`; Ir: the instructions and their
--                                           operand and name lists (Ir/Dataflow); Passes: the copy fold
--                                           (Passes/Fold), the deletion of constant-true asserts
--                                           (Passes/Asserts) and the deduplication of range
--                                           constraints (Passes/Dedup), and pipelines of them
--                                           (Passes/Pipeline)
--   crates/minocrab-ir/src/v3/passes/kept.rs  Passes/Kept: `Kept` and `retain_kept`
--   crates/minocrab-sim/src/v3.rs           Sim: the values (Sim/Value), operand resolution
--                                           (Sim/Resolve), the transcript steps (Sim/Step), one arm for
--                                           each instruction (Sim/Step/Arms, Ops, Pieces) and the whole run
--                                           `simulate_with` in both modes (Sim/Run)
--
--   crates/minocrab-sim/src/v3/exec.rs      Executor: the transcript decoder (Executor/Decoder: its
--                                           reader, state values and programs), `gather`
--                                           (Executor/Gather), `execute` and `finish`
--                                           (Executor/Execute; Executor/Answers says what their
--                                           comparisons decide)
--   crates/minocrab-ledger/src/impact.rs    Ledger/Impact: the encoders of single operations
--   crates/minocrab-ledger/src/ops.rs       Ledger/Ops: the operations on cells and counters (Cells), maps
--                                           and sets (Collections), lists (ListOps), Merkle trees (Trees)
--                                           and those without a read (Blind)
--   crates/minocrab-ledger/src/kernel.rs    Ledger/Kernel: the effects; Ledger/KernelReads: the operation
--                                           lists of the reads of the context
--   crates/minocrab-ledger/src/reads.rs     Ledger/Reads: the operation lists of the reads
--
-- How the code is modelled. A method of the builder is a function from the builder to a result and
-- the next builder (Sim/Exec); a panic is `err` with a short message. The interpreter's memory is an
-- association list; its loop is a recursion over the instructions, so no fuel is needed. The decoder
-- is a chain of reads of the elements that are left; its loop has one step of fuel for each element
-- and one more, and so has the nesting of a pushed state: an operation and a state take at least one
-- element. The search of `gather` has a round for each operation, and `execute` the source's 64. A
-- ledger operation is a list of immediate elements and wires, and a panic of its builder is `err`.
-- An error of the interpreter carries the instruction's index and name, with a fixed message in
-- place of the formatted one. The
-- `usize` counters are natural numbers; a `Val` wraps at 32 bits as in the source. The list a closure
-- of `retain_kept` visits is threaded with the closure's captured state.
--
-- What is a parameter. The field `Fr` of midnight-transient-crypto is a type with the operations of
-- Ir/Field, and, where a theorem needs it, the laws there: field elements stand for numbers, `from`
-- on a `u64` keeps the number, and the little-endian bytes spell it. The curve, hash, encoding and
-- alignment functions of midnight-zkir-v3 and of the hash crates are the fields of Sim/Backend with
-- no law. Points and foreign field elements are one opaque type. The Rust library's `format!` of a
-- value's name is the parameter `render` of the builder.
--
-- The alignments, aligned values and operations of the ledger crates are the data types of
-- Ledger/Fab; their representation as elements is the record `FabOps` there, and the laws that the
-- theorems need, such as the opcodes, are `FabLaws` of Ledger/Laws. The VM's run, the query of the
-- ledger and the elements of finished operations are the record `Ledger` of Executor/Execute.
--
-- What is not modelled: the deserialisation of the input schema, the debug-only check in
-- `finish_kept`, the proof references of the passes, the reports and cost models, the wires that a
-- ledger read mints and constrains, the read `list_head`, the calls of other contracts
-- (crates/minocrab-ledger/src/calls.rs), the older v2 instruction set, the frontend, the macros, the
-- contracts and the Signet crates.
--
-- Two runs are the same (Sim/Run/Same) when both are rejected, or both are accepted with equal public
-- inputs, skips, binding input, commitment, outputs, consumption and declared transcript. A circuit is
-- well scoped (Ir/Scope) when every operand names an argument or an earlier output and every output
-- is a fresh name.
--
-- A ledger builder means a program of the VM (Ledger/Meaning, `Means`) when it does not panic and,
-- with the wires' values in, the decoder reads each of its operations' elements back as the program's
-- operation, and the reads at the declared alignments. A value or key carries an aligned value when
-- its limbs, with the wires' values in, parse as that value (Ledger/Meaning/Elements).
pub mod Prelude
pub mod Ir
pub mod Ledger
pub mod Passes
pub mod Sim
pub mod Builder
pub mod Executor
pub mod Tests
