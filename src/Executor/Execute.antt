-- ===== src/Executor/Execute.antt =====
-- `execute` and `finish` of crates/minocrab-sim/src/v3/exec.rs: the rounds that fill a circuit's reads
-- from a ledger state, and the preimage of the settled call. The ledger is a parameter: the gathering
-- run of a program on the context's stack, the query that applies a finished transcript, and the
-- field elements of values and finished operations.
use minocrab.Prelude.{
  ℕ, zero, suc, ◌+◌, String, Bool, true, false, Option, none, some, List, [], ◌∷◌, ◌++◌, length,
  ◌==◌, if◌then◌else◌, Result, ok, err, and_then, ok_or,
}
use minocrab.Ir.{IrSource}
use minocrab.Ir.Field.{FieldOps}
use minocrab.Sim.Backend.{Backend, ProofPreimage}
use minocrab.Sim.Step.{gather}
use minocrab.Sim.Run.{Sim3Error, Run, simulate_with, encoded_outputs}
use minocrab.Ledger.Fab.{AlignmentAtom, bytes, compress, field, Alignment, AlignedValue, Op, FabOps}
use minocrab.Executor.Decoder.{DecodeError, Decoded, decode_prefix}
use minocrab.Executor.Gather.{GatherEvent, gather as gather_reads}

pub data ExecError : Type 0 where
  circuit : Sim3Error → ExecError
  rejected : (at : ℕ) → ExecError
  decode : DecodeError → ExecError
  vm : String → ExecError
  not_applied : (why : String) → ExecError
  read_alignment : (index : ℕ) → (expected actual : Alignment) → ExecError
  diverged : ExecError

-- An operation with its read's result.
abbrev pub VmOp : Type 0
VmOp = Op × Option AlignedValue

pub record Call (F : Type 0) : Type 0 where
  pub inputs : List F
  pub private_transcript : List F
  pub binding_input : F
  pub comm_rand : Option F

-- The ledger at a context: `S` is its states and effects.
pub record Ledger (F S : Type 0) : Type 0 where
  pub run_gather : List Op → Result String (List GatherEvent)
  pub query : List VmOp → Result String S
  pub value_repr : AlignedValue → List F
  pub vm_op_repr : VmOp → List F

pub record Executed (F P S : Type 0) : Type 0 where
  pub preimage : ProofPreimage F
  pub ops : List VmOp
  pub reads : List AlignedValue
  pub post : S
  pub run : Run F P
  pub rounds : ℕ

abbrev pub max_rounds : ℕ
max_rounds = 64

-- `map_err`
abbrev pub map_err : {E E' A : Type 0} → (E → E') → Result E A → Result E' A
map_err f (ok a) = ok a
map_err f (err e) = err (f e)

-- `==` on alignments
unfoldable pub atom_eq : AlignmentAtom → AlignmentAtom → Bool
atom_eq (bytes m) (bytes n) = m == n
atom_eq compress compress = true
atom_eq field field = true
atom_eq _ _ = false

unfoldable pub alignment_eq : Alignment → Alignment → Bool
alignment_eq [] [] = true
alignment_eq (a ∷ al) (b ∷ bl) = if atom_eq a b then alignment_eq al bl else false
alignment_eq _ _ = false

-- The loop over `alignments.iter().zip(reads.iter()).enumerate()`
unfoldable pub check_alignments :
    ℕ → List Alignment → List AlignedValue → Result ExecError (Unit {0})
check_alignments index (al ∷ als) (v ∷ reads) =
    let rest = check_alignments (index + 1) als reads in
    if alignment_eq al v.alignment then rest else err (read_alignment index al v.alignment)
check_alignments index _ _ = ok tt

-- `translate` takes the next value for each `popeq`.
unfoldable pub with_reads : List Op → List AlignedValue → Result ExecError (List VmOp)
with_reads [] reads = ok []
with_reads (Op.popeq cached ∷ program) [] = err (vm "a gathered value per popeq")
with_reads (Op.popeq cached ∷ program) (v ∷ reads) =
    and_then (with_reads program reads) λ ops. ok ((Op.popeq cached, some v) ∷ ops)
with_reads (op ∷ program) reads = and_then (with_reads program reads) λ ops. ok ((op, none) ∷ ops)

module _ {F : Type 0} where
  -- `==` on vectors of field elements
  unfoldable pub elems_eq : FieldOps F → List F → List F → Bool
  elems_eq ops [] [] = true
  elems_eq ops (x ∷ xs) (y ∷ ys) = if ops.eq x y then elems_eq ops xs ys else false
  elems_eq ops _ _ = false

module _ {F S : Type 0} (ledger : Ledger F S) where
  unfoldable pub outputs_of : List AlignedValue → List F
  outputs_of [] = []
  outputs_of (v ∷ reads) = ledger.value_repr v ++ outputs_of reads

  unfoldable pub transcript_of : List VmOp → List F
  transcript_of [] = []
  transcript_of (op ∷ ops) = ledger.vm_op_repr op ++ transcript_of ops

-- A rejection, then a failure of the walk, is the first thing to report.
unfoldable pub no_failures : List ℕ → List (ℕ × String) → Result ExecError (Unit {0})
no_failures (at ∷ _) failures = err (rejected at)
no_failures [] ((at, message) ∷ _) = err (circuit (Sim3Error.failed at "gather" message))
no_failures [] [] = ok tt

-- `if let Some(e) = decoded.error { return Err(e) }`
unfoldable pub no_error : Option DecodeError → Result ExecError (Unit {0})
no_error (some e) = err (decode e)
no_error none = ok tt

-- The state must have answered every read that the circuit declares.
unfoldable pub check_answers :
    List Alignment → List AlignedValue → Option String → Result ExecError (Unit {0})
check_answers als reads whole_err = if length reads == length als then ok tt else elim whole_err [
  | some why ↦ err (not_applied why)
  | none ↦ err (vm "the state answered another number of reads")
]

module _ {F P A S : Type 0} (ops : FieldOps F) (fab : FabOps F) (be : Backend F P A)
    (ledger : Ledger F S) (ir : IrSource F A) (call : Call F) where
  unfoldable pub comm_commitment : ProofPreimage F → Run F P → F → Result ExecError F
  unfolding encoded_outputs
  comm_commitment preimage run rand =
      and_then (map_err vm (encoded_outputs ops be preimage run.outputs))
        λ encoded. ok (be.transient_commit (preimage.inputs ++ encoded) rand)

  -- The preimage of a round, or with the finished transcripts.
  unfoldable pub preimage_of : (inputs outputs : List F) → ProofPreimage F
  preimage_of inputs outputs = record {
    inputs = call.inputs;
    binding_input = call.binding_input;
    communications_commitment = none;
    public_transcript_inputs = inputs;
    public_transcript_outputs = outputs;
    private_transcript = call.private_transcript;
  }

  -- The commitment of a circuit that declares one.
  unfoldable pub committed : Run F P → ProofPreimage F → Result ExecError (ProofPreimage F)
  unfolding comm_commitment
  committed run preimage =
      if ir.do_communications_commitment
      then (and_then (ok_or call.comm_rand (vm "the call carries no randomness for the commitment"))
          λ rand.
            and_then (comm_commitment preimage run rand)
              λ comm. ok (record preimage { communications_commitment = some (comm, rand) }))
      else ok preimage

  unfoldable pub finish :
      Run F P → List VmOp → List AlignedValue → ℕ → Result ExecError (Executed F P S)
  unfolding committed preimage_of transcript_of outputs_of
  finish run vm_ops reads rounds = and_then (map_err not_applied (ledger.query vm_ops)) λ post.
      and_then (committed run (preimage_of (transcript_of ledger vm_ops) (outputs_of ledger reads)))
        λ preimage. ok (record {
          preimage = preimage;
          ops = vm_ops;
          reads = reads;
          post = post;
          run = run;
          rounds = rounds;
        })

  -- What a settled round goes through.
  unfoldable pub settle :
      Run F P → Decoded → List AlignedValue → Option String → ℕ → Result ExecError (Executed F P S)
  unfolding no_failures no_error check_answers check_alignments with_reads finish
  settle run decoded reads whole_err round =
      and_then (no_failures run.assert_failures run.walk_failures) λ _.
        and_then (no_error decoded.error) λ _.
          and_then (check_answers decoded.alignments reads whole_err) λ _.
            and_then (check_alignments 0 decoded.alignments reads)
              λ _. and_then (with_reads decoded.ops reads) λ vm_ops. finish run vm_ops reads round

  -- A round: the walk, the program it emits, and the reads that the state answers.
  unfoldable pub probe :
      List F → Result ExecError (Run F P × Decoded × List AlignedValue × Option String)
  unfolding simulate_with preimage_of decode_prefix gather_reads
  probe guess =
      and_then (map_err circuit (simulate_with ops be ir (preimage_of [] guess) gather)) λ run.
        let decoded = decode_prefix ops fab run.public_transcript_inputs in
        and_then (map_err vm (gather_reads ledger.run_gather decoded.ops))
          λ (reads, whole_err). ok (run, decoded, reads, whole_err)

  -- `for round in 1..=MAX_ROUNDS`, with the rounds that are left
  unfoldable pub execute_from : (left round : ℕ) → List F → Result ExecError (Executed F P S)
  unfolding probe settle elems_eq outputs_of
  execute_from zero round guess = err diverged
  execute_from (suc left) round guess = and_then (probe guess) λ (run, decoded, reads, whole_err).
      elim (elems_eq ops (outputs_of ledger reads) guess) [
        | false ↦ execute_from left (round + 1) (outputs_of ledger reads)
        | true ↦ settle run decoded reads whole_err round
      ]

  unfoldable pub execute : Result ExecError (Executed F P S)
  unfolding execute_from
  execute = execute_from max_rounds 1 []
