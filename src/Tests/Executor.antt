-- ===== src/Tests/Executor.antt =====
-- The executor and its decoder on small programs and a circuit that reads the ledger once.
use minocrab.Prelude.{
  length, ℕ, zero, suc, ◌<◌, ◌≤◌, ◌≡◌, ◌≢◌, refl, String, Bool, true, false, some, none, List, [],
  ◌∷◌, arith, Result, ok, err,
}
use minocrab.Ir.{IrType, variable, immediate, IrSource, public_input, impact}
use minocrab.Ledger.Fab.{bytes, AlignedValue, Op}
use minocrab.Ledger.Laws.{PlainCode, OperandCode}
use minocrab.Executor.Decoder.{DecodeError, decode_program, decode_prefix}
use minocrab.Executor.Decoder.Total.Program.{decode_prefix-fuel}
use minocrab.Executor.Decoder.RoundTrip.Ops.{plain-DecodesOp, operand-DecodesOp}
use minocrab.Executor.Decoder.RoundTrip.Program.{
  ProgramDecodes, program_end, program_op, flatten, decode_program-Program,
}
use minocrab.Executor.Decoder.Declares.{reads_in, decode_prefix-declares}
use minocrab.Executor.Gather.{GatherEvent, read, is_ok, attempt, longest, longest-maximal}
use minocrab.Executor.Execute.{
  alignment_eq, atom_eq, VmOp, Call, Ledger, Executed, max_rounds, execute,
}
use minocrab.Executor.Settled.{execute-IsSettled}
use minocrab.Executor.Settling.{IsSettled}
use minocrab.Sim.Value.{native}
use minocrab.Sim.Step.{guard_holds, read_public, take_impact}
use minocrab.Ledger.Impact.{limbs, atom_limbs}
use minocrab.Tests.Instance.{nat_ops, nat_laws, nat_backend}
use minocrab.Tests.Ledger.{nat_fab}

decode_prefix-fuel_example :
    (decode_prefix nat_ops nat_fab (0x12 ∷ 2 ∷ 0x0b ∷ 0x10 ∷ [])).error
    ≢ some DecodeError.out_of_fuel
decode_prefix-fuel_example = decode_prefix-fuel nat_ops nat_fab (0x12 ∷ 2 ∷ 0x0b ∷ 0x10 ∷ [])

-- A read, then a push that ends early.
decode_prefix-declares_example :
    length (decode_prefix nat_ops nat_fab (0x0c ∷ 1 ∷ 8 ∷ 7 ∷ 0x10 ∷ [])).alignments
    ≡ reads_in (decode_prefix nat_ops nat_fab (0x0c ∷ 1 ∷ 8 ∷ 7 ∷ 0x10 ∷ [])).ops
decode_prefix-declares_example =
    decode_prefix-declares nat_ops nat_fab (0x0c ∷ 1 ∷ 8 ∷ 7 ∷ 0x10 ∷ [])

abbrev program_streams : List (List ℕ)
program_streams = (0x12 ∷ 2 ∷ []) ∷ (0x0b ∷ []) ∷ (0x32 ∷ []) ∷ []

abbrev small_program : List Op
small_program = Op.branch 2 ∷ Op.pop ∷ Op.dup 2 ∷ []

program_streams-Program : ProgramDecodes nat_ops nat_fab nat_laws program_streams small_program []
program_streams-Program =
    program_op (0x12 ∷ 2 ∷ []) (Op.branch 2) _ _ []
      (operand-DecodesOp nat_ops nat_fab nat_laws (OperandCode.branch (omega arith)))
      (program_op (0x0b ∷ []) Op.pop _ _ [] (plain-DecodesOp nat_ops nat_fab nat_laws PlainCode.pop)
        (program_op (0x32 ∷ []) (Op.dup 2) _ _ []
          (plain-DecodesOp nat_ops nat_fab nat_laws (PlainCode.dup (omega arith))) program_end))

decode_program-Program_example :
    decode_program nat_ops nat_fab (flatten program_streams) ≡ ok (small_program, [])
decode_program-Program_example =
    decode_program-Program nat_ops nat_fab nat_laws program_streams-Program

abbrev answer : AlignedValue
answer = record { value = (7 ∷ []) ∷ []; alignment = bytes 8 ∷ [] }

-- A machine that refuses everything from a `pop` on.
abbrev refuses : List Op → Bool
refuses [] = false
refuses (Op.pop ∷ ops) = true
refuses (op ∷ ops) = refuses ops

abbrev run : List Op → Result String (List GatherEvent)
run program = elim (refuses program) [ true ↦ err "empty stack" | false ↦ ok (read answer ∷ []) ]

small_program-monotone :
    (m n : ℕ)
    → m ≤ n
    → is_ok (attempt run small_program m) ≡ false
    → is_ok (attempt run small_program n) ≡ false
unfolding is_ok attempt
small_program-monotone zero n le h = cc
small_program-monotone (suc zero) n le h = cc
small_program-monotone (suc (suc m)) zero le h = absurd (omega arith)
small_program-monotone (suc (suc m)) (suc zero) le h = absurd (omega arith)
small_program-monotone (suc (suc m)) (suc (suc n)) le h = refl

longest-maximal_example :
    (is_ok (attempt run small_program (longest run small_program)) ≡ true)
    × (longest run small_program < 3)
    × ((n : ℕ) → longest run small_program < n → is_ok (attempt run small_program n) ≡ false)
unfolding is_ok attempt
longest-maximal_example = longest-maximal run small_program refl refl small_program-monotone

-- The circuit reads one number from the ledger and emits the read that the number comes from.
abbrev reader : IrSource ℕ (Unit {0})
reader = record {
  inputs = [];
  outputs = [];
  do_communications_commitment = false;
  instructions =
      public_input none IrType.native "%v.0"
      ∷ impact (immediate 1) (immediate 0x0c ∷ immediate 1 ∷ immediate 8 ∷ variable "%v.0" ∷ [])
      ∷ [];
}

abbrev call : Call ℕ
call = record { inputs = []; private_transcript = []; binding_input = 5; comm_rand = none }

abbrev op_elements : VmOp → List ℕ
op_elements (op, some v) = 0x0c ∷ 1 ∷ 8 ∷ 7 ∷ []
op_elements (op, none) = []

abbrev ledger : Ledger ℕ (List VmOp)
ledger = record {
  run_gather = λ program. ok (read answer ∷ []);
  query = λ program. ok program;
  value_repr = λ v. 7 ∷ [];
  vm_op_repr = op_elements;
}

abbrev popeq_seven : List VmOp
popeq_seven = (Op.popeq false, some answer) ∷ []

abbrev executed : Executed ℕ (Unit {0}) (List VmOp)
executed = record {
  preimage = record {
    inputs = [];
    binding_input = 5;
    communications_commitment = none;
    public_transcript_inputs = 12 ∷ 1 ∷ 8 ∷ 7 ∷ [];
    public_transcript_outputs = 7 ∷ [];
    private_transcript = [];
  };
  ops = popeq_seven;
  reads = answer ∷ [];
  post = popeq_seven;
  run = record {
    memory = ("%v.0", native 7) ∷ [];
    pis = 5 ∷ 12 ∷ 1 ∷ 8 ∷ 7 ∷ [];
    pi_skips = none ∷ [];
    binding_input = 5;
    comm_comm = none;
    outputs = [];
    consumed_private = 0;
    consumed_public = 1;
    op_counts = ("public_input", 1) ∷ ("impact", 1) ∷ [];
    public_transcript_inputs = 12 ∷ 1 ∷ 8 ∷ 7 ∷ [];
    assert_failures = [];
    walk_failures = [];
  };
  rounds = 2;
}

-- The first round guesses nothing, the second one the read that the first one gave.
reader-executes : execute nat_ops nat_fab nat_backend ledger reader call ≡ ok executed
unfolding execute guard_holds read_public take_impact limbs atom_limbs alignment_eq atom_eq
reader-executes = refl

execute-IsSettled_example :
    IsSettled nat_ops nat_laws nat_fab nat_backend ledger reader call executed
    × (1 ≤ 2)
    × (2 ≤ max_rounds)
execute-IsSettled_example =
    execute-IsSettled nat_ops nat_laws nat_fab nat_backend ledger reader call executed
      reader-executes
