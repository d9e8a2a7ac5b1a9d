-- ===== src/Tests/Run.antt =====
-- The interpreter's properties at concrete operands, and its run of a finished circuit.
use minocrab.Prelude.{
  ◌++◌, ◌⊎◌, ◌≢◌, err, String, ℕ, length, ◌<◌, ◌^◌, ◌≡◌, ◌↔◌, refl, Bool, true, false, some, List,
  [], ◌∷◌, arith, ok, err,
}
use minocrab.Prelude.Assoc.{get}
use minocrab.Ir.{
  Identifier, IrType, Operand, variable, immediate, Instruction, IrSource, add, constrain_bits,
}
use minocrab.Ir.Dataflow.{operands, returned, map_operands, defined_identifiers}
use minocrab.Ir.Scope.{names, IsWellScoped}
use minocrab.Passes.Dedup.{dedup_keep}
use minocrab.Passes.Dedup.Oversized.{dedup_keep-oversized}
use minocrab.Passes.Kept.{Kept}
use minocrab.Passes.Kept.Compose.{Covers}
use minocrab.Sim.Value.{IrValue, native, ir_type_of, default_ir_value, ir_type_of-default_ir_value}
use minocrab.Sim.Resolve.{operand, bounded_bits, bool_of}
use minocrab.Sim.Bits.{bounded_bits_iff, bool_of-bounded_bits}
use minocrab.Sim.Step.{Walk, verify}
use minocrab.Sim.Step.Arms.{eval}
use minocrab.Sim.Step.Binds.{names-eval}
use minocrab.Sim.Step.Congruence.{eval-map_operands}
use minocrab.Sim.Run.{simulate}
use minocrab.Sim.Run.Same.{Same}
use minocrab.Builder.State.{Builder3, val, fresh, name, ty}
use minocrab.Builder.Fresh.{fresh_lem, add_lem}
use minocrab.Builder.Arithmetic
use minocrab.Builder.Types.{supports_eq_add}
use minocrab.Builder.Finish.{finish, finish_kept}
use minocrab.Builder.Finish.Preserves.{built, simulate-finish, finish_kept-Covers, optimised}
use minocrab.Tests.Instance.{nat_ops, nat_laws, nat_backend}
use minocrab.Tests.Passes.{circuit, preimage, circuit-IsWellScoped, circuit-FitsField}

abbrev builder : Builder3 ℕ (Unit {0})
builder = record {
  names = "%x.0" ∷ "%one.1" ∷ "%sum.2" ∷ [];
  types = IrType.native ∷ IrType.native ∷ IrType.native ∷ [];
  inputs = circuit.inputs;
  instructions = circuit.instructions;
  outputs = some (IrType.native ∷ []);
  dedup_constraints = true;
}

builder-IsWellScoped : IsWellScoped (built builder false)
unfolding built
builder-IsWellScoped = circuit-IsWellScoped

simulate-finish_example :
    (ir : IrSource ℕ (Unit {0})) × (finish nat_ops builder false ≡ ok ir)
    × Same
        (simulate nat_ops nat_backend ir preimage)
        (simulate nat_ops nat_backend (built builder false) preimage)
simulate-finish_example =
    simulate-finish nat_ops nat_laws nat_backend preimage builder false builder-IsWellScoped
      circuit-FitsField

abbrev walk : Walk ℕ (Unit {0})
walk = record {
  pis = [];
  pi_skips = [];
  public_transcript_inputs = [];
  assert_failures = [];
  transcript_truncated = false;
  public_transcript_inputs_idx = 0;
  public_transcript_outputs_idx = 0;
  private_transcript_idx = 0;
  outputs = [];
}

abbrev sum : Instruction ℕ (Unit {0})
sum = add (immediate 3) (immediate 4) "%sum.2"

finish_kept-Covers_example :
    (kept : Kept) × (finish_kept nat_ops builder false
      ≡ ok (
        record (built builder false) { instructions = optimised nat_ops true builder.instructions },
        kept,
      ))
    × Covers kept 7 (length (optimised nat_ops true builder.instructions))
finish_kept-Covers_example = finish_kept-Covers nat_ops builder false

sum_runs :
    eval nat_ops nat_backend preimage verify [] (operand []) 0 sum walk
    ≡ (ok (("%sum.2", native 7) ∷ []), walk)
unfolding eval operand
sum_runs = refl

abbrev bindings : List (Identifier × IrValue ℕ (Unit {0}))
bindings = ("%sum.2", native 7) ∷ []

names-eval_example : names bindings ≡ defined_identifiers sum
names-eval_example =
    names-eval nat_ops nat_backend preimage verify [] (operand []) 0 sum walk walk bindings sum_runs

bounded_bits_iff_example :
    ((bs : List Bool) × (bounded_bits nat_ops 200 (some 8) ≡ ok bs)) ↔ (nat_laws.to_nat 200 < 2 ^ 8)
bounded_bits_iff_example = bounded_bits_iff nat_ops nat_laws 200 8 (omega arith)

bool_of-bounded_bits_example :
    ((b : Bool) × (bool_of nat_ops 1 ≡ ok b))
    ↔ ((bs : List Bool) × (bounded_bits nat_ops 1 (some 1) ≡ ok bs))
bool_of-bounded_bits_example = bool_of-bounded_bits nat_ops nat_laws 1 (omega arith)

dedup_keep-oversized_example :
    ((dedup_keep {F = ℕ} {A = Unit {0}} (("%x.0", 8) ∷ []) (constrain_bits (variable "%x.0") 300)).0
      ≡ false)
    × (eval {A = Unit {0}} nat_ops nat_backend preimage verify []
          (operand (("%x.0", native 7) ∷ []))
          4
          (constrain_bits (variable "%x.0") 300)
          walk
        ≡ (err "excessive bit bound", walk))
unfolding get
dedup_keep-oversized_example =
    dedup_keep-oversized nat_ops nat_backend preimage [] (("%x.0", 8) ∷ []) "%x.0" 8 300
      (("%x.0", native 7) ∷ []) 7 4 walk refl (omega arith) (omega arith) refl

ir_type_of-default_ir_value_example :
    ir_type_of (default_ir_value nat_ops (λ t. tt) IrType.bytes32) ≡ IrType.bytes32
ir_type_of-default_ir_value_example = ir_type_of-default_ir_value nat_ops (λ t. tt) IrType.bytes32

-- The fold's rewrite of `%one.1` to the immediate 3, on a sum that reads it.
abbrev named_sum : Instruction ℕ (Unit {0})
named_sum = add (variable "%one.1") (immediate 4) "%sum.2"

abbrev inlined : Operand ℕ → Operand ℕ
inlined (variable id) = immediate 3
inlined (immediate x) = immediate x

one_resolves :
    operand {P = Unit {0}} [] (inlined (variable "%one.1"))
    ≡ operand (("%one.1", native 3) ∷ []) (variable "%one.1")
unfolding operand get
one_resolves = refl

four_resolves :
    operand {P = Unit {0}} [] (inlined (immediate 4))
    ≡ operand (("%one.1", native 3) ∷ []) (immediate 4)
unfolding operand
four_resolves = refl

eval-map_operands_example :
    eval nat_ops nat_backend preimage verify [] (operand []) 0 (map_operands inlined named_sum)
    ≡ eval nat_ops nat_backend preimage verify [] (operand (("%one.1", native 3) ∷ [])) 0 named_sum
unfolding operands returned
eval-map_operands_example =
    eval-map_operands nat_ops nat_backend preimage [] (operand (("%one.1", native 3) ∷ []))
      (operand []) inlined 0 named_sum (one_resolves, (four_resolves, tt)) tt

abbrev labelled : String → ℕ → Identifier
labelled label index = label

fresh_lem_example :
    let (result, b') = fresh {F = ℕ} {A = Unit {0}} labelled "w" IrType.bytes32 builder in
    (result ≡ ok 3)
    × (name 3 b' ≡ (ok "w", b'))
    × (ty (val 3) b' ≡ (ok IrType.bytes32, b'))
    × ((u : ℕ)
        → u < 3
        → ((name u b').0 ≡ (name u builder).0) × ((ty (val u) b').0 ≡ (ty (val u) builder).0))
    × (length b'.names ≡ length b'.types)
fresh_lem_example = fresh_lem labelled "w" IrType.bytes32 builder (refl, omega arith)

abbrev sum_builder : Builder3 ℕ (Unit {0})
sum_builder = record builder {
  names = builder.names ++ "add" ∷ [];
  types = builder.types ++ IrType.native ∷ [];
  instructions = builder.instructions ++ add (variable "%x.0") (variable "%sum.2") "add" ∷ [];
}

add_lem_example :
    ((IrType.native ≡ IrType.native)
      × (supports_eq_add IrType.native ≡ true)
      × (Arithmetic.add labelled (val 0) (val 2) builder ≡ (ok 3, sum_builder)))
    ⊎ (((supports_eq_add IrType.native ≡ false)
          ⊎ ((supports_eq_add IrType.native ≡ false) ⊎ (IrType.native ≢ IrType.native)))
        × (Arithmetic.add labelled (val 0) (val 2) builder ≡ (err "add", builder)))
add_lem_example =
    add_lem labelled builder 0 2 IrType.native IrType.native "%x.0" "%sum.2" (refl, omega arith)
      refl refl refl refl
