-- ===== src/Tests/Passes.antt =====
-- The passes on a small circuit: an argument, a copied 1 that is asserted, two range constraints
-- of which the second is implied, a sum, and the output.
use minocrab.Prelude.{ℕ, String, ◌≡◌, refl, false, some, none, List, [], ◌∷◌, All, arith}
use minocrab.Ir.{
  IrType, Operand, variable, immediate, IrSource, copy, assert, constrain_bits, add, output,
}
use minocrab.Ir.Dataflow.{operands, returned, defined_identifiers}
use minocrab.Ir.Scope.{IsWellScoped}
use minocrab.Sim.Backend.{ProofPreimage}
use minocrab.Sim.Run.{simulate}
use minocrab.Sim.Run.Same.{Same}
use minocrab.Passes.Pipeline.{Pass, run_pipeline, by_name, dedup_pass, fold_pass}
use minocrab.Passes.Pipeline.Preserves.{simulate-run_pipeline}
use minocrab.Passes.Fold.{folded}
use minocrab.Passes.Fold.Preserves.{simulate-folded}
use minocrab.Passes.Asserts.{drop_true_asserts}
use minocrab.Passes.Asserts.Preserves.{simulate-drop_true_asserts}
use minocrab.Passes.Dedup.{dedup_range_constraints}
use minocrab.Passes.Dedup.Constraints.{FitsField}
use minocrab.Passes.Dedup.Preserves.{simulate-dedup_range_constraints}
use minocrab.Tests.Instance.{nat_ops, nat_laws, nat_backend}

abbrev x : Operand ℕ
x = variable "%x.0"

abbrev pub circuit : IrSource ℕ (Unit {0})
circuit = record {
  inputs = ("%x.0", IrType.native) ∷ [];
  outputs = IrType.native ∷ [];
  do_communications_commitment = false;
  instructions =
      copy (immediate 1) "%one.1"
      ∷ assert (immediate 1)
      ∷ assert (variable "%one.1")
      ∷ constrain_bits x 8
      ∷ constrain_bits x 16
      ∷ add x (variable "%one.1") "%sum.2"
      ∷ output (variable "%sum.2" ∷ [])
      ∷ [];
}

abbrev pub preimage : ProofPreimage ℕ
preimage = record {
  inputs = 7 ∷ [];
  binding_input = 5;
  communications_commitment = none;
  public_transcript_inputs = [];
  public_transcript_outputs = [];
  private_transcript = [];
}

pub circuit-IsWellScoped : IsWellScoped circuit
unfolding operands returned defined_identifiers
circuit-IsWellScoped = (
  (tt, tt),
  tt,
  (refl, tt),
  (
    (tt, tt),
    tt,
    tt,
    (
      (refl, tt),
      tt,
      tt,
      (
        (refl, tt),
        tt,
        tt,
        ((refl, tt), tt, tt, ((refl, (refl, tt)), tt, (refl, tt), (tt, (refl, tt), tt, tt))),
      ),
    ),
  ),
)

pub circuit-FitsField : All (FitsField nat_ops) circuit.instructions
circuit-FitsField = (tt, (tt, (tt, (omega arith, (omega arith, (tt, (tt, tt)))))))

simulate-folded_example :
    Same
      (simulate nat_ops nat_backend (folded circuit) preimage)
      (simulate nat_ops nat_backend circuit preimage)
simulate-folded_example = simulate-folded nat_ops nat_backend preimage circuit circuit-IsWellScoped

simulate-drop_true_asserts_example :
    Same
      (simulate nat_ops nat_backend
        (record circuit { instructions = drop_true_asserts nat_ops circuit.instructions })
        preimage)
      (simulate nat_ops nat_backend circuit preimage)
simulate-drop_true_asserts_example =
    simulate-drop_true_asserts nat_ops nat_laws nat_backend preimage circuit

simulate-dedup_range_constraints_example :
    Same
      (simulate nat_ops nat_backend
        (record circuit { instructions = dedup_range_constraints circuit.instructions })
        preimage)
      (simulate nat_ops nat_backend circuit preimage)
simulate-dedup_range_constraints_example =
    simulate-dedup_range_constraints nat_ops nat_laws nat_backend preimage circuit
      circuit-IsWellScoped circuit-FitsField

abbrev pipeline : List (Pass ℕ (Unit {0}))
pipeline = dedup_pass ∷ fold_pass ∷ []

pipeline-IsBuiltin : All (λ p. (name : String) × (by_name nat_ops name ≡ some p)) pipeline
unfolding by_name
pipeline-IsBuiltin = (("dedup_range_constraints", refl), (("fold_immediate_copies", refl), tt))

simulate-run_pipeline_example :
    Same
      (simulate nat_ops nat_backend
        (record circuit { instructions = (run_pipeline pipeline circuit.instructions).0 })
        preimage)
      (simulate nat_ops nat_backend circuit preimage)
simulate-run_pipeline_example =
    simulate-run_pipeline nat_ops nat_laws nat_backend preimage pipeline circuit pipeline-IsBuiltin
      circuit-IsWellScoped circuit-FitsField
