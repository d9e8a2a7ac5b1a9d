-- ===== src/Passes/Asserts/Preserves.antt =====
-- `drop_true_asserts` (crates/minocrab-ir/src/v3/passes.rs) against the interpreter.
use minocrab.Prelude.{ℕ, ◌≡◌, refl, ap, Bool, true, false, List, ok, []}
use minocrab.Ir.{IrType, Instruction, IrSource, immediate, variable, assert}
use minocrab.Ir.Field.{FieldOps, FieldLaws, eq_zero_of_eq_one}
use minocrab.Passes.Asserts.{is_true_assert, assert_keep, drop_true_asserts}
use minocrab.Sim.Backend.{Backend, ProofPreimage}
use minocrab.Sim.Resolve.{Memory, operand, operand_bool}
use minocrab.Sim.Step.{Walk, verify}
use minocrab.Sim.Step.Arms.{eval}
use minocrab.Prelude.Assoc.{insert_all}
use minocrab.Sim.Step.Congruence.{eval_at_any_index}
use minocrab.Sim.Run.{simulate}
use minocrab.Sim.Run.Same.{Same}
use minocrab.Sim.Run.Walking.{StepAgrees, run_from-retain_from, simulate-Same}

module _ {F P A : Type 0} where
  -- Nothing changes in the memory that the two walks share.
  abbrev SameMemory : Unit {0} → List (Instruction F A) → Memory F P → Memory F P → Type 0
  SameMemory s is m m' = m' ≡ m

module _ {F P A : Type 0} (ops : FieldOps F) (laws : FieldLaws ops) (be : Backend F P A)
    (pre : ProofPreimage F) (types : List IrType) where
  true_assert_passes :
      (m : Memory F P) (at : ℕ) (w : Walk F P) (i : Instruction F A)
      → is_true_assert ops i ≡ true
      → eval ops be pre verify types (operand m) at i w ≡ (ok [], w)
  unfolding eval is_true_assert operand operand_bool
  true_assert_passes m at w (assert (immediate x)) h = rw (eq_zero_of_eq_one ops laws x h, h)
  true_assert_passes m at w (assert (variable x)) h = cc
  true_assert_passes m at w _ h = cc

  kept_or_true :
      (b : Bool) (i : Instruction F A) (rest : List (Instruction F A)) (m m' : Memory F P)
      → is_true_assert ops i ≡ b
      → m' ≡ m
      → StepAgrees ops be pre types SameMemory
          (elim b [ true ↦ false | false ↦ true ])
          i
          tt
          i
          rest
          m
          m'
  kept_or_true true i rest m m' h e = λ at w. ([], true_assert_passes m at w i h, e)
  kept_or_true false i rest m m' h e = (
    λ at at' w. rw e (ap (λ g. g w) (eval_at_any_index ops be pre types (operand m) at at' i)),
    λ at w w' binds runs. ap (λ m. insert_all m binds) e,
  )

module _ {F P A : Type 0} (ops : FieldOps F) (laws : FieldLaws ops) (be : Backend F P A)
    (pre : ProofPreimage F) where
  -- The interpreter takes `drop_true_asserts` of a stream and the stream for the same circuit.
  pub simulate-drop_true_asserts :
      (ir : IrSource F A)
      → Same
          (simulate ops be (record ir { instructions = drop_true_asserts ops ir.instructions }) pre)
          (simulate ops be ir pre)
  unfolding drop_true_asserts assert_keep
  simulate-drop_true_asserts ir = simulate-Same ops be pre ir _ λ st ready.
      run_from-retain_from ops be pre ir.outputs SameMemory (assert_keep ops)
        (λ s i rest m m' e.
          kept_or_true ops laws be pre ir.outputs (is_true_assert ops i) i rest m m' refl e)
        tt 0 0 0 ir.instructions st st refl refl
