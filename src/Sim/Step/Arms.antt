-- ===== src/Sim/Step/Arms.antt =====
-- The arms of the interpreter's `match` on an instruction (crates/minocrab-sim/src/v3.rs).
use minocrab.Prelude.{ℕ, true, false, some, List, [], ◌∷◌, length, zip, ◌==◌, if◌then◌else◌, check}
use minocrab.Ir.{
  Identifier, IrType, Instruction, encode, assert, cond_select, constrain_bits, constrain_eq,
  constrain_to_boolean, copy, impact, ec_mul, ec_mul_generator, hash_to_curve, into_coordinates,
  from_coordinates, into_bytes32, from_bytes32, bytes32_into_low_high, reverse_bytes,
  bytes32_from_low_high, div_mod_power_of_two, reconstitute_field, transient_hash, persistent_hash,
  keccak256, test_eq, add, mul, neg, inv, not, less_than, jubjub_scalar_from_native, public_input,
  private_input, output,
}
use minocrab.Ir.Field.{FieldOps}
use minocrab.Sim.Value.{IrValue}
use minocrab.Sim.Backend.{Backend, ProofPreimage}
use minocrab.Sim.Exec.{Exec, pure, lift, ◌>>=◌, ◌>>◌}
use minocrab.Sim.Resolve.{Resolver, operand_bool, operand_bits, from_bool}
use minocrab.Sim.Step.{Mode, Walk, failed_assert}
use minocrab.Sim.Step.Ops.{
  run_cond_select, run_test_eq, run_public_input, run_private_input, run_div_mod_power_of_two,
  run_reconstitute_field, run_less_than, run_jubjub_scalar_from_native, run_transient_hash,
  run_persistent_hash, run_keccak256, run_impact, run_hash_to_curve, run_ec_mul,
  run_ec_mul_generator, run_into_coordinates, run_from_coordinates, run_into_bytes32,
  run_from_bytes32, run_reverse_bytes, run_bytes32_into_low_high, run_bytes32_from_low_high,
  run_output,
}

module _ {F P A : Type 0} (ops : FieldOps F) (be : Backend F P A) (pre : ProofPreimage F)
    (mode : Mode) (types : List IrType) (ρ : Resolver F P) (at : ℕ) where
  -- The bindings that an instruction inserts, or its failure.
  unfoldable pub eval : Instruction F A → Exec (Walk F P) (List (Identifier × IrValue F P))
  unfolding run_bytes32_from_low_high run_bytes32_into_low_high run_cond_select
      run_div_mod_power_of_two run_ec_mul run_ec_mul_generator run_from_bytes32 run_from_coordinates
      run_hash_to_curve run_impact run_into_bytes32 run_into_coordinates
      run_jubjub_scalar_from_native run_keccak256 run_less_than run_output run_persistent_hash
      run_private_input run_public_input run_reconstitute_field run_reverse_bytes run_test_eq
      run_transient_hash
  eval (encode input outputs) = do
    val ← lift (ρ input)
    lift (
        check (length (be.encode_offcircuit val) == length outputs)
          "unexpected output length of encode instruction")
    pure (zip outputs (be.encode_offcircuit val))
  eval (add a b o) = do
    x ← lift (ρ a)
    y ← lift (ρ b)
    result ← lift (be.add_offcircuit x y)
    pure ((o, result) ∷ [])
  eval (mul a b o) = do
    x ← lift (ρ a)
    y ← lift (ρ b)
    result ← lift (be.mul_offcircuit x y)
    pure ((o, result) ∷ [])
  eval (neg a o) = do x ← lift (ρ a); result ← lift (be.neg_offcircuit x); pure ((o, result) ∷ [])
  eval (inv a o) = do x ← lift (ρ a); result ← lift (be.inv_offcircuit x); pure ((o, result) ∷ [])
  eval (not a o) = do
    b ← lift (operand_bool ops ρ a)
    pure ((o, IrValue.native (from_bool ops (if b then false else true))) ∷ [])
  eval (constrain_eq a b) = do
    x ← lift (ρ a)
    y ← lift (ρ b)
    lift (be.constrain_eq_offcircuit x y)
    pure []
  eval (cond_select bit a b o) = run_cond_select ops be pre mode types ρ at bit a b o
  eval (assert cond) = do
    holds ← lift (operand_bool ops ρ cond)
    if holds then pure tt else failed_assert ops be pre mode at
    pure []
  eval (test_eq a b o) = run_test_eq ops be pre mode types ρ at a b o
  eval (public_input guard t o) = run_public_input ops be pre mode types ρ at guard t o
  eval (private_input guard t o) = run_private_input ops be pre mode types ρ at guard t o
  eval (copy val o) = do v ← lift (ρ val); pure ((o, v) ∷ [])
  eval (constrain_to_boolean val) = do b ← lift (operand_bool ops ρ val); pure []
  eval (constrain_bits val bits) = do bs ← lift (operand_bits ops ρ val (some bits)); pure []
  eval (div_mod_power_of_two val bits outputs) =
      run_div_mod_power_of_two ops be pre mode types ρ at val bits outputs
  eval (reconstitute_field divisor modulus bits o) =
      run_reconstitute_field ops be pre mode types ρ at divisor modulus bits o
  eval (less_than a b bits o) = run_less_than ops be pre mode types ρ at a b bits o
  eval (jubjub_scalar_from_native n o) =
      run_jubjub_scalar_from_native ops be pre mode types ρ at n o
  eval (transient_hash inputs o) = run_transient_hash ops be pre mode types ρ at inputs o
  eval (persistent_hash alignment inputs o) =
      run_persistent_hash ops be pre mode types ρ at alignment inputs o
  eval (keccak256 alignment inputs o) = run_keccak256 ops be pre mode types ρ at alignment inputs o
  eval (impact guard inputs) = run_impact ops be pre mode types ρ at guard inputs
  eval (hash_to_curve inputs o) = run_hash_to_curve ops be pre mode types ρ at inputs o
  eval (ec_mul a scalar o) = run_ec_mul ops be pre mode types ρ at a scalar o
  eval (ec_mul_generator scalar o) = run_ec_mul_generator ops be pre mode types ρ at scalar o
  eval (into_coordinates point x y) = run_into_coordinates ops be pre mode types ρ at point x y
  eval (from_coordinates x y o) = run_from_coordinates ops be pre mode types ρ at x y o
  eval (into_bytes32 input o) = run_into_bytes32 ops be pre mode types ρ at input o
  eval (from_bytes32 bytes t o) = run_from_bytes32 ops be pre mode types ρ at bytes t o
  eval (reverse_bytes bytes o) = run_reverse_bytes ops be pre mode types ρ at bytes o
  eval (bytes32_into_low_high bytes low high) =
      run_bytes32_into_low_high ops be pre mode types ρ at bytes low high
  eval (bytes32_from_low_high low high o) =
      run_bytes32_from_low_high ops be pre mode types ρ at low high o
  eval (output vals) = run_output ops be pre mode types ρ at vals
