-- ===== src/Sim/Step/Ops.antt =====
-- The larger arms of the interpreter, a function for each (`simulate_with` of
-- crates/minocrab-sim/src/v3.rs).
use mathlib.Core.List.{reverse}
use minocrab.Prelude.{
  Option, ℕ, ◌*◌, ◌-◌, true, false, none, some, List, [], ◌∷◌, length, take, drop, zip, leb, ◌==◌,
  if◌then◌else◌, check, collect,
}
use minocrab.Ir.{Operand, Identifier, IrType}
use minocrab.Ir.Field.{FieldOps}
use minocrab.Sim.Value.{IrValue, default_ir_value, try_into_bytes}
use minocrab.Sim.Backend.{Backend, ProofPreimage}
use minocrab.Sim.Exec.{Exec, pure, lift, ◌>>=◌, ◌>>◌}
use minocrab.Sim.Resolve.{Resolver, operand_fr, operand_bool, operand_bits, from_bits, from_bool}
use minocrab.Sim.Step.{
  Mode, Walk, read_public, read_private, skip_impact, take_impact, guard_holds, emit_outputs,
}
use minocrab.Sim.Step.Pieces.{
  power_of_two, overflows_field, generator_for, hash_aligned, into_low_high, from_low_high,
}

module _ {F P A : Type 0} (ops : FieldOps F) (be : Backend F P A) (pre : ProofPreimage F)
    (mode : Mode) (types : List IrType) (ρ : Resolver F P) (at : ℕ) where
  unfoldable pub run_cond_select :
      Operand F
      → Operand F
      → Operand F
      → Identifier
      → Exec (Walk F P) (List (Identifier × IrValue F P))
  run_cond_select bit a b o = do
    chosen ← lift (operand_bool ops ρ bit)
    x ← lift (ρ a)
    y ← lift (ρ b)
    result ← lift (be.select_offcircuit chosen x y)
    pure ((o, result) ∷ [])

  unfoldable pub run_test_eq :
      Operand F → Operand F → Identifier → Exec (Walk F P) (List (Identifier × IrValue F P))
  run_test_eq a b o = do
    x ← lift (ρ a)
    y ← lift (ρ b)
    result ← lift (be.test_eq_offcircuit x y)
    pure ((o, IrValue.native (from_bool ops result)) ∷ [])

  unfoldable pub run_public_input :
      Option (Operand F) → IrType → Identifier → Exec (Walk F P) (List (Identifier × IrValue F P))
  run_public_input guard t o = do
    on ← lift (guard_holds ops be pre mode ρ guard)
    val ←
        if on
        then read_public ops be pre mode t
        else pure (default_ir_value ops be.default_payload t)
    pure ((o, val) ∷ [])

  unfoldable pub run_private_input :
      Option (Operand F) → IrType → Identifier → Exec (Walk F P) (List (Identifier × IrValue F P))
  run_private_input guard t o = do
    on ← lift (guard_holds ops be pre mode ρ guard)
    val ←
        if on
        then read_private ops be pre mode t
        else pure (default_ir_value ops be.default_payload t)
    pure ((o, val) ∷ [])

  unfoldable pub run_div_mod_power_of_two :
      Operand F → ℕ → List Identifier → Exec (Walk F P) (List (Identifier × IrValue F P))
  run_div_mod_power_of_two val bits outputs = do
    lift (check (length outputs == 2) "DivModPowerOfTwo requires exactly 2 outputs")
    lift (check (leb bits (ops.fr_bytes_stored * 8)) "excessive bit count")
    val_bits ← lift (operand_bits ops ρ val none)
    pure (
        zip outputs (
          IrValue.native (from_bits ops (drop bits val_bits))
          ∷ IrValue.native (from_bits ops (take bits val_bits))
          ∷ []))

  unfoldable pub run_reconstitute_field :
      Operand F → Operand F → ℕ → Identifier → Exec (Walk F P) (List (Identifier × IrValue F P))
  run_reconstitute_field divisor modulus bits o = do
    lift (check (leb bits (ops.fr_bytes_stored * 8)) "excessive bit count")
    modulus_bits ← lift (operand_bits ops ρ modulus (some bits))
    divisor_bits ← lift (operand_bits ops ρ divisor (some (ops.fr_bits - bits)))
    lift (
        check (if overflows_field ops modulus_bits divisor_bits then false else true)
          "reconstituted element overflows field")
    m ← lift (operand_fr ops ρ modulus)
    d ← lift (operand_fr ops ρ divisor)
    pure ((o, IrValue.native (ops.plus (ops.times (power_of_two ops bits) d) m)) ∷ [])

  unfoldable pub run_less_than :
      Operand F → Operand F → ℕ → Identifier → Exec (Walk F P) (List (Identifier × IrValue F P))
  run_less_than a b bits o = do
    x ← lift (operand_bits ops ρ a (some bits))
    y ← lift (operand_bits ops ρ b (some bits))
    pure ((o, IrValue.native (from_bool ops (ops.less (from_bits ops x) (from_bits ops y)))) ∷ [])

  unfoldable pub run_jubjub_scalar_from_native :
      Operand F → Identifier → Exec (Walk F P) (List (Identifier × IrValue F P))
  run_jubjub_scalar_from_native n o = do
    x ← lift (operand_fr ops ρ n)
    pure ((o, IrValue.jubjub_scalar (be.native_to_jubjub_scalar x)) ∷ [])

  unfoldable pub run_transient_hash :
      List (Operand F) → Identifier → Exec (Walk F P) (List (Identifier × IrValue F P))
  run_transient_hash inputs o = do
    vals ← lift (collect (operand_fr ops ρ) inputs)
    pure ((o, IrValue.native (be.transient_hash vals)) ∷ [])

  unfoldable pub run_persistent_hash :
      A → List (Operand F) → Identifier → Exec (Walk F P) (List (Identifier × IrValue F P))
  run_persistent_hash alignment inputs o = do
    vals ← lift (collect (operand_fr ops ρ) inputs)
    digest ← lift (hash_aligned ops be be.sha256 alignment vals)
    pure ((o, digest) ∷ [])

  unfoldable pub run_keccak256 :
      A → List (Operand F) → Identifier → Exec (Walk F P) (List (Identifier × IrValue F P))
  run_keccak256 alignment inputs o = do
    vals ← lift (collect (operand_fr ops ρ) inputs)
    digest ← lift (hash_aligned ops be be.keccak256 alignment vals)
    pure ((o, digest) ∷ [])

  unfoldable pub run_impact :
      Operand F → List (Operand F) → Exec (Walk F P) (List (Identifier × IrValue F P))
  run_impact guard inputs = do
    on ← lift (operand_bool ops ρ guard)
    if on
        then (do
          values ← lift (collect (operand_fr ops ρ) inputs)
          take_impact ops be pre mode values)
        else skip_impact ops be pre mode (length inputs)
    pure []

  unfoldable pub run_hash_to_curve :
      List (Operand F) → Identifier → Exec (Walk F P) (List (Identifier × IrValue F P))
  run_hash_to_curve inputs o = do
    vals ← lift (collect (operand_fr ops ρ) inputs)
    pure ((o, IrValue.jubjub_point (be.hash_to_curve vals)) ∷ [])

  unfoldable pub run_ec_mul :
      Operand F → Operand F → Identifier → Exec (Walk F P) (List (Identifier × IrValue F P))
  run_ec_mul a scalar o = do
    p ← lift (ρ a)
    s ← lift (ρ scalar)
    r ← lift (be.ec_mul_offcircuit p s)
    pure ((o, r) ∷ [])

  unfoldable pub run_ec_mul_generator :
      Operand F → Identifier → Exec (Walk F P) (List (Identifier × IrValue F P))
  run_ec_mul_generator scalar o = do
    s ← lift (ρ scalar)
    p ← lift (generator_for ops be s)
    r ← lift (be.ec_mul_offcircuit p s)
    pure ((o, r) ∷ [])

  unfoldable pub run_into_coordinates :
      Operand F → Identifier → Identifier → Exec (Walk F P) (List (Identifier × IrValue F P))
  run_into_coordinates point x y = do
    p ← lift (ρ point)
    coordinates ← lift (be.into_coordinates_offcircuit p)
    pure ((x, coordinates.0) ∷ (y, coordinates.1) ∷ [])

  unfoldable pub run_from_coordinates :
      Operand F → Operand F → Identifier → Exec (Walk F P) (List (Identifier × IrValue F P))
  run_from_coordinates x y o = do
    vx ← lift (ρ x)
    vy ← lift (ρ y)
    p ← lift (be.from_coordinates_offcircuit vx vy)
    pure ((o, p) ∷ [])

  unfoldable pub run_into_bytes32 :
      Operand F → Identifier → Exec (Walk F P) (List (Identifier × IrValue F P))
  run_into_bytes32 input o = do
    x ← lift (ρ input)
    bytes ← lift (be.into_bytes32_offcircuit x)
    pure ((o, bytes) ∷ [])

  unfoldable pub run_from_bytes32 :
      Operand F → IrType → Identifier → Exec (Walk F P) (List (Identifier × IrValue F P))
  run_from_bytes32 bytes t o = do
    v ← lift (ρ bytes)
    bs ← lift (try_into_bytes v)
    x ← lift (be.from_bytes32_offcircuit t bs)
    pure ((o, x) ∷ [])

  unfoldable pub run_reverse_bytes :
      Operand F → Identifier → Exec (Walk F P) (List (Identifier × IrValue F P))
  run_reverse_bytes bytes o = do
    v ← lift (ρ bytes)
    bs ← lift (try_into_bytes v)
    pure ((o, IrValue.bytes32 (reverse bs)) ∷ [])

  unfoldable pub run_bytes32_into_low_high :
      Operand F → Identifier → Identifier → Exec (Walk F P) (List (Identifier × IrValue F P))
  run_bytes32_into_low_high bytes low high = do
    v ← lift (ρ bytes)
    bs ← lift (try_into_bytes v)
    halves ← lift (into_low_high ops be bs)
    pure ((low, halves.0) ∷ (high, halves.1) ∷ [])

  unfoldable pub run_bytes32_from_low_high :
      Operand F → Operand F → Identifier → Exec (Walk F P) (List (Identifier × IrValue F P))
  run_bytes32_from_low_high low high o = do
    l ← lift (ρ low)
    h ← lift (ρ high)
    bytes ← lift (from_low_high ops be l h)
    pure ((o, bytes) ∷ [])

  unfoldable pub run_output : List (Operand F) → Exec (Walk F P) (List (Identifier × IrValue F P))
  run_output vals = do
    lift (check (length vals == length types) "Output: signature declares another number of values")
    emit_outputs ops be pre mode ρ vals types
    pure []
