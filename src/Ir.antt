-- ===== src/Ir.antt =====
-- The ZKIR v3 instruction set as minocrab's passes, builder and interpreter read it
-- (crates/minocrab-ir/src/v3/passes.rs, crates/minocrab-ir/src/v3.rs).
-- The instruction type itself is declared upstream (midnight-zkir-v3); its constructors and fields
-- are the ones that the exhaustive matches of passes.rs list. `F` is the upstream field `Fr` and `A`
-- the upstream `Alignment`, which the instructions only carry.
pub mod Dataflow
pub mod Field
pub mod Scope
use minocrab.Prelude.{ℕ, String, Bool, Option, List}

abbrev pub Identifier : Type 0
Identifier = String

pub data IrType : Type 0 where
  native bytes32 jubjub_point jubjub_scalar : IrType
  secp256k1_point secp256k1_base secp256k1_scalar : IrType
  secp256r1_point secp256r1_base secp256r1_scalar : IrType
  curve25519_point curve25519_base curve25519_scalar : IrType

pub data Operand (F : Type 0) : Type 0 where
  variable : Identifier → Operand F
  immediate : F → Operand F

-- The operands come first, then the parameters, then the identifiers that are bound.
pub data Instruction (F A : Type 0) : Type 0 where
  encode : Operand F → List Identifier → Instruction F A
  assert : Operand F → Instruction F A
  cond_select : Operand F → Operand F → Operand F → Identifier → Instruction F A
  constrain_bits : Operand F → ℕ → Instruction F A
  constrain_eq : Operand F → Operand F → Instruction F A
  constrain_to_boolean : Operand F → Instruction F A
  copy : Operand F → Identifier → Instruction F A
  impact : Operand F → List (Operand F) → Instruction F A
  ec_mul : Operand F → Operand F → Identifier → Instruction F A
  ec_mul_generator : Operand F → Identifier → Instruction F A
  hash_to_curve : List (Operand F) → Identifier → Instruction F A
  into_coordinates : Operand F → Identifier → Identifier → Instruction F A
  from_coordinates : Operand F → Operand F → Identifier → Instruction F A
  into_bytes32 : Operand F → Identifier → Instruction F A
  from_bytes32 : Operand F → IrType → Identifier → Instruction F A
  bytes32_into_low_high : Operand F → Identifier → Identifier → Instruction F A
  reverse_bytes : Operand F → Identifier → Instruction F A
  bytes32_from_low_high : Operand F → Operand F → Identifier → Instruction F A
  div_mod_power_of_two : Operand F → ℕ → List Identifier → Instruction F A
  reconstitute_field : Operand F → Operand F → ℕ → Identifier → Instruction F A
  transient_hash : List (Operand F) → Identifier → Instruction F A
  persistent_hash : A → List (Operand F) → Identifier → Instruction F A
  keccak256 : A → List (Operand F) → Identifier → Instruction F A
  test_eq : Operand F → Operand F → Identifier → Instruction F A
  add : Operand F → Operand F → Identifier → Instruction F A
  mul : Operand F → Operand F → Identifier → Instruction F A
  neg : Operand F → Identifier → Instruction F A
  inv : Operand F → Identifier → Instruction F A
  not : Operand F → Identifier → Instruction F A
  less_than : Operand F → Operand F → ℕ → Identifier → Instruction F A
  jubjub_scalar_from_native : Operand F → Identifier → Instruction F A
  public_input : Option (Operand F) → IrType → Identifier → Instruction F A
  private_input : Option (Operand F) → IrType → Identifier → Instruction F A
  output : List (Operand F) → Instruction F A

-- A circuit: its typed arguments, its output signature, the commitment flag and the stream.
pub record IrSource (F A : Type 0) : Type 0 where
  pub inputs : List (Identifier × IrType)
  pub outputs : List IrType
  pub do_communications_commitment : Bool
  pub instructions : List (Instruction F A)
