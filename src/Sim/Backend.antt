-- ===== src/Sim/Backend.antt =====
-- The upstream functions that the interpreter calls (midnight-zkir-v3, midnight-transient-crypto,
-- sha2, sha3), as parameters, and the proof preimage that it runs against.
use minocrab.Prelude.{ℕ, String, Bool, Option, List, Result}
use minocrab.Ir.{IrType}
use minocrab.Sim.Value.{IrValue}

pub record Backend (F P A : Type 0) : Type 0 where
  pub encoded_len : IrType → ℕ
  pub decode_offcircuit : List F → IrType → Result String (IrValue F P)
  pub encode_offcircuit : IrValue F P → List (IrValue F P)
  pub add_offcircuit : IrValue F P → IrValue F P → Result String (IrValue F P)
  pub mul_offcircuit : IrValue F P → IrValue F P → Result String (IrValue F P)
  pub neg_offcircuit : IrValue F P → Result String (IrValue F P)
  pub inv_offcircuit : IrValue F P → Result String (IrValue F P)
  pub constrain_eq_offcircuit : IrValue F P → IrValue F P → Result String (Unit {0})
  pub select_offcircuit : Bool → IrValue F P → IrValue F P → Result String (IrValue F P)
  pub test_eq_offcircuit : IrValue F P → IrValue F P → Result String Bool
  pub ec_mul_offcircuit : IrValue F P → IrValue F P → Result String (IrValue F P)
  pub into_coordinates_offcircuit : IrValue F P → Result String (IrValue F P × IrValue F P)
  pub from_coordinates_offcircuit : IrValue F P → IrValue F P → Result String (IrValue F P)
  pub into_bytes32_offcircuit : IrValue F P → Result String (IrValue F P)
  pub from_bytes32_offcircuit : IrType → List ℕ → Result String (IrValue F P)
  pub native_to_jubjub_scalar : F → P
  pub transient_hash : List F → F
  pub transient_commit : List F → F → F
  pub hash_to_curve : List F → P
  -- `parse_field_repr` of an alignment, followed by `binary_repr`
  pub aligned_bytes : A → List F → Option (List ℕ)
  pub sha256 : List ℕ → List ℕ
  pub keccak256 : List ℕ → List ℕ
  -- `default()` of each payload type, and the two generators
  pub default_payload : IrType → P
  pub jubjub_generator : P
  pub secp256k1_generator : P

-- `ProofPreimage`, as far as the interpreter reads it.
pub record ProofPreimage (F : Type 0) : Type 0 where
  pub inputs : List F
  pub binding_input : F
  pub communications_commitment : Option (F × F)
  pub public_transcript_inputs : List F
  pub public_transcript_outputs : List F
  pub private_transcript : List F
