-- ===== src/Sim/Value.antt =====
-- Runtime values (crates/minocrab-sim/src/v3.rs). The upstream `IrValue` has a constructor for each
-- type; `P` stands for the upstream point and foreign-field types that the code only passes on.
use minocrab.Prelude.{ℕ, String, Bool, ◌==◌, List, Result, ok, err, replicate, ◌≡◌, refl}
use minocrab.Ir.{IrType}
use minocrab.Ir.Field.{FieldOps}

pub data IrValue (F P : Type 0) : Type 0 where
  native : F → IrValue F P
  bytes32 : List ℕ → IrValue F P
  jubjub_point jubjub_scalar : P → IrValue F P
  secp256k1_point secp256k1_base secp256k1_scalar : P → IrValue F P
  secp256r1_point secp256r1_base secp256r1_scalar : P → IrValue F P
  curve25519_point curve25519_base curve25519_scalar : P → IrValue F P

-- The discriminant of a type.
unfoldable pub type_code : IrType → ℕ
type_code IrType.native = 0
type_code IrType.bytes32 = 1
type_code IrType.jubjub_point = 2
type_code IrType.jubjub_scalar = 3
type_code IrType.secp256k1_point = 4
type_code IrType.secp256k1_base = 5
type_code IrType.secp256k1_scalar = 6
type_code IrType.secp256r1_point = 7
type_code IrType.secp256r1_base = 8
type_code IrType.secp256r1_scalar = 9
type_code IrType.curve25519_point = 10
type_code IrType.curve25519_base = 11
type_code IrType.curve25519_scalar = 12

-- `==` on `IrType`
unfoldable pub type_eq : IrType → IrType → Bool
unfolding type_code
type_eq a b = type_code a == type_code b

module _ {F P : Type 0} where
  unfoldable pub ir_type_of : IrValue F P → IrType
  ir_type_of (native _) = IrType.native
  ir_type_of (bytes32 _) = IrType.bytes32
  ir_type_of (jubjub_point _) = IrType.jubjub_point
  ir_type_of (jubjub_scalar _) = IrType.jubjub_scalar
  ir_type_of (secp256k1_point _) = IrType.secp256k1_point
  ir_type_of (secp256k1_base _) = IrType.secp256k1_base
  ir_type_of (secp256k1_scalar _) = IrType.secp256k1_scalar
  ir_type_of (secp256r1_point _) = IrType.secp256r1_point
  ir_type_of (secp256r1_base _) = IrType.secp256r1_base
  ir_type_of (secp256r1_scalar _) = IrType.secp256r1_scalar
  ir_type_of (curve25519_point _) = IrType.curve25519_point
  ir_type_of (curve25519_base _) = IrType.curve25519_base
  ir_type_of (curve25519_scalar _) = IrType.curve25519_scalar

  -- The zero or identity of a type; `zero` gives upstream's `default()` of each payload.
  unfoldable pub default_ir_value : FieldOps F → (IrType → P) → IrType → IrValue F P
  default_ir_value ops zero IrType.native = native (ops.from_u64 0)
  default_ir_value ops zero IrType.bytes32 = bytes32 (replicate 32 0)
  default_ir_value ops zero IrType.jubjub_point = jubjub_point (zero IrType.jubjub_point)
  default_ir_value ops zero IrType.jubjub_scalar = jubjub_scalar (zero IrType.jubjub_scalar)
  default_ir_value ops zero IrType.secp256k1_point = secp256k1_point (zero IrType.secp256k1_point)
  default_ir_value ops zero IrType.secp256k1_base = secp256k1_base (zero IrType.secp256k1_base)
  default_ir_value ops zero IrType.secp256k1_scalar =
      secp256k1_scalar (zero IrType.secp256k1_scalar)
  default_ir_value ops zero IrType.secp256r1_point = secp256r1_point (zero IrType.secp256r1_point)
  default_ir_value ops zero IrType.secp256r1_base = secp256r1_base (zero IrType.secp256r1_base)
  default_ir_value ops zero IrType.secp256r1_scalar =
      secp256r1_scalar (zero IrType.secp256r1_scalar)
  default_ir_value ops zero IrType.curve25519_point =
      curve25519_point (zero IrType.curve25519_point)
  default_ir_value ops zero IrType.curve25519_base = curve25519_base (zero IrType.curve25519_base)
  default_ir_value ops zero IrType.curve25519_scalar =
      curve25519_scalar (zero IrType.curve25519_scalar)

  -- `TryInto<Fr>` and `TryInto<[u8; 32]>` of a value
  unfoldable pub try_into_fr : IrValue F P → Result String F
  try_into_fr (native x) = ok x
  try_into_fr _ = err "expected a Native value"

  unfoldable pub try_into_bytes : IrValue F P → Result String (List ℕ)
  try_into_bytes (bytes32 bs) = ok bs
  try_into_bytes _ = err "expected a Bytes<32> value"

  -- The default of a type has that type.
  pub ir_type_of-default_ir_value :
      (ops : FieldOps F) (zero : IrType → P) (t : IrType)
      → ir_type_of (default_ir_value ops zero t) ≡ t
  unfolding ir_type_of default_ir_value
  ir_type_of-default_ir_value ops zero IrType.native = refl
  ir_type_of-default_ir_value ops zero _ = refl
