-- ===== src/Builder/Types.antt =====
-- The type tests of crates/minocrab-ir/src/v3.rs: which types an instruction supports.
use minocrab.Prelude.{Bool, true, false, ◌||◌, Option, none, some}
use minocrab.Ir.{IrType}

unfoldable pub is_native : IrType → Bool
is_native IrType.native = true
is_native _ = false

unfoldable pub is_bytes32 : IrType → Bool
is_bytes32 IrType.bytes32 = true
is_bytes32 _ = false

unfoldable pub is_foreign_field : IrType → Bool
is_foreign_field IrType.secp256k1_base = true
is_foreign_field IrType.secp256k1_scalar = true
is_foreign_field IrType.secp256r1_base = true
is_foreign_field IrType.secp256r1_scalar = true
is_foreign_field IrType.curve25519_base = true
is_foreign_field IrType.curve25519_scalar = true
is_foreign_field _ = false

unfoldable pub is_point : IrType → Bool
is_point IrType.jubjub_point = true
is_point IrType.secp256k1_point = true
is_point IrType.secp256r1_point = true
is_point IrType.curve25519_point = true
is_point _ = false

unfoldable pub supports_eq_add : IrType → Bool
unfolding is_native is_foreign_field is_point
supports_eq_add t = (is_native t || is_foreign_field t) || is_point t

unfoldable pub supports_mul : IrType → Bool
unfolding is_native is_foreign_field
supports_mul t = is_native t || is_foreign_field t

unfoldable pub supports_bytes32_conversion : IrType → Bool
unfolding is_native is_foreign_field
supports_bytes32_conversion t = is_native t || is_foreign_field t

unfoldable pub coordinate_type : IrType → Option IrType
coordinate_type IrType.jubjub_point = some IrType.native
coordinate_type IrType.secp256k1_point = some IrType.secp256k1_base
coordinate_type IrType.secp256r1_point = some IrType.secp256r1_base
coordinate_type IrType.curve25519_point = some IrType.curve25519_base
coordinate_type _ = none

unfoldable pub scalar_type : IrType → Option IrType
scalar_type IrType.jubjub_point = some IrType.jubjub_scalar
scalar_type IrType.secp256k1_point = some IrType.secp256k1_scalar
scalar_type IrType.secp256r1_point = some IrType.secp256r1_scalar
scalar_type IrType.curve25519_point = some IrType.curve25519_scalar
scalar_type _ = none

-- The point type that `ec_mul_generator` gives for a scalar type.
unfoldable pub generator_point : IrType → Option IrType
generator_point IrType.jubjub_scalar = some IrType.jubjub_point
generator_point IrType.secp256k1_scalar = some IrType.secp256k1_point
generator_point _ = none
