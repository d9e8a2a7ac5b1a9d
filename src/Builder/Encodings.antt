-- ===== src/Builder/Encodings.antt =====
-- The curve, `Bytes<32>` and encoding methods of `Builder3` in crates/minocrab-ir/src/v3.rs.
use minocrab.Prelude.{ℕ, String, List, ok_or, check}
use minocrab.Ir.{Identifier, IrType, Instruction}
use minocrab.Sim.Value.{type_eq}
use minocrab.Sim.Exec.{Exec, pure, lift, ◌>>=◌, ◌>>◌}
use minocrab.Builder.Types.{
  is_bytes32, supports_bytes32_conversion, coordinate_type, scalar_type, generator_point,
}
use minocrab.Builder.State.{
  Val, Arg, Builder3, name, operand, ty, expect, expect_native, push, fresh, fresh_many, name_all,
}

module _ {F A : Type 0} (render : String → ℕ → Identifier) where
  unfoldable pub ec_mul : Arg F → Arg F → Exec (Builder3 F A) Val
  unfolding name operand ty push fresh scalar_type type_eq
  ec_mul point scalar = do
    pt ← ty point
    expected_scalar ← lift (ok_or (scalar_type pt) "ec_mul")
    st ← ty scalar
    lift (check (type_eq st expected_scalar) "ec_mul")
    out ← fresh render "ecmul" pt
    x ← operand point
    y ← operand scalar
    o ← name out
    push (Instruction.ec_mul x y o)
    pure out

  unfoldable pub ec_mul_generator : Arg F → Exec (Builder3 F A) Val
  unfolding name operand ty push fresh generator_point
  ec_mul_generator scalar = do
    st ← ty scalar
    point_ty ← lift (ok_or (generator_point st) "ec_mul_generator")
    out ← fresh render "ecgen" point_ty
    x ← operand scalar
    o ← name out
    push (Instruction.ec_mul_generator x o)
    pure out

  unfoldable pub into_coordinates : Arg F → Exec (Builder3 F A) (Val × Val)
  unfolding name operand ty push fresh coordinate_type
  into_coordinates point = do
    pt ← ty point
    coord ← lift (ok_or (coordinate_type pt) "into_coordinates")
    x ← fresh render "x" coord
    y ← fresh render "y" coord
    p ← operand point
    nx ← name x
    ny ← name y
    push (Instruction.into_coordinates p nx ny)
    pure (x, y)

  unfoldable pub from_coordinates : IrType → Arg F → Arg F → Exec (Builder3 F A) Val
  unfolding name operand ty push fresh coordinate_type type_eq
  from_coordinates point_ty x y = do
    coord ← lift (ok_or (coordinate_type point_ty) "from_coordinates")
    tx ← ty x
    lift (check (type_eq tx coord) "from_coordinates")
    t_y ← ty y
    lift (check (type_eq t_y coord) "from_coordinates")
    out ← fresh render "pt" point_ty
    a ← operand x
    b ← operand y
    o ← name out
    push (Instruction.from_coordinates a b o)
    pure out

  unfoldable pub into_bytes32 : Arg F → Exec (Builder3 F A) Val
  unfolding name operand ty push fresh expect supports_bytes32_conversion
  into_bytes32 a = do
    expect a supports_bytes32_conversion "into_bytes32"
    out ← fresh render "bytes" IrType.bytes32
    x ← operand a
    o ← name out
    push (Instruction.into_bytes32 x o)
    pure out

  unfoldable pub from_bytes32 : Arg F → IrType → Exec (Builder3 F A) Val
  unfolding name operand ty push fresh expect is_bytes32 supports_bytes32_conversion
  from_bytes32 bytes t = do
    expect bytes is_bytes32 "from_bytes32"
    lift (check (supports_bytes32_conversion t) "from_bytes32")
    out ← fresh render "field" t
    x ← operand bytes
    o ← name out
    push (Instruction.from_bytes32 x t o)
    pure out

  unfoldable pub reverse_bytes : Arg F → Exec (Builder3 F A) Val
  unfolding name operand ty push fresh expect is_bytes32
  reverse_bytes a = do
    expect a is_bytes32 "reverse_bytes"
    out ← fresh render "rev" IrType.bytes32
    x ← operand a
    o ← name out
    push (Instruction.reverse_bytes x o)
    pure out

  unfoldable pub bytes32_into_low_high : Arg F → Exec (Builder3 F A) (Val × Val)
  unfolding name operand ty push fresh expect is_bytes32
  bytes32_into_low_high bytes = do
    expect bytes is_bytes32 "bytes32_into_low_high"
    low ← fresh render "low" IrType.native
    high ← fresh render "high" IrType.native
    x ← operand bytes
    l ← name low
    h ← name high
    push (Instruction.bytes32_into_low_high x l h)
    pure (low, high)

  unfoldable pub bytes32_from_low_high : Arg F → Arg F → Exec (Builder3 F A) Val
  unfolding name operand ty push fresh expect_native
  bytes32_from_low_high low high = do
    expect_native low "bytes32_from_low_high"
    expect_native high "bytes32_from_low_high"
    out ← fresh render "bytes" IrType.bytes32
    x ← operand low
    y ← operand high
    o ← name out
    push (Instruction.bytes32_from_low_high x y o)
    pure out

  unfoldable pub jubjub_scalar_from_native : Arg F → Exec (Builder3 F A) Val
  unfolding name operand ty push fresh expect_native
  jubjub_scalar_from_native a = do
    expect_native a "jubjub_scalar_from_native"
    out ← fresh render "jscalar" IrType.jubjub_scalar
    x ← operand a
    o ← name out
    push (Instruction.jubjub_scalar_from_native x o)
    pure out

  -- `encoded_len` is the upstream method of `IrType`.
  unfoldable pub encode : (IrType → ℕ) → Arg F → Exec (Builder3 F A) (List Val)
  unfolding operand ty push fresh_many name_all
  encode encoded_len input = do
    t ← ty input
    outs ← fresh_many render "enc" IrType.native (encoded_len t)
    x ← operand input
    os ← name_all outs
    push (Instruction.encode x os)
    pure outs
