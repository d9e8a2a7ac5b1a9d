-- ===== src/Builder/Arithmetic.antt =====
-- The value-producing methods of `Builder3` in crates/minocrab-ir/src/v3.rs: constants, arithmetic,
-- comparisons, the bit split and the hashes.
use minocrab.Prelude.{ℕ, String, List, [], ◌∷◌}
use minocrab.Ir.{Identifier, IrType, immediate, Instruction}
use minocrab.Sim.Exec.{Exec, pure, ◌>>=◌, ◌>>◌}
use minocrab.Builder.Types.{supports_eq_add, supports_mul}
use minocrab.Builder.State.{
  Val, Arg, Builder3, name, operand, ty, expect, expect_native, expect_same, operands, natives,
  push, fresh,
}

module _ {F A : Type 0} (render : String → ℕ → Identifier) where
  unfoldable pub imm_value : F → Exec (Builder3 F A) Val
  unfolding name push fresh
  imm_value x = do
    out ← fresh render "imm" IrType.native
    o ← name out
    push (Instruction.copy (immediate x) o)
    pure out

  unfoldable pub copy : Arg F → Exec (Builder3 F A) Val
  unfolding name operand ty push fresh
  copy a = do
    t ← ty a
    out ← fresh render "copy" t
    x ← operand a
    o ← name out
    push (Instruction.copy x o)
    pure out

  unfoldable pub add : Arg F → Arg F → Exec (Builder3 F A) Val
  unfolding name operand ty push fresh expect expect_same supports_eq_add
  add a b = do
    expect a supports_eq_add "add"
    expect b supports_eq_add "add"
    t ← expect_same a b "add"
    out ← fresh render "add" t
    x ← operand a
    y ← operand b
    o ← name out
    push (Instruction.add x y o)
    pure out

  unfoldable pub mul : Arg F → Arg F → Exec (Builder3 F A) Val
  unfolding name operand ty push fresh expect expect_same supports_mul
  mul a b = do
    expect a supports_mul "mul"
    expect b supports_mul "mul"
    t ← expect_same a b "mul"
    out ← fresh render "mul" t
    x ← operand a
    y ← operand b
    o ← name out
    push (Instruction.mul x y o)
    pure out

  unfoldable pub neg : Arg F → Exec (Builder3 F A) Val
  unfolding name operand ty push fresh expect supports_eq_add
  neg a = do
    expect a supports_eq_add "neg"
    t ← ty a
    out ← fresh render "neg" t
    x ← operand a
    o ← name out
    push (Instruction.neg x o)
    pure out

  unfoldable pub inv : Arg F → Exec (Builder3 F A) Val
  unfolding name operand ty push fresh expect supports_mul
  inv a = do
    expect a supports_mul "inv"
    t ← ty a
    out ← fresh render "inv" t
    x ← operand a
    o ← name out
    push (Instruction.inv x o)
    pure out

  unfoldable pub not : Arg F → Exec (Builder3 F A) Val
  unfolding name operand ty push fresh expect_native
  not a = do
    expect_native a "not"
    out ← fresh render "not" IrType.native
    x ← operand a
    o ← name out
    push (Instruction.not x o)
    pure out

  unfoldable pub test_eq : Arg F → Arg F → Exec (Builder3 F A) Val
  unfolding name operand ty push fresh expect expect_same supports_eq_add
  test_eq a b = do
    expect a supports_eq_add "test_eq"
    expect b supports_eq_add "test_eq"
    expect_same a b "test_eq"
    out ← fresh render "eq" IrType.native
    x ← operand a
    y ← operand b
    o ← name out
    push (Instruction.test_eq x y o)
    pure out

  unfoldable pub less_than : Arg F → Arg F → ℕ → Exec (Builder3 F A) Val
  unfolding name operand ty push fresh expect_native
  less_than a b bits = do
    expect_native a "less_than"
    expect_native b "less_than"
    out ← fresh render "lt" IrType.native
    x ← operand a
    y ← operand b
    o ← name out
    push (Instruction.less_than x y bits o)
    pure out

  unfoldable pub cond_select : Arg F → Arg F → Arg F → Exec (Builder3 F A) Val
  unfolding name operand ty push fresh expect expect_native expect_same supports_eq_add
  cond_select bit a b = do
    expect_native bit "cond_select"
    expect a supports_eq_add "cond_select"
    expect b supports_eq_add "cond_select"
    t ← expect_same a b "cond_select"
    out ← fresh render "sel" t
    c ← operand bit
    x ← operand a
    y ← operand b
    o ← name out
    push (Instruction.cond_select c x y o)
    pure out

  unfoldable pub div_mod_power_of_two : Arg F → ℕ → Exec (Builder3 F A) (Val × Val)
  unfolding name operand ty push fresh expect_native
  div_mod_power_of_two a bits = do
    expect_native a "div_mod_power_of_two"
    div ← fresh render "div" IrType.native
    modulus ← fresh render "mod" IrType.native
    x ← operand a
    d ← name div
    m ← name modulus
    push (Instruction.div_mod_power_of_two x bits (d ∷ m ∷ []))
    pure (div, modulus)

  unfoldable pub reconstitute_field : Arg F → Arg F → ℕ → Exec (Builder3 F A) Val
  unfolding name operand ty push fresh expect_native
  reconstitute_field divisor modulus bits = do
    expect_native divisor "reconstitute_field"
    expect_native modulus "reconstitute_field"
    out ← fresh render "recon" IrType.native
    x ← operand divisor
    y ← operand modulus
    o ← name out
    push (Instruction.reconstitute_field x y bits o)
    pure out

  unfoldable pub transient_hash : List (Arg F) → Exec (Builder3 F A) Val
  unfolding name natives push fresh
  transient_hash inputs = do
    xs ← natives inputs "transient_hash"
    out ← fresh render "thash" IrType.native
    o ← name out
    push (Instruction.transient_hash xs o)
    pure out

  unfoldable pub hash_to_curve : List (Arg F) → Exec (Builder3 F A) Val
  unfolding name natives push fresh
  hash_to_curve inputs = do
    xs ← natives inputs "hash_to_curve"
    out ← fresh render "h2c" IrType.jubjub_point
    o ← name out
    push (Instruction.hash_to_curve xs o)
    pure out

  unfoldable pub persistent_hash : A → List (Arg F) → Exec (Builder3 F A) Val
  unfolding name operands push fresh
  persistent_hash alignment inputs = do
    xs ← operands inputs
    out ← fresh render "phash" IrType.bytes32
    o ← name out
    push (Instruction.persistent_hash alignment xs o)
    pure out

  unfoldable pub keccak256 : A → List (Arg F) → Exec (Builder3 F A) Val
  unfolding name operands push fresh
  keccak256 alignment inputs = do
    xs ← operands inputs
    out ← fresh render "keccak" IrType.bytes32
    o ← name out
    push (Instruction.keccak256 alignment xs o)
    pure out
