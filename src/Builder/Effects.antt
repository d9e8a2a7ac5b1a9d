-- ===== src/Builder/Effects.antt =====
-- The methods of `Builder3` in crates/minocrab-ir/src/v3.rs that declare an argument, read a
-- transcript, or add a constraint or an effect.
use minocrab.Prelude.{ℕ, String, Bool, true, false, Option, none, some, List, [], ◌∷◌, ◌++◌, check}
use minocrab.Ir.{Identifier, IrType, Operand, Instruction}
use minocrab.Sim.Exec.{Exec, pure, lift, get_state, modify, ◌>>=◌, ◌>>◌}
use minocrab.Builder.Types.{supports_eq_add}
use minocrab.Builder.State.{
  Val, Arg, Builder3, name, operand, ty, expect, expect_native, expect_same, operands, natives,
  push, fresh,
}

unfoldable pub is_empty : {F A : Type 0} → List (Instruction F A) → Bool
is_empty [] = true
is_empty (_ ∷ _) = false

unfoldable pub is_none : Option (List IrType) → Bool
is_none none = true
is_none (some _) = false

module _ {F A : Type 0} (render : String → ℕ → Identifier) where
  unfoldable pub input : String → IrType → Exec (Builder3 F A) Val
  unfolding is_empty fresh name
  input label t = do
    b ← get_state
    lift (check (is_empty b.instructions) "inputs must be declared before instructions")
    v ← fresh render label t
    id ← name v
    modify λ b. record b { inputs = b.inputs ++ (id, t) ∷ [] }
    pure v

  unfoldable pub guard_operand : Option (Arg F) → String → Exec (Builder3 F A) (Option (Operand F))
  unfolding expect_native operand
  guard_operand none op = pure none
  guard_operand (some g) op = do expect_native g op; x ← operand g; pure (some x)

  unfoldable pub private_input : IrType → Option (Arg F) → Exec (Builder3 F A) Val
  unfolding name guard_operand push fresh
  private_input t guard = do
    g ← guard_operand guard "private_input guard"
    out ← fresh render "w" t
    o ← name out
    push (Instruction.private_input g t o)
    pure out

  unfoldable pub public_input : IrType → Option (Arg F) → Exec (Builder3 F A) Val
  unfolding name guard_operand push fresh
  public_input t guard = do
    g ← guard_operand guard "public_input guard"
    out ← fresh render "pi" t
    o ← name out
    push (Instruction.public_input g t o)
    pure out

module _ {F A : Type 0} where
  unfoldable pub assert : Arg F → Exec (Builder3 F A) (Unit {0})
  unfolding operand push expect_native
  assert cond = do expect_native cond "assert"; x ← operand cond; push (Instruction.assert x)

  unfoldable pub constrain_eq : Arg F → Arg F → Exec (Builder3 F A) (Unit {0})
  unfolding operand push expect expect_same supports_eq_add
  constrain_eq a b = do
    expect a supports_eq_add "constrain_eq"
    expect b supports_eq_add "constrain_eq"
    expect_same a b "constrain_eq"
    x ← operand a
    y ← operand b
    push (Instruction.constrain_eq x y)

  unfoldable pub constrain_bits : Arg F → ℕ → Exec (Builder3 F A) (Unit {0})
  unfolding operand push expect_native
  constrain_bits a bits = do
    expect_native a "constrain_bits"
    x ← operand a
    push (Instruction.constrain_bits x bits)

  unfoldable pub constrain_to_boolean : Arg F → Exec (Builder3 F A) (Unit {0})
  unfolding operand push expect_native
  constrain_to_boolean a = do
    expect_native a "constrain_to_boolean"
    x ← operand a
    push (Instruction.constrain_to_boolean x)

  unfoldable pub impact : Arg F → List (Arg F) → Exec (Builder3 F A) (Unit {0})
  unfolding operand natives push expect_native
  impact guard inputs = do
    expect_native guard "impact guard"
    xs ← natives inputs "impact"
    g ← operand guard
    push (Instruction.impact g xs)

  -- `iter().map(|&v| self.ty(v)).collect()`
  unfoldable pub types_of : List (Arg F) → Exec (Builder3 F A) (List IrType)
  unfolding ty
  types_of [] = pure []
  types_of (v ∷ vs) = do t ← ty v; ts ← types_of vs; pure (t ∷ ts)

  unfoldable pub output : List (Arg F) → Exec (Builder3 F A) (Unit {0})
  unfolding is_none types_of operands push
  output vals = do
    b ← get_state
    lift (
        check (is_none b.outputs) "output() already called: a v3 circuit has one Output terminator")
    ts ← types_of vals
    modify λ b. record b { outputs = some ts }
    xs ← operands vals
    push (Instruction.output xs)

  unfoldable pub dedup_range_constraints : Bool → Exec (Builder3 F A) (Unit {0})
  dedup_range_constraints on = modify λ b. record b { dedup_constraints = on }
