-- ===== src/Builder/State.antt =====
-- The state of `Builder3` and the private helpers of its methods (crates/minocrab-ir/src/v3.rs). A
-- method is an `Exec` over the builder; a panic is `err`, with the operation's name for an operand
-- of another type. `render` stands for `format!("%{label}.{index}")` of the Rust library.
use minocrab.Prelude.{
  ℕ, zero, suc, ◌%◌, ◌^◌, String, Bool, false, Option, none, List, [], ◌∷◌, ◌++◌, length, get_elem?,
  ok, ok_or, check,
}
use minocrab.Ir.{Identifier, IrType, Operand, variable, immediate, Instruction}
use minocrab.Sim.Value.{type_eq}
use minocrab.Sim.Exec.{Exec, pure, lift, modify, ◌>>=◌, ◌>>◌}
use minocrab.Builder.Types.{is_native}

-- `Val(u32)`
abbrev pub Val : Type 0
Val = ℕ

pub data Arg (F : Type 0) : Type 0 where
  val : Val → Arg F
  imm : F → Arg F

pub record Builder3 (F A : Type 0) : Type 0 where
  pub names : List Identifier
  pub types : List IrType
  pub inputs : List (Identifier × IrType)
  pub instructions : List (Instruction F A)
  pub outputs : Option (List IrType)
  pub dedup_constraints : Bool

unfoldable pub new : {F A : Type 0} → Builder3 F A
new = record {
  names = [];
  types = [];
  inputs = [];
  instructions = [];
  outputs = none;
  dedup_constraints = false;
}

module _ {F A : Type 0} where
  unfoldable pub name : Val → Exec (Builder3 F A) Identifier
  name v b = (ok_or (get_elem? b.names v) "index out of bounds", b)

  unfoldable pub operand : Arg F → Exec (Builder3 F A) (Operand F)
  unfolding name
  operand (val v) = do id ← name v; pure (variable id)
  operand (imm x) = pure (immediate x)

  unfoldable pub ty : Arg F → Exec (Builder3 F A) IrType
  ty (val v) b = (ok_or (get_elem? b.types v) "index out of bounds", b)
  ty (imm x) b = (ok IrType.native, b)

  unfoldable pub expect : Arg F → (IrType → Bool) → String → Exec (Builder3 F A) (Unit {0})
  unfolding ty
  expect arg pred op = do t ← ty arg; lift (check (pred t) op)

  unfoldable pub expect_native : Arg F → String → Exec (Builder3 F A) (Unit {0})
  unfolding expect is_native
  expect_native arg op = expect arg is_native op

  unfoldable pub expect_same : Arg F → Arg F → String → Exec (Builder3 F A) IrType
  unfolding ty type_eq
  expect_same a b op = do ta ← ty a; tb ← ty b; lift (check (type_eq ta tb) op); pure ta

  -- `iter().map(|&a| self.operand(a)).collect()`
  unfoldable pub operands : List (Arg F) → Exec (Builder3 F A) (List (Operand F))
  unfolding operand
  operands [] = pure []
  operands (a ∷ args) = do o ← operand a; os ← operands args; pure (o ∷ os)

  unfoldable pub natives : List (Arg F) → String → Exec (Builder3 F A) (List (Operand F))
  unfolding operand expect_native
  natives [] op = pure []
  natives (a ∷ args) op = do expect_native a op; o ← operand a; os ← natives args op; pure (o ∷ os)

  -- `self.instructions.push(..)`
  unfoldable pub push : Instruction F A → Exec (Builder3 F A) (Unit {0})
  push i = modify λ b. record b { instructions = b.instructions ++ i ∷ [] }

  module _ (render : String → ℕ → Identifier) where
    unfoldable pub fresh : String → IrType → Exec (Builder3 F A) Val
    fresh label t b = (
      ok (length b.names % 2 ^ 32),
      record b { names = b.names ++ render label (length b.names) ∷ []; types = b.types ++ t ∷ [] },
    )

    -- `(0..len).map(|_| self.fresh(label, ty)).collect()`
    unfoldable pub fresh_many : String → IrType → ℕ → Exec (Builder3 F A) (List Val)
    unfolding fresh
    fresh_many label t zero = pure []
    fresh_many label t (suc n) = do v ← fresh label t; vs ← fresh_many label t n; pure (v ∷ vs)

  unfoldable pub name_all : List Val → Exec (Builder3 F A) (List Identifier)
  unfolding name
  name_all [] = pure []
  name_all (v ∷ vs) = do id ← name v; ids ← name_all vs; pure (id ∷ ids)
