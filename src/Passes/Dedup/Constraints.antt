-- ===== src/Passes/Dedup/Constraints.antt =====
-- What a range constraint says of the wire that it is on.
use minocrab.Prelude.{
  ℕ, ◌≡◌, ◌≤◌, ◌<◌, ◌^◌, subst, Bool, true, false, List, [], arith, ok, Option, some, none,
}
use minocrab.Prelude.Assoc.{AssocMap, get}
use minocrab.Ir.{IrType, Identifier, Instruction, variable, constrain_bits, constrain_to_boolean}
use minocrab.Ir.Field.{FieldOps, FieldLaws}
use minocrab.Ir.Scope.{member}
use minocrab.Passes.Dedup.{established}
use minocrab.Sim.Value.{IrValue, native}
use minocrab.Sim.Backend.{Backend, ProofPreimage}
use minocrab.Sim.Bits.{
  bounded_bits-lt, lt-bounded_bits, bool_of-lt, lt-bool_of, bit_value, two_pow_mono,
}
use minocrab.Sim.Inversion.{
  operand_fr-variable, variable-operand_fr, constrain_bits-accepts, constrain_to_boolean-accepts,
}
use minocrab.Sim.Resolve.{Memory, operand, operand_bool, operand_bits}
use minocrab.Sim.Step.{Walk, verify}
use minocrab.Sim.Step.Arms.{eval}

pub same_name :
    {x y : Identifier} {n k : ℕ}
    → ◌≡◌ {A = Option (Identifier × ℕ)} (some (x, n)) (some (y, k))
    → x ≡ y
same_name e = cc

same_bound :
    {x y : Identifier} {n k : ℕ}
    → ◌≡◌ {A = Option (Identifier × ℕ)} (some (x, n)) (some (y, k))
    → n ≡ k
same_bound e = cc

pub some_bound : {n k : ℕ} → some n ≡ some k → n ≡ k
some_bound e = cc

-- The bound of a bit constraint is below the field's width. (The interpreter refuses any other.)
abbrev pub FitsField : {F A : Type 0} → FieldOps F → Instruction F A → Type 0
FitsField ops (constrain_bits _ bits) = bits < ops.fr_bits
FitsField ops _ = Unit

module _ {F P : Type 0} (ops : FieldOps F) (laws : FieldLaws ops) where
  -- The name is bound to a native value below `2 ^ n`.
  abbrev pub IsBelow : Memory F P → Identifier → ℕ → Type 0
  IsBelow m id n = (v : F) × (get m id ≡ some (native v)) × (laws.to_nat v < 2 ^ n)

  -- Every recorded bound holds, of a name in scope.
  abbrev pub BoundsHold : AssocMap ℕ → List Identifier → Memory F P → Type 0
  BoundsHold bound sc m =
      (id : Identifier) (n : ℕ) → get bound id ≡ some n → (member id sc ≡ true) × IsBelow m id n

module _ {F P A : Type 0} (ops : FieldOps F) (laws : FieldLaws ops) (be : Backend F P A)
    (pre : ProofPreimage F) (types : List IrType) where
  bit_bound : (v : F) (b : Bool) → laws.to_nat v ≡ bit_value b → laws.to_nat v < 2 ^ 1
  bit_bound v true h = omega arith
  bit_bound v false h = omega arith

  -- The bound that a constraint establishes holds.
  abbrev BelowBound : Memory F P → Option (Identifier × ℕ) → Type 0
  BelowBound m none = Unit
  BelowBound m (some (id, n)) = IsBelow ops laws m id n

  -- A wire that a range constraint accepts is in its range.
  pub constraint_holds :
      (m : Memory F P) (at : ℕ) (w w' : Walk F P) (i : Instruction F A) (id : Identifier) (n : ℕ)
      (binds : List (Identifier × IrValue F P))
      → established i ≡ some (id, n)
      → eval ops be pre verify types (operand m) at i w ≡ (ok binds, w')
      → IsBelow {P = P} ops laws m id n
  unfolding established
  constraint_holds m at w w' (constrain_bits (variable x) n) id k binds e h =
      let (v, p, (bs, q)) =
        constrain_bits-accepts ops be pre verify types (operand m) at (variable x) n w w' binds h in
      let held : IsBelow ops laws m x n =
        (v, operand_fr-variable ops m x v p, (bounded_bits-lt ops laws v n bs q).1) in
      subst (λ o. BelowBound m o) e held
  constraint_holds m at w w' (constrain_to_boolean (variable x)) id k binds e h =
      let (v, p, (b, q)) =
        constrain_to_boolean-accepts ops be pre verify types (operand m) at (variable x) w w' binds
          h in
      let held : IsBelow ops laws m x 1 =
        (v, operand_fr-variable ops m x v p, bit_bound v b (bool_of-lt ops laws v b q)) in
      subst (λ o. BelowBound m o) e held
  constraint_holds m at w w' _ id k binds e h = cc

  -- A range constraint on a wire in range passes, and changes nothing.
  pub constraint_passes :
      (m : Memory F P) (at : ℕ) (w : Walk F P) (i : Instruction F A) (id : Identifier) (n k : ℕ)
      → established i ≡ some (id, n)
      → FitsField ops i
      → IsBelow {P = P} ops laws m id k
      → k ≤ n
      → eval ops be pre verify types (operand m) at i w ≡ (ok [], w)
  unfolding established eval operand_bits operand_bool
  constraint_passes m at w (constrain_bits (variable x) n) id j k e f (v, p, lt) le =
      let q = variable-operand_fr ops m x v (rw (← same_name e) at p) in
      let below : laws.to_nat v < 2 ^ n =
        omega (arith, lt, le, same_bound e, two_pow_mono k n (omega (arith, le, same_bound e))) in
      rw (q, lt-bounded_bits ops laws v n f below)
  constraint_passes m at w (constrain_to_boolean (variable x)) id j k e f (v, p, lt) le =
      let q = variable-operand_fr ops m x v (rw (← same_name e) at p) in
      let (b, r) =
        lt-bool_of ops laws v
          (omega (arith, lt, two_pow_mono k 1 (omega (arith, le, same_bound e)))) in
      rw (q, r)
  constraint_passes m at w _ id n k e f b le = cc
