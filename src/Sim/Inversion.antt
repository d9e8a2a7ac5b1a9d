-- ===== src/Sim/Inversion.antt =====
-- What follows when an operand resolves, and when a range constraint is accepted.
use minocrab.Prelude.{
  ℕ, ◌≡◌, Bool, List, Option, none, some, ok, and_then, ok_or, Result-cases, inl, inr,
  and_then-eq-ok, arith,
}
use minocrab.Prelude.Assoc.{get}
use minocrab.Ir.{IrType, Identifier, Operand, variable, constrain_bits, constrain_to_boolean}
use minocrab.Ir.Field.{FieldOps}
use minocrab.Sim.Value.{IrValue, native, try_into_fr}
use minocrab.Sim.Backend.{Backend, ProofPreimage}
use minocrab.Sim.Resolve.{
  Memory, Resolver, operand, operand_fr, operand_bits, operand_bool, bounded_bits, bool_of,
}
use minocrab.Sim.Step.{Mode, Walk}
use minocrab.Sim.Step.Arms.{eval}

module _ {F P : Type 0} where
  looked_up :
      (o : Option (IrValue F P)) (v : F)
      → and_then (ok_or o "variable not found") try_into_fr ≡ ok v
      → o ≡ some (native v)
  unfolding try_into_fr
  looked_up none v h = cc
  looked_up (some (native x)) v h = cc
  looked_up (some _) v h = cc

  -- A variable that resolves to a field element is bound to that native value.
  pub operand_fr-variable :
      (ops : FieldOps F) (m : Memory F P) (id : Identifier) (v : F)
      → operand_fr ops (operand m) (variable id) ≡ ok v
      → get m id ≡ some (native v)
  unfolding operand_fr operand
  operand_fr-variable ops m id v h = looked_up (get m id) v h

  pub variable-operand_fr :
      (ops : FieldOps F) (m : Memory F P) (id : Identifier) (v : F)
      → get m id ≡ some (native v)
      → operand_fr ops (operand m) (variable id) ≡ ok v
  unfolding operand_fr operand try_into_fr
  variable-operand_fr ops m id v h = rw h

module _ {F P A : Type 0} (ops : FieldOps F) (be : Backend F P A) (pre : ProofPreimage F)
    (mode : Mode) (types : List IrType) (ρ : Resolver F P) (at : ℕ) where
  pub constrain_bits-accepts :
      (o : Operand F) (n : ℕ) (w w' : Walk F P) (binds : List (Identifier × IrValue F P))
      → eval ops be pre mode types ρ at (constrain_bits o n) w ≡ (ok binds, w')
      → (v : F) × (operand_fr ops ρ o ≡ ok v)
        × ((bs : List Bool) × (bounded_bits ops v (some n) ≡ ok bs))
  unfolding eval operand_bits
  constrain_bits-accepts o n w w' binds h = elim (Result-cases (operand_bits ops ρ o (some n))) [
    | inl (bs, e) ↦
        let (v, p, q) = and_then-eq-ok (operand_fr ops ρ o) (λ v. bounded_bits ops v (some n)) e in
        (v, p, (bs, q))
    | inr (m, e) ↦ ground arith
  ]

  pub constrain_to_boolean-accepts :
      (o : Operand F) (w w' : Walk F P) (binds : List (Identifier × IrValue F P))
      → eval ops be pre mode types ρ at (constrain_to_boolean o) w ≡ (ok binds, w')
      → (v : F) × (operand_fr ops ρ o ≡ ok v) × ((b : Bool) × (bool_of ops v ≡ ok b))
  unfolding eval operand_bool
  constrain_to_boolean-accepts o w w' binds h = elim (Result-cases (operand_bool ops ρ o)) [
    | inl (b, e) ↦
        let (v, p, q) = and_then-eq-ok (operand_fr ops ρ o) (bool_of ops) e in (v, p, (b, q))
    | inr (m, e) ↦ ground arith
  ]
