-- ===== src/Sim/Step/Binds.antt =====
-- The identifiers that the arms of the interpreter bind (crates/minocrab-sim/src/v3.rs).
use minocrab.Prelude.{
  ℕ, ◌≡◌, refl, ap, List, [], ◌∷◌, length, zip, arith, ok, Result-cases, inl, inr,
}
use minocrab.Ir.{Identifier, IrType, Instruction, encode, impact, div_mod_power_of_two, add}
use minocrab.Ir.Dataflow.{defined_identifiers}
use minocrab.Ir.Scope.{names}
use minocrab.Ir.Field.{FieldOps}
use minocrab.Sim.Value.{IrValue}
use minocrab.Sim.Backend.{Backend, ProofPreimage}
use minocrab.Sim.Resolve.{Resolver}
use minocrab.Sim.Step.{Mode, Walk}
use minocrab.Sim.Step.Arms.{eval}

names-zip {ℓ} :
    {V : Type ℓ} (ids : List Identifier) (vs : List V)
    → length vs ≡ length ids
    → names (zip ids vs) ≡ ids
names-zip [] vs h = refl
names-zip (x ∷ ids) [] h = absurd (omega arith)
names-zip (x ∷ ids) (v ∷ vs) h = ap (λ xs. x ∷ xs) (names-zip ids vs (omega arith))

module _ {F P A : Type 0} (ops : FieldOps F) (be : Backend F P A) (pre : ProofPreimage F)
    (mode : Mode) (types : List IrType) (ρ : Resolver F P) (at : ℕ) where
  -- An arm that succeeds binds exactly the identifiers that its instruction defines, in order.
  pub names-eval :
      (i : Instruction F A) (w w' : Walk F P) (binds : List (Identifier × IrValue F P))
      → eval ops be pre mode types ρ at i w ≡ (ok binds, w')
      → names binds ≡ defined_identifiers i
  unfolding eval defined_identifiers
  names-eval (add a b o) w w' binds h = ground arith
  names-eval (impact a b) w w' binds h = ground arith
  names-eval (encode a b) w w' binds h = elim (Result-cases (ρ a)) [
    | inl (v, e) ↦ ground (arith, names-zip b (be.encode_offcircuit v))
    | inr (m, e) ↦ ground arith
  ]
  names-eval (div_mod_power_of_two a n []) w w' binds h = ground arith
  names-eval (div_mod_power_of_two a n (x ∷ [])) w w' binds h = ground arith
  names-eval (div_mod_power_of_two a n (x ∷ y ∷ [])) w w' binds h = ground arith
  names-eval (div_mod_power_of_two a n (x ∷ y ∷ z ∷ zs)) w w' binds h = ground arith
  names-eval _ w w' binds h = ground arith
