-- ===== src/Passes/Dedup/Preserves.antt =====
-- `dedup_range_constraints` (crates/minocrab-ir/src/v3/passes.rs) against the interpreter.
use minocrab.Prelude.{
  ℕ, ◌≡◌, ◌≤◌, refl, sym, ap, ◌∙◌, true, Bool-cases, inl, inr, List, [], ◌∷◌, Option, some, none,
  All, leb→le, str_eq, eq_iff,
}
use minocrab.Prelude.Assoc.{AssocMap, get, insert, insert_all, get-insert}
use minocrab.Ir.{
  IrType, Identifier, Instruction, IrSource, variable, constrain_bits, constrain_to_boolean,
}
use minocrab.Ir.Dataflow.{operands, defined_identifiers}
use minocrab.Ir.Field.{FieldOps, FieldLaws}
use minocrab.Ir.Scope.{
  member, extend, AreFresh, IsScoped, InScope, IsWellScoped, input_names, member-extend-old,
  member_fresh, names, get-insert_all_ne,
}
use minocrab.Passes.Dedup.{established, implied, decide_bound, dedup_keep, dedup_range_constraints}
use minocrab.Sim.Value.{IrValue}
use minocrab.Sim.Backend.{Backend, ProofPreimage}
use minocrab.Sim.Resolve.{Memory, operand}
use minocrab.Sim.Step.{verify}
use minocrab.Sim.Step.Binds.{names-eval}
use minocrab.Sim.Step.Congruence.{eval_at_any_index}
use minocrab.Sim.Run.{simulate}
use minocrab.Sim.Run.Same.{Same}
use minocrab.Sim.Run.Walking.{StepAgrees, run_from-retain_from, simulate-Same}
use minocrab.Passes.Dedup.Constraints.{
  same_name, some_bound, FitsField, IsBelow, BoundsHold, constraint_holds, constraint_passes,
}

no_bound {ℓ} : (T : Type ℓ) (id : Identifier) (n : ℕ) → get {V = ℕ} [] id ≡ some n → T
unfolding get
no_bound T id n h = cc

module _ {F P A : Type 0} (ops : FieldOps F) (laws : FieldLaws ops) (be : Backend F P A)
    (pre : ProofPreimage F) (types : List IrType) where
  -- The relation between the two walks: one memory, and bounds that hold.
  abbrev Related : AssocMap ℕ → List (Instruction F A) → Memory F P → Memory F P → Type 0
  Related bound is m m' =
      (m' ≡ m)
      × (sc : List Identifier) × IsScoped sc is
      × All (FitsField ops) is
      × BoundsHold ops laws bound sc m

  established-InScope :
      (sc : List Identifier) (i : Instruction F A) (id : Identifier) (n : ℕ)
      → established i ≡ some (id, n)
      → All (InScope sc) (operands i)
      → member id sc ≡ true
  unfolding established operands
  established-InScope sc (constrain_bits (variable x) k) id n e h = rw (same_name e) at h.0
  established-InScope sc (constrain_to_boolean (variable x)) id n e h = rw (same_name e) at h.0
  established-InScope sc _ id n e h = cc

  module _ (sc : List Identifier) (i : Instruction F A) (m : Memory F P)
      (binds : List (Identifier × IrValue F P)) (fresh : AreFresh sc (defined_identifiers i))
      (named : names binds ≡ defined_identifiers i) where
    -- What is known of a name in scope is still known after the instruction's outputs are bound.
    IsBelow-insert_all :
        (id : Identifier) (n : ℕ)
        → member id sc ≡ true
        → IsBelow ops laws m id n
        → IsBelow ops laws (insert_all m binds) id n
    IsBelow-insert_all id n old (v, p, lt) = (
      v,
      get-insert_all_ne m binds id
            (ap (member id) named ∙ member_fresh id sc (defined_identifiers i) fresh old)
          ∙ p,
      lt,
    )

    BoundsHold-insert_all :
        (bound : AssocMap ℕ)
        → BoundsHold ops laws bound sc m
        → BoundsHold ops laws bound (extend sc (defined_identifiers i)) (insert_all m binds)
    BoundsHold-insert_all bound h id n e =
        let (old, below) = h id n e in
        (member-extend-old id sc (defined_identifiers i) old, IsBelow-insert_all id n old below)

    BoundsHold-insert :
        (bound : AssocMap ℕ) (id : Identifier) (n : ℕ)
        → BoundsHold ops laws bound sc m
        → member id sc ≡ true
        → IsBelow ops laws m id n
        → BoundsHold ops laws
            (insert bound id n)
            (extend sc (defined_identifiers i))
            (insert_all m binds)
    BoundsHold-insert bound id n h old below j k e = elim (Bool-cases (str_eq id j)) [
      | inl same ↦
          let e' : some n ≡ some k = sym (rw same at (get-insert bound id j n)) ∙ e in
          rw (← (eq_iff id j).0 same, ← some_bound e')
            (member-extend-old id sc (defined_identifiers i) old, IsBelow-insert_all id n old below)
      | inr other ↦
          BoundsHold-insert_all bound h j k (sym (rw other at (get-insert bound id j n)) ∙ e)
    ]

  implied_bound :
      (o : Option ℕ) (bits : ℕ)
      → implied o bits ≡ true
      → (proven : ℕ) × (o ≡ some proven) × (proven ≤ bits)
  unfolding implied
  implied_bound none bits h = cc
  implied_bound (some proven) bits h = (proven, refl, leb→le proven bits h)

  -- One step of the pass, on an instruction that establishes `o`.
  step_agrees :
      (o : Option (Identifier × ℕ)) (bound : AssocMap ℕ) (i : Instruction F A)
      (rest : List (Instruction F A)) (m m' : Memory F P)
      → established i ≡ o
      → Related bound (i ∷ rest) m m'
      → StepAgrees ops be pre types Related
          (decide_bound bound o).0
          i
          (decide_bound bound o).1
          i
          rest
          m
          m'
  unfolding decide_bound
  step_agrees none bound i rest m m' e (same, sc, scoped, fits, holds) = (
    λ at at' w. rw same (ap (λ g. g w) (eval_at_any_index ops be pre types (operand m) at at' i)),
    λ at w w' binds runs. (
      ap (λ m. insert_all m binds) same,
      extend sc (defined_identifiers i),
      scoped.3,
      fits.1,
      BoundsHold-insert_all sc i m binds scoped.2
          (names-eval ops be pre verify types (operand m) at i w w' binds runs) bound holds,
    ),
  )
  step_agrees (some (id, n)) bound i rest m m' e (same, sc, scoped, fits, holds) =
      elim (Bool-cases (implied (get bound id) n)) [
        | inl drops ↦
            let (proven, known, le) = implied_bound (get bound id) n drops in
            rw drops λ at w. (
              [],
              constraint_passes ops laws be pre types m at w i id n proven e fits.0
                  (holds id proven known).1 le,
              (
                same,
                extend sc (defined_identifiers i),
                scoped.3,
                fits.1,
                λ j k f.
                    let (old, below) = holds j k f in
                    (member-extend-old j sc (defined_identifiers i) old, below),
              ),
            )
        | inr keeps ↦ rw keeps (
          λ at at' w.
              rw same (ap (λ g. g w) (eval_at_any_index ops be pre types (operand m) at at' i)),
          λ at w w' binds runs. (
            ap (λ m. insert_all m binds) same,
            extend sc (defined_identifiers i),
            scoped.3,
            fits.1,
            BoundsHold-insert sc i m binds scoped.2
                (names-eval ops be pre verify types (operand m) at i w w' binds runs) bound id n
                holds (established-InScope sc i id n e scoped.0)
                (constraint_holds ops laws be pre types m at w w' i id n binds e runs),
          ),
        )
      ]

-- The interpreter takes `dedup_range_constraints` of a well-scoped stream and the stream for the
-- same circuit, where every bit bound is below the field's width.
pub simulate-dedup_range_constraints :
    {F P A : Type 0} (ops : FieldOps F) (laws : FieldLaws ops) (be : Backend F P A)
    (pre : ProofPreimage F) (ir : IrSource F A)
    → IsWellScoped ir
    → All (FitsField ops) ir.instructions
    → Same
        (simulate ops be (record ir { instructions = dedup_range_constraints ir.instructions }) pre)
        (simulate ops be ir pre)
unfolding dedup_range_constraints
simulate-dedup_range_constraints ops laws be pre ir scoped fits =
    simulate-Same ops be pre ir _ λ st ready.
      run_from-retain_from ops be pre ir.outputs (Related ops laws be pre ir.outputs) dedup_keep
        (λ bound i rest m m' r.
          step_agrees ops laws be pre ir.outputs (established i) bound i rest m m' refl r)
        [] 0 0 0 ir.instructions st st
        (refl, extend [] (input_names ir.inputs), scoped, fits, λ id n h. no_bound _ id n h) refl
