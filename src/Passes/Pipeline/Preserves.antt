-- ===== src/Passes/Pipeline/Preserves.antt =====
-- `run_pipeline` (crates/minocrab-ir/src/v3/passes.rs) against the interpreter.
use minocrab.Prelude.{
  ◌≡◌, subst, Bool, true, false, Option, none, some, List, [], ◌∷◌, All, String, str_eq,
  if◌then◌else◌,
}
use minocrab.Ir.{IrSource}
use minocrab.Ir.Field.{FieldOps, FieldLaws}
use minocrab.Ir.Scope.{IsWellScoped, extend, input_names}
use minocrab.Passes.Fold.{folded}
use minocrab.Passes.Fold.Preserves.{simulate-folded}
use minocrab.Passes.Fold.Scoped.{fold_immediate_copies-IsScoped, fold_immediate_copies-FitsField}
use minocrab.Passes.Asserts.Preserves.{simulate-drop_true_asserts}
use minocrab.Passes.Asserts.Scoped.{drop_true_asserts-IsScoped, drop_true_asserts-FitsField}
use minocrab.Passes.Dedup.Constraints.{FitsField}
use minocrab.Passes.Dedup.Preserves.{simulate-dedup_range_constraints}
use minocrab.Passes.Dedup.Scoped.{
  dedup_range_constraints-IsScoped, dedup_range_constraints-FitsField,
}
use minocrab.Sim.Backend.{Backend, ProofPreimage}
use minocrab.Sim.Run.{simulate}
use minocrab.Sim.Run.Same.{Same, Same-trans, Same-refl}
use minocrab.Passes.Pipeline.{Pass, run, run_pipeline, by_name, fold_pass, drop_pass, dedup_pass}

some_pass : {F A : Type 0} {p q : Pass F A} → ◌≡◌ {A = Option (Pass F A)} (some p) (some q) → p ≡ q
some_pass h = cc

module _ {F P A : Type 0} (ops : FieldOps F) (laws : FieldLaws ops) (be : Backend F P A)
    (pre : ProofPreimage F) where
  -- `by_name` gives the pass for some name.
  abbrev pub IsBuiltin : Pass F A → Type 0
  IsBuiltin p = (name : String) × (by_name ops name ≡ some p)

  -- The transform keeps a well-scoped circuit with its bounds, and what the interpreter makes of it.
  abbrev IsSound : Pass F A → Type 0
  IsSound p =
      (ir : IrSource F A)
      → IsWellScoped ir
      → All (FitsField ops) ir.instructions
      → IsWellScoped (record ir { instructions = (p.transform ir.instructions).0 })
        × All (FitsField ops) (p.transform ir.instructions).0
        × Same (simulate ops be (record ir { instructions = (p.transform ir.instructions).0 }) pre)
            (simulate ops be ir pre)

  fold_pass-IsSound : IsSound fold_pass
  unfolding fold_pass folded
  fold_pass-IsSound ir scoped fits = (
    fold_immediate_copies-IsScoped (extend [] (input_names ir.inputs)) ir.instructions scoped,
    fold_immediate_copies-FitsField ops ir.instructions fits,
    simulate-folded ops be pre ir scoped,
  )

  drop_pass-IsSound : IsSound (drop_pass ops)
  unfolding drop_pass
  drop_pass-IsSound ir scoped fits = (
    drop_true_asserts-IsScoped ops (extend [] (input_names ir.inputs)) ir.instructions scoped,
    drop_true_asserts-FitsField ops ir.instructions fits,
    simulate-drop_true_asserts ops laws be pre ir,
  )

  dedup_pass-IsSound : IsSound dedup_pass
  unfolding dedup_pass
  dedup_pass-IsSound ir scoped fits = (
    dedup_range_constraints-IsScoped (extend [] (input_names ir.inputs)) ir.instructions scoped,
    dedup_range_constraints-FitsField ops ir.instructions fits,
    simulate-dedup_range_constraints ops laws be pre ir scoped fits,
  )

  -- The three names and no other.
  found_pass :
      (a b c : Bool) (p : Pass F A)
      → (if a
          then some fold_pass
          else if b
          then some (drop_pass ops)
          else if c
          then some dedup_pass
          else none)
        ≡ some p
      → IsSound p
  found_pass true b c p h = subst IsSound (some_pass h) fold_pass-IsSound
  found_pass false true c p h = subst IsSound (some_pass h) drop_pass-IsSound
  found_pass false false true p h = subst IsSound (some_pass h) dedup_pass-IsSound
  found_pass false false false p h = cc

  by_name-IsSound : (p : Pass F A) → IsBuiltin p → IsSound p
  unfolding by_name
  by_name-IsSound p (name, h) =
      found_pass (str_eq name "fold_immediate_copies") (str_eq name "drop_true_asserts")
        (str_eq name "dedup_range_constraints") p h

  -- The interpreter takes the output of a pipeline of built-in passes, in any order and number, and
  -- its input for the same circuit, where the input is well scoped and its bit bounds are below the
  -- field's width.
  pub simulate-run_pipeline :
      (passes : List (Pass F A)) (ir : IrSource F A)
      → All IsBuiltin passes
      → IsWellScoped ir
      → All (FitsField ops) ir.instructions
      → Same
          (simulate ops be
            (record ir { instructions = (run_pipeline passes ir.instructions).0 })
            pre)
          (simulate ops be ir pre)
  unfolding run_pipeline run
  simulate-run_pipeline [] ir builtin scoped fits = Same-refl _
  simulate-run_pipeline (p ∷ ps) ir (b, builtin) scoped fits =
      let (scoped', fits', same) = by_name-IsSound p b ir scoped fits in
      Same-trans _ _ _
        (simulate-run_pipeline ps (record ir { instructions = (p.transform ir.instructions).0 })
          builtin scoped' fits')
        same
