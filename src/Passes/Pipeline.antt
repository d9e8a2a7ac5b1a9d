-- ===== src/Passes/Pipeline.antt =====
-- The `Pass` trait, its built-in implementations and `run_pipeline` of
-- crates/minocrab-ir/src/v3/passes.rs. A report's warnings have fixed texts.
pub mod Preserves
use minocrab.Prelude.{
  ℕ, String, Bool, Option, none, some, List, [], ◌∷◌, ◌++◌, length, ltb, if◌then◌else◌, str_eq,
}
use minocrab.Ir.{Instruction}
use minocrab.Ir.Field.{FieldOps}
use minocrab.Passes.Fold.{fold_immediate_copies}
use minocrab.Passes.Asserts.{drop_true_asserts}
use minocrab.Passes.Dedup.{dedup_range_constraints}

pub record PassReport : Type 0 where
  pub pass : String
  pub before : ℕ
  pub after : ℕ
  pub warnings : List String

-- `dyn Pass`: the two methods that an implementation gives.
pub record Pass (F A : Type 0) : Type 0 where
  pub name : String
  pub transform : List (Instruction F A) → List (Instruction F A) × List String

module _ {F A : Type 0} where
  -- `Pass::run`
  unfoldable pub run : Pass F A → List (Instruction F A) → List (Instruction F A) × PassReport
  run p ir =
      let (out, warnings) = p.transform ir in
      (
        out,
        record {
          pass = p.name;
          before = length ir;
          after = length out;
          warnings =
              if ltb (length out) (length ir)
              then warnings ++ "dropped instructions" ∷ []
              else warnings;
        },
      )

  unfoldable pub run_pipeline :
      List (Pass F A) → List (Instruction F A) → List (Instruction F A) × List PassReport
  unfolding run
  run_pipeline [] ir = (ir, [])
  run_pipeline (p ∷ ps) ir =
      let (out, report) = run p ir in
      let (last, reports) = run_pipeline ps out in (last, report ∷ reports)

  -- What the two deleting passes say when they deleted something.
  unfoldable pub warn_dropped :
      String → List (Instruction F A) → List (Instruction F A) → List String
  warn_dropped text ir out = if ltb (length out) (length ir) then text ∷ [] else []

  unfoldable pub fold_pass : Pass F A
  fold_pass = record {
    name = "fold_immediate_copies";
    transform = λ ir. (fold_immediate_copies ir, []);
  }

  unfoldable pub drop_pass : FieldOps F → Pass F A
  drop_pass ops = record {
    name = "drop_true_asserts";
    transform = λ ir.
        let out = drop_true_asserts ops ir in
        (out, warn_dropped "dropped only assert on the immediate 1" ir out);
  }

  unfoldable pub dedup_pass : Pass F A
  dedup_pass = record {
    name = "dedup_range_constraints";
    transform = λ ir.
        let out = dedup_range_constraints ir in
        (out, warn_dropped "dropped only implied range constraints" ir out);
  }

  unfoldable pub by_name : FieldOps F → String → Option (Pass F A)
  unfolding fold_pass drop_pass dedup_pass
  by_name ops name =
      if str_eq name "fold_immediate_copies"
      then some fold_pass
      else if str_eq name "drop_true_asserts"
      then some (drop_pass ops)
      else if str_eq name "dedup_range_constraints"
      then some dedup_pass
      else none

unfoldable pub builtin_names : List String
builtin_names = "fold_immediate_copies" ∷ "drop_true_asserts" ∷ "dedup_range_constraints" ∷ []
