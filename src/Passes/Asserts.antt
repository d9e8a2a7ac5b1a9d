-- ===== src/Passes/Asserts.antt =====
-- `drop_true_asserts` of crates/minocrab-ir/src/v3/passes.rs: every `Assert` on the immediate 1 is
-- deleted, and no other.
pub mod Preserves
pub mod Scoped
use minocrab.Prelude.{Bool, true, false, List}
use minocrab.Ir.{immediate, Instruction, assert}
use minocrab.Ir.Field.{FieldOps}
use minocrab.Passes.Kept.{Kept, retain_kept}

module _ {F A : Type 0} (ops : FieldOps F) where
  unfoldable pub is_true_assert : Instruction F A → Bool
  is_true_assert (assert (immediate x)) = ops.eq x (ops.from_u64 1)
  is_true_assert _ = false

  unfoldable pub assert_keep : Unit {0} → Instruction F A → Bool × Instruction F A × Unit {0}
  unfolding is_true_assert
  assert_keep s i = (elim (is_true_assert i) [ true ↦ false | false ↦ true ], i, s)

  unfoldable pub drop_true_asserts_kept : List (Instruction F A) → List (Instruction F A) × Kept
  unfolding assert_keep retain_kept
  drop_true_asserts_kept is = retain_kept assert_keep tt is

  unfoldable pub drop_true_asserts : List (Instruction F A) → List (Instruction F A)
  unfolding drop_true_asserts_kept
  drop_true_asserts is = (drop_true_asserts_kept is).0
