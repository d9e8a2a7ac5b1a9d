-- ===== src/Passes/Fold.antt =====
-- `fold_immediate_copies` of crates/minocrab-ir/src/v3/passes.rs: every `Copy` of an immediate is
-- folded into its consumers and dropped, unless the circuit returns its name.
pub mod Tables
pub mod Returned
pub mod Agreement
pub mod Preserves
pub mod Scoped
use minocrab.Prelude.{Bool, true, false, Option, none, some, List, [], ◌∷◌, length}
use minocrab.Prelude.Assoc.{AssocMap, get, insert}
use minocrab.Ir.{Identifier, Operand, variable, immediate, Instruction, copy, IrSource}
use minocrab.Ir.Dataflow.{returned, map_operands}
use minocrab.Passes.Kept.{Kept, identity, retain_kept}

module _ {F : Type 0} where
  -- The value that a `Copy` of this operand names, if it is an immediate.
  unfoldable pub copied_value : AssocMap (Operand F) → Operand F → Option (Operand F)
  copied_value named (immediate x) = some (immediate x)
  copied_value named (variable id) = get named id

  unfoldable pub note_copy :
      AssocMap (Operand F) → Identifier → Option (Operand F) → AssocMap (Operand F)
  note_copy named id none = named
  note_copy named id (some value) = insert named id value

  -- `returned.insert(id, ())` for the variables of one terminator
  unfoldable pub note_returned : AssocMap (Unit {0}) → List (Operand F) → AssocMap (Unit {0})
  note_returned m [] = m
  note_returned m (variable id ∷ ops) = note_returned (insert m id tt) ops
  note_returned m (immediate _ ∷ ops) = note_returned m ops

  -- The copies that no `Output` names: the entries that are folded.
  unfoldable pub foldable :
      AssocMap (Unit {0}) → AssocMap (Operand F) → AssocMap (Operand F) → AssocMap (Operand F)
  foldable returned folded [] = folded
  foldable returned folded ((id, imm) ∷ named) =
      foldable returned (elim (get returned id) [ some _ ↦ folded | none ↦ insert folded id imm ])
        named

  unfoldable pub subst_operand : AssocMap (Operand F) → Operand F → Operand F
  subst_operand folded (immediate x) = immediate x
  subst_operand folded (variable id) = elim (get folded id) [ some imm ↦ imm | none ↦ variable id ]

module _ {F A : Type 0} where
  unfoldable pub note_instruction : AssocMap (Operand F) → Instruction F A → AssocMap (Operand F)
  unfolding note_copy copied_value
  note_instruction named (copy val output) = note_copy named output (copied_value named val)
  note_instruction named _ = named

  unfoldable pub immediate_copies_from :
      AssocMap (Operand F) → List (Instruction F A) → AssocMap (Operand F)
  immediate_copies_from named [] = named
  immediate_copies_from named (i ∷ is) = immediate_copies_from (note_instruction named i) is

  -- `immediate_copies`: the identifiers bound by a `Copy` of an immediate, with that immediate.
  unfoldable pub immediate_copies : List (Instruction F A) → AssocMap (Operand F)
  unfolding immediate_copies_from note_instruction
  immediate_copies is = immediate_copies_from [] is

  unfoldable pub returned_from : AssocMap (Unit {0}) → List (Instruction F A) → AssocMap (Unit {0})
  unfolding note_returned returned
  returned_from m [] = m
  returned_from m (i ∷ is) = returned_from (note_returned m (returned i)) is

  -- `returned_identifiers`: the names that appear in the `Output` terminator.
  unfoldable pub returned_identifiers : List (Instruction F A) → AssocMap (Unit {0})
  unfolding returned_from
  returned_identifiers is = returned_from [] is

  -- The table that the pass folds with.
  unfoldable pub folded_copies : List (Instruction F A) → AssocMap (Operand F)
  unfolding foldable immediate_copies returned_identifiers
  folded_copies is = foldable (returned_identifiers is) [] (immediate_copies is)

  -- `!matches!(instruction, Copy { output, .. } if folded.contains(output))`
  unfoldable pub survives_fold : AssocMap (Operand F) → Instruction F A → Bool
  survives_fold folded (copy _ output) = elim (get folded output) [ some _ ↦ false | none ↦ true ]
  survives_fold folded _ = true

  unfoldable pub fold_keep :
      AssocMap (Operand F) → Unit {0} → Instruction F A → Bool × Instruction F A × Unit {0}
  unfolding subst_operand survives_fold map_operands
  fold_keep folded s i = (survives_fold folded i, map_operands (subst_operand folded) i, s)

  -- The early return on an empty table included.
  unfoldable pub fold_with :
      AssocMap (Operand F) → List (Instruction F A) → List (Instruction F A) × Kept
  unfolding fold_keep folded_copies retain_kept identity
  fold_with [] is = (is, identity (length is))
  fold_with (_ ∷ _) is = retain_kept (fold_keep (folded_copies is)) tt is

  unfoldable pub fold_immediate_copies_kept : List (Instruction F A) → List (Instruction F A) × Kept
  unfolding fold_with immediate_copies
  fold_immediate_copies_kept is = fold_with (immediate_copies is) is

  unfoldable pub fold_immediate_copies : List (Instruction F A) → List (Instruction F A)
  unfolding fold_immediate_copies_kept
  fold_immediate_copies is = (fold_immediate_copies_kept is).0

  -- `folded`: the same over a whole circuit.
  unfoldable pub folded : IrSource F A → IrSource F A
  unfolding fold_immediate_copies
  folded ir = record ir { instructions = fold_immediate_copies ir.instructions }
