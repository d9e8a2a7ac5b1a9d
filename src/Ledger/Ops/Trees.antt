-- ===== src/Ledger/Ops/Trees.antt =====
-- The operations of Merkle trees: an array of the tree and the next index, and with a history the map
-- of past roots as well (crates/minocrab-ledger/src/ops.rs).
use minocrab.Prelude.{ℕ, ◌+◌, String, true, false, List, [], ◌∷◌, length, Result, ok, and_then}
use minocrab.Ir.Field.{FieldOps}
use minocrab.Ledger.Fab.{StateValue, null, cell, array, bounded_merkle_tree, nil, cons, Op, FabOps}
use minocrab.Ledger.Impact.{
  ImpactOp, LedgerValue, LedgerKey, vec, extend, push_cell, dup, swap, idx_one, idx_path,
  field_path,
}
use minocrab.Ledger.Ops.Cells.{
  init, const_op, insc, ins1, idxp_container, insc_container, push_last, reset_to_at, u64_aligned,
}
use minocrab.Ledger.Ops.Collections.{empty_map}
use minocrab.Ledger.Ops.ListOps.{push_slot}

abbrev pub tree_slot : ℕ
tree_slot = 0

abbrev pub tree_next_slot : ℕ
tree_next_slot = 1

abbrev pub tree_history_slot : ℕ
tree_history_slot = 2

module _ {F : Type 0} (fab : FabOps F) where
  unfoldable pub empty_merkle_tree : ℕ → Result String (StateValue × StateValue)
  empty_merkle_tree depth =
      and_then (u64_aligned fab 0) (λ v. ok (bounded_merkle_tree depth, cell v))

  unfoldable pub empty_merkle_tree_value : ℕ → Result String StateValue
  empty_merkle_tree_value depth =
      and_then (empty_merkle_tree depth) (λ (tree, next). ok (array (cons tree (cons next nil))))

  unfoldable pub empty_historic_merkle_tree_value : ℕ → Result String StateValue
  empty_historic_merkle_tree_value depth =
      and_then (empty_merkle_tree depth)
        (λ (tree, next). ok (array (cons tree (cons next (cons empty_map nil)))))

module _ {F W : Type 0} (ops : FieldOps F) (fab : FabOps F) where
  unfoldable pub merkle_tree_reset_at :
      List (LedgerKey F W) → ℕ → Result String (List (ImpactOp F W))
  merkle_tree_reset_at path depth =
      and_then (empty_merkle_tree_value fab depth) (reset_to_at ops fab path)

  unfoldable pub merkle_tree_reset : ℕ → ℕ → Result String (List (ImpactOp F W))
  merkle_tree_reset index depth = merkle_tree_reset_at (field_path ops fab index) depth

  unfoldable pub merkle_tree_insert_at :
      List (LedgerKey F W) → LedgerValue F W → Result String (List (ImpactOp F W))
  merkle_tree_insert_at path leaf = vec (
      idx_path ops fab false true path
      ∷ idx_one ops fab false true tree_slot
      ∷ dup ops fab 2
      ∷ idx_one ops fab false false tree_next_slot
      ∷ ok (push_cell ops fab true leaf)
      ∷ ins1 ops fab
      ∷ const_op ops fab (Op.ins true 1)
      ∷ idx_one ops fab false true tree_next_slot
      ∷ const_op ops fab (Op.addi 1)
      ∷ insc ops fab (length path + 1)
      ∷ [])

  unfoldable pub merkle_tree_insert : ℕ → LedgerValue F W → Result String (List (ImpactOp F W))
  merkle_tree_insert index leaf = merkle_tree_insert_at (field_path ops fab index) leaf

  unfoldable pub merkle_tree_insert_index_at :
      List (LedgerKey F W) → LedgerValue F W → LedgerValue F W → Result String (List (ImpactOp F W))
  merkle_tree_insert_index_at path leaf at = vec (
      idx_path ops fab false true path
      ∷ idx_one ops fab false true tree_slot
      ∷ ok (push_cell ops fab false at)
      ∷ ok (push_cell ops fab true leaf)
      ∷ const_op ops fab (Op.ins false 2)
      ∷ idx_one ops fab false true tree_next_slot
      ∷ ok (push_cell ops fab false at)
      ∷ const_op ops fab (Op.addi 1)
      ∷ dup ops fab 1
      ∷ dup ops fab 1
      ∷ const_op ops fab Op.lt
      ∷ const_op ops fab (Op.branch 2)
      ∷ const_op ops fab Op.pop
      ∷ const_op ops fab (Op.jmp 2)
      ∷ ok (swap ops fab 0)
      ∷ const_op ops fab Op.pop
      ∷ ins1 ops fab
      ∷ insc ops fab (length path)
      ∷ [])

  unfoldable pub merkle_tree_insert_index :
      ℕ → LedgerValue F W → LedgerValue F W → Result String (List (ImpactOp F W))
  merkle_tree_insert_index index leaf at =
      merkle_tree_insert_index_at (field_path ops fab index) leaf at

  unfoldable pub history_append : Result String (List (ImpactOp F W))
  history_append = vec (
      idx_one ops fab false true tree_history_slot
      ∷ dup ops fab 2
      ∷ idx_one ops fab false false tree_slot
      ∷ const_op ops fab Op.root
      ∷ const_op ops fab (Op.push true null)
      ∷ [])

  -- `ops[last] = ..` and `ops.pop()` keep what stands before the last operation.
  unfoldable pub historic_merkle_tree_insert_at :
      List (LedgerKey F W) → LedgerValue F W → Result String (List (ImpactOp F W))
  historic_merkle_tree_insert_at path leaf =
      extend (and_then (merkle_tree_insert_at path leaf) init) (
        extend (vec (const_op ops fab (Op.ins true 1) ∷ []))
          (extend history_append (vec (ins1 ops fab ∷ insc ops fab (length path + 1) ∷ []))))

  unfoldable pub historic_merkle_tree_insert :
      ℕ → LedgerValue F W → Result String (List (ImpactOp F W))
  historic_merkle_tree_insert index leaf =
      historic_merkle_tree_insert_at (field_path ops fab index) leaf

  unfoldable pub historic_merkle_tree_insert_index_at :
      List (LedgerKey F W) → LedgerValue F W → LedgerValue F W → Result String (List (ImpactOp F W))
  historic_merkle_tree_insert_index_at path leaf at =
      extend (and_then (merkle_tree_insert_index_at path leaf at) init)
        (extend history_append (vec (ins1 ops fab ∷ insc ops fab (length path + 1) ∷ [])))

  unfoldable pub historic_merkle_tree_insert_index :
      ℕ → LedgerValue F W → LedgerValue F W → Result String (List (ImpactOp F W))
  historic_merkle_tree_insert_index index leaf at =
      historic_merkle_tree_insert_index_at (field_path ops fab index) leaf at

  unfoldable pub historic_merkle_tree_reset_history_at :
      List (LedgerKey F W) → Result String (List (ImpactOp F W))
  historic_merkle_tree_reset_history_at path = vec (
      idx_path ops fab false true path
      ∷ push_slot ops fab tree_history_slot
      ∷ const_op ops fab (Op.push true empty_map)
      ∷ dup ops fab 2
      ∷ idx_one ops fab false false tree_slot
      ∷ const_op ops fab Op.root
      ∷ const_op ops fab (Op.push true null)
      ∷ insc ops fab (length path + 2)
      ∷ [])

  unfoldable pub historic_merkle_tree_reset_history : ℕ → Result String (List (ImpactOp F W))
  historic_merkle_tree_reset_history index =
      historic_merkle_tree_reset_history_at (field_path ops fab index)

  unfoldable pub historic_merkle_tree_reset_at :
      List (LedgerKey F W) → ℕ → Result String (List (ImpactOp F W))
  historic_merkle_tree_reset_at path depth =
      and_then (empty_historic_merkle_tree_value fab depth) (λ initial.
        extend (idxp_container ops fab path) (
          extend (vec (push_last ops fab path ∷ const_op ops fab (Op.push true initial) ∷ [])) (
            extend history_append (
              extend (vec (const_op ops fab (Op.ins true 2) ∷ ins1 ops fab ∷ []))
                (insc_container ops fab path)))))

  unfoldable pub historic_merkle_tree_reset : ℕ → ℕ → Result String (List (ImpactOp F W))
  historic_merkle_tree_reset index depth =
      historic_merkle_tree_reset_at (field_path ops fab index) depth
