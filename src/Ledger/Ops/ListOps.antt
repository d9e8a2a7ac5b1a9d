-- ===== src/Ledger/Ops/ListOps.antt =====
-- The operations of lists: an array of the head cell, the tail and the length
-- (crates/minocrab-ledger/src/ops.rs).
use minocrab.Prelude.{ℕ, ◌+◌, String, true, false, List, [], ◌∷◌, length, Result, ok, and_then}
use minocrab.Ir.Field.{FieldOps}
use minocrab.Ledger.Fab.{StateValue, null, cell, array, nil, cons, Op, FabOps}
use minocrab.Ledger.Impact.{
  ImpactOp, LedgerValue, LedgerElem, LedgerKey, vec, extend, push_cell, push_array, dup, swap,
  idx_one, idx_path, field_index_value, field_path,
}
use minocrab.Ledger.Ops.Cells.{
  const_op, insc, qualify_coin, list_coin_dup, reset_to_at, u64_aligned,
}

abbrev pub list_head_slot : ℕ
list_head_slot = 0

abbrev pub list_tail_slot : ℕ
list_tail_slot = 1

abbrev pub list_length_slot : ℕ
list_length_slot = 2

unfoldable pub empty_list : {F : Type 0} → FabOps F → Result String StateValue
empty_list fab =
    and_then (u64_aligned fab 0) (λ v. ok (array (cons null (cons null (cons (cell v) nil)))))

module _ {F W : Type 0} (ops : FieldOps F) (fab : FabOps F) where
  unfoldable pub list_reset_at : List (LedgerKey F W) → Result String (List (ImpactOp F W))
  list_reset_at path = and_then (empty_list fab) (reset_to_at ops fab path)

  unfoldable pub list_reset : ℕ → Result String (List (ImpactOp F W))
  list_reset index = list_reset_at (field_path ops fab index)

  -- `push_cell(false, &field_index_value(slot))`
  unfoldable pub push_slot : ℕ → Result String (ImpactOp F W)
  push_slot slot = and_then (field_index_value ops fab slot) (λ v. ok (push_cell ops fab false v))

  unfoldable pub list_push_front_at :
      List (LedgerKey F W) → LedgerValue F W → Result String (List (ImpactOp F W))
  list_push_front_at path v = vec (
      idx_path ops fab false true path
      ∷ dup ops fab 0
      ∷ idx_one ops fab false false list_length_slot
      ∷ const_op ops fab (Op.addi 1)
      ∷ ok (push_array ops fab true (LedgerElem.cell v ∷ LedgerElem.null ∷ LedgerElem.null ∷ []))
      ∷ ok (swap ops fab 0)
      ∷ push_slot list_length_slot
      ∷ ok (swap ops fab 0)
      ∷ const_op ops fab (Op.ins true 1)
      ∷ ok (swap ops fab 0)
      ∷ push_slot list_tail_slot
      ∷ ok (swap ops fab 0)
      ∷ insc ops fab (length path + 1)
      ∷ [])

  unfoldable pub list_push_front : ℕ → LedgerValue F W → Result String (List (ImpactOp F W))
  list_push_front index v = list_push_front_at (field_path ops fab index) v

  unfoldable pub list_push_front_coin_at :
      List (LedgerKey F W) → LedgerValue F W → LedgerValue F W → Result String (List (ImpactOp F W))
  list_push_front_coin_at path cm coin =
      extend
        (vec (
          idx_path ops fab false true path
          ∷ dup ops fab 0
          ∷ idx_one ops fab false false list_length_slot
          ∷ const_op ops fab (Op.addi 1)
          ∷ ok (push_array ops fab true (LedgerElem.null ∷ LedgerElem.null ∷ LedgerElem.null ∷ []))
          ∷ push_slot list_head_slot
          ∷ []))
        (extend (qualify_coin ops fab (list_coin_dup (length path)) cm coin) (
          vec (
            const_op ops fab (Op.ins true 1)
            ∷ ok (swap ops fab 0)
            ∷ push_slot list_length_slot
            ∷ ok (swap ops fab 0)
            ∷ const_op ops fab (Op.ins true 1)
            ∷ ok (swap ops fab 0)
            ∷ push_slot list_tail_slot
            ∷ ok (swap ops fab 0)
            ∷ insc ops fab (length path + 1)
            ∷ [])))

  unfoldable pub list_push_front_coin :
      ℕ → LedgerValue F W → LedgerValue F W → Result String (List (ImpactOp F W))
  list_push_front_coin index cm coin = list_push_front_coin_at (field_path ops fab index) cm coin

  unfoldable pub list_pop_front_at : List (LedgerKey F W) → Result String (List (ImpactOp F W))
  list_pop_front_at path = vec (
      idx_path ops fab false true path
      ∷ idx_one ops fab false false list_tail_slot
      ∷ insc ops fab (length path)
      ∷ [])

  unfoldable pub list_pop_front : ℕ → Result String (List (ImpactOp F W))
  list_pop_front index = list_pop_front_at (field_path ops fab index)
