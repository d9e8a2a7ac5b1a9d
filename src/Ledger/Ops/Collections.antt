-- ===== src/Ledger/Ops/Collections.antt =====
-- The operations of maps and sets (crates/minocrab-ledger/src/ops.rs).
use minocrab.Prelude.{ℕ, String, true, false, List, [], ◌∷◌, length, Result, ok, and_then}
use minocrab.Ir.Field.{FieldOps}
use minocrab.Ledger.Fab.{Alignment, StateValue, null, map_value, new_map, Op, FabOps}
use minocrab.Ledger.Impact.{
  ImpactOp, LedgerValue, LedgerKey, vec, extend, push_cell, idx_path, default_value, field_path,
}
use minocrab.Ledger.Ops.Cells.{
  const_op, insc, ins1, qualify_coin, map_coin_dup, set_coin_dup, reset_to_at,
}

unfoldable pub empty_map : StateValue
empty_map = map_value new_map

module _ {F W : Type 0} (ops : FieldOps F) (fab : FabOps F) where
  unfoldable pub map_insert_at :
      List (LedgerKey F W) → LedgerValue F W → LedgerValue F W → Result String (List (ImpactOp F W))
  map_insert_at path key v = vec (
      idx_path ops fab false true path
      ∷ ok (push_cell ops fab false key)
      ∷ ok (push_cell ops fab true v)
      ∷ ins1 ops fab
      ∷ insc ops fab (length path)
      ∷ [])

  unfoldable pub map_insert :
      ℕ → LedgerValue F W → LedgerValue F W → Result String (List (ImpactOp F W))
  map_insert index key v = map_insert_at (field_path ops fab index) key v

  unfoldable pub map_insert_coin_at :
      List (LedgerKey F W)
      → LedgerValue F W
      → LedgerValue F W
      → LedgerValue F W
      → Result String (List (ImpactOp F W))
  map_insert_coin_at path key cm coin =
      extend (vec (idx_path ops fab false true path ∷ ok (push_cell ops fab false key) ∷ [])) (
        extend (qualify_coin ops fab (map_coin_dup (length path)) cm coin)
          (vec (ins1 ops fab ∷ insc ops fab (length path) ∷ [])))

  unfoldable pub map_insert_coin :
      ℕ → LedgerValue F W → LedgerValue F W → LedgerValue F W → Result String (List (ImpactOp F W))
  map_insert_coin index key cm coin = map_insert_coin_at (field_path ops fab index) key cm coin

  unfoldable pub map_remove_at :
      List (LedgerKey F W) → LedgerValue F W → Result String (List (ImpactOp F W))
  map_remove_at path key = vec (
      idx_path ops fab false true path
      ∷ ok (push_cell ops fab false key)
      ∷ const_op ops fab (Op.rem false)
      ∷ insc ops fab (length path)
      ∷ [])

  unfoldable pub map_remove : ℕ → LedgerValue F W → Result String (List (ImpactOp F W))
  map_remove index key = map_remove_at (field_path ops fab index) key

  unfoldable pub set_insert_at :
      List (LedgerKey F W) → LedgerValue F W → Result String (List (ImpactOp F W))
  set_insert_at path elem = vec (
      idx_path ops fab false true path
      ∷ ok (push_cell ops fab false elem)
      ∷ const_op ops fab (Op.push true null)
      ∷ ins1 ops fab
      ∷ insc ops fab (length path)
      ∷ [])

  unfoldable pub set_insert : ℕ → LedgerValue F W → Result String (List (ImpactOp F W))
  set_insert index elem = set_insert_at (field_path ops fab index) elem

  unfoldable pub set_insert_coin_at :
      List (LedgerKey F W) → LedgerValue F W → LedgerValue F W → Result String (List (ImpactOp F W))
  set_insert_coin_at path cm coin = extend (vec (idx_path ops fab false true path ∷ [])) (
      extend (qualify_coin ops fab (set_coin_dup (length path)) cm coin) (
        vec
          (const_op ops fab (Op.push true null) ∷ ins1 ops fab ∷ insc ops fab (length path) ∷ [])))

  unfoldable pub set_insert_coin :
      ℕ → LedgerValue F W → LedgerValue F W → Result String (List (ImpactOp F W))
  set_insert_coin index cm coin = set_insert_coin_at (field_path ops fab index) cm coin

  unfoldable pub set_remove : ℕ → LedgerValue F W → Result String (List (ImpactOp F W))
  set_remove index elem = map_remove index elem

  unfoldable pub set_remove_at :
      List (LedgerKey F W) → LedgerValue F W → Result String (List (ImpactOp F W))
  set_remove_at path elem = map_remove_at path elem

  unfoldable pub map_insert_default_at :
      List (LedgerKey F W) → LedgerValue F W → Alignment → Result String (List (ImpactOp F W))
  map_insert_default_at path key value_atoms =
      and_then (default_value ops fab value_atoms) (map_insert_at path key)

  unfoldable pub map_insert_default :
      ℕ → LedgerValue F W → Alignment → Result String (List (ImpactOp F W))
  map_insert_default index key value_atoms =
      and_then (default_value ops fab value_atoms) (map_insert index key)

  unfoldable pub map_insert_adt_default_at :
      List (LedgerKey F W) → LedgerValue F W → StateValue → Result String (List (ImpactOp F W))
  map_insert_adt_default_at path key initial = vec (
      idx_path ops fab false true path
      ∷ ok (push_cell ops fab false key)
      ∷ const_op ops fab (Op.push true initial)
      ∷ ins1 ops fab
      ∷ insc ops fab (length path)
      ∷ [])

  unfoldable pub map_reset_at : List (LedgerKey F W) → Result String (List (ImpactOp F W))
  map_reset_at path = reset_to_at ops fab path empty_map

  unfoldable pub map_reset : ℕ → Result String (List (ImpactOp F W))
  map_reset index = map_reset_at (field_path ops fab index)

  unfoldable pub set_reset : ℕ → Result String (List (ImpactOp F W))
  set_reset index = map_reset index

  unfoldable pub set_reset_at : List (LedgerKey F W) → Result String (List (ImpactOp F W))
  set_reset_at path = map_reset_at path
