-- ===== src/Ledger/Reads.antt =====
-- The operations of the reads of crates/minocrab-ledger/src/reads.rs, around the value that
-- the circuit mints for the result: `value` stands for what `mint_read` returns, and the circuit
-- that mints it and that `emit` writes to is not modelled here.
use minocrab.Prelude.{
  ℕ, ◌+◌, ◌^◌, ltb, check, String, Bool, true, false, List, [], ◌∷◌, ◌++◌, map, Result, ok,
  and_then,
}
use minocrab.Ir.Field.{FieldOps}
use minocrab.Ledger.Fab.{bytes, Alignment, Op, FabOps}
use minocrab.Ledger.Impact.{
  wire, ImpactOp, LedgerValue, LedgerKey, ledger_value, ledger_bytes, vec, u8_of_bool, imm_u64,
  alignment_header, push_cell, dup, idx_one, idx_path, idx_key,
}
use minocrab.Ledger.Ops.{
  const_op, push_slot, list_tail_slot, list_length_slot, tree_slot, tree_next_slot,
  tree_history_slot,
}

abbrev pub u64_atoms : Alignment
u64_atoms = bytes 8 ∷ []

abbrev pub bool_atoms : Alignment
bool_atoms = bytes 1 ∷ []

-- `TYPE_NULL`
abbrev pub type_null : ℕ
type_null = 1

module _ {F W : Type 0} where
  -- The value over the wires that the circuit minted, one for each limb.
  unfoldable pub minted : Alignment → List W → Result String (LedgerValue F W)
  minted atoms wires = ledger_value atoms (map wire wires)

module _ {F W : Type 0} (ops : FieldOps F) (fab : FabOps F) where
  unfoldable pub popeq : Bool → LedgerValue F W → ImpactOp F W
  popeq cached result =
      imm_u64 ops fab (0x0c + u8_of_bool cached)
      ∷ (alignment_header ops fab result.atoms ++ result.elems)

  unfoldable pub cell_read_embedded_at :
      List (LedgerKey F W) → (value : LedgerValue F W) → Result String (List (ImpactOp F W))
  cell_read_embedded_at path value =
      vec (dup ops fab 0 ∷ idx_path ops fab false false path ∷ ok (popeq false value) ∷ [])

  unfoldable pub counter_read_at :
      List (LedgerKey F W) → (value : LedgerValue F W) → Result String (List (ImpactOp F W))
  counter_read_at path value =
      vec (dup ops fab 0 ∷ idx_path ops fab false false path ∷ ok (popeq true value) ∷ [])

  unfoldable pub counter_less_than_at :
      List (LedgerKey F W)
      → (threshold value : LedgerValue F W) → Result String (List (ImpactOp F W))
  counter_less_than_at path threshold value = vec (
      dup ops fab 0
      ∷ idx_path ops fab false false path
      ∷ ok (push_cell ops fab false threshold)
      ∷ const_op ops fab Op.lt
      ∷ ok (popeq true value)
      ∷ [])

  unfoldable pub map_member_at :
      List (LedgerKey F W) → (key value : LedgerValue F W) → Result String (List (ImpactOp F W))
  map_member_at path key value = vec (
      dup ops fab 0
      ∷ idx_path ops fab false false path
      ∷ ok (push_cell ops fab false key)
      ∷ const_op ops fab Op.member
      ∷ ok (popeq true value)
      ∷ [])

  unfoldable pub map_lookup_at :
      List (LedgerKey F W) → (key value : LedgerValue F W) → Result String (List (ImpactOp F W))
  map_lookup_at path key value = vec (
      dup ops fab 0
      ∷ idx_path ops fab false false path
      ∷ ok (idx_key ops fab key)
      ∷ ok (popeq false value)
      ∷ [])

  unfoldable pub map_size_at :
      List (LedgerKey F W) → (value : LedgerValue F W) → Result String (List (ImpactOp F W))
  map_size_at path value = vec (
      dup ops fab 0
      ∷ idx_path ops fab false false path
      ∷ const_op ops fab Op.size
      ∷ ok (popeq true value)
      ∷ [])

  unfoldable pub map_is_empty_at :
      List (LedgerKey F W) → (value : LedgerValue F W) → Result String (List (ImpactOp F W))
  map_is_empty_at path value = and_then (ledger_bytes 8 (imm_u64 ops fab 0 ∷ [])) λ zero. vec (
      dup ops fab 0
      ∷ idx_path ops fab false false path
      ∷ const_op ops fab Op.size
      ∷ ok (push_cell ops fab false zero)
      ∷ const_op ops fab Op.eq
      ∷ ok (popeq true value)
      ∷ [])

  unfoldable pub list_length_at :
      List (LedgerKey F W) → (value : LedgerValue F W) → Result String (List (ImpactOp F W))
  list_length_at path value = vec (
      dup ops fab 0
      ∷ idx_path ops fab false false path
      ∷ idx_one ops fab false false list_length_slot
      ∷ ok (popeq true value)
      ∷ [])

  unfoldable pub list_is_empty_at :
      List (LedgerKey F W) → (value : LedgerValue F W) → Result String (List (ImpactOp F W))
  list_is_empty_at path value = vec (
      dup ops fab 0
      ∷ idx_path ops fab false false path
      ∷ idx_one ops fab false false list_tail_slot
      ∷ const_op ops fab Op.type_of
      ∷ push_slot ops fab type_null
      ∷ const_op ops fab Op.eq
      ∷ ok (popeq true value)
      ∷ [])

  unfoldable pub merkle_tree_check_root_at :
      List (LedgerKey F W) → (root value : LedgerValue F W) → Result String (List (ImpactOp F W))
  merkle_tree_check_root_at path root value = vec (
      dup ops fab 0
      ∷ idx_path ops fab false false path
      ∷ idx_one ops fab false false tree_slot
      ∷ const_op ops fab Op.root
      ∷ ok (push_cell ops fab false root)
      ∷ const_op ops fab Op.eq
      ∷ ok (popeq true value)
      ∷ [])

  -- `1u64 << depth`
  unfoldable pub tree_capacity : ℕ → Result String (LedgerValue F W)
  tree_capacity depth =
      and_then (check (ltb depth 64) "attempt to shift left with overflow")
        λ _. ledger_bytes 8 (imm_u64 ops fab (2 ^ depth) ∷ [])

  unfoldable pub merkle_tree_is_full_at :
      List (LedgerKey F W) → ℕ → (value : LedgerValue F W) → Result String (List (ImpactOp F W))
  unfolding tree_capacity
  merkle_tree_is_full_at path depth value = and_then (tree_capacity depth) λ capacity. vec (
      dup ops fab 0
      ∷ idx_path ops fab false false path
      ∷ idx_one ops fab false false tree_next_slot
      ∷ ok (push_cell ops fab false capacity)
      ∷ const_op ops fab Op.lt
      ∷ const_op ops fab Op.neg
      ∷ ok (popeq true value)
      ∷ [])

  unfoldable pub historic_merkle_tree_check_root_at :
      List (LedgerKey F W) → (root value : LedgerValue F W) → Result String (List (ImpactOp F W))
  historic_merkle_tree_check_root_at path root value = vec (
      dup ops fab 0
      ∷ idx_path ops fab false false path
      ∷ idx_one ops fab false false tree_history_slot
      ∷ ok (push_cell ops fab false root)
      ∷ const_op ops fab Op.member
      ∷ ok (popeq true value)
      ∷ [])
