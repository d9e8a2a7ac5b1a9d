-- ===== src/Ledger/Ops/Blind.antt =====
-- Events and the blind operations, which read no value into the circuit
-- (crates/minocrab-ledger/src/ops.rs).
use minocrab.Prelude.{
  ℕ, ◌+◌, ◌*◌, ◌-◌, String, Bool, true, false, List, [], ◌∷◌, ◌++◌, length, leb, Result, ok,
  and_then, check, if◌then◌else◌,
}
use minocrab.Ir.Field.{FieldOps}
use minocrab.Ledger.Fab.{Op, FabOps}
use minocrab.Ledger.Impact.{
  ImpactOp, LedgerValue, LedgerKey, value_key, ledger_bytes, vec, extend, imm_u64, alignment_header,
  push_cell, dup, swap, idx_path,
}
use minocrab.Ledger.Ops.Cells.{
  const_op, insc, ins1, idxp_container, insc_container, push_last, cell_write_at,
}
use minocrab.Ledger.Ops.Collections.{map_remove_at}

module _ {F W : Type 0} (ops : FieldOps F) (fab : FabOps F) where
  -- The elements 0x10, `3 | 3 << 4`, then the cells of the version, the tag and the payload.
  unfoldable pub event_push : ℕ → ℕ → LedgerValue F W → ImpactOp F W
  event_push version tag payload =
      imm_u64 ops fab 0x10
      ∷ imm_u64 ops fab 51
      ∷ imm_u64 ops fab 1
      ∷ imm_u64 ops fab 1
      ∷ imm_u64 ops fab 4
      ∷ imm_u64 ops fab version
      ∷ imm_u64 ops fab 1
      ∷ imm_u64 ops fab 1
      ∷ imm_u64 ops fab 1
      ∷ imm_u64 ops fab tag
      ∷ imm_u64 ops fab 1
      ∷ (alignment_header ops fab payload.atoms ++ payload.elems)

  unfoldable pub emit_event : ℕ → ℕ → LedgerValue F W → Result String (List (ImpactOp F W))
  emit_event version tag payload =
      vec (ok (event_push version tag payload) ∷ const_op ops fab Op.log ∷ [])

  unfoldable pub cell_snapshot_into_map_at :
      (cell map : List (LedgerKey F W)) → LedgerValue F W → Result String (List (ImpactOp F W))
  cell_snapshot_into_map_at cell map key =
      and_then
        (check (leb (2 * length map + 1) 15) "cell_snapshot_into_map_at: past the dup nibble")
        (λ _. vec (
          idx_path ops fab false true map
          ∷ ok (push_cell ops fab false key)
          ∷ dup ops fab (2 * length map + 1)
          ∷ idx_path ops fab false false cell
          ∷ ins1 ops fab
          ∷ insc ops fab (length map)
          ∷ []))

  -- `2 * dst.len() - 1` panics on the empty path.
  unfoldable pub cell_copy_at :
      (src dst : List (LedgerKey F W)) → Result String (List (ImpactOp F W))
  cell_copy_at src dst =
      and_then (check (leb 1 (length dst)) "attempt to subtract with overflow") (λ _.
        and_then (check (leb (2 * length dst - 1) 15) "cell_copy_at: past the dup nibble") (λ _.
          extend (idxp_container ops fab dst) (
            extend
              (vec (
                push_last ops fab dst
                ∷ dup ops fab (2 * length dst - 1)
                ∷ idx_path ops fab false false src
                ∷ ins1 ops fab
                ∷ []))
              (insc_container ops fab dst))))

  unfoldable pub map_move_entry_at :
      (map : List (LedgerKey F W))
      → (from to : LedgerValue F W) → Result String (List (ImpactOp F W))
  map_move_entry_at map from to =
      and_then (check (leb (2 * length map + 1) 15) "map_move_entry_at: past the dup nibble") (λ _.
        and_then (ledger_bytes 1 (imm_u64 ops fab 0 ∷ [])) (λ zero.
          extend
            (vec (
              idx_path ops fab false true map
              ∷ ok (push_cell ops fab false to)
              ∷ dup ops fab (2 * length map + 1)
              ∷ idx_path ops fab false false (map ++ value_key from ∷ [])
              ∷ dup ops fab 0
              ∷ const_op ops fab Op.type_of
              ∷ ok (push_cell ops fab false zero)
              ∷ ok (swap ops fab 0)
              ∷ const_op ops fab Op.sub
              ∷ const_op ops fab Op.pop
              ∷ ins1 ops fab
              ∷ insc ops fab (length map)
              ∷ []))
            (map_remove_at ops fab map from)))

  -- `idxp f; push delta; op; insc len(f)`
  unfoldable pub cell_boolean_at :
      List (LedgerKey F W) → LedgerValue F W → Op → Result String (List (ImpactOp F W))
  cell_boolean_at path delta op = vec (
      idx_path ops fab false true path
      ∷ ok (push_cell ops fab false delta)
      ∷ const_op ops fab op
      ∷ insc ops fab (length path)
      ∷ [])

  unfoldable pub cell_add_at :
      List (LedgerKey F W) → LedgerValue F W → Result String (List (ImpactOp F W))
  cell_add_at path delta = vec (
      idx_path ops fab false true path
      ∷ ok (push_cell ops fab false delta)
      ∷ const_op ops fab Op.add
      ∷ insc ops fab (length path)
      ∷ [])

  unfoldable pub cell_sub_at :
      List (LedgerKey F W) → LedgerValue F W → Result String (List (ImpactOp F W))
  cell_sub_at path delta = vec (
      idx_path ops fab false true path
      ∷ ok (push_cell ops fab false delta)
      ∷ const_op ops fab Op.sub
      ∷ insc ops fab (length path)
      ∷ [])

  unfoldable pub cell_extremum_at :
      List (LedgerKey F W) → LedgerValue F W → (max : Bool) → Result String (List (ImpactOp F W))
  cell_extremum_at path delta max =
      extend
        (vec (
          idx_path ops fab false true path
          ∷ ok (push_cell ops fab true delta)
          ∷ dup ops fab 1
          ∷ dup ops fab 1
          ∷ const_op ops fab Op.lt
          ∷ []))
        (extend (vec (if max then const_op ops fab Op.neg ∷ [] else [])) (
          vec (
            const_op ops fab (Op.branch 3)
            ∷ const_op ops fab (Op.swap 0)
            ∷ const_op ops fab Op.pop
            ∷ const_op ops fab (Op.jmp 1)
            ∷ const_op ops fab Op.pop
            ∷ insc ops fab (length path)
            ∷ [])))

  unfoldable pub cell_max_at :
      List (LedgerKey F W) → LedgerValue F W → Result String (List (ImpactOp F W))
  cell_max_at path delta = cell_extremum_at path delta true

  unfoldable pub cell_min_at :
      List (LedgerKey F W) → LedgerValue F W → Result String (List (ImpactOp F W))
  cell_min_at path delta = cell_extremum_at path delta false

  unfoldable pub cell_and_at :
      List (LedgerKey F W) → LedgerValue F W → Result String (List (ImpactOp F W))
  cell_and_at path delta = cell_boolean_at path delta Op.and

  unfoldable pub cell_or_at :
      List (LedgerKey F W) → LedgerValue F W → Result String (List (ImpactOp F W))
  cell_or_at path delta = cell_boolean_at path delta Op.or

  -- A `usize` above `u32::MAX` panics.
  unfoldable pub first_write :
      (flag_path : List (LedgerKey F W))
      → (write_value write_flag : List (ImpactOp F W)) → Result String (List (ImpactOp F W))
  first_write flag_path write_value write_flag =
      and_then
        (check (leb (length write_value + length write_flag) 4294967295) "branch skip fits a u32")
        (λ _.
          extend
            (vec (
              dup ops fab 0
              ∷ idx_path ops fab false false flag_path
              ∷ const_op ops fab (Op.branch (length write_value + length write_flag))
              ∷ []))
            (ok (write_value ++ write_flag)))

  unfoldable pub cell_write_first_at :
      (value_path flag_path : List (LedgerKey F W))
      → LedgerValue F W
      → Result String (List (ImpactOp F W))
  cell_write_first_at value_path flag_path v =
      and_then (ledger_bytes 1 (imm_u64 ops fab 1 ∷ [])) (λ set.
        and_then (cell_write_at ops fab value_path v) (λ write_value.
          and_then (cell_write_at ops fab flag_path set)
            (λ write_flag. first_write flag_path write_value write_flag)))
