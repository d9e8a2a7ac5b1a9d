-- ===== src/Ledger/Ops/Cells.antt =====
-- The closing inserts, path suppression, and the writes of cells and counters
-- (crates/minocrab-ledger/src/ops.rs).
use minocrab.Prelude.{
  ℕ, ◌+◌, ◌*◌, ◌-◌, ◌%◌, String, true, false, List, [], ◌∷◌, length, leb, ◌==◌, Result, ok, err,
  and_then, ok_or, check, if◌then◌else◌,
}
use minocrab.Ir.Field.{FieldOps}
use minocrab.Ledger.Fab.{bytes, AlignedValue, Key, StateValue, cell, Op, FabOps}
use minocrab.Ledger.Impact.{
  ImpactOp, LedgerValue, LedgerKey, vec, extend, constant, push_cell, dup, idx_path, push_as_cell,
  aligned_field_key, field_path,
}

module _ {A : Type 0} where
  -- `path[..path.len() - 1]` and `path[path.len() - 1]`, which panic on the empty path
  unfoldable pub init : List A → Result String (List A)
  init [] = err "attempt to subtract with overflow"
  init (x ∷ []) = ok []
  init (x ∷ y ∷ xs) = and_then (init (y ∷ xs)) (λ ys. ok (x ∷ ys))

  unfoldable pub last : List A → Result String A
  last [] = err "attempt to subtract with overflow"
  last (x ∷ []) = ok x
  last (x ∷ y ∷ xs) = last (y ∷ xs)

-- `as u8` of the coin arms' reaches; a path is never empty there.
unfoldable pub cell_coin_dup : ℕ → ℕ
cell_coin_dup len = (3 + 2 * (len - 1)) % 256

unfoldable pub set_coin_dup : ℕ → ℕ
set_coin_dup len = (2 + 2 * len) % 256

unfoldable pub map_coin_dup : ℕ → ℕ
map_coin_dup len = (3 + 2 * len) % 256

unfoldable pub list_coin_dup : ℕ → ℕ
list_coin_dup len = (5 + 2 * len) % 256

module _ {F W : Type 0} (ops : FieldOps F) (fab : FabOps F) where
  -- `ImpactOp::constant(&op)` among expressions that may panic
  abbrev pub const_op : Op → Result String (ImpactOp F W)
  const_op op = ok (constant ops fab op)

  unfoldable pub insc : ℕ → Result String (ImpactOp F W)
  insc n =
      and_then (check (leb n 15) "insc: the depth does not fit") (λ _. const_op (Op.ins true n))

  unfoldable pub ins1 : Result String (ImpactOp F W)
  ins1 = const_op (Op.ins false 1)

  unfoldable pub idxp_head : List (LedgerKey F W) → Result String (List (ImpactOp F W))
  idxp_head [] = ok []
  idxp_head (k ∷ head) = vec (idx_path ops fab false true (k ∷ head) ∷ [])

  unfoldable pub idxp_container : List (LedgerKey F W) → Result String (List (ImpactOp F W))
  unfolding idxp_head
  idxp_container path = and_then (init path) idxp_head

  unfoldable pub insc_container : List (LedgerKey F W) → Result String (List (ImpactOp F W))
  insc_container path = if length path == 1 then ok [] else vec (insc (length path - 1) ∷ [])

  -- `path[path.len() - 1].push_as_cell()`
  unfoldable pub push_last : List (LedgerKey F W) → Result String (ImpactOp F W)
  push_last path = and_then (last path) (push_as_cell ops fab)

  unfoldable pub counter_increment_at :
      List (LedgerKey F W) → ℕ → Result String (List (ImpactOp F W))
  counter_increment_at path amount =
      vec (idx_path ops fab false true path ∷ const_op (Op.addi amount) ∷ insc (length path) ∷ [])

  unfoldable pub counter_increment : ℕ → ℕ → Result String (List (ImpactOp F W))
  counter_increment index amount = counter_increment_at (field_path ops fab index) amount

  unfoldable pub cell_write_at :
      List (LedgerKey F W) → LedgerValue F W → Result String (List (ImpactOp F W))
  cell_write_at path v = extend (idxp_container path) (
      extend (vec (push_last path ∷ ok (push_cell ops fab true v) ∷ ins1 ∷ []))
        (insc_container path))

  unfoldable pub cell_write : ℕ → LedgerValue F W → Result String (List (ImpactOp F W))
  cell_write index v = cell_write_at (field_path ops fab index) v

  unfoldable pub qualify_coin :
      ℕ → LedgerValue F W → LedgerValue F W → Result String (List (ImpactOp F W))
  qualify_coin dup_n cm coin = vec (
      dup ops fab dup_n
      ∷ ok (push_cell ops fab false cm)
      ∷ and_then (aligned_field_key ops fab 1)
          (λ k. const_op (Op.idx true false (Key.value k ∷ Key.stack ∷ [])))
      ∷ ok (push_cell ops fab false coin)
      ∷ const_op (Op.swap 0)
      ∷ const_op (Op.concat true 91)
      ∷ [])

  unfoldable pub cell_write_coin_at :
      List (LedgerKey F W) → LedgerValue F W → LedgerValue F W → Result String (List (ImpactOp F W))
  cell_write_coin_at path cm coin = extend (idxp_container path) (
      extend (vec (push_last path ∷ [])) (
        extend (qualify_coin (cell_coin_dup (length path)) cm coin)
          (extend (vec (ins1 ∷ [])) (insc_container path))))

  unfoldable pub cell_write_coin :
      ℕ → LedgerValue F W → LedgerValue F W → Result String (List (ImpactOp F W))
  cell_write_coin index cm coin = cell_write_coin_at (field_path ops fab index) cm coin

  unfoldable pub reset_to_at :
      List (LedgerKey F W) → StateValue → Result String (List (ImpactOp F W))
  reset_to_at path initial = extend (idxp_container path) (
      extend (vec (push_last path ∷ const_op (Op.push true initial) ∷ ins1 ∷ []))
        (insc_container path))

module _ {F : Type 0} (fab : FabOps F) where
  unfoldable pub u64_aligned : ℕ → Result String AlignedValue
  u64_aligned n =
      ok_or (fab.aligned_value (fab.normalize (fab.u64_le_bytes n) ∷ []) (bytes 8 ∷ []))
        "a u64 fits a bytes<8> atom"

  unfoldable pub empty_counter : Result String StateValue
  unfolding u64_aligned
  empty_counter = and_then (u64_aligned 0) (λ v. ok (cell v))

module _ {F W : Type 0} (ops : FieldOps F) (fab : FabOps F) where
  unfoldable pub counter_reset_at : List (LedgerKey F W) → Result String (List (ImpactOp F W))
  counter_reset_at path = and_then (empty_counter fab) (reset_to_at ops fab path)

  unfoldable pub counter_reset : ℕ → Result String (List (ImpactOp F W))
  counter_reset index = counter_reset_at (field_path ops fab index)
