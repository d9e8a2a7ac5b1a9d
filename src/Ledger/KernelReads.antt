-- ===== src/Ledger/KernelReads.antt =====
-- The operation lists of the kernel reads of crates/minocrab-ledger/src/kernel.rs, with the value over
-- the wires that the read minted as an argument.
use minocrab.Prelude.{
  ℕ, String, Bool, true, false, Option, List, [], ◌∷◌, replicate, Result, ok, and_then, ok_or,
}
use minocrab.Ir.Field.{FieldOps}
use minocrab.Ledger.Fab.{bytes, Alignment, Key, Op, FabOps}
use minocrab.Ledger.Impact.{
  ImpactOp, LedgerValue, ledger_value, imm_u64, vec, extend, push_cell, dup, swap,
  aligned_field_key, idx_key_cached,
}
use minocrab.Ledger.Ops.{const_op}
use minocrab.Ledger.Reads.{popeq, bool_atoms}

pub data BalanceCmp : Type 0 where
  value less_than greater_than : BalanceCmp

-- The result's atom.
unfoldable pub balance_atoms : BalanceCmp → Alignment
balance_atoms BalanceCmp.value = bytes 16 ∷ []
balance_atoms _ = bool_atoms

-- The `dup` that reaches the context, under the amount of a `greaterThan`.
unfoldable pub context_depth : BalanceCmp → ℕ
context_depth greater_than = 3
context_depth _ = 2

abbrev pub caller_atoms : Alignment
caller_atoms = bytes 1 ∷ bytes 1 ∷ bytes 32 ∷ bytes 32 ∷ []

module _ {F W : Type 0} (ops : FieldOps F) (fab : FabOps F) where
  -- `Op::Idx { cached: true, push_path: false, path: vec![Key::Value(field_key(slot))] }`
  unfoldable pub context_slot : ℕ → Result String (ImpactOp F W)
  context_slot slot =
      and_then (aligned_field_key ops fab slot)
        λ k. const_op ops fab (Op.idx true false (Key.value k ∷ []))

  -- `push_cell(false, amount.expect(..))`
  unfoldable pub push_amount : Option (LedgerValue F W) → Result String (ImpactOp F W)
  push_amount amount =
      and_then (ok_or amount "a comparison needs an amount") λ a. ok (push_cell ops fab false a)

  unfoldable pub amount_before :
      BalanceCmp → Option (LedgerValue F W) → Result String (List (ImpactOp F W))
  unfolding push_amount
  amount_before greater_than amount = vec (push_amount amount ∷ [])
  amount_before _ amount = ok []

  unfoldable pub comparison :
      BalanceCmp → Option (LedgerValue F W) → Result String (List (ImpactOp F W))
  unfolding push_amount
  comparison BalanceCmp.value amount = ok []
  comparison less_than amount = vec (push_amount amount ∷ const_op ops fab Op.lt ∷ [])
  comparison greater_than amount = vec (const_op ops fab Op.lt ∷ [])

  unfoldable pub kernel_balance :
      (token_type : LedgerValue F W)
      → BalanceCmp
      → Option (LedgerValue F W)
      → (result : LedgerValue F W) → Result String (List (ImpactOp F W))
  unfolding context_slot amount_before context_depth comparison
  kernel_balance token_type cmp amount result =
      and_then (ledger_value (bytes 16 ∷ []) (imm_u64 ops fab 0 ∷ [])) λ zero.
        extend (amount_before cmp amount) (
          extend
            (vec (
              dup ops fab (context_depth cmp)
              ∷ context_slot 5
              ∷ dup ops fab 0
              ∷ ok (push_cell ops fab false token_type)
              ∷ const_op ops fab Op.member
              ∷ const_op ops fab (Op.branch 3)
              ∷ const_op ops fab Op.pop
              ∷ ok (push_cell ops fab false zero)
              ∷ const_op ops fab (Op.jmp 1)
              ∷ ok (idx_key_cached ops fab token_type)
              ∷ []))
            (extend (comparison cmp amount) (vec (ok (popeq ops fab true result) ∷ []))))

  unfoldable pub kernel_block_time :
      (time : LedgerValue F W)
      → (greater : Bool) → (result : LedgerValue F W) → Result String (List (ImpactOp F W))
  unfolding context_slot
  kernel_block_time time true result = vec (
      ok (push_cell ops fab false time)
      ∷ dup ops fab 3
      ∷ context_slot 2
      ∷ const_op ops fab Op.lt
      ∷ ok (popeq ops fab true result)
      ∷ [])
  kernel_block_time time false result = vec (
      dup ops fab 2
      ∷ context_slot 2
      ∷ ok (push_cell ops fab false time)
      ∷ const_op ops fab Op.lt
      ∷ ok (popeq ops fab true result)
      ∷ [])

  unfoldable pub kernel_self : (result : LedgerValue F W) → Result String (List (ImpactOp F W))
  unfolding context_slot
  kernel_self result = vec (dup ops fab 2 ∷ context_slot 0 ∷ ok (popeq ops fab true result) ∷ [])

  unfoldable pub kernel_caller : (result : LedgerValue F W) → Result String (List (ImpactOp F W))
  unfolding context_slot
  kernel_caller result = and_then (ledger_value bool_atoms (imm_u64 ops fab 1 ∷ [])) λ truth.
      and_then (ledger_value caller_atoms (replicate 6 (imm_u64 ops fab 0))) λ absent. vec (
        dup ops fab 2
        ∷ context_slot 6
        ∷ dup ops fab 0
        ∷ const_op ops fab Op.type_of
        ∷ ok (push_cell ops fab false truth)
        ∷ const_op ops fab Op.eq
        ∷ const_op ops fab (Op.branch 4)
        ∷ ok (push_cell ops fab false truth)
        ∷ ok (swap ops fab 0)
        ∷ const_op ops fab (Op.concat false 80)
        ∷ const_op ops fab (Op.jmp 2)
        ∷ const_op ops fab Op.pop
        ∷ ok (push_cell ops fab false absent)
        ∷ ok (popeq ops fab true result)
        ∷ [])
