-- ===== src/Ledger/Kernel.antt =====
-- The effect operations of crates/minocrab-ledger/src/kernel.rs, which read no value.
use minocrab.Prelude.{ℕ, String, true, false, List, [], ◌∷◌, Result, ok, and_then}
use minocrab.Ir.Field.{FieldOps}
use minocrab.Ledger.Fab.{Key, null, Op, FabOps}
use minocrab.Ledger.Impact.{ImpactOp, LedgerValue, vec, push_cell, dup, aligned_field_key}
use minocrab.Ledger.Ops.{const_op}

module _ {F W : Type 0} (ops : FieldOps F) (fab : FabOps F) where
  unfoldable pub push_null : Result String (ImpactOp F W)
  push_null = const_op ops fab (Op.push false null)

  -- `Op::Idx { cached: true, push_path: true, path: vec![Key::Value(field_key(slot))] }`
  unfoldable pub effect_step : ℕ → Result String (ImpactOp F W)
  effect_step slot =
      and_then (aligned_field_key ops fab slot)
        λ k. const_op ops fab (Op.idx true true (Key.value k ∷ []))

  unfoldable pub kernel_effect_add :
      ℕ → LedgerValue F W → LedgerValue F W → Result String (List (ImpactOp F W))
  kernel_effect_add slot key amount = vec (
      const_op ops fab (Op.swap 0)
      ∷ effect_step slot
      ∷ ok (push_cell ops fab false key)
      ∷ const_op ops fab (Op.dup 1)
      ∷ const_op ops fab (Op.dup 1)
      ∷ const_op ops fab Op.member
      ∷ ok (push_cell ops fab false amount)
      ∷ const_op ops fab (Op.swap 0)
      ∷ const_op ops fab Op.neg
      ∷ const_op ops fab (Op.branch 4)
      ∷ const_op ops fab (Op.dup 2)
      ∷ const_op ops fab (Op.dup 2)
      ∷ const_op ops fab (Op.idx true false (Key.stack ∷ []))
      ∷ const_op ops fab Op.add
      ∷ const_op ops fab (Op.ins true 2)
      ∷ const_op ops fab (Op.swap 0)
      ∷ [])

  unfoldable pub kernel_mint_shielded :
      LedgerValue F W → LedgerValue F W → Result String (List (ImpactOp F W))
  kernel_mint_shielded domain_sep amount = kernel_effect_add 4 domain_sep amount

  unfoldable pub kernel_mint_unshielded :
      LedgerValue F W → LedgerValue F W → Result String (List (ImpactOp F W))
  kernel_mint_unshielded domain_sep amount = kernel_effect_add 5 domain_sep amount

  unfoldable pub kernel_inc_unshielded_inputs :
      LedgerValue F W → LedgerValue F W → Result String (List (ImpactOp F W))
  kernel_inc_unshielded_inputs token_type amount = kernel_effect_add 6 token_type amount

  unfoldable pub kernel_inc_unshielded_outputs :
      LedgerValue F W → LedgerValue F W → Result String (List (ImpactOp F W))
  kernel_inc_unshielded_outputs token_type amount = kernel_effect_add 7 token_type amount

  unfoldable pub kernel_claim_unshielded_coin_spend :
      LedgerValue F W → LedgerValue F W → Result String (List (ImpactOp F W))
  kernel_claim_unshielded_coin_spend token_and_recipient amount =
      kernel_effect_add 8 token_and_recipient amount

  unfoldable pub kernel_claim : ℕ → LedgerValue F W → Result String (List (ImpactOp F W))
  kernel_claim effect_index note = vec (
      const_op ops fab (Op.swap 0)
      ∷ effect_step effect_index
      ∷ ok (push_cell ops fab false note)
      ∷ push_null
      ∷ const_op ops fab (Op.ins true 2)
      ∷ const_op ops fab (Op.swap 0)
      ∷ [])

  unfoldable pub kernel_claim_zswap_nullifier :
      LedgerValue F W → Result String (List (ImpactOp F W))
  kernel_claim_zswap_nullifier nul = kernel_claim 0 nul

  unfoldable pub kernel_claim_zswap_coin_receive :
      LedgerValue F W → Result String (List (ImpactOp F W))
  kernel_claim_zswap_coin_receive note = kernel_claim 1 note

  unfoldable pub kernel_claim_zswap_coin_spend :
      LedgerValue F W → Result String (List (ImpactOp F W))
  kernel_claim_zswap_coin_spend note = kernel_claim 2 note

  unfoldable pub kernel_claim_contract_call : LedgerValue F W → Result String (List (ImpactOp F W))
  kernel_claim_contract_call addr_ep_comm = vec (
      const_op ops fab (Op.swap 0)
      ∷ effect_step 3
      ∷ dup ops fab 0
      ∷ const_op ops fab Op.size
      ∷ ok (push_cell ops fab false addr_ep_comm)
      ∷ const_op ops fab (Op.concat true 160)
      ∷ push_null
      ∷ const_op ops fab (Op.ins true 2)
      ∷ const_op ops fab (Op.swap 0)
      ∷ [])
