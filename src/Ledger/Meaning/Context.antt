-- ===== src/Ledger/Meaning/Context.antt =====
-- The meaning of the kernel's reads of the context.
use minocrab.Prelude.{ℕ, ◌≤◌, ◌<◌, ◌≡◌, Bool, true, false, List, [], ◌∷◌, All, length, arith}
use minocrab.Ir.Field.{FieldOps, FieldLaws}
use minocrab.Ledger.Fab.{AlignedValue, Key, cell, Op, FabOps}
use minocrab.Ledger.Impact.{LedgerValue, limbs, idx_one, dup}
use minocrab.Ledger.Laws.{FabLaws, PlainCode}
use minocrab.Ledger.KernelReads.{context_slot, kernel_block_time}
use minocrab.Ledger.Meaning.{MeansOp, Means, vec_end, vec_op, vec_read, vec-Means}
use minocrab.Ledger.Meaning.Elements.{Carries, plain, dup-MeansOp}
use minocrab.Ledger.Meaning.Pushes.{push_cell-MeansOp}
use minocrab.Ledger.Meaning.Steps.{idx_one-MeansOp, popeq-MeansRead}
use minocrab.Executor.Decoder.RoundTrip.Values.{SizedAtom}

-- The comparison of the block time with a time: under `greater` the time is pushed first, and
-- the context is one deeper.
abbrev pub block_time_ops : (greater : Bool) (slot : Key) (time : AlignedValue) → List Op
block_time_ops true slot time =
    Op.push false (cell time)
    ∷ Op.dup 3
    ∷ Op.idx true false (slot ∷ [])
    ∷ Op.lt
    ∷ Op.popeq true
    ∷ []
block_time_ops false slot time =
    Op.dup 2
    ∷ Op.idx true false (slot ∷ [])
    ∷ Op.push false (cell time)
    ∷ Op.lt
    ∷ Op.popeq true
    ∷ []

module _ {F W : Type 0} (ops : FieldOps F) (fab : FabOps F) (laws : FieldLaws ops)
    (fab_laws : FabLaws ops laws fab) (ρ : W → F) where
  context_slot-MeansOp :
      (slot : ℕ)
      → slot < 256
      → MeansOp ops fab laws ρ
          (context_slot ops fab slot)
          (Op.idx true false (Key.value (fab_laws.byte_value slot) ∷ []))
  unfolding context_slot idx_one
  context_slot-MeansOp slot lt = idx_one-MeansOp ops fab laws fab_laws ρ true false slot lt

  reach : (n : ℕ) → n < 16 → MeansOp ops fab laws ρ (dup ops fab n) (Op.dup n)
  reach n lt = dup-MeansOp ops fab laws fab_laws ρ n lt

  module _ (result : LedgerValue F W) (few : length result.atoms ≤ 1048576)
      (sized : All SizedAtom result.atoms) (filled : length result.elems ≡ limbs result.atoms) where
    -- kernel_block_time means, in both orders, the comparison of slot 2 of the context with the
    -- time, with the time below where `greater` asks for it, and one read at the result's
    -- alignment.
    pub kernel_block_time-Means :
        (time : LedgerValue F W) (time_v : AlignedValue) (greater : Bool)
        → Carries ops fab laws fab_laws ρ time time_v
        → Means ops fab laws ρ
            (kernel_block_time ops fab time greater result)
            (block_time_ops greater (Key.value (fab_laws.byte_value 2)) time_v)
            (result.atoms ∷ [])
    unfolding kernel_block_time
    kernel_block_time-Means time time_v true h = vec-Means ops fab laws ρ (
        vec_op (push_cell-MeansOp ops fab laws fab_laws ρ false time time_v h) (
          vec_op (reach 3 (omega arith)) (
            vec_op (context_slot-MeansOp 2 (omega arith)) (
              vec_op (plain ops fab laws fab_laws ρ PlainCode.lt) (
                vec_read (popeq-MeansRead ops fab laws fab_laws ρ true result few sized filled)
                  vec_end)))))
    kernel_block_time-Means time time_v false h = vec-Means ops fab laws ρ (
        vec_op (reach 2 (omega arith)) (
          vec_op (context_slot-MeansOp 2 (omega arith)) (
            vec_op (push_cell-MeansOp ops fab laws fab_laws ρ false time time_v h) (
              vec_op (plain ops fab laws fab_laws ρ PlainCode.lt) (
                vec_read (popeq-MeansRead ops fab laws fab_laws ρ true result few sized filled)
                  vec_end)))))
