-- ===== src/Ledger/Meaning/Kernel.antt =====
-- The meaning of the kernel's effect operations.
use minocrab.Prelude.{ℕ, ◌<◌, true, false, List, [], ◌∷◌, ◌++◌, length, arith}
use minocrab.Ir.Field.{FieldOps, FieldLaws}
use minocrab.Ledger.Fab.{AlignedValue, Key, null, cell, Op, FabOps}
use minocrab.Ledger.Impact.{LedgerValue, idx_one}
use minocrab.Ledger.Laws.{FabLaws, PlainCode, OperandCode}
use minocrab.Ledger.Meaning.{MeansOp, Means, VecMeans, vec_end, vec_op, vec-Means}
use minocrab.Ledger.Meaning.Elements.{Carries, plain, operand}
use minocrab.Ledger.Meaning.Pushes.{push_cell-MeansOp}
use minocrab.Ledger.Meaning.Steps.{idx_one-MeansOp}
use minocrab.Ledger.Meaning.Steps.{idx_stack-MeansOp}
use minocrab.Ledger.Meaning.Collections.{null-MeansOp}
use minocrab.Ledger.Ops.{const_op}
use minocrab.Ledger.Kernel.{push_null, effect_step, kernel_effect_add, kernel_claim}

-- The addition of the entry that is there already.
abbrev pub add_present : List Op
add_present = Op.dup 2 ∷ Op.dup 2 ∷ Op.idx true false (Key.stack ∷ []) ∷ Op.add ∷ []

module _ {F W : Type 0} (ops : FieldOps F) (fab : FabOps F) (laws : FieldLaws ops)
    (fab_laws : FabLaws ops laws fab) (ρ : W → F) where
  effect_step-MeansOp :
      (slot : ℕ)
      → slot < 256
      → MeansOp ops fab laws ρ
          (effect_step ops fab slot)
          (Op.idx true true (Key.value (fab_laws.byte_value slot) ∷ []))
  unfolding effect_step idx_one
  effect_step-MeansOp slot lt = idx_one-MeansOp ops fab laws fab_laws ρ true true slot lt

  swap0 : MeansOp ops fab laws ρ (const_op ops fab (Op.swap 0)) (Op.swap 0)
  swap0 = plain ops fab laws fab_laws ρ (PlainCode.swap (omega arith))

  dup-plain : (n : ℕ) → n < 16 → MeansOp ops fab laws ρ (const_op ops fab (Op.dup n)) (Op.dup n)
  dup-plain n lt = plain ops fab laws fab_laws ρ (PlainCode.dup lt)

  -- The last seven operations: what is there is added where the key was there, and it is stored.
  accumulate :
      VecMeans ops fab laws ρ
        (const_op ops fab (Op.branch 4)
          ∷ const_op ops fab (Op.dup 2)
          ∷ const_op ops fab (Op.dup 2)
          ∷ const_op ops fab (Op.idx true false (Key.stack ∷ []))
          ∷ const_op ops fab Op.add
          ∷ const_op ops fab (Op.ins true 2)
          ∷ const_op ops fab (Op.swap 0)
          ∷ [])
        (Op.branch 4
          ∷ Op.dup 2
          ∷ Op.dup 2
          ∷ Op.idx true false (Key.stack ∷ [])
          ∷ Op.add
          ∷ Op.ins true 2
          ∷ Op.swap 0
          ∷ [])
        []
  accumulate = vec_op (operand ops fab laws fab_laws ρ (OperandCode.branch (omega arith))) (
      vec_op (dup-plain 2 (omega arith)) (
        vec_op (dup-plain 2 (omega arith)) (
          vec_op (idx_stack-MeansOp ops fab laws fab_laws ρ) (
            vec_op (plain ops fab laws fab_laws ρ PlainCode.add) (
              vec_op (plain ops fab laws fab_laws ρ (PlainCode.insc (omega arith)))
                (vec_op swap0 vec_end))))))

  -- For a slot below 256 and a key and an amount that carry aligned values, kernel_effect_add does
  -- not panic, and the decoder reads its elements back as operations in order: the swap and the
  -- step into the slot, the push of the key, two dups and the membership test, the push of the
  -- amount, the negated test, a branch over exactly the two dups, the lookup by the stack and the
  -- addition, and after these the insertion and the swap back.
  pub kernel_effect_add-Means :
      (slot : ℕ) (key amount : LedgerValue F W) (key_v amount_v : AlignedValue)
      → slot < 256
      → Carries ops fab laws fab_laws ρ key key_v
      → Carries ops fab laws fab_laws ρ amount amount_v
      → Means ops fab laws ρ
          (kernel_effect_add ops fab slot key amount)
          (Op.swap 0
            ∷ Op.idx true true (Key.value (fab_laws.byte_value slot) ∷ [])
            ∷ Op.push false (cell key_v)
            ∷ Op.dup 1
            ∷ Op.dup 1
            ∷ Op.member
            ∷ Op.push false (cell amount_v)
            ∷ Op.swap 0
            ∷ Op.neg
            ∷ Op.branch (length add_present)
            ∷ (add_present ++ (Op.ins true 2 ∷ Op.swap 0 ∷ [])))
          []
  unfolding kernel_effect_add
  kernel_effect_add-Means slot key amount key_v amount_v lt hk ha = vec-Means ops fab laws ρ (
      vec_op swap0 (
        vec_op (effect_step-MeansOp slot lt) (
          vec_op (push_cell-MeansOp ops fab laws fab_laws ρ false key key_v hk) (
            vec_op (dup-plain 1 (omega arith)) (
              vec_op (dup-plain 1 (omega arith)) (
                vec_op (plain ops fab laws fab_laws ρ PlainCode.member) (
                  vec_op (push_cell-MeansOp ops fab laws fab_laws ρ false amount amount_v ha) (
                    vec_op swap0
                      (vec_op (plain ops fab laws fab_laws ρ PlainCode.neg) accumulate)))))))))

  -- A claim inserts the note with a null under the slot's map.
  pub kernel_claim-Means :
      (slot : ℕ) (note : LedgerValue F W) (note_v : AlignedValue)
      → slot < 256
      → Carries ops fab laws fab_laws ρ note note_v
      → Means ops fab laws ρ
          (kernel_claim ops fab slot note)
          (Op.swap 0
            ∷ Op.idx true true (Key.value (fab_laws.byte_value slot) ∷ [])
            ∷ Op.push false (cell note_v)
            ∷ Op.push false null
            ∷ Op.ins true 2
            ∷ Op.swap 0
            ∷ [])
          []
  unfolding kernel_claim push_null
  kernel_claim-Means slot note note_v lt h = vec-Means ops fab laws ρ (
      vec_op swap0 (
        vec_op (effect_step-MeansOp slot lt) (
          vec_op (push_cell-MeansOp ops fab laws fab_laws ρ false note note_v h) (
            vec_op (null-MeansOp ops fab laws fab_laws ρ false) (
              vec_op (plain ops fab laws fab_laws ρ (PlainCode.insc (omega arith)))
                (vec_op swap0 vec_end))))))
