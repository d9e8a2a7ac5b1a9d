-- ===== src/Ledger/Meaning/Structures.antt =====
-- The meaning of the operations of lists and Merkle trees.
use minocrab.Prelude.{ℕ, ◌+◌, ◌≤◌, ◌<◌, refl, true, false, List, [], ◌∷◌, ◌++◌, length, arith, ok}
use minocrab.Ir.Field.{FieldOps, FieldLaws}
use minocrab.Ledger.Fab.{AlignedValue, Key, null, cell, array, nil, cons, Op, FabOps}
use minocrab.Ledger.Impact.{LedgerValue, LedgerKey, idx_path, dup, swap}
use minocrab.Ledger.Laws.{FabLaws, PlainCode, OperandCode}
use minocrab.Ledger.Meaning.{MeansOp, Means, VecMeans, vec_end, vec_op, vec-Means}
use minocrab.Ledger.Meaning.Elements.{
  Carries, CarriesPath, plain, operand, dup-MeansOp, swap-MeansOp, idx_path-MeansOp,
}
use minocrab.Ledger.Meaning.Pushes.{push_cell-MeansOp, push_array-MeansOp, byte-Carries}
use minocrab.Ledger.Meaning.Steps.{idx_one-MeansOp}
use minocrab.Ledger.Meaning.Cells.{insc-MeansOp, ins1-MeansOp}
use minocrab.Ledger.Ops.{
  const_op, insc, ins1, push_slot, list_push_front_at, list_pop_front_at, merkle_tree_insert_at,
  merkle_tree_insert_index_at,
}

-- The two ends of the comparison: a swap and a pop, or a pop and a jump over what is skipped.
abbrev pub take_next : List Op
take_next = Op.swap 0 ∷ Op.pop ∷ []

abbrev pub drop_next : (skipped : List Op) → List Op
drop_next skipped = Op.pop ∷ Op.jmp (length skipped) ∷ []

module _ {F W : Type 0} (ops : FieldOps F) (fab : FabOps F) (laws : FieldLaws ops)
    (fab_laws : FabLaws ops laws fab) (ρ : W → F) where
  pub push_slot-MeansOp :
      (i : ℕ)
      → i < 256
      → MeansOp ops fab laws ρ (push_slot ops fab i) (Op.push false (cell (fab_laws.byte_value i)))
  unfolding push_slot
  push_slot-MeansOp i lt =
      let (v, made, h) = byte-Carries ops fab laws fab_laws ρ i lt in
      let (o, e, d) = push_cell-MeansOp ops fab laws fab_laws ρ false v (fab_laws.byte_value i) h in
      (o, rw made e, d)

  -- The keys of the slots of a structure.
  abbrev pub slot : ℕ → List Key
  slot i = Key.value (fab_laws.byte_value i) ∷ []

  swap0 : MeansOp ops fab laws ρ (ok (swap ops fab 0)) (Op.swap 0)
  swap0 = swap-MeansOp ops fab laws fab_laws ρ 0 (omega arith)

  addi1 : MeansOp ops fab laws ρ (const_op ops fab (Op.addi 1)) (Op.addi 1)
  addi1 = operand ops fab laws fab_laws ρ (OperandCode.addi (omega arith))

  module _ (path : List (LedgerKey F W)) (ks : List Key)
      (walks : CarriesPath ops fab laws fab_laws ρ path ks) (some_key : 0 < length path)
      (shallow : length path ≤ 14) where
    step_in : MeansOp ops fab laws ρ (idx_path ops fab false true path) (Op.idx false true ks)
    step_in =
        idx_path-MeansOp ops fab laws fab_laws ρ false true path ks walks some_key (omega arith)

    step_out : MeansOp ops fab laws ρ (insc ops fab (length path)) (Op.ins true (length path))
    step_out = insc-MeansOp ops fab laws fab_laws ρ (length path) (omega arith)

    step_out_slot :
        MeansOp ops fab laws ρ (insc ops fab (length path + 1)) (Op.ins true (length path + 1))
    step_out_slot = insc-MeansOp ops fab laws fab_laws ρ (length path + 1) (omega arith)

    -- On a path of 1 to 14 keys and a value that carries an aligned value, list_push_front_at does
    -- not panic, and the decoder reads its elements back as thirteen operations in order: the step
    -- along the path, a dup, the step to slot 2, the addition of 1, the stored push of an array of
    -- the value and two nulls, and, between swaps, the insertions under slots 2 and 1, the last of
    -- which goes back along the path as well.
    pub list_push_front_at-Means :
        (v : LedgerValue F W) (av : AlignedValue)
        → Carries ops fab laws fab_laws ρ v av
        → Means ops fab laws ρ
            (list_push_front_at ops fab path v)
            (Op.idx false true ks
              ∷ Op.dup 0
              ∷ Op.idx false false (slot 2)
              ∷ Op.addi 1
              ∷ Op.push true (array (cons (cell av) (cons null (cons null nil))))
              ∷ Op.swap 0
              ∷ Op.push false (cell (fab_laws.byte_value 2))
              ∷ Op.swap 0
              ∷ Op.ins true 1
              ∷ Op.swap 0
              ∷ Op.push false (cell (fab_laws.byte_value 1))
              ∷ Op.swap 0
              ∷ Op.ins true (length path + 1)
              ∷ [])
            []
    unfolding list_push_front_at
    list_push_front_at-Means v av h = vec-Means ops fab laws ρ (
        vec_op step_in (
          vec_op (dup-MeansOp ops fab laws fab_laws ρ 0 (omega arith)) (
            vec_op (idx_one-MeansOp ops fab laws fab_laws ρ false false 2 (omega arith)) (
              vec_op addi1 (
                vec_op
                  (push_array-MeansOp ops fab laws fab_laws ρ true _ _
                    (av, h, refl, (refl, (refl, tt))) (omega arith))
                  (vec_op swap0 (
                    vec_op (push_slot-MeansOp 2 (omega arith)) (
                      vec_op swap0 (
                        vec_op (plain ops fab laws fab_laws ρ (PlainCode.insc (omega arith))) (
                          vec_op swap0 (
                            vec_op (push_slot-MeansOp 1 (omega arith))
                              (vec_op swap0 (vec_op step_out_slot vec_end)))))))))))))

    pub list_pop_front_at-Means :
        Means ops fab laws ρ
          (list_pop_front_at ops fab path)
          (Op.idx false true ks ∷ Op.idx false false (slot 1) ∷ Op.ins true (length path) ∷ [])
          []
    unfolding list_pop_front_at
    list_pop_front_at-Means = vec-Means ops fab laws ρ (
        vec_op step_in (
          vec_op (idx_one-MeansOp ops fab laws fab_laws ρ false false 1 (omega arith))
            (vec_op step_out vec_end)))

    pub merkle_tree_insert_at-Means :
        (leaf : LedgerValue F W) (av : AlignedValue)
        → Carries ops fab laws fab_laws ρ leaf av
        → Means ops fab laws ρ
            (merkle_tree_insert_at ops fab path leaf)
            (Op.idx false true ks
              ∷ Op.idx false true (slot 0)
              ∷ Op.dup 2
              ∷ Op.idx false false (slot 1)
              ∷ Op.push true (cell av)
              ∷ Op.ins false 1
              ∷ Op.ins true 1
              ∷ Op.idx false true (slot 1)
              ∷ Op.addi 1
              ∷ Op.ins true (length path + 1)
              ∷ [])
            []
    unfolding merkle_tree_insert_at
    merkle_tree_insert_at-Means leaf av h = vec-Means ops fab laws ρ (
        vec_op step_in (
          vec_op (idx_one-MeansOp ops fab laws fab_laws ρ false true 0 (omega arith)) (
            vec_op (dup-MeansOp ops fab laws fab_laws ρ 2 (omega arith)) (
              vec_op (idx_one-MeansOp ops fab laws fab_laws ρ false false 1 (omega arith)) (
                vec_op (push_cell-MeansOp ops fab laws fab_laws ρ true leaf av h) (
                  vec_op (ins1-MeansOp ops fab laws fab_laws ρ) (
                    vec_op (plain ops fab laws fab_laws ρ (PlainCode.insc (omega arith))) (
                      vec_op (idx_one-MeansOp ops fab laws fab_laws ρ false true 1 (omega arith))
                        (vec_op addi1 (vec_op step_out_slot vec_end))))))))))

    -- On a path of 1 to 14 keys and a leaf and an index that carry aligned values,
    -- merkle_tree_insert_index_at does not panic, and the decoder reads its elements back as
    -- operations in order: the steps to slot 0, the pushes of the index and of the leaf and their
    -- insertion, the step to slot 1, the push of the index and the addition of 1, a comparison, a
    -- branch over exactly a pop and a jump, which jumps over exactly a swap and a pop, and the
    -- insertions back along the path.
    pub merkle_tree_insert_index_at-Means :
        (leaf at : LedgerValue F W) (leaf_v at_v : AlignedValue)
        → Carries ops fab laws fab_laws ρ leaf leaf_v
        → Carries ops fab laws fab_laws ρ at at_v
        → Means ops fab laws ρ
            (merkle_tree_insert_index_at ops fab path leaf at)
            (Op.idx false true ks
              ∷ Op.idx false true (slot 0)
              ∷ Op.push false (cell at_v)
              ∷ Op.push true (cell leaf_v)
              ∷ Op.ins false 2
              ∷ Op.idx false true (slot 1)
              ∷ Op.push false (cell at_v)
              ∷ Op.addi 1
              ∷ Op.dup 1
              ∷ Op.dup 1
              ∷ Op.lt
              ∷ Op.branch (length (drop_next take_next))
              ∷ (drop_next take_next
                  ++ (take_next ++ (Op.ins false 1 ∷ Op.ins true (length path) ∷ []))))
            []
    unfolding merkle_tree_insert_index_at
    merkle_tree_insert_index_at-Means leaf at leaf_v at_v hl ha = vec-Means ops fab laws ρ (
        vec_op step_in (
          vec_op (idx_one-MeansOp ops fab laws fab_laws ρ false true 0 (omega arith)) (
            vec_op (push_cell-MeansOp ops fab laws fab_laws ρ false at at_v ha) (
              vec_op (push_cell-MeansOp ops fab laws fab_laws ρ true leaf leaf_v hl) (
                vec_op (plain ops fab laws fab_laws ρ (PlainCode.ins (omega arith))) (
                  vec_op (idx_one-MeansOp ops fab laws fab_laws ρ false true 1 (omega arith)) (
                    vec_op (push_cell-MeansOp ops fab laws fab_laws ρ false at at_v ha)
                      (vec_op addi1 (vec_op dup1 (vec_op dup1 compare_and_keep))))))))))
      where
        dup1 : MeansOp ops fab laws ρ (dup ops fab 1) (Op.dup 1)
        dup1 = dup-MeansOp ops fab laws fab_laws ρ 1 (omega arith)

        compare_and_keep :
            VecMeans ops fab laws ρ
              (const_op ops fab Op.lt
                ∷ const_op ops fab (Op.branch 2)
                ∷ const_op ops fab Op.pop
                ∷ const_op ops fab (Op.jmp 2)
                ∷ ok (swap ops fab 0)
                ∷ const_op ops fab Op.pop
                ∷ ins1 ops fab
                ∷ insc ops fab (length path)
                ∷ [])
              (Op.lt
                ∷ Op.branch 2
                ∷ Op.pop
                ∷ Op.jmp 2
                ∷ Op.swap 0
                ∷ Op.pop
                ∷ Op.ins false 1
                ∷ Op.ins true (length path)
                ∷ [])
              []
        compare_and_keep = vec_op (plain ops fab laws fab_laws ρ PlainCode.lt) (
            vec_op (operand ops fab laws fab_laws ρ (OperandCode.branch (omega arith))) (
              vec_op (plain ops fab laws fab_laws ρ PlainCode.pop) (
                vec_op (operand ops fab laws fab_laws ρ (OperandCode.jmp (omega arith))) (
                  vec_op swap0 (
                    vec_op (plain ops fab laws fab_laws ρ PlainCode.pop)
                      (vec_op (ins1-MeansOp ops fab laws fab_laws ρ) (vec_op step_out vec_end)))))))
