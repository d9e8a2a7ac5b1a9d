-- ===== src/Tests/Sequences.antt =====
-- The theorems on reads, single operations and sequences, applied to the paths of Tests/Meaning.
use minocrab.Prelude.{refl, true, false, [], ◌∷◌, arith, ok}
use minocrab.Ledger.Fab.{bytes, Key, null, cell, array, nil, cons, Op}
use minocrab.Ledger.Impact.{LedgerElem, limbs, atom_limbs, idx_path, push_array}
use minocrab.Ledger.Reads.{map_lookup_at}
use minocrab.Ledger.Meaning.{Means, MeansOp}
use minocrab.Ledger.Meaning.Elements.{idx_path-MeansOp}
use minocrab.Ledger.Meaning.Pushes.{push_array-MeansOp}
use minocrab.Ledger.Meaning.Reads.{map_lookup_at-Means}
use minocrab.Tests.Instance.{nat_ops, nat_laws}
use minocrab.Tests.Ledger.{
  nat_fab, nat_fab_laws, wire_value, cell_value, carried, cell_value-IsValue,
}
use minocrab.Ledger.KernelReads.{kernel_block_time}
use minocrab.Ledger.Meaning.Context.{block_time_ops, kernel_block_time-Means}
use minocrab.Tests.Meaning.{nested, three, seven, byte, nested-Path}

map_lookup_at-Means_example :
    Means nat_ops nat_fab nat_laws wire_value
      (map_lookup_at nat_ops nat_fab nested cell_value cell_value)
      (Op.dup 0
        ∷ Op.idx false false (three ∷ seven ∷ [])
        ∷ Op.idx false false (seven ∷ [])
        ∷ Op.popeq false
        ∷ [])
      ((bytes 8 ∷ []) ∷ [])
unfolding limbs atom_limbs
map_lookup_at-Means_example =
    map_lookup_at-Means nat_ops nat_fab nat_laws nat_fab_laws wire_value nested (three ∷ seven ∷ [])
      nested-Path (omega arith) (omega arith) cell_value (omega arith) (omega arith, tt) refl
      cell_value carried cell_value-IsValue

idx_path-MeansOp_example :
    MeansOp nat_ops nat_fab nat_laws wire_value
      (idx_path nat_ops nat_fab true false nested)
      (Op.idx true false (three ∷ seven ∷ []))
idx_path-MeansOp_example =
    idx_path-MeansOp nat_ops nat_fab nat_laws nat_fab_laws wire_value true false nested
      (three ∷ seven ∷ []) nested-Path (omega arith) (omega arith)

push_array-MeansOp_example :
    MeansOp nat_ops nat_fab nat_laws wire_value
      (ok (push_array nat_ops nat_fab true (LedgerElem.null ∷ LedgerElem.cell cell_value ∷ [])))
      (Op.push true (array (cons null (cons (cell carried) nil))))
push_array-MeansOp_example =
    push_array-MeansOp nat_ops nat_fab nat_laws nat_fab_laws wire_value true
      (LedgerElem.null ∷ LedgerElem.cell cell_value ∷ []) (cons null (cons (cell carried) nil))
      (refl, (carried, cell_value-IsValue, refl, tt)) (omega arith)

kernel_block_time-Means_example :
    Means nat_ops nat_fab nat_laws wire_value
      (kernel_block_time nat_ops nat_fab cell_value true cell_value)
      (block_time_ops true (Key.value (byte 2)) carried)
      ((bytes 8 ∷ []) ∷ [])
unfolding limbs atom_limbs nat_fab_laws
kernel_block_time-Means_example =
    kernel_block_time-Means nat_ops nat_fab nat_laws nat_fab_laws wire_value cell_value
      (omega arith) (omega arith, tt) refl cell_value carried true cell_value-IsValue
