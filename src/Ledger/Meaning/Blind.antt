-- ===== src/Ledger/Meaning/Blind.antt =====
-- The meaning of the blind operations.
use minocrab.Prelude.{
  ℕ, zero, suc, ◌+◌, ◌^◌, ◌≤◌, ◌<◌, ◌≡◌, Bool, true, false, List, [], ◌∷◌, ◌++◌, map, length, arith,
  le→leb, if◌then◌else◌, length-append,
}
use minocrab.Ir.Field.{FieldOps, FieldLaws}
use minocrab.Ledger.Fab.{AlignedValue, Key, cell, Op, FabOps}
use minocrab.Ledger.Impact.{ImpactOp, LedgerValue, LedgerKey, vec, dup, field_index_value}
use minocrab.Ledger.Laws.{FabLaws, PlainCode, OperandCode}
use minocrab.Executor.Decoder.RoundTrip.Program.{ProgramDecodes}
use minocrab.Ledger.Meaning.{
  fields, length-map, length-ProgramDecodes, both-Means, MeansOp, Means, vec_end, vec_op, vec-Means,
  extend-Means,
}
use minocrab.Ledger.Meaning.Elements.{
  Carries, CarriesKey, CarriesPath, plain, operand, dup-MeansOp, idx_path-MeansOp,
}
use minocrab.Ledger.Meaning.Pushes.{push_cell-MeansOp, byte-Carries}
use minocrab.Ledger.Meaning.Cells.{insc-MeansOp, enter, leave, cell_write_at-Means}
use minocrab.Ledger.Ops.{const_op, cell_extremum_at, first_write, cell_write_first_at}

module _ {F W : Type 0} (ops : FieldOps F) (fab : FabOps F) (laws : FieldLaws ops)
    (fab_laws : FabLaws ops laws fab) (ρ : W → F) where
  -- On a path of 1 to 15 keys, cell_extremum_at means: the cell is compared with the operand, the
  -- test negated for a maximum, and one of the two dropped by a branch before the insertion back
  -- along the path.
  pub cell_extremum_at-Means :
      (path : List (LedgerKey F W)) (ks : List Key) (delta : LedgerValue F W) (av : AlignedValue)
      (max : Bool)
      → CarriesPath ops fab laws fab_laws ρ path ks
      → 0 < length path
      → length path ≤ 15
      → Carries ops fab laws fab_laws ρ delta av
      → Means ops fab laws ρ
          (cell_extremum_at ops fab path delta max)
          ((Op.idx false true ks ∷ Op.push true (cell av) ∷ Op.dup 1 ∷ Op.dup 1 ∷ Op.lt ∷ [])
            ++ ((if max then Op.neg ∷ [] else [])
                ++ (Op.branch 3
                    ∷ Op.swap 0
                    ∷ Op.pop
                    ∷ Op.jmp 1
                    ∷ Op.pop
                    ∷ Op.ins true (length path)
                    ∷ [])))
          []
  unfolding cell_extremum_at
  cell_extremum_at-Means path ks delta av max h pos le hd =
      extend-Means ops fab laws ρ
        (vec-Means ops fab laws ρ (
          vec_op (idx_path-MeansOp ops fab laws fab_laws ρ false true path ks h pos (omega arith)) (
            vec_op (push_cell-MeansOp ops fab laws fab_laws ρ true delta av hd) (
              vec_op dup1
                (vec_op dup1 (vec_op (plain ops fab laws fab_laws ρ PlainCode.lt) vec_end))))))
        (extend-Means ops fab laws ρ (sense max) (
          vec-Means ops fab laws ρ (
            vec_op (operand ops fab laws fab_laws ρ (OperandCode.branch (omega arith))) (
              vec_op (plain ops fab laws fab_laws ρ (PlainCode.swap (omega arith))) (
                vec_op (plain ops fab laws fab_laws ρ PlainCode.pop) (
                  vec_op (operand ops fab laws fab_laws ρ (OperandCode.jmp (omega arith))) (
                    vec_op (plain ops fab laws fab_laws ρ PlainCode.pop) (
                      vec_op (insc-MeansOp ops fab laws fab_laws ρ (length path) le) vec_end))))))))
    where
      dup1 : MeansOp ops fab laws ρ (dup ops fab 1) (Op.dup 1)
      dup1 = dup-MeansOp ops fab laws fab_laws ρ 1 (omega arith)

      sense :
          (b : Bool)
          → Means ops fab laws ρ
              (vec (if b then const_op ops fab Op.neg ∷ [] else []))
              (if b then Op.neg ∷ [] else [])
              []
      sense true =
          vec-Means ops fab laws ρ (vec_op (plain ops fab laws fab_laws ρ PlainCode.neg) vec_end)
      sense false = vec-Means ops fab laws ρ vec_end

  first_write-Means :
      (flag_path : List (LedgerKey F W)) (fks : List Key) (vs fs : List (ImpactOp F W))
      (pv pf : List Op)
      → CarriesPath ops fab laws fab_laws ρ flag_path fks
      → 0 < length flag_path
      → length flag_path ≤ 16
      → ProgramDecodes ops fab laws (map (fields ρ) vs) pv []
      → ProgramDecodes ops fab laws (map (fields ρ) fs) pf []
      → length pv + length pf < 2 ^ 32
      → Means ops fab laws ρ
          (first_write ops fab flag_path vs fs)
          ((Op.dup 0 ∷ Op.idx false false fks ∷ Op.branch (length pv + length pf) ∷ [])
            ++ (pv ++ pf))
          []
  unfolding first_write
  first_write-Means flag_path fks vs fs pv pf h pos le hv hf small =
      let skip : length vs + length fs ≡ length pv + length pf = omega (
        arith,
        length-ProgramDecodes ops fab laws ρ hv,
        length-ProgramDecodes ops fab laws ρ hf,
        length-map (fields ρ) vs,
        length-map (fields ρ) fs,
      ) in
      let (os, e, p) =
        extend-Means ops fab laws ρ
          (vec-Means ops fab laws ρ (
            vec_op (dup-MeansOp ops fab laws fab_laws ρ 0 (omega arith)) (
              vec_op (idx_path-MeansOp ops fab laws fab_laws ρ false false flag_path fks h pos le)
                (vec_op (operand ops fab laws fab_laws ρ (OperandCode.branch small)) vec_end))))
          (both-Means ops fab laws ρ vs fs hv hf) in
      (os, rw (skip, le→leb (length pv + length pf) 4294967295 (omega arith)) e, p)

  -- The length of a whole-field replace.
  abbrev pub replace_ops : List Key → AlignedValue → AlignedValue → ℕ → List Op
  replace_ops hs kv av depth =
      enter hs
      ++ ((Op.push false (cell kv) ∷ Op.push true (cell av) ∷ Op.ins false 1 ∷ []) ++ leave depth)

  length-replace_ops :
      (hs : List Key) (kv av : AlignedValue) (depth : ℕ) → length (replace_ops hs kv av depth) ≤ 5
  length-replace_ops [] kv av zero = omega arith
  length-replace_ops [] kv av (suc n) = omega arith
  length-replace_ops (h ∷ hs) kv av zero = omega arith
  length-replace_ops (h ∷ hs) kv av (suc n) = omega arith

  -- cell_write_first_at means the copy of the state, the flag's read along its whole path, and a
  -- branch over the operations of the two cell writes, of the value and of the flag, so a set flag
  -- skips exactly them; both paths have at most 16 keys and end in a value.
  pub cell_write_first_at-Means :
      (head : List (LedgerKey F W)) (k : LedgerKey F W) (hs : List Key) (kv : AlignedValue)
      (flag_head : List (LedgerKey F W)) (flag : LedgerKey F W) (fhs fks : List Key)
      (fv : AlignedValue) (v : LedgerValue F W) (av : AlignedValue)
      → CarriesPath ops fab laws fab_laws ρ head hs
      → CarriesKey ops fab laws fab_laws ρ k (Key.value kv)
      → length head ≤ 15
      → CarriesPath ops fab laws fab_laws ρ flag_head fhs
      → CarriesKey ops fab laws fab_laws ρ flag (Key.value fv)
      → length flag_head ≤ 15
      → CarriesPath ops fab laws fab_laws ρ (flag_head ++ flag ∷ []) fks
      → Carries ops fab laws fab_laws ρ v av
      → Means ops fab laws ρ
          (cell_write_first_at ops fab (head ++ k ∷ []) (flag_head ++ flag ∷ []) v)
          ((Op.dup 0
              ∷ Op.idx false false fks
              ∷ Op.branch (
                  length (replace_ops hs kv av (length head))
                  + length (replace_ops fhs fv (fab_laws.byte_value 1) (length flag_head)))
              ∷ [])
            ++ (replace_ops hs kv av (length head)
                ++ replace_ops fhs fv (fab_laws.byte_value 1) (length flag_head)))
          []
  unfolding cell_write_first_at field_index_value
  cell_write_first_at-Means head k hs kv flag_head flag fhs fks fv v av h hk le hf hfk fle hp hv =
      let (set, made, hset) = byte-Carries ops fab laws fab_laws ρ 1 (omega arith) in
      let (vs, ev, pv) = cell_write_at-Means ops fab laws fab_laws ρ head k v hs kv av h hk hv le in
      let (fs, ef, pf) =
        cell_write_at-Means ops fab laws fab_laws ρ flag_head flag set fhs fv
          (fab_laws.byte_value 1) hf hfk hset fle in
      let short = length-replace_ops hs kv av (length head) in
      let flag_short = length-replace_ops fhs fv (fab_laws.byte_value 1) (length flag_head) in
      let flag_length = length-append flag_head (flag ∷ []) in
      let (os, e, p) =
        first_write-Means (flag_head ++ flag ∷ []) fks vs fs _ _ hp (omega arith) (omega arith) pv
          pf (omega arith) in
      (os, rw (made, ev, ef) e, p)
