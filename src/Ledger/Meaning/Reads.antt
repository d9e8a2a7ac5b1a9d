-- ===== src/Ledger/Meaning/Reads.antt =====
-- The meaning of the reads of maps and cells.
use minocrab.Prelude.{◌≤◌, ◌<◌, ◌≡◌, true, false, List, [], ◌∷◌, All, length, arith}
use minocrab.Ir.Field.{FieldOps, FieldLaws}
use minocrab.Ledger.Fab.{AlignedValue, Key, cell, Op, FabOps}
use minocrab.Ledger.Impact.{LedgerValue, LedgerKey, idx_path, dup}
use minocrab.Ledger.Laws.{FabLaws, PlainCode}
use minocrab.Ledger.Meaning.{MeansOp, Means, vec_end, vec_op, vec-Means}
use minocrab.Ledger.Meaning.Elements.{Carries, CarriesPath, plain, dup-MeansOp, idx_path-MeansOp}
use minocrab.Ledger.Meaning.Pushes.{push_cell-MeansOp}
use minocrab.Executor.Decoder.RoundTrip.Values.{SizedAtom}
use minocrab.Ledger.Impact.{limbs}
use minocrab.Ledger.Meaning.{vec_read}
use minocrab.Ledger.Meaning.Steps.{idx_key-MeansOp, popeq-MeansRead}
use minocrab.Ledger.Reads.{cell_read_embedded_at, map_lookup_at, map_member_at}

module _ {F W : Type 0} (ops : FieldOps F) (fab : FabOps F) (laws : FieldLaws ops)
    (fab_laws : FabLaws ops laws fab) (ρ : W → F) where
  module _ (path : List (LedgerKey F W)) (ks : List Key)
      (walks : CarriesPath ops fab laws fab_laws ρ path ks) (some_key : 0 < length path)
      (fits : length path ≤ 16) (value : LedgerValue F W) (few : length value.atoms ≤ 1048576)
      (sized : All SizedAtom value.atoms) (filled : length value.elems ≡ limbs value.atoms) where
    top : MeansOp ops fab laws ρ (dup ops fab 0) (Op.dup 0)
    top = dup-MeansOp ops fab laws fab_laws ρ 0 (omega arith)

    walk : MeansOp ops fab laws ρ (idx_path ops fab false false path) (Op.idx false false ks)
    walk = idx_path-MeansOp ops fab laws fab_laws ρ false false path ks walks some_key fits

    pub cell_read_embedded_at-Means :
        Means ops fab laws ρ
          (cell_read_embedded_at ops fab path value)
          (Op.dup 0 ∷ Op.idx false false ks ∷ Op.popeq false ∷ [])
          (value.atoms ∷ [])
    unfolding cell_read_embedded_at
    cell_read_embedded_at-Means = vec-Means ops fab laws ρ (
        vec_op top (
          vec_op walk (
            vec_read (popeq-MeansRead ops fab laws fab_laws ρ false value few sized filled)
              vec_end)))

    -- On a path of 1 to 16 keys and a result whose atoms and elements fit each other,
    -- map_lookup_at means, whatever the values of the wires of the result are: a copy of the
    -- state, the step along the path, the step by the key, and one read, at the alignment of the
    -- result.
    pub map_lookup_at-Means :
        (key : LedgerValue F W) (key_v : AlignedValue)
        → Carries ops fab laws fab_laws ρ key key_v
        → Means ops fab laws ρ
            (map_lookup_at ops fab path key value)
            (Op.dup 0
              ∷ Op.idx false false ks
              ∷ Op.idx false false (Key.value key_v ∷ [])
              ∷ Op.popeq false
              ∷ [])
            (value.atoms ∷ [])
    unfolding map_lookup_at
    map_lookup_at-Means key key_v h = vec-Means ops fab laws ρ (
        vec_op top (
          vec_op walk (
            vec_op (idx_key-MeansOp ops fab laws fab_laws ρ key key_v h) (
              vec_read (popeq-MeansRead ops fab laws fab_laws ρ false value few sized filled)
                vec_end))))

    pub map_member_at-Means :
        (key : LedgerValue F W) (key_v : AlignedValue)
        → Carries ops fab laws fab_laws ρ key key_v
        → Means ops fab laws ρ
            (map_member_at ops fab path key value)
            (Op.dup 0
              ∷ Op.idx false false ks
              ∷ Op.push false (cell key_v)
              ∷ Op.member
              ∷ Op.popeq true
              ∷ [])
            (value.atoms ∷ [])
    unfolding map_member_at
    map_member_at-Means key key_v h = vec-Means ops fab laws ρ (
        vec_op top (
          vec_op walk (
            vec_op (push_cell-MeansOp ops fab laws fab_laws ρ false key key_v h) (
              vec_op (plain ops fab laws fab_laws ρ PlainCode.member) (
                vec_read (popeq-MeansRead ops fab laws fab_laws ρ true value few sized filled)
                  vec_end)))))
