-- ===== src/Ledger/Meaning/Collections.antt =====
-- The meaning of the operations of maps and sets.
use minocrab.Prelude.{
  ℕ, ◌+◌, ◌*◌, ◌%◌, ◌≤◌, ◌<◌, ◌≡◌, refl, sym, subst, String, Bool, true, false, List, [], ◌∷◌, ◌++◌,
  length, arith, leb, leb→le, Bool-cases, Result, ok, err, inl, inr,
}
use minocrab.Ir.Field.{FieldOps, FieldLaws}
use minocrab.Ledger.Fab.{AlignedValue, Key, null, cell, map_value, new_map, Op, FabOps}
use minocrab.Ledger.Impact.{ImpactOp, LedgerValue, LedgerKey, vec, extend, idx_path, dup}
use minocrab.Ledger.Laws.{FabLaws, PlainCode}
use minocrab.Executor.Decoder.RoundTrip.Pushes.{null-StateDecodes, map-StateDecodes}
use minocrab.Ledger.Meaning.{MeansOp, Means, vec_end, vec_op, vec-Means, extend-Means}
use minocrab.Ledger.Meaning.Elements.{Carries, CarriesKey, CarriesPath, plain, idx_path-MeansOp}
use minocrab.Ledger.Meaning.Pushes.{push_cell-MeansOp, push_constant-MeansOp}
use minocrab.Ledger.Meaning.Cells.{
  insc-MeansOp, ins1-MeansOp, qualify_ops, qualify_coin-Means, enter, leave, reset_to_at-Means,
}
use minocrab.Ledger.Ops.{
  const_op, insc, map_coin_dup, set_coin_dup, qualify_coin, map_insert_at, map_insert_coin_at,
  map_remove_at, set_insert_at, set_insert_coin_at, map_reset_at, empty_map,
}

-- A panic in either part is one of the whole.
abbrev Panics : {A : Type 0} → Result String A → Type 0
Panics r = (e : String) × (r ≡ err e)

module _ {F W : Type 0} where
  extend-Panics_left : (r s : Result String (List (ImpactOp F W))) → Panics r → Panics (extend r s)
  unfolding extend
  extend-Panics_left r s (e, h) = (e, rw h)

  extend-Panics_right : (r s : Result String (List (ImpactOp F W))) → Panics s → Panics (extend r s)
  unfolding extend
  extend-Panics_right (ok os) s (e, h) = (e, rw h)
  extend-Panics_right (err e') s (e, h) = (e', refl)

  vec-Panics :
      (r : Result String (ImpactOp F W)) (rs : List (Result String (ImpactOp F W)))
      → Panics r
      → Panics (vec (r ∷ rs))
  unfolding vec
  vec-Panics r rs (e, h) = (e, rw h)

deep_reach : (len : ℕ) → 6 < len → len ≤ 16 → leb ((3 + 2 * len) % 256) 15 ≡ false
deep_reach len lt le = ground arith

module _ (len : ℕ) where
  map_coin_dup-reach : len ≤ 6 → map_coin_dup len ≡ 3 + 2 * len
  unfolding map_coin_dup
  map_coin_dup-reach le = omega arith

  set_coin_dup-reach : len ≤ 6 → set_coin_dup len ≡ 2 + 2 * len
  unfolding set_coin_dup
  set_coin_dup-reach le = omega arith

module _ {F W : Type 0} (ops : FieldOps F) (fab : FabOps F) (laws : FieldLaws ops)
    (fab_laws : FabLaws ops laws fab) (ρ : W → F) where
  pub null-MeansOp :
      (storage : Bool)
      → MeansOp ops fab laws ρ (const_op ops fab (Op.push storage null)) (Op.push storage null)
  null-MeansOp storage =
      push_constant-MeansOp ops fab laws fab_laws ρ storage 1 (ops.from_u64 0) [] null
        fab_laws.repr_null (omega arith) (null-StateDecodes ops fab laws)

  pub empty_map-MeansOp :
      MeansOp ops fab laws ρ
        (const_op ops fab (Op.push true empty_map))
        (Op.push true (map_value new_map))
  unfolding empty_map
  empty_map-MeansOp =
      push_constant-MeansOp ops fab laws fab_laws ρ true 1 (ops.from_u64 2) [] (map_value new_map)
        fab_laws.repr_map (omega arith) (map-StateDecodes ops fab laws)

  module _ (path : List (LedgerKey F W)) (ks : List Key)
      (walks : CarriesPath ops fab laws fab_laws ρ path ks) (some_key : 0 < length path) where
    step_in :
        length path ≤ 15
        → MeansOp ops fab laws ρ (idx_path ops fab false true path) (Op.idx false true ks)
    step_in le =
        idx_path-MeansOp ops fab laws fab_laws ρ false true path ks walks some_key (omega arith)

    step_out :
        length path ≤ 15
        → MeansOp ops fab laws ρ (insc ops fab (length path)) (Op.ins true (length path))
    step_out le = insc-MeansOp ops fab laws fab_laws ρ (length path) le

    pub map_insert_at-Means :
        (key v : LedgerValue F W) (key_v av : AlignedValue)
        → Carries ops fab laws fab_laws ρ key key_v
        → Carries ops fab laws fab_laws ρ v av
        → length path ≤ 15
        → Means ops fab laws ρ
            (map_insert_at ops fab path key v)
            (Op.idx false true ks
              ∷ Op.push false (cell key_v)
              ∷ Op.push true (cell av)
              ∷ Op.ins false 1
              ∷ Op.ins true (length path)
              ∷ [])
            []
    unfolding map_insert_at
    map_insert_at-Means key v key_v av hk hv le = vec-Means ops fab laws ρ (
        vec_op (step_in le) (
          vec_op (push_cell-MeansOp ops fab laws fab_laws ρ false key key_v hk) (
            vec_op (push_cell-MeansOp ops fab laws fab_laws ρ true v av hv)
              (vec_op (ins1-MeansOp ops fab laws fab_laws ρ) (vec_op (step_out le) vec_end)))))

    pub set_insert_at-Means :
        (elem : LedgerValue F W) (av : AlignedValue)
        → Carries ops fab laws fab_laws ρ elem av
        → length path ≤ 15
        → Means ops fab laws ρ
            (set_insert_at ops fab path elem)
            (Op.idx false true ks
              ∷ Op.push false (cell av)
              ∷ Op.push true null
              ∷ Op.ins false 1
              ∷ Op.ins true (length path)
              ∷ [])
            []
    unfolding set_insert_at
    set_insert_at-Means elem av h le = vec-Means ops fab laws ρ (
        vec_op (step_in le) (
          vec_op (push_cell-MeansOp ops fab laws fab_laws ρ false elem av h) (
            vec_op (null-MeansOp true)
              (vec_op (ins1-MeansOp ops fab laws fab_laws ρ) (vec_op (step_out le) vec_end)))))

    pub map_remove_at-Means :
        (key : LedgerValue F W) (key_v : AlignedValue)
        → Carries ops fab laws fab_laws ρ key key_v
        → length path ≤ 15
        → Means ops fab laws ρ
            (map_remove_at ops fab path key)
            (Op.idx false true ks
              ∷ Op.push false (cell key_v)
              ∷ Op.rem false
              ∷ Op.ins true (length path)
              ∷ [])
            []
    unfolding map_remove_at
    map_remove_at-Means key key_v h le = vec-Means ops fab laws ρ (
        vec_op (step_in le) (
          vec_op (push_cell-MeansOp ops fab laws fab_laws ρ false key key_v h)
            (vec_op (plain ops fab laws fab_laws ρ PlainCode.rem) (vec_op (step_out le) vec_end))))

    -- On a path of 1 to 6 keys, map_insert_coin_at means the step along the path, the push of the
    -- key, the coin's qualification with the commitment's index from the context 3 + 2 * n below
    -- the top, and the insertions of the coin and back along the n keys of the path.
    pub map_insert_coin_at-Means :
        (key cm coin : LedgerValue F W) (key_v cm_v coin_v : AlignedValue)
        → Carries ops fab laws fab_laws ρ key key_v
        → Carries ops fab laws fab_laws ρ cm cm_v
        → Carries ops fab laws fab_laws ρ coin coin_v
        → length path ≤ 6
        → Means ops fab laws ρ
            (map_insert_coin_at ops fab path key cm coin)
            ((Op.idx false true ks ∷ Op.push false (cell key_v) ∷ [])
              ++ (qualify_ops ops fab laws fab_laws ρ (3 + 2 * length path) cm_v coin_v
                  ++ (Op.ins false 1 ∷ Op.ins true (length path) ∷ [])))
            []
    unfolding map_insert_coin_at
    map_insert_coin_at-Means key cm coin key_v cm_v coin_v hk hc hv le =
        extend-Means ops fab laws ρ
          (vec-Means ops fab laws ρ (
            vec_op (step_in (omega arith))
              (vec_op (push_cell-MeansOp ops fab laws fab_laws ρ false key key_v hk) vec_end)))
          (extend-Means ops fab laws ρ
            (subst
              (λ n.
                Means ops fab laws ρ (qualify_coin ops fab n cm coin)
                  (qualify_ops ops fab laws fab_laws ρ (3 + 2 * length path) cm_v coin_v) [])
              (sym (map_coin_dup-reach (length path) le))
              (qualify_coin-Means ops fab laws fab_laws ρ (3 + 2 * length path) cm coin cm_v coin_v
                (omega arith) hc hv))
            (vec-Means ops fab laws ρ (
              vec_op (ins1-MeansOp ops fab laws fab_laws ρ)
                (vec_op (step_out (omega arith)) vec_end))))

    pub set_insert_coin_at-Means :
        (cm coin : LedgerValue F W) (cm_v coin_v : AlignedValue)
        → Carries ops fab laws fab_laws ρ cm cm_v
        → Carries ops fab laws fab_laws ρ coin coin_v
        → length path ≤ 6
        → Means ops fab laws ρ
            (set_insert_coin_at ops fab path cm coin)
            ((Op.idx false true ks ∷ [])
              ++ (qualify_ops ops fab laws fab_laws ρ (2 + 2 * length path) cm_v coin_v
                  ++ (Op.push true null ∷ Op.ins false 1 ∷ Op.ins true (length path) ∷ [])))
            []
    unfolding set_insert_coin_at
    set_insert_coin_at-Means cm coin cm_v coin_v hc hv le =
        extend-Means ops fab laws ρ
          (vec-Means ops fab laws ρ (vec_op (step_in (omega arith)) vec_end))
          (extend-Means ops fab laws ρ
            (subst
              (λ n.
                Means ops fab laws ρ (qualify_coin ops fab n cm coin)
                  (qualify_ops ops fab laws fab_laws ρ (2 + 2 * length path) cm_v coin_v) [])
              (sym (set_coin_dup-reach (length path) le))
              (qualify_coin-Means ops fab laws fab_laws ρ (2 + 2 * length path) cm coin cm_v coin_v
                (omega arith) hc hv))
            (vec-Means ops fab laws ρ (
              vec_op (null-MeansOp true) (
                vec_op (ins1-MeansOp ops fab laws fab_laws ρ)
                  (vec_op (step_out (omega arith)) vec_end)))))

  pub map_reset_at-Means :
      (head : List (LedgerKey F W)) (k : LedgerKey F W) (hs : List Key) (kv : AlignedValue)
      → CarriesPath ops fab laws fab_laws ρ head hs
      → CarriesKey ops fab laws fab_laws ρ k (Key.value kv)
      → length head ≤ 15
      → Means ops fab laws ρ
          (map_reset_at ops fab (head ++ k ∷ []))
          (enter hs
            ++ ((Op.push false (cell kv) ∷ Op.push true (map_value new_map) ∷ Op.ins false 1 ∷ [])
                ++ leave (length head)))
          []
  unfolding map_reset_at empty_map
  map_reset_at-Means head k hs kv h hk le =
      reset_to_at-Means ops fab laws fab_laws ρ head k hs kv (map_value new_map) h hk le
        empty_map-MeansOp

  deep_coin-Panics :
      (len : ℕ) (cm coin : LedgerValue F W)
      → 6 < len
      → len ≤ 16
      → Panics (qualify_coin ops fab (map_coin_dup len) cm coin)
  unfolding qualify_coin map_coin_dup dup
  deep_coin-Panics len cm coin lt le =
      vec-Panics _ _ ("dup: the reach does not fit", rw (deep_reach len lt le))

  long_path-Panics :
      (c p : Bool) (path : List (LedgerKey F W))
      → leb (length path) 16 ≡ false
      → Panics (idx_path ops fab c p path)
  unfolding idx_path
  long_path-Panics c p path h = elim (Bool-cases (leb 1 (length path))) [
    | inl t ↦ ("idx_path: the path does not fit", rw (t, h))
    | inr f ↦ ("idx_path: an empty path", rw f)
  ]

  -- On a path of more than 6 keys map_insert_coin_at panics: the reach of its dup does not fit the
  -- opcode, and no other reach is encoded in its place.
  pub map_insert_coin_at-deep :
      (path : List (LedgerKey F W)) (key cm coin : LedgerValue F W)
      → 6 < length path
      → (e : String) × (map_insert_coin_at ops fab path key cm coin ≡ err e)
  unfolding map_insert_coin_at
  map_insert_coin_at-deep path key cm coin lt = elim (Bool-cases (leb (length path) 16)) [
    | inl fits ↦ extend-Panics_right _ _ (
        extend-Panics_left _ _
          (deep_coin-Panics (length path) cm coin lt (leb→le (length path) 16 fits)))
    | inr long ↦ extend-Panics_left _ _ (vec-Panics _ _ (long_path-Panics false true path long))
  ]
