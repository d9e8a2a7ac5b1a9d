-- ===== src/Ledger/Meaning/Cells.antt =====
-- The meaning of the writes of cells and counters, at every depth of the path.
use minocrab.Prelude.{
  ℕ, zero, suc, ◌-◌, ◌^◌, ◌≤◌, ◌<◌, ◌≡◌, refl, sym, ap, ◌∙◌, subst, String, true, false, List, [],
  ◌∷◌, ◌++◌, length, arith, le→leb, ◌==◌, Result, ok, and_then, if◌then◌else◌, length-append,
}
use minocrab.Ir.Field.{FieldOps, FieldLaws}
use minocrab.Ledger.Fab.{AlignedValue, Key, StateValue, cell, Op, FabOps}
use minocrab.Ledger.Impact.{ImpactOp, LedgerValue, LedgerKey, vec, extend, aligned_field_key}
use minocrab.Ledger.Laws.{FabLaws, PlainCode, OperandCode}
use minocrab.Ledger.Ops.{
  init, last, const_op, insc, ins1, idxp_head, idxp_container, insc_container, push_last,
  counter_increment_at, cell_write_at, qualify_coin, reset_to_at,
}
use minocrab.Ledger.Meaning.{MeansOp, Means, vec_end, vec_op, vec-Means, extend-Means}
use minocrab.Ledger.Meaning.Elements.{
  Carries, CarriesKey, CarriesPath, plain, operand, dup-MeansOp, idx_path-MeansOp,
}
use minocrab.Ledger.Meaning.Pushes.{push_cell-MeansOp, push_as_cell-MeansOp}
use minocrab.Ledger.Meaning.Steps.{idx_byte_stack-MeansOp}

-- The path to a container is walked, and left again, only where it is not empty.
abbrev pub enter : List Key → List Op
enter [] = []
enter (k ∷ ks) = Op.idx false true (k ∷ ks) ∷ []

abbrev pub leave : ℕ → List Op
leave zero = []
leave (suc n) = Op.ins true (suc n) ∷ []

deeper :
    {A : Type 0} (r : Result String (List A)) (n : ℕ) → (if suc (suc n) == 1 then ok [] else r) ≡ r
deeper r n = ground arith

sub_one : (n : ℕ) → suc (suc n) - 1 ≡ suc n
sub_one n = omega arith

module _ {A : Type 0} (x : A) where
  init-append : (xs : List A) → init (xs ++ x ∷ []) ≡ ok xs
  unfolding init
  init-append [] = refl
  init-append (y ∷ []) = refl
  init-append (y ∷ z ∷ xs) = rw (init-append (z ∷ xs))

  last-append : (xs : List A) → last (xs ++ x ∷ []) ≡ ok x
  unfolding last
  last-append [] = refl
  last-append (y ∷ []) = refl
  last-append (y ∷ z ∷ xs) = last-append (z ∷ xs)

module _ {F W : Type 0} (ops : FieldOps F) (fab : FabOps F) (laws : FieldLaws ops)
    (fab_laws : FabLaws ops laws fab) (ρ : W → F) where
  pub insc-MeansOp : (n : ℕ) → n ≤ 15 → MeansOp ops fab laws ρ (insc ops fab n) (Op.ins true n)
  unfolding insc
  insc-MeansOp n le =
      let (o, e, h) = plain ops fab laws fab_laws ρ (PlainCode.insc {n = n} (omega arith)) in
      (o, rw (le→leb n 15 le) e, h)

  pub ins1-MeansOp : MeansOp ops fab laws ρ (ins1 ops fab) (Op.ins false 1)
  unfolding ins1
  ins1-MeansOp = plain ops fab laws fab_laws ρ (PlainCode.ins (omega arith))

  -- `Counter.increment`: step into the field, add the amount, store it back along the path.
  pub counter_increment_at-Means :
      (path : List (LedgerKey F W)) (ks : List Key) (amount : ℕ)
      → CarriesPath ops fab laws fab_laws ρ path ks
      → 0 < length path
      → length path ≤ 15
      → amount < 2 ^ 32
      → Means ops fab laws ρ
          (counter_increment_at ops fab path amount)
          (Op.idx false true ks ∷ Op.addi amount ∷ Op.ins true (length path) ∷ [])
          []
  unfolding counter_increment_at
  counter_increment_at-Means path ks amount h pos le small = vec-Means ops fab laws ρ (
      vec_op (idx_path-MeansOp ops fab laws fab_laws ρ false true path ks h pos (omega arith)) (
        vec_op (operand ops fab laws fab_laws ρ (OperandCode.addi small))
          (vec_op (insc-MeansOp (length path) le) vec_end)))

  pub idxp_container-Means :
      (head : List (LedgerKey F W)) (k : LedgerKey F W) (hs : List Key)
      → CarriesPath ops fab laws fab_laws ρ head hs
      → length head ≤ 15
      → Means ops fab laws ρ (idxp_container ops fab (head ++ k ∷ [])) (enter hs) []
  unfolding idxp_container idxp_head init vec
  idxp_container-Means [] k [] h le = vec-Means ops fab laws ρ vec_end
  idxp_container-Means [] k (h' ∷ hs) h le = absurd h
  idxp_container-Means (h₁ ∷ head) k [] h le = absurd h
  idxp_container-Means (h₁ ∷ head) k (h' ∷ hs) h le =
      let (os, e, p) = vec-Means ops fab laws ρ (
        vec_op
          (idx_path-MeansOp ops fab laws fab_laws ρ false true (h₁ ∷ head) (h' ∷ hs) h (omega arith)
            (omega arith))
          vec_end) in
      (os, rw (init-append k (h₁ ∷ head)) e, p)

  length_snoc :
      (head : List (LedgerKey F W)) (k : LedgerKey F W)
      → length (head ++ k ∷ []) ≡ suc (length head)
  length_snoc head k = omega (arith, length-append head (k ∷ []))

  pub insc_container-Means :
      (head : List (LedgerKey F W)) (k : LedgerKey F W)
      → length head ≤ 15
      → Means ops fab laws ρ (insc_container ops fab (head ++ k ∷ [])) (leave (length head)) []
  unfolding insc_container vec
  insc_container-Means head k le =
      subst
        (λ n.
          Means ops fab laws ρ (if n == 1 then ok [] else vec (insc ops fab (n - 1) ∷ []))
            (leave (length head)) [])
        (sym (length_snoc head k)) (go (length head) le)
    where
      go :
          (n : ℕ)
          → n ≤ 15
          → Means ops fab laws ρ
              (if suc n == 1 then ok [] else vec (insc ops fab (suc n - 1) ∷ []))
              (leave n)
              []
      go zero le = vec-Means ops fab laws ρ vec_end
      go (suc n) le =
          let (os, e, p) = vec-Means ops fab laws ρ (vec_op (insc-MeansOp (suc n) le) vec_end) in
          (
            os,
            deeper (vec (insc ops fab (suc (suc n) - 1) ∷ [])) n
                ∙ ap (λ k. vec (insc ops fab k ∷ [])) (sub_one n)
                ∙ e,
            p,
          )

  push_last-MeansOp :
      (head : List (LedgerKey F W)) (k : LedgerKey F W) (av : AlignedValue)
      → CarriesKey ops fab laws fab_laws ρ k (Key.value av)
      → MeansOp ops fab laws ρ (push_last ops fab (head ++ k ∷ [])) (Op.push false (cell av))
  unfolding push_last
  push_last-MeansOp head k av h =
      let (o, e, d) = push_as_cell-MeansOp ops fab laws fab_laws ρ k av h in
      (o, rw (last-append k head) e, d)

  -- `field = value` and every whole-field replace: into the container, the key, what is written, and
  -- back; the steps into and out of the container are there only below the top level.
  replace-Means :
      (head : List (LedgerKey F W)) (k : LedgerKey F W) (hs : List Key) (kv : AlignedValue)
      (r : Result String (ImpactOp F W)) (op : Op)
      → CarriesPath ops fab laws fab_laws ρ head hs
      → CarriesKey ops fab laws fab_laws ρ k (Key.value kv)
      → length head ≤ 15
      → MeansOp ops fab laws ρ r op
      → Means ops fab laws ρ
          (extend (idxp_container ops fab (head ++ k ∷ [])) (
            extend
              (vec (push_last ops fab (head ++ k ∷ []) ∷ r ∷ ins1 ops fab ∷ []))
              (insc_container ops fab (head ++ k ∷ []))))
          (enter hs
            ++ ((Op.push false (cell kv) ∷ op ∷ Op.ins false 1 ∷ []) ++ leave (length head)))
          []
  replace-Means head k hs kv r op h hk le hr =
      extend-Means ops fab laws ρ (idxp_container-Means head k hs h le) (
        extend-Means ops fab laws ρ
          (vec-Means ops fab laws ρ
            (vec_op (push_last-MeansOp head k kv hk) (vec_op hr (vec_op ins1-MeansOp vec_end))))
          (insc_container-Means head k le))

  -- On a path of at most 15 keys and a last key that is a value, cell_write_at does not panic, and
  -- the decoder reads its elements back as the steps along the path (none where it is empty), the
  -- push of the last key, the stored push of the value, the insertion of it, and the insertions
  -- back along the path.
  pub cell_write_at-Means :
      (head : List (LedgerKey F W)) (k : LedgerKey F W) (v : LedgerValue F W) (hs : List Key)
      (kv av : AlignedValue)
      → CarriesPath ops fab laws fab_laws ρ head hs
      → CarriesKey ops fab laws fab_laws ρ k (Key.value kv)
      → Carries ops fab laws fab_laws ρ v av
      → length head ≤ 15
      → Means ops fab laws ρ
          (cell_write_at ops fab (head ++ k ∷ []) v)
          (enter hs
            ++ ((Op.push false (cell kv) ∷ Op.push true (cell av) ∷ Op.ins false 1 ∷ [])
                ++ leave (length head)))
          []
  unfolding cell_write_at
  cell_write_at-Means head k v hs kv av h hk hv le =
      replace-Means head k hs kv _ (Op.push true (cell av)) h hk le
        (push_cell-MeansOp ops fab laws fab_laws ρ true v av hv)

  pub reset_to_at-Means :
      (head : List (LedgerKey F W)) (k : LedgerKey F W) (hs : List Key) (kv : AlignedValue)
      (initial : StateValue)
      → CarriesPath ops fab laws fab_laws ρ head hs
      → CarriesKey ops fab laws fab_laws ρ k (Key.value kv)
      → length head ≤ 15
      → MeansOp ops fab laws ρ (const_op ops fab (Op.push true initial)) (Op.push true initial)
      → Means ops fab laws ρ
          (reset_to_at ops fab (head ++ k ∷ []) initial)
          (enter hs
            ++ ((Op.push false (cell kv) ∷ Op.push true initial ∷ Op.ins false 1 ∷ [])
                ++ leave (length head)))
          []
  unfolding reset_to_at
  reset_to_at-Means head k hs kv initial h hk le hi =
      replace-Means head k hs kv _ (Op.push true initial) h hk le hi

  -- The six operations that a coin's stored form is made with.
  abbrev pub qualify_ops : ℕ → AlignedValue → AlignedValue → List Op
  qualify_ops n cm coin =
      Op.dup n
      ∷ Op.push false (cell cm)
      ∷ Op.idx true false (Key.value (fab_laws.byte_value 1) ∷ Key.stack ∷ [])
      ∷ Op.push false (cell coin)
      ∷ Op.swap 0
      ∷ Op.concat true 91
      ∷ []

  pub qualify_coin-Means :
      (n : ℕ) (cm coin : LedgerValue F W) (cm_v coin_v : AlignedValue)
      → n ≤ 15
      → Carries ops fab laws fab_laws ρ cm cm_v
      → Carries ops fab laws fab_laws ρ coin coin_v
      → Means ops fab laws ρ (qualify_coin ops fab n cm coin) (qualify_ops n cm_v coin_v) []
  unfolding qualify_coin aligned_field_key
  qualify_coin-Means n cm coin cm_v coin_v le hc hv = vec-Means ops fab laws ρ (
      vec_op (dup-MeansOp ops fab laws fab_laws ρ n (omega arith)) (
        vec_op (push_cell-MeansOp ops fab laws fab_laws ρ false cm cm_v hc) (
          vec_op context_step (
            vec_op (push_cell-MeansOp ops fab laws fab_laws ρ false coin coin_v hv) (
              vec_op (plain ops fab laws fab_laws ρ (PlainCode.swap (omega arith))) (
                vec_op (operand ops fab laws fab_laws ρ (OperandCode.concatc (omega arith)))
                  vec_end))))))
    where
      context_step :
          MeansOp ops fab laws ρ
            (and_then
              (aligned_field_key ops fab 1)
              (λ k. const_op ops fab (Op.idx true false (Key.value k ∷ Key.stack ∷ []))))
            (Op.idx true false (Key.value (fab_laws.byte_value 1) ∷ Key.stack ∷ []))
      context_step =
          let (o, e, d) = idx_byte_stack-MeansOp ops fab laws fab_laws ρ 1 (omega arith) in
          (o, rw (fab_laws.byte_value_new 1 (omega arith)) e, d)
