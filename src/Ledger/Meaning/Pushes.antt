-- ===== src/Ledger/Meaning/Pushes.antt =====
-- The meaning of the pushes, the fixed index steps and the read results of
-- crates/minocrab-ledger/src/impact.rs and reads.rs.
use minocrab.Prelude.{
  ℕ, suc, ◌+◌, ◌*◌, ◌^◌, ◌≤◌, ◌<◌, ◌≡◌, refl, sym, ap, ◌∙◌, subst, Bool, false, List, [], ◌∷◌, ◌++◌,
  map, length, arith, ok,
}
use minocrab.Ir.Field.{FieldOps, FieldLaws}
use minocrab.Ledger.Fab.{
  AlignedValue, Key, StateValue, null, cell, array, Elements, nil, cons, Op, FabOps,
}
use minocrab.Ledger.Impact.{
  LedgerValue, LedgerElem, LedgerKey, field_key, value_key, stack_key, u8_of_bool, limbs,
  atom_limbs, ledger_value, ledger_bytes, imm_u64, constant, alignment_header, push_cell, elem_repr,
  elem_reprs, push_array, field_index_value, push_as_cell,
}
use minocrab.Ledger.Laws.{FabLaws}
use minocrab.Executor.Decoder.{aligned_value}
use minocrab.Executor.Decoder.RoundTrip.{Decodes}
use minocrab.Executor.Decoder.RoundTrip.Values.{aligned_value-Decodes}
use minocrab.Executor.Decoder.RoundTrip.Ops.{DecodesOp}
use minocrab.Executor.Decoder.RoundTrip.Pushes.{
  StateDecodes, null-StateDecodes, cell-StateDecodes, ArrayDecodes, array-StateDecodes,
  push-DecodesOp,
}
use minocrab.Ledger.Meaning.{value, fields, map-append, MeansOp}
use minocrab.Ledger.Meaning.Elements.{
  Carries, CarriesKey, fields-header, byte-IsValue, constant-MeansOp,
}

value_injective : (a b : AlignedValue) → Key.value a ≡ Key.value b → a ≡ b
value_injective a b e = cc

module _ {F W : Type 0} (ops : FieldOps F) (fab : FabOps F) (laws : FieldLaws ops)
    (fab_laws : FabLaws ops laws fab) (ρ : W → F) where
  cell-Decodes :
      (v : LedgerValue F W) (av : AlignedValue)
      → Carries ops fab laws fab_laws ρ v av
      → StateDecodes ops fab laws 1
          (ops.from_u64 1 ∷ map (value ρ) (alignment_header ops fab v.atoms ++ v.elems))
          (cell av)
  cell-Decodes v av h = cell-StateDecodes ops fab laws _ av (
      subst (λ l. Decodes (aligned_value ops fab) l av)
        (sym (fields-header ops fab laws fab_laws ρ v.atoms v.elems))
        (aligned_value-Decodes ops fab laws fab_laws _ _ _ h))

  -- The push of a value.
  pub push_cell-MeansOp :
      (storage : Bool) (v : LedgerValue F W) (av : AlignedValue)
      → Carries ops fab laws fab_laws ρ v av
      → MeansOp ops fab laws ρ (ok (push_cell ops fab storage v)) (Op.push storage (cell av))
  unfolding push_cell imm_u64
  push_cell-MeansOp storage v av h = (
    push_cell ops fab storage v,
    refl,
    push-DecodesOp ops fab laws storage 1 (ops.from_u64 1) _ (cell av) (omega arith)
        (cell-Decodes v av h),
  )

  pub byte-Carries :
      (i : ℕ)
      → i < 256
      → (v : LedgerValue F W) × (field_index_value ops fab i ≡ ok v)
        × Carries ops fab laws fab_laws ρ v (fab_laws.byte_value i)
  unfolding field_index_value ledger_bytes ledger_value imm_u64 limbs atom_limbs
  byte-Carries i lt = (_, refl, byte-IsValue ops fab laws fab_laws ρ i lt)

  -- The elements of a pushed array.
  abbrev pub CarriesElems : List (LedgerElem F W) → Elements → Type 0
  CarriesElems [] nil = Unit
  CarriesElems (LedgerElem.null ∷ es) (cons v vs) = (v ≡ null) × CarriesElems es vs
  CarriesElems (LedgerElem.cell w ∷ es) (cons v vs) =
      (av : AlignedValue) × Carries ops fab laws fab_laws ρ w av
      × (v ≡ cell av)
      × CarriesElems es vs
  CarriesElems _ _ = ⊥

  elems-ArrayDecodes :
      (es : List (LedgerElem F W)) (vs : Elements)
      → CarriesElems es vs
      → ArrayDecodes ops fab laws (length es) (map (value ρ) (elem_reprs ops fab es)) vs
  unfolding elem_reprs elem_repr imm_u64
  elems-ArrayDecodes [] nil h = ArrayDecodes.array_end
  elems-ArrayDecodes [] (cons v vs) h = absurd h
  elems-ArrayDecodes (LedgerElem.null ∷ es) nil h = absurd h
  elems-ArrayDecodes (LedgerElem.cell w ∷ es) nil h = absurd h
  elems-ArrayDecodes (LedgerElem.null ∷ es) (cons v vs) (e, h) =
      subst
        (λ s.
          ArrayDecodes ops fab laws (suc (length es))
            (ops.from_u64 0 ∷ map (value ρ) (elem_reprs ops fab es)) (cons s vs))
        (sym e)
        (ArrayDecodes.array_elem (length es) (ops.from_u64 0 ∷ []) _ null vs
          (null-StateDecodes ops fab laws) (elems-ArrayDecodes es vs h))
  elems-ArrayDecodes (LedgerElem.cell w ∷ es) (cons v vs) (av, hw, e, h) =
      let cell_fields =
        ops.from_u64 1 ∷ map (value ρ) (alignment_header ops fab w.atoms ++ w.elems) in
      subst
        (λ s.
          ArrayDecodes ops fab laws (suc (length es))
            (map (value ρ) (elem_reprs ops fab (LedgerElem.cell w ∷ es))) (cons s vs))
        (sym e)
        (subst (λ l. ArrayDecodes ops fab laws (suc (length es)) l (cons (cell av) vs))
          (sym
            (map-append (value ρ) (elem_repr ops fab (LedgerElem.cell w)) (elem_reprs ops fab es)))
          (ArrayDecodes.array_elem (length es) cell_fields _ (cell av) vs (cell-Decodes w av hw)
            (elems-ArrayDecodes es vs h)))

  -- The decoder reads the elements of push_array back as the push of the array of what its
  -- elements carry, where their number is below 2 ^ 36.
  pub push_array-MeansOp :
      (storage : Bool) (es : List (LedgerElem F W)) (vs : Elements)
      → CarriesElems es vs
      → length es < 2 ^ 36
      → MeansOp ops fab laws ρ (ok (push_array ops fab storage es)) (Op.push storage (array vs))
  unfolding push_array imm_u64
  push_array-MeansOp storage es vs h lt = (
    push_array ops fab storage es,
    refl,
    push-DecodesOp ops fab laws storage 2 (ops.from_u64 (3 + 16 * length es)) _ (array vs)
        (omega arith)
        (array-StateDecodes ops fab laws (length es) _ vs lt (elems-ArrayDecodes es vs h)),
  )

  -- The push of a constant state.
  pub push_constant-MeansOp :
      (storage : Bool) (depth : ℕ) (x : F) (xs : List F) (v : StateValue)
      → fab.state_repr v ≡ x ∷ xs
      → depth ≤ 2
      → StateDecodes ops fab laws depth (x ∷ xs) v
      → MeansOp ops fab laws ρ (ok (constant ops fab (Op.push storage v))) (Op.push storage v)
  push_constant-MeansOp storage depth x xs v e le h =
      constant-MeansOp ops fab laws fab_laws ρ (Op.push storage v)
        (ops.from_u64 (16 + u8_of_bool storage) ∷ x ∷ xs)
        (fab_laws.repr_push storage v ∙ ap (λ l. ops.from_u64 (16 + u8_of_bool storage) ∷ l) e)
        (push-DecodesOp ops fab laws storage depth x xs v le h)

  pub push_as_cell-MeansOp :
      (k : LedgerKey F W) (av : AlignedValue)
      → CarriesKey ops fab laws fab_laws ρ k (Key.value av)
      → MeansOp ops fab laws ρ (push_as_cell ops fab k) (Op.push false (cell av))
  unfolding push_as_cell
  push_as_cell-MeansOp (field_key i) av (lt, e) =
      let (v, made, h) = byte-Carries i lt in
      let (o, e', d) = push_cell-MeansOp false v (fab_laws.byte_value i) h in
      (
        o,
        rw made e',
        subst (λ a. DecodesOp ops fab laws (fields ρ o) (Op.push false (cell a)))
            (value_injective (fab_laws.byte_value i) av (sym e)) d,
      )
  push_as_cell-MeansOp (value_key v) av (a, h, e) =
      push_cell-MeansOp false v av
        (subst (λ x. Carries ops fab laws fab_laws ρ v x) (value_injective a av (sym e)) h)
  push_as_cell-MeansOp stack_key av e = absurd cc
