-- ===== src/Ledger/Meaning/Steps.antt =====
-- The meaning of the constant index steps and of the read results of
-- crates/minocrab-ledger/src/impact.rs and reads.rs.
use minocrab.Prelude.{
  ℕ, suc, ◌+◌, ◌≤◌, ◌<◌, ◌≡◌, refl, sym, ap, ◌∙◌, subst, Bool, true, false, List, [], ◌∷◌, ◌++◌,
  map, length, All, arith, ok,
}
use minocrab.Ir.Field.{FieldOps, FieldLaws}
use minocrab.Ledger.Fab.{bytes, AlignedValue, Key, Op, FabOps}
use minocrab.Ledger.Impact.{
  ImpactElem, LedgerValue, u8_of_bool, limbs, imm_u64, constant, atom_elem, alignment_header,
  aligned_field_key, idx_one, idx_key, idx_base, idx_key_cached,
}
use minocrab.Ledger.Laws.{FabLaws}
use minocrab.Executor.Decoder.{key, decode_one}
use minocrab.Executor.Decoder.RoundTrip.{Decodes}
use minocrab.Executor.Decoder.RoundTrip.Values.{
  SizedAtom, value_fields, key_stack-Decodes, key_value-Decodes,
}
use minocrab.Executor.Decoder.RoundTrip.Ops.{DecodesOp}
use minocrab.Executor.Decoder.RoundTrip.Paths.{PathDecodes, idx-DecodesOp, popeq-Decodes}
use minocrab.Ledger.Meaning.{value, MeansOp, MeansRead}
use minocrab.Ledger.Reads.{popeq}
use minocrab.Ledger.Meaning.Elements.{Carries, fields-header, byte-IsValue, constant-MeansOp}

add_zero : (n : ℕ) → n + 0 ≡ n
add_zero n = omega arith

module _ {F W : Type 0} (ops : FieldOps F) (fab : FabOps F) (laws : FieldLaws ops)
    (fab_laws : FabLaws ops laws fab) (ρ : W → F) where
  byte_key-Decodes :
      (i : ℕ)
      → i < 256
      → Decodes
          (key ops fab)
          (ops.from_u64 1 ∷ ops.from_u64 1 ∷ ops.from_u64 i ∷ [])
          (Key.value (fab_laws.byte_value i))
  unfolding atom_elem
  byte_key-Decodes i lt =
      key_value-Decodes ops fab laws fab_laws (bytes 1 ∷ []) (ops.from_u64 i ∷ []) _
        (byte-IsValue ops fab laws fab_laws ρ i lt)

  neg_key-Decodes : Decodes (key ops fab) (fab.neg (ops.from_u64 1) ∷ []) Key.stack
  neg_key-Decodes =
      key_stack-Decodes ops fab laws fab_laws (fab.neg (ops.from_u64 1)) ((laws.eq_iff _ _).1 refl)

  one_key-DecodesOp :
      (c p : Bool) (xs : List F) (k : Key)
      → Decodes (key ops fab) xs k
      → DecodesOp ops fab laws (ops.from_u64 (idx_base c p) ∷ xs) (Op.idx c p (k ∷ []))
  one_key-DecodesOp c p xs k h =
      subst (λ l. DecodesOp ops fab laws l (Op.idx c p (k ∷ []))) (one_path (idx_base c p) xs)
        (idx-DecodesOp ops fab laws c p 0 (omega arith) refl
          (PathDecodes.path_key xs [] k [] h PathDecodes.path_end))
    where
      append-nil : (xs : List F) → xs ++ [] ≡ xs
      append-nil [] = refl
      append-nil (x ∷ xs) = ap (λ l. x ∷ l) (append-nil xs)

      one_path : (n : ℕ) (xs : List F) → ops.from_u64 (n + 0) ∷ (xs ++ []) ≡ ops.from_u64 n ∷ xs
      one_path n xs =
          ap (λ k. ops.from_u64 k ∷ (xs ++ [])) (add_zero n)
          ∙ ap (λ l. ops.from_u64 n ∷ l) (append-nil xs)

  -- A step by one constant byte.
  pub idx_one-MeansOp :
      (c p : Bool) (i : ℕ)
      → i < 256
      → MeansOp ops fab laws ρ
          (idx_one ops fab c p i)
          (Op.idx c p (Key.value (fab_laws.byte_value i) ∷ []))
  unfolding idx_one aligned_field_key
  idx_one-MeansOp c p i lt =
      let (o, e, h) =
        constant-MeansOp ops fab laws fab_laws ρ
          (Op.idx c p (Key.value (fab_laws.byte_value i) ∷ [])) _ (fab_laws.repr_idx_byte c p i lt)
          (one_key-DecodesOp c p (ops.from_u64 1 ∷ ops.from_u64 1 ∷ ops.from_u64 i ∷ []) _
            (byte_key-Decodes i lt)) in
      (o, rw (fab_laws.byte_value_new i lt) e, h)

  -- A step by a constant byte, then by the top of the stack.
  pub idx_byte_stack-MeansOp :
      (i : ℕ)
      → i < 256
      → MeansOp ops fab laws ρ
          (ok (
            constant ops fab
              (Op.idx true false (Key.value (fab_laws.byte_value i) ∷ Key.stack ∷ []))))
          (Op.idx true false (Key.value (fab_laws.byte_value i) ∷ Key.stack ∷ []))
  unfolding idx_base
  idx_byte_stack-MeansOp i lt =
      constant-MeansOp ops fab laws fab_laws ρ _ _ (fab_laws.repr_idx_byte_stack i lt) (
        idx-DecodesOp ops fab laws true false 1 (omega arith) refl (
          PathDecodes.path_key (ops.from_u64 1 ∷ ops.from_u64 1 ∷ ops.from_u64 i ∷ []) _ _ _
            (byte_key-Decodes i lt)
            (PathDecodes.path_key (fab.neg (ops.from_u64 1) ∷ []) _ _ _ neg_key-Decodes
              PathDecodes.path_end)))

  pub idx_stack-MeansOp :
      MeansOp ops fab laws ρ
        (ok (constant ops fab (Op.idx true false (Key.stack ∷ []))))
        (Op.idx true false (Key.stack ∷ []))
  unfolding idx_base
  idx_stack-MeansOp =
      constant-MeansOp ops fab laws fab_laws ρ _ _ fab_laws.repr_idx_stack
        (one_key-DecodesOp true false (fab.neg (ops.from_u64 1) ∷ []) _ neg_key-Decodes)

  value_key-DecodesOp :
      (c : Bool) (v : LedgerValue F W) (av : AlignedValue)
      → Carries ops fab laws fab_laws ρ v av
      → DecodesOp ops fab laws
          (ops.from_u64 (idx_base c false)
            ∷ map (value ρ) (alignment_header ops fab v.atoms ++ v.elems))
          (Op.idx c false (Key.value av ∷ []))
  value_key-DecodesOp c v av h =
      subst
        (λ l.
          DecodesOp ops fab laws (ops.from_u64 (idx_base c false) ∷ l)
            (Op.idx c false (Key.value av ∷ [])))
        (sym (fields-header ops fab laws fab_laws ρ v.atoms v.elems))
        (one_key-DecodesOp c false (value_fields ops fab v.atoms (map (value ρ) v.elems))
          (Key.value av) (key_value-Decodes ops fab laws fab_laws _ _ _ h))

  -- A step by a value, uncached and cached.
  pub idx_key-MeansOp :
      (v : LedgerValue F W) (av : AlignedValue)
      → Carries ops fab laws fab_laws ρ v av
      → MeansOp ops fab laws ρ (ok (idx_key ops fab v)) (Op.idx false false (Key.value av ∷ []))
  unfolding idx_key imm_u64 idx_base
  idx_key-MeansOp v av h = (idx_key ops fab v, refl, value_key-DecodesOp false v av h)

  pub idx_key_cached-MeansOp :
      (v : LedgerValue F W) (av : AlignedValue)
      → Carries ops fab laws fab_laws ρ v av
      → MeansOp ops fab laws ρ
          (ok (idx_key_cached ops fab v))
          (Op.idx true false (Key.value av ∷ []))
  unfolding idx_key_cached imm_u64 idx_base
  idx_key_cached-MeansOp v av h = (idx_key_cached ops fab v, refl, value_key-DecodesOp true v av h)

  -- The result of a read, whatever its limbs are.
  pub popeq-MeansRead :
      (cached : Bool) (v : LedgerValue F W)
      → length v.atoms ≤ 1048576
      → All SizedAtom v.atoms
      → length v.elems ≡ limbs v.atoms
      → MeansRead ops fab laws ρ (ok (popeq ops fab cached v)) (Op.popeq cached) v.atoms
  unfolding popeq imm_u64
  popeq-MeansRead cached v few sized filled = (
    popeq ops fab cached v,
    refl,
    λ als.
        subst
          (λ l.
            Decodes (decode_one ops fab als) (ops.from_u64 (12 + u8_of_bool cached) ∷ l)
              (Op.popeq cached, als ++ v.atoms ∷ []))
          (sym (fields-header ops fab laws fab_laws ρ v.atoms v.elems))
          (popeq-Decodes ops fab laws fab_laws als cached v.atoms _ few sized
            (length-map v.elems ∙ filled)),
  )
    where
      length-map : (xs : List (ImpactElem F W)) → length (map (value ρ) xs) ≡ length xs
      length-map [] = refl
      length-map (x ∷ xs) = ap suc (length-map xs)
