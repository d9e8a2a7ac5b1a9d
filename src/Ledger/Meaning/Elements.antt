-- ===== src/Ledger/Meaning/Elements.antt =====
-- The meaning of the encoders of crates/minocrab-ledger/src/impact.rs.
use minocrab.Prelude.{
  ℕ, suc, ◌+◌, ◌-◌, ◌≤◌, ◌<◌, ◌≡◌, refl, sym, ap, ◌∙◌, subst, Bool, List, [], ◌∷◌, ◌++◌, map,
  length, arith, le→leb, ok,
}
use minocrab.Ir.Field.{FieldOps, FieldLaws}
use minocrab.Ledger.Fab.{bytes, Alignment, AlignedValue, Key, Op, FabOps}
use minocrab.Ledger.Impact.{
  ImpactElem, imm, LedgerValue, LedgerKey, field_key, value_key, stack_key, limbs, atom_limbs,
  imm_u64, constant, atom_elem, alignment_header, dup, push_elems, push_path_elems, idx_base,
  idx_path, swap,
}
use minocrab.Ledger.Laws.{FabLaws, PlainCode, OperandCode}
use minocrab.Executor.Decoder.{key}
use minocrab.Executor.Decoder.RoundTrip.{Decodes}
use minocrab.Executor.Decoder.RoundTrip.Values.{
  IsValue, value_fields, key_stack-Decodes, key_value-Decodes, minus-neg,
}
use minocrab.Executor.Decoder.RoundTrip.Ops.{DecodesOp, plain-DecodesOp, operand-DecodesOp}
use minocrab.Executor.Decoder.RoundTrip.Paths.{PathDecodes, idx-DecodesOp}
use minocrab.Ledger.Meaning.{value, fields-imm, map-append, MeansOp}

module _ {F W : Type 0} (ops : FieldOps F) (fab : FabOps F) (laws : FieldLaws ops)
    (fab_laws : FabLaws ops laws fab) (ρ : W → F) where
  -- A ledger value whose limbs have the values of an aligned value's.
  abbrev pub Carries : LedgerValue F W → AlignedValue → Type 0
  Carries v av = IsValue ops fab v.atoms (map (value ρ) v.elems) av

  -- The keys that a ledger path stands for.
  abbrev pub CarriesKey : LedgerKey F W → Key → Type 0
  CarriesKey (field_key i) k = (i < 256) × (k ≡ Key.value (fab_laws.byte_value i))
  CarriesKey (value_key v) k = (av : AlignedValue) × Carries v av × (k ≡ Key.value av)
  CarriesKey stack_key k = k ≡ Key.stack

  abbrev pub CarriesPath : List (LedgerKey F W) → List Key → Type 0
  CarriesPath [] [] = Unit
  CarriesPath (k ∷ path) (k' ∷ keys) = CarriesKey k k' × CarriesPath path keys
  CarriesPath _ _ = ⊥

  pub fields-header :
      (al : Alignment) (elems : List (ImpactElem F W))
      → map (value ρ) (alignment_header ops fab al ++ elems)
        ≡ value_fields ops fab al (map (value ρ) elems)
  unfolding alignment_header imm_u64
  fields-header al elems =
      ap (λ l. ops.from_u64 (length al) ∷ l)
        (map-append (value ρ) (map (λ a. imm (atom_elem ops fab a)) al) elems
          ∙ ap (λ l. l ++ map (value ρ) elems) (atoms al))
    where
      atoms :
          (al : Alignment)
          → map (value ρ) (map (λ a. imm (atom_elem ops fab a)) al) ≡ map (atom_elem ops fab) al
      atoms [] = refl
      atoms (a ∷ al) = ap (λ l. atom_elem ops fab a ∷ l) (atoms al)

  pub byte-IsValue :
      (i : ℕ)
      → i < 256
      → IsValue ops fab (bytes 1 ∷ []) (ops.from_u64 i ∷ []) (fab_laws.byte_value i)
  unfolding limbs atom_limbs
  byte-IsValue i lt = record {
    few = omega arith;
    sized = (omega arith, tt);
    filled = refl;
    reads = fab_laws.byte_value_parse i lt;
  }

  -- An operation that upstream encodes is read back.
  pub constant-MeansOp :
      (op : Op) (xs : List F)
      → fab.op_repr op ≡ xs
      → DecodesOp ops fab laws xs op
      → MeansOp ops fab laws ρ (ok (constant ops fab op)) op
  unfolding constant
  constant-MeansOp op xs e h = (
    map imm (fab.op_repr op),
    refl,
    subst (λ l. DecodesOp ops fab laws l op) (sym (fields-imm ρ (fab.op_repr op) ∙ e)) h,
  )

  pub plain :
      {op : Op} {code : ℕ}
      → PlainCode op code
      → MeansOp ops fab laws ρ (ok (constant ops fab op)) op
  plain {op} {code} h =
      constant-MeansOp op (ops.from_u64 code ∷ []) (fab_laws.repr_plain op code h)
        (plain-DecodesOp ops fab laws h)

  pub operand :
      {op : Op} {code n : ℕ}
      → OperandCode op code n
      → MeansOp ops fab laws ρ (ok (constant ops fab op)) op
  operand {op} {code} {n} h =
      constant-MeansOp op (ops.from_u64 code ∷ ops.from_u64 n ∷ [])
        (fab_laws.repr_operand op code n h) (operand-DecodesOp ops fab laws h)

  pub dup-MeansOp : (n : ℕ) → n < 16 → MeansOp ops fab laws ρ (dup ops fab n) (Op.dup n)
  unfolding dup
  dup-MeansOp n lt =
      let (o, e, h) = plain (PlainCode.dup lt) in (o, rw (le→leb n 15 (omega arith)) e, h)

  pub swap-MeansOp : (n : ℕ) → n < 16 → MeansOp ops fab laws ρ (ok (swap ops fab n)) (Op.swap n)
  unfolding swap
  swap-MeansOp n lt = plain (PlainCode.swap lt)

  key-Decodes :
      (k : LedgerKey F W) (k' : Key)
      → CarriesKey k k'
      → Decodes (key ops fab) (map (value ρ) (push_elems ops fab k)) k'
  unfolding push_elems imm_u64
  key-Decodes (field_key i) k' (lt, e) =
      subst (λ r. Decodes (key ops fab) (map (value ρ) (push_elems ops fab (field_key i))) r)
        (sym e)
        (subst (λ l. Decodes (key ops fab) l (Key.value (fab_laws.byte_value i)))
          (sym (fields-header (bytes 1 ∷ []) (imm (ops.from_u64 i) ∷ [])))
          (key_value-Decodes ops fab laws fab_laws _ _ _ (byte-IsValue i lt)))
  key-Decodes (value_key v) k' (av, h, e) =
      subst (λ r. Decodes (key ops fab) (map (value ρ) (push_elems ops fab (value_key v))) r)
        (sym e)
        (subst (λ l. Decodes (key ops fab) l (Key.value av)) (sym (fields-header v.atoms v.elems))
          (key_value-Decodes ops fab laws fab_laws _ _ _ h))
  key-Decodes stack_key k' e =
      subst (λ r. Decodes (key ops fab) (fab.minus (ops.from_u64 0) (ops.from_u64 1) ∷ []) r)
        (sym e)
        (key_stack-Decodes ops fab laws fab_laws _
          (minus-neg ops fab laws fab_laws 1 (omega arith) (omega arith)))

  path-PathDecodes :
      (path : List (LedgerKey F W)) (ks : List Key)
      → CarriesPath path ks
      → PathDecodes ops fab (map (value ρ) (push_path_elems ops fab path)) ks
  unfolding push_path_elems
  path-PathDecodes [] [] h = PathDecodes.path_end
  path-PathDecodes [] (k ∷ ks) h = absurd h
  path-PathDecodes (k ∷ path) [] h = absurd h
  path-PathDecodes (k ∷ path) (k' ∷ ks) h =
      subst (λ l. PathDecodes ops fab l (k' ∷ ks))
        (sym (map-append (value ρ) (push_elems ops fab k) (push_path_elems ops fab path)))
        (PathDecodes.path_key _ _ _ _ (key-Decodes k k' h.0) (path-PathDecodes path ks h.1))

  length-CarriesPath :
      (path : List (LedgerKey F W)) (ks : List Key) → CarriesPath path ks → length ks ≡ length path
  length-CarriesPath [] [] h = refl
  length-CarriesPath [] (k ∷ ks) h = absurd h
  length-CarriesPath (k ∷ path) [] h = absurd h
  length-CarriesPath (k ∷ path) (k' ∷ ks) h = ap suc (length-CarriesPath path ks h.1)

  -- On a path of 1 to 16 keys idx_path does not panic, and the decoder reads its elements back as
  -- the idx operation with the keys' values, cached and pushing as asked.
  pub idx_path-MeansOp :
      (c p : Bool) (path : List (LedgerKey F W)) (ks : List Key)
      → CarriesPath path ks
      → 0 < length path
      → length path ≤ 16
      → MeansOp ops fab laws ρ (idx_path ops fab c p path) (Op.idx c p ks)
  unfolding idx_path imm_u64
  idx_path-MeansOp c p path ks h pos le = (
    imm_u64 ops fab (idx_base c p + (length path - 1)) ∷ push_path_elems ops fab path,
    rw (le→leb 1 (length path) (omega arith), le→leb (length path) 16 le),
    idx-DecodesOp ops fab laws c p (length path - 1) (omega arith)
        (length-CarriesPath path ks h ∙ pred_suc (length path) pos) (path-PathDecodes path ks h),
  )
    where
      pred_suc : (n : ℕ) → 0 < n → n ≡ suc (n - 1)
      pred_suc n lt = omega arith
