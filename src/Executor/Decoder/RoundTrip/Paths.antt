-- ===== src/Executor/Decoder/RoundTrip/Paths.antt =====
-- The decoder reads back paths and read results.
use minocrab.Prelude.{
  ℕ, suc, ◌+◌, ◌/◌, ◌%◌, ◌≤◌, ◌<◌, ◌≡◌, refl, sym, ◌∙◌, subst, Bool, true, false, List, [], ◌∷◌,
  ◌++◌, map, length, arith, ◌==◌, ◌||◌, All,
}
use minocrab.Ir.Field.{FieldOps, FieldLaws}
use minocrab.Ledger.Fab.{Alignment, Key, Op, FabOps}
use minocrab.Ledger.Impact.{u8_of_bool, idx_base, limbs, atom_elem}
use minocrab.Ledger.Laws.{FabLaws}
use minocrab.Executor.Decoder.Reader.{give, ◌>>=◌, key, keys, skip, alignment}
use minocrab.Executor.Decoder.Program.{popeq_op, idx_op, by_opcode, decode_one}
use minocrab.Executor.Decoder.RoundTrip.{Decodes, Decodes-bind, Decodes-map}
use minocrab.Executor.Decoder.RoundTrip.Values.{
  SizedAtom, value_fields, alignment-Decodes, skip-Decodes,
}
use minocrab.Executor.Decoder.RoundTrip.Ops.{DecodesOp, opcode-Decodes, by_opcode-idx}

-- The elements of a path, one key after the other.
pub data PathDecodes {F : Type 0} (ops : FieldOps F) (fab : FabOps F)
    : List F → List Key → Type 0 where
  path_end : PathDecodes ops fab [] []
  path_key :
      (xs ys : List F) (k : Key) (ks : List Key)
      → Decodes (key ops fab) xs k
      → PathDecodes ops fab ys ks
      → PathDecodes ops fab (xs ++ ys) (k ∷ ks)

module _ {F : Type 0} (ops : FieldOps F) (fab : FabOps F) (laws : FieldLaws ops) where
  keys-Decodes :
      {xs : List F} {ks : List Key}
      → PathDecodes ops fab xs ks
      → Decodes (keys ops fab (length ks)) xs ks
  unfolding keys
  keys-Decodes PathDecodes.path_end rest at = (at, refl)
  keys-Decodes (PathDecodes.path_key xs ys k ks h hs) rest at =
      Decodes-bind (key ops fab) (λ k'. keys ops fab (length ks) >>= λ path. give (k' ∷ path)) xs ys
        h (Decodes-map (keys ops fab (length ks)) (λ path. k ∷ path) ys (keys-Decodes hs)) rest at

  abbrev idx_of : (high : ℕ) → List Key → Op
  idx_of high ks = Op.idx (high == 6 || high == 8) (high == 7 || high == 8) ks

  idx_op-Decodes :
      (als : List Alignment) (code high n : ℕ) (xs : List F) (ks : List Key)
      → code % 16 + 1 ≡ suc n
      → code / 16 ≡ high
      → Decodes (keys ops fab (suc n)) xs ks
      → Decodes (idx_op ops fab als code) xs (idx_of high ks, als)
  unfolding idx_op
  idx_op-Decodes als code high n xs ks low div h =
      subst (λ q. Decodes (idx_op ops fab als code) xs (idx_of q ks, als)) div
        (Decodes-map (keys ops fab (code % 16 + 1)) (λ path. (idx_of (code / 16) path, als)) xs
          (subst (λ k. Decodes (keys ops fab k) xs ks) (sym low) h))

  based_idx_op-Decodes :
      (als : List Alignment) (c p : Bool) (n : ℕ) (xs : List F) (ks : List Key)
      → n < 16
      → Decodes (keys ops fab (suc n)) xs ks
      → Decodes (idx_op ops fab als (idx_base c p + n)) xs (Op.idx c p ks, als)
  unfolding idx_base
  based_idx_op-Decodes als false false n xs ks lt h =
      idx_op-Decodes als (0x50 + n) 5 n xs ks (omega arith) (omega arith) h
  based_idx_op-Decodes als true false n xs ks lt h =
      idx_op-Decodes als (0x60 + n) 6 n xs ks (omega arith) (omega arith) h
  based_idx_op-Decodes als false true n xs ks lt h =
      idx_op-Decodes als (0x70 + n) 7 n xs ks (omega arith) (omega arith) h
  based_idx_op-Decodes als true true n xs ks lt h =
      idx_op-Decodes als (0x80 + n) 8 n xs ks (omega arith) (omega arith) h

  idx_base-range : (c p : Bool) → (0x50 ≤ idx_base c p) × (idx_base c p ≤ 0x80)
  unfolding idx_base
  idx_base-range false false = (omega arith, omega arith)
  idx_base-range true false = (omega arith, omega arith)
  idx_base-range false true = (omega arith, omega arith)
  idx_base-range true true = (omega arith, omega arith)

  -- An `idx` over a path of up to 16 keys is read back.
  pub idx-DecodesOp :
      (c p : Bool) (n : ℕ) {xs : List F} {ks : List Key}
      → n < 16
      → length ks ≡ suc n
      → PathDecodes ops fab xs ks
      → DecodesOp ops fab laws (ops.from_u64 (idx_base c p + n) ∷ xs) (Op.idx c p ks)
  idx-DecodesOp c p n {xs} {ks} lt len h als =
      let (low, high) = idx_base-range c p in
      opcode-Decodes ops fab laws als (idx_base c p + n) xs (Op.idx c p ks, als) (omega arith)
        λ at.
          subst (λ m. Decodes m xs (Op.idx c p ks, als))
            (sym (by_opcode-idx ops fab laws als (idx_base c p + n) (omega arith) (omega arith) at))
            (based_idx_op-Decodes als c p n xs ks lt
              (subst (λ k. Decodes (keys ops fab k) xs ks) len (keys-Decodes h)))

  -- A read is decoded with its alignment, whatever its limbs are.
  pub popeq-Decodes :
      (fab_laws : FabLaws ops laws fab) (als : List Alignment) (cached : Bool) (al : Alignment)
      (ls : List F)
      → length al ≤ 1048576
      → All SizedAtom al
      → length ls ≡ limbs al
      → Decodes
          (decode_one ops fab als)
          (ops.from_u64 (0x0c + u8_of_bool cached) ∷ value_fields ops fab al ls)
          (Op.popeq cached, als ++ al ∷ [])
  unfolding popeq_op by_opcode u8_of_bool
  popeq-Decodes fab_laws als cached al ls few sized len =
      opcode-Decodes ops fab laws als (0x0c + u8_of_bool cached) (value_fields ops fab al ls) _
        (code_small cached)
        λ at.
          subst (λ m. Decodes m (value_fields ops fab al ls) (Op.popeq cached, als ++ al ∷ []))
            (arm cached at) read
    where
      code_small : (b : Bool) → 0x0c + u8_of_bool b < 256
      code_small false = omega arith
      code_small true = omega arith

      arm :
          (b : Bool) (at : ℕ)
          → popeq_op ops fab als b ≡ by_opcode ops fab als at (0x0c + u8_of_bool b)
      arm false at = refl
      arm true at = refl

      read :
          Decodes
            (popeq_op ops fab als cached)
            (value_fields ops fab al ls)
            (Op.popeq cached, als ++ al ∷ [])
      read =
          Decodes-bind (alignment ops fab)
            (λ al'. skip (fab.field_len al') >>= λ _. give (Op.popeq cached, als ++ al' ∷ []))
            (ops.from_u64 (length al) ∷ map (atom_elem ops fab) al) ls
            (alignment-Decodes ops fab laws fab_laws al few sized)
            (Decodes-map (skip (fab.field_len al)) (λ _. (Op.popeq cached, als ++ al ∷ [])) ls
              (skip-Decodes ops fab laws fab_laws (fab.field_len al) ls
                (len ∙ sym (fab_laws.field_len_limbs al))))
