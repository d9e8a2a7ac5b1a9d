-- ===== src/Executor/Decoder/RoundTrip/Ops.antt =====
-- The decoder reads back operations: their opcodes, operands, paths and constant states.
use minocrab.Prelude.{
  ℕ, ◌+◌, ◌^◌, ◌≤◌, ◌<◌, ◌≡◌, refl, sym, ap, subst, true, false, List, [], ◌∷◌, arith,
}
use minocrab.Ir.Field.{FieldOps, FieldLaws}
use minocrab.Ledger.Fab.{Alignment, Op, FabOps}
use minocrab.Ledger.Laws.{PlainCode, OperandCode}
use minocrab.Executor.Decoder.Reader.{int, byte, u32}
use minocrab.Executor.Decoder.Program.{
  Decoding, within, plain, with_u32, idx_op, by_range, by_opcode, decode_one,
}
use minocrab.Executor.Decoder.RoundTrip.{Decodes, Decodes-bind, Decodes-map, int-Decodes}

module _ {F : Type 0} (ops : FieldOps F) (fab : FabOps F) (laws : FieldLaws ops) where
  -- One operation, whatever alignments are declared before it.
  abbrev pub DecodesOp : List F → Op → Type 0
  DecodesOp xs op = (als : List Alignment) → Decodes (decode_one ops fab als) xs (op, als)

  -- The opcode, then what its arm reads.
  pub opcode-Decodes :
      (als : List Alignment) (code : ℕ) (xs : List F) (r : Decoding)
      → code < 256
      → ((at : ℕ) → Decodes (by_opcode ops fab als at code) xs r)
      → Decodes (decode_one ops fab als) (ops.from_u64 code ∷ xs) r
  unfolding decode_one byte
  opcode-Decodes als code xs r lt h rest at =
      Decodes-bind (int ops fab 0xff "an opcode") (by_opcode ops fab als at)
        (ops.from_u64 code ∷ []) xs
        (int-Decodes ops laws fab 255 code "an opcode" (omega arith) (omega arith)) (h at) rest at

  plain-Decodes :
      (als : List Alignment) (code : ℕ) (op : Op)
      → code < 256
      → ((at : ℕ) → by_opcode ops fab als at code ≡ plain ops fab als op)
      → Decodes (decode_one ops fab als) (ops.from_u64 code ∷ []) (op, als)
  unfolding plain
  plain-Decodes als code op lt e =
      opcode-Decodes als code [] (op, als) lt
        λ at rest at'. (at', ap (λ m. m (record { rest = rest; at = at' })) (e at))

  module _ (als : List Alignment) where
    by_opcode-dup :
        (n : ℕ)
        → n < 16
        → (at : ℕ) → by_opcode ops fab als at (0x30 + n) ≡ plain ops fab als (Op.dup n)
    unfolding by_opcode by_range within
    by_opcode-dup n lt at = ground arith

    by_opcode-swap :
        (n : ℕ)
        → n < 16
        → (at : ℕ) → by_opcode ops fab als at (0x40 + n) ≡ plain ops fab als (Op.swap n)
    unfolding by_opcode by_range within
    by_opcode-swap n lt at = ground arith

    by_opcode-ins :
        (n : ℕ)
        → n < 16
        → (at : ℕ) → by_opcode ops fab als at (0x90 + n) ≡ plain ops fab als (Op.ins false n)
    unfolding by_opcode by_range within
    by_opcode-ins n lt at = ground arith

    by_opcode-insc :
        (n : ℕ)
        → n < 16
        → (at : ℕ) → by_opcode ops fab als at (0xa0 + n) ≡ plain ops fab als (Op.ins true n)
    unfolding by_opcode by_range within
    by_opcode-insc n lt at = ground arith

    pub by_opcode-idx :
        (code : ℕ)
        → 0x50 ≤ code
        → code < 0x90
        → (at : ℕ) → by_opcode ops fab als at code ≡ idx_op ops fab als code
    unfolding by_opcode by_range within
    by_opcode-idx code le lt at = ground arith

  -- An operation of one element is read back.
  pub plain-DecodesOp :
      {op : Op} {code : ℕ} → PlainCode op code → DecodesOp (ops.from_u64 code ∷ []) op
  unfolding by_opcode
  plain-DecodesOp PlainCode.lt als = plain-Decodes als 0x01 Op.lt (omega arith) λ at. refl
  plain-DecodesOp PlainCode.eq als = plain-Decodes als 0x02 Op.eq (omega arith) λ at. refl
  plain-DecodesOp PlainCode.type_of als = plain-Decodes als 0x03 Op.type_of (omega arith) λ at. refl
  plain-DecodesOp PlainCode.size als = plain-Decodes als 0x04 Op.size (omega arith) λ at. refl
  plain-DecodesOp PlainCode.and als = plain-Decodes als 0x06 Op.and (omega arith) λ at. refl
  plain-DecodesOp PlainCode.or als = plain-Decodes als 0x07 Op.or (omega arith) λ at. refl
  plain-DecodesOp PlainCode.neg als = plain-Decodes als 0x08 Op.neg (omega arith) λ at. refl
  plain-DecodesOp PlainCode.log als = plain-Decodes als 0x09 Op.log (omega arith) λ at. refl
  plain-DecodesOp PlainCode.root als = plain-Decodes als 0x0a Op.root (omega arith) λ at. refl
  plain-DecodesOp PlainCode.pop als = plain-Decodes als 0x0b Op.pop (omega arith) λ at. refl
  plain-DecodesOp PlainCode.add als = plain-Decodes als 0x14 Op.add (omega arith) λ at. refl
  plain-DecodesOp PlainCode.sub als = plain-Decodes als 0x15 Op.sub (omega arith) λ at. refl
  plain-DecodesOp PlainCode.member als = plain-Decodes als 0x18 Op.member (omega arith) λ at. refl
  plain-DecodesOp PlainCode.rem als = plain-Decodes als 0x19 (Op.rem false) (omega arith) λ at. refl
  plain-DecodesOp (PlainCode.dup {n} lt) als =
      plain-Decodes als (0x30 + n) (Op.dup n) (omega arith) (by_opcode-dup als n lt)
  plain-DecodesOp (PlainCode.swap {n} lt) als =
      plain-Decodes als (0x40 + n) (Op.swap n) (omega arith) (by_opcode-swap als n lt)
  plain-DecodesOp (PlainCode.ins {n} lt) als =
      plain-Decodes als (0x90 + n) (Op.ins false n) (omega arith) (by_opcode-ins als n lt)
  plain-DecodesOp (PlainCode.insc {n} lt) als =
      plain-Decodes als (0xa0 + n) (Op.ins true n) (omega arith) (by_opcode-insc als n lt)

  u32-DecodesOp :
      (als : List Alignment) (code n : ℕ) (op : ℕ → Op)
      → code < 256
      → n < 2 ^ 32
      → ((at : ℕ) → by_opcode ops fab als at code ≡ with_u32 ops fab als op)
      → Decodes (decode_one ops fab als) (ops.from_u64 code ∷ ops.from_u64 n ∷ []) (op n, als)
  unfolding with_u32 u32
  u32-DecodesOp als code n op lt small e =
      opcode-Decodes als code (ops.from_u64 n ∷ []) (op n, als) lt
        λ at.
          subst (λ m. Decodes m (ops.from_u64 n ∷ []) (op n, als)) (sym (e at))
            (Decodes-map (int ops fab 4294967295 "an operand") (λ k. (op k, als))
              (ops.from_u64 n ∷ [])
              (int-Decodes ops laws fab 4294967295 n "an operand" (omega arith) (omega arith)))

  -- An operation with a `u32` is read back.
  pub operand-DecodesOp :
      {op : Op} {code n : ℕ}
      → OperandCode op code n
      → DecodesOp (ops.from_u64 code ∷ ops.from_u64 n ∷ []) op
  unfolding by_opcode
  operand-DecodesOp (OperandCode.addi {n} lt) als =
      u32-DecodesOp als 0x0e n Op.addi (omega arith) lt λ at. refl
  operand-DecodesOp (OperandCode.branch {n} lt) als =
      u32-DecodesOp als 0x12 n Op.branch (omega arith) lt λ at. refl
  operand-DecodesOp (OperandCode.jmp {n} lt) als =
      u32-DecodesOp als 0x13 n Op.jmp (omega arith) lt λ at. refl
  operand-DecodesOp (OperandCode.concat {n} lt) als =
      u32-DecodesOp als 0x16 n (Op.concat false) (omega arith) lt λ at. refl
  operand-DecodesOp (OperandCode.concatc {n} lt) als =
      u32-DecodesOp als 0x17 n (Op.concat true) (omega arith) lt λ at. refl
