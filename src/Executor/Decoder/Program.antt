-- ===== src/Executor/Decoder/Program.antt =====
-- `decode_one`, `decode_prefix` and `decode_program` of crates/minocrab-sim/src/v3/exec.rs.
use minocrab.Prelude.{
  ℕ, zero, suc, ◌+◌, ◌/◌, ◌%◌, Bool, true, false, Option, none, some, List, [], ◌∷◌, ◌++◌, length,
  drop, leb, ◌==◌, ◌||◌, if◌then◌else◌, Result, ok, err,
}
use minocrab.Ir.Field.{FieldOps}
use minocrab.Ledger.Fab.{Alignment, Op, FabOps}
use minocrab.Executor.Decoder.Reader.{
  DecodeError, Decoder, Read, give, fail_at, ◌>>=◌, position, peek_is_zero, byte, u32, skip,
  alignment, keys,
}
use minocrab.Executor.Decoder.State.{state_value}

-- What one operation adds to the declared alignments, beside the operation.
abbrev pub Decoding : Type 0
Decoding = Op × List Alignment

-- `Decoded`
pub record Decoded : Type 0 where
  pub ops : List Op
  pub alignments : List Alignment
  pub error : Option DecodeError

unfoldable pub within : (low high n : ℕ) → Bool
within low high n = if leb low n then leb n high else false

module _ {F : Type 0} (ops : FieldOps F) (fab : FabOps F) where
  -- `while d.peek_is_zero() && n < 255`, with a round for each value of `n`
  unfoldable pub noop_run : (rounds : ℕ) → (n : ℕ) → Read F ℕ
  unfolding peek_is_zero
  noop_run zero n d = ok (n, d)
  noop_run (suc rounds) n d =
      if peek_is_zero ops fab d
      then noop_run rounds (n + 1) (record { rest = drop 1 d.rest; at = suc d.at })
      else ok (n, d)

  module _ (alignments : List Alignment) where
    -- An arm without operands.
    unfoldable pub plain : Op → Read F Decoding
    plain op = give (op, alignments)

    unfoldable pub with_u32 : (ℕ → Op) → Read F Decoding
    unfolding u32
    with_u32 op = do n ← u32 ops fab; give (op n, alignments)

    unfoldable pub popeq_op : (cached : Bool) → Read F Decoding
    unfolding alignment skip
    popeq_op cached = do
      al ← alignment ops fab
      skip (fab.field_len al) >>= λ _. give (Op.popeq cached, alignments ++ al ∷ [])

    unfoldable pub push_op : (storage : Bool) → Read F Decoding
    unfolding state_value
    push_op storage = do v ← state_value ops fab; give (Op.push storage v, alignments)

    unfoldable pub idx_op : (opcode : ℕ) → Read F Decoding
    unfolding keys
    idx_op opcode = do
      path ← keys ops fab (opcode % 16 + 1)
      give (
        Op.idx (opcode / 16 == 6 || opcode / 16 == 8) (opcode / 16 == 7 || opcode / 16 == 8) path,
        alignments,
      )

    -- The arms with an operand or a range of opcodes.
    unfoldable pub by_range : (at opcode : ℕ) → Read F Decoding
    unfolding with_u32 idx_op
    by_range at opcode =
        if within 0x30 0x3f opcode
        then plain (Op.dup (opcode % 16))
        else if within 0x40 0x4f opcode
        then plain (Op.swap (opcode % 16))
        else if within 0x50 0x8f opcode
        then idx_op opcode
        else if within 0x90 0x9f opcode
        then plain (Op.ins false (opcode % 16))
        else if within 0xa0 0xaf opcode
        then plain (Op.ins true (opcode % 16))
        else if opcode == 0xff
        then plain Op.ckpt
        else fail_at at "unknown opcode"

    unfoldable pub by_opcode : (at opcode : ℕ) → Read F Decoding
    unfolding noop_run plain with_u32 popeq_op push_op by_range
    by_opcode at opcode =
        if opcode == 0x00
        then noop_run 254 1 >>= (λ n. plain (Op.noop n))
        else if opcode == 0x01
        then plain Op.lt
        else if opcode == 0x02
        then plain Op.eq
        else if opcode == 0x03
        then plain Op.type_of
        else if opcode == 0x04
        then plain Op.size
        else if opcode == 0x05
        then plain Op.new
        else if opcode == 0x06
        then plain Op.and
        else if opcode == 0x07
        then plain Op.or
        else if opcode == 0x08
        then plain Op.neg
        else if opcode == 0x09
        then plain Op.log
        else if opcode == 0x0a
        then plain Op.root
        else if opcode == 0x0b
        then plain Op.pop
        else if opcode == 0x0c
        then popeq_op false
        else if opcode == 0x0d
        then popeq_op true
        else if opcode == 0x0e
        then with_u32 Op.addi
        else if opcode == 0x0f
        then with_u32 Op.subi
        else if opcode == 0x10
        then push_op false
        else if opcode == 0x11
        then push_op true
        else if opcode == 0x12
        then with_u32 Op.branch
        else if opcode == 0x13
        then with_u32 Op.jmp
        else if opcode == 0x14
        then plain Op.add
        else if opcode == 0x15
        then plain Op.sub
        else if opcode == 0x16
        then with_u32 (Op.concat false)
        else if opcode == 0x17
        then with_u32 (Op.concat true)
        else if opcode == 0x18
        then plain Op.member
        else if opcode == 0x19
        then plain (Op.rem false)
        else if opcode == 0x1a
        then plain (Op.rem true)
        else by_range at opcode

    unfoldable pub decode_one : Read F Decoding
    unfolding byte by_opcode
    decode_one = do at ← position; opcode ← byte ops fab; by_opcode at opcode

  -- What a round of the loop does with the operation or the error.
  unfoldable pub after :
      (List Alignment → Decoder F → Decoded)
      → List Alignment
      → Result DecodeError (Decoding × Decoder F)
      → Decoded
  after rounds als (ok ((op, als'), d')) =
      let decoded = rounds als' d' in record decoded { ops = op ∷ decoded.ops }
  after rounds als (err e) = record { ops = []; alignments = als; error = some e }

  -- The loop of `decode_prefix`, with the alignments so far.
  unfoldable pub decode_from : (fuel : ℕ) → List Alignment → Decoder F → Decoded
  unfolding decode_one after
  decode_from zero als d = record {
    ops = [];
    alignments = als;
    error = some DecodeError.out_of_fuel;
  }
  decode_from (suc fuel) als d = elim (d.rest) [
    | [] ↦ record { ops = []; alignments = als; error = none }
    | x ∷ xs ↦ after (decode_from fuel) als (decode_one als d)
  ]

  -- Each operation has read an element.
  unfoldable pub decode_prefix : List F → Decoded
  unfolding decode_from
  decode_prefix elems = decode_from (suc (length elems)) [] (record { rest = elems; at = 0 })

  -- The match on `decoded.error`.
  unfoldable pub whole : Decoded → Result DecodeError (List Op × List Alignment)
  whole decoded = elim (decoded.error) [
    | some e ↦ err e
    | none ↦ ok (decoded.ops, decoded.alignments)
  ]

  unfoldable pub decode_program : List F → Result DecodeError (List Op × List Alignment)
  unfolding decode_prefix whole
  decode_program elems = whole (decode_prefix elems)
