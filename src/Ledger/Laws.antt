-- ===== src/Ledger/Laws.antt =====
-- What the encoders and the decoder rely on in the upstream crates: the arithmetic of negative field
-- elements, the limb counts of alignments, and the encodings of constant keys, states and operations.
use minocrab.Prelude.{ℕ, ◌+◌, ◌<◌, ◌≡◌, ◌^◌, Bool, true, false, Option, none, some, [], ◌∷◌, map}
use minocrab.Ir.Field.{FieldOps, FieldLaws}
use minocrab.Ledger.Fab.{
  bytes, Alignment, AlignedValue, Key, StateValue, null, map_value, new_map, Op, FabOps,
}
use minocrab.Ledger.Impact.{limbs, idx_base, u8_of_bool}

-- `values.0.into_iter().map(normalize)` on an option
abbrev pub normalized_value : {F : Type 0} → FabOps F → Option AlignedValue → Option AlignedValue
normalized_value fab none = none
normalized_value fab (some v) = some (record v { value = map fab.normalize v.value })

-- The opcode of an operation that is one element; the operand of `dup`, `swap` and `ins` is its low
-- nibble.
pub data PlainCode : Op → ℕ → Type 0 where
  lt : PlainCode Op.lt 0x01
  eq : PlainCode Op.eq 0x02
  type_of : PlainCode Op.type_of 0x03
  size : PlainCode Op.size 0x04
  and : PlainCode Op.and 0x06
  or : PlainCode Op.or 0x07
  neg : PlainCode Op.neg 0x08
  log : PlainCode Op.log 0x09
  root : PlainCode Op.root 0x0a
  pop : PlainCode Op.pop 0x0b
  add : PlainCode Op.add 0x14
  sub : PlainCode Op.sub 0x15
  member : PlainCode Op.member 0x18
  rem : PlainCode (Op.rem false) 0x19
  dup : {n : ℕ} → n < 16 → PlainCode (Op.dup n) (0x30 + n)
  swap : {n : ℕ} → n < 16 → PlainCode (Op.swap n) (0x40 + n)
  ins : {n : ℕ} → n < 16 → PlainCode (Op.ins false n) (0x90 + n)
  insc : {n : ℕ} → n < 16 → PlainCode (Op.ins true n) (0xa0 + n)

-- The opcode and the operand of an operation that is two elements.
pub data OperandCode : Op → ℕ → ℕ → Type 0 where
  addi : {n : ℕ} → n < 2 ^ 32 → OperandCode (Op.addi n) 0x0e n
  branch : {n : ℕ} → n < 2 ^ 32 → OperandCode (Op.branch n) 0x12 n
  jmp : {n : ℕ} → n < 2 ^ 32 → OperandCode (Op.jmp n) 0x13 n
  concat : {n : ℕ} → n < 2 ^ 32 → OperandCode (Op.concat false n) 0x16 n
  concatc : {n : ℕ} → n < 2 ^ 32 → OperandCode (Op.concat true n) 0x17 n

pub record FabLaws {F : Type 0} (ops : FieldOps F) (laws : FieldLaws ops) (fab : FabOps F)
    : Type 0 where
  -- The modulus of the field, which has room for every `u64` below the two negative atoms.
  pub modulus : ℕ
  pub wide : 2 ^ 64 + 2 < modulus
  pub neg_value :
      (x : F)
      → 0 < laws.to_nat x
      → laws.to_nat x < modulus
      → laws.to_nat (fab.neg x) + laws.to_nat x ≡ modulus
  pub minus_value :
      (a b : F)
      → laws.to_nat a < laws.to_nat b
      → laws.to_nat b < modulus
      → laws.to_nat (fab.minus a b) + laws.to_nat b ≡ laws.to_nat a + modulus
  pub field_len_limbs : (al : Alignment) → fab.field_len al ≡ limbs al
  -- The aligned value of a byte, and that its limb reads back as it.
  pub byte_value : ℕ → AlignedValue
  pub byte_value_new :
      (i : ℕ)
      → i < 256
      → fab.aligned_value (fab.normalize (i ∷ []) ∷ []) (bytes 1 ∷ []) ≡ some (byte_value i)
  pub byte_value_parse :
      (i : ℕ)
      → i < 256
      → normalized_value fab (fab.parse_field_repr (bytes 1 ∷ []) (ops.from_u64 i ∷ []))
        ≡ some (byte_value i)
  -- `StateValue::field_repr` on the constants
  pub repr_null : fab.state_repr null ≡ ops.from_u64 0 ∷ []
  pub repr_map : fab.state_repr (map_value new_map) ≡ ops.from_u64 2 ∷ []
  -- `Op::field_repr`
  pub repr_plain :
      (op : Op) (code : ℕ) → PlainCode op code → fab.op_repr op ≡ ops.from_u64 code ∷ []
  pub repr_operand :
      (op : Op) (code n : ℕ)
      → OperandCode op code n
      → fab.op_repr op ≡ ops.from_u64 code ∷ ops.from_u64 n ∷ []
  pub repr_push :
      (storage : Bool) (v : StateValue)
      → fab.op_repr (Op.push storage v) ≡ ops.from_u64 (16 + u8_of_bool storage) ∷ fab.state_repr v
  pub repr_idx_byte :
      (cached push_path : Bool) (i : ℕ)
      → i < 256
      → fab.op_repr (Op.idx cached push_path (Key.value (byte_value i) ∷ []))
        ≡ ops.from_u64 (idx_base cached push_path)
          ∷ ops.from_u64 1
          ∷ ops.from_u64 1
          ∷ ops.from_u64 i
          ∷ []
  pub repr_idx_byte_stack :
      (i : ℕ)
      → i < 256
      → fab.op_repr (Op.idx true false (Key.value (byte_value i) ∷ Key.stack ∷ []))
        ≡ ops.from_u64 97
          ∷ ops.from_u64 1
          ∷ ops.from_u64 1
          ∷ ops.from_u64 i
          ∷ fab.neg (ops.from_u64 1)
          ∷ []
  pub repr_idx_stack :
      fab.op_repr (Op.idx true false (Key.stack ∷ []))
      ≡ ops.from_u64 96 ∷ fab.neg (ops.from_u64 1) ∷ []
