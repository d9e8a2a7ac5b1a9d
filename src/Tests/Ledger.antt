-- ===== src/Tests/Ledger.antt =====
-- One concrete choice of the upstream ledger crates, over the naturals: an aligned value keeps its
-- limbs, and operations are encoded with the opcodes of the laws. The theorems on ledger operations
-- are applied to it.
use minocrab.Prelude.{
  ℕ, suc, ◌+◌, ◌*◌, ◌-◌, ◌<◌, ◌≡◌, refl, true, false, some, List, [], ◌∷◌, ◌++◌, map, length, arith,
  ltb, if◌then◌else◌,
}
use minocrab.Ledger.Fab.{
  AlignmentAtom, bytes, compress, field, AlignedValue, Key, StateValue, null, cell, map_value,
  array, bounded_merkle_tree, Entries, new_map, insert_entry, Elements, nil, cons, Op, FabOps,
}
use minocrab.Ledger.Impact.{LedgerValue, wire, limbs, atom_limbs, idx_base, u8_of_bool}
use minocrab.Ledger.Laws.{FabLaws, PlainCode, OperandCode}
use minocrab.Ledger.Meaning.Elements.{Carries}
use minocrab.Tests.Instance.{nat_ops, nat_laws}

abbrev pub modulus : ℕ
modulus = 52435875175126190479447740508185965837690552500527637822603658699938581184513

abbrev pub nat_minus : ℕ → ℕ → ℕ
nat_minus a b = if ltb a b then a + modulus - b else a - b

abbrev pub atom_number : AlignmentAtom → ℕ
atom_number (bytes n) = n
atom_number compress = modulus - 1
atom_number field = modulus - 2

abbrev pub singletons : List ℕ → List (List ℕ)
singletons [] = []
singletons (x ∷ xs) = (x ∷ []) ∷ singletons xs

abbrev pub joined : List (List ℕ) → List ℕ
joined [] = []
joined (xs ∷ xss) = xs ++ joined xss

abbrev pub value_repr : AlignedValue → List ℕ
value_repr v = length v.alignment ∷ (map atom_number v.alignment ++ joined v.value)

abbrev pub elements_length : Elements → ℕ
elements_length nil = 0
elements_length (cons v vs) = suc (elements_length vs)

mutual
  pub nat_state_repr : StateValue → List ℕ
  nat_state_repr null = 0 ∷ []
  nat_state_repr (cell v) = 1 ∷ value_repr v
  nat_state_repr (map_value m) = (2 + 16 * entries_length m) ∷ nat_entries_repr m
  nat_state_repr (array vs) = (3 + 16 * elements_length vs) ∷ nat_elements_repr vs
  nat_state_repr (bounded_merkle_tree h) = (4 + 16 * h) ∷ []

  pub nat_entries_repr : Entries → List ℕ
  nat_entries_repr new_map = []
  nat_entries_repr (insert_entry m k v) = nat_entries_repr m ++ (value_repr k ++ nat_state_repr v)

  pub nat_elements_repr : Elements → List ℕ
  nat_elements_repr nil = []
  nat_elements_repr (cons v vs) = nat_state_repr v ++ nat_elements_repr vs

  pub entries_length : Entries → ℕ
  entries_length new_map = 0
  entries_length (insert_entry m k v) = suc (entries_length m)

abbrev pub key_repr : Key → List ℕ
key_repr (Key.value v) = value_repr v
key_repr Key.stack = (modulus - 1) ∷ []

abbrev pub path_repr : List Key → List ℕ
path_repr [] = []
path_repr (k ∷ ks) = key_repr k ++ path_repr ks

unfoldable pub nat_op_repr : Op → List ℕ
nat_op_repr (Op.noop n) = []
nat_op_repr Op.lt = 0x01 ∷ []
nat_op_repr Op.eq = 0x02 ∷ []
nat_op_repr Op.type_of = 0x03 ∷ []
nat_op_repr Op.size = 0x04 ∷ []
nat_op_repr Op.new = 0x05 ∷ []
nat_op_repr Op.and = 0x06 ∷ []
nat_op_repr Op.or = 0x07 ∷ []
nat_op_repr Op.neg = 0x08 ∷ []
nat_op_repr Op.log = 0x09 ∷ []
nat_op_repr Op.root = 0x0a ∷ []
nat_op_repr Op.pop = 0x0b ∷ []
nat_op_repr (Op.popeq cached) = []
nat_op_repr (Op.addi n) = 0x0e ∷ n ∷ []
nat_op_repr (Op.subi n) = 0x0f ∷ n ∷ []
nat_op_repr (Op.push storage v) = (16 + u8_of_bool storage) ∷ nat_state_repr v
nat_op_repr (Op.branch n) = 0x12 ∷ n ∷ []
nat_op_repr (Op.jmp n) = 0x13 ∷ n ∷ []
nat_op_repr Op.add = 0x14 ∷ []
nat_op_repr Op.sub = 0x15 ∷ []
nat_op_repr (Op.concat false n) = 0x16 ∷ n ∷ []
nat_op_repr (Op.concat true n) = 0x17 ∷ n ∷ []
nat_op_repr Op.member = 0x18 ∷ []
nat_op_repr (Op.rem cached) = (0x19 + u8_of_bool cached) ∷ []
nat_op_repr (Op.dup n) = (0x30 + n) ∷ []
nat_op_repr (Op.swap n) = (0x40 + n) ∷ []
nat_op_repr (Op.idx c p []) = []
nat_op_repr (Op.idx c p (k ∷ [])) = idx_base c p ∷ path_repr (k ∷ [])
nat_op_repr (Op.idx c p (k ∷ k' ∷ ks)) = (idx_base c p + suc (length ks)) ∷ path_repr (k ∷ k' ∷ ks)
nat_op_repr (Op.ins false n) = (0x90 + n) ∷ []
nat_op_repr (Op.ins true n) = (0xa0 + n) ∷ []
nat_op_repr Op.ckpt = 0xff ∷ []

abbrev pub nat_fab : FabOps ℕ
nat_fab = record {
  neg = λ x. modulus - x;
  minus = nat_minus;
  field_len = limbs;
  parse_field_repr = λ al ls. some (record { value = singletons ls; alignment = al });
  normalize = λ a. a;
  aligned_value = λ vs al. some (record { value = vs; alignment = al });
  u64_le_bytes = λ n. n ∷ [];
  op_repr = nat_op_repr;
  state_repr = nat_state_repr;
}

pub nat_repr_plain : (op : Op) (code : ℕ) → PlainCode op code → nat_op_repr op ≡ code ∷ []
unfolding nat_op_repr u8_of_bool
nat_repr_plain op code PlainCode.lt = refl
nat_repr_plain op code PlainCode.eq = refl
nat_repr_plain op code PlainCode.type_of = refl
nat_repr_plain op code PlainCode.size = refl
nat_repr_plain op code PlainCode.and = refl
nat_repr_plain op code PlainCode.or = refl
nat_repr_plain op code PlainCode.neg = refl
nat_repr_plain op code PlainCode.log = refl
nat_repr_plain op code PlainCode.root = refl
nat_repr_plain op code PlainCode.pop = refl
nat_repr_plain op code PlainCode.add = refl
nat_repr_plain op code PlainCode.sub = refl
nat_repr_plain op code PlainCode.member = refl
nat_repr_plain op code PlainCode.rem = refl
nat_repr_plain op code (PlainCode.dup lt) = refl
nat_repr_plain op code (PlainCode.swap lt) = refl
nat_repr_plain op code (PlainCode.ins lt) = refl
nat_repr_plain op code (PlainCode.insc lt) = refl

pub nat_repr_operand :
    (op : Op) (code n : ℕ) → OperandCode op code n → nat_op_repr op ≡ code ∷ n ∷ []
unfolding nat_op_repr
nat_repr_operand op code n (OperandCode.addi lt) = refl
nat_repr_operand op code n (OperandCode.branch lt) = refl
nat_repr_operand op code n (OperandCode.jmp lt) = refl
nat_repr_operand op code n (OperandCode.concat lt) = refl
nat_repr_operand op code n (OperandCode.concatc lt) = refl

pub nat_neg : (x : ℕ) → x < modulus → modulus - x + x ≡ modulus
nat_neg x lt = omega arith

pub nat_minus_value : (a b : ℕ) → a < b → b < modulus → nat_minus a b + b ≡ a + modulus
nat_minus_value a b lt small = ground arith

unfoldable pub nat_fab_laws : FabLaws nat_ops nat_laws nat_fab
unfolding nat_laws nat_op_repr nat_state_repr nat_entries_repr entries_length idx_base
nat_fab_laws = record {
  modulus = modulus;
  wide = omega arith;
  neg_value = λ x pos lt. nat_neg x lt;
  minus_value = nat_minus_value;
  field_len_limbs = λ al. refl;
  byte_value = λ i. record { value = (i ∷ []) ∷ []; alignment = bytes 1 ∷ [] };
  byte_value_new = λ i lt. refl;
  byte_value_parse = λ i lt. refl;
  repr_null = refl;
  repr_map = refl;
  repr_plain = nat_repr_plain;
  repr_operand = nat_repr_operand;
  repr_push = λ storage v. refl;
  repr_idx_byte = λ c p i lt. refl;
  repr_idx_byte_stack = λ i lt. refl;
  repr_idx_stack = refl;
}

-- The wires are numbers, and each has its own value.
abbrev pub wire_value : ℕ → ℕ
wire_value w = w

abbrev pub cell_value : LedgerValue ℕ ℕ
cell_value = record { atoms = bytes 8 ∷ []; elems = wire 7 ∷ [] }

abbrev pub carried : AlignedValue
carried = record { value = (7 ∷ []) ∷ []; alignment = bytes 8 ∷ [] }

pub cell_value-IsValue : Carries nat_ops nat_fab nat_laws nat_fab_laws wire_value cell_value carried
unfolding nat_laws limbs atom_limbs
cell_value-IsValue = record {
  few = omega arith;
  sized = (omega arith, tt);
  filled = refl;
  reads = refl;
}
