-- ===== src/Ledger/Fab.antt =====
-- What the ledger encoders and the executor use of the upstream crates, as data and parameters: the
-- alignments and aligned values of midnight-base-crypto, the states and operations of the Impact VM
-- (midnight-onchain-state, midnight-onchain-vm), and their encodings as field elements.
use minocrab.Prelude.{ℕ, Bool, Option, List}

pub data AlignmentAtom : Type 0 where
  bytes : ℕ → AlignmentAtom
  compress : AlignmentAtom
  field : AlignmentAtom

-- An `Alignment` whose segments are all atoms, which is all that either side handles.
abbrev pub Alignment : Type 0
Alignment = List AlignmentAtom

-- A `ValueAtom` is its bytes.
abbrev pub ValueAtom : Type 0
ValueAtom = List ℕ

pub record AlignedValue : Type 0 where
  pub value : List ValueAtom
  pub alignment : Alignment

-- `Key` of the VM's `idx`.
pub data Key : Type 0 where
  value : AlignedValue → Key
  stack : Key

-- `StateValue`; a `HashMap` is `new` and the inserts in order.
mutual
  pub data StateValue : Type 0 where
    null : StateValue
    cell : AlignedValue → StateValue
    map_value : Entries → StateValue
    array : Elements → StateValue
    bounded_merkle_tree : ℕ → StateValue

  pub data Entries : Type 0 where
    new_map : Entries
    insert_entry : Entries → AlignedValue → StateValue → Entries

  pub data Elements : Type 0 where
    nil : Elements
    cons : StateValue → Elements → Elements

-- `Op`; a read result is not part of it, as in `ResultModeGather`.
pub data Op : Type 0 where
  noop : ℕ → Op
  lt : Op
  eq : Op
  type_of : Op
  size : Op
  new : Op
  and : Op
  or : Op
  neg : Op
  log : Op
  root : Op
  pop : Op
  popeq : (cached : Bool) → Op
  addi : (immediate : ℕ) → Op
  subi : (immediate : ℕ) → Op
  push : (storage : Bool) → StateValue → Op
  branch : (skip : ℕ) → Op
  jmp : (skip : ℕ) → Op
  add : Op
  sub : Op
  concat : (cached : Bool) → ℕ → Op
  member : Op
  rem : (cached : Bool) → Op
  dup : ℕ → Op
  swap : ℕ → Op
  idx : (cached push_path : Bool) → List Key → Op
  ins : (cached : Bool) → ℕ → Op
  ckpt : Op

pub record FabOps (F : Type 0) : Type 0 where
  -- unary and binary `-` on `Fr`
  pub neg : F → F
  pub minus : F → F → F
  -- `Alignment::field_len` and `Alignment::parse_field_repr`
  pub field_len : Alignment → ℕ
  pub parse_field_repr : Alignment → List F → Option AlignedValue
  -- `ValueAtom::normalize` and `AlignedValue::new`
  pub normalize : ValueAtom → ValueAtom
  pub aligned_value : List ValueAtom → Alignment → Option AlignedValue
  -- `u64::to_le_bytes`
  pub u64_le_bytes : ℕ → List ℕ
  -- `Op::field_repr` of an operation without a read result
  pub op_repr : Op → List F
  -- `StateValue::field_repr`
  pub state_repr : StateValue → List F
