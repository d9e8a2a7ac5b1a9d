-- ===== src/Ledger/Impact.antt =====
-- crates/minocrab-ledger/src/impact.rs: element streams of Impact operations, the headers of aligned
-- values, ledger paths and their encoders. A panic is `err` with a short message.
use minocrab.Prelude.{
  ℕ, ◌+◌, ◌*◌, ◌/◌, ◌-◌, String, Bool, true, false, List, [], ◌∷◌, ◌++◌, map, length, replicate,
  leb, ◌==◌, if◌then◌else◌, Result, ok, err, and_then, ok_or, check,
}
use minocrab.Ir.Field.{FieldOps}
use minocrab.Ledger.Fab.{
  AlignmentAtom, bytes, compress, field, Alignment, AlignedValue, Key, Op, FabOps,
}

-- `W` is the type of the circuit's wires.
pub data ImpactElem (F W : Type 0) : Type 0 where
  imm : F → ImpactElem F W
  wire : W → ImpactElem F W

abbrev pub ImpactOp : Type 0 → Type 0 → Type 0
ImpactOp F W = List (ImpactElem F W)

pub record LedgerValue (F W : Type 0) : Type 0 where
  pub atoms : Alignment
  pub elems : List (ImpactElem F W)

pub data LedgerElem (F W : Type 0) : Type 0 where
  null : LedgerElem F W
  cell : LedgerValue F W → LedgerElem F W

pub data LedgerKey (F W : Type 0) : Type 0 where
  field_key : ℕ → LedgerKey F W
  value_key : LedgerValue F W → LedgerKey F W
  stack_key : LedgerKey F W

unfoldable pub atom_limbs : AlignmentAtom → ℕ
atom_limbs (bytes n) = (n + 30) / 31
atom_limbs field = 1
atom_limbs compress = 1

-- `atoms.iter().map(atom_limbs).sum()`
unfoldable pub limbs : Alignment → ℕ
limbs [] = 0
limbs (a ∷ atoms) = atom_limbs a + limbs atoms

unfoldable pub u8_of_bool : Bool → ℕ
u8_of_bool true = 1
u8_of_bool false = 0

module _ {F W : Type 0} where
  unfoldable pub ledger_value : Alignment → List (ImpactElem F W) → Result String (LedgerValue F W)
  ledger_value atoms elems =
      if length elems == limbs atoms
      then ok (record { atoms = atoms; elems = elems })
      else err "LedgerValue: limbs for atoms"

  unfoldable pub ledger_bytes : ℕ → List (ImpactElem F W) → Result String (LedgerValue F W)
  ledger_bytes n elems = ledger_value (bytes n ∷ []) elems

  -- `vec![e₁, …]` of expressions that may panic, and the `extend`s of a vector by them
  unfoldable pub vec : List (Result String (ImpactOp F W)) → Result String (List (ImpactOp F W))
  vec [] = ok []
  vec (r ∷ rs) = and_then r (λ op. and_then (vec rs) (λ ops. ok (op ∷ ops)))

  unfoldable pub extend :
      Result String (List (ImpactOp F W))
      → Result String (List (ImpactOp F W))
      → Result String (List (ImpactOp F W))
  extend r s = and_then r (λ ops. and_then s (λ more. ok (ops ++ more)))

unfoldable pub idx_base : Bool → Bool → ℕ
idx_base false false = 0x50
idx_base true false = 0x60
idx_base false true = 0x70
idx_base true true = 0x80

module _ {F : Type 0} (ops : FieldOps F) (fab : FabOps F) where
  unfoldable pub atom_elem : AlignmentAtom → F
  atom_elem (bytes n) = ops.from_u64 n
  atom_elem compress = fab.minus (ops.from_u64 0) (ops.from_u64 1)
  atom_elem field = fab.minus (ops.from_u64 0) (ops.from_u64 2)

  unfoldable pub aligned_field_key : ℕ → Result String AlignedValue
  aligned_field_key index =
      ok_or (fab.aligned_value (fab.normalize (index ∷ []) ∷ []) (bytes 1 ∷ []))
        "a byte fits a bytes<1> atom"

module _ {F W : Type 0} (ops : FieldOps F) (fab : FabOps F) where
  -- `ImpactElem::Imm(Fr::from(n))`
  unfoldable pub imm_u64 : ℕ → ImpactElem F W
  imm_u64 n = imm (ops.from_u64 n)

  unfoldable pub constant : Op → ImpactOp F W
  constant op = map imm (fab.op_repr op)

  unfoldable pub alignment_header : Alignment → List (ImpactElem F W)
  alignment_header atoms = imm_u64 (length atoms) ∷ map (λ a. imm (atom_elem ops fab a)) atoms

  unfoldable pub push_cell : Bool → LedgerValue F W → ImpactOp F W
  push_cell storage v =
      imm_u64 (0x10 + u8_of_bool storage) ∷ imm_u64 1 ∷ alignment_header v.atoms ++ v.elems

  unfoldable pub elem_repr : LedgerElem F W → List (ImpactElem F W)
  elem_repr LedgerElem.null = imm_u64 0 ∷ []
  elem_repr (LedgerElem.cell v) = imm_u64 1 ∷ alignment_header v.atoms ++ v.elems

  unfoldable pub elem_reprs : List (LedgerElem F W) → List (ImpactElem F W)
  elem_reprs [] = []
  elem_reprs (e ∷ elems) = elem_repr e ++ elem_reprs elems

  -- `3 | len << 4`
  unfoldable pub push_array : Bool → List (LedgerElem F W) → ImpactOp F W
  push_array storage elems =
      imm_u64 (0x10 + u8_of_bool storage) ∷ imm_u64 (3 + 16 * length elems) ∷ elem_reprs elems

  unfoldable pub default_value : Alignment → Result String (LedgerValue F W)
  default_value atoms = ledger_value atoms (replicate (limbs atoms) (imm_u64 0))

  unfoldable pub idx_one : Bool → Bool → ℕ → Result String (ImpactOp F W)
  idx_one cached push_path index =
      and_then (aligned_field_key ops fab index)
        (λ k. ok (constant (Op.idx cached push_path (Key.value k ∷ []))))

  unfoldable pub dup : ℕ → Result String (ImpactOp F W)
  dup n = and_then (check (leb n 15) "dup: the reach does not fit") (λ _. ok (constant (Op.dup n)))

  unfoldable pub idx_key : LedgerValue F W → ImpactOp F W
  idx_key key = imm_u64 0x50 ∷ alignment_header key.atoms ++ key.elems

  unfoldable pub push_elems : LedgerKey F W → List (ImpactElem F W)
  push_elems (field_key index) = alignment_header (bytes 1 ∷ []) ++ imm_u64 index ∷ []
  push_elems (value_key v) = alignment_header v.atoms ++ v.elems
  push_elems stack_key = imm (fab.minus (ops.from_u64 0) (ops.from_u64 1)) ∷ []

  unfoldable pub field_index_value : ℕ → Result String (LedgerValue F W)
  field_index_value index = ledger_bytes 1 (imm_u64 index ∷ [])

  unfoldable pub push_as_cell : LedgerKey F W → Result String (ImpactOp F W)
  push_as_cell (field_key index) = and_then (field_index_value index) (λ v. ok (push_cell false v))
  push_as_cell (value_key v) = ok (push_cell false v)
  push_as_cell stack_key = err "a whole-field replace cannot write under a stack key"

  unfoldable pub push_path_elems : List (LedgerKey F W) → List (ImpactElem F W)
  push_path_elems [] = []
  push_path_elems (k ∷ path) = push_elems k ++ push_path_elems path

  -- The low nibble of the base is zero, so `|` adds.
  unfoldable pub idx_path : Bool → Bool → List (LedgerKey F W) → Result String (ImpactOp F W)
  idx_path cached push_path path =
      and_then (check (leb 1 (length path)) "idx_path: an empty path") (λ _.
        and_then (check (leb (length path) 16) "idx_path: the path does not fit") (λ _.
          ok (imm_u64 (idx_base cached push_path + (length path - 1)) ∷ push_path_elems path)))

  unfoldable pub field_path : ℕ → List (LedgerKey F W)
  field_path index = field_key index ∷ []

  unfoldable pub swap : ℕ → ImpactOp F W
  swap n = constant (Op.swap n)

  unfoldable pub idx_key_cached : LedgerValue F W → ImpactOp F W
  idx_key_cached key = imm_u64 0x60 ∷ alignment_header key.atoms ++ key.elems
