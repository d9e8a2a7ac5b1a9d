-- ===== src/Executor/Decoder/Reader.antt =====
-- `Decoder` and its reads of numbers, alignments and values (crates/minocrab-sim/src/v3/exec.rs). The
-- decoder holds the elements that are left, `elems[at..]`, with the index of the first. A read is a
-- function from the decoder to a result with the next decoder; a `u128` keeps its whole value.
use minocrab.Prelude.{
  ℕ, zero, suc, ◌+◌, String, Bool, true, false, Option, none, some, List, [], ◌∷◌, map, length,
  take, drop, leb, ltb, ◌==◌, if◌then◌else◌, Result, ok, err,
}
use minocrab.Ir.Field.{FieldOps, le_value}
use minocrab.Ledger.Fab.{
  AlignmentAtom, bytes, compress, field, Alignment, AlignedValue, Key, FabOps,
}

-- The errors that decoding gives; the model's own `out_of_fuel` is proved never to appear.
pub data DecodeError : Type 0 where
  decode : (at : ℕ) → String → DecodeError
  out_of_fuel : DecodeError

pub record Decoder (F : Type 0) : Type 0 where
  pub rest : List F
  pub at : ℕ

abbrev pub Read : Type 0 → Type 0 → Type 0
Read F A = Decoder F → Result DecodeError (A × Decoder F)

module _ {F A : Type 0} where
  abbrev pub give : A → Read F A
  give a d = ok (a, d)

  abbrev pub fail_at : ℕ → String → Read F A
  fail_at at message d = err (DecodeError.decode at message)

module _ {F A B : Type 0} where
  abbrev pub continue :
      Result DecodeError (A × Decoder F) → (A → Read F B) → Result DecodeError (B × Decoder F)
  continue (ok (a, d)) f = f a d
  continue (err e) f = err e

  infixl 5 ◌>>=◌
  abbrev pub ◌>>=◌ : Read F A → (A → Read F B) → Read F B
  ◌>>=◌ m f d = continue (m d) f

unfoldable pub any_nonzero : List ℕ → Bool
any_nonzero [] = false
any_nonzero (b ∷ bs) = if b == 0 then any_nonzero bs else true

module _ {F : Type 0} where
  abbrev pub position : Read F ℕ
  position d = ok (d.at, d)

  unfoldable pub next : Read F F
  next d = elim (d.rest) [
    | [] ↦ err (DecodeError.decode d.at "the transcript ends mid-op")
    | x ∷ xs ↦ ok (x, record { rest = xs; at = suc d.at })
  ]

  unfoldable pub skip : ℕ → Read F (Unit {0})
  skip n d =
      if ltb (length d.rest) n
      then err (DecodeError.decode d.at "the transcript ends mid-value")
      else ok (tt, record { rest = drop n d.rest; at = d.at + n })

module _ {F : Type 0} (ops : FieldOps F) (fab : FabOps F) where
  unfoldable pub peek_is_zero : Decoder F → Bool
  peek_is_zero d = elim (d.rest) [ [] ↦ false | x ∷ xs ↦ ops.eq x (ops.from_u64 0) ]

  -- The 16 bytes of the buffer, and whether the others are zero.
  unfoldable pub int : (limit : ℕ) → (what : String) → Read F ℕ
  unfolding next any_nonzero
  int limit what = do
    at ← position
    x ← next
    let le = ops.as_le_bytes x
    if any_nonzero (drop 16 le)
        then fail_at at what
        else if leb (le_value (take 16 le)) limit
        then give (le_value (take 16 le))
        else fail_at at what

  unfoldable pub byte : Read F ℕ
  unfolding int
  byte = int 0xff "an opcode"

  unfoldable pub u32 : Read F ℕ
  unfolding int
  u32 = int 4294967295 "an operand"

  unfoldable pub atom : Read F AlignmentAtom
  unfolding next any_nonzero
  atom = do
    at ← position
    x ← next
    let le = ops.as_le_bytes x
    if ops.eq x (fab.neg (ops.from_u64 1))
        then give compress
        else if ops.eq x (fab.neg (ops.from_u64 2))
        then give field
        else if any_nonzero (drop 4 le)
        then fail_at at "not an alignment atom"
        else give (bytes (le_value (take 4 le)))

  -- `for _ in 0..count`
  unfoldable pub atoms : (count : ℕ) → Read F Alignment
  unfolding atom
  atoms zero = give []
  atoms (suc count) = do a ← atom; segments ← atoms count; give (a ∷ segments)

  unfoldable pub alignment : Read F Alignment
  unfolding int atoms
  alignment = do count ← int 1048576 "an alignment length"; atoms count

  -- `value.value.0.into_iter().map(|atom| atom.normalize()).collect()`
  unfoldable pub normalized : AlignedValue → AlignedValue
  normalized v = record v { value = map fab.normalize v.value }

  -- `&self.elems[self.at..self.at + width]`, with the check before it
  unfoldable pub window : ℕ → Read F (List F)
  window width d =
      if ltb (length d.rest) width
      then err (DecodeError.decode d.at "the transcript ends mid-value")
      else ok (take width d.rest, record { rest = drop width d.rest; at = d.at + width })

  unfoldable pub parsed : (at : ℕ) → Option AlignedValue → Read F AlignedValue
  unfolding normalized
  parsed at none = fail_at at "the limbs do not fit the alignment"
  parsed at (some v) = give (normalized v)

  unfoldable pub aligned_value : Read F AlignedValue
  unfolding alignment window parsed
  aligned_value = do
    at ← position
    al ← alignment
    limbs ← window (fab.field_len al)
    parsed at (fab.parse_field_repr al limbs)

  unfoldable pub is_stack : List F → Bool
  is_stack [] = false
  is_stack (x ∷ xs) = ops.eq x (fab.neg (ops.from_u64 1))

  unfoldable pub key : Read F Key
  unfolding is_stack aligned_value
  key d =
      if is_stack d.rest
      then ok (Key.stack, record { rest = drop 1 d.rest; at = suc d.at })
      else (aligned_value >>= λ v. give (Key.value v)) d

  -- `for _ in 0..len { path.push(d.key()?) }`
  unfoldable pub keys : (len : ℕ) → Read F (List Key)
  unfolding key
  keys zero = give []
  keys (suc len) = do k ← key; path ← keys len; give (k ∷ path)
