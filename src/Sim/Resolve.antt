-- ===== src/Sim/Resolve.antt =====
-- Operand resolution (crates/minocrab-sim/src/v3.rs). The source passes the instruction's index and
-- name to each function for the error; here an error is its message, and `Run` adds those two.
use Prim.Native.Nat.{bit_and}
use mathlib.Core.List.{reverse}
use minocrab.Prelude.{
  ℕ, ◌+◌, String, Bool, true, false, ◌||◌, Option, none, some, List, [], ◌∷◌, ◌++◌, map, length,
  take, drop, leb, ◌==◌, if◌then◌else◌, Result, ok, err, and_then, ok_or,
}
use minocrab.Prelude.Assoc.{AssocMap, get}
use minocrab.Ir.{Operand, variable, immediate}
use minocrab.Ir.Field.{FieldOps}
use minocrab.Sim.Value.{IrValue, native, try_into_fr}

abbrev pub Memory : Type 0 → Type 0 → Type 0
Memory F P = AssocMap (IrValue F P)

-- How operands are resolved: the memory of the run, applied.
abbrev pub Resolver : Type 0 → Type 0 → Type 0
Resolver F P = Operand F → Result String (IrValue F P)

unfoldable pub operand : {F P : Type 0} → Memory F P → Resolver F P
operand memory (variable id) = ok_or (get memory id) "variable not found"
operand memory (immediate imm) = ok (native imm)

-- `byte & mask != 0` for the eight masks
unfoldable pub byte_bits : ℕ → List Bool
byte_bits byte =
    map (λ mask. if bit_and byte mask == 0 then false else true)
      (0x01 ∷ 0x02 ∷ 0x04 ∷ 0x08 ∷ 0x10 ∷ 0x20 ∷ 0x40 ∷ 0x80 ∷ [])

unfoldable pub flat_bits : List ℕ → List Bool
unfolding byte_bits
flat_bits [] = []
flat_bits (byte ∷ bytes) = byte_bits byte ++ flat_bits bytes

-- `iter().any(|b| *b)`
unfoldable pub any_bit : List Bool → Bool
any_bit [] = false
any_bit (b ∷ bs) = b || any_bit bs

module _ {F : Type 0} (ops : FieldOps F) where
  unfoldable pub bits_of : F → List Bool
  unfolding flat_bits
  bits_of val = flat_bits (ops.as_le_bytes val)

  -- The bits of a value under an optional bound.
  unfoldable pub bounded_bits : F → Option ℕ → Result String (List Bool)
  unfolding bits_of any_bit
  bounded_bits val none = ok (bits_of val)
  bounded_bits val (some n) =
      if leb ops.fr_bits n
      then err "excessive bit bound"
      else if any_bit (drop n (bits_of val))
      then err "bit bound failed"
      else ok (take n (bits_of val))

  -- `Fr::from(b as u64)`
  unfoldable pub from_bool : Bool → F
  from_bool true = ops.from_u64 1
  from_bool false = ops.from_u64 0

  unfoldable pub from_bits_onto : F → List Bool → F
  unfolding from_bool
  from_bits_onto acc [] = acc
  from_bits_onto acc (bit ∷ bits) =
      from_bits_onto (ops.plus (ops.times acc (ops.from_u64 2)) (from_bool bit)) bits

  unfoldable pub from_bits : List Bool → F
  unfolding from_bits_onto
  from_bits bits = from_bits_onto (ops.from_u64 0) (reverse bits)

  -- The test of `operand_bool` on a resolved value.
  unfoldable pub bool_of : F → Result String Bool
  bool_of val =
      if ops.eq val (ops.from_u64 0)
      then ok false
      else if ops.eq val (ops.from_u64 1)
      then ok true
      else err "expected boolean"

module _ {F P : Type 0} (ops : FieldOps F) (ρ : Resolver F P) where
  unfoldable pub operand_fr : Operand F → Result String F
  unfolding try_into_fr
  operand_fr o = and_then (ρ o) try_into_fr

  unfoldable pub operand_bool : Operand F → Result String Bool
  unfolding operand_fr bool_of
  operand_bool o = and_then (operand_fr o) (bool_of ops)

  unfoldable pub operand_bits : Operand F → Option ℕ → Result String (List Bool)
  unfolding operand_fr bounded_bits
  operand_bits o constrain = and_then (operand_fr o) (λ val. bounded_bits ops val constrain)

-- Read `width` raw elements from a transcript, or fail.
unfoldable pub take_raw : {F : Type 0} → List F → ℕ → ℕ → String → Result String (List F)
take_raw transcript idx width ran_out =
    if leb (idx + width) (length transcript)
    then ok (take width (drop idx transcript))
    else err ran_out
