-- ===== src/Sim/Step/Pieces.antt =====
-- The pieces that the arms of the interpreter share or that fill an arm of their own (`simulate_with`
-- of crates/minocrab-sim/src/v3.rs).
use Prim.Native.Nat.{Ordering}
use mathlib.Core.List.{reverse}
use minocrab.Prelude.{
  ℕ, zero, suc, String, Bool, true, false, ◌&&◌, none, some, List, [], ◌∷◌, ◌++◌, get_elem?, take,
  drop, ◌==◌, if◌then◌else◌, Result, ok, err, and_then, ok_or,
}
use minocrab.Ir.{IrType}
use minocrab.Ir.Field.{FieldOps}
use minocrab.Sim.Value.{IrValue, try_into_bytes}
use minocrab.Sim.Backend.{Backend}
use minocrab.Sim.Resolve.{bits_of}

-- `a.cmp(b)` on bits, and the fold that keeps the first difference.
unfoldable pub compare_bits : Ordering → List Bool → List Bool → Ordering
compare_bits prefix [] bs = prefix
compare_bits prefix (a ∷ as') [] = prefix
compare_bits Ordering.eq (true ∷ as') (false ∷ bs) = compare_bits Ordering.gt as' bs
compare_bits Ordering.eq (false ∷ as') (true ∷ bs) = compare_bits Ordering.lt as' bs
compare_bits Ordering.eq (_ ∷ as') (_ ∷ bs) = compare_bits Ordering.eq as' bs
compare_bits Ordering.lt (_ ∷ as') (_ ∷ bs) = compare_bits Ordering.lt as' bs
compare_bits Ordering.gt (_ ∷ as') (_ ∷ bs) = compare_bits Ordering.gt as' bs

-- `bytes[31] = b`, and the tests on the low and the high bytes.
unfoldable pub set_last : List ℕ → ℕ → List ℕ
set_last bytes b = take 31 bytes ++ b ∷ []

unfoldable pub byte_at : List ℕ → ℕ → ℕ
byte_at bytes i = elim (get_elem? bytes i) [ some b ↦ b | none ↦ 0 ]

unfoldable pub all_zero : List ℕ → Bool
all_zero [] = true
all_zero (b ∷ bs) = b == 0 && all_zero bs

module _ {F : Type 0} (ops : FieldOps F) where
  -- `(0..bits).fold(1, |acc, _| 2 * acc)`
  unfoldable pub power_of_two : ℕ → F
  power_of_two zero = ops.from_u64 1
  power_of_two (suc bits) = ops.times (ops.from_u64 2) (power_of_two bits)

  -- The two halves together exceed the largest field element.
  unfoldable pub overflows_field : List Bool → List Bool → Bool
  unfolding compare_bits bits_of
  overflows_field modulus_bits divisor_bits =
      elim (compare_bits Ordering.eq (reverse (modulus_bits ++ divisor_bits))
        (reverse (take ops.fr_bits (bits_of ops ops.minus_one)))) [ Ordering.gt ↦ true | _ ↦ false ]

module _ {F P A : Type 0} (ops : FieldOps F) (be : Backend F P A) where
  unfoldable pub generator_for : IrValue F P → Result String (IrValue F P)
  generator_for (IrValue.jubjub_scalar _) = ok (IrValue.jubjub_point be.jubjub_generator)
  generator_for (IrValue.secp256k1_scalar _) = ok (IrValue.secp256k1_point be.secp256k1_generator)
  generator_for _ = err "unsupported EcMulGenerator for scalar"

  -- `PersistentHash` and `Keccak256` share their arm but for the digest.
  unfoldable pub hash_aligned : (List ℕ → List ℕ) → A → List F → Result String (IrValue F P)
  hash_aligned digest alignment inputs =
      and_then (ok_or (be.aligned_bytes alignment inputs) "inputs did not match alignment")
        λ repr. ok (IrValue.bytes32 (digest repr))

  unfoldable pub into_low_high : List ℕ → Result String (IrValue F P × IrValue F P)
  unfolding set_last byte_at
  into_low_high bytes =
      and_then (be.from_bytes32_offcircuit IrType.native (set_last bytes 0))
        λ low. ok (low, IrValue.native (ops.from_u64 (byte_at bytes 31)))

  unfoldable pub from_low_high : IrValue F P → IrValue F P → Result String (IrValue F P)
  unfolding set_last byte_at all_zero try_into_bytes
  from_low_high low high =
      and_then (and_then (be.into_bytes32_offcircuit low) try_into_bytes) λ bytes_low.
        and_then (and_then (be.into_bytes32_offcircuit high) try_into_bytes) λ bytes_high.
          if byte_at bytes_low 31 == 0 && all_zero (drop 1 bytes_high)
          then ok (IrValue.bytes32 (set_last bytes_low (byte_at bytes_high 0)))
          else err "Bytes32FromLowHigh: an operand does not fit"
