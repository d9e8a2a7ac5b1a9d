-- ===== src/Tests/Instance.antt =====
-- One concrete choice of what the development takes as a parameter: the naturals as the field, no
-- curves, and a commitment that adds its arguments.
use minocrab.Prelude.{
  ℕ, zero, suc, ◌+◌, ◌*◌, ◌/◌, ◌%◌, ◌≤◌, ◌<◌, ◌≡◌, refl, String, Bool, true, false, some, List, [],
  ◌∷◌, All, arith, ltb, ◌==◌, ==_iff, Result, ok, err,
}
use minocrab.Ir.{IrType}
use minocrab.Ir.Field.{FieldOps, FieldLaws, le_value}
use minocrab.Sim.Value.{IrValue, native, bytes32}
use minocrab.Sim.Backend.{Backend}

-- Little-endian base 256, with fuel for as many digits.
abbrev pub digits : ℕ → ℕ → List ℕ
digits zero n = []
digits (suc fuel) n = n % 256 ∷ digits fuel (n / 256)

pub digits_value : (fuel n : ℕ) → n ≤ fuel → le_value (digits fuel n) ≡ n
digits_value zero n h = omega arith
digits_value (suc fuel) n h =
    let rest = digits_value fuel (n / 256) (omega arith) in omega (arith, rest)

pub digits_range : (fuel n : ℕ) → All (λ b. b < 256) (digits fuel n)
digits_range zero n = tt
digits_range (suc fuel) n = (omega arith, digits_range fuel (n / 256))

abbrev pub nat_ops : FieldOps ℕ
nat_ops = record {
  eq = λ a b. a == b;
  less = ltb;
  from_u64 = λ n. n;
  minus_one = 52435875175126190479447740508185965837690552500527637822603658699938581184512;
  plus = λ a b. a + b;
  times = λ a b. a * b;
  as_le_bytes = λ n. digits n n;
  fr_bits = 255;
  fr_bytes_stored = 32;
}

unfoldable pub nat_laws : FieldLaws nat_ops
nat_laws = record {
  to_nat = λ n. n;
  eq_iff = ==_iff;
  to_nat-from_u64 = λ n h. refl;
  bytes_value = λ n. digits_value n n (omega arith);
  bytes_range = λ n. digits_range n n;
}

abbrev decode_one : List ℕ → IrType → Result String (IrValue ℕ (Unit {0}))
decode_one (x ∷ []) IrType.native = ok (native x)
decode_one _ _ = err "expected one native"

abbrev binary :
    (ℕ → ℕ → ℕ) → IrValue ℕ (Unit {0}) → IrValue ℕ (Unit {0}) → Result String (IrValue ℕ (Unit {0}))
binary f (native a) (native b) = ok (native (f a b))
binary f _ _ = err "expected natives"

abbrev test_one : IrValue ℕ (Unit {0}) → IrValue ℕ (Unit {0}) → Result String Bool
test_one (native a) (native b) = ok (a == b)
test_one _ _ = err "expected natives"

abbrev equal_one : IrValue ℕ (Unit {0}) → IrValue ℕ (Unit {0}) → Result String (Unit {0})
equal_one (native a) (native b) = elim (a == b) [ true ↦ ok tt | false ↦ err "not equal" ]
equal_one _ _ = err "expected natives"

abbrev choose :
    Bool → IrValue ℕ (Unit {0}) → IrValue ℕ (Unit {0}) → Result String (IrValue ℕ (Unit {0}))
choose true a b = ok a
choose false a b = ok b

abbrev total : List ℕ → ℕ
total [] = 0
total (x ∷ xs) = x + total xs

abbrev pub nat_backend : Backend ℕ (Unit {0}) (Unit {0})
nat_backend = record {
  encoded_len = λ t. 1;
  decode_offcircuit = decode_one;
  encode_offcircuit = λ v. v ∷ [];
  add_offcircuit = binary (λ a b. a + b);
  mul_offcircuit = binary (λ a b. a * b);
  neg_offcircuit = λ v. err "no negation";
  inv_offcircuit = λ v. err "no inverse";
  constrain_eq_offcircuit = equal_one;
  select_offcircuit = choose;
  test_eq_offcircuit = test_one;
  ec_mul_offcircuit = λ a b. err "no curve";
  into_coordinates_offcircuit = λ v. err "no curve";
  from_coordinates_offcircuit = λ a b. err "no curve";
  into_bytes32_offcircuit = λ v. err "no bytes";
  from_bytes32_offcircuit = λ t bs. ok (bytes32 bs);
  native_to_jubjub_scalar = λ x. tt;
  transient_hash = total;
  transient_commit = λ xs r. total xs + r;
  hash_to_curve = λ xs. tt;
  aligned_bytes = λ a xs. some xs;
  sha256 = λ xs. total xs ∷ [];
  keccak256 = λ xs. total xs ∷ [];
  default_payload = λ t. tt;
  jubjub_generator = tt;
  secp256k1_generator = tt;
}
