-- ===== src/Ir/Dataflow.antt =====
-- What an instruction reads, returns and binds (crates/minocrab-ir/src/v3/passes.rs).
use minocrab.Prelude.{Option, none, some, List, [], ◌∷◌, ◌≡◌, refl, map}
use minocrab.Ir.{
  Identifier, Operand, Instruction, encode, assert, cond_select, constrain_bits, constrain_eq,
  constrain_to_boolean, copy, impact, ec_mul, ec_mul_generator, hash_to_curve, into_coordinates,
  from_coordinates, into_bytes32, from_bytes32, bytes32_into_low_high, reverse_bytes,
  bytes32_from_low_high, div_mod_power_of_two, reconstitute_field, transient_hash, persistent_hash,
  keccak256, test_eq, add, mul, neg, inv, not, less_than, jubjub_scalar_from_native, public_input,
  private_input, output,
}

module _ {F : Type 0} where
  -- `guard.iter()`
  abbrev pub guard_operands : Option (Operand F) → List (Operand F)
  guard_operands none = []
  guard_operands (some g) = g ∷ []

  abbrev pub map_guard : (Operand F → Operand F) → Option (Operand F) → Option (Operand F)
  map_guard f none = none
  map_guard f (some g) = some (f g)

  guard_operands-map_guard :
      (f : Operand F → Operand F) (g : Option (Operand F))
      → guard_operands (map_guard f g) ≡ map f (guard_operands g)
  guard_operands-map_guard f none = refl
  guard_operands-map_guard f (some g) = refl

module _ {F A : Type 0} where
  -- `returned_operands`: the operands through which a value leaves the circuit named.
  unfoldable pub returned : Instruction F A → List (Operand F)
  returned (output vals) = vals
  returned _ = []

  -- `operands_mut`, read: every operand position but those of the terminator.
  unfoldable pub operands : Instruction F A → List (Operand F)
  operands (encode input _) = input ∷ []
  operands (assert cond) = cond ∷ []
  operands (cond_select bit a b _) = bit ∷ a ∷ b ∷ []
  operands (constrain_bits val _) = val ∷ []
  operands (constrain_eq a b) = a ∷ b ∷ []
  operands (constrain_to_boolean val) = val ∷ []
  operands (copy val _) = val ∷ []
  operands (impact guard inputs) = guard ∷ inputs
  operands (ec_mul a scalar _) = a ∷ scalar ∷ []
  operands (ec_mul_generator scalar _) = scalar ∷ []
  operands (hash_to_curve inputs _) = inputs
  operands (into_coordinates point _ _) = point ∷ []
  operands (from_coordinates x y _) = x ∷ y ∷ []
  operands (into_bytes32 input _) = input ∷ []
  operands (from_bytes32 bytes _ _) = bytes ∷ []
  operands (bytes32_into_low_high bytes _ _) = bytes ∷ []
  operands (reverse_bytes bytes _) = bytes ∷ []
  operands (bytes32_from_low_high low high _) = low ∷ high ∷ []
  operands (div_mod_power_of_two val _ _) = val ∷ []
  operands (reconstitute_field divisor modulus _ _) = divisor ∷ modulus ∷ []
  operands (transient_hash inputs _) = inputs
  operands (persistent_hash _ inputs _) = inputs
  operands (keccak256 _ inputs _) = inputs
  operands (test_eq a b _) = a ∷ b ∷ []
  operands (add a b _) = a ∷ b ∷ []
  operands (mul a b _) = a ∷ b ∷ []
  operands (neg a _) = a ∷ []
  operands (inv a _) = a ∷ []
  operands (not a _) = a ∷ []
  operands (less_than a b _ _) = a ∷ b ∷ []
  operands (jubjub_scalar_from_native n _) = n ∷ []
  operands (public_input guard _ _) = guard_operands guard
  operands (private_input guard _ _) = guard_operands guard
  operands (output _) = []

  -- `for op in operands_mut(instruction) { f(op) }`: the rewrite at those same positions.
  unfoldable pub map_operands : (Operand F → Operand F) → Instruction F A → Instruction F A
  map_operands f (encode input outputs) = encode (f input) outputs
  map_operands f (assert cond) = assert (f cond)
  map_operands f (cond_select bit a b o) = cond_select (f bit) (f a) (f b) o
  map_operands f (constrain_bits val bits) = constrain_bits (f val) bits
  map_operands f (constrain_eq a b) = constrain_eq (f a) (f b)
  map_operands f (constrain_to_boolean val) = constrain_to_boolean (f val)
  map_operands f (copy val o) = copy (f val) o
  map_operands f (impact guard inputs) = impact (f guard) (map f inputs)
  map_operands f (ec_mul a scalar o) = ec_mul (f a) (f scalar) o
  map_operands f (ec_mul_generator scalar o) = ec_mul_generator (f scalar) o
  map_operands f (hash_to_curve inputs o) = hash_to_curve (map f inputs) o
  map_operands f (into_coordinates point x y) = into_coordinates (f point) x y
  map_operands f (from_coordinates x y o) = from_coordinates (f x) (f y) o
  map_operands f (into_bytes32 input o) = into_bytes32 (f input) o
  map_operands f (from_bytes32 bytes t o) = from_bytes32 (f bytes) t o
  map_operands f (bytes32_into_low_high bytes l h) = bytes32_into_low_high (f bytes) l h
  map_operands f (reverse_bytes bytes o) = reverse_bytes (f bytes) o
  map_operands f (bytes32_from_low_high low high o) = bytes32_from_low_high (f low) (f high) o
  map_operands f (div_mod_power_of_two val bits os) = div_mod_power_of_two (f val) bits os
  map_operands f (reconstitute_field d m bits o) = reconstitute_field (f d) (f m) bits o
  map_operands f (transient_hash inputs o) = transient_hash (map f inputs) o
  map_operands f (persistent_hash al inputs o) = persistent_hash al (map f inputs) o
  map_operands f (keccak256 al inputs o) = keccak256 al (map f inputs) o
  map_operands f (test_eq a b o) = test_eq (f a) (f b) o
  map_operands f (add a b o) = add (f a) (f b) o
  map_operands f (mul a b o) = mul (f a) (f b) o
  map_operands f (neg a o) = neg (f a) o
  map_operands f (inv a o) = inv (f a) o
  map_operands f (not a o) = not (f a) o
  map_operands f (less_than a b bits o) = less_than (f a) (f b) bits o
  map_operands f (jubjub_scalar_from_native n o) = jubjub_scalar_from_native (f n) o
  map_operands f (public_input guard t o) = public_input (map_guard f guard) t o
  map_operands f (private_input guard t o) = private_input (map_guard f guard) t o
  map_operands f (output vals) = output vals

  -- The identifiers that an instruction binds, in output order.
  unfoldable pub defined_identifiers : Instruction F A → List Identifier
  defined_identifiers (encode _ outputs) = outputs
  defined_identifiers (div_mod_power_of_two _ _ outputs) = outputs
  defined_identifiers (into_coordinates _ x y) = x ∷ y ∷ []
  defined_identifiers (bytes32_into_low_high _ l h) = l ∷ h ∷ []
  defined_identifiers (cond_select _ _ _ o) = o ∷ []
  defined_identifiers (copy _ o) = o ∷ []
  defined_identifiers (ec_mul _ _ o) = o ∷ []
  defined_identifiers (ec_mul_generator _ o) = o ∷ []
  defined_identifiers (hash_to_curve _ o) = o ∷ []
  defined_identifiers (from_coordinates _ _ o) = o ∷ []
  defined_identifiers (into_bytes32 _ o) = o ∷ []
  defined_identifiers (from_bytes32 _ _ o) = o ∷ []
  defined_identifiers (reverse_bytes _ o) = o ∷ []
  defined_identifiers (bytes32_from_low_high _ _ o) = o ∷ []
  defined_identifiers (reconstitute_field _ _ _ o) = o ∷ []
  defined_identifiers (transient_hash _ o) = o ∷ []
  defined_identifiers (persistent_hash _ _ o) = o ∷ []
  defined_identifiers (keccak256 _ _ o) = o ∷ []
  defined_identifiers (test_eq _ _ o) = o ∷ []
  defined_identifiers (add _ _ o) = o ∷ []
  defined_identifiers (mul _ _ o) = o ∷ []
  defined_identifiers (neg _ o) = o ∷ []
  defined_identifiers (inv _ o) = o ∷ []
  defined_identifiers (not _ o) = o ∷ []
  defined_identifiers (less_than _ _ _ o) = o ∷ []
  defined_identifiers (jubjub_scalar_from_native _ o) = o ∷ []
  defined_identifiers (public_input _ _ o) = o ∷ []
  defined_identifiers (private_input _ _ o) = o ∷ []
  defined_identifiers _ = []

  -- A rewrite of the operand positions rewrites exactly what `operands` reads.
  pub operands-map_operands :
      (f : Operand F → Operand F) (i : Instruction F A)
      → operands (map_operands f i) ≡ map f (operands i)
  unfolding operands map_operands
  operands-map_operands f (public_input g t o) = guard_operands-map_guard f g
  operands-map_operands f (private_input g t o) = guard_operands-map_guard f g
  operands-map_operands f _ = refl

  -- A rewrite of the operand positions binds and returns what the instruction did.
  pub defined_identifiers-map_operands :
      (f : Operand F → Operand F) (i : Instruction F A)
      → defined_identifiers (map_operands f i) ≡ defined_identifiers i
  unfolding defined_identifiers map_operands
  defined_identifiers-map_operands f (output vals) = refl
  defined_identifiers-map_operands f _ = refl

  pub returned-map_operands :
      (f : Operand F → Operand F) (i : Instruction F A) → returned (map_operands f i) ≡ returned i
  unfolding returned map_operands
  returned-map_operands f (output vals) = refl
  returned-map_operands f _ = refl
