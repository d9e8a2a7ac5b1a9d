-- ===== src/Sim/Step/Congruence.antt =====
-- The arms of the interpreter on rewritten operands and at other indices, under `Mode::Verify`
-- (crates/minocrab-sim/src/v3.rs).
use minocrab.Prelude.{
  ℕ, suc, ◌-◌, ◌≡◌, refl, ap, Option, none, some, List, [], ◌∷◌, map, length, All, collect,
}
use minocrab.Ir.{
  Operand, IrType, Instruction, encode, assert, cond_select, constrain_bits, constrain_eq,
  constrain_to_boolean, copy, impact, ec_mul, ec_mul_generator, hash_to_curve, into_coordinates,
  from_coordinates, into_bytes32, from_bytes32, bytes32_into_low_high, reverse_bytes,
  bytes32_from_low_high, div_mod_power_of_two, reconstitute_field, transient_hash, persistent_hash,
  keccak256, test_eq, add, mul, neg, inv, not, less_than, jubjub_scalar_from_native, public_input,
  private_input, output,
}
use minocrab.Ir.Dataflow.{operands, returned, map_operands, map_guard, guard_operands}
use minocrab.Ir.Field.{FieldOps}
use minocrab.Sim.Backend.{Backend, ProofPreimage}
use minocrab.Sim.Resolve.{Resolver, operand_fr, operand_bool, operand_bits}
use minocrab.Sim.Step.{verify, guard_holds, emit_outputs, failed_assert}
use minocrab.Sim.Step.Arms.{eval}

length-map {ℓ κ} :
    {A : Type ℓ} {B : Type κ} (f : A → B) (xs : List A) → length (map f xs) ≡ length xs
length-map f [] = refl
length-map f (x ∷ xs) = ap suc (length-map f xs)

module _ {F P A : Type 0} (ops : FieldOps F) (be : Backend F P A) (pre : ProofPreimage F)
    (types : List IrType) where
  -- Only a failed assertion could use the index, and under `Mode::Verify` it is the run's error.
  pub eval_at_any_index :
      (ρ : Resolver F P) (at at' : ℕ) (i : Instruction F A)
      → eval ops be pre verify types ρ at' i ≡ eval ops be pre verify types ρ at i
  unfolding eval failed_assert
  eval_at_any_index ρ at at' (assert c) = refl
  eval_at_any_index ρ at at' _ = refl

  module _ (ρ ρ' : Resolver F P) (f : Operand F → Operand F) where
    -- The rewritten operand resolves as the operand did.
    abbrev pub Agrees : Operand F → Type 0
    Agrees o = ρ' (f o) ≡ ρ o

    operand_fr-Agrees : (o : Operand F) → Agrees o → operand_fr ops ρ' (f o) ≡ operand_fr ops ρ o
    unfolding operand_fr
    operand_fr-Agrees o h = rw h

    operand_bool-Agrees :
        (o : Operand F) → Agrees o → operand_bool ops ρ' (f o) ≡ operand_bool ops ρ o
    unfolding operand_bool
    operand_bool-Agrees o h = rw h

    operand_bits-Agrees :
        (o : Operand F) (n : Option ℕ)
        → Agrees o
        → operand_bits ops ρ' (f o) n ≡ operand_bits ops ρ o n
    unfolding operand_bits
    operand_bits-Agrees o n h = rw h

    collect-Agrees :
        (os : List (Operand F))
        → All Agrees os
        → collect (operand_fr ops ρ') (map f os) ≡ collect (operand_fr ops ρ) os
    collect-Agrees [] h = refl
    collect-Agrees (o ∷ os) h = rw (operand_fr-Agrees o h.0, collect-Agrees os h.1)

    guard_holds-Agrees :
        (g : Option (Operand F))
        → All Agrees (guard_operands g)
        → guard_holds ops be pre verify ρ' (map_guard f g) ≡ guard_holds ops be pre verify ρ g
    unfolding guard_holds
    guard_holds-Agrees none h = refl
    guard_holds-Agrees (some o) h = operand_bool-Agrees o h.0

    emit_outputs-Agrees :
        (os : List (Operand F)) (ts : List IrType)
        → All (λ o. ρ' o ≡ ρ o) os
        → emit_outputs ops be pre verify ρ' os ts ≡ emit_outputs ops be pre verify ρ os ts
    unfolding emit_outputs
    emit_outputs-Agrees [] ts h = refl
    emit_outputs-Agrees (o ∷ os) [] h = refl
    emit_outputs-Agrees (o ∷ os) (t ∷ ts) h = rw (h.0, emit_outputs-Agrees os ts h.1)

    -- Under `Mode::Verify`, an instruction whose operand positions are rewritten does what the
    -- instruction did, where the rewritten operands, and the returned ones as they are, resolve in
    -- the second memory as the operands do in the first.
    pub eval-map_operands :
        (at : ℕ) (i : Instruction F A)
        → All Agrees (operands i)
        → All (λ o. ρ' o ≡ ρ o) (returned i)
        → eval ops be pre verify types ρ' at (map_operands f i)
          ≡ eval ops be pre verify types ρ at i
    unfolding eval map_operands operands returned
    eval-map_operands at (encode a _) h r = rw h.0
    eval-map_operands at (assert a) h r = rw (operand_bool-Agrees a h.0)
    eval-map_operands at (cond_select bit a b _) h r =
        rw (operand_bool-Agrees bit h.0, h.1.0, h.1.1.0)
    eval-map_operands at (constrain_bits a n) h r = rw (operand_bits-Agrees a (some n) h.0)
    eval-map_operands at (constrain_eq a b) h r = rw (h.0, h.1.0)
    eval-map_operands at (constrain_to_boolean a) h r = rw (operand_bool-Agrees a h.0)
    eval-map_operands at (copy a _) h r = rw h.0
    eval-map_operands at (impact g os) h r =
        rw (operand_bool-Agrees g h.0, collect-Agrees os h.1, length-map f os)
    eval-map_operands at (ec_mul a b _) h r = rw (h.0, h.1.0)
    eval-map_operands at (ec_mul_generator a _) h r = rw h.0
    eval-map_operands at (hash_to_curve os _) h r = rw (collect-Agrees os h)
    eval-map_operands at (into_coordinates a _ _) h r = rw h.0
    eval-map_operands at (from_coordinates a b _) h r = rw (h.0, h.1.0)
    eval-map_operands at (into_bytes32 a _) h r = rw h.0
    eval-map_operands at (from_bytes32 a _ _) h r = rw h.0
    eval-map_operands at (bytes32_into_low_high a _ _) h r = rw h.0
    eval-map_operands at (reverse_bytes a _) h r = rw h.0
    eval-map_operands at (bytes32_from_low_high a b _) h r = rw (h.0, h.1.0)
    eval-map_operands at (div_mod_power_of_two a _ _) h r = rw (operand_bits-Agrees a none h.0)
    eval-map_operands at (reconstitute_field d m n _) h r = rw (
      operand_bits-Agrees m (some n) h.1.0,
      operand_bits-Agrees d (some (ops.fr_bits - n)) h.0,
      operand_fr-Agrees m h.1.0,
      operand_fr-Agrees d h.0,
    )
    eval-map_operands at (transient_hash os _) h r = rw (collect-Agrees os h)
    eval-map_operands at (persistent_hash _ os _) h r = rw (collect-Agrees os h)
    eval-map_operands at (keccak256 _ os _) h r = rw (collect-Agrees os h)
    eval-map_operands at (test_eq a b _) h r = rw (h.0, h.1.0)
    eval-map_operands at (add a b _) h r = rw (h.0, h.1.0)
    eval-map_operands at (mul a b _) h r = rw (h.0, h.1.0)
    eval-map_operands at (neg a _) h r = rw h.0
    eval-map_operands at (inv a _) h r = rw h.0
    eval-map_operands at (not a _) h r = rw (operand_bool-Agrees a h.0)
    eval-map_operands at (less_than a b n _) h r =
        rw (operand_bits-Agrees a (some n) h.0, operand_bits-Agrees b (some n) h.1.0)
    eval-map_operands at (jubjub_scalar_from_native a _) h r = rw (operand_fr-Agrees a h.0)
    eval-map_operands at (public_input g _ _) h r = rw (guard_holds-Agrees g h)
    eval-map_operands at (private_input g _ _) h r = rw (guard_holds-Agrees g h)
    eval-map_operands at (output os) h r = rw (emit_outputs-Agrees os types r)
