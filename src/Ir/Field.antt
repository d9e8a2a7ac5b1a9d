-- ===== src/Ir/Field.antt =====
-- What the code uses of the upstream field `Fr` (midnight-transient-crypto), as parameters, and
-- what it relies on: field elements are the canonical integers below a modulus, with their
-- little-endian bytes.
use minocrab.Prelude.{
  ℕ, ◌+◌, ◌*◌, ◌<◌, ◌≡◌, ◌↔◌, ◌^◌, Bool, true, List, [], ◌∷◌, All, Bool-cases, inl, inr, false,
  arith,
}

pub record FieldOps (F : Type 0) : Type 0 where
  -- `==` and `<` on `Fr`
  pub eq : F → F → Bool
  pub less : F → F → Bool
  -- `Fr::from(n as u64)`
  pub from_u64 : ℕ → F
  -- `Fr::from(-1i64)`
  pub minus_one : F
  -- the operators of the field
  pub plus : F → F → F
  pub times : F → F → F
  pub as_le_bytes : F → List ℕ
  -- the constants `FR_BITS` and `FR_BYTES_STORED`
  pub fr_bits : ℕ
  pub fr_bytes_stored : ℕ

-- The integer that little-endian bytes stand for.
abbrev pub le_value : List ℕ → ℕ
le_value [] = 0
le_value (b ∷ bs) = b + 256 * le_value bs

pub record FieldLaws {F : Type 0} (ops : FieldOps F) : Type 0 where
  pub to_nat : F → ℕ
  pub eq_iff : (a b : F) → (ops.eq a b ≡ true) ↔ (to_nat a ≡ to_nat b)
  pub to_nat-from_u64 : (n : ℕ) → n < 2 ^ 64 → to_nat (ops.from_u64 n) ≡ n
  pub bytes_value : (x : F) → le_value (ops.as_le_bytes x) ≡ to_nat x
  pub bytes_range : (x : F) → All (λ b. b < 256) (ops.as_le_bytes x)

module _ {F : Type 0} (ops : FieldOps F) (laws : FieldLaws ops) where
  -- A field element that equals one is not zero.
  pub eq_zero_of_eq_one :
      (x : F) → ops.eq x (ops.from_u64 1) ≡ true → ops.eq x (ops.from_u64 0) ≡ false
  eq_zero_of_eq_one x h = elim (Bool-cases (ops.eq x (ops.from_u64 0))) [
    | inl z ↦ absurd (
        omega (
          arith,
          (laws.eq_iff x (ops.from_u64 1)).0 h,
          (laws.eq_iff x (ops.from_u64 0)).0 z,
          laws.to_nat-from_u64 0 (omega arith),
          laws.to_nat-from_u64 1 (omega arith),
        ))
    | inr n ↦ n
  ]
