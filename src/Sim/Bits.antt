-- ===== src/Sim/Bits.antt =====
-- The bits that the interpreter takes from a field element, and the range that a bound on them
-- means (`bits_of` and `operand_bits` of crates/minocrab-sim/src/v3.rs).
use native.Mathlib.Nat.{pow-succ', one-le-pow, pow-le-pow_right}
use minocrab.Prelude.{
  ℕ, zero, suc, ◌+◌, ◌*◌, ◌^◌, ◌≤◌, ◌<◌, ◌≡◌, ◌↔◌, refl, sym, subst, ◌∙◌, Bool, true, false,
  if◌then◌else◌, List, [], ◌∷◌, ◌++◌, All, drop, take, ◌==◌, ==_iff, arith, some, ok, Bool-cases,
  inl, inr,
}
use minocrab.Ir.Field.{FieldOps, FieldLaws, le_value, eq_zero_of_eq_one}
use minocrab.Sim.Resolve.{byte_bits, flat_bits, any_bit, bits_of, bounded_bits, bool_of}

abbrev pub bit_value : Bool → ℕ
bit_value true = 1
bit_value false = 0

-- The number that bits stand for, the lowest first.
abbrev pub bits_value : List Bool → ℕ
bits_value [] = 0
bits_value (b ∷ bs) = bit_value b + 2 * bits_value bs

-- Each byte value below the count is spelled by its bits.
bytes_spelled : ℕ → Bool
bytes_spelled zero = true
bytes_spelled (suc count) =
    if bits_value (byte_bits count) == count then bytes_spelled count else false

if_both : (b c : Bool) → (if b then c else false) ≡ true → (b ≡ true) × (c ≡ true)
if_both true c h = (refl, h)
if_both false c h = cc

spelled_byte :
    (count byte : ℕ)
    → bytes_spelled count ≡ true
    → byte < count
    → bits_value (byte_bits byte) ≡ byte
unfolding bytes_spelled
spelled_byte zero byte all below = absurd (omega arith)
spelled_byte (suc count) byte all below =
    let (this, rest) = if_both (bits_value (byte_bits count) == count) (bytes_spelled count) all in
    elim (Bool-cases (byte == count)) [
      | inl last ↦
          subst (λ n. bits_value (byte_bits n) ≡ n) (sym ((==_iff byte count).0 last))
            ((==_iff (bits_value (byte_bits count)) count).0 this)
      | inr earlier ↦ spelled_byte count byte rest (ground arith)
    ]

all_bytes_spelled : bytes_spelled 256 ≡ true
unfolding bytes_spelled byte_bits
all_bytes_spelled = refl

-- The eight bits of a byte stand for the byte.
bits_value-byte_bits : (b : ℕ) → b < 256 → bits_value (byte_bits b) ≡ b
bits_value-byte_bits b h = spelled_byte 256 b all_bytes_spelled h

-- Eight bits below the rest.
bits_value_byte_append :
    (b : ℕ) (bs : List Bool)
    → bits_value (byte_bits b ++ bs) ≡ bits_value (byte_bits b) + 256 * bits_value bs
unfolding byte_bits
bits_value_byte_append b bs = omega arith

bits_value-flat_bits :
    (bytes : List ℕ) → All (λ b. b < 256) bytes → bits_value (flat_bits bytes) ≡ le_value bytes
unfolding flat_bits
bits_value-flat_bits [] h = refl
bits_value-flat_bits (b ∷ bytes) h = omega (
  arith,
  bits_value_byte_append b (flat_bits bytes),
  bits_value-byte_bits b h.0,
  bits_value-flat_bits bytes h.1,
)

bits_value_zero : (bs : List Bool) → any_bit bs ≡ false → bits_value bs ≡ 0
unfolding any_bit
bits_value_zero [] h = refl
bits_value_zero (true ∷ bs) h = cc
bits_value_zero (false ∷ bs) h = omega (arith, bits_value_zero bs h)

bits_value_pos : (bs : List Bool) → any_bit bs ≡ true → 0 < bits_value bs
unfolding any_bit
bits_value_pos [] h = cc
bits_value_pos (true ∷ bs) h = omega arith
bits_value_pos (false ∷ bs) h = omega (arith, bits_value_pos bs h)

two_pow_pos : (n : ℕ) → 0 < 2 ^ n
two_pow_pos n = one-le-pow n 2 (omega arith)

pub two_pow_mono : (k n : ℕ) → k ≤ n → 2 ^ k ≤ 2 ^ n
two_pow_mono k n h = pow-le-pow_right (omega arith) h

-- No bit at or above `n` is set exactly when the value is below `2 ^ n`.
below-any_bit : (n : ℕ) (bs : List Bool) → any_bit (drop n bs) ≡ false → bits_value bs < 2 ^ n
below-any_bit zero bs h = omega (arith, bits_value_zero bs h)
below-any_bit (suc n) [] h = two_pow_pos (suc n)
below-any_bit (suc n) (true ∷ bs) h = omega (arith, below-any_bit n bs h, pow-succ' 2 n)
below-any_bit (suc n) (false ∷ bs) h = omega (arith, below-any_bit n bs h, pow-succ' 2 n)

any_bit-below : (n : ℕ) (bs : List Bool) → bits_value bs < 2 ^ n → any_bit (drop n bs) ≡ false
unfolding any_bit
any_bit-below zero bs h = elim (Bool-cases (any_bit bs)) [
  | inl t ↦ absurd (omega (arith, bits_value_pos bs t))
  | inr f ↦ f
]
any_bit-below (suc n) [] h = refl
any_bit-below (suc n) (true ∷ bs) h = any_bit-below n bs (omega (arith, pow-succ' 2 n))
any_bit-below (suc n) (false ∷ bs) h = any_bit-below n bs (omega (arith, pow-succ' 2 n))

module _ {F : Type 0} (ops : FieldOps F) (laws : FieldLaws ops) where
  bits_value-bits_of : (x : F) → bits_value (bits_of ops x) ≡ laws.to_nat x
  unfolding bits_of
  bits_value-bits_of x =
      bits_value-flat_bits (ops.as_le_bytes x) (laws.bytes_range x) ∙ laws.bytes_value x

  -- A bound of fewer bits than the field has is accepted exactly on the values in its range.
  pub bounded_bits-lt :
      (x : F) (n : ℕ) (bs : List Bool)
      → bounded_bits ops x (some n) ≡ ok bs
      → (n < ops.fr_bits) × (laws.to_nat x < 2 ^ n)
  unfolding bounded_bits
  bounded_bits-lt x n bs h = ground (arith, below-any_bit n (bits_of ops x), bits_value-bits_of x)

  pub lt-bounded_bits :
      (x : F) (n : ℕ)
      → n < ops.fr_bits
      → laws.to_nat x < 2 ^ n
      → bounded_bits ops x (some n) ≡ ok (take n (bits_of ops x))
  unfolding bounded_bits
  lt-bounded_bits x n h lt = ground (arith, any_bit-below n (bits_of ops x), bits_value-bits_of x)

  -- A value is accepted as a boolean exactly below two.
  pub bool_of-lt : (x : F) (b : Bool) → bool_of ops x ≡ ok b → laws.to_nat x ≡ bit_value b
  unfolding bool_of
  bool_of-lt x b h = ground (
    arith,
    (laws.eq_iff x (ops.from_u64 0)).0,
    (laws.eq_iff x (ops.from_u64 1)).0,
    laws.to_nat-from_u64 0 (omega arith),
    laws.to_nat-from_u64 1 (omega arith),
  )

  pub lt-bool_of : (x : F) → laws.to_nat x < 2 → (b : Bool) × (bool_of ops x ≡ ok b)
  unfolding bool_of
  lt-bool_of x h = go (laws.to_nat x) refl h
    where
      go : (n : ℕ) → laws.to_nat x ≡ n → n < 2 → (b : Bool) × (bool_of ops x ≡ ok b)
      go zero e h = (
        false,
        rw ((laws.eq_iff x (ops.from_u64 0)).1 (e ∙ sym (laws.to_nat-from_u64 0 (omega arith)))),
      )
      go (suc zero) e h =
          let one =
            (laws.eq_iff x (ops.from_u64 1)).1 (e ∙ sym (laws.to_nat-from_u64 1 (omega arith))) in
          (true, rw (eq_zero_of_eq_one ops laws x one, one))
      go (suc (suc n)) e h = absurd (omega arith)

  bit_value-lt : (b : Bool) → bit_value b < 2
  bit_value-lt true = omega arith
  bit_value-lt false = omega arith

  -- Below the field's width, a bound of `n` bits is accepted exactly on the values below `2 ^ n`.
  pub bounded_bits_iff :
      (x : F) (n : ℕ)
      → n < ops.fr_bits
      → ((bs : List Bool) × (bounded_bits ops x (some n) ≡ ok bs)) ↔ (laws.to_nat x < 2 ^ n)
  bounded_bits_iff x n h = (
    λ (bs, e). (bounded_bits-lt x n bs e).1,
    λ lt. (take n (bits_of ops x), lt-bounded_bits x n h lt),
  )

  -- The boolean test and the bound of one bit accept the same values, where the field has more than
  -- one bit.
  pub bool_of-bounded_bits :
      (x : F)
      → 1 < ops.fr_bits
      → ((b : Bool) × (bool_of ops x ≡ ok b))
        ↔ ((bs : List Bool) × (bounded_bits ops x (some 1) ≡ ok bs))
  bool_of-bounded_bits x h = (
    λ (b, e). (
      take 1 (bits_of ops x),
      lt-bounded_bits x 1 h (omega (arith, bool_of-lt x b e, bit_value-lt b)),
    ),
    λ (bs, e). lt-bool_of x (omega (arith, (bounded_bits-lt x 1 bs e).1)),
  )
