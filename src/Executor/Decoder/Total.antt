-- ===== src/Executor/Decoder/Total.antt =====
-- The fuel of the decoder never runs out: each read leaves at most what it was given, and each
-- operation and each nested state takes an element.
pub mod State
pub mod Program
use minocrab.Prelude.{
  ℕ, zero, suc, ◌+◌, ◌≤◌, ◌<◌, ◌≡◌, ◌≢◌, refl, Bool, true, false, none, some, List, [], ◌∷◌, length,
  ltb, leb, take, String, Option, ◌⊎◌, drop, arith, Bool-cases, inl, inr, Result, ok, err,
  if◌then◌else◌,
}
use minocrab.Ir.Field.{FieldOps, le_value}
use minocrab.Ledger.Fab.{AlignedValue, FabOps, StateValue, Op}
use minocrab.Executor.Decoder.Reader.{
  DecodeError, decode, out_of_fuel, Decoder, Read, give, ◌>>=◌, continue, next, skip, int, atom,
  atoms, alignment, window, aligned_value, key, keys, byte, u32, normalized, is_stack, any_nonzero,
  parsed,
}
use minocrab.Executor.Decoder.State.{entries, elements, by_tag, state_value_from, state_value}

-- A result that is no lack of fuel, and leaves fewer than `n` elements.
abbrev pub Leaves : {F A : Type 0} → ℕ → Result DecodeError (A × Decoder F) → Type 0
Leaves n (ok (a, d)) = length d.rest < n
Leaves n (err (decode at message)) = Unit
Leaves n (err out_of_fuel) = ⊥

-- A read that leaves at most, or fewer than, the elements it is given.
abbrev pub Shrinks : {F A : Type 0} → Read F A → Type 0
Shrinks {F = F} m = (d : Decoder F) → Leaves (suc (length d.rest)) (m d)

abbrev pub Takes : {F A : Type 0} → Read F A → Type 0
Takes {F = F} m = (d : Decoder F) → Leaves (length d.rest) (m d)

module _ {F A : Type 0} where
  pub Leaves-le :
      (n k : ℕ) (r : Result DecodeError (A × Decoder F)) → n ≤ k → Leaves n r → Leaves k r
  Leaves-le n k (ok (a, d)) le h = omega arith
  Leaves-le n k (err (decode at message)) le h = tt
  Leaves-le n k (err out_of_fuel) le h = h

  pub if-Leaves :
      (n : ℕ) (b : Bool) (r s : Result DecodeError (A × Decoder F))
      → Leaves n r
      → Leaves n s
      → Leaves n (if b then r else s)
  if-Leaves n true r s h k = h
  if-Leaves n false r s h k = k

  -- The same for a choice of reads.
  pub choose-Leaves :
      (n : ℕ) (b : Bool) (m m' : Read F A) (d : Decoder F)
      → Leaves n (m d)
      → Leaves n (m' d)
      → Leaves n ((if b then m else m') d)
  choose-Leaves n true m m' d h k = h
  choose-Leaves n false m m' d h k = k

  pub Takes-Shrinks : (m : Read F A) → Takes m → Shrinks m
  Takes-Shrinks m h d = Leaves-le (length d.rest) (suc (length d.rest)) (m d) (omega arith) (h d)

module _ {F A B : Type 0} where
  pub continue-Leaves :
      (n k : ℕ) (r : Result DecodeError (A × Decoder F)) (f : A → Read F B)
      → Leaves n r
      → ((a : A) (d : Decoder F) → length d.rest < n → Leaves k (f a d))
      → Leaves k (continue r f)
  continue-Leaves n k (ok (a, d)) f h g = g a d h
  continue-Leaves n k (err (decode at message)) f h g = tt
  continue-Leaves n k (err out_of_fuel) f h g = absurd h

  -- A read within a bound, then one that shrinks.
  pub then-Leaves :
      (n : ℕ) (m : Read F A) (f : A → Read F B) (d : Decoder F)
      → Leaves n (m d)
      → ((a : A) → Shrinks (f a))
      → Leaves n ((m >>= f) d)
  then-Leaves n m f d h g =
      continue-Leaves n n (m d) f h
        λ a d' le. Leaves-le (suc (length d'.rest)) n (f a d') (omega arith) (g a d')

  pub map-Leaves :
      (n : ℕ) (m : Read F A) (f : A → B) (d : Decoder F)
      → Leaves n (m d)
      → Leaves n ((m >>= λ a. give (f a)) d)
  map-Leaves n m f d h = continue-Leaves n n (m d) (λ a. give (f a)) h λ a d' lt. lt

  pub then-Shrinks :
      (m : Read F A) (f : A → Read F B) → Shrinks m → ((a : A) → Shrinks (f a)) → Shrinks (m >>= f)
  then-Shrinks m f h g d = then-Leaves (suc (length d.rest)) m f d (h d) g

pub length-drop {ℓ} : {A : Type ℓ} (n : ℕ) (xs : List A) → length (drop n xs) ≤ length xs
length-drop zero xs = omega arith
length-drop (suc n) [] = omega arith
length-drop (suc n) (x ∷ xs) = omega (arith, length-drop n xs)

lt_suc : (m n : ℕ) → m < n → m < suc n
lt_suc m n h = omega arith

pub next-Takes : {F : Type 0} → Takes {F = F} next
unfolding next
next-Takes d = go d.rest d.at
  where
    go :
        {F : Type 0} (xs : List F) (at : ℕ)
        → Leaves (length xs) (next (record { rest = xs; at = at }))
    go [] at = tt
    go (x ∷ xs) at = omega arith

module _ {F : Type 0} where
  pub skip-Shrinks : (n : ℕ) → Shrinks {F = F} (skip n)
  unfolding skip
  skip-Shrinks n d =
      let shorter = length-drop n d.rest in
      if-Leaves (suc (length d.rest)) (ltb (length d.rest) n) _ _ tt (omega arith)

module _ {F : Type 0} (ops : FieldOps F) (fab : FabOps F) where
  window-Shrinks : (n : ℕ) → Shrinks (window ops fab n)
  unfolding window
  window-Shrinks n d =
      let shorter = length-drop n d.rest in
      if-Leaves (suc (length d.rest)) (ltb (length d.rest) n) _ _ tt (omega arith)

  pub int-Takes : (limit : ℕ) (what : String) → Takes (int ops fab limit what)
  unfolding int
  int-Takes limit what d =
      let n = length d.rest in
      continue-Leaves n n (next d) _ (next-Takes d) λ x d' lt.
        choose-Leaves n (any_nonzero (drop 16 (ops.as_le_bytes x))) _ _ d' tt
          (choose-Leaves n (leb (le_value (take 16 (ops.as_le_bytes x))) limit) _ _ d' lt tt)

  atom-Shrinks : Shrinks (atom ops fab)
  unfolding atom
  atom-Shrinks d =
      let n = suc (length d.rest) in
      continue-Leaves (length d.rest) n (next d) _ (next-Takes d) λ x d' lt.
        let fewer = lt_suc (length d'.rest) (length d.rest) lt in
        choose-Leaves n (ops.eq x (fab.neg (ops.from_u64 1))) _ _ d' fewer (
          choose-Leaves n (ops.eq x (fab.neg (ops.from_u64 2))) _ _ d' fewer
            (choose-Leaves n (any_nonzero (drop 4 (ops.as_le_bytes x))) _ _ d' tt fewer))

  atoms-Shrinks : (count : ℕ) → Shrinks (atoms ops fab count)
  unfolding atoms
  atoms-Shrinks zero d = omega arith
  atoms-Shrinks (suc count) d =
      then-Shrinks _ _ atom-Shrinks
        (λ a. then-Shrinks _ _ (atoms-Shrinks count) λ segments d. omega arith) d

  pub alignment-Shrinks : Shrinks (alignment ops fab)
  unfolding alignment
  alignment-Shrinks =
      then-Shrinks _ _ (Takes-Shrinks _ (int-Takes 1048576 "an alignment length")) atoms-Shrinks

  parsed-Shrinks : (at : ℕ) (o : Option AlignedValue) → Shrinks (parsed ops fab at o)
  unfolding parsed
  parsed-Shrinks at none d = tt
  parsed-Shrinks at (some v) d = omega arith

  pub aligned_value-Shrinks : Shrinks (aligned_value ops fab)
  unfolding aligned_value
  aligned_value-Shrinks d =
      then-Shrinks _ _ alignment-Shrinks
        (λ al.
          then-Shrinks _ _ (window-Shrinks (fab.field_len al))
            λ limbs. parsed-Shrinks d.at (fab.parse_field_repr al limbs))
        d

  key-Shrinks : Shrinks (key ops fab)
  unfolding key
  key-Shrinks d =
      let shorter = length-drop 1 d.rest in
      if-Leaves (suc (length d.rest)) (is_stack ops fab d.rest) _ _ (omega arith)
        (then-Shrinks _ _ aligned_value-Shrinks (λ v d'. omega arith) d)

  pub keys-Shrinks : (len : ℕ) → Shrinks (keys ops fab len)
  unfolding keys
  keys-Shrinks zero d = omega arith
  keys-Shrinks (suc len) d =
      then-Shrinks _ _ key-Shrinks (λ k. then-Shrinks _ _ (keys-Shrinks len) λ path d. omega arith)
        d
