-- ===== src/Executor/Decoder/RoundTrip.antt =====
-- What the decoder reads back from encoded elements: numbers, atoms, alignments and values.
pub mod Values
pub mod Ops
pub mod Paths
pub mod Pushes
pub mod Program
use native.Mathlib.Nat.{pow-succ'}
use minocrab.Prelude.{
  ℕ, zero, suc, ◌+◌, ◌*◌, ◌^◌, ◌≤◌, ◌<◌, ◌≡◌, refl, sym, ap, ◌∙◌, subst, Bool, true, false, Option,
  none, some, List, [], ◌∷◌, ◌++◌, map, append_assoc, length, take, drop, All, arith, leb, le→leb,
  ltb, ◌==◌, ==_iff, Bool-cases, inl, inr, Result, ok, err, if◌then◌else◌, String,
}
use minocrab.Ir.Field.{FieldOps, FieldLaws, le_value}
use minocrab.Ledger.Fab.{FabOps}
use minocrab.Executor.Decoder.Reader.{Decoder, Read, ◌>>=◌, continue, give, next, int, any_nonzero}

-- The elements are read as the value, and what follows them is left.
abbrev pub Decodes : {F A : Type 0} → Read F A → List F → A → Type 0
Decodes {F = F} m xs a =
    (rest : List F) (at : ℕ)
    → (at' : ℕ) × (m (record { rest = xs ++ rest; at = at })
        ≡ ok (a, record { rest = rest; at = at' }))

module _ {F A B : Type 0} where
  pub Decodes-bind :
      (m : Read F A) (f : A → Read F B) (xs ys : List F) {a : A} {b : B}
      → Decodes m xs a
      → Decodes (f a) ys b
      → Decodes (m >>= f) (xs ++ ys) b
  Decodes-bind m f xs ys h k rest at =
      let (at₁, e₁) = h (ys ++ rest) at in
      let (at₂, e₂) = k rest at₁ in
      (
        at₂,
        ap (λ l. (m >>= f) (record { rest = l; at = at })) (append_assoc xs ys rest)
            ∙ ap (λ r. continue r f) e₁
            ∙ e₂,
      )

  pub Decodes-map :
      (m : Read F A) (f : A → B) (xs : List F) {a : A}
      → Decodes m xs a
      → Decodes (m >>= λ x. give (f x)) xs (f a)
  Decodes-map m f xs h rest at =
      let (at₁, e₁) = h rest at in (at₁, ap (λ r. continue r (λ x. give (f x))) e₁)

-- The bytes of a number below `256 ^ k` are zero from the `k`th on, and the first `k` spell it.
le_value-take :
    (k : ℕ) (bs : List ℕ)
    → le_value bs < 256 ^ k
    → (any_nonzero (drop k bs) ≡ false) × (le_value (take k bs) ≡ le_value bs)
unfolding any_nonzero
le_value-take zero [] lt = (refl, refl)
le_value-take zero (b ∷ bs) lt =
    (rw ((==_iff b 0).1 (omega arith), (le_value-take zero bs (omega arith)).0), omega arith)
le_value-take (suc k) [] lt = (refl, refl)
le_value-take (suc k) (b ∷ bs) lt =
    let (none_left, same) = le_value-take k bs (omega (arith, pow-succ' 256 k)) in
    (none_left, omega arith)

module _ {F : Type 0} (ops : FieldOps F) (laws : FieldLaws ops) where
  -- A number below `2 ^ 64` within the limit is read back.
  pub int-Decodes :
      (fab : FabOps F) (limit n : ℕ) (what : String)
      → n ≤ limit
      → n < 2 ^ 64
      → Decodes (int ops fab limit what) (ops.from_u64 n ∷ []) n
  unfolding int next
  int-Decodes fab limit n what le lt rest at =
      let value = laws.bytes_value (ops.from_u64 n) ∙ laws.to_nat-from_u64 n lt in
      let (small, same) =
        le_value-take 16 (ops.as_le_bytes (ops.from_u64 n)) (omega (arith, value)) in
      (suc at, rw (small, same, value, le→leb n limit le))
