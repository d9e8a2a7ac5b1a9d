-- ===== src/Executor/Decoder/RoundTrip/Values.antt =====
-- The decoder reads back alignments, aligned values and path keys.
use minocrab.Prelude.{
  ℕ, suc, ◌+◌, ◌^◌, ◌≤◌, ◌<◌, ◌≡◌, ◌≢◌, refl, sym, ap, ◌∙◌, subst, true, false, Option, none, some,
  List, [], ◌∷◌, ◌++◌, map, length, All, arith, ltb, Bool-cases, inl, inr, ok, take-length_append,
  drop-length_append, length-append,
}
use minocrab.Ir.Field.{FieldOps, FieldLaws}
use minocrab.Ledger.Fab.{
  AlignmentAtom, bytes, compress, field, Alignment, AlignedValue, Key, FabOps,
}
use minocrab.Ledger.Impact.{limbs, atom_elem}
use minocrab.Ledger.Laws.{FabLaws, normalized_value}
use minocrab.Executor.Decoder.Reader.{
  Decoder, give, continue, ◌>>=◌, next, int, atom, atoms, alignment, window, skip, parsed,
  normalized, aligned_value, is_stack, key,
}
use minocrab.Executor.Decoder.RoundTrip.{
  Decodes, Decodes-bind, Decodes-map, int-Decodes, le_value-take,
}

-- A length that the encoding of an atom carries.
abbrev pub SizedAtom : AlignmentAtom → Type 0
SizedAtom (bytes n) = n < 2 ^ 32
SizedAtom compress = Unit
SizedAtom field = Unit

ltb_append : {A : Type 0} (xs ys : List A) → ltb (length (xs ++ ys)) (length xs) ≡ false
ltb_append xs ys = ground (arith, length-append xs ys)

module _ {F : Type 0} (ops : FieldOps F) (fab : FabOps F) where
  -- The alignment and the limbs are those of an aligned value, with normalised atoms.
  pub record IsValue (al : Alignment) (ls : List F) (v : AlignedValue) : Type 0 where
    pub few : length al ≤ 1048576
    pub sized : All SizedAtom al
    pub filled : length ls ≡ limbs al
    pub reads : normalized_value fab (fab.parse_field_repr al ls) ≡ some v

  -- `AlignedValue::field_repr` of such a value
  abbrev pub value_fields : Alignment → List F → List F
  value_fields al ls = ops.from_u64 (length al) ∷ (map (atom_elem ops fab) al ++ ls)

  module _ (laws : FieldLaws ops) (fab_laws : FabLaws ops laws fab) where
    neq_false : (x y : F) → laws.to_nat x ≢ laws.to_nat y → ops.eq x y ≡ false
    neq_false x y ne = elim (Bool-cases (ops.eq x y)) [
      | inl t ↦ absurd (ne ((laws.eq_iff x y).0 t))
      | inr f ↦ f
    ]

    minus_small :
        (k : ℕ)
        → 0 < k
        → k < 2 ^ 64
        → laws.to_nat (fab.minus (ops.from_u64 0) (ops.from_u64 k)) + k ≡ fab_laws.modulus
    minus_small k pos lt =
        let zero_nat = laws.to_nat-from_u64 0 (omega arith) in
        let wide = fab_laws.wide in
        let k_nat = laws.to_nat-from_u64 k lt in
        let difference =
          fab_laws.minus_value (ops.from_u64 0) (ops.from_u64 k) (omega arith) (omega arith) in
        omega arith

    neg_small :
        (k : ℕ) → 0 < k → k < 2 ^ 64 → laws.to_nat (fab.neg (ops.from_u64 k)) + k ≡ fab_laws.modulus
    neg_small k pos lt =
        let wide = fab_laws.wide in
        let k_nat = laws.to_nat-from_u64 k lt in
        let negation = fab_laws.neg_value (ops.from_u64 k) (omega arith) (omega arith) in
        omega arith

    from_u64-neg :
        (n k : ℕ)
        → n < 2 ^ 64
        → 0 < k
        → k ≤ 2
        → ops.eq (ops.from_u64 n) (fab.neg (ops.from_u64 k)) ≡ false
    from_u64-neg n k lt pos le =
        let wide = fab_laws.wide in
        let n_nat = laws.to_nat-from_u64 n lt in
        let k_neg = neg_small k pos (omega arith) in neq_false _ _ λ e. omega arith

    pub minus-neg :
        (k : ℕ)
        → 0 < k
        → k ≤ 2
        → ops.eq (fab.minus (ops.from_u64 0) (ops.from_u64 k)) (fab.neg (ops.from_u64 k)) ≡ true
    minus-neg k pos le =
        let a = minus_small k pos (omega arith) in
        let b = neg_small k pos (omega arith) in (laws.eq_iff _ _).1 (omega arith)

    field-compress :
        ops.eq (fab.minus (ops.from_u64 0) (ops.from_u64 2)) (fab.neg (ops.from_u64 1)) ≡ false
    field-compress =
        let a = minus_small 2 (omega arith) (omega arith) in
        let b = neg_small 1 (omega arith) (omega arith) in neq_false _ _ λ e. omega arith

    atom-Decodes :
        (a : AlignmentAtom) → SizedAtom a → Decodes (atom ops fab) (atom_elem ops fab a ∷ []) a
    unfolding atom next atom_elem
    atom-Decodes (bytes n) lt rest at =
        let value = laws.bytes_value (ops.from_u64 n) ∙ laws.to_nat-from_u64 n (omega arith) in
        let (small, same) =
          le_value-take 4 (ops.as_le_bytes (ops.from_u64 n)) (omega (arith, value)) in
        (
          suc at,
          rw (
            from_u64-neg n 1 (omega arith) (omega arith) (omega arith),
            from_u64-neg n 2 (omega arith) (omega arith) (omega arith),
            small,
            same,
            value,
          ),
        )
    atom-Decodes compress lt rest at = (suc at, rw (minus-neg 1 (omega arith) (omega arith)))
    atom-Decodes field lt rest at =
        (suc at, rw (field-compress, minus-neg 2 (omega arith) (omega arith)))

    atoms-Decodes :
        (al : Alignment)
        → All SizedAtom al
        → Decodes (atoms ops fab (length al)) (map (atom_elem ops fab) al) al
    unfolding atoms
    atoms-Decodes [] h rest at = (at, refl)
    atoms-Decodes (a ∷ al) h rest at =
        Decodes-bind (atom ops fab)
          (λ x. atoms ops fab (length al) >>= λ segments. give (x ∷ segments))
          (atom_elem ops fab a ∷ []) (map (atom_elem ops fab) al) (atom-Decodes a h.0)
          (Decodes-map (atoms ops fab (length al)) (λ segments. a ∷ segments) _
            (atoms-Decodes al h.1))
          rest at

    pub alignment-Decodes :
        (al : Alignment)
        → length al ≤ 1048576
        → All SizedAtom al
        → Decodes (alignment ops fab) (ops.from_u64 (length al) ∷ map (atom_elem ops fab) al) al
    unfolding alignment
    alignment-Decodes al few h =
        Decodes-bind (int ops fab 1048576 "an alignment length") (atoms ops fab)
          (ops.from_u64 (length al) ∷ []) (map (atom_elem ops fab) al)
          (int-Decodes ops laws fab 1048576 (length al) "an alignment length" few (omega arith))
          (atoms-Decodes al h)

    window-Decodes : (n : ℕ) (ls : List F) → length ls ≡ n → Decodes (window ops fab n) ls ls
    unfolding window
    window-Decodes n ls e rest at = (
      at + n,
      subst
          (λ k.
            window ops fab k (record { rest = ls ++ rest; at = at })
            ≡ ok (ls, record { rest = rest; at = at + k }))
          e (rw (ltb_append ls rest, take-length_append ls rest, drop-length_append ls rest)),
    )

    pub skip-Decodes : (n : ℕ) (ls : List F) → length ls ≡ n → Decodes (skip n) ls tt
    unfolding skip
    skip-Decodes n ls e rest at = (
      at + n,
      subst
          (λ k.
            skip k (record { rest = ls ++ rest; at = at })
            ≡ ok (tt, record { rest = rest; at = at + k }))
          e (rw (ltb_append ls rest, drop-length_append ls rest)),
    )

    parsed-eq :
        (at : ℕ) (o : Option AlignedValue) (v : AlignedValue) (d : Decoder F)
        → normalized_value fab o ≡ some v
        → parsed ops fab at o d ≡ ok (v, d)
    unfolding parsed normalized
    parsed-eq at none v d e = cc
    parsed-eq at (some w) v d e = cc

    -- An aligned value is read back from its header and its limbs.
    pub aligned_value-Decodes :
        (al : Alignment) (ls : List F) (v : AlignedValue)
        → IsValue al ls v
        → Decodes (aligned_value ops fab) (value_fields al ls) v
    unfolding aligned_value
    aligned_value-Decodes al ls v h rest at =
        Decodes-bind (alignment ops fab)
          (λ al'. window ops fab (fab.field_len al') >>= λ ls'.
            parsed ops fab at (fab.parse_field_repr al' ls'))
          (ops.from_u64 (length al) ∷ map (atom_elem ops fab) al) ls
          (alignment-Decodes al h.few h.sized)
          (λ rest' at'.
            let (at₁, e) =
              window-Decodes (fab.field_len al) ls (h.filled ∙ sym (fab_laws.field_len_limbs al))
                rest' at' in
            (
              at₁,
              ap (λ r. continue r (λ ls'. parsed ops fab at (fab.parse_field_repr al ls'))) e
                  ∙ parsed-eq at (fab.parse_field_repr al ls) v _ h.reads,
            ))
          rest at

    pub key_stack-Decodes :
        (x : F)
        → ops.eq x (fab.neg (ops.from_u64 1)) ≡ true
        → Decodes (key ops fab) (x ∷ []) Key.stack
    unfolding key is_stack
    key_stack-Decodes x e rest at = (suc at, rw e)

    pub key_value-Decodes :
        (al : Alignment) (ls : List F) (v : AlignedValue)
        → IsValue al ls v
        → Decodes (key ops fab) (value_fields al ls) (Key.value v)
    unfolding key is_stack
    key_value-Decodes al ls v h rest at =
        let few = h.few in
        let (at₁, e) =
          Decodes-map (aligned_value ops fab) Key.value (value_fields al ls)
            (aligned_value-Decodes al ls v h) rest at in
        (at₁, rw (from_u64-neg (length al) 1 (omega arith) (omega arith) (omega arith)) e)
