-- ===== src/Executor/Decoder/RoundTrip/Pushes.antt =====
-- The decoder reads back pushed states of at most two levels.
use minocrab.Prelude.{
  ℕ, zero, suc, ◌+◌, ◌*◌, ◌/◌, ◌%◌, ◌^◌, ◌≤◌, ◌<◌, ◌≡◌, refl, sym, ap, ◌∙◌, subst, Bool, true,
  false, List, [], ◌∷◌, ◌++◌, length, arith, ok,
}
use minocrab.Ir.Field.{FieldOps, FieldLaws}
use minocrab.Ledger.Fab.{
  AlignedValue, StateValue, null, cell, map_value, array, bounded_merkle_tree, new_map, Elements,
  nil, cons, Op, FabOps,
}
use minocrab.Ledger.Impact.{u8_of_bool}
use minocrab.Executor.Decoder.Reader.{Read, give, ◌>>=◌, int, aligned_value}
use minocrab.Executor.Decoder.State.{entries, elements, by_tag, state_value_from, state_value}
use minocrab.Executor.Decoder.Program.{push_op, by_opcode}
use minocrab.Executor.Decoder.RoundTrip.{Decodes, Decodes-bind, Decodes-map, int-Decodes}
use minocrab.Executor.Decoder.RoundTrip.Ops.{DecodesOp, opcode-Decodes}

count_shifted : (n : ℕ) → n ≡ (3 + 16 * n) / 16
count_shifted n = omega arith

-- `n` more calls.
abbrev pub deeper : (n fuel : ℕ) → ℕ
deeper zero fuel = fuel
deeper (suc n) fuel = suc (deeper n fuel)

module _ {F : Type 0} (ops : FieldOps F) (fab : FabOps F) (laws : FieldLaws ops) where
  -- A state that `fuel` beyond its nesting suffices for.
  abbrev pub StateDecodes : (depth : ℕ) → List F → StateValue → Type 0
  StateDecodes depth xs v = (fuel : ℕ) → Decodes (state_value_from ops fab (deeper depth fuel)) xs v

  tag-Decodes :
      (fuel tag : ℕ) (xs : List F) (v : StateValue)
      → tag < 1099511627777
      → ((at : ℕ) → Decodes (by_tag ops fab (state_value_from ops fab fuel) at tag) xs v)
      → Decodes (state_value_from ops fab (suc fuel)) (ops.from_u64 tag ∷ xs) v
  unfolding state_value_from
  tag-Decodes fuel tag xs v lt h rest at =
      Decodes-bind (int ops fab 1099511627776 "a state-value tag")
        (by_tag ops fab (state_value_from ops fab fuel) at) (ops.from_u64 tag ∷ []) xs
        (int-Decodes ops laws fab 1099511627776 tag "a state-value tag" (omega arith) (omega arith))
        (h at) rest at

  by_tag-tree :
      (child : Read F StateValue) (at tag : ℕ)
      → tag % 16 ≡ 4
      → tag / 4096 ≡ 0
      → by_tag ops fab child at tag ≡ give (bounded_merkle_tree (tag / 16 % 256))
  unfolding by_tag
  by_tag-tree child at tag low none_left = ground arith

  pub by_tag-array :
      (child : Read F StateValue) (at tag : ℕ)
      → tag % 16 ≡ 3
      → by_tag ops fab child at tag ≡ (elements ops fab child (tag / 16) >>= λ vs. give (array vs))
  unfolding by_tag
  by_tag-array child at tag low = ground arith

  pub null-StateDecodes : StateDecodes 1 (ops.from_u64 0 ∷ []) null
  unfolding by_tag
  null-StateDecodes fuel = tag-Decodes fuel 0 [] null (omega arith) λ at rest at'. (at', refl)

  pub map-StateDecodes : StateDecodes 1 (ops.from_u64 2 ∷ []) (map_value new_map)
  unfolding by_tag entries
  map-StateDecodes fuel =
      tag-Decodes fuel 2 [] (map_value new_map) (omega arith) λ at rest at'. (at', refl)

  pub tree-StateDecodes :
      (h : ℕ) → h < 256 → StateDecodes 1 (ops.from_u64 (4 + 16 * h) ∷ []) (bounded_merkle_tree h)
  tree-StateDecodes h lt fuel =
      tag-Decodes fuel (4 + 16 * h) [] (bounded_merkle_tree h) (omega arith) λ at rest at'. (
        at',
        ap (λ m. m (record { rest = rest; at = at' }))
              (by_tag-tree (state_value_from ops fab fuel) at (4 + 16 * h) (omega arith)
                (omega arith))
            ∙ ap (λ k. ok (bounded_merkle_tree k, record { rest = rest; at = at' })) (omega arith),
      )

  pub cell-StateDecodes :
      (xs : List F) (v : AlignedValue)
      → Decodes (aligned_value ops fab) xs v
      → StateDecodes 1 (ops.from_u64 1 ∷ xs) (cell v)
  unfolding by_tag
  cell-StateDecodes xs v h fuel =
      tag-Decodes fuel 1 xs (cell v) (omega arith)
        λ at. Decodes-map (aligned_value ops fab) cell xs h

-- The elements of an array, one state after the other.
pub data ArrayDecodes {F : Type 0} (ops : FieldOps F) (fab : FabOps F) (laws : FieldLaws ops)
    : (count : ℕ) → List F → Elements → Type 0 where
  array_end : ArrayDecodes ops fab laws 0 [] nil
  array_elem :
      (count : ℕ) (xs ys : List F) (v : StateValue) (vs : Elements)
      → StateDecodes ops fab laws 1 xs v
      → ArrayDecodes ops fab laws count ys vs
      → ArrayDecodes ops fab laws (suc count) (xs ++ ys) (cons v vs)

module _ {F : Type 0} (ops : FieldOps F) (fab : FabOps F) (laws : FieldLaws ops) where
  elements-Decodes :
      (fuel : ℕ) {count : ℕ} {xs : List F} {vs : Elements}
      → ArrayDecodes ops fab laws count xs vs
      → Decodes (elements ops fab (state_value_from ops fab (suc fuel)) count) xs vs
  unfolding elements
  elements-Decodes fuel ArrayDecodes.array_end rest at = (at, refl)
  elements-Decodes fuel (ArrayDecodes.array_elem count xs ys v vs h hs) rest at =
      Decodes-bind (state_value_from ops fab (suc fuel))
        (λ v'. elements ops fab (state_value_from ops fab (suc fuel)) count >>= λ vs'.
          give (cons v' vs'))
        xs ys (h fuel)
        (Decodes-map (elements ops fab (state_value_from ops fab (suc fuel)) count) (cons v) ys
          (elements-Decodes fuel hs))
        rest at

  pub array-StateDecodes :
      (count : ℕ) (xs : List F) (vs : Elements)
      → count < 2 ^ 36
      → ArrayDecodes ops fab laws count xs vs
      → StateDecodes ops fab laws 2 (ops.from_u64 (3 + 16 * count) ∷ xs) (array vs)
  array-StateDecodes count xs vs lt h fuel =
      tag-Decodes ops fab laws (suc fuel) (3 + 16 * count) xs (array vs) (omega arith) λ at.
        subst (λ m. Decodes m xs (array vs))
          (sym (
            by_tag-array ops fab laws (state_value_from ops fab (suc fuel)) at (3 + 16 * count)
              (omega arith)))
          (Decodes-map
            (elements ops fab (state_value_from ops fab (suc fuel)) ((3 + 16 * count) / 16)) array
            xs
            (subst (λ k. Decodes (elements ops fab (state_value_from ops fab (suc fuel)) k) xs vs)
              (count_shifted count) (elements-Decodes fuel h)))

  state_value-Decodes :
      (depth : ℕ) (x : F) (xs : List F) (v : StateValue)
      → depth ≤ 2
      → StateDecodes ops fab laws depth (x ∷ xs) v
      → Decodes (state_value ops fab) (x ∷ xs) v
  unfolding state_value
  state_value-Decodes zero x xs v le h rest at = h (suc (length (x ∷ (xs ++ rest)))) rest at
  state_value-Decodes (suc zero) x xs v le h rest at = h (length (x ∷ (xs ++ rest))) rest at
  state_value-Decodes (suc (suc zero)) x xs v le h rest at = h (length (xs ++ rest)) rest at
  state_value-Decodes (suc (suc (suc depth))) x xs v le h rest at = absurd (omega arith)

  -- A pushed state of at most two levels is read back.
  pub push-DecodesOp :
      (storage : Bool) (depth : ℕ) (x : F) (xs : List F) (v : StateValue)
      → depth ≤ 2
      → StateDecodes ops fab laws depth (x ∷ xs) v
      → DecodesOp ops fab laws
          (ops.from_u64 (0x10 + u8_of_bool storage) ∷ x ∷ xs)
          (Op.push storage v)
  unfolding by_opcode push_op u8_of_bool
  push-DecodesOp false depth x xs v le h als =
      opcode-Decodes ops fab laws als 0x10 (x ∷ xs) _ (omega arith) λ at.
        Decodes-map (state_value ops fab) (λ w. (Op.push false w, als)) (x ∷ xs)
          (state_value-Decodes depth x xs v le h)
  push-DecodesOp true depth x xs v le h als =
      opcode-Decodes ops fab laws als 0x11 (x ∷ xs) _ (omega arith) λ at.
        Decodes-map (state_value ops fab) (λ w. (Op.push true w, als)) (x ∷ xs)
          (state_value-Decodes depth x xs v le h)
