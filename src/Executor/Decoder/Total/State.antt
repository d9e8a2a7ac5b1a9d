-- ===== src/Executor/Decoder/Total/State.antt =====
-- The fuel of `Decoder::state_value` never runs out.
use minocrab.Prelude.{ℕ, zero, suc, ◌/◌, ◌%◌, ◌≤◌, ◌<◌, length, ◌==◌, arith}
use minocrab.Ir.Field.{FieldOps}
use minocrab.Ledger.Fab.{FabOps, StateValue, Entries, insert_entry, new_map, cell, map_value, array}
use minocrab.Executor.Decoder.Reader.{Decoder, Read, aligned_value}
use minocrab.Executor.Decoder.State.{entries, elements, by_tag, state_value_from, state_value}
use minocrab.Executor.Decoder.Total.{
  Leaves, Shrinks, Leaves-le, choose-Leaves, continue-Leaves, map-Leaves, int-Takes,
  aligned_value-Shrinks,
}

lt_refl : (n : ℕ) → n < suc n
lt_refl n = omega arith

-- A read that shrinks wherever at most `n` elements are left.
abbrev ShrinksWithin : {F A : Type 0} → ℕ → Read F A → Type 0
ShrinksWithin {F = F} n m = (d : Decoder F) → length d.rest ≤ n → Leaves (suc (length d.rest)) (m d)

module _ {F : Type 0} (ops : FieldOps F) (fab : FabOps F) (n : ℕ) (child : Read F StateValue) where
  entries-Shrinks :
      ShrinksWithin n child
      → (count : ℕ) (m : Entries) → ShrinksWithin n (entries ops fab child count m)
  unfolding entries
  entries-Shrinks h zero m d le = omega arith
  entries-Shrinks h (suc count) m d le =
      let k = suc (length d.rest) in
      continue-Leaves k k _ _ (aligned_value-Shrinks ops fab d) λ key d₁ lt₁.
        continue-Leaves k k _ _
          (Leaves-le (suc (length d₁.rest)) k _ (omega arith) (h d₁ (omega arith)))
          λ v d₂ lt₂.
            Leaves-le (suc (length d₂.rest)) k _ (omega arith)
              (entries-Shrinks h count (insert_entry m key v) d₂ (omega arith))

  elements-Shrinks :
      ShrinksWithin n child → (count : ℕ) → ShrinksWithin n (elements ops fab child count)
  unfolding elements
  elements-Shrinks h zero d le = omega arith
  elements-Shrinks h (suc count) d le =
      let k = suc (length d.rest) in
      continue-Leaves k k _ _ (h d le) λ v d₁ lt₁.
        continue-Leaves k k (elements ops fab child count d₁) _
          (Leaves-le (suc (length d₁.rest)) k (elements ops fab child count d₁) (omega arith)
            (elements-Shrinks h count d₁ (omega arith)))
          λ vs d₂ lt₂. lt₂

  by_tag-Shrinks :
      ShrinksWithin n child → (at tag : ℕ) → ShrinksWithin n (by_tag ops fab child at tag)
  unfolding by_tag
  by_tag-Shrinks h at tag d le =
      let k = suc (length d.rest) in
      choose-Leaves k (tag % 16 == 0) _ _ d (lt_refl (length d.rest)) (
        choose-Leaves k (tag % 16 == 1) _ _ d
          (map-Leaves k (aligned_value ops fab) cell d (aligned_value-Shrinks ops fab d))
          (choose-Leaves k (tag % 16 == 2) _ _ d
            (map-Leaves k (entries ops fab child (tag / 16) new_map) map_value d
              (entries-Shrinks h (tag / 16) new_map d le))
            (choose-Leaves k (tag % 16 == 3) _ _ d
              (map-Leaves k (elements ops fab child (tag / 16)) array d
                (elements-Shrinks h (tag / 16) d le))
              (choose-Leaves k (tag % 16 == 4) _ _ d
                (choose-Leaves k (tag / 4096 == 0) _ _ d (lt_refl (length d.rest)) tt) tt))))

module _ {F : Type 0} (ops : FieldOps F) (fab : FabOps F) where
  state_value_from-Leaves :
      (fuel : ℕ) (d : Decoder F)
      → length d.rest < fuel
      → Leaves (suc (length d.rest)) (state_value_from ops fab fuel d)
  unfolding state_value_from
  state_value_from-Leaves zero d lt = absurd (omega arith)
  state_value_from-Leaves (suc fuel) d lt =
      let n = length d.rest in
      continue-Leaves n (suc n) _ _ (int-Takes ops fab 1099511627776 "a state-value tag" d)
        λ tag d₁ lt₁. Leaves-le (suc (length d₁.rest)) (suc n) _ (omega arith) (
          by_tag-Shrinks ops fab (length d₁.rest) (state_value_from ops fab fuel)
            (λ d₂ le. state_value_from-Leaves fuel d₂ (omega arith)) d.at tag d₁ (omega arith))

  pub state_value-Shrinks : Shrinks (state_value ops fab)
  unfolding state_value
  state_value-Shrinks d = state_value_from-Leaves (suc (length d.rest)) d (omega arith)
