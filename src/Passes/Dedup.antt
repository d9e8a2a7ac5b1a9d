-- ===== src/Passes/Dedup.antt =====
-- `dedup_range_constraints` of crates/minocrab-ir/src/v3/passes.rs: a range constraint that an
-- earlier, equally tight or tighter one on the same wire implies is dropped.
pub mod Constraints
pub mod Preserves
pub mod Oversized
pub mod Scoped
use minocrab.Prelude.{ℕ, Bool, true, false, Option, none, some, List, [], leb, if◌then◌else◌}
use minocrab.Prelude.Assoc.{AssocMap, get, insert}
use minocrab.Ir.{Identifier, variable, Instruction, constrain_bits, constrain_to_boolean}
use minocrab.Passes.Kept.{Kept, retain_kept}

-- `Some(&proven) if proven <= bits`
unfoldable pub implied : Option ℕ → ℕ → Bool
implied none bits = false
implied (some proven) bits = leb proven bits

unfoldable pub decide_bound : AssocMap ℕ → Option (Identifier × ℕ) → Bool × AssocMap ℕ
unfolding implied
decide_bound bound none = (true, bound)
decide_bound bound (some (id, bits)) =
    if implied (get bound id) bits then (false, bound) else (true, insert bound id bits)

module _ {F A : Type 0} where
  -- The wire that a range constraint is on, with its bound in bits.
  unfoldable pub established : Instruction F A → Option (Identifier × ℕ)
  established (constrain_bits (variable id) bits) = some (id, bits)
  established (constrain_to_boolean (variable id)) = some (id, 1)
  established _ = none

  unfoldable pub dedup_keep : AssocMap ℕ → Instruction F A → Bool × Instruction F A × AssocMap ℕ
  unfolding decide_bound established
  dedup_keep bound i = let (kept, bound') = decide_bound bound (established i) in (kept, i, bound')

  unfoldable pub dedup_range_constraints_kept :
      List (Instruction F A) → List (Instruction F A) × Kept
  unfolding dedup_keep retain_kept
  dedup_range_constraints_kept is = retain_kept dedup_keep [] is

  unfoldable pub dedup_range_constraints : List (Instruction F A) → List (Instruction F A)
  unfolding dedup_range_constraints_kept
  dedup_range_constraints is = (dedup_range_constraints_kept is).0
