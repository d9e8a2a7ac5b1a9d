-- ===== src/Executor/Decoder/State.antt =====
-- `Decoder::state_value` (crates/minocrab-sim/src/v3/exec.rs). It calls itself on the children, with
-- fuel for the nesting; the loops over the children take the call as a function.
use minocrab.Prelude.{ℕ, zero, suc, ◌/◌, ◌%◌, length, ◌==◌, if◌then◌else◌, err}
use minocrab.Ir.Field.{FieldOps}
use minocrab.Ledger.Fab.{
  StateValue, null, cell, map_value, array, bounded_merkle_tree, Entries, new_map, insert_entry,
  Elements, nil, cons, FabOps,
}
use minocrab.Executor.Decoder.Reader.{
  DecodeError, Read, give, fail_at, ◌>>=◌, position, int, aligned_value,
}

module _ {F : Type 0} (ops : FieldOps F) (fab : FabOps F) where
  -- `for _ in 0..(tag >> 4) { .. map = map.insert(k, v); }`
  unfoldable pub entries : Read F StateValue → (count : ℕ) → Entries → Read F Entries
  unfolding aligned_value
  entries child zero m = give m
  entries child (suc count) m = do
    k ← aligned_value ops fab
    v ← child
    entries child count (insert_entry m k v)

  unfoldable pub elements : Read F StateValue → (count : ℕ) → Read F Elements
  elements child zero = give nil
  elements child (suc count) = do v ← child; vs ← elements child count; give (cons v vs)

  -- The arms on `tag & 0xf`.
  unfoldable pub by_tag : Read F StateValue → (at tag : ℕ) → Read F StateValue
  unfolding aligned_value entries elements
  by_tag child at tag =
      if tag % 16 == 0
      then give null
      else if tag % 16 == 1
      then (do v ← aligned_value ops fab; give (cell v))
      else if tag % 16 == 2
      then (do m ← entries child (tag / 16) new_map; give (map_value m))
      else if tag % 16 == 3
      then (do vs ← elements child (tag / 16); give (array vs))
      else if tag % 16 == 4
      then (if tag / 4096 == 0
          then give (bounded_merkle_tree (tag / 16 % 256))
          else fail_at at "a pushed merkle tree with entries: only the blank tree is decodable")
      else fail_at at "unknown state-value tag"

  unfoldable pub state_value_from : (fuel : ℕ) → Read F StateValue
  unfolding int by_tag
  state_value_from zero d = err DecodeError.out_of_fuel
  state_value_from (suc fuel) d =
      (do
        at ← position
        tag ← int ops fab 1099511627776 "a state-value tag"
        by_tag (state_value_from fuel) at tag)
        d

  -- Each nested call has read an element.
  unfoldable pub state_value : Read F StateValue
  unfolding state_value_from
  state_value d = state_value_from (suc (length d.rest)) d
