-- ===== src/Passes/Fold/Returned.antt =====
-- The returned names of a stream and the table of the fold
-- (crates/minocrab-ir/src/v3/passes.rs).
use minocrab.Prelude.{◌≡◌, ◌≢◌, none, List, [], ◌∷◌, All, All-map, arith}
use minocrab.Prelude.Assoc.{AssocMap, get, insert, get-insert, get-insert_self}
use minocrab.Ir.{Identifier, Operand, variable, immediate, Instruction}
use minocrab.Ir.Dataflow.{returned}
use minocrab.Passes.Fold.{note_returned, returned_from, returned_identifiers, folded_copies}
use minocrab.Passes.Fold.Tables.{get-folded_copies}

-- Whatever was an entry is one still.
abbrev Extends : AssocMap (Unit {0}) → AssocMap (Unit {0}) → Type 0
Extends m m' = (id : Identifier) → get m id ≢ none → get m' id ≢ none

Extends-insert : (m : AssocMap (Unit {0})) (k : Identifier) → Extends m (insert m k tt)
Extends-insert m k id h = ground (arith, get-insert m k id tt)

module _ {F : Type 0} where
  -- The operand is an immediate, or its name has an entry.
  abbrev IsReturned : AssocMap (Unit {0}) → Operand F → Type 0
  IsReturned m (variable id) = get m id ≢ none
  IsReturned m (immediate x) = Unit

  IsReturned-Extends :
      (m m' : AssocMap (Unit {0}))
      → Extends m m'
      → (o : Operand F) → IsReturned m o
      → IsReturned m' o
  IsReturned-Extends m m' e (variable id) h = e id h
  IsReturned-Extends m m' e (immediate x) h = tt

  Extends-note_returned :
      (m : AssocMap (Unit {0})) (os : List (Operand F)) → Extends m (note_returned m os)
  unfolding note_returned
  Extends-note_returned m [] id h = h
  Extends-note_returned m (variable x ∷ os) id h =
      Extends-note_returned (insert m x tt) os id (Extends-insert m x id h)
  Extends-note_returned m (immediate x ∷ os) id h = Extends-note_returned m os id h

  note_returned-IsReturned :
      (m : AssocMap (Unit {0})) (os : List (Operand F)) → All (IsReturned (note_returned m os)) os
  unfolding note_returned
  note_returned-IsReturned m [] = tt
  note_returned-IsReturned m (variable x ∷ os) = (
    Extends-note_returned (insert m x tt) os x (λ e. cc (get-insert_self m x tt)),
    note_returned-IsReturned (insert m x tt) os,
  )
  note_returned-IsReturned m (immediate x ∷ os) = (tt, note_returned-IsReturned m os)

  -- The operand names no folded copy.
  abbrev pub IsKept : AssocMap (Operand F) → Operand F → Type 0
  IsKept folded (variable id) = get folded id ≡ none
  IsKept folded (immediate x) = Unit

module _ {F A : Type 0} where
  Extends-returned_from :
      (m : AssocMap (Unit {0})) (is : List (Instruction F A)) → Extends m (returned_from m is)
  unfolding returned_from
  Extends-returned_from m [] id h = h
  Extends-returned_from m (i ∷ is) id h =
      Extends-returned_from (note_returned m (returned i)) is id
        (Extends-note_returned m (returned i) id h)

  returned_from-IsReturned :
      (m : AssocMap (Unit {0})) (is : List (Instruction F A))
      → All (λ i. All (IsReturned (returned_from m is)) (returned i)) is
  unfolding returned_from
  returned_from-IsReturned m [] = tt
  returned_from-IsReturned m (i ∷ is) = (
    All-map
        (IsReturned-Extends (note_returned m (returned i))
          (returned_from (note_returned m (returned i)) is)
          (Extends-returned_from (note_returned m (returned i)) is))
        (returned i) (note_returned-IsReturned m (returned i)),
    returned_from-IsReturned (note_returned m (returned i)) is,
  )

  IsKept-IsReturned :
      (is : List (Instruction F A)) (o : Operand F)
      → IsReturned (returned_identifiers is) o
      → IsKept (folded_copies is) o
  IsKept-IsReturned is (variable id) h = ground (arith, get-folded_copies is id)
  IsKept-IsReturned is (immediate x) h = tt

  -- What the circuit returns is not folded.
  pub returned-IsKept :
      (is : List (Instruction F A)) → All (λ i. All (IsKept (folded_copies is)) (returned i)) is
  returned-IsKept is =
      All-map (λ i h. All-map (IsKept-IsReturned is) (returned i) h) is
        (unfold returned_identifiers in returned_from-IsReturned [] is)
