-- ===== src/Passes/Fold/Tables.antt =====
-- What the tables of the fold hold for a well-scoped stream
-- (crates/minocrab-ir/src/v3/passes.rs).
use minocrab.Prelude.{
  String, ◌≡◌, refl, sym, ◌∙◌, true, false, Bool-cases, inl, inr, Option, none, some, Option-cases,
  List, [], ◌∷◌, All, arith, str_eq, eq_iff, eq_refl,
}
use minocrab.Prelude.Assoc.{AssocMap, get, insert, get-insert, get-insert_self, get-insert_ne}
use minocrab.Ir.{Identifier, Operand, variable, immediate, Instruction, copy}
use minocrab.Ir.Dataflow.{operands, returned, defined_identifiers}
use minocrab.Ir.Scope.{
  member, extend, AreFresh, IsScoped, InScope, member-extend-old, member-extend-new,
  member-extend-none, member_fresh, fresh_member,
}
use minocrab.Passes.Fold.{
  copied_value, note_copy, note_instruction, immediate_copies_from, immediate_copies,
  returned_identifiers, foldable, folded_copies,
}

module _ {ℓ} {V : Type ℓ} where
  -- No key stands twice in the table.
  abbrev pub HasUniqueKeys : AssocMap V → Type ℓ
  HasUniqueKeys [] = Unit
  HasUniqueKeys ((k, v) ∷ m) = (get m k ≡ none) × HasUniqueKeys m

  insert-HasUniqueKeys :
      (m : AssocMap V) (k : String) (v : V) → HasUniqueKeys m → HasUniqueKeys (insert m k v)
  unfolding insert get
  insert-HasUniqueKeys [] k v h = (refl, tt)
  insert-HasUniqueKeys ((j, w) ∷ m) k v h =
      ground (arith, get-insert m k j v, eq_iff j k, eq_iff k j, insert-HasUniqueKeys m k v h.1)

module _ {F : Type 0} where
  -- The fold's table is the table of copies without the returned names.
  pub get-foldable :
      (returned : AssocMap (Unit {0})) (folded named : AssocMap (Operand F)) (id : Identifier)
      → HasUniqueKeys named
      → get (foldable returned folded named) id ≡ elim (get returned id) [
        | some _ ↦ get folded id
        | none ↦ elim (get named id) [ some imm ↦ some imm | none ↦ get folded id ]
      ]
  unfolding foldable get
  get-foldable returned folded [] id h = ground arith
  get-foldable returned folded ((k, imm) ∷ named) id h = ground (
    arith,
    eq_iff k id,
    get-insert folded k id imm,
    get-foldable returned folded named id h.1,
    get-foldable returned (insert folded k imm) named id h.1,
  )

  -- Every value that the table of copies holds is an immediate.
  abbrev pub HoldsImmediates : AssocMap (Operand F) → Type 0
  HoldsImmediates m =
      (id : Identifier) (o : Operand F) → get m id ≡ some o → (x : F) × (o ≡ immediate x)

  copied_value-immediate :
      (named : AssocMap (Operand F)) (val v : Operand F)
      → HoldsImmediates named
      → copied_value named val ≡ some v
      → (x : F) × (v ≡ immediate x)
  unfolding copied_value
  copied_value-immediate named (immediate x) v h e = (x, cc)
  copied_value-immediate named (variable id) v h e = h id v e

  insert-HoldsImmediates :
      (m : AssocMap (Operand F)) (k : Identifier) (x : F)
      → HoldsImmediates m
      → HoldsImmediates (insert m k (immediate x))
  insert-HoldsImmediates m k x h id o e = elim (Bool-cases (str_eq k id)) [
    | inl same ↦
        let e' : some (immediate x) ≡ some o =
          sym (rw same at (get-insert m k id (immediate x))) ∙ e in
        (x, cc)
    | inr other ↦ h id o (sym (get-insert_ne m k id (immediate x) other) ∙ e)
  ]

  -- Nothing outside the scope has an entry yet.
  abbrev pub IsWithin : List Identifier → AssocMap (Operand F) → Type 0
  IsWithin sc named = (id : Identifier) → member id sc ≡ false → get named id ≡ none

  get-note_copy :
      (named : AssocMap (Operand F)) (o : Identifier) (c : Option (Operand F))
      → get named o ≡ none
      → get (note_copy named o c) o ≡ c
  unfolding note_copy
  get-note_copy named o none h = h
  get-note_copy named o (some v) h = get-insert_self named o v

module _ {F A : Type 0} where
  note_instruction-HasUniqueKeys :
      (named : AssocMap (Operand F)) (i : Instruction F A)
      → HasUniqueKeys named
      → HasUniqueKeys (note_instruction named i)
  unfolding note_instruction
  note_instruction-HasUniqueKeys named (copy val o) h =
      elim (Option-cases (copied_value named val)) [
        | inl e ↦ rw e h
        | inr (v, e) ↦ rw e (insert-HasUniqueKeys named o v h)
      ]
  note_instruction-HasUniqueKeys named _ h = h

  immediate_copies_from-HasUniqueKeys :
      (named : AssocMap (Operand F)) (is : List (Instruction F A))
      → HasUniqueKeys named
      → HasUniqueKeys (immediate_copies_from named is)
  unfolding immediate_copies_from
  immediate_copies_from-HasUniqueKeys named [] h = h
  immediate_copies_from-HasUniqueKeys named (i ∷ is) h =
      immediate_copies_from-HasUniqueKeys (note_instruction named i) is
        (note_instruction-HasUniqueKeys named i h)

  note_instruction-HoldsImmediates :
      (named : AssocMap (Operand F)) (i : Instruction F A)
      → HoldsImmediates named
      → HoldsImmediates (note_instruction named i)
  unfolding note_instruction
  note_instruction-HoldsImmediates named (copy val o) h =
      elim (Option-cases (copied_value named val)) [
        | inl e ↦ rw e h
        | inr (v, e) ↦
            let (x, q) = copied_value-immediate named val v h e in
            rw (e, q) (insert-HoldsImmediates named o x h)
      ]
  note_instruction-HoldsImmediates named _ h = h

  immediate_copies_from-HoldsImmediates :
      (named : AssocMap (Operand F)) (is : List (Instruction F A))
      → HoldsImmediates named
      → HoldsImmediates (immediate_copies_from named is)
  unfolding immediate_copies_from
  immediate_copies_from-HoldsImmediates named [] h = h
  immediate_copies_from-HoldsImmediates named (i ∷ is) h =
      immediate_copies_from-HoldsImmediates (note_instruction named i) is
        (note_instruction-HoldsImmediates named i h)

  -- A name that is none of the outputs keeps its entry.
  get-note_instruction_ne :
      (named : AssocMap (Operand F)) (i : Instruction F A) (id : Identifier)
      → member id (defined_identifiers i) ≡ false
      → get (note_instruction named i) id ≡ get named id
  unfolding note_instruction defined_identifiers
  get-note_instruction_ne named (copy val o) id h = elim (Option-cases (copied_value named val)) [
    | inl e ↦ rw e
    | inr (v, e) ↦ rw e (ground (arith, get-insert named o id v))
  ]
  get-note_instruction_ne named _ id h = refl

  -- A name in scope keeps its entry to the end of the stream.
  get-immediate_copies_from :
      (sc : List Identifier) (named : AssocMap (Operand F)) (is : List (Instruction F A))
      (id : Identifier)
      → IsScoped sc is
      → member id sc ≡ true
      → get (immediate_copies_from named is) id ≡ get named id
  unfolding immediate_copies_from
  get-immediate_copies_from sc named [] id s h = refl
  get-immediate_copies_from sc named (i ∷ is) id s h =
      get-immediate_copies_from (extend sc (defined_identifiers i)) (note_instruction named i) is id
        s.3 (member-extend-old id sc (defined_identifiers i) h)
      ∙ get-note_instruction_ne named i id (member_fresh id sc (defined_identifiers i) s.2 h)

  -- What the whole table says of one instruction's outputs.
  abbrev pub TableOf : AssocMap (Operand F) → Instruction F A → Type 0
  TableOf table (copy val o) = get table o ≡ copied_value table val
  TableOf table i =
      (id : Identifier) → member id (defined_identifiers i) ≡ true → get table id ≡ none

  IsWithin-note_instruction :
      (sc : List Identifier) (named : AssocMap (Operand F)) (i : Instruction F A)
      → IsWithin sc named
      → IsWithin (extend sc (defined_identifiers i)) (note_instruction named i)
  IsWithin-note_instruction sc named i h id out =
      let (old, new) = member-extend-none id sc (defined_identifiers i) out in
      get-note_instruction_ne named i id new ∙ h id old

  -- The entries of one instruction, when the scan reaches it.
  TableOf-note_instruction :
      (sc : List Identifier) (named table : AssocMap (Operand F)) (i : Instruction F A)
      → All (InScope sc) (operands i)
      → AreFresh sc (defined_identifiers i)
      → IsWithin sc named
      → ((id : Identifier)
          → member id (extend sc (defined_identifiers i)) ≡ true
          → get table id ≡ get (note_instruction named i) id)
      → TableOf table i
  unfolding note_instruction defined_identifiers operands copied_value
  TableOf-note_instruction sc named table (copy (variable x) o) scoped fresh h settled =
      let i : Instruction F A = copy (variable x) o in
      let kept = get-note_instruction_ne named i x (member_fresh x sc (o ∷ []) fresh scoped.0) in
      settled o (member-extend-new o sc (o ∷ []) (rw (eq_refl o)))
      ∙ get-note_copy named o (get named x) (h o fresh.0)
      ∙ sym (settled x (member-extend-old x sc (o ∷ []) scoped.0) ∙ kept)
  TableOf-note_instruction sc named table (copy (immediate x) o) scoped fresh h settled =
      settled o (member-extend-new o sc (o ∷ []) (rw (eq_refl o)))
      ∙ get-note_copy named o (some (immediate x)) (h o fresh.0)
  TableOf-note_instruction sc named table i scoped fresh h settled = λ id new.
      settled id (member-extend-new id sc (defined_identifiers i) new)
      ∙ h id (fresh_member id sc (defined_identifiers i) fresh new)

  pub immediate_copies_from-TableOf :
      (sc : List Identifier) (named : AssocMap (Operand F)) (is : List (Instruction F A))
      → IsScoped sc is
      → IsWithin sc named
      → All (TableOf (immediate_copies_from named is)) is
  unfolding immediate_copies_from
  immediate_copies_from-TableOf sc named [] s h = tt
  immediate_copies_from-TableOf sc named (i ∷ is) s h = (
    TableOf-note_instruction sc named (immediate_copies_from (note_instruction named i) is) i s.0
        s.2 h
        (λ id new.
          get-immediate_copies_from (extend sc (defined_identifiers i)) (note_instruction named i)
            is id s.3 new),
    immediate_copies_from-TableOf (extend sc (defined_identifiers i)) (note_instruction named i) is
        s.3 (IsWithin-note_instruction sc named i h),
  )

  -- The whole table describes every instruction of a well-scoped stream.
  pub immediate_copies-TableOf :
      (sc : List Identifier) (is : List (Instruction F A))
      → IsScoped sc is
      → All (TableOf (immediate_copies is)) is
  unfolding immediate_copies get
  immediate_copies-TableOf sc is s = immediate_copies_from-TableOf sc [] is s (λ id h. refl)

  -- No argument has an entry.
  pub immediate_copies_argument :
      (sc : List Identifier) (is : List (Instruction F A)) (id : Identifier)
      → IsScoped sc is
      → member id sc ≡ true
      → get (immediate_copies is) id ≡ none
  unfolding immediate_copies get
  immediate_copies_argument sc is id s h = get-immediate_copies_from sc [] is id s h

  pub immediate_copies-HoldsImmediates :
      (is : List (Instruction F A)) → HoldsImmediates (immediate_copies is)
  unfolding immediate_copies get
  immediate_copies-HoldsImmediates is = immediate_copies_from-HoldsImmediates [] is (λ id o h. cc)

  -- The fold's table, in terms of the table of copies and of the returned names.
  pub get-folded_copies :
      (is : List (Instruction F A)) (id : Identifier)
      → get (folded_copies is) id ≡ elim (get (returned_identifiers is) id) [
        | some _ ↦ none
        | none ↦ get (immediate_copies is) id
      ]
  unfolding folded_copies get immediate_copies
  get-folded_copies is id = ground (
    arith,
    get-foldable (returned_identifiers is) [] (immediate_copies is) id
        (immediate_copies_from-HasUniqueKeys [] is tt),
  )
