-- ===== src/Passes/Fold/Preserves.antt =====
-- `fold_immediate_copies` (crates/minocrab-ir/src/v3/passes.rs) against the interpreter.
use minocrab.Prelude.{
  ℕ, ◌≡◌, refl, sym, ap, ◌∙◌, true, false, inl, inr, some, Option-cases, List, [], ◌∷◌, All,
  All-map, arith, ok,
}
use minocrab.Prelude.Assoc.{AssocMap, get, insert_all, get-insert_self, get-insert_ne}
use minocrab.Ir.{Identifier, IrType, Operand, variable, immediate, Instruction, copy, IrSource}
use minocrab.Ir.Dataflow.{operands, returned, defined_identifiers, map_operands}
use minocrab.Ir.Field.{FieldOps}
use minocrab.Ir.Scope.{
  member, extend, AreFresh, IsScoped, InScope, IsWellScoped, input_names, member-extend,
  member_fresh, get-insert_all_ne, get-insert_all_cong,
}
use minocrab.Passes.Fold.{
  copied_value, immediate_copies, folded_copies, subst_operand, survives_fold, fold_keep, fold_with,
  folded, fold_immediate_copies,
}
use minocrab.Passes.Fold.Tables.{
  TableOf, HoldsImmediates, immediate_copies-TableOf, immediate_copies_argument,
  immediate_copies-HoldsImmediates, get-folded_copies,
}
use minocrab.Passes.Fold.Returned.{IsKept, returned-IsKept}
use minocrab.Sim.Value.{IrValue, native}
use minocrab.Sim.Backend.{Backend, ProofPreimage}
use minocrab.Sim.Resolve.{Memory, operand}
use minocrab.Sim.Step.{Walk, verify}
use minocrab.Sim.Step.Arms.{eval}
use minocrab.Sim.Step.Binds.{names-eval}
use minocrab.Sim.Step.Congruence.{eval_at_any_index, eval-map_operands}
use minocrab.Sim.Run.{simulate}
use minocrab.Sim.Run.Same.{Same, Same-refl}
use minocrab.Sim.Run.Walking.{StepAgrees, run_from-retain_from, simulate-Same}
use minocrab.Passes.Fold.Agreement.{
  TableHolds, AgreeOutside, kept_operand-Agrees, subst_operand-Agrees, survives_fold_kept,
  survives_fold-folded, only_member, other_name, bound_values,
}

module _ {F P A : Type 0} (ops : FieldOps F) (be : Backend F P A) (pre : ProofPreimage F)
    (types : List IrType) (table folded : AssocMap (Operand F))
    (sub : (id : Identifier) (o : Operand F) → get folded id ≡ some o → get table id ≡ some o) where
  abbrev Related : Unit {0} → List (Instruction F A) → Memory F P → Memory F P → Type 0
  Related s is m m' =
      AgreeOutside folded m m'
      × (sc : List Identifier) × IsScoped sc is
      × All (TableOf table) is
      × All (λ i. All (IsKept folded) (returned i)) is
      × TableHolds table sc m

  -- The value that a copy in the table binds is the one that the table has.
  copied_value_holds :
      (sc : List Identifier) (m : Memory F P) (val o : Operand F)
      → HoldsImmediates table
      → TableHolds table sc m
      → InScope sc val
      → copied_value table val ≡ some o
      → (x : F) × (o ≡ immediate x) × (operand m val ≡ ok (native x))
  unfolding copied_value operand
  copied_value_holds sc m (immediate x) o imms holds s e = (x, cc, refl)
  copied_value_holds sc m (variable id) o imms holds s e =
      let (x, q, p) = holds id o e s in (x, q, rw p)

  -- A copy binds the value that it reads.
  copy_binds :
      (m : Memory F P) (val : Operand F) (o : Identifier) (v : IrValue F P) (at : ℕ) (w : Walk F P)
      → operand m val ≡ ok v
      → eval ops be pre verify types (operand m) at (copy val o) w ≡ (ok ((o, v) ∷ []), w)
  unfolding eval
  copy_binds m val o v at w h = rw h

  module _ (imms : HoldsImmediates table) where
    -- The entry of a name that the instruction has just bound.
    new_entry :
        (sc : List Identifier) (m : Memory F P) (i : Instruction F A) (at : ℕ) (w w' : Walk F P)
        (binds : List (Identifier × IrValue F P)) (id : Identifier) (o : Operand F)
        → All (InScope sc) (operands i)
        → TableOf table i
        → TableHolds table sc m
        → eval ops be pre verify types (operand m) at i w ≡ (ok binds, w')
        → get table id ≡ some o
        → member id (defined_identifiers i) ≡ true
        → (x : F) × (o ≡ immediate x) × (get (insert_all m binds) id ≡ some (native x))
    unfolding operands defined_identifiers
    new_entry sc m (copy val k) at w w' binds id o s t holds runs e new =
        let same : k ≡ id = only_member k id new in
        let (x, q, p) =
          copied_value_holds sc m val o imms holds s.0 (sym t ∙ ap (get table) same ∙ e) in
        let bound = bound_values (sym (copy_binds m val k (native x) at w p) ∙ runs) in
        (x, q, rw (← bound, ← same) (get-insert_self m k (native x)))
    new_entry sc m i at w w' binds id o s t holds runs e new = cc (t id new)

    TableHolds-insert_all :
        (sc : List Identifier) (m : Memory F P) (i : Instruction F A) (at : ℕ) (w w' : Walk F P)
        (binds : List (Identifier × IrValue F P))
        → All (InScope sc) (operands i)
        → AreFresh sc (defined_identifiers i)
        → TableOf table i
        → TableHolds table sc m
        → eval ops be pre verify types (operand m) at i w ≡ (ok binds, w')
        → TableHolds table (extend sc (defined_identifiers i)) (insert_all m binds)
    TableHolds-insert_all sc m i at w w' binds s f t holds runs id o e new =
        elim (member-extend id sc (defined_identifiers i) new) [
          | inl old ↦
              let (x, q, p) = holds id o e old in
              (
                x,
                q,
                get-insert_all_ne m binds id (
                      ap (member id)
                        (names-eval ops be pre verify types (operand m) at i w w' binds runs)
                      ∙ member_fresh id sc (defined_identifiers i) f old)
                    ∙ p,
              )
          | inr fresh ↦ new_entry sc m i at w w' binds id o s t holds runs e fresh
        ]

    kept_agrees :
        (i : Instruction F A) (rest : List (Instruction F A)) (m m' : Memory F P)
        → Related tt (i ∷ rest) m m'
        → StepAgrees ops be pre types Related true
            (map_operands (subst_operand folded) i)
            tt
            i
            rest
            m
            m'
    kept_agrees i rest m m' (agree, sc, scoped, tables, kepts, holds) = (
      λ at at' w.
          ap (λ g. g w)
            (eval-map_operands ops be pre types (operand m) (operand m') (subst_operand folded) at'
                i
                (All-map (subst_operand-Agrees table folded sc m m' sub holds agree) (operands i)
                  scoped.0)
                (All-map (kept_operand-Agrees folded m m' agree) (returned i) kepts.0)
              ∙ eval_at_any_index ops be pre types (operand m) at at' i),
      λ at w w' binds runs. (
        λ id out. get-insert_all_cong m m' binds id (agree id out),
        extend sc (defined_identifiers i),
        scoped.3,
        tables.1,
        kepts.1,
        TableHolds-insert_all sc m i at w w' binds scoped.0 scoped.2 tables.0 holds runs,
      ),
    )

    dropped_agrees :
        (val : Operand F) (o : Identifier) (v : Operand F) (rest : List (Instruction F A))
        (m m' : Memory F P)
        → get folded o ≡ some v
        → Related tt (copy val o ∷ rest) m m'
        → StepAgrees ops be pre types Related false (copy val o) tt (copy val o) rest m m'
    unfolding operands defined_identifiers
    dropped_agrees val o v rest m m' folds (agree, sc, scoped, tables, kepts, holds) = λ at w.
        let (x, q, p) =
          copied_value_holds sc m val v imms holds scoped.0.0 (sym tables.0 ∙ sub o v folds) in
        let runs = copy_binds m val o (native x) at w p in
        (
          (o, native x) ∷ [],
          runs,
          (
            λ id out.
                agree id out
                ∙ sym (get-insert_ne m o id (native x) (other_name folded o id v folds out)),
            extend sc (o ∷ []),
            scoped.3,
            tables.1,
            kepts.1,
            TableHolds-insert_all sc m (copy val o) at w w ((o, native x) ∷ []) scoped.0 scoped.2
                tables.0 holds runs,
          ),
        )

    step_agrees :
        (i : Instruction F A) (rest : List (Instruction F A)) (m m' : Memory F P)
        → Related tt (i ∷ rest) m m'
        → StepAgrees ops be pre types Related
            (survives_fold folded i)
            (map_operands (subst_operand folded) i)
            tt
            i
            rest
            m
            m'
    unfolding survives_fold
    step_agrees (copy val o) rest m m' r = elim (Option-cases (get folded o)) [
      | inl kept ↦
          rw (survives_fold_kept F A folded val o kept) (kept_agrees (copy val o) rest m m' r)
      | inr (v, folds) ↦
          rw (survives_fold-folded F A folded val o v folds)
            (dropped_agrees val o v rest m m' folds r)
    ]
    step_agrees i rest m m' r = kept_agrees i rest m m' r

module _ {F P A : Type 0} (ops : FieldOps F) (be : Backend F P A) (pre : ProofPreimage F) where
  folded_of_table :
      (is : List (Instruction F A)) (id : Identifier) (o : Operand F)
      → get (folded_copies is) id ≡ some o
      → get (immediate_copies is) id ≡ some o
  folded_of_table is id o h = ground (arith, get-folded_copies is id)

  fold_with-Same :
      (ir : IrSource F A) (named : AssocMap (Operand F))
      → IsWellScoped ir
      → Same
          (simulate ops be (record ir { instructions = (fold_with named ir.instructions).0 }) pre)
          (simulate ops be ir pre)
  unfolding fold_with fold_keep
  fold_with-Same ir [] scoped = Same-refl _
  fold_with-Same ir (_ ∷ _) scoped =
      let is = ir.instructions in
      let table = immediate_copies is in
      let folded = folded_copies is in
      let sub = folded_of_table is in
      simulate-Same ops be pre ir _ λ st ready.
        run_from-retain_from ops be pre ir.outputs
          (Related {P = P} ops be pre ir.outputs table folded sub) (fold_keep folded)
          (λ s i rest m m' r.
            step_agrees ops be pre ir.outputs table folded sub (immediate_copies-HoldsImmediates is)
              i rest m m' r)
          tt 0 0 0 is st st
          (
            λ id out. refl,
            extend [] (input_names ir.inputs),
            scoped,
            immediate_copies-TableOf (extend [] (input_names ir.inputs)) is scoped,
            returned-IsKept is,
            λ id o e old.
                cc (immediate_copies_argument (extend [] (input_names ir.inputs)) is id scoped old),
          )
          refl

  -- The interpreter takes `fold_immediate_copies` of a well-scoped stream and the stream for the same
  -- circuit.
  pub simulate-folded :
      (ir : IrSource F A)
      → IsWellScoped ir
      → Same (simulate ops be (folded ir) pre) (simulate ops be ir pre)
  unfolding folded fold_immediate_copies
  simulate-folded ir scoped = fold_with-Same ir (immediate_copies ir.instructions) scoped
