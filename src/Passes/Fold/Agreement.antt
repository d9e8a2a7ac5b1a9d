-- ===== src/Passes/Fold/Agreement.antt =====
-- How operands resolve in the folded stream and in the whole one.
use minocrab.Prelude.{
  ◌≡◌, refl, sym, ap, ◌∙◌, true, false, Bool-cases, inl, inr, none, some, Option-cases, List, [],
  ◌∷◌, arith, str_eq, eq_iff, Result, ok,
}
use minocrab.Prelude.Assoc.{AssocMap, get}
use minocrab.Ir.{Identifier, Operand, variable, immediate, copy}
use minocrab.Ir.Scope.{member, InScope}
use minocrab.Passes.Fold.{subst_operand, survives_fold, folded}
use minocrab.Passes.Fold.Returned.{IsKept}
use minocrab.Sim.Value.{IrValue, native}
use minocrab.Sim.Resolve.{Memory, operand}

module _ {F : Type 0} where
  pub subst_operand_kept :
      (folded : AssocMap (Operand F)) (id : Identifier)
      → get folded id ≡ none
      → subst_operand folded (variable id) ≡ variable id
  unfolding subst_operand
  subst_operand_kept folded id h = ground arith

  pub subst_operand_folded :
      (folded : AssocMap (Operand F)) (id : Identifier) (o : Operand F)
      → get folded id ≡ some o
      → subst_operand folded (variable id) ≡ o
  unfolding subst_operand
  subst_operand_folded folded id o h = ground arith

module _ {F P : Type 0} where
  -- Every entry of the table that is in scope is what the memory holds.
  abbrev pub TableHolds : AssocMap (Operand F) → List Identifier → Memory F P → Type 0
  TableHolds table sc m =
      (id : Identifier) (o : Operand F)
      → get table id ≡ some o
      → member id sc ≡ true
      → (x : F) × (o ≡ immediate x) × (get m id ≡ some (native x))

  -- The two memories agree on every name that is not folded.
  abbrev pub AgreeOutside : AssocMap (Operand F) → Memory F P → Memory F P → Type 0
  AgreeOutside folded m m' = (id : Identifier) → get folded id ≡ none → get m' id ≡ get m id

  pub operand_bound :
      (m : Memory F P) (id : Identifier) (v : IrValue F P)
      → get m id ≡ some v
      → operand m (variable id) ≡ ok v
  unfolding operand
  operand_bound m id v h = rw h

  pub kept_operand-Agrees :
      (folded : AssocMap (Operand F)) (m m' : Memory F P)
      → AgreeOutside folded m m'
      → (o : Operand F) → IsKept folded o
      → operand m' o ≡ operand m o
  unfolding operand
  kept_operand-Agrees folded m m' agree (immediate x) k = refl
  kept_operand-Agrees folded m m' agree (variable id) k = rw (agree id k)

  -- A folded operand resolves as the operand did.
  pub subst_operand-Agrees :
      (table folded : AssocMap (Operand F)) (sc : List Identifier) (m m' : Memory F P)
      → ((id : Identifier) (o : Operand F) → get folded id ≡ some o → get table id ≡ some o)
      → TableHolds table sc m
      → AgreeOutside folded m m'
      → (o : Operand F) → InScope sc o
      → operand m' (subst_operand folded o) ≡ operand m o
  unfolding operand subst_operand
  subst_operand-Agrees table folded sc m m' sub holds agree (immediate x) s = refl
  subst_operand-Agrees table folded sc m m' sub holds agree (variable id) s =
      elim (Option-cases (get folded id)) [
        | inl kept ↦
            ap (operand m') (subst_operand_kept folded id kept)
            ∙ kept_operand-Agrees folded m m' agree (variable id) kept
        | inr (o, folds) ↦
            let (x, e, p) = holds id o (sub id o folds) s in
            ap (operand m') (subst_operand_folded folded id o folds ∙ e)
            ∙ sym (operand_bound m id (native x) p)
      ]

pub only_member : (k id : Identifier) → member id (k ∷ []) ≡ true → k ≡ id
only_member k id h = ground (arith, eq_iff k id)

module _ (F A : Type 0) (folded : AssocMap (Operand F)) where
  pub survives_fold_kept :
      (val : Operand F) (o : Identifier)
      → get folded o ≡ none
      → survives_fold {A = A} folded (copy val o) ≡ true
  unfolding survives_fold
  survives_fold_kept val o h = ground arith

  pub survives_fold-folded :
      (val : Operand F) (o : Identifier) (v : Operand F)
      → get folded o ≡ some v
      → survives_fold {A = A} folded (copy val o) ≡ false
  unfolding survives_fold
  survives_fold-folded val o v h = ground arith

pub other_name :
    {F : Type 0} (folded : AssocMap (Operand F)) (o id : Identifier) (v : Operand F)
    → get folded o ≡ some v
    → get folded id ≡ none
    → str_eq o id ≡ false
other_name folded o id v h k = elim (Bool-cases (str_eq o id)) [
  | inl same ↦ cc (ap (get folded) ((eq_iff o id).0 same))
  | inr other ↦ other
]

pub bound_values :
    {E B W : Type 0} {b b' : B} {w w' : W} → ◌≡◌ {A = Result E B × W} (ok b, w) (ok b', w') → b ≡ b'
bound_values e = cc
