-- ===== src/Passes/Fold/Scoped.antt =====
-- The scoping of a folded stream (crates/minocrab-ir/src/v3/passes.rs): what the fold inlines are
-- immediates, and the scope loses the names that it drops.
use minocrab.Prelude.{
  ℕ, ◌+◌, ◌≡◌, refl, sym, ap, ◌∙◌, subst, if◌then◌else◌, Bool, true, false, Bool-cases, inl, inr,
  none, some, Option-cases, List, [], ◌∷◌, map, arith, All, str_eq, eq_iff,
}
use minocrab.Prelude.Assoc.{AssocMap, get}
use minocrab.Ir.{Identifier, Operand, variable, immediate, Instruction, copy, constrain_bits}
use minocrab.Ir.Field.{FieldOps}
use minocrab.Ir.Dataflow.{
  operands, returned, defined_identifiers, map_operands, operands-map_operands,
  returned-map_operands, defined_identifiers-map_operands,
}
use minocrab.Ir.Scope.{member, extend, AreFresh, InScope, IsScoped}
use minocrab.Passes.Kept.{bit, retain_from, retain_kept}
use minocrab.Passes.Kept.Trace.{All-retain_from}
use minocrab.Passes.Dedup.Constraints.{FitsField}
use minocrab.Passes.Fold.{
  subst_operand, survives_fold, fold_keep, fold_with, folded_copies, immediate_copies,
  fold_immediate_copies,
}
use minocrab.Passes.Fold.Tables.{
  HoldsImmediates, immediate_copies-HoldsImmediates, get-folded_copies,
}
use minocrab.Passes.Fold.Agreement.{subst_operand_kept, subst_operand_folded, survives_fold_kept}
use minocrab.Passes.Fold.Returned.{IsKept, returned-IsKept}

module _ {F : Type 0} (folded : AssocMap (Operand F)) where
  -- The second scope lacks only folded names.
  abbrev Narrows : List Identifier → List Identifier → Type 0
  Narrows sc sc' =
      ((id : Identifier) → member id sc ≡ true → get folded id ≡ none → member id sc' ≡ true)
      × ((id : Identifier) → member id sc ≡ false → member id sc' ≡ false)

  Narrows-cons :
      (sc sc' : List Identifier) (x : Identifier) → Narrows sc sc' → Narrows (x ∷ sc) (x ∷ sc')
  Narrows-cons sc sc' x (old, new) =
      (λ id h k. ground (arith, old id), λ id h. ground (arith, new id))

  Narrows-extend :
      (sc sc' xs : List Identifier) → Narrows sc sc' → Narrows (extend sc xs) (extend sc' xs)
  Narrows-extend sc sc' [] h = h
  Narrows-extend sc sc' (x ∷ xs) h = Narrows-extend (x ∷ sc) (x ∷ sc') xs (Narrows-cons sc sc' x h)

  Narrows-drop :
      (sc sc' : List Identifier) (o : Identifier) (v : Operand F)
      → get folded o ≡ some v
      → Narrows sc sc'
      → Narrows (o ∷ sc) sc'
  Narrows-drop sc sc' o v folds (old, new) = (
    λ id h k. elim (Bool-cases (str_eq o id)) [
      | inl same ↦ cc (ap (get folded) ((eq_iff o id).0 same))
      | inr other ↦ old id (ground arith) k
    ],
    λ id h. new id (ground arith),
  )

  AreFresh-Narrows :
      (sc sc' xs : List Identifier) → Narrows sc sc' → AreFresh sc xs → AreFresh sc' xs
  AreFresh-Narrows sc sc' [] h f = tt
  AreFresh-Narrows sc sc' (x ∷ xs) h f =
      (h.1 x f.0, AreFresh-Narrows (x ∷ sc) (x ∷ sc') xs (Narrows-cons sc sc' x h) f.1)

  module _ (imms : HoldsImmediates folded) (sc sc' : List Identifier) (h : Narrows sc sc') where
    InScope-subst_operand : (o : Operand F) → InScope sc o → InScope sc' (subst_operand folded o)
    unfolding subst_operand
    InScope-subst_operand (immediate x) s = tt
    InScope-subst_operand (variable id) s = elim (Option-cases (get folded id)) [
      | inl kept ↦ subst (InScope sc') (sym (subst_operand_kept folded id kept)) (h.0 id s kept)
      | inr (v, e) ↦
          let (x, p) = imms id v e in
          subst (InScope sc') (sym (subst_operand_folded folded id v e ∙ p)) tt
    ]

    All-subst_operand :
        (os : List (Operand F))
        → All (InScope sc) os
        → All (InScope sc') (map (subst_operand folded) os)
    All-subst_operand [] s = tt
    All-subst_operand (o ∷ os) s = (InScope-subst_operand o s.0, All-subst_operand os s.1)

    InScope-IsKept :
        (os : List (Operand F))
        → All (InScope sc) os
        → All (IsKept folded) os
        → All (InScope sc') os
    InScope-IsKept [] s k = tt
    InScope-IsKept (immediate x ∷ os) s k = (tt, InScope-IsKept os s.1 k.1)
    InScope-IsKept (variable id ∷ os) s k = (h.0 id s.0 k.0, InScope-IsKept os s.1 k.1)

  module _ {A : Type 0} (imms : HoldsImmediates folded) where
    IsScoped-kept :
        (sc sc' : List Identifier) (i : Instruction F A) (out : List (Instruction F A))
        → Narrows sc sc'
        → All (InScope sc) (operands i)
        → All (InScope sc) (returned i)
        → AreFresh sc (defined_identifiers i)
        → All (IsKept folded) (returned i)
        → IsScoped (extend sc' (defined_identifiers i)) out
        → IsScoped sc' (map_operands (subst_operand folded) i ∷ out)
    IsScoped-kept sc sc' i out h reads rets fresh kepts rest = (
      rw (operands-map_operands (subst_operand folded) i)
          (All-subst_operand imms sc sc' h (operands i) reads),
      rw (returned-map_operands (subst_operand folded) i)
          (InScope-IsKept imms sc sc' h (returned i) rets kepts),
      rw (defined_identifiers-map_operands (subst_operand folded) i)
          (AreFresh-Narrows sc sc' (defined_identifiers i) h fresh),
      rw (defined_identifiers-map_operands (subst_operand folded) i) rest,
    )

    -- Only a copy of a folded name is dropped.
    survives_fold-false :
        (i : Instruction F A)
        → survives_fold folded i ≡ false
        → (o : Identifier) × (v : Operand F) × (defined_identifiers i ≡ o ∷ [])
          × (get folded o ≡ some v)
    unfolding survives_fold defined_identifiers
    survives_fold-false (copy val o) h = elim (Option-cases (get folded o)) [
      | inl kept ↦ cc (survives_fold_kept F A folded val o kept)
      | inr (v, e) ↦ (o, v, refl, e)
    ]
    survives_fold-false _ h = cc

    IsScoped-if :
        (b : Bool) (sc : List Identifier) (i : Instruction F A) (out : List (Instruction F A))
        → (b ≡ true → IsScoped sc (i ∷ out))
        → (b ≡ false → IsScoped sc out)
        → IsScoped sc (if b then i ∷ out else out)
    IsScoped-if true sc i out stays drops = stays refl
    IsScoped-if false sc i out stays drops = drops refl

    pub fold_keep-IsScoped :
        (sc sc' : List Identifier) (n : ℕ) (is : List (Instruction F A))
        → Narrows sc sc'
        → IsScoped sc is
        → All (λ i. All (IsKept folded) (returned i)) is
        → IsScoped sc' (retain_from (fold_keep folded) tt n is).0
    unfolding retain_from fold_keep
    fold_keep-IsScoped sc sc' n [] h s k = tt
    fold_keep-IsScoped sc sc' n (i ∷ is) h (reads, rets, fresh, rest) (kept, kepts) =
        let n' = n + bit (survives_fold folded i) in
        IsScoped-if (survives_fold folded i) sc' (map_operands (subst_operand folded) i)
          (retain_from (fold_keep folded) tt n' is).0
          (λ stays. IsScoped-kept sc sc' i _ h reads rets fresh kept (
            fold_keep-IsScoped (extend sc (defined_identifiers i))
              (extend sc' (defined_identifiers i)) n' is
              (Narrows-extend sc sc' (defined_identifiers i) h) rest kepts))
          (λ drops.
            let (o, v, defs, folds) = survives_fold-false i drops in
            fold_keep-IsScoped (extend sc (defined_identifiers i)) sc' n' is
              (rw defs (Narrows-drop sc sc' o v folds h)) rest kepts)

module _ {F A : Type 0} where
  folded_copies-HoldsImmediates : (is : List (Instruction F A)) → HoldsImmediates (folded_copies is)
  folded_copies-HoldsImmediates is id o h =
      immediate_copies-HoldsImmediates is id o (ground (arith, get-folded_copies is id))

  fold_with-IsWellScoped :
      (named : AssocMap (Operand F)) (sc : List Identifier) (is : List (Instruction F A))
      → IsScoped sc is
      → IsScoped sc (fold_with named is).0
  unfolding fold_with retain_kept
  fold_with-IsWellScoped [] sc is s = s
  fold_with-IsWellScoped (_ ∷ _) sc is s =
      fold_keep-IsScoped (folded_copies is) (folded_copies-HoldsImmediates is) sc sc 0 is
        (λ id h k. h, λ id h. h) s (returned-IsKept is)

  -- The fold of a well-scoped stream is well scoped.
  pub fold_immediate_copies-IsScoped :
      (sc : List Identifier) (is : List (Instruction F A))
      → IsScoped sc is
      → IsScoped sc (fold_immediate_copies is)
  unfolding fold_immediate_copies
  fold_immediate_copies-IsScoped sc is s = fold_with-IsWellScoped (immediate_copies is) sc is s

  FitsField-map_operands :
      (ops : FieldOps F) (f : Operand F → Operand F) (i : Instruction F A)
      → FitsField ops i
      → FitsField ops (map_operands f i)
  unfolding map_operands
  FitsField-map_operands ops f (constrain_bits a n) h = h
  FitsField-map_operands ops f _ h = tt

  fold_with-FitsField :
      (ops : FieldOps F) (named : AssocMap (Operand F)) (is : List (Instruction F A))
      → All (FitsField ops) is
      → All (FitsField ops) (fold_with named is).0
  unfolding fold_with retain_kept
  fold_with-FitsField ops [] is h = h
  fold_with-FitsField ops (_ ∷ _) is h =
      All-retain_from (fold_keep (folded_copies is)) (FitsField ops)
        (λ s i fits.
          unfold fold_keep in FitsField-map_operands ops (subst_operand (folded_copies is)) i fits)
        tt 0 is h

  pub fold_immediate_copies-FitsField :
      (ops : FieldOps F) (is : List (Instruction F A))
      → All (FitsField ops) is
      → All (FitsField ops) (fold_immediate_copies is)
  unfolding fold_immediate_copies
  fold_immediate_copies-FitsField ops is h = fold_with-FitsField ops (immediate_copies is) is h
