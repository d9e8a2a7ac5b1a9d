-- ===== src/Passes/Dedup/Scoped.antt =====
-- The scoping of a stream without its implied range constraints
-- (crates/minocrab-ir/src/v3/passes.rs).
use minocrab.Prelude.{
  ℕ, ◌≡◌, refl, subst, Bool, true, false, List, [], ◌∷◌, All, Option, none, some, if◌then◌else◌,
}
use minocrab.Prelude.Assoc.{AssocMap}
use minocrab.Ir.{Identifier, Instruction, constrain_bits, constrain_to_boolean}
use minocrab.Ir.Field.{FieldOps}
use minocrab.Ir.Dataflow.{defined_identifiers}
use minocrab.Ir.Scope.{IsScoped, extend}
use minocrab.Passes.Kept.{retain_from, retain_kept}
use minocrab.Passes.Kept.Trace.{All-retain_from}
use minocrab.Passes.Dedup.{
  established, decide_bound, dedup_keep, dedup_range_constraints, dedup_range_constraints_kept,
}
use minocrab.Passes.Dedup.Constraints.{FitsField}

module _ {F A : Type 0} where
  established-binds :
      (i : Instruction F A) (e : Identifier × ℕ)
      → established i ≡ some e
      → defined_identifiers i ≡ []
  unfolding established defined_identifiers
  established-binds (constrain_bits a n) e h = refl
  established-binds (constrain_to_boolean a) e h = refl
  established-binds _ e h = cc

  -- Only a range constraint is dropped.
  dropped-binds :
      (bound : AssocMap ℕ) (i : Instruction F A) (c : Option (Identifier × ℕ))
      → established i ≡ c
      → (decide_bound bound c).0 ≡ false
      → defined_identifiers i ≡ []
  unfolding decide_bound
  dropped-binds bound i none h d = cc
  dropped-binds bound i (some e) h d = established-binds i e h

  IsScoped-unless_bound :
      (b : Bool) (sc : List Identifier) (i : Instruction F A) (out : List (Instruction F A))
      → (b ≡ false → defined_identifiers i ≡ [])
      → IsScoped sc (i ∷ [])
      → IsScoped (extend sc (defined_identifiers i)) out
      → IsScoped sc (if b then i ∷ out else out)
  IsScoped-unless_bound true sc i out h (reads, rets, fresh, _) rest = (reads, rets, fresh, rest)
  IsScoped-unless_bound false sc i out h head rest =
      subst (λ ids. IsScoped (extend sc ids) out) (h refl) rest

  dedup_keep-IsScoped :
      (sc : List Identifier) (bound : AssocMap ℕ) (n : ℕ) (is : List (Instruction F A))
      → IsScoped sc is
      → IsScoped sc (retain_from dedup_keep bound n is).0
  unfolding retain_from dedup_keep
  dedup_keep-IsScoped sc bound n [] s = tt
  dedup_keep-IsScoped sc bound n (i ∷ is) (reads, rets, fresh, rest) =
      IsScoped-unless_bound (decide_bound bound (established i)).0 sc i _
        (dropped-binds bound i (established i) refl) (reads, rets, fresh, tt)
        (dedup_keep-IsScoped (extend sc (defined_identifiers i)) _ _ is rest)

  pub dedup_range_constraints-IsScoped :
      (sc : List Identifier) (is : List (Instruction F A))
      → IsScoped sc is
      → IsScoped sc (dedup_range_constraints is)
  unfolding dedup_range_constraints dedup_range_constraints_kept retain_kept
  dedup_range_constraints-IsScoped sc is s = dedup_keep-IsScoped sc [] 0 is s

  pub dedup_range_constraints-FitsField :
      (ops : FieldOps F) (is : List (Instruction F A))
      → All (FitsField ops) is
      → All (FitsField ops) (dedup_range_constraints is)
  unfolding dedup_range_constraints dedup_range_constraints_kept retain_kept
  dedup_range_constraints-FitsField ops is h =
      All-retain_from dedup_keep (FitsField ops) (λ s i fits. unfold dedup_keep in fits) [] 0 is h
