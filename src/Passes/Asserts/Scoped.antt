-- ===== src/Passes/Asserts/Scoped.antt =====
-- The scoping of a stream without its constant-true asserts
-- (crates/minocrab-ir/src/v3/passes.rs).
use minocrab.Prelude.{ℕ, ◌≡◌, refl, subst, Bool, true, false, List, [], ◌∷◌, All, if◌then◌else◌}
use minocrab.Ir.{Identifier, Instruction, assert}
use minocrab.Ir.Field.{FieldOps}
use minocrab.Ir.Dataflow.{defined_identifiers}
use minocrab.Ir.Scope.{IsScoped, extend}
use minocrab.Passes.Kept.{retain_from, retain_kept}
use minocrab.Passes.Kept.Trace.{All-retain_from}
use minocrab.Passes.Dedup.Constraints.{FitsField}
use minocrab.Passes.Asserts.{is_true_assert, assert_keep, drop_true_asserts}

module _ {F A : Type 0} (ops : FieldOps F) where
  is_true_assert-binds :
      (i : Instruction F A) → is_true_assert ops i ≡ true → defined_identifiers i ≡ []
  unfolding is_true_assert defined_identifiers
  is_true_assert-binds (assert a) h = refl
  is_true_assert-binds _ h = cc

  IsScoped-unless :
      (b : Bool) (sc : List Identifier) (i : Instruction F A) (out : List (Instruction F A))
      → is_true_assert ops i ≡ b
      → IsScoped sc (i ∷ [])
      → IsScoped (extend sc (defined_identifiers i)) out
      → IsScoped sc (if (elim b [ true ↦ false | false ↦ true ]) then i ∷ out else out)
  IsScoped-unless true sc i out h head rest =
      subst (λ ids. IsScoped (extend sc ids) out) (is_true_assert-binds i h) rest
  IsScoped-unless false sc i out h (reads, rets, fresh, _) rest = (reads, rets, fresh, rest)

  assert_keep-IsScoped :
      (sc : List Identifier) (n : ℕ) (is : List (Instruction F A))
      → IsScoped sc is
      → IsScoped sc (retain_from (assert_keep ops) tt n is).0
  unfolding retain_from assert_keep
  assert_keep-IsScoped sc n [] s = tt
  assert_keep-IsScoped sc n (i ∷ is) (reads, rets, fresh, rest) =
      IsScoped-unless (is_true_assert ops i) sc i _ refl (reads, rets, fresh, tt)
        (assert_keep-IsScoped (extend sc (defined_identifiers i)) _ is rest)

  -- A stream without its constant-true asserts is well scoped when the stream is.
  pub drop_true_asserts-IsScoped :
      (sc : List Identifier) (is : List (Instruction F A))
      → IsScoped sc is
      → IsScoped sc (drop_true_asserts ops is)
  unfolding drop_true_asserts retain_kept
  drop_true_asserts-IsScoped sc is s = assert_keep-IsScoped sc 0 is s

  pub drop_true_asserts-FitsField :
      (is : List (Instruction F A))
      → All (FitsField ops) is
      → All (FitsField ops) (drop_true_asserts ops is)
  unfolding drop_true_asserts retain_kept
  drop_true_asserts-FitsField is h =
      All-retain_from (assert_keep ops) (FitsField ops) (λ s i fits. unfold assert_keep in fits) tt
        0 is h
