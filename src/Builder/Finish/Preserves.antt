-- ===== src/Builder/Finish/Preserves.antt =====
-- `Builder3::finish` (crates/minocrab-ir/src/v3.rs): the circuit that it ships against the one built.
use minocrab.Prelude.{ℕ, ◌≡◌, refl, Bool, true, false, List, [], ◌∷◌, length, All, ==_iff, ok}
use minocrab.Prelude.Assoc.{AssocMap}
use minocrab.Ir.{Operand, Instruction, IrSource}
use minocrab.Ir.Field.{FieldOps, FieldLaws}
use minocrab.Ir.Scope.{IsWellScoped, extend, input_names}
use minocrab.Passes.Kept.{Kept}
use minocrab.Passes.Kept.Compose.{
  Covers, compose-Covers, input_len-Covers, output_len-Covers, identity-Covers, retain_kept-Covers,
}
use minocrab.Passes.Fold.{
  fold_keep, fold_with, folded, folded_copies, immediate_copies, fold_immediate_copies,
  fold_immediate_copies_kept,
}
use minocrab.Passes.Fold.Preserves.{simulate-folded}
use minocrab.Passes.Fold.Scoped.{fold_immediate_copies-IsScoped, fold_immediate_copies-FitsField}
use minocrab.Passes.Asserts.{assert_keep, drop_true_asserts, drop_true_asserts_kept}
use minocrab.Passes.Asserts.Preserves.{simulate-drop_true_asserts}
use minocrab.Passes.Asserts.Scoped.{drop_true_asserts-IsScoped, drop_true_asserts-FitsField}
use minocrab.Passes.Dedup.{dedup_keep, dedup_range_constraints, dedup_range_constraints_kept}
use minocrab.Passes.Dedup.Constraints.{FitsField}
use minocrab.Passes.Dedup.Preserves.{simulate-dedup_range_constraints}
use minocrab.Sim.Backend.{Backend, ProofPreimage}
use minocrab.Sim.Run.{simulate}
use minocrab.Sim.Run.Same.{Same, Same-trans}
use minocrab.Builder.State.{Builder3}
use minocrab.Builder.Finish.{signature, dedup_stage, finish_kept, finish}

module _ {F A : Type 0} where
  -- The circuit as it was built, with no pass run over it.
  unfoldable pub built : Builder3 F A → Bool → IrSource F A
  unfolding signature
  built b communications_commitment = record {
    inputs = b.inputs;
    outputs = signature b.outputs;
    do_communications_commitment = communications_commitment;
    instructions = b.instructions;
  }

  fold_with-Covers :
      (named : AssocMap (Operand F)) (is : List (Instruction F A))
      → Covers (fold_with named is).1 (length is) (length (fold_with named is).0)
  unfolding fold_with
  fold_with-Covers [] is = identity-Covers (length is)
  fold_with-Covers (_ ∷ _) is = retain_kept-Covers (fold_keep (folded_copies is)) tt is

  module _ (ops : FieldOps F) where
    -- The three passes, in their order.
    abbrev pub optimised : Bool → List (Instruction F A) → List (Instruction F A)
    optimised true is = dedup_range_constraints (drop_true_asserts ops (fold_immediate_copies is))
    optimised false is = drop_true_asserts ops (fold_immediate_copies is)

    dedup_stage-Covers :
        (on : Bool) (n : ℕ) (is : List (Instruction F A)) (k : Kept)
        → Covers k n (length (drop_true_asserts ops (fold_immediate_copies is)))
        → (j : Kept) × (dedup_stage ops on (drop_true_asserts ops (fold_immediate_copies is)) k
            ≡ ok (optimised on is, j))
          × Covers j n (length (optimised on is))
    unfolding dedup_stage dedup_range_constraints dedup_range_constraints_kept
    dedup_stage-Covers false n is k c = (k, refl, c)
    dedup_stage-Covers true n is k c =
        let stream = drop_true_asserts ops (fold_immediate_copies is) in
        let (j, e, d, _) =
          compose-Covers k (dedup_range_constraints_kept stream).1 n _ _ c
            (retain_kept-Covers dedup_keep [] stream) in
        (j, rw e refl, d)

    -- `finish_kept` returns for every builder: the three streams' maps compose, the two assertions
    -- hold, and the map covers the built stream and the one that ships.
    pub finish_kept-Covers :
        (b : Builder3 F A) (communications_commitment : Bool)
        → (kept : Kept) × (finish_kept ops b communications_commitment
            ≡ ok (
              record (built b communications_commitment) {
                instructions = optimised b.dedup_constraints b.instructions;
              },
              kept,
            ))
          × Covers kept
              (length b.instructions)
              (length (optimised b.dedup_constraints b.instructions))
    unfolding finish_kept built drop_true_asserts drop_true_asserts_kept fold_immediate_copies
        fold_immediate_copies_kept
    finish_kept-Covers b communications_commitment =
        let is = b.instructions in
        let (k, e, c, _) =
          compose-Covers (fold_with (immediate_copies is) is).1
            (drop_true_asserts_kept ops (fold_immediate_copies is)).1 (length is) _ _
            (fold_with-Covers (immediate_copies is) is)
            (retain_kept-Covers (assert_keep ops) tt (fold_immediate_copies is)) in
        let (j, f, d) = dedup_stage-Covers b.dedup_constraints (length is) is k c in
        (
          j,
          rw
              (
                e,
                f,
                input_len-Covers j _ _ d,
                output_len-Covers j _ _ d,
                (==_iff (length is) (length is)).1 refl,
                (==_iff (length (optimised b.dedup_constraints is))
                      (length (optimised b.dedup_constraints is))).1
                    refl,
              )
              refl,
          d,
        )

module _ {F P A : Type 0} (ops : FieldOps F) (laws : FieldLaws ops) (be : Backend F P A)
    (pre : ProofPreimage F) where
  asserted-Same :
      (ir : IrSource F A)
      → IsWellScoped ir
      → Same
          (simulate ops be (record ir { instructions = optimised ops false ir.instructions }) pre)
          (simulate ops be ir pre)
  unfolding folded
  asserted-Same ir scoped =
      Same-trans _ _ _ (simulate-drop_true_asserts ops laws be pre (folded ir))
        (simulate-folded ops be pre ir scoped)

  optimised-Same :
      (on : Bool) (ir : IrSource F A)
      → IsWellScoped ir
      → All (FitsField ops) ir.instructions
      → Same
          (simulate ops be (record ir { instructions = optimised ops on ir.instructions }) pre)
          (simulate ops be ir pre)
  optimised-Same false ir scoped fits = asserted-Same ir scoped
  optimised-Same true ir scoped fits =
      let sc = extend [] (input_names ir.inputs) in
      let is = fold_immediate_copies ir.instructions in
      Same-trans _ _ _
        (simulate-dedup_range_constraints ops laws be pre
          (record ir { instructions = drop_true_asserts ops is })
          (drop_true_asserts-IsScoped ops sc is
            (fold_immediate_copies-IsScoped sc ir.instructions scoped))
          (drop_true_asserts-FitsField ops is
            (fold_immediate_copies-FitsField ops ir.instructions fits)))
        (asserted-Same ir scoped)

  -- Where the built stream is well scoped and its bit bounds are below the field's width, `finish`
  -- returns a circuit, and the interpreter takes it and the built one for the same, with the
  -- deduplication on or off.
  pub simulate-finish :
      (b : Builder3 F A) (communications_commitment : Bool)
      → IsWellScoped (built b communications_commitment)
      → All (FitsField ops) b.instructions
      → (ir : IrSource F A) × (finish ops b communications_commitment ≡ ok ir)
        × Same (simulate ops be ir pre) (simulate ops be (built b communications_commitment) pre)
  unfolding finish built
  simulate-finish b communications_commitment scoped fits =
      let (kept, e, _) = finish_kept-Covers ops b communications_commitment in
      (
        record (built b communications_commitment) {
          instructions = optimised ops b.dedup_constraints b.instructions;
        },
        rw e refl,
        optimised-Same b.dedup_constraints (built b communications_commitment) scoped fits,
      )
