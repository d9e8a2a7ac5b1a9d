-- ===== src/Builder/Finish.antt =====
-- `Builder3::finish_kept` and `Builder3::finish` of crates/minocrab-ir/src/v3.rs, as compiled without
-- debug assertions: fold, drop the constant-true asserts, and, where it is switched on, deduplicate.
pub mod Preserves
use minocrab.Prelude.{
  ℕ, String, Bool, true, false, Option, none, some, List, [], length, ◌==◌, Result, ok, err,
  and_then, check,
}
use minocrab.Ir.{IrType, Instruction, IrSource}
use minocrab.Ir.Field.{FieldOps}
use minocrab.Passes.Kept.{Kept, input_len, output_len, compose}
use minocrab.Passes.Fold.{fold_immediate_copies_kept}
use minocrab.Passes.Asserts.{drop_true_asserts_kept}
use minocrab.Passes.Dedup.{dedup_range_constraints_kept}
use minocrab.Builder.State.{Builder3}

-- `unwrap_or_default()`
unfoldable pub signature : Option (List IrType) → List IrType
signature none = []
signature (some types) = types

module _ {F A : Type 0} (ops : FieldOps F) where
  -- The last pass, with the map so far.
  unfoldable pub dedup_stage :
      Bool → List (Instruction F A) → Kept → Result String (List (Instruction F A) × Kept)
  dedup_stage false instructions kept = ok (instructions, kept)
  dedup_stage true instructions kept =
      let (deduplicated, deduped) = dedup_range_constraints_kept instructions in
      and_then (compose kept deduped) λ all. ok (deduplicated, all)

  unfoldable pub finish_kept : Builder3 F A → Bool → Result String (IrSource F A × Kept)
  unfolding dedup_stage signature
  finish_kept b communications_commitment =
      let (folded, kept) = fold_immediate_copies_kept b.instructions in
      let (asserted, dropped) = drop_true_asserts_kept ops folded in
      and_then (compose kept dropped) λ composed.
        and_then (dedup_stage b.dedup_constraints asserted composed) λ (instructions, all).
          and_then
            (check (input_len all == length b.instructions)
              "finish_kept: the map must start at the built stream")
            λ _. and_then (output_len all) λ out.
              and_then (check (out == length instructions) "finish_kept: compose every pass's map")
                λ _. ok (
                  record {
                    inputs = b.inputs;
                    outputs = signature b.outputs;
                    do_communications_commitment = communications_commitment;
                    instructions = instructions;
                  },
                  all,
                )

  unfoldable pub finish : Builder3 F A → Bool → Result String (IrSource F A)
  unfolding finish_kept
  finish b communications_commitment =
      and_then (finish_kept b communications_commitment) λ (ir, kept). ok ir
