-- ===== src/Sim/Run/Walking.antt =====
-- The walk over a filtered stream beside the walk over the whole one, for any `keep` of
-- `retain_kept`: where each step agrees, the two walks end alike.
use minocrab.Prelude.{
  ℕ, ◌+◌, String, ◌≡◌, refl, ap, ◌∙◌, Bool, true, false, List, [], ◌∷◌, if◌then◌else◌, Result, ok,
  err, and_then,
}
use minocrab.Prelude.Assoc.{insert_all}
use minocrab.Ir.{Identifier, IrType, Instruction, IrSource}
use minocrab.Ir.Field.{FieldOps}
use minocrab.Passes.Kept.{retain_from, bit}
use minocrab.Sim.Value.{IrValue}
use minocrab.Sim.Backend.{Backend, ProofPreimage}
use minocrab.Sim.Resolve.{Memory, operand}
use minocrab.Sim.Step.{verify, Walk}
use minocrab.Sim.Step.Arms.{eval}
use minocrab.Sim.Run.{
  Sim3Error, State, op_name, count_op, settle, step_one, run_from, finish_run, prepare, simulate,
}
use minocrab.Sim.Run.Same.{Same, SameWalk, and_then-finish-Same}

module _ {F P A S : Type 0} (ops : FieldOps F) (be : Backend F P A) (pre : ProofPreimage F)
    (types : List IrType) (R : S → List (Instruction F A) → Memory F P → Memory F P → Type 0) where
  abbrev pub eval_at :
      Memory F P
      → ℕ
      → Instruction F A
      → Walk F P
      → Result String (List (Identifier × IrValue F P)) × Walk F P
  eval_at m at i w = eval ops be pre verify types (operand m) at i w

  -- One step of the filter beside one step of the whole stream: a kept instruction does the same,
  -- and a dropped one succeeds and changes no transcript; the relation holds again.
  abbrev pub StepAgrees :
      Bool
      → Instruction F A
      → S
      → Instruction F A
      → List (Instruction F A)
      → Memory F P
      → Memory F P
      → Type 0
  StepAgrees true y s' i rest m m' =
      ((at at' : ℕ) (w : Walk F P) → eval_at m' at' y w ≡ eval_at m at i w)
      × ((at : ℕ) (w w' : Walk F P) (binds : List (Identifier × IrValue F P))
          → eval_at m at i w ≡ (ok binds, w')
          → R s' rest (insert_all m binds) (insert_all m' binds))
  StepAgrees false y s' i rest m m' =
      (at : ℕ) (w : Walk F P)
      → (binds : List (Identifier × IrValue F P)) × (eval_at m at i w ≡ (ok binds, w))
        × R s' rest (insert_all m binds) m'

  abbrev counted : Instruction F A → State F P → State F P
  counted i st = record st { op_counts = count_op st.op_counts (op_name i) }

  module _ (i : Instruction F A) (rest out : List (Instruction F A)) (s' : S)
      (ih : (at at' : ℕ) (st st' : State F P)
        → R s' rest st.memory st'.memory
        → st'.walk ≡ st.walk
        → SameWalk
            (run_from ops be pre verify types at' out st')
            (run_from ops be pre verify types at rest st)) where
    after_step :
        (at at' : ℕ) (op op' : String) (st st' : State F P)
        (r : Result String (List (Identifier × IrValue F P)) × Walk F P)
        → ((w' : Walk F P) (binds : List (Identifier × IrValue F P))
            → r ≡ (ok binds, w')
            → R s' rest (insert_all st.memory binds) (insert_all st'.memory binds))
        → SameWalk
            (and_then
              (settle ops be pre verify at' op' st' r)
              (run_from ops be pre verify types (at' + 1) out))
            (and_then
              (settle ops be pre verify at op st r)
              (run_from ops be pre verify types (at + 1) rest))
    unfolding settle
    after_step at at' op op' st st' (ok binds, w) keeps =
        ih (at + 1) (at' + 1) _ _ (keeps w binds refl) refl
    after_step at at' op op' st st' (err e, w) keeps = tt

    one_step :
        (kept : Bool) (y : Instruction F A) (at at' : ℕ) (st st' : State F P)
        → StepAgrees kept y s' i rest st.memory st'.memory
        → st'.walk ≡ st.walk
        → SameWalk
            (run_from ops be pre verify types at' (if kept then y ∷ out else out) st')
            (run_from ops be pre verify types at (i ∷ rest) st)
    unfolding run_from step_one settle
    one_step true y at at' st st' h e =
        let p = ap (λ w. eval_at st'.memory at' y w) e ∙ h.0 at at' st.walk in
        rw p (
          after_step at at' _ _ (counted i st) (counted y st') (eval_at st.memory at i st.walk)
            (λ w'. h.1 at st.walk w'))
    one_step false y at at' st st' h e =
        let (binds, runs, holds) = h at st.walk in rw runs (ih (at + 1) at' _ st' holds e)

  module _ (keep : S → Instruction F A → Bool × Instruction F A × S)
      (agrees : (s : S) (i : Instruction F A) (rest : List (Instruction F A)) (m m' : Memory F P)
        → R s (i ∷ rest) m m'
        → StepAgrees (keep s i).0 (keep s i).1 (keep s i).2 i rest m m') where
    pub run_from-retain_from :
        (s : S) (n at at' : ℕ) (is : List (Instruction F A)) (st st' : State F P)
        → R s is st.memory st'.memory
        → st'.walk ≡ st.walk
        → SameWalk
            (run_from ops be pre verify types at' (retain_from keep s n is).0 st')
            (run_from ops be pre verify types at is st)
    unfolding retain_from run_from
    run_from-retain_from s n at at' [] st st' r e = e
    run_from-retain_from s n at at' (i ∷ rest) st st' r e =
        one_step i rest (retain_from keep (keep s i).2 (n + bit (keep s i).0) rest).0 (keep s i).2
          (λ at at' st st' r e.
            run_from-retain_from (keep s i).2 (n + bit (keep s i).0) at at' rest st st' r e)
          (keep s i).0 (keep s i).1 at at' st st' (agrees s i rest st.memory st'.memory r) e

module _ {F P A : Type 0} (ops : FieldOps F) (be : Backend F P A) (pre : ProofPreimage F) where
  from_prepared :
      (enabled : Bool) (types : List IrType) (is' is : List (Instruction F A))
      (r : Result Sim3Error (State F P))
      → ((st : State F P)
          → r ≡ ok st
          → SameWalk
              (run_from ops be pre verify types 0 is' st)
              (run_from ops be pre verify types 0 is st))
      → Same
          (and_then r λ st.
            and_then
              (run_from ops be pre verify types 0 is' st)
              (finish_run ops be pre verify enabled))
          (and_then r λ st.
            and_then
              (run_from ops be pre verify types 0 is st)
              (finish_run ops be pre verify enabled))
  from_prepared enabled types is' is (ok st) h =
      and_then-finish-Same ops be pre enabled _ _ (h st refl)
  from_prepared enabled types is' is (err e) h = tt

  -- Two streams whose walks end alike from every prepared state are the same circuit.
  pub simulate-Same :
      (ir : IrSource F A) (is' : List (Instruction F A))
      → ((st : State F P)
          → prepare ops be ir pre verify ≡ ok st
          → SameWalk
              (run_from ops be pre verify ir.outputs 0 is' st)
              (run_from ops be pre verify ir.outputs 0 ir.instructions st))
      → Same (simulate ops be (record ir { instructions = is' }) pre) (simulate ops be ir pre)
  unfolding simulate prepare
  simulate-Same ir is' h =
      from_prepared ir.do_communications_commitment ir.outputs is' ir.instructions
        (prepare ops be ir pre verify) h
