-- ===== src/Sim/Run/Same.antt =====
-- When two runs are the same to everybody outside: both are rejected, or both are accepted with the
-- same public inputs, skips, outputs, transcript and consumption. The memory, the instruction
-- counts and the index in an error are internal to the stream that ran.
use minocrab.Prelude.{Bool, ◌≡◌, refl, subst, ◌∙◌, Result, ok, err, and_then, check, true, false}
use minocrab.Ir.Field.{FieldOps}
use minocrab.Sim.Backend.{Backend, ProofPreimage}
use minocrab.Sim.Step.{verify}
use minocrab.Sim.Run.{Sim3Error, State, Run, finish_run}

pub record SameRun {F P : Type 0} (a b : Run F P) : Type 0 where
  pub pis : a.pis ≡ b.pis
  pub pi_skips : a.pi_skips ≡ b.pi_skips
  pub binding_input : a.binding_input ≡ b.binding_input
  pub comm_comm : a.comm_comm ≡ b.comm_comm
  pub outputs : a.outputs ≡ b.outputs
  pub consumed_private : a.consumed_private ≡ b.consumed_private
  pub consumed_public : a.consumed_public ≡ b.consumed_public
  pub public_transcript_inputs : a.public_transcript_inputs ≡ b.public_transcript_inputs

abbrev pub Same : {F P : Type 0} → Result Sim3Error (Run F P) → Result Sim3Error (Run F P) → Type 0
Same (ok a) (ok b) = SameRun a b
Same (err _) (err _) = Unit
Same (ok _) (err _) = ⊥
Same (err _) (ok _) = ⊥

pub Same-trans :
    {F P : Type 0} (a b c : Result Sim3Error (Run F P)) → Same a b → Same b c → Same a c
Same-trans (ok a) (ok b) (ok c) p q = record {
  pis = p.pis ∙ q.pis;
  pi_skips = p.pi_skips ∙ q.pi_skips;
  binding_input = p.binding_input ∙ q.binding_input;
  comm_comm = p.comm_comm ∙ q.comm_comm;
  outputs = p.outputs ∙ q.outputs;
  consumed_private = p.consumed_private ∙ q.consumed_private;
  consumed_public = p.consumed_public ∙ q.consumed_public;
  public_transcript_inputs = p.public_transcript_inputs ∙ q.public_transcript_inputs;
}
Same-trans (ok a) (ok b) (err c) p q = absurd q
Same-trans (ok a) (err b) c p q = absurd p
Same-trans (err a) (ok b) c p q = absurd p
Same-trans (err a) (err b) (ok c) p q = absurd q
Same-trans (err a) (err b) (err c) p q = tt

pub Same-refl : {F P : Type 0} (a : Result Sim3Error (Run F P)) → Same a a
Same-refl (ok a) = record {
  pis = refl;
  pi_skips = refl;
  binding_input = refl;
  comm_comm = refl;
  outputs = refl;
  consumed_private = refl;
  consumed_public = refl;
  public_transcript_inputs = refl;
}
Same-refl (err a) = tt

-- After the walk only the transcript state matters.
abbrev pub SameWalk :
    {F P : Type 0} → Result Sim3Error (State F P) → Result Sim3Error (State F P) → Type 0
SameWalk (ok a) (ok b) = a.walk ≡ b.walk
SameWalk (err _) (err _) = Unit
SameWalk (ok _) (err _) = ⊥
SameWalk (err _) (ok _) = ⊥

module _ {F P A : Type 0} (ops : FieldOps F) (be : Backend F P A) (pre : ProofPreimage F) where
  guarded-Same :
      (c : Bool) (e : Sim3Error) (r : Result Sim3Error (Unit {0})) (x y : Run F P)
      → SameRun x y
      → Same
          (and_then (check c e) (λ _. and_then r (λ _. ok x)))
          (and_then (check c e) (λ _. and_then r (λ _. ok y)))
  guarded-Same true e (ok _) x y h = h
  guarded-Same true e (err _) x y h = tt
  guarded-Same false e r x y h = tt

  finish_run-Same :
      (enabled : Bool) (a b : State F P)
      → a.walk ≡ b.walk
      → Same (finish_run ops be pre verify enabled a) (finish_run ops be pre verify enabled b)
  unfolding finish_run
  finish_run-Same enabled a b e =
      subst
        (λ w.
          Same (finish_run ops be pre verify enabled a)
            (finish_run ops be pre verify enabled (record b { walk = w })))
        e
        (guarded-Same _ _ _ _ _ (record {
          pis = refl;
          pi_skips = refl;
          binding_input = refl;
          comm_comm = refl;
          outputs = refl;
          consumed_private = refl;
          consumed_public = refl;
          public_transcript_inputs = refl;
        }))

  pub and_then-finish-Same :
      (enabled : Bool) (a b : Result Sim3Error (State F P))
      → SameWalk a b
      → Same
          (and_then a (finish_run ops be pre verify enabled))
          (and_then b (finish_run ops be pre verify enabled))
  and_then-finish-Same enabled (ok a) (ok b) h = finish_run-Same enabled a b h
  and_then-finish-Same enabled (ok a) (err b) h = absurd h
  and_then-finish-Same enabled (err a) (ok b) h = absurd h
  and_then-finish-Same enabled (err a) (err b) h = tt
