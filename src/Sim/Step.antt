-- ===== src/Sim/Step.antt =====
-- One instruction of the interpreter's walk (`simulate_with` of crates/minocrab-sim/src/v3.rs):
-- each arm resolves its operands, changes the transcript state, and gives the bindings that it
-- inserts into the memory, which every arm does last.
pub mod Pieces
pub mod Ops
pub mod Arms
pub mod Congruence
pub mod Binds
use minocrab.Prelude.{
  ℕ, zero, suc, ◌+◌, String, Bool, true, false, ◌&&◌, Option, none, some, List, [], ◌∷◌, ◌++◌,
  length, get_elem?, replicate, ltb, if◌then◌else◌, Result, ok, err, check,
}
use minocrab.Ir.{Operand, IrType}
use minocrab.Ir.Field.{FieldOps}
use minocrab.Sim.Value.{IrValue, ir_type_of, default_ir_value, type_eq}
use minocrab.Sim.Backend.{Backend, ProofPreimage}
use minocrab.Sim.Exec.{Exec, pure, lift, get_state, modify, ◌>>=◌, ◌>>◌}
use minocrab.Sim.Resolve.{Resolver, operand_fr, operand_bool, take_raw}

-- `Mode::Verify` checks every transcript; `Mode::Gather` accumulates the public halves.
pub data Mode : Type 0 where
  verify gather : Mode

abbrev pub is_gather : Mode → Bool
is_gather verify = false
is_gather gather = true

-- What the walk changes beside the memory.
pub record Walk (F P : Type 0) : Type 0 where
  pub pis : List F
  pub pi_skips : List (Option ℕ)
  pub public_transcript_inputs : List F
  pub assert_failures : List ℕ
  pub transcript_truncated : Bool
  pub public_transcript_inputs_idx : ℕ
  pub public_transcript_outputs_idx : ℕ
  pub private_transcript_idx : ℕ
  pub outputs : List (IrValue F P)

-- The element at `idx + i`, or the zero that stands in for it.
unfoldable pub padded : {F : Type 0} → F → List F → ℕ → ℕ → List F
padded filler transcript idx zero = []
padded filler transcript idx (suc w) =
    elim (get_elem? transcript idx) [ some x ↦ x | none ↦ filler ]
    ∷ padded filler transcript (idx + 1) w

module _ {F P A : Type 0} (ops : FieldOps F) (be : Backend F P A) (pre : ProofPreimage F)
    (mode : Mode) where
  -- The raw elements of a public read: padded by zeros under `Mode::Gather`.
  unfoldable pub raw_public : ℕ → ℕ → Result String (List F)
  unfolding take_raw padded
  raw_public idx w =
      if is_gather mode && ltb (length pre.public_transcript_outputs) (idx + w)
      then ok (padded (ops.from_u64 0) pre.public_transcript_outputs idx w)
      else take_raw pre.public_transcript_outputs idx w "ran out of public transcript outputs"

  -- A decoded public read; under `Mode::Gather` the default stands in for a value that is none.
  unfoldable pub decode_public : List F → IrType → Result String (IrValue F P)
  unfolding default_ir_value
  decode_public raw t = elim (be.decode_offcircuit raw t) [
    | ok v ↦ ok v
    | err e ↦ if is_gather mode then ok (default_ir_value ops be.default_payload t) else err e
  ]

  unfoldable pub read_public : IrType → Exec (Walk F P) (IrValue F P)
  unfolding raw_public decode_public
  read_public t = do
    s ← get_state
    raw ← lift (raw_public s.public_transcript_outputs_idx (be.encoded_len t))
    modify λ s. record s {
      public_transcript_outputs_idx = s.public_transcript_outputs_idx + be.encoded_len t;
    }
    lift (decode_public raw t)

  unfoldable pub read_private : IrType → Exec (Walk F P) (IrValue F P)
  unfolding take_raw
  read_private t = do
    s ← get_state
    raw ← lift (
        take_raw pre.private_transcript s.private_transcript_idx (be.encoded_len t)
          "ran out of private transcript")
    modify λ s. record s { private_transcript_idx = s.private_transcript_idx + be.encoded_len t }
    lift (be.decode_offcircuit raw t)

  -- The block of a guarded-off `Impact`: zeros, and the skip.
  unfoldable pub skip_impact : ℕ → Exec (Walk F P) (Unit {0})
  skip_impact count = modify λ s. record s {
    pis = s.pis ++ replicate count (ops.from_u64 0);
    pi_skips = s.pi_skips ++ some count ∷ [];
  }

  -- Whether the values just published are the declared ones from this index on.
  unfoldable pub declared_at : List F → ℕ → Bool
  declared_at [] idx = true
  declared_at (x ∷ xs) idx = elim (get_elem? pre.public_transcript_inputs idx) [
    | some expected ↦ ops.eq expected x && declared_at xs (idx + 1)
    | none ↦ false
  ]

  -- The block of a taken `Impact`: the values are published, then checked.
  unfoldable pub take_impact : List F → Exec (Walk F P) (Unit {0})
  unfolding declared_at
  take_impact values = do
    s ← get_state
    modify λ s. record s {
      pis = s.pis ++ values;
      public_transcript_inputs =
          if s.transcript_truncated
          then s.public_transcript_inputs
          else s.public_transcript_inputs ++ values;
      public_transcript_inputs_idx = s.public_transcript_inputs_idx + length values;
      pi_skips = s.pi_skips ++ none ∷ [];
    }
    lift (
        if is_gather mode
        then ok tt
        else check (declared_at values s.public_transcript_inputs_idx)
            "public transcript input mismatch")

  -- A failed assertion: fatal under `Mode::Verify`, recorded under `Mode::Gather`.
  unfoldable pub failed_assert : ℕ → Exec (Walk F P) (Unit {0})
  failed_assert at s =
      if is_gather mode
      then (
        ok tt,
        record s { assert_failures = s.assert_failures ++ at ∷ []; transcript_truncated = true },
      )
      else (err "failed direct assertion", s)

  module _ (ρ : Resolver F P) where
    -- `match guard { Some(guard) if !operand_bool(guard)? => default, _ => read }`
    unfoldable pub guard_holds : Option (Operand F) → Result String Bool
    unfolding operand_bool
    guard_holds none = ok true
    guard_holds (some g) = operand_bool ops ρ g

    -- The return values, each checked against the signature as it is appended.
    unfoldable pub emit_outputs : List (Operand F) → List IrType → Exec (Walk F P) (Unit {0})
    unfolding ir_type_of type_eq
    emit_outputs [] types = pure tt
    emit_outputs (val ∷ vals) [] = pure tt
    emit_outputs (val ∷ vals) (expected ∷ types) = do
      value ← lift (ρ val)
      lift (check (type_eq (ir_type_of value) expected) "Output: operand has another runtime type")
      modify λ s. record s { outputs = s.outputs ++ value ∷ [] }
      emit_outputs vals types
