-- ===== src/Sim/Run.antt =====
-- The whole run (`simulate_with` of crates/minocrab-sim/src/v3.rs): the arguments are decoded, the
-- instructions are walked, and the transcripts and the commitment are checked at the end.
pub mod Same
pub mod Walking
use minocrab.Prelude.{
  ℕ, zero, suc, ◌+◌, String, Bool, true, false, ◌&&◌, ◌||◌, Option, none, some, List, [], ◌∷◌, ◌++◌,
  length, take, drop, leb, ◌==◌, if◌then◌else◌, Result, ok, err, and_then, check, collect,
}
use minocrab.Prelude.Assoc.{AssocMap, get, insert, insert_all}
use minocrab.Ir.{
  Identifier, IrType, Instruction, IrSource, encode, assert, cond_select, constrain_bits,
  constrain_eq, constrain_to_boolean, copy, impact, ec_mul, ec_mul_generator, hash_to_curve,
  into_coordinates, from_coordinates, into_bytes32, from_bytes32, bytes32_into_low_high,
  reverse_bytes, bytes32_from_low_high, div_mod_power_of_two, reconstitute_field, transient_hash,
  persistent_hash, keccak256, test_eq, add, mul, neg, inv, not, less_than,
  jubjub_scalar_from_native, public_input, private_input, output,
}
use minocrab.Ir.Field.{FieldOps}
use minocrab.Sim.Value.{IrValue, try_into_fr}
use minocrab.Sim.Backend.{Backend, ProofPreimage}
use minocrab.Sim.Resolve.{Memory, operand}
use minocrab.Sim.Step.{Mode, verify, gather, is_gather, Walk}
use minocrab.Sim.Step.Arms.{eval}

-- `Sim3Error`; a failure carries the instruction's index and name.
pub data Sim3Error : Type 0 where
  failed : ℕ → String → String → Sim3Error
  inputs_error : String → Sim3Error
  transcript_error : Sim3Error
  comm_commitment_error : String → Sim3Error

unfoldable pub op_name : {F A : Type 0} → Instruction F A → String
op_name (add _ _ _) = "add"
op_name (assert _) = "assert"
op_name (bytes32_from_low_high _ _ _) = "bytes32_from_low_high"
op_name (bytes32_into_low_high _ _ _) = "bytes32_into_low_high"
op_name (cond_select _ _ _ _) = "cond_select"
op_name (constrain_bits _ _) = "constrain_bits"
op_name (constrain_eq _ _) = "constrain_eq"
op_name (constrain_to_boolean _) = "constrain_to_boolean"
op_name (copy _ _) = "copy"
op_name (div_mod_power_of_two _ _ _) = "div_mod_power_of_two"
op_name (ec_mul _ _ _) = "ec_mul"
op_name (ec_mul_generator _ _) = "ec_mul_generator"
op_name (encode _ _) = "encode"
op_name (from_bytes32 _ _ _) = "from_bytes32"
op_name (from_coordinates _ _ _) = "from_coordinates"
op_name (hash_to_curve _ _) = "hash_to_curve"
op_name (impact _ _) = "impact"
op_name (into_bytes32 _ _) = "into_bytes32"
op_name (into_coordinates _ _ _) = "into_coordinates"
op_name (inv _ _) = "inv"
op_name (jubjub_scalar_from_native _ _) = "jubjub_scalar_from_native"
op_name (keccak256 _ _ _) = "keccak256"
op_name (less_than _ _ _ _) = "less_than"
op_name (mul _ _ _) = "mul"
op_name (neg _ _) = "neg"
op_name (not _ _) = "not"
op_name (output _) = "output"
op_name (persistent_hash _ _ _) = "persistent_hash"
op_name (private_input _ _ _) = "private_input"
op_name (public_input _ _ _) = "public_input"
op_name (reconstitute_field _ _ _ _) = "reconstitute_field"
op_name (reverse_bytes _ _) = "reverse_bytes"
op_name (test_eq _ _ _) = "test_eq"
op_name (transient_hash _ _) = "transient_hash"

-- The variables of the loop over the instructions.
pub record State (F P : Type 0) : Type 0 where
  pub memory : Memory F P
  pub walk : Walk F P
  pub op_counts : AssocMap ℕ
  pub walk_failures : List (ℕ × String)

-- `Run3`
pub record Run (F P : Type 0) : Type 0 where
  pub memory : Memory F P
  pub pis : List F
  pub pi_skips : List (Option ℕ)
  pub binding_input : F
  pub comm_comm : Option (F × F)
  pub outputs : List (IrValue F P)
  pub consumed_private : ℕ
  pub consumed_public : ℕ
  pub op_counts : AssocMap ℕ
  pub public_transcript_inputs : List F
  pub assert_failures : List ℕ
  pub walk_failures : List (ℕ × String)

-- `*op_counts.entry(op).or_default() += 1`
unfoldable pub count_op : AssocMap ℕ → String → AssocMap ℕ
unfolding get insert
count_op counts op = insert counts op (elim (get counts op) [ some n ↦ n + 1 | none ↦ 1 ])

module _ {F P A : Type 0} (ops : FieldOps F) (be : Backend F P A) (pre : ProofPreimage F) where
  -- The arguments, each at its encoded width, from raw index `idx` on.
  unfoldable pub decode_inputs :
      List (Identifier × IrType) → ℕ → Memory F P → Result Sim3Error (Memory F P × ℕ)
  unfolding insert
  decode_inputs [] idx memory = ok (memory, idx)
  decode_inputs ((name, t) ∷ inputs) idx memory =
      let w = be.encoded_len t in
      and_then (check (leb (idx + w) (length pre.inputs)) (inputs_error "not enough raw inputs"))
        λ _.
          and_then
            (elim (be.decode_offcircuit (take w (drop idx pre.inputs)) t) [
              | ok v ↦ ok v
              | err e ↦ err (inputs_error e)
            ])
            λ value. decode_inputs inputs (idx + w) (insert memory name value)

  -- The PI vector opens with the binding input, then the commitment when it is enabled.
  unfoldable pub opening_pis : Mode → Bool → Option (F × F) → Result Sim3Error (List F)
  opening_pis mode false comm = ok (pre.binding_input ∷ [])
  opening_pis mode true (some (c, _)) = ok (pre.binding_input ∷ c ∷ [])
  opening_pis gather true none = ok (pre.binding_input ∷ ops.from_u64 0 ∷ [])
  opening_pis verify true none = err (comm_commitment_error "expected communications commitment")

  unfoldable pub initial_state : Memory F P → List F → State F P
  initial_state memory pis = record {
    memory = memory;
    walk = record {
      pis = pis;
      pi_skips = [];
      public_transcript_inputs = [];
      assert_failures = [];
      transcript_truncated = false;
      public_transcript_inputs_idx = 0;
      public_transcript_outputs_idx = 0;
      private_transcript_idx = 0;
      outputs = [];
    };
    op_counts = [];
    walk_failures = [];
  }

  -- A failed step is the run's error under `Mode::Verify`, and recorded under `Mode::Gather`.
  unfoldable pub settle :
      Mode
      → ℕ
      → String
      → State F P
      → Result String (List (Identifier × IrValue F P)) × Walk F P
      → Result Sim3Error (State F P)
  settle mode at op st (ok binds, w) =
      ok (record st { memory = insert_all st.memory binds; walk = w })
  settle verify at op st (err e, w) = err (failed at op e)
  settle gather at op st (err e, w) = ok (record st {
    walk = record w { transcript_truncated = true };
    walk_failures = st.walk_failures ++ (at, e) ∷ [];
  })

  unfoldable pub step_one :
      Mode → List IrType → ℕ → Instruction F A → State F P → Result Sim3Error (State F P)
  unfolding eval operand settle op_name count_op insert
  step_one mode types at ins st =
      settle mode at (op_name ins) (record st { op_counts = count_op st.op_counts (op_name ins) })
        (eval ops be pre mode types (operand st.memory) at ins st.walk)

  unfoldable pub run_from :
      Mode → List IrType → ℕ → List (Instruction F A) → State F P → Result Sim3Error (State F P)
  unfolding step_one
  run_from mode types at [] st = ok st
  run_from mode types at (ins ∷ rest) st =
      and_then (step_one mode types at ins st) (run_from mode types (at + 1) rest)

  -- Every transcript must be consumed exactly; under `Mode::Gather` only the private one.
  unfoldable pub fully_consumed : Mode → Walk F P → Bool
  fully_consumed mode w =
      (is_gather mode
        || (length pre.public_transcript_inputs == w.public_transcript_inputs_idx
            && length pre.public_transcript_outputs == w.public_transcript_outputs_idx))
      && length pre.private_transcript == w.private_transcript_idx

  -- The raw arguments, then the encoded outputs, as field elements.
  unfoldable pub encoded_outputs : List (IrValue F P) → Result String (List F)
  unfolding try_into_fr
  encoded_outputs [] = ok []
  encoded_outputs (v ∷ vs) =
      and_then (collect try_into_fr (be.encode_offcircuit v))
        λ xs. and_then (encoded_outputs vs) λ ys. ok (xs ++ ys)

  unfoldable pub check_commitment : Mode → Bool → List (IrValue F P) → Result Sim3Error (Unit {0})
  unfolding encoded_outputs
  check_commitment gather enabled outputs = ok tt
  check_commitment verify false outputs = ok tt
  check_commitment verify true outputs = elim pre.communications_commitment [
    | none ↦ err (comm_commitment_error "expected communications randomness")
    | some (c, rand) ↦ elim (encoded_outputs outputs) [
      | err e ↦ err (comm_commitment_error e)
      | ok encoded ↦
          check (ops.eq c (be.transient_commit (pre.inputs ++ encoded) rand))
            (comm_commitment_error "communications commitment mismatch")
    ]
  ]

  unfoldable pub finish_run : Mode → Bool → State F P → Result Sim3Error (Run F P)
  unfolding fully_consumed check_commitment
  finish_run mode enabled st = and_then (check (fully_consumed mode st.walk) transcript_error) λ _.
      and_then (check_commitment mode enabled st.walk.outputs) λ _. ok (record {
        memory = st.memory;
        pis = st.walk.pis;
        pi_skips = st.walk.pi_skips;
        binding_input = pre.binding_input;
        comm_comm = pre.communications_commitment;
        outputs = st.walk.outputs;
        consumed_private = st.walk.private_transcript_idx;
        consumed_public = st.walk.public_transcript_outputs_idx;
        op_counts = st.op_counts;
        public_transcript_inputs = st.walk.public_transcript_inputs;
        assert_failures = st.walk.assert_failures;
        walk_failures = st.walk_failures;
      })

module _ {F P A : Type 0} (ops : FieldOps F) (be : Backend F P A) where
  -- The state in which the walk begins.
  unfoldable pub prepare : IrSource F A → ProofPreimage F → Mode → Result Sim3Error (State F P)
  unfolding decode_inputs opening_pis initial_state
  prepare ir pre mode = and_then (decode_inputs ops be pre ir.inputs 0 []) λ (memory, idx).
      and_then (check (idx == length pre.inputs) (inputs_error "another number of raw inputs")) λ _.
        and_then
          (opening_pis ops be pre mode ir.do_communications_commitment
            pre.communications_commitment)
          λ pis. ok (initial_state ops be pre memory pis)

  unfoldable pub simulate_with : IrSource F A → ProofPreimage F → Mode → Result Sim3Error (Run F P)
  unfolding prepare run_from finish_run
  simulate_with ir pre mode = and_then (prepare ir pre mode) λ st.
      and_then (run_from ops be pre mode ir.outputs 0 ir.instructions st)
        λ done. finish_run ops be pre mode ir.do_communications_commitment done

  unfoldable pub simulate : IrSource F A → ProofPreimage F → Result Sim3Error (Run F P)
  unfolding simulate_with
  simulate ir pre = simulate_with ir pre verify
