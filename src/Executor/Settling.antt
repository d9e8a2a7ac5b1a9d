-- ===== src/Executor/Settling.antt =====
-- What a round that settles has passed: its walk, its reads, and the preimage that `finish` makes
-- (crates/minocrab-sim/src/v3/exec.rs).
use minocrab.Prelude.{
  map, ◌∙◌, if◌then◌else◌, ◌⊎◌, ok_or, ℕ, ◌≡◌, refl, ap, subst, String, Bool, true, false, Option,
  none, some, List, [], ◌∷◌, length, arith, ==_iff, Result, ok, err, and_then, and_then-eq-ok, inl,
  inr,
}
use minocrab.Ir.{IrSource}
use minocrab.Ir.Field.{FieldOps, FieldLaws}
use minocrab.Sim.Backend.{Backend, ProofPreimage}
use minocrab.Sim.Run.{Run}
use minocrab.Ledger.Fab.{Alignment, AlignedValue, FabOps}
use minocrab.Executor.Decoder.{DecodeError, Decoded}
use minocrab.Executor.Answers.{Fills, check_alignments-eq, elems_eq-eq, with_reads-Fills}
use minocrab.Executor.Decoder.{decode_prefix}
use minocrab.Executor.Decoder.Declares.{reads_in, decode_prefix-declares}
use minocrab.Executor.Gather.{gather as gather_reads}
use minocrab.Sim.Step.{gather}
use minocrab.Sim.Run.{simulate_with}
use minocrab.Executor.Execute.{
  circuit, comm_commitment, vm, ExecError, VmOp, Call, Ledger, Executed, map_err, no_failures,
  no_error, check_answers, check_alignments, with_reads, elems_eq, outputs_of, finish, settle,
  probe, committed, preimage_of, transcript_of, not_applied,
}

ok_injective : {E A : Type 0} {a b : A} → ◌≡◌ {A = Result E A} (ok a) (ok b) → a ≡ b
ok_injective h = cc

map_err-eq-ok :
    {E E' A : Type 0} (f : E → E') (r : Result E A) {a : A} → map_err f r ≡ ok a → r ≡ ok a
map_err-eq-ok f (ok b) h = ok_cong (ok_injective h)
  where
    ok_cong : {E A : Type 0} {a b : A} → a ≡ b → ◌≡◌ {A = Result E A} (ok a) (ok b)
    ok_cong e = ap ok e
map_err-eq-ok f (err e) h = cc

branch_cases :
    {E A : Type 0} (b : Bool) (r : Result E A) (x : A) {a : A}
    → (if b then r else ok x) ≡ ok a
    → (r ≡ ok a) ⊎ (x ≡ a)
branch_cases true r x h = inl h
branch_cases false r x h = inr (ok_injective h)

no_failures-eq :
    (asserts : List ℕ) (failures : List (ℕ × String))
    → no_failures asserts failures ≡ ok tt
    → (asserts ≡ []) × (failures ≡ [])
unfolding no_failures
no_failures-eq [] [] h = (refl, refl)
no_failures-eq [] (f ∷ fs) h = cc
no_failures-eq (a ∷ as') failures h = cc

no_error-eq : (o : Option DecodeError) → no_error o ≡ ok tt → o ≡ none
unfolding no_error
no_error-eq none h = refl
no_error-eq (some e) h = cc

module _ {F P A S : Type 0} (ops : FieldOps F) (laws : FieldLaws ops) (fab : FabOps F)
    (be : Backend F P A) (ledger : Ledger F S) (ir : IrSource F A) (call : Call F) where
  -- The returned call comes from a guess that its own reads repeat, element by element: the walk on
  -- that guess has no failure and its transcript decodes whole; the reads have the declared
  -- alignments, in order and as many; the finished program is the decoded one filled with the
  -- reads, and the ledger applies it; and the preimage holds the arguments of the call, the
  -- program's elements and the reads'.
  pub record IsSettled (e : Executed F P S) : Type 0 where
    pub guess : List F
    pub decoded : Decoded
    pub whole_err : Option String
    pub walked :
        simulate_with ops be ir (preimage_of ops fab be ledger ir call [] guess) gather ≡ ok e.run
    pub decoding : decode_prefix ops fab e.run.public_transcript_inputs ≡ decoded
    pub gathered : gather_reads ledger.run_gather decoded.ops ≡ ok (e.reads, whole_err)
    pub repeated : map laws.to_nat (outputs_of ledger e.reads) ≡ map laws.to_nat guess
    pub no_assert : e.run.assert_failures ≡ []
    pub no_failure : e.run.walk_failures ≡ []
    pub decodes : decoded.error ≡ none
    pub aligned : map (λ v. v.alignment) e.reads ≡ decoded.alignments
    pub filled : Fills decoded.ops e.reads e.ops
    pub applied : ledger.query e.ops ≡ ok e.post
    pub arguments : e.preimage.inputs ≡ call.inputs
    pub declared : e.preimage.public_transcript_inputs ≡ transcript_of ledger e.ops
    pub answered : e.preimage.public_transcript_outputs ≡ outputs_of ledger e.reads

  -- What `finish` returns, made from its parts.
  abbrev finished :
      Run F P → List VmOp → List AlignedValue → ℕ → ProofPreimage F → S → Executed F P S
  finished run vm_ops reads rounds preimage post = record {
    preimage = preimage;
    ops = vm_ops;
    reads = reads;
    post = post;
    run = run;
    rounds = rounds;
  }

  abbrev round_end_preimage : List VmOp → List AlignedValue → ProofPreimage F
  round_end_preimage vm_ops reads =
      preimage_of ops fab be ledger ir call (transcript_of ledger vm_ops) (outputs_of ledger reads)

  -- The commitment is the one part of the preimage that committed changes.
  abbrev Keeps : (before after : ProofPreimage F) → Type 0
  Keeps before after =
      (after.inputs ≡ before.inputs)
      × (after.public_transcript_inputs ≡ before.public_transcript_inputs)
      × (after.public_transcript_outputs ≡ before.public_transcript_outputs)

  committed-Keeps :
      (run : Run F P) (before after : ProofPreimage F)
      → committed ops fab be ledger ir call run before ≡ ok after
      → Keeps before after
  unfolding committed
  committed-Keeps run before after h =
      let assemble : F → F → Result ExecError (ProofPreimage F) =
        λ rand comm. ok (record before { communications_commitment = some (comm, rand) }) in
      let commit : F → Result ExecError (ProofPreimage F) = λ rand.
        and_then (comm_commitment ops fab be ledger ir call before run rand) (assemble rand) in
      let drawn = ok_or call.comm_rand (vm "the call carries no randomness for the commitment") in
      elim (branch_cases ir.do_communications_commitment (and_then drawn commit) before h) [
        | inl h₁ ↦
            let (rand, given, h₂) = and_then-eq-ok drawn commit h₁ in
            let (comm, made, h₃) =
              and_then-eq-ok (comm_commitment ops fab be ledger ir call before run rand)
                (assemble rand) h₂ in
            subst (Keeps before) (ok_injective h₃) (refl, refl, refl)
        | inr same ↦ subst (Keeps before) same (refl, refl, refl)
      ]

  finish-eq :
      (run : Run F P) (vm_ops : List VmOp) (reads : List AlignedValue) (rounds : ℕ)
      (e : Executed F P S)
      → finish ops fab be ledger ir call run vm_ops reads rounds ≡ ok e
      → (preimage : ProofPreimage F) × (post : S) × (ledger.query vm_ops ≡ ok post)
        × Keeps (round_end_preimage vm_ops reads) preimage
        × (finished run vm_ops reads rounds preimage post ≡ e)
  unfolding finish
  finish-eq run vm_ops reads rounds e h =
      let made_preimage =
        committed ops fab be ledger ir call run (round_end_preimage vm_ops reads) in
      let assemble : S → ProofPreimage F → Result ExecError (Executed F P S) =
        λ post preimage. ok (finished run vm_ops reads rounds preimage post) in
      let (post, queried, h₁) =
        and_then-eq-ok (map_err not_applied (ledger.query vm_ops))
          (λ post. and_then made_preimage (assemble post)) h in
      let (preimage, made, h₂) = and_then-eq-ok made_preimage (assemble post) h₁ in
      (
        preimage,
        post,
        map_err-eq-ok _ _ queried,
        committed-Keeps run (round_end_preimage vm_ops reads) preimage made,
        ok_injective h₂,
      )

  answers-eq :
      (als : List Alignment) (reads : List AlignedValue) (w : Option String)
      → check_answers als reads w ≡ ok tt
      → length reads ≡ length als
  unfolding check_answers
  answers-eq als reads none h = ground (arith, ==_iff (length reads) (length als))
  answers-eq als reads (some why) h = ground (arith, ==_iff (length reads) (length als))

  -- A round that ends gives the walk on its guess, that walk's transcript decoded, and the reads
  -- that the state answers.
  abbrev Probed : List F → Run F P × Decoded × List AlignedValue × Option String → Type 0
  Probed guess (run, decoded, reads, whole_err) =
      (simulate_with ops be ir (preimage_of ops fab be ledger ir call [] guess) gather ≡ ok run)
      × (decode_prefix ops fab run.public_transcript_inputs ≡ decoded)
      × (gather_reads ledger.run_gather decoded.ops ≡ ok (reads, whole_err))

  probe-Probed :
      (guess : List F) (round : Run F P × Decoded × List AlignedValue × Option String)
      → probe ops fab be ledger ir call guess ≡ ok round
      → Probed guess round
  unfolding probe
  probe-Probed guess round h =
      let walk = simulate_with ops be ir (preimage_of ops fab be ledger ir call [] guess) gather in
      let decode : Run F P → Decoded = λ run. decode_prefix ops fab run.public_transcript_inputs in
      let read : Run F P → Result ExecError (List AlignedValue × Option String) =
        λ run. map_err vm (gather_reads ledger.run_gather (decode run).ops) in
      let (run, walked, h₁) =
        and_then-eq-ok (map_err circuit walk)
          (λ run. and_then (read run) λ (reads, why). ok (run, decode run, reads, why)) h in
      let (answers, gathered, h₂) =
        and_then-eq-ok (read run) (λ (reads, why). ok (run, decode run, reads, why)) h₁ in
      subst (Probed guess) (ok_injective h₂)
        (map_err-eq-ok circuit walk walked, refl, map_err-eq-ok vm _ gathered)

  pub settle-IsSettled :
      (guess : List F) (run : Run F P) (decoded : Decoded) (reads : List AlignedValue)
      (whole_err : Option String) (round : ℕ) (e : Executed F P S)
      → probe ops fab be ledger ir call guess ≡ ok (run, decoded, reads, whole_err)
      → elems_eq ops (outputs_of ledger reads) guess ≡ true
      → settle ops fab be ledger ir call run decoded reads whole_err round ≡ ok e
      → IsSettled e × (e.rounds ≡ round)
  unfolding settle preimage_of
  settle-IsSettled guess run decoded reads whole_err round e probed repeated h =
      let fill : Unit {0} → Result ExecError (Executed F P S) = λ _.
        and_then (with_reads decoded.ops reads)
          λ vm_ops. finish ops fab be ledger ir call run vm_ops reads round in
      let shape : Unit {0} → Result ExecError (Executed F P S) =
        λ _. and_then (check_alignments 0 decoded.alignments reads) fill in
      let answer : Unit {0} → Result ExecError (Executed F P S) =
        λ _. and_then (check_answers decoded.alignments reads whole_err) shape in
      let decode_whole : Unit {0} → Result ExecError (Executed F P S) =
        λ _. and_then (no_error decoded.error) answer in
      let (u₁, no_fail, h₁) =
        and_then-eq-ok (no_failures run.assert_failures run.walk_failures) decode_whole h in
      let (u₂, whole, h₂) = and_then-eq-ok (no_error decoded.error) answer h₁ in
      let (u₃, answers, h₃) =
        and_then-eq-ok (check_answers decoded.alignments reads whole_err) shape h₂ in
      let (u₄, shapes, h₄) = and_then-eq-ok (check_alignments 0 decoded.alignments reads) fill h₃ in
      let (vm_ops, filled, h₅) =
        and_then-eq-ok (with_reads decoded.ops reads)
          (λ vm_ops. finish ops fab be ledger ir call run vm_ops reads round) h₄ in
      let (preimage, post, applied, (arguments, declared, answered), made) =
        finish-eq run vm_ops reads round e h₅ in
      let (walked, decoding, gathered) =
        probe-Probed guess (run, decoded, reads, whole_err) probed in
      let as_many = answers-eq decoded.alignments reads whole_err answers in
      let counted =
        subst (λ d. length d.alignments ≡ reads_in d.ops) decoding
          (decode_prefix-declares ops fab run.public_transcript_inputs) in
      let (asserts, failures) = no_failures-eq run.assert_failures run.walk_failures no_fail in
      subst (λ e'. IsSettled e' × (e'.rounds ≡ round)) made
        (
          record {
            guess = guess;
            decoded = decoded;
            whole_err = whole_err;
            walked = walked;
            decoding = decoding;
            gathered = gathered;
            repeated = elems_eq-eq ops laws (outputs_of ledger reads) guess repeated;
            no_assert = asserts;
            no_failure = failures;
            decodes = no_error-eq decoded.error whole;
            aligned = check_alignments-eq 0 decoded.alignments reads as_many shapes;
            filled = with_reads-Fills decoded.ops reads (as_many ∙ counted) filled;
            applied = applied;
            arguments = arguments;
            declared = declared;
            answered = answered;
          },
          refl,
        )
