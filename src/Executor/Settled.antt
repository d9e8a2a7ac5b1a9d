-- ===== src/Executor/Settled.antt =====
-- What a call that `execute` returns has passed (crates/minocrab-sim/src/v3/exec.rs).
use minocrab.Prelude.{
  ℕ, zero, suc, ◌+◌, ◌≤◌, ◌<◌, ◌≡◌, subst, String, Bool, true, false, Option, List, [], arith,
  Result, ok, and_then-eq-ok, Bool-cases, inl, inr,
}
use minocrab.Ir.{IrSource}
use minocrab.Ir.Field.{FieldOps, FieldLaws}
use minocrab.Sim.Backend.{Backend}
use minocrab.Sim.Run.{Run}
use minocrab.Ledger.Fab.{AlignedValue, FabOps}
use minocrab.Executor.Decoder.{Decoded}
use minocrab.Executor.Execute.{
  ExecError, Call, Ledger, Executed, elems_eq, outputs_of, settle, probe, execute_from, execute,
  max_rounds,
}
use minocrab.Executor.Settling.{IsSettled, settle-IsSettled}

module _ {F P A S : Type 0} (ops : FieldOps F) (laws : FieldLaws ops) (fab : FabOps F)
    (be : Backend F P A) (ledger : Ledger F S) (ir : IrSource F A) (call : Call F) where
  abbrev choice :
      (left round : ℕ)
      → Run F P
      → Decoded
      → List AlignedValue
      → Option String
      → Bool
      → Result ExecError (Executed F P S)
  choice left round run decoded reads whole_err b = elim b [
    | false ↦ execute_from ops fab be ledger ir call left (round + 1) (outputs_of ledger reads)
    | true ↦ settle ops fab be ledger ir call run decoded reads whole_err round
  ]

  abbrev round_end :
      (left round : ℕ)
      → List F
      → Run F P × Decoded × List AlignedValue × Option String
      → Result ExecError (Executed F P S)
  round_end left round guess (run, decoded, reads, whole_err) =
      choice left round run decoded reads whole_err (elems_eq ops (outputs_of ledger reads) guess)

  execute_from-IsSettled :
      (left round : ℕ) (guess : List F) (e : Executed F P S)
      → execute_from ops fab be ledger ir call left round guess ≡ ok e
      → IsSettled ops laws fab be ledger ir call e × (round ≤ e.rounds) × (e.rounds < round + left)
  unfolding execute_from
  execute_from-IsSettled zero round guess e h = cc
  execute_from-IsSettled (suc left) round guess e h =
      let ((run, decoded, reads, whole_err), probed, h₁) =
        and_then-eq-ok (probe ops fab be ledger ir call guess) (round_end left round guess) h in
      elim (Bool-cases (elems_eq ops (outputs_of ledger reads) guess)) [
        | inl same ↦
            let settled =
              subst (λ b. choice left round run decoded reads whole_err b ≡ ok e) same h₁ in
            let (is_settled, last_round) =
              settle-IsSettled ops laws fab be ledger ir call guess run decoded reads whole_err
                round e probed same settled in
            (is_settled, omega arith, omega arith)
        | inr moved ↦
            let (is_settled, low, high) =
              execute_from-IsSettled left (round + 1) (outputs_of ledger reads) e
                (subst (λ b. choice left round run decoded reads whole_err b ≡ ok e) moved h₁) in
            (is_settled, omega arith, omega arith)
      ]

  -- A call that execute returns, after 1 to MAX_ROUNDS rounds, comes from a guess for which the
  -- following holds, field elements standing for their numbers. The walk on the guess has no
  -- failed assertion and no failure; its transcript decodes whole; the state answers the decoded
  -- program with the call's reads, whose elements are the guess and whose alignments are the
  -- declared ones, in order and as many; the finished program is the decoded one with the reads,
  -- all and in order, at its read operations and nowhere else; the ledger applies it with the
  -- returned state; and the preimage holds the arguments of the call and the elements of the
  -- finished program and of the reads.
  pub execute-IsSettled :
      (e : Executed F P S)
      → execute ops fab be ledger ir call ≡ ok e
      → IsSettled ops laws fab be ledger ir call e × (1 ≤ e.rounds) × (e.rounds ≤ max_rounds)
  unfolding execute
  execute-IsSettled e h =
      let (is_settled, low, high) = execute_from-IsSettled max_rounds 1 [] e h in
      (is_settled, low, omega arith)
