-- ===== src/Executor/Decoder/Total/Program.antt =====
-- Decoding a program never runs out of fuel.
use minocrab.Prelude.{
  ℕ, zero, suc, ◌+◌, ◌%◌, ◌/◌, ◌<◌, ◌≢◌, Bool, true, false, some, List, [], ◌∷◌, length, ◌==◌,
  arith, Result, ok, err, drop, ◌||◌,
}
use minocrab.Ir.Field.{FieldOps}
use minocrab.Ledger.Fab.{FabOps, Alignment, Op}
use minocrab.Executor.Decoder.Reader.{
  DecodeError, decode, out_of_fuel, Decoder, byte, u32, keys, peek_is_zero,
}
use minocrab.Executor.Decoder.State.{state_value}
use minocrab.Executor.Decoder.Program.{
  Decoding, Decoded, within, noop_run, after, plain, with_u32, popeq_op, push_op, idx_op, by_range,
  by_opcode, decode_one, decode_from, decode_prefix,
}
use minocrab.Executor.Decoder.Total.{
  Leaves, Shrinks, Takes, choose-Leaves, then-Shrinks, then-Leaves, map-Leaves, if-Leaves,
  Leaves-le, length-drop, int-Takes, alignment-Shrinks, skip-Shrinks, keys-Shrinks, Takes-Shrinks,
}
use minocrab.Executor.Decoder.Total.State.{state_value-Shrinks}

module _ {F : Type 0} (ops : FieldOps F) (fab : FabOps F) where
  u32-Shrinks : Shrinks (u32 ops fab)
  unfolding u32
  u32-Shrinks = Takes-Shrinks _ (int-Takes ops fab 4294967295 "an operand")

  noop_run-Shrinks : (rounds n : ℕ) → Shrinks (noop_run ops fab rounds n)
  unfolding noop_run
  noop_run-Shrinks zero n d = omega arith
  noop_run-Shrinks (suc rounds) n d =
      let k = suc (length d.rest) in
      let shorter = length-drop 1 d.rest in
      if-Leaves k (peek_is_zero ops fab d) _ _
        (Leaves-le (suc (length (drop 1 d.rest))) k _ (omega arith)
          (noop_run-Shrinks rounds (n + 1) (record { rest = drop 1 d.rest; at = suc d.at })))
        (omega arith)

  module _ (als : List Alignment) where
    plain-Shrinks : (op : Op) → Shrinks (plain ops fab als op)
    unfolding plain
    plain-Shrinks op d = omega arith

    with_u32-Shrinks : (op : ℕ → Op) → Shrinks (with_u32 ops fab als op)
    unfolding with_u32
    with_u32-Shrinks op d =
        map-Leaves (suc (length d.rest)) (u32 ops fab) (λ n. (op n, als)) d (u32-Shrinks d)

    popeq_op-Shrinks : (cached : Bool) → Shrinks (popeq_op ops fab als cached)
    unfolding popeq_op
    popeq_op-Shrinks cached =
        then-Shrinks _ _ (alignment-Shrinks ops fab)
          λ al. then-Shrinks _ _ (skip-Shrinks (fab.field_len al)) λ _ d. omega arith

    push_op-Shrinks : (storage : Bool) → Shrinks (push_op ops fab als storage)
    unfolding push_op
    push_op-Shrinks storage d =
        map-Leaves (suc (length d.rest)) (state_value ops fab) (λ v. (Op.push storage v, als)) d
          (state_value-Shrinks ops fab d)

    idx_op-Shrinks : (opcode : ℕ) → Shrinks (idx_op ops fab als opcode)
    unfolding idx_op
    idx_op-Shrinks opcode d =
        map-Leaves (suc (length d.rest)) (keys ops fab (opcode % 16 + 1))
          (λ path. (
            Op.idx (opcode / 16 == 6 || opcode / 16 == 8) (opcode / 16 == 7 || opcode / 16 == 8)
                path,
            als,
          ))
          d (keys-Shrinks ops fab (opcode % 16 + 1) d)

    by_range-Shrinks : (at opcode : ℕ) → Shrinks (by_range ops fab als at opcode)
    unfolding by_range
    by_range-Shrinks at opcode d =
        let n = suc (length d.rest) in
        choose-Leaves n (within 0x30 0x3f opcode) _ _ d (plain-Shrinks (Op.dup (opcode % 16)) d) (
          choose-Leaves n (within 0x40 0x4f opcode) _ _ d (plain-Shrinks (Op.swap (opcode % 16)) d)
            (choose-Leaves n (within 0x50 0x8f opcode) _ _ d (idx_op-Shrinks opcode d) (
              choose-Leaves n (within 0x90 0x9f opcode) _ _ d
                (plain-Shrinks (Op.ins false (opcode % 16)) d)
                (choose-Leaves n (within 0xa0 0xaf opcode) _ _ d
                  (plain-Shrinks (Op.ins true (opcode % 16)) d)
                  (choose-Leaves n (opcode == 0xff) _ _ d (plain-Shrinks Op.ckpt d) tt)))))

    by_opcode-Shrinks : (at opcode : ℕ) → Shrinks (by_opcode ops fab als at opcode)
    unfolding by_opcode
    by_opcode-Shrinks at opcode d =
        let n = suc (length d.rest) in
        choose-Leaves n (opcode == 0) _ _ d
          (then-Shrinks (noop_run ops fab 254 1) _ (noop_run-Shrinks 254 1)
            (λ n. plain-Shrinks (Op.noop n)) d)
          (choose-Leaves n (opcode == 1) _ _ d (plain-Shrinks Op.lt d) (
            choose-Leaves n (opcode == 2) _ _ d (plain-Shrinks Op.eq d) (
              choose-Leaves n (opcode == 3) _ _ d (plain-Shrinks Op.type_of d) (
                choose-Leaves n (opcode == 4) _ _ d (plain-Shrinks Op.size d) (
                  choose-Leaves n (opcode == 5) _ _ d (plain-Shrinks Op.new d) (
                    choose-Leaves n (opcode == 6) _ _ d (plain-Shrinks Op.and d) (
                      choose-Leaves n (opcode == 7) _ _ d (plain-Shrinks Op.or d) (
                        choose-Leaves n (opcode == 8) _ _ d (plain-Shrinks Op.neg d) (
                          choose-Leaves n (opcode == 9) _ _ d (plain-Shrinks Op.log d) (
                            choose-Leaves n (opcode == 10) _ _ d (plain-Shrinks Op.root d) (
                              choose-Leaves n (opcode == 11) _ _ d (plain-Shrinks Op.pop d) (
                                choose-Leaves n (opcode == 12) _ _ d (popeq_op-Shrinks false d) (
                                  choose-Leaves n (opcode == 13) _ _ d (popeq_op-Shrinks true d) (
                                    choose-Leaves n (opcode == 14) _ _ d
                                      (with_u32-Shrinks Op.addi d)
                                      (choose-Leaves n (opcode == 15) _ _ d
                                        (with_u32-Shrinks Op.subi d)
                                        (choose-Leaves n (opcode == 16) _ _ d
                                          (push_op-Shrinks false d)
                                          (choose-Leaves n (opcode == 17) _ _ d
                                            (push_op-Shrinks true d)
                                            (choose-Leaves n (opcode == 18) _ _ d
                                              (with_u32-Shrinks Op.branch d)
                                              (choose-Leaves n (opcode == 19) _ _ d
                                                (with_u32-Shrinks Op.jmp d)
                                                (choose-Leaves n (opcode == 20) _ _ d
                                                  (plain-Shrinks Op.add d)
                                                  (choose-Leaves n (opcode == 21) _ _ d
                                                    (plain-Shrinks Op.sub d)
                                                    (choose-Leaves n (opcode == 22) _ _ d
                                                      (with_u32-Shrinks (Op.concat false) d)
                                                      (choose-Leaves n (opcode == 23) _ _ d
                                                        (with_u32-Shrinks (Op.concat true) d)
                                                        (choose-Leaves n (opcode == 24) _ _ d
                                                          (plain-Shrinks Op.member d)
                                                          (choose-Leaves n (opcode == 25) _ _ d
                                                            (plain-Shrinks (Op.rem false) d)
                                                            (choose-Leaves n (opcode == 26) _ _ d
                                                            (plain-Shrinks (Op.rem true) d)
                                                            (by_range-Shrinks at opcode
                                                            d)))))))))))))))))))))))))))

    pub decode_one-Takes : Takes (decode_one ops fab als)
    unfolding decode_one byte
    decode_one-Takes d =
        let n = length d.rest in
        then-Leaves n (byte ops fab) _ d (int-Takes ops fab 255 "an opcode" d)
          (by_opcode-Shrinks d.at)

  after-fuel :
      (n : ℕ) (rounds : List Alignment → Decoder F → Decoded) (als : List Alignment)
      (r : Result DecodeError (Decoding × Decoder F))
      → Leaves n r
      → ((als' : List Alignment) (d : Decoder F)
          → length d.rest < n
          → (rounds als' d).error ≢ some out_of_fuel)
      → (after ops fab rounds als r).error ≢ some out_of_fuel
  unfolding after
  after-fuel n rounds als (ok ((op, als'), d)) h f = f als' d h
  after-fuel n rounds als (err (decode at message)) h f = λ e. cc
  after-fuel n rounds als (err out_of_fuel) h f = absurd h

  decode_from-fuel :
      (fuel : ℕ) (als : List Alignment) (xs : List F) (at : ℕ)
      → length xs < fuel
      → (decode_from ops fab fuel als (record { rest = xs; at = at })).error ≢ some out_of_fuel
  unfolding decode_from
  decode_from-fuel zero als xs at lt = absurd (omega arith)
  decode_from-fuel (suc fuel) als [] at lt = λ e. cc
  decode_from-fuel (suc fuel) als (x ∷ xs) at lt =
      after-fuel (suc (length xs)) (decode_from ops fab fuel) als _
        (decode_one-Takes als (record { rest = x ∷ xs; at = at }))
        λ als' d lt'. decode_from-fuel fuel als' d.rest d.at (omega arith)

  -- decode_prefix ends on every list of elements with an error of the source or none: it never
  -- runs out of the model's fuel, neither for the operations nor for the nesting of a pushed
  -- state.
  pub decode_prefix-fuel : (elems : List F) → (decode_prefix ops fab elems).error ≢ some out_of_fuel
  unfolding decode_prefix
  decode_prefix-fuel elems = decode_from-fuel (suc (length elems)) [] elems 0 (omega arith)
