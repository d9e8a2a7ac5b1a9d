-- ===== src/Executor/Decoder/Declares.antt =====
-- The decoder declares one alignment for each read of the program that it gives.
use minocrab.Prelude.{
  ℕ, zero, suc, ◌+◌, ◌%◌, ◌≡◌, refl, Bool, true, false, List, [], ◌∷◌, length, length-append, ◌==◌,
  arith, Result, ok, err, if◌then◌else◌,
}
use minocrab.Ir.Field.{FieldOps}
use minocrab.Ledger.Fab.{FabOps, Alignment, Op}
use minocrab.Executor.Decoder.Reader.{
  DecodeError, Decoder, Read, ◌>>=◌, give, continue, alignment, skip, byte, u32, keys,
}
use minocrab.Executor.Decoder.State.{state_value}
use minocrab.Executor.Decoder.Program.{
  Decoding, Decoded, within, noop_run, after, plain, with_u32, popeq_op, push_op, idx_op, by_range,
  by_opcode, decode_one, decode_from, decode_prefix,
}

abbrev pub is_read : Op → Bool
is_read (Op.popeq cached) = true
is_read op = false

-- The number of reads of a program.
abbrev pub reads_in : List Op → ℕ
reads_in [] = 0
reads_in (op ∷ program) = (if is_read op then 1 else 0) + reads_in program

module _ {F : Type 0} (als : List Alignment) where
  -- An operation that reads has declared one more alignment, and no other has.
  abbrev Counted : Result DecodeError (Decoding × Decoder F) → Type 0
  Counted (ok ((op, als'), d)) = length als' ≡ length als + reads_in (op ∷ [])
  Counted (err e) = Unit

  abbrev Counts : Read F Decoding → Type 0
  Counts m = (d : Decoder F) → Counted (m d)

  choose-Counts :
      (b : Bool) (m m' : Read F Decoding) → Counts m → Counts m' → Counts (if b then m else m')
  choose-Counts true m m' h k = h
  choose-Counts false m m' h k = k

  continue-Counted :
      {A : Type 0} (r : Result DecodeError (A × Decoder F)) (f : A → Read F Decoding)
      → ((a : A) → Counts (f a))
      → Counted (continue r f)
  continue-Counted (ok (a, d)) f h = h a d
  continue-Counted (err e) f h = tt

  then-Counts :
      {A : Type 0} (m : Read F A) (f : A → Read F Decoding)
      → ((a : A) → Counts (f a))
      → Counts (m >>= f)
  then-Counts m f h d = continue-Counted (m d) f h

module _ {F : Type 0} (ops : FieldOps F) (fab : FabOps F) where
  module _ (als : List Alignment) where
    plain-Counts : (op : Op) → is_read op ≡ false → Counts als (plain ops fab als op)
    unfolding plain
    plain-Counts op quiet d = ground (arith, quiet)

    with_u32-Counts :
        (op : ℕ → Op) → ((n : ℕ) → is_read (op n) ≡ false) → Counts als (with_u32 ops fab als op)
    unfolding with_u32
    with_u32-Counts op quiet =
        then-Counts als (u32 ops fab) (λ n. give (op n, als)) λ n d. ground (arith, quiet n)

    popeq_op-Counts : (cached : Bool) → Counts als (popeq_op ops fab als cached)
    unfolding popeq_op
    popeq_op-Counts cached = then-Counts als (alignment ops fab) _ λ al.
        then-Counts als (skip (fab.field_len al)) _
          λ _ d. omega (arith, length-append als (al ∷ []))

    push_op-Counts : (storage : Bool) → Counts als (push_op ops fab als storage)
    unfolding push_op
    push_op-Counts storage =
        then-Counts als (state_value ops fab) (λ v. give (Op.push storage v, als))
          λ v d. omega arith

    idx_op-Counts : (opcode : ℕ) → Counts als (idx_op ops fab als opcode)
    unfolding idx_op
    idx_op-Counts opcode = then-Counts als (keys ops fab (opcode % 16 + 1)) _ λ path d. omega arith

    by_range-Counts : (at opcode : ℕ) → Counts als (by_range ops fab als at opcode)
    unfolding by_range
    by_range-Counts at opcode =
        choose-Counts als (within 0x30 0x3f opcode) _ _ (plain-Counts (Op.dup (opcode % 16)) refl) (
          choose-Counts als (within 0x40 0x4f opcode) _ _
            (plain-Counts (Op.swap (opcode % 16)) refl)
            (choose-Counts als (within 0x50 0x8f opcode) _ _ (idx_op-Counts opcode) (
              choose-Counts als (within 0x90 0x9f opcode) _ _
                (plain-Counts (Op.ins false (opcode % 16)) refl)
                (choose-Counts als (within 0xa0 0xaf opcode) _ _
                  (plain-Counts (Op.ins true (opcode % 16)) refl)
                  (choose-Counts als (opcode == 0xff) _ _ (plain-Counts Op.ckpt refl) (λ d. tt))))))

    by_opcode-Counts : (at opcode : ℕ) → Counts als (by_opcode ops fab als at opcode)
    unfolding by_opcode
    by_opcode-Counts at opcode =
        choose-Counts als (opcode == 0) _ _
          (then-Counts als (noop_run ops fab 254 1) _ λ n. plain-Counts (Op.noop n) refl)
          (choose-Counts als (opcode == 1) _ _ (plain-Counts Op.lt refl) (
            choose-Counts als (opcode == 2) _ _ (plain-Counts Op.eq refl) (
              choose-Counts als (opcode == 3) _ _ (plain-Counts Op.type_of refl) (
                choose-Counts als (opcode == 4) _ _ (plain-Counts Op.size refl) (
                  choose-Counts als (opcode == 5) _ _ (plain-Counts Op.new refl) (
                    choose-Counts als (opcode == 6) _ _ (plain-Counts Op.and refl) (
                      choose-Counts als (opcode == 7) _ _ (plain-Counts Op.or refl) (
                        choose-Counts als (opcode == 8) _ _ (plain-Counts Op.neg refl) (
                          choose-Counts als (opcode == 9) _ _ (plain-Counts Op.log refl) (
                            choose-Counts als (opcode == 10) _ _ (plain-Counts Op.root refl) (
                              choose-Counts als (opcode == 11) _ _ (plain-Counts Op.pop refl) (
                                choose-Counts als (opcode == 12) _ _ (popeq_op-Counts false) (
                                  choose-Counts als (opcode == 13) _ _ (popeq_op-Counts true) (
                                    choose-Counts als (opcode == 14) _ _
                                      (with_u32-Counts Op.addi λ n. refl)
                                      (choose-Counts als (opcode == 15) _ _
                                        (with_u32-Counts Op.subi λ n. refl)
                                        (choose-Counts als (opcode == 16) _ _ (push_op-Counts false)
                                          (choose-Counts als (opcode == 17) _ _
                                            (push_op-Counts true)
                                            (choose-Counts als (opcode == 18) _ _
                                              (with_u32-Counts Op.branch λ n. refl)
                                              (choose-Counts als (opcode == 19) _ _
                                                (with_u32-Counts Op.jmp λ n. refl)
                                                (choose-Counts als (opcode == 20) _ _
                                                  (plain-Counts Op.add refl)
                                                  (choose-Counts als (opcode == 21) _ _
                                                    (plain-Counts Op.sub refl)
                                                    (choose-Counts als (opcode == 22) _ _
                                                      (with_u32-Counts (Op.concat false) λ n. refl)
                                                      (choose-Counts als (opcode == 23) _ _
                                                        (with_u32-Counts (Op.concat true) λ n. refl)
                                                        (choose-Counts als (opcode == 24) _ _
                                                          (plain-Counts Op.member refl)
                                                          (choose-Counts als (opcode == 25) _ _
                                                            (plain-Counts (Op.rem false) refl)
                                                            (choose-Counts als (opcode == 26) _ _
                                                            (plain-Counts (Op.rem true) refl)
                                                            (by_range-Counts at
                                                            opcode)))))))))))))))))))))))))))

    decode_one-Counts : Counts als (decode_one ops fab als)
    unfolding decode_one
    decode_one-Counts d = then-Counts als (byte ops fab) _ (by_opcode-Counts d.at) d

  after-declares :
      (rounds : List Alignment → Decoder F → Decoded) (als : List Alignment)
      (r : Result DecodeError (Decoding × Decoder F))
      → Counted als r
      → ((als' : List Alignment) (d : Decoder F)
          → length (rounds als' d).alignments ≡ length als' + reads_in (rounds als' d).ops)
      → length (after ops fab rounds als r).alignments
        ≡ length als + reads_in (after ops fab rounds als r).ops
  unfolding after
  after-declares rounds als (ok ((op, als'), d)) h f = omega (arith, f als' d)
  after-declares rounds als (err e) h f = omega arith

  decode_from-declares :
      (fuel : ℕ) (als : List Alignment) (xs : List F) (at : ℕ)
      → let decoded = decode_from ops fab fuel als (record { rest = xs; at = at }) in
        length decoded.alignments ≡ length als + reads_in decoded.ops
  unfolding decode_from
  decode_from-declares zero als xs at = omega arith
  decode_from-declares (suc fuel) als [] at = omega arith
  decode_from-declares (suc fuel) als (x ∷ xs) at =
      after-declares (decode_from ops fab fuel) als _
        (decode_one-Counts als (record { rest = x ∷ xs; at = at }))
        λ als' d. decode_from-declares fuel als' d.rest d.at

  -- Whatever the elements are, and also where an error ends them, decode_prefix declares as many
  -- alignments as the program that it gives has reads.
  pub decode_prefix-declares :
      (elems : List F)
      → length (decode_prefix ops fab elems).alignments ≡ reads_in (decode_prefix ops fab elems).ops
  unfolding decode_prefix
  decode_prefix-declares elems =
      let counted = decode_from-declares (suc (length elems)) [] elems 0 in omega (arith, counted)
