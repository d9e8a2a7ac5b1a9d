-- ===== src/Executor/Decoder/RoundTrip/Program.antt =====
-- Decoding a whole transcript: where each operation's elements are read back, so is the program.
use minocrab.Prelude.{
  ok, ℕ, zero, suc, ◌<◌, ◌≡◌, refl, sym, ap, ◌∙◌, subst, none, List, [], ◌∷◌, ◌++◌, append_assoc,
  length, arith,
}
use minocrab.Ir.Field.{FieldOps, FieldLaws}
use minocrab.Ledger.Fab.{Alignment, Op, FabOps}
use minocrab.Executor.Decoder.Program.{
  Decoded, after, decode_one, decode_from, decode_prefix, whole, decode_program,
}
use minocrab.Executor.Decoder.Total.{Leaves}
use minocrab.Executor.Decoder.Total.Program.{decode_one-Takes}
use minocrab.Executor.Decoder.RoundTrip.{Decodes}
use minocrab.Executor.Decoder.RoundTrip.Ops.{DecodesOp}

abbrev pub flatten : {A : Type 0} → List (List A) → List A
flatten [] = []
flatten (xs ∷ xss) = xs ++ flatten xss

module _ {F : Type 0} (ops : FieldOps F) (fab : FabOps F) (laws : FieldLaws ops) where
  -- One read, with the alignment that it declares after those before it.
  abbrev pub DecodesRead : List F → Op → Alignment → Type 0
  DecodesRead xs op al =
      (als : List Alignment) → Decodes (decode_one ops fab als) xs (op, als ++ al ∷ [])

-- A list of streams, one for each operation of a program, and the alignments of its reads.
pub data ProgramDecodes {F : Type 0} (ops : FieldOps F) (fab : FabOps F) (laws : FieldLaws ops)
    : List (List F) → List Op → List Alignment → Type 0 where
  program_end : ProgramDecodes ops fab laws [] [] []
  program_op :
      (xs : List F) (op : Op) (streams : List (List F)) (program : List Op) (als : List Alignment)
      → DecodesOp ops fab laws xs op
      → ProgramDecodes ops fab laws streams program als
      → ProgramDecodes ops fab laws (xs ∷ streams) (op ∷ program) als
  program_read :
      (xs : List F) (op : Op) (al : Alignment) (streams : List (List F)) (program : List Op)
      (als : List Alignment)
      → DecodesRead ops fab laws xs op al
      → ProgramDecodes ops fab laws streams program als
      → ProgramDecodes ops fab laws (xs ∷ streams) (op ∷ program) (al ∷ als)

append-nil : {A : Type 0} (xs : List A) → xs ++ [] ≡ xs
append-nil [] = refl
append-nil (x ∷ xs) = ap (λ l. x ∷ l) (append-nil xs)

module _ {F : Type 0} (ops : FieldOps F) (fab : FabOps F) (laws : FieldLaws ops) where
  abbrev complete : List Op → List Alignment → Decoded
  complete program als = record { ops = program; alignments = als; error = none }

  abbrev with_op : Op → Decoded → Decoded
  with_op op decoded = record decoded { ops = op ∷ decoded.ops }

  -- A round of the loop on elements that one operation's read takes.
  decode_from-step :
      (fuel : ℕ) (declared declared' : List Alignment) (xs rest : List F) (at : ℕ) (op : Op)
      (decoded : Decoded)
      → length (xs ++ rest) < suc fuel
      → Decodes (decode_one ops fab declared) xs (op, declared')
      → ((at' : ℕ)
          → length rest < fuel
          → decode_from ops fab fuel declared' (record { rest = rest; at = at' }) ≡ decoded)
      → decode_from ops fab (suc fuel) declared (record { rest = xs ++ rest; at = at })
        ≡ with_op op decoded
  unfolding decode_from after
  decode_from-step fuel declared declared' [] rest at op decoded lt h next =
      let (at', e) = h rest at in
      let shorter : length rest < length rest =
        subst (λ r. Leaves (length rest) r) e
          (decode_one-Takes ops fab declared (record { rest = rest; at = at })) in
      absurd (omega arith)
  decode_from-step fuel declared declared' (x ∷ xs) rest at op decoded lt h next =
      let (at', e) = h rest at in
      let shorter : length rest < length (x ∷ (xs ++ rest)) =
        subst (λ r. Leaves (length (x ∷ (xs ++ rest))) r) e
          (decode_one-Takes ops fab declared (record { rest = x ∷ (xs ++ rest); at = at })) in
      ap (after ops fab (decode_from ops fab fuel) declared) e
      ∙ ap (with_op op) (next at' (omega arith))

  decode_from-Program :
      (fuel : ℕ) {streams : List (List F)} {program : List Op} {als : List Alignment}
      → ProgramDecodes ops fab laws streams program als
      → (declared : List Alignment) (at : ℕ) → length (flatten streams) < fuel
      → decode_from ops fab fuel declared (record { rest = flatten streams; at = at })
        ≡ complete program (declared ++ als)
  unfolding decode_from
  decode_from-Program zero h declared at lt = absurd (omega arith)
  decode_from-Program (suc fuel) ProgramDecodes.program_end declared at lt =
      ap (complete []) (sym (append-nil declared))
  decode_from-Program (suc fuel) (ProgramDecodes.program_op xs op streams program als h hs) declared
        at lt =
      decode_from-step fuel declared declared xs (flatten streams) at op
        (complete program (declared ++ als)) lt (h declared)
        λ at' lt'. decode_from-Program fuel hs declared at' lt'
  decode_from-Program (suc fuel) (ProgramDecodes.program_read xs op al streams program als h hs)
        declared at lt =
      decode_from-step fuel declared (declared ++ al ∷ []) xs (flatten streams) at op
        (complete program (declared ++ al ∷ als)) lt (h declared)
        λ at' lt'.
          decode_from-Program fuel hs (declared ++ al ∷ []) at' lt'
          ∙ ap (λ l. complete program l) (append_assoc declared (al ∷ []) als)

  -- A transcript whose operations are each read back is decoded whole: the program in order, the
  -- alignments of its reads in order, and no error.
  pub decode_prefix-Program :
      {streams : List (List F)} {program : List Op} {als : List Alignment}
      → ProgramDecodes ops fab laws streams program als
      → decode_prefix ops fab (flatten streams) ≡ complete program als
  unfolding decode_prefix
  decode_prefix-Program {streams} h =
      decode_from-Program (suc (length (flatten streams))) h [] 0 (omega arith)

  -- A transcript whose operations are each read back is decoded by decode_program into the
  -- program, in order, and the alignments of its reads, in order.
  pub decode_program-Program :
      {streams : List (List F)} {program : List Op} {als : List Alignment}
      → ProgramDecodes ops fab laws streams program als
      → decode_program ops fab (flatten streams) ≡ ok (program, als)
  unfolding decode_program whole
  decode_program-Program h = ap (whole ops fab) (decode_prefix-Program h)
