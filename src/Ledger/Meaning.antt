-- ===== src/Ledger/Meaning.antt =====
-- What encoded ledger operations mean: with the wires' values put in, the executor's decoder reads
-- each operation's elements back as an operation of the Impact VM.
pub mod Elements
pub mod Pushes
pub mod Steps
pub mod Cells
pub mod Collections
pub mod Structures
pub mod Blind
pub mod Kernel
pub mod Context
pub mod Reads
use minocrab.Prelude.{
  ℕ, ◌≡◌, refl, sym, ap, ◌∙◌, subst, String, List, [], ◌∷◌, ◌++◌, map, length, suc, Result, ok, err,
}
use minocrab.Ir.Field.{FieldOps, FieldLaws}
use minocrab.Ledger.Fab.{Alignment, Op, FabOps}
use minocrab.Ledger.Impact.{ImpactElem, imm, wire, ImpactOp, vec, extend}
use minocrab.Executor.Decoder.{decode_program}
use minocrab.Executor.Decoder.RoundTrip.Ops.{DecodesOp}
use minocrab.Executor.Decoder.RoundTrip.Program.{
  DecodesRead, ProgramDecodes, program_end, program_op, program_read, flatten,
  decode_program-Program,
}

pub map-append :
    {A B : Type 0} (f : A → B) (xs ys : List A) → map f (xs ++ ys) ≡ map f xs ++ map f ys
map-append f [] ys = refl
map-append f (x ∷ xs) ys = ap (λ l. f x ∷ l) (map-append f xs ys)

module _ {F W : Type 0} (ρ : W → F) where
  -- The field element that an element of a stream stands for, the wires having their values.
  abbrev pub value : ImpactElem F W → F
  value (imm x) = x
  value (wire w) = ρ w

  abbrev pub fields : ImpactOp F W → List F
  fields op = map value op

  pub fields-imm : (xs : List F) → map value (map imm xs) ≡ xs
  fields-imm [] = refl
  fields-imm (x ∷ xs) = ap (λ l. x ∷ l) (fields-imm xs)

module _ {F W : Type 0} (ops : FieldOps F) (fab : FabOps F) (laws : FieldLaws ops) (ρ : W → F) where
  -- The encoder does not panic, and what it encodes is read back as the operation.
  abbrev pub MeansOp : Result String (ImpactOp F W) → Op → Type 0
  MeansOp r op = (o : ImpactOp F W) × (r ≡ ok o) × DecodesOp ops fab laws (fields ρ o) op

  abbrev pub MeansRead : Result String (ImpactOp F W) → Op → Alignment → Type 0
  MeansRead r op al = (o : ImpactOp F W) × (r ≡ ok o) × DecodesRead ops fab laws (fields ρ o) op al

  -- The same for the encoder of several operations.
  abbrev pub Means : Result String (List (ImpactOp F W)) → List Op → List Alignment → Type 0
  Means r program als =
      (os : List (ImpactOp F W)) × (r ≡ ok os)
      × ProgramDecodes ops fab laws (map (fields ρ) os) program als

-- Encoders in order, the operations they mean, and the alignments of the reads.
pub data VecMeans {F W : Type 0} (ops : FieldOps F) (fab : FabOps F) (laws : FieldLaws ops)
    (ρ : W → F) : List (Result String (ImpactOp F W)) → List Op → List Alignment → Type 0 where
  vec_end : VecMeans ops fab laws ρ [] [] []
  vec_op :
      {r : Result String (ImpactOp F W)} {op : Op} {rs : List (Result String (ImpactOp F W))}
      {program : List Op} {als : List Alignment}
      → MeansOp ops fab laws ρ r op
      → VecMeans ops fab laws ρ rs program als
      → VecMeans ops fab laws ρ (r ∷ rs) (op ∷ program) als
  vec_read :
      {r : Result String (ImpactOp F W)} {op : Op} {al : Alignment}
      {rs : List (Result String (ImpactOp F W))} {program : List Op} {als : List Alignment}
      → MeansRead ops fab laws ρ r op al
      → VecMeans ops fab laws ρ rs program als
      → VecMeans ops fab laws ρ (r ∷ rs) (op ∷ program) (al ∷ als)

module _ {F W : Type 0} (ops : FieldOps F) (fab : FabOps F) (laws : FieldLaws ops) (ρ : W → F) where
  pub vec-Means :
      {rs : List (Result String (ImpactOp F W))} {program : List Op} {als : List Alignment}
      → VecMeans ops fab laws ρ rs program als
      → Means ops fab laws ρ (vec rs) program als
  unfolding vec
  vec-Means VecMeans.vec_end = ([], refl, ProgramDecodes.program_end)
  vec-Means (VecMeans.vec_op (o, e, h) hs) =
      let (os, es, ps) = vec-Means hs in
      (o ∷ os, rw (e, es), ProgramDecodes.program_op _ _ _ _ _ h ps)
  vec-Means (VecMeans.vec_read (o, e, h) hs) =
      let (os, es, ps) = vec-Means hs in
      (o ∷ os, rw (e, es), ProgramDecodes.program_read _ _ _ _ _ _ h ps)

  append-ProgramDecodes :
      {xs ys : List (List F)} {p q : List Op} {als bls : List Alignment}
      → ProgramDecodes ops fab laws xs p als
      → ProgramDecodes ops fab laws ys q bls
      → ProgramDecodes ops fab laws (xs ++ ys) (p ++ q) (als ++ bls)
  append-ProgramDecodes ProgramDecodes.program_end k = k
  append-ProgramDecodes (ProgramDecodes.program_op xs op streams program als h hs) k =
      ProgramDecodes.program_op _ _ _ _ _ h (append-ProgramDecodes hs k)
  append-ProgramDecodes (ProgramDecodes.program_read xs op al streams program als h hs) k =
      ProgramDecodes.program_read _ _ _ _ _ _ h (append-ProgramDecodes hs k)

  pub extend-Means :
      {r s : Result String (List (ImpactOp F W))} {p q : List Op} {als bls : List Alignment}
      → Means ops fab laws ρ r p als
      → Means ops fab laws ρ s q bls
      → Means ops fab laws ρ (extend r s) (p ++ q) (als ++ bls)
  unfolding extend
  extend-Means {p} {q} {als} {bls} (os, e, h) (more, e', h') = (
    os ++ more,
    rw (e, e'),
    subst (λ l. ProgramDecodes ops fab laws l (p ++ q) (als ++ bls))
        (sym (map-append (fields ρ) os more)) (append-ProgramDecodes h h'),
  )

module _ {F W : Type 0} (ops : FieldOps F) (fab : FabOps F) (laws : FieldLaws ops) (ρ : W → F) where
  -- Two encoded sequences, one after the other.
  pub both-Means :
      (xs ys : List (ImpactOp F W)) {p q : List Op} {als bls : List Alignment}
      → ProgramDecodes ops fab laws (map (fields ρ) xs) p als
      → ProgramDecodes ops fab laws (map (fields ρ) ys) q bls
      → Means ops fab laws ρ (ok (xs ++ ys)) (p ++ q) (als ++ bls)
  both-Means xs ys {p} {q} {als} {bls} h k = (
    xs ++ ys,
    refl,
    subst (λ l. ProgramDecodes ops fab laws l (p ++ q) (als ++ bls))
        (sym (map-append (fields ρ) xs ys)) (append-ProgramDecodes ops fab laws ρ h k),
  )

  -- The encoder gives a transcript, and `decode_program` reads the program back from it, with the
  -- alignments of its reads.
  abbrev pub Implements : Result String (List (ImpactOp F W)) → List Op → List Alignment → Type 0
  Implements r program als =
      (os : List (ImpactOp F W)) × (r ≡ ok os)
      × (decode_program ops fab (flatten (map (fields ρ) os)) ≡ ok (program, als))

  pub Means-Implements :
      {r : Result String (List (ImpactOp F W))} {program : List Op} {als : List Alignment}
      → Means ops fab laws ρ r program als
      → Implements r program als
  Means-Implements (os, e, h) = (os, e, decode_program-Program ops fab laws h)

  -- A program has one operation for each that was encoded.
  pub length-ProgramDecodes :
      {streams : List (List F)} {program : List Op} {als : List Alignment}
      → ProgramDecodes ops fab laws streams program als
      → length streams ≡ length program
  length-ProgramDecodes ProgramDecodes.program_end = refl
  length-ProgramDecodes (ProgramDecodes.program_op _ _ _ _ _ h hs) =
      ap suc (length-ProgramDecodes hs)
  length-ProgramDecodes (ProgramDecodes.program_read _ _ _ _ _ _ h hs) =
      ap suc (length-ProgramDecodes hs)

pub length-map : {A B : Type 0} (f : A → B) (xs : List A) → length (map f xs) ≡ length xs
length-map f [] = refl
length-map f (x ∷ xs) = ap suc (length-map f xs)
