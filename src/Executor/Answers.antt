-- ===== src/Executor/Answers.antt =====
-- What the comparisons of crates/minocrab-sim/src/v3/exec.rs decide: equal alignments, equal field
-- elements, and a program filled with the values that its reads are answered with.
use minocrab.Prelude.{
  ℕ, ◌+◌, ◌≡◌, refl, sym, ap, ◌∙◌, Bool, true, false, Option, none, some, List, [], ◌∷◌, map, All,
  length, arith, ==_iff, if◌then◌else◌, Result, ok, err, and_then, and_then-eq-ok, inl, inr, ◌⊎◌,
  subst,
}
use minocrab.Ir.Field.{FieldOps, FieldLaws}
use minocrab.Ledger.Fab.{AlignmentAtom, bytes, compress, field, Alignment, AlignedValue, Op}
use minocrab.Executor.Decoder.Declares.{is_read, reads_in}
use minocrab.Executor.Execute.{VmOp, atom_eq, alignment_eq, check_alignments, with_reads, elems_eq}

-- The values that a finished program's operations carry, in order.
abbrev pub values : List VmOp → List AlignedValue
values [] = []
values ((op, some v) ∷ vm_ops) = v ∷ values vm_ops
values ((op, none) ∷ vm_ops) = values vm_ops

abbrev pub is_some : Option AlignedValue → Bool
is_some (some v) = true
is_some none = false

-- The finished program is the given one, its reads and only they carry values, and these are the
-- given ones in order.
pub record Fills (program : List Op) (reads : List AlignedValue) (vm_ops : List VmOp) : Type 0 where
  pub same : map (λ vm_op. vm_op.0) vm_ops ≡ program
  pub carried : All (λ vm_op. is_some vm_op.1 ≡ is_read vm_op.0) vm_ops
  pub ordered : values vm_ops ≡ reads

cons_cong : {A : Type 0} {x y : A} {xs ys : List A} → x ≡ y → xs ≡ ys → x ∷ xs ≡ y ∷ ys
cons_cong e e' = cc

atom_eq-eq : (a b : AlignmentAtom) → atom_eq a b ≡ true → a ≡ b
unfolding atom_eq
atom_eq-eq (bytes m) (bytes n) h = ap bytes ((==_iff m n).0 h)
atom_eq-eq (bytes m) compress h = cc
atom_eq-eq (bytes m) field h = cc
atom_eq-eq compress (bytes n) h = cc
atom_eq-eq compress compress h = refl
atom_eq-eq compress field h = cc
atom_eq-eq field (bytes n) h = cc
atom_eq-eq field compress h = cc
atom_eq-eq field field h = refl

-- Both tests of a conjunction written as a branch.
both_true : (p q : Bool) → (if p then q else false) ≡ true → (p ≡ true) × (q ≡ true)
both_true true q h = (refl, h)
both_true false q h = cc

alignment_eq-eq : (al bl : Alignment) → alignment_eq al bl ≡ true → al ≡ bl
unfolding alignment_eq
alignment_eq-eq [] [] h = refl
alignment_eq-eq [] (b ∷ bl) h = cc
alignment_eq-eq (a ∷ al) [] h = cc
alignment_eq-eq (a ∷ al) (b ∷ bl) h =
    let (same, rest) = both_true (atom_eq a b) (alignment_eq al bl) h in
    cons_cong (atom_eq-eq a b same) (alignment_eq-eq al bl rest)

accepted :
    {E A : Type 0} (p : Bool) (r : Result E A) (e : E) {a : A}
    → (if p then r else err e) ≡ ok a
    → (p ≡ true) × (r ≡ ok a)
accepted true r e h = (refl, h)
accepted false r e h = cc

-- As many reads as declared alignments that pass the check have these alignments.
pub check_alignments-eq :
    (index : ℕ) (als : List Alignment) (reads : List AlignedValue)
    → length reads ≡ length als
    → check_alignments index als reads ≡ ok tt
    → map (λ v. v.alignment) reads ≡ als
unfolding check_alignments
check_alignments-eq index [] [] e h = refl
check_alignments-eq index [] (v ∷ reads) e h = absurd (omega (arith, e))
check_alignments-eq index (al ∷ als) [] e h = absurd (omega (arith, e))
check_alignments-eq index (al ∷ als) (v ∷ reads) e h =
    let (same, rest) =
      accepted (alignment_eq al v.alignment) (check_alignments (index + 1) als reads) _ h in
    cons_cong (sym (alignment_eq-eq al v.alignment same))
      (check_alignments-eq (index + 1) als reads (omega (arith, e)) rest)

-- Equal lists of field elements stand for equal numbers.
pub elems_eq-eq :
    {F : Type 0} (ops : FieldOps F) (laws : FieldLaws ops) (xs ys : List F)
    → elems_eq ops xs ys ≡ true
    → map laws.to_nat xs ≡ map laws.to_nat ys
unfolding elems_eq
elems_eq-eq ops laws [] [] h = refl
elems_eq-eq ops laws [] (y ∷ ys) h = cc
elems_eq-eq ops laws (x ∷ xs) [] h = cc
elems_eq-eq ops laws (x ∷ xs) (y ∷ ys) h =
    let (same, rest) = both_true (ops.eq x y) (elems_eq ops xs ys) h in
    cons_cong ((laws.eq_iff x y).0 same) (elems_eq-eq ops laws xs ys rest)

-- The step of with_reads at an operation that reads nothing.
abbrev PassesOn : Op → List Op → Type 0
PassesOn op program =
    (is_read op ≡ false)
    × ((reads : List AlignedValue)
        → with_reads (op ∷ program) reads
          ≡ and_then (with_reads program reads) λ ops. ok ((op, none) ∷ ops))

Op-cases :
    (op : Op) (program : List Op) → ((cached : Bool) × (op ≡ Op.popeq cached)) ⊎ PassesOn op program
unfolding with_reads
Op-cases (Op.popeq cached) program = inl (cached, refl)
Op-cases (Op.noop x) program = inr (refl, λ reads. refl)
Op-cases Op.lt program = inr (refl, λ reads. refl)
Op-cases Op.eq program = inr (refl, λ reads. refl)
Op-cases Op.type_of program = inr (refl, λ reads. refl)
Op-cases Op.size program = inr (refl, λ reads. refl)
Op-cases Op.new program = inr (refl, λ reads. refl)
Op-cases Op.and program = inr (refl, λ reads. refl)
Op-cases Op.or program = inr (refl, λ reads. refl)
Op-cases Op.neg program = inr (refl, λ reads. refl)
Op-cases Op.log program = inr (refl, λ reads. refl)
Op-cases Op.root program = inr (refl, λ reads. refl)
Op-cases Op.pop program = inr (refl, λ reads. refl)
Op-cases (Op.addi x) program = inr (refl, λ reads. refl)
Op-cases (Op.subi x) program = inr (refl, λ reads. refl)
Op-cases (Op.push x y) program = inr (refl, λ reads. refl)
Op-cases (Op.branch x) program = inr (refl, λ reads. refl)
Op-cases (Op.jmp x) program = inr (refl, λ reads. refl)
Op-cases Op.add program = inr (refl, λ reads. refl)
Op-cases Op.sub program = inr (refl, λ reads. refl)
Op-cases (Op.concat x y) program = inr (refl, λ reads. refl)
Op-cases Op.member program = inr (refl, λ reads. refl)
Op-cases (Op.rem x) program = inr (refl, λ reads. refl)
Op-cases (Op.dup x) program = inr (refl, λ reads. refl)
Op-cases (Op.swap x) program = inr (refl, λ reads. refl)
Op-cases (Op.idx x y z) program = inr (refl, λ reads. refl)
Op-cases (Op.ins x y) program = inr (refl, λ reads. refl)
Op-cases Op.ckpt program = inr (refl, λ reads. refl)

injective : {E A : Type 0} {a b : A} → ◌≡◌ {A = Result E A} (ok a) (ok b) → a ≡ b
injective e = cc

not_ok : {E A : Type 0} {e : E} {a : A} → ◌≡◌ {A = Result E A} (err e) (ok a) → ⊥
not_ok h = cc

no_values :
    (op : Op) {program : List Op} {reads : List AlignedValue} {vm_ops : List VmOp}
    → is_read op ≡ false
    → Fills program reads vm_ops
    → Fills (op ∷ program) reads ((op, none) ∷ vm_ops)
no_values op quiet fills = record {
  same = ap (λ l. op ∷ l) fills.same;
  carried = (sym quiet, fills.carried);
  ordered = fills.ordered;
}

answered_by :
    (cached : Bool) (v : AlignedValue) {program : List Op} {reads : List AlignedValue}
    {vm_ops : List VmOp}
    → Fills program reads vm_ops
    → Fills (Op.popeq cached ∷ program) (v ∷ reads) ((Op.popeq cached, some v) ∷ vm_ops)
answered_by cached v fills = record {
  same = ap (λ l. Op.popeq cached ∷ l) fills.same;
  carried = (refl, fills.carried);
  ordered = ap (λ l. v ∷ l) fills.ordered;
}

-- An operation that reads nothing, before a program that is filled.
passed :
    (op : Op) (program : List Op) (reads : List AlignedValue) {vm_ops : List VmOp}
    → is_read op ≡ false
    → and_then (with_reads program reads) (λ ops. ok ((op, none) ∷ ops)) ≡ ok vm_ops
    → ((rest : List VmOp) → with_reads program reads ≡ ok rest → Fills program reads rest)
    → Fills (op ∷ program) reads vm_ops
passed op program reads quiet h filled =
    let (rest, made, e) =
      and_then-eq-ok (with_reads program reads) (λ ops. ok ((op, none) ∷ ops)) h in
    subst (Fills (op ∷ program) reads) (injective e) (no_values op quiet (filled rest made))

reads_in_quiet :
    (op : Op) (program : List Op) → is_read op ≡ false → reads_in (op ∷ program) ≡ reads_in program
reads_in_quiet op program quiet = ground (arith, quiet)

-- What with_reads returns for as many reads as the program has is the program filled with them.
pub with_reads-Fills :
    (program : List Op) (reads : List AlignedValue) {vm_ops : List VmOp}
    → length reads ≡ reads_in program
    → with_reads program reads ≡ ok vm_ops
    → Fills program reads vm_ops
unfolding with_reads
with_reads-Fills [] [] as_many h =
    subst (Fills [] []) (injective h) (record { same = refl; carried = tt; ordered = refl })
with_reads-Fills [] (v ∷ reads) as_many h = absurd (omega (arith, as_many))
with_reads-Fills (op ∷ program) [] {vm_ops} as_many h = elim (Op-cases op program) [
  | inl (cached, is_popeq) ↦
      absurd (not_ok (subst (λ o. with_reads (o ∷ program) [] ≡ ok vm_ops) is_popeq h))
  | inr (quiet, step) ↦
      passed op program [] quiet (sym (step []) ∙ h)
        λ rest made. with_reads-Fills program [] (as_many ∙ reads_in_quiet op program quiet) made
]
with_reads-Fills (op ∷ program) (v ∷ reads) {vm_ops} as_many h = elim (Op-cases op program) [
  | inl (cached, is_popeq) ↦
      let (rest, made, e) =
        and_then-eq-ok (with_reads program reads) (λ ops. ok ((Op.popeq cached, some v) ∷ ops))
          (subst (λ o. with_reads (o ∷ program) (v ∷ reads) ≡ ok vm_ops) is_popeq h) in
      let counted = as_many ∙ ap (λ o. reads_in (o ∷ program)) is_popeq in
      subst (λ o. Fills (o ∷ program) (v ∷ reads) vm_ops) (sym is_popeq)
        (subst (Fills (Op.popeq cached ∷ program) (v ∷ reads)) (injective e)
          (answered_by cached v (with_reads-Fills program reads (omega (arith, counted)) made)))
  | inr (quiet, step) ↦
      passed op program (v ∷ reads) quiet (sym (step (v ∷ reads)) ∙ h) λ rest made.
        with_reads-Fills program (v ∷ reads) (as_many ∙ reads_in_quiet op program quiet) made
]
