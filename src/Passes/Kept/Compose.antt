-- ===== src/Passes/Kept/Compose.antt =====
-- `Kept::compose` on maps between streams of known lengths
-- (crates/minocrab-ir/src/v3/passes/kept.rs).
use minocrab.Prelude.{
  ℕ, zero, suc, ◌+◌, ◌≤◌, ◌<◌, ◌≡◌, refl, sym, ap, ◌∙◌, Bool, true, false, some, List, [], ◌∷◌,
  arith, length, get_elem?, All, All-map, ==_iff, Result, ok, and_then, ok_or, collect,
  if◌then◌else◌,
}
use minocrab.Passes.Kept.{
  Kept, bit, count_up, identity, retain_from, retain_kept, index, input_len, output_len, compose,
}
use minocrab.Passes.Kept.Trace.{
  input_len-retain_kept, output_len-retain_kept, length-retain_from_before,
}

get_elem?-All {ℓ κ} :
    {B : Type ℓ} (Q : B → Type κ) (xs : List B) (i : ℕ)
    → All Q xs
    → i < length xs
    → (y : B) × (get_elem? xs i ≡ some y) × Q y
get_elem?-All Q [] i q h = absurd (omega arith)
get_elem?-All Q (x ∷ xs) zero q h = (x, refl, q.0)
get_elem?-All Q (x ∷ xs) (suc i) q h = get_elem?-All Q xs i q.1 (omega arith)

-- What `ys` holds in place of each element of `xs`.
Replaces {ℓ κ} : {E : Type ℓ} {B : Type κ} → E → (ℕ → Result E B) → List ℕ → List B → Type (ℓ ⊔ κ)
Replaces e f xs ys = (i : ℕ) → and_then (ok_or (get_elem? xs i) e) f ≡ ok_or (get_elem? ys i) e

collect_lem {ℓ κ μ} :
    {E : Type ℓ} {B : Type κ} (Q : B → Type μ) (e : E) (f : ℕ → Result E B) (xs : List ℕ)
    → All (λ x. (y : B) × (f x ≡ ok y) × Q y) xs
    → (ys : List B) × (collect f xs ≡ ok ys)
      × (length ys ≡ length xs)
      × All Q ys
      × Replaces e f xs ys
unfolding Replaces
collect_lem Q e f [] h = ([], refl, refl, tt, λ i. refl)
collect_lem Q e f (x ∷ xs) ((y, p, q), h) =
    let (ys, c, len, all, rep) = collect_lem Q e f xs h in
    (y ∷ ys, rw (p, c) refl, ap suc len, (q, all), replaced ys rep)
  where
    replaced : (ys : List _) → Replaces e f xs ys → Replaces e f (x ∷ xs) (y ∷ ys)
    replaced ys rep zero = p
    replaced ys rep (suc i) = rep i

-- The map starts at a stream of length `n` and ends at one of length `m`.
abbrev pub Covers : Kept → ℕ → ℕ → Type 0
Covers k n m = (length k.before ≡ suc n) × All (λ b. b ≤ m) k.before × (index k.before n ≡ ok m)

-- A composition asks the first map, then the second.
abbrev pub Follows : Kept → Kept → Kept → Type 0
Follows j k l = (i : ℕ) → index j.before i ≡ and_then (index k.before i) (index l.before)

pub input_len-Covers : (k : Kept) (n m : ℕ) → Covers k n m → input_len k ≡ n
unfolding input_len
input_len-Covers k n m c = omega (arith, c.0)

pub output_len-Covers : (k : Kept) (n m : ℕ) → Covers k n m → output_len k ≡ ok m
unfolding output_len
output_len-Covers k n m c = ap (index k.before) (input_len-Covers k n m c) ∙ c.2

-- Maps over matching streams compose: there is no panic, the result goes from the first stream to
-- the last, and it sends every boundary where the two maps send it in turn.
pub compose-Covers :
    (k l : Kept) (n m p : ℕ)
    → Covers k n m
    → Covers l m p
    → (j : Kept) × (compose k l ≡ ok j) × Covers j n p × Follows j k l
unfolding compose index Replaces
compose-Covers k l n m p c d =
    let (ys, collected, len, all, rep) =
      collect_lem (λ b. b ≤ p) "index out of bounds" (index l.before) k.before
        (All-map
          (λ b below.
            let (y, at, under) =
              get_elem?-All (λ x. x ≤ p) l.before b d.1 (omega (arith, d.0, below)) in
            (y, rw at refl, under))
          k.before c.1) in
    (
      record { before = ys },
      rw (output_len-Covers k n m c, input_len-Covers l m p d, (==_iff m m).1 refl, collected) refl,
      (len ∙ c.0, all, sym (rep n) ∙ rw c.2 d.2),
      λ i. sym (rep i),
    )

count_up-below : (len from m : ℕ) → from + len ≤ m → All (λ b. b ≤ m) (count_up len from)
unfolding count_up
count_up-below zero from m h = (omega (arith, h), tt)
count_up-below (suc len) from m h =
    (omega (arith, h), count_up-below len (from + 1) m (omega (arith, h)))

length-count_up : (len from : ℕ) → length (count_up len from) ≡ suc len
unfolding count_up
length-count_up zero from = refl
length-count_up (suc len) from = ap suc (length-count_up len (from + 1))

get_elem?-count_up : (len from : ℕ) → get_elem? (count_up len from) len ≡ some (from + len)
unfolding count_up
get_elem?-count_up zero from = ap some (omega arith)
get_elem?-count_up (suc len) from = get_elem?-count_up len (from + 1) ∙ ap some (omega arith)

pub identity-Covers : (n : ℕ) → Covers (identity n) n n
unfolding identity index
identity-Covers n = (
  length-count_up n 0,
  count_up-below n 0 n (omega arith),
  rw (get_elem?-count_up n 0) (ap ok (omega arith)),
)

module _ {X S : Type 0} (keep : S → X → Bool × X × S) where
  kept_length :
      (k : Bool) (n : ℕ) (y : X) (out : List X)
      → (n + bit k) + length out ≡ n + length (if k then y ∷ out else out)
  kept_length true n y out = omega arith
  kept_length false n y out = omega arith

  retain_from-below :
      (s : S) (n : ℕ) (xs : List X)
      → All (λ b. b ≤ n + length (retain_from keep s n xs).0) (retain_from keep s n xs).1
  unfolding retain_from
  retain_from-below s n [] = tt
  retain_from-below s n (x ∷ xs) =
      let (k, y, s') = keep s x in
      let same = kept_length k n y (retain_from keep s' (n + bit k) xs).0 in
      (
        omega (arith, same),
        All-map (λ b h. omega (arith, same, h)) (retain_from keep s' (n + bit k) xs).1
            (retain_from-below s' (n + bit k) xs),
      )

  index_last :
      (s : S) (xs : List X)
      → index (retain_kept keep s xs).1.before (length xs) ≡ ok (length (retain_kept keep s xs).0)
  unfolding output_len
  index_last s xs =
      ap (index (retain_kept keep s xs).1.before) (sym (input_len-retain_kept keep s xs))
      ∙ output_len-retain_kept keep s xs

  pub retain_kept-Covers :
      (s : S) (xs : List X)
      → Covers (retain_kept keep s xs).1 (length xs) (length (retain_kept keep s xs).0)
  unfolding retain_kept
  retain_kept-Covers s xs = (
    ap suc (length-retain_from_before keep s 0 xs),
    (
      omega arith,
      All-map (λ b h. omega (arith, h)) (retain_from keep s 0 xs).1 (retain_from-below s 0 xs),
    ),
    index_last s xs,
  )
