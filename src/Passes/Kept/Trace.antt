-- ===== src/Passes/Kept/Trace.antt =====
-- The map and the stream of `retain_kept` against an independent record of what became of each
-- input instruction.
use minocrab.Prelude.{
  ℕ, zero, suc, ◌+◌, ◌≤◌, ◌<◌, ◌≡◌, refl, sym, ap, ◌∙◌, Bool, true, false, Option, none, some, List,
  [], ◌∷◌, arith, All, length, get_elem?, take, ltb, if◌then◌else◌, ok, le→leb, lt→ltb, ok_or,
}
use minocrab.Passes.Kept.{
  Kept, bit, retain_from, retain_kept, index, input_len, output_len, position, boundary,
}

module _ {X : Type 0} where
  -- `none` for a dropped instruction, and what a kept one became.
  abbrev pub somes : List (Option X) → List X
  somes [] = []
  somes (none ∷ os) = somes os
  somes (some x ∷ os) = x ∷ somes os

  -- How many of the first `i` survived.
  abbrev pub rank : List (Option X) → ℕ → ℕ
  rank os i = length (somes (take i os))

  -- The survivor with `rank` survivors in front of it stands there.
  get_elem?-somes :
      (os : List (Option X)) (i : ℕ) (x : X)
      → get_elem? os i ≡ some (some x)
      → get_elem? (somes os) (rank os i) ≡ some x
  get_elem?-somes [] i x h = cc
  get_elem?-somes (none ∷ os) zero x h = cc
  get_elem?-somes (some y ∷ os) zero x h = cc
  get_elem?-somes (none ∷ os) (suc i) x h = get_elem?-somes os i x h
  get_elem?-somes (some y ∷ os) (suc i) x h = get_elem?-somes os i x h

  rank-suc-none :
      (os : List (Option X)) (i : ℕ) → get_elem? os i ≡ some none → rank os (suc i) ≡ rank os i
  rank-suc-none [] i h = cc
  rank-suc-none (none ∷ os) zero h = refl
  rank-suc-none (some y ∷ os) zero h = cc
  rank-suc-none (none ∷ os) (suc i) h = rank-suc-none os i h
  rank-suc-none (some y ∷ os) (suc i) h = ap suc (rank-suc-none os i h)

  rank-suc-some :
      (os : List (Option X)) (i : ℕ) (x : X)
      → get_elem? os i ≡ some (some x)
      → rank os (suc i) ≡ suc (rank os i)
  rank-suc-some [] i x h = cc
  rank-suc-some (none ∷ os) zero x h = cc
  rank-suc-some (some y ∷ os) zero x h = refl
  rank-suc-some (none ∷ os) (suc i) x h = rank-suc-some os i x h
  rank-suc-some (some y ∷ os) (suc i) x h = ap suc (rank-suc-some os i x h)

  take_all : (os : List (Option X)) → take (length os) os ≡ os
  take_all [] = refl
  take_all (o ∷ os) = ap (λ rest. o ∷ rest) (take_all os)

  -- Where instruction `i`, which became `o`, stands among the survivors.
  abbrev pub landed : List (Option X) → ℕ → Option X → Option ℕ
  landed os i none = none
  landed os i (some x) = some (rank os i)

  landed_lem :
      (os : List (Option X)) (i : ℕ) (o : Option X)
      → get_elem? os i ≡ some o
      → (if ltb (rank os i) (rank os (suc i)) then some (rank os i) else none) ≡ landed os i o
  landed_lem os i none h = ground (arith, rank-suc-none os i h)
  landed_lem os i (some x) h = ground (arith, rank-suc-some os i x h)

  get_elem?-lt :
      (os : List (Option X)) (i : ℕ) (o : Option X) → get_elem? os i ≡ some o → i < length os
  get_elem?-lt [] i o h = cc
  get_elem?-lt (x ∷ os) zero o h = omega arith
  get_elem?-lt (x ∷ os) (suc i) o h = omega (arith, get_elem?-lt os i o h)

  count_step :
      (n : ℕ) (k : Bool) (y : X) (os : List (Option X)) (i : ℕ)
      → n + bit k + rank os i ≡ n + rank ((if k then some y else none) ∷ os) (suc i)
  count_step n true y os i = omega arith
  count_step n false y os i = omega arith

module _ {X S : Type 0} (keep : S → X → Bool × X × S) where
  -- What the closure made of each instruction, in order.
  unfoldable pub survivors : S → List X → List (Option X)
  survivors s [] = []
  survivors s (x ∷ xs) =
      (if (keep s x).0 then some (keep s x).1 else none) ∷ survivors (keep s x).2 xs

  length-survivors : (s : S) (xs : List X) → length (survivors s xs) ≡ length xs
  unfolding survivors
  length-survivors s [] = refl
  length-survivors s (x ∷ xs) = ap suc (length-survivors (keep s x).2 xs)

  -- The stream that is left is the survivors, in order.
  pub retain_from-somes :
      (s : S) (n : ℕ) (xs : List X) → (retain_from keep s n xs).0 ≡ somes (survivors s xs)
  unfolding survivors retain_from
  retain_from-somes s n [] = refl
  retain_from-somes s n (x ∷ xs) =
      ground (arith, retain_from-somes (keep s x).2 (n + bit (keep s x).0) xs)

  pub length-retain_from_before :
      (s : S) (n : ℕ) (xs : List X) → length (retain_from keep s n xs).1 ≡ length xs
  unfolding retain_from
  length-retain_from_before s n [] = refl
  length-retain_from_before s n (x ∷ xs) =
      ap suc (length-retain_from_before (keep s x).2 (n + bit (keep s x).0) xs)

  -- The running count is the rank.
  get_elem?-retain_from_before :
      (s : S) (n : ℕ) (xs : List X) (i : ℕ)
      → i ≤ length xs
      → get_elem? (n ∷ (retain_from keep s n xs).1) i ≡ some (n + rank (survivors s xs) i)
  unfolding retain_from survivors
  get_elem?-retain_from_before s n xs zero h = ap some (omega arith)
  get_elem?-retain_from_before s n [] (suc i) h = absurd (omega arith)
  get_elem?-retain_from_before s n (x ∷ xs) (suc i) h =
      get_elem?-retain_from_before (keep s x).2 (n + bit (keep s x).0) xs i (omega arith)
      ∙ ap some (count_step n (keep s x).0 (keep s x).1 (survivors (keep s x).2 xs) i)

  -- What `retain_kept` leaves is the survivors in order.
  pub retain_kept-somes : (s : S) (xs : List X) → (retain_kept keep s xs).0 ≡ somes (survivors s xs)
  unfolding retain_kept
  retain_kept-somes s xs = retain_from-somes s 0 xs

  pub index-retain_kept :
      (s : S) (xs : List X) (i : ℕ)
      → i ≤ length xs
      → index (retain_kept keep s xs).1.before i ≡ ok (rank (survivors s xs) i)
  unfolding retain_kept index
  index-retain_kept s xs i h =
      ap (λ o. ok_or o "index out of bounds") (get_elem?-retain_from_before s 0 xs i h)
      ∙ ap ok (omega arith)

  pub input_len-retain_kept :
      (s : S) (xs : List X) → input_len (retain_kept keep s xs).1 ≡ length xs
  unfolding retain_kept input_len
  input_len-retain_kept s xs = omega (arith, length-retain_from_before s 0 xs)

  -- Every boundary of the input lands at the number of survivors in front of it.
  pub boundary-retain_kept :
      (s : S) (xs : List X) (i : ℕ)
      → i ≤ length xs
      → boundary (retain_kept keep s xs).1 i ≡ ok (rank (survivors s xs) i)
  unfolding boundary
  boundary-retain_kept s xs i h =
      rw (input_len-retain_kept s xs, le→leb i (length xs) h, index-retain_kept s xs i h) refl

  -- A kept instruction is found where the map says.
  pub position-retain_kept :
      (s : S) (xs : List X) (i : ℕ) (o : Option X)
      → get_elem? (survivors s xs) i ≡ some o
      → position (retain_kept keep s xs).1 i ≡ ok (landed (survivors s xs) i o)
  unfolding position
  position-retain_kept s xs i o h =
      rw
        (
          input_len-retain_kept s xs,
          lt→ltb i (length xs) in_range,
          index-retain_kept s xs i (omega (arith, in_range)),
          next,
        )
        (ap ok (landed_lem (survivors s xs) i o h))
    where
      in_range : i < length xs
      in_range = omega (arith, length-survivors s xs, get_elem?-lt (survivors s xs) i o h)

      next : index (retain_kept keep s xs).1.before (i + 1) ≡ ok (rank (survivors s xs) (suc i))
      next =
          ap (index (retain_kept keep s xs).1.before) (omega arith)
          ∙ index-retain_kept s xs (suc i) (omega (arith, in_range))

  -- The stream that the map describes has the length that the map says.
  pub output_len-retain_kept :
      (s : S) (xs : List X)
      → output_len (retain_kept keep s xs).1 ≡ ok (length (retain_kept keep s xs).0)
  unfolding output_len
  output_len-retain_kept s xs =
      rw
        (
          input_len-retain_kept s xs,
          index-retain_kept s xs (length xs) (omega arith),
          retain_kept-somes s xs,
        )
        (ap (λ os. ok (length (somes os))) everything)
    where
      everything : take (length xs) (survivors s xs) ≡ survivors s xs
      everything =
          ap (λ n. take n (survivors s xs)) (sym (length-survivors s xs))
          ∙ take_all (survivors s xs)

  -- The map of `retain_kept` and the stream that it returns fit together: the output's length, and
  -- for every boundary of the input the number of survivors in front of it, which is at most that
  -- length.
  pub retain_kept-boundaries :
      (s : S) (xs : List X) (i : ℕ)
      → i ≤ length xs
      → let (out, kept) = retain_kept keep s xs in
        (output_len kept ≡ ok (length out))
        × (boundary kept i ≡ ok (rank (survivors s xs) i))
        × (out ≡ somes (survivors s xs))
  retain_kept-boundaries s xs i h =
      (output_len-retain_kept s xs, boundary-retain_kept s xs i h, retain_kept-somes s xs)

  -- Where input instruction `i`, which became `o`, went: nowhere if it was dropped, else to the
  -- position that the map gives, where the output has what it became.
  abbrev pub Lands : List X × Kept → ℕ → Option X → Type 0
  Lands (out, kept) i none = position kept i ≡ ok none
  Lands (out, kept) i (some y) =
      (p : ℕ) × (position kept i ≡ ok (some p)) × (get_elem? out p ≡ some y)

  -- Each instruction of the input lands: a dropped one has no position, and a kept one has the
  -- position at which the output holds what it became.
  pub retain_kept-Lands :
      (s : S) (xs : List X) (i : ℕ) (o : Option X)
      → get_elem? (survivors s xs) i ≡ some o
      → Lands (retain_kept keep s xs) i o
  retain_kept-Lands s xs i none h = position-retain_kept s xs i none h
  retain_kept-Lands s xs i (some y) h = (
    rank (survivors s xs) i,
    position-retain_kept s xs i (some y) h,
    rw (retain_kept-somes s xs) (get_elem?-somes (survivors s xs) i y h),
  )

  All-if {ℓ} :
      (P : X → Type ℓ) (b : Bool) (y : X) (out : List X)
      → P y
      → All P out
      → All P (if b then y ∷ out else out)
  All-if P true y out p h = (p, h)
  All-if P false y out p h = h

  -- A predicate that the closure keeps of each instruction holds of the ones that are left.
  pub All-retain_from {ℓ} :
      (P : X → Type ℓ)
      → ((s : S) (x : X) → P x → P (keep s x).1)
      → (s : S) (n : ℕ) (xs : List X) → All P xs
      → All P (retain_from keep s n xs).0
  unfolding retain_from
  All-retain_from P f s n [] h = tt
  All-retain_from P f s n (x ∷ xs) (p, h) =
      All-if P (keep s x).0 (keep s x).1 _ (f s x p)
        (All-retain_from P f (keep s x).2 (n + bit (keep s x).0) xs h)
