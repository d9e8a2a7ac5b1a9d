-- ===== src/Tests/Kept.antt =====
-- The maps of the passes on small streams of numbers, of which the even ones are kept and doubled.
use minocrab.Prelude.{
  ℕ, ◌+◌, ◌%◌, ◌≡◌, refl, Bool, some, List, [], ◌∷◌, length, get_elem?, arith, ◌==◌, ok,
}
use minocrab.Passes.Kept.{Kept, retain_kept, identity, output_len, boundary, index, compose}
use minocrab.Passes.Kept.Trace.{
  survivors, Lands, rank, somes, retain_kept-Lands, retain_kept-boundaries,
}
use minocrab.Passes.Kept.Compose.{Covers, Follows, compose-Covers, identity-Covers}

abbrev keep_even : Unit {0} → ℕ → Bool × ℕ × Unit {0}
keep_even s n = (n % 2 == 0, n + n, s)

abbrev numbers : List ℕ
numbers = 1 ∷ 2 ∷ 3 ∷ 4 ∷ []

fourth_survives : get_elem? (survivors keep_even tt numbers) 3 ≡ some (some 8)
unfolding survivors
fourth_survives = refl

retain_kept-Lands_example : Lands keep_even (retain_kept keep_even tt numbers) 3 (some 8)
retain_kept-Lands_example = retain_kept-Lands keep_even tt numbers 3 (some 8) fourth_survives

retain_kept-boundaries_example :
    (output_len (retain_kept keep_even tt numbers).1
      ≡ ok (length (retain_kept keep_even tt numbers).0))
    × (boundary (retain_kept keep_even tt numbers).1 3
        ≡ ok (rank (survivors keep_even tt numbers) 3))
    × ((retain_kept keep_even tt numbers).0 ≡ somes (survivors keep_even tt numbers))
retain_kept-boundaries_example = retain_kept-boundaries keep_even tt numbers 3 (omega arith)

abbrev numbers_map : Kept
numbers_map = record { before = 0 ∷ 0 ∷ 1 ∷ 1 ∷ 2 ∷ [] }

numbers_map-Covers : Covers numbers_map 4 2
unfolding index
numbers_map-Covers =
    (refl, (omega arith, (omega arith, (omega arith, (omega arith, (omega arith, tt))))), refl)

compose-Covers_example :
    (j : Kept) × (compose numbers_map (identity 2) ≡ ok j)
    × Covers j 4 2
    × Follows j numbers_map (identity 2)
compose-Covers_example =
    compose-Covers numbers_map (identity 2) 4 2 2 numbers_map-Covers (identity-Covers 2)
