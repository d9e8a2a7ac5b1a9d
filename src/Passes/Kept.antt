-- ===== src/Passes/Kept.antt =====
-- crates/minocrab-ir/src/v3/passes/kept.rs: where each instruction of a stream went through the
-- passes that only delete. A panic is `err` with the message of the assertion.
pub mod Trace
pub mod Compose
use minocrab.Prelude.{
  ℕ, zero, suc, ◌+◌, ◌-◌, String, Bool, true, false, Option, none, some, List, [], ◌∷◌, map, length,
  get_elem?, leb, ltb, ◌==◌, if◌then◌else◌, Result, ok, err, and_then, ok_or, check, collect,
}

-- `before[i]` is how many of the first `i` input instructions survived.
pub record Kept : Type 0 where
  pub before : List ℕ

-- `v[i]`, which panics out of bounds
unfoldable pub index : List ℕ → ℕ → Result String ℕ
index xs i = ok_or (get_elem? xs i) "index out of bounds"

-- `(from..=from + len).collect()`
unfoldable pub count_up : ℕ → ℕ → List ℕ
count_up zero from = from ∷ []
count_up (suc len) from = from ∷ count_up len (from + 1)

unfoldable pub identity : ℕ → Kept
unfolding count_up
identity len = record { before = count_up len 0 }

unfoldable pub input_len : Kept → ℕ
input_len k = length k.before - 1

unfoldable pub output_len : Kept → Result String ℕ
unfolding index input_len
output_len k = index k.before (input_len k)

unfoldable pub position : Kept → ℕ → Result String (Option ℕ)
unfolding index input_len
position k i =
    and_then (check (ltb i (input_len k)) "Kept::position: instruction is not in the stream") λ _.
      and_then (index k.before (i + 1))
        λ after. and_then (index k.before i) λ here. ok (if ltb here after then some here else none)

unfoldable pub boundary : Kept → ℕ → Result String ℕ
unfolding index input_len
boundary k i =
    and_then (check (leb i (input_len k)) "Kept::boundary: boundary is past the end")
      λ _. index k.before i

unfoldable pub compose : Kept → Kept → Result String Kept
unfolding index output_len
compose k later = and_then (output_len k) λ out.
    and_then (check (out == input_len later) "Kept::compose: compose the maps in pass order") λ _.
      and_then (collect (λ b. index later.before b) k.before)
        λ before. ok (record { before = before })

-- `usize::from(kept)`
abbrev pub bit : Bool → ℕ
bit true = 1
bit false = 0

module _ {X S : Type 0} where
  -- The loop of `retain_mut`, with the running count of survivors.
  unfoldable pub retain_from : (S → X → Bool × X × S) → S → ℕ → List X → List X × List ℕ
  retain_from keep s survivors [] = ([], [])
  retain_from keep s survivors (x ∷ xs) =
      let (kept, y, s') = keep s x in
      let survivors' = survivors + bit kept in
      let (out, before) = retain_from keep s' survivors' xs in
      (if kept then y ∷ out else out, survivors' ∷ before)

  unfoldable pub retain_kept : (S → X → Bool × X × S) → S → List X → List X × Kept
  unfolding retain_from
  retain_kept keep s xs =
      let (out, before) = retain_from keep s 0 xs in (out, record { before = 0 ∷ before })
