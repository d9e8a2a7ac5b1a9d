-- ===== src/Executor/Gather.antt =====
-- `gather` of crates/minocrab-sim/src/v3/exec.rs: the reads of a program, or of its longest prefix
-- that runs. The VM's `run_program` on the context's stack is the parameter `run`.
use minocrab.Prelude.{
  ℕ, zero, suc, ◌+◌, ◌-◌, ◌/◌, ◌<◌, ◌≤◌, ◌≡◌, refl, sym, subst, String, Bool, true, false, Option,
  none, some, List, [], ◌∷◌, length, take, arith, ltb, Bool-cases, inl, inr, Result, ok, err,
  and_then,
}
use minocrab.Ledger.Fab.{AlignedValue, Op}

pub data GatherEvent : Type 0 where
  read : AlignedValue → GatherEvent
  log_event : GatherEvent

unfoldable pub reads_of : List GatherEvent → List AlignedValue
reads_of [] = []
reads_of (read v ∷ events) = v ∷ reads_of events
reads_of (log_event ∷ events) = reads_of events

unfoldable pub is_ok {ℓ κ} : {E : Type ℓ} {A : Type κ} → Result E A → Bool
is_ok (ok a) = true
is_ok (err e) = false

-- `while hi - lo > 1`, with a round for each value of `hi - lo`
unfoldable pub search : (runs : ℕ → Bool) → (rounds lo hi : ℕ) → ℕ
search runs zero lo hi = lo
search runs (suc rounds) lo hi = elim (ltb 1 (hi - lo)) [
  | false ↦ lo
  | true ↦
      let mid = lo + (hi - lo) / 2 in
      elim (runs mid) [ true ↦ search runs rounds mid hi | false ↦ search runs rounds lo mid ]
]

module _ (run : List Op → Result String (List GatherEvent)) where
  unfoldable pub attempt : List Op → ℕ → Result String (List GatherEvent)
  attempt program n = run (take n program)

  unfoldable pub longest : List Op → ℕ
  unfolding is_ok attempt search
  longest program = search (λ n. is_ok (attempt program n)) (length program) 0 (length program)

  unfoldable pub gather : List Op → Result String (List AlignedValue × Option String)
  unfolding reads_of longest
  gather program = elim (attempt program (length program)) [
    | ok events ↦ ok (reads_of events, none)
    | err e ↦ and_then (attempt program (longest program)) λ events. ok (reads_of events, some e)
  ]

-- A place below `hi` that runs, right before one that does not.
abbrev pub Boundary : (ℕ → Bool) → (hi r : ℕ) → Type 0
Boundary runs hi r = (runs r ≡ true) × (runs (suc r) ≡ false) × (r < hi)

module _ (runs : ℕ → Bool) (rounds lo hi : ℕ) where
  search-done : ltb 1 (hi - lo) ≡ false → search runs (suc rounds) lo hi ≡ lo
  unfolding search
  search-done h = rw (h, search)

  search-up :
      ltb 1 (hi - lo) ≡ true
      → runs (lo + (hi - lo) / 2) ≡ true
      → search runs (suc rounds) lo hi ≡ search runs rounds (lo + (hi - lo) / 2) hi
  unfolding search
  search-up h k = rw (h, k, search)

  search-down :
      ltb 1 (hi - lo) ≡ true
      → runs (lo + (hi - lo) / 2) ≡ false
      → search runs (suc rounds) lo hi ≡ search runs rounds lo (lo + (hi - lo) / 2)
  unfolding search
  search-down h k = rw (h, k, search)

-- The lower end runs and the upper end does not, in every round; the rounds suffice.
search-Boundary :
    (runs : ℕ → Bool) (rounds lo hi : ℕ)
    → lo < hi
    → hi - lo ≤ rounds
    → runs lo ≡ true
    → runs hi ≡ false
    → Boundary runs hi (search runs rounds lo hi)
search-Boundary runs zero lo hi lt le low high = absurd (omega arith)
search-Boundary runs (suc rounds) lo hi lt le low high = elim (Bool-cases (ltb 1 (hi - lo))) [
  | inl more ↦ elim (Bool-cases (runs (lo + (hi - lo) / 2))) [
    | inl yes_mid ↦ subst (Boundary runs hi) (sym (search-up runs rounds lo hi more yes_mid)) (
        search-Boundary runs rounds (lo + (hi - lo) / 2) hi (ground arith) (ground arith) yes_mid
          high)
    | inr no_mid ↦
        let (r, s, below) =
          search-Boundary runs rounds lo (lo + (hi - lo) / 2) (ground arith) (ground arith) low
            no_mid in
        subst (Boundary runs hi) (sym (search-down runs rounds lo hi more no_mid))
          (r, s, ground arith)
  ]
  | inr done ↦
      subst (Boundary runs hi) (sym (search-done runs rounds lo hi done))
        (low, subst (λ n. runs n ≡ false) (ground arith) high, lt)
]

module _ (run : List Op → Result String (List GatherEvent)) where
  -- Where the program is refused, the empty one runs and a longer prefix of it never runs where a
  -- shorter one is refused, gather's search returns, and what it gives is the longest prefix that
  -- runs: it runs, and every longer prefix up to the whole program is refused.
  pub longest-maximal :
      (program : List Op)
      → is_ok (attempt run program 0) ≡ true
      → is_ok (attempt run program (length program)) ≡ false
      → ((m n : ℕ)
          → m ≤ n
          → is_ok (attempt run program m) ≡ false
          → is_ok (attempt run program n) ≡ false)
      → (is_ok (attempt run program (longest run program)) ≡ true)
        × (longest run program < length program)
        × ((n : ℕ) → longest run program < n → is_ok (attempt run program n) ≡ false)
  unfolding longest
  longest-maximal program empty whole monotone =
      let (runs, next_fails, below) =
        search-Boundary (λ n. is_ok (attempt run program n)) (length program) 0 (length program)
          (positive (length program) refl) (omega arith) empty whole in
      (runs, below, λ n lt. monotone (suc (longest run program)) n (omega arith) next_fails)
    where
      positive : (n : ℕ) → length program ≡ n → 0 < length program
      positive zero e =
          absurd (subst (λ k. is_ok (attempt run program k) ≡ false → ⊥) (sym e) (λ f. cc) whole)
      positive (suc n) e = omega arith
