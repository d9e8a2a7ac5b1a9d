-- ===== src/Sim/Exec.antt =====
-- One instruction's computation: it may fail with a message, and what it changed before stays.
use minocrab.Prelude.{String, Result, ok, err}

abbrev pub Exec : Type 0 → Type 0 → Type 0
Exec S A = S → Result String A × S

module _ {S A : Type 0} where
  abbrev pub pure : A → Exec S A
  pure a s = (ok a, s)

  abbrev pub lift : Result String A → Exec S A
  lift r s = (r, s)

module _ {S : Type 0} where
  abbrev pub get_state : Exec S S
  get_state s = (ok s, s)

  abbrev pub modify : (S → S) → Exec S (Unit {0})
  modify f s = (ok tt, f s)

module _ {S A B : Type 0} where
  abbrev pub continue : Result String A → (A → Exec S B) → Exec S B
  continue (ok a) f s = f a s
  continue (err e) f s = (err e, s)

  infixl 5 ◌>>=◌ ◌>>◌
  abbrev pub ◌>>=◌ : Exec S A → (A → Exec S B) → Exec S B
  ◌>>=◌ m f s = let (r, s') = m s in continue r f s'

  abbrev pub ◌>>◌ : Exec S A → Exec S B → Exec S B
  m >> k = m >>= λ _. k
