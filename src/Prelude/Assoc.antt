-- ===== src/Prelude/Assoc.antt =====
-- `AssocMap` of crates/minocrab-ir/src/v3/passes.rs: a list of pairs with linear lookup.
use minocrab.Prelude.{
  String, ◌≡◌, refl, false, Option, none, some, List, [], ◌∷◌, arith, str_eq, eq_iff, eq_refl,
  if◌then◌else◌,
}

abbrev pub AssocMap {ℓ} : Type ℓ → Type ℓ
AssocMap V = List (String × V)

module _ {ℓ} {V : Type ℓ} where
  unfoldable pub get : AssocMap V → String → Option V
  get [] key = none
  get ((k, v) ∷ m) key = if str_eq k key then some v else get m key

  unfoldable pub insert : AssocMap V → String → V → AssocMap V
  insert [] key value = (key, value) ∷ []
  insert ((k, v) ∷ m) key value =
      if str_eq k key then (k, value) ∷ m else (k, v) ∷ insert m key value

  pub get-insert :
      (m : AssocMap V) (k j : String) (v : V)
      → get (insert m k v) j ≡ (if str_eq k j then some v else get m j)
  unfolding get insert
  get-insert [] k j v = refl
  get-insert ((i, w) ∷ m) k j v =
      ground (arith, get-insert m k j v, eq_iff i k, eq_iff i j, eq_iff k j)

  pub get-insert_self : (m : AssocMap V) (k : String) (v : V) → get (insert m k v) k ≡ some v
  get-insert_self m k v = rw (get-insert m k k v, eq_refl k)

  pub get-insert_ne :
      (m : AssocMap V) (k j : String) (v : V) → str_eq k j ≡ false → get (insert m k v) j ≡ get m j
  get-insert_ne m k j v h = rw (get-insert m k j v, h)

-- Several writes in order, as the arms of the interpreter make them.
abbrev pub insert_all {ℓ} : {V : Type ℓ} → AssocMap V → List (String × V) → AssocMap V
insert_all m [] = m
insert_all m ((k, v) ∷ kvs) = insert_all (insert m k v) kvs
