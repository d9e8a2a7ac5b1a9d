-- ===== src/Ir/Scope.antt =====
-- Well-scoped streams: every operand names an argument or an earlier output, and every output is a
-- fresh name (the SSA form that crates/minocrab-ir/src/v3.rs builds and the passes rely on).
use minocrab.Prelude.{
  ◌≡◌, refl, Bool, true, false, ◌||◌, ◌⊎◌, inl, inr, Bool-cases, List, [], ◌∷◌, map, All, arith,
  str_eq, eq_iff, String,
}
use minocrab.Prelude.Assoc.{AssocMap, get, insert, insert_all, get-insert}
use minocrab.Ir.{Identifier, Operand, variable, immediate, Instruction, IrType, IrSource}
use minocrab.Ir.Dataflow.{operands, returned, defined_identifiers}

abbrev pub member : Identifier → List Identifier → Bool
member id [] = false
member id (x ∷ xs) = str_eq x id || member id xs

-- The scope after some names were bound.
abbrev pub extend : List Identifier → List Identifier → List Identifier
extend sc [] = sc
extend sc (x ∷ xs) = extend (x ∷ sc) xs

-- New names, each unlike the ones before it.
abbrev pub AreFresh : List Identifier → List Identifier → Type 0
AreFresh sc [] = Unit
AreFresh sc (x ∷ xs) = (member x sc ≡ false) × AreFresh (x ∷ sc) xs

abbrev pub InScope : {F : Type 0} → List Identifier → Operand F → Type 0
InScope sc (variable id) = member id sc ≡ true
InScope sc (immediate x) = Unit

abbrev pub IsScoped : {F A : Type 0} → List Identifier → List (Instruction F A) → Type 0
IsScoped sc [] = Unit
IsScoped sc (i ∷ is) =
    All (InScope sc) (operands i)
    × All (InScope sc) (returned i)
    × AreFresh sc (defined_identifiers i)
    × IsScoped (extend sc (defined_identifiers i)) is

-- The names that the arguments bind.
abbrev pub input_names : List (Identifier × IrType) → List Identifier
input_names inputs = map (λ i. i.0) inputs

-- A circuit whose stream is well scoped over its arguments.
abbrev pub IsWellScoped : {F A : Type 0} → IrSource F A → Type 0
IsWellScoped ir = IsScoped (extend [] (input_names ir.inputs)) ir.instructions

pub member-extend-old :
    (id : Identifier) (sc xs : List Identifier)
    → member id sc ≡ true
    → member id (extend sc xs) ≡ true
member-extend-old id sc [] h = h
member-extend-old id sc (x ∷ xs) h = member-extend-old id (x ∷ sc) xs (ground arith)

pub member-extend-new :
    (id : Identifier) (sc xs : List Identifier)
    → member id xs ≡ true
    → member id (extend sc xs) ≡ true
member-extend-new id sc [] h = cc
member-extend-new id sc (x ∷ xs) h = elim (Bool-cases (str_eq x id)) [
  | inl e ↦ member-extend-old id (x ∷ sc) xs (rw e)
  | inr n ↦ member-extend-new id (x ∷ sc) xs (ground arith)
]

pub member-extend :
    (id : Identifier) (sc xs : List Identifier)
    → member id (extend sc xs) ≡ true
    → (member id sc ≡ true) ⊎ (member id xs ≡ true)
member-extend id sc [] h = inl h
member-extend id sc (x ∷ xs) h = ground (arith, member-extend id (x ∷ sc) xs h)

pub member-extend-none :
    (id : Identifier) (sc xs : List Identifier)
    → member id (extend sc xs) ≡ false
    → (member id sc ≡ false) × (member id xs ≡ false)
member-extend-none id sc xs h = elim (Bool-cases (member id sc)) [
  | inl old ↦ cc (member-extend-old id sc xs old)
  | inr out ↦ elim (Bool-cases (member id xs)) [
    | inl new ↦ cc (member-extend-new id sc xs new)
    | inr none ↦ (out, none)
  ]
]

-- A name in scope is none of the fresh ones.
pub member_fresh :
    (id : Identifier) (sc xs : List Identifier)
    → AreFresh sc xs
    → member id sc ≡ true
    → member id xs ≡ false
member_fresh id sc [] f h = refl
member_fresh id sc (x ∷ xs) f h = ground (arith, eq_iff x id, member_fresh id (x ∷ sc) xs f.1)

-- A fresh name is not in scope.
pub fresh_member :
    (id : Identifier) (sc xs : List Identifier)
    → AreFresh sc xs
    → member id xs ≡ true
    → member id sc ≡ false
fresh_member id sc xs f h = elim (Bool-cases (member id sc)) [
  | inl old ↦ cc (member_fresh id sc xs f old)
  | inr out ↦ out
]

module _ {ℓ} {V : Type ℓ} where
  abbrev pub names : List (String × V) → List Identifier
  names [] = []
  names ((k, v) ∷ kvs) = k ∷ names kvs

  -- Writes to other names leave a name alone.
  pub get-insert_all_ne :
      (m : AssocMap V) (kvs : List (String × V)) (id : Identifier)
      → member id (names kvs) ≡ false
      → get (insert_all m kvs) id ≡ get m id
  get-insert_all_ne m [] id h = refl
  get-insert_all_ne m ((k, v) ∷ kvs) id h =
      ground (arith, get-insert_all_ne (insert m k v) kvs id, get-insert m k id v)

  -- The same writes keep two tables alike where they were alike.
  pub get-insert_all_cong :
      (m m' : AssocMap V) (kvs : List (String × V)) (id : Identifier)
      → get m' id ≡ get m id
      → get (insert_all m' kvs) id ≡ get (insert_all m kvs) id
  get-insert_all_cong m m' [] id h = h
  get-insert_all_cong m m' ((k, v) ∷ kvs) id h =
      get-insert_all_cong (insert m k v) (insert m' k v) kvs id
        (rw (get-insert m k id v, get-insert m' k id v, h))
