-- ===== src/Builder/Fresh.antt =====
-- The values that `Builder3::fresh` registers, as `name` and `ty` read them back, and `add` on
-- such values (crates/minocrab-ir/src/v3.rs).
use minocrab.Prelude.{
  ◌%◌, true, false, Bool-cases, inl, inr, ◌⊎◌, ◌≢◌, sym, ◌∙◌, Option, subst, err, ==_iff, ℕ, zero,
  suc, ◌^◌, ◌<◌, ◌≡◌, refl, ap, String, some, List, [], ◌∷◌, ◌++◌, arith, length, get_elem?,
  length-append, ok,
}
use minocrab.Ir.{Identifier, IrType, variable, Instruction}
use minocrab.Sim.Value.{type_eq, type_code}
use minocrab.Builder.Types.{supports_eq_add}
use minocrab.Builder.Arithmetic.{add}
use minocrab.Builder.State.{Val, val, Builder3, name, ty, fresh}

get_elem?-append_last {ℓ} :
    {X : Type ℓ} (xs : List X) (x : X) → get_elem? (xs ++ x ∷ []) (length xs) ≡ some x
get_elem?-append_last [] x = refl
get_elem?-append_last (y ∷ xs) x = get_elem?-append_last xs x

get_elem?-append_old {ℓ} :
    {X : Type ℓ} (xs : List X) (x : X) (i : ℕ)
    → i < length xs
    → get_elem? (xs ++ x ∷ []) i ≡ get_elem? xs i
get_elem?-append_old [] x i h = absurd (omega arith)
get_elem?-append_old (y ∷ xs) x zero h = refl
get_elem?-append_old (y ∷ xs) x (suc i) h = get_elem?-append_old xs x i (omega arith)

-- Every value has a name and a type, and another value still fits 32 bits.
abbrev pub HasRoom : {F A : Type 0} → Builder3 F A → Type 0
HasRoom b = (length b.names ≡ length b.types) × (length b.names < 2 ^ 32)

module _ {F A : Type 0} (render : String → ℕ → Identifier) where
  -- Where the names and the types are in step and their number is below `2 ^ 32`, `fresh` returns
  -- the next index; `name` and `ty` read the new name and type there and what they read before at
  -- every earlier index; and the two lists stay in step.
  pub fresh_lem :
      (label : String) (t : IrType) (b : Builder3 F A)
      → HasRoom b
      → let (result, b') = fresh {F = F} {A = A} render label t b in
        (result ≡ ok (length b.names))
        × (name (length b.names) b' ≡ (ok (render label (length b.names)), b'))
        × (ty (val (length b.names)) b' ≡ (ok t, b'))
        × ((u : Val)
            → u < length b.names
            → ((name u b').0 ≡ (name u b).0) × ((ty (val u) b').0 ≡ (ty (val u) b).0))
        × (length b'.names ≡ length b'.types)
  unfolding fresh name ty
  fresh_lem label t b (same, room) = (
    ap ok (omega (arith, room)),
    rw (get_elem?-append_last b.names (render label (length b.names))) refl,
    rw (same, get_elem?-append_last b.types t) refl,
    λ u below. (
      rw (get_elem?-append_old b.names (render label (length b.names)) u below) refl,
      rw (get_elem?-append_old b.types t u (omega (arith, same, below))) refl,
    ),
    omega (
      arith,
      same,
      length-append b.names (render label (length b.names) ∷ []),
      length-append b.types (t ∷ []),
    ),
  )

get_elem?-append_some {ℓ} :
    {X : Type ℓ} (xs : List X) (x : X) (i : ℕ) (y : X)
    → get_elem? xs i ≡ some y
    → get_elem? (xs ++ x ∷ []) i ≡ some y
get_elem?-append_some [] x i y h = cc
get_elem?-append_some (z ∷ xs) x zero y h = h
get_elem?-append_some (z ∷ xs) x (suc i) y h = get_elem?-append_some xs x i y h

-- Every type, in the order of the numbers.
abbrev all_types : List IrType
all_types =
    IrType.native ∷ IrType.bytes32 ∷ IrType.jubjub_point ∷ IrType.jubjub_scalar
    ∷ IrType.secp256k1_point ∷ IrType.secp256k1_base ∷ IrType.secp256k1_scalar
    ∷ IrType.secp256r1_point ∷ IrType.secp256r1_base ∷ IrType.secp256r1_scalar
    ∷ IrType.curve25519_point ∷ IrType.curve25519_base ∷ IrType.curve25519_scalar ∷ []

get_elem?-type_code : (t : IrType) → get_elem? all_types (type_code t) ≡ some t
unfolding type_code
get_elem?-type_code IrType.native = refl
get_elem?-type_code IrType.bytes32 = refl
get_elem?-type_code IrType.jubjub_point = refl
get_elem?-type_code IrType.jubjub_scalar = refl
get_elem?-type_code IrType.secp256k1_point = refl
get_elem?-type_code IrType.secp256k1_base = refl
get_elem?-type_code IrType.secp256k1_scalar = refl
get_elem?-type_code IrType.secp256r1_point = refl
get_elem?-type_code IrType.secp256r1_base = refl
get_elem?-type_code IrType.secp256r1_scalar = refl
get_elem?-type_code IrType.curve25519_point = refl
get_elem?-type_code IrType.curve25519_base = refl
get_elem?-type_code IrType.curve25519_scalar = refl

type_eq_refl : (t : IrType) → type_eq t t ≡ true
unfolding type_eq
type_eq_refl t = (==_iff (type_code t) (type_code t)).1 refl

type_eq-eq : (s t : IrType) → type_eq s t ≡ true → s ≡ t
unfolding type_eq
type_eq-eq s t h = some_injective (
    sym (get_elem?-type_code s)
    ∙ ap (get_elem? all_types) ((==_iff (type_code s) (type_code t)).0 h)
    ∙ get_elem?-type_code t)
  where
    some_injective : {a b : IrType} → ◌≡◌ {A = Option IrType} (some a) (some b) → a ≡ b
    some_injective e = cc

module _ {F A : Type 0} (render : String → ℕ → Identifier) where
  -- The builder that `add` leaves: the next value, of the type, and the instruction for it.
  abbrev pub with_sum : Builder3 F A → IrType → Identifier → Identifier → Builder3 F A
  with_sum b t x y = record b {
    names = b.names ++ render "add" (length b.names) ∷ [];
    types = b.types ++ t ∷ [];
    instructions =
        b.instructions
        ++ Instruction.add (variable x) (variable y) (render "add" (length b.names)) ∷ [];
  }

  module _ (b : Builder3 F A) (u v : Val) (x y : Identifier) (room : HasRoom b)
      (named_u : get_elem? b.names u ≡ some x) (named_v : get_elem? b.names v ≡ some y) where
    add-accepted :
        (t : IrType)
        → get_elem? b.types u ≡ some t
        → get_elem? b.types v ≡ some t
        → supports_eq_add t ≡ true
        → add render (val u) (val v) b ≡ (ok (length b.names), with_sum b t x y)
    unfolding add
    add-accepted t tu tv fits =
        let new = render "add" (length b.names) in
        rw
          (
            tu,
            fits,
            tv,
            fits,
            tu,
            tv,
            type_eq_refl t,
            get_elem?-append_some b.names new u x named_u,
            get_elem?-append_some b.names new v y named_v,
            wrapped,
            get_elem?-append_last b.names new,
          )
          refl
      where
        wrapped : length b.names % 2 ^ 32 ≡ length b.names
        wrapped = omega (arith, room.1)

  module _ (b : Builder3 F A) (u v : Val) (s t : IrType) (typed_u : get_elem? b.types u ≡ some s)
      (typed_v : get_elem? b.types v ≡ some t) where
    add-first_unfit :
        supports_eq_add s ≡ false → add {F = F} {A = A} render (val u) (val v) b ≡ (err "add", b)
    unfolding add
    add-first_unfit unfit = rw (typed_u, unfit) refl

    add-second_unfit :
        supports_eq_add s ≡ true
        → supports_eq_add t ≡ false
        → add {F = F} {A = A} render (val u) (val v) b ≡ (err "add", b)
    unfolding add
    add-second_unfit fits unfit = rw (typed_u, fits, typed_v, unfit) refl

    add-mixed :
        supports_eq_add s ≡ true
        → supports_eq_add t ≡ true
        → type_eq s t ≡ false
        → add {F = F} {A = A} render (val u) (val v) b ≡ (err "add", b)
    unfolding add
    add-mixed fits fits' mixed = rw (typed_u, fits, typed_v, fits', typed_u, typed_v, mixed) refl

  -- On two registered values, where another value fits 32 bits, add does one of two things. Where
  -- both have one type and it supports addition, it returns the next value, of that type, and
  -- appends the one instruction that adds them into the new name. Where a type does not support
  -- addition or the two differ, it panics and leaves the builder as it was.
  pub add_lem :
      (b : Builder3 F A) (u v : Val) (s t : IrType) (x y : Identifier)
      → HasRoom b
      → get_elem? b.names u ≡ some x
      → get_elem? b.names v ≡ some y
      → get_elem? b.types u ≡ some s
      → get_elem? b.types v ≡ some t
      → ((s ≡ t)
          × (supports_eq_add t ≡ true)
          × (add render (val u) (val v) b ≡ (ok (length b.names), with_sum b t x y)))
        ⊎ (((supports_eq_add s ≡ false) ⊎ ((supports_eq_add t ≡ false) ⊎ (s ≢ t)))
            × (add render (val u) (val v) b ≡ (err "add", b)))
  add_lem b u v s t x y room nu nv tu tv = elim (Bool-cases (supports_eq_add s)) [
    | inr unfit ↦ inr (inl unfit, add-first_unfit b u v s t tu tv unfit)
    | inl fits_s ↦ elim (Bool-cases (supports_eq_add t)) [
      | inr unfit ↦ inr (inr (inl unfit), add-second_unfit b u v s t tu tv fits_s unfit)
      | inl fits_t ↦ elim (Bool-cases (type_eq s t)) [
        | inr mixed ↦ inr (inr (inr (differ mixed)), add-mixed b u v s t tu tv fits_s fits_t mixed)
        | inl same ↦
            let e = type_eq-eq s t same in
            inl (e, fits_t, add-accepted b u v x y room nu nv t (tu ∙ ap some e) tv fits_t)
      ]
    ]
  ]
    where
      differ : type_eq s t ≡ false → s ≢ t
      differ mixed e = let same = subst (λ r. type_eq s r ≡ true) e (type_eq_refl s) in cc
