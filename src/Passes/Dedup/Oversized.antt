-- ===== src/Passes/Dedup/Oversized.antt =====
-- Bounds at or above the field's width, which the interpreter refuses
-- (crates/minocrab-ir/src/v3/passes.rs and crates/minocrab-sim/src/v3.rs).
use minocrab.Prelude.{ℕ, ◌≡◌, ◌≤◌, refl, false, some, List, le→leb, err}
use minocrab.Prelude.Assoc.{AssocMap, get}
use minocrab.Ir.{IrType, Identifier, variable, constrain_bits}
use minocrab.Ir.Field.{FieldOps}
use minocrab.Passes.Dedup.{established, implied, decide_bound, dedup_keep}
use minocrab.Sim.Value.{native, try_into_fr}
use minocrab.Sim.Backend.{Backend, ProofPreimage}
use minocrab.Sim.Resolve.{Memory, operand, operand_fr, operand_bits, bounded_bits}
use minocrab.Sim.Step.{Walk, verify}
use minocrab.Sim.Step.Arms.{eval}

module _ {F P A : Type 0} (ops : FieldOps F) (be : Backend F P A) (pre : ProofPreimage F)
    (types : List IrType) where
  -- On a wire with a recorded bound of `n` bits, the pass drops a later bound of `k ≥ n` bits, also
  -- when `k` is at or above the field's width, where the interpreter fails on that constraint for
  -- every native value.
  pub dedup_keep-oversized :
      (bound : AssocMap ℕ) (id : Identifier) (n k : ℕ) (m : Memory F P) (v : F) (at : ℕ)
      (w : Walk F P)
      → get bound id ≡ some n
      → n ≤ k
      → ops.fr_bits ≤ k
      → get m id ≡ some (native v)
      → ((dedup_keep {F = F} {A = A} bound (constrain_bits (variable id) k)).0 ≡ false)
        × (eval ops be pre verify types (operand m) at (constrain_bits (variable id) k) w
            ≡ (err "excessive bit bound", w))
  unfolding dedup_keep decide_bound established implied eval operand operand_fr operand_bits
      bounded_bits try_into_fr
  dedup_keep-oversized bound id n k m v at w known le wide held =
      (rw (known, le→leb n k le) refl, rw (held, le→leb ops.fr_bits k wide) refl)
