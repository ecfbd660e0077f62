-- ===== src/Vm/Sequence.antt =====
-- crates/tiny-io-oi/src/vm.rs: the `?` and `return Err` of a loop body, as a proof rule.
use mathlib.Core.Path.{subst⁻¹}
use tiny_io_oi.Prelude.{◌≡◌, ◌≢◌, ◌⊎◌, inl, inr, refl, arith}
use tiny_io_oi.Vm.{MicroVm, Run, Outcome, and_then}

pub Outcome-cases : (o : Outcome) → (o ≡ Outcome.done) ⊎ (o ≢ Outcome.done)
Outcome-cases Outcome.done = inl refl
Outcome-cases (Outcome.trap e) = inr (ground arith)
Outcome-cases Outcome.waiting = inr (ground arith)

module _ {M : Type 0} (r : Run M) (rest : MicroVm → M → Run M) where
  pub and_then-done : r.outcome ≡ Outcome.done → and_then r rest ≡ rest r.vm r.motor
  and_then-done e = ground arith

  pub and_then-stop : r.outcome ≢ Outcome.done → and_then r rest ≡ r
  and_then-stop ne = ground arith

  -- A property of the whole follows from the two ways in which the first part can end.
  pub and_then_rule :
      (P : Run M → Type 0)
      → (r.outcome ≡ Outcome.done → P (rest r.vm r.motor))
      → (r.outcome ≢ Outcome.done → P r)
      → P (and_then r rest)
  and_then_rule P later now = elim (Outcome-cases r.outcome) [
    | inl e ↦ subst⁻¹ P (and_then-done e) (later e)
    | inr ne ↦ subst⁻¹ P (and_then-stop ne) (now ne)
  ]
