-- ===== src/Vm/Fuel.antt =====
-- crates/tiny-io-oi/src/vm.rs: what `MicroVm::run` does with its fuel.
use tiny_io_oi.Prelude.{ℕ, suc, ◌+◌, ◌-◌, ◌≤◌, List, [], ◌∷◌, ◌≡◌, ◌≢◌, arith}
use tiny_io_oi.Traits.{Motor, Gpio}
use tiny_io_oi.Vm.{VmStep, VmScriptViewer, MicroVm, Run, Outcome, VmError, and_then, exec_step, run}
use tiny_io_oi.Vm.Viewer.{Decodes}
use tiny_io_oi.Vm.Steps.{step, exec_steps, run-exec_steps}
use tiny_io_oi.Vm.Sequence.{and_then_rule}

-- A step takes one unit, and a delay its ticks besides.
abbrev pub cost : VmStep → ℕ
cost (VmStep.set_pwm channel speed) = 1
cost (VmStep.delay ticks) = suc ticks
cost (VmStep.assert_or_yield pin expected) = 1

abbrev pub total_cost : List VmStep → ℕ
total_cost [] = 0
total_cost (s ∷ rest) = cost s + total_cost rest

-- What a run with `before` units over steps of cost `c` leaves.
pub record Spends {M : Type 0} (before c : ℕ) (r : Run M) : Type 0 where
  pub enough : c ≤ before → r.outcome ≢ Outcome.trap VmError.out_of_fuel
  pub exact : r.outcome ≡ Outcome.done → r.vm.fuel ≡ before - c
  pub never_more : r.vm.fuel ≤ before
  pub ends : r.outcome ≢ Outcome.waiting

module _ {M G : Type 0} (motor_ops : Motor M) (gpio_ops : Gpio G) (gpio : G) where
  step-Spends :
      (s : VmStep) (vm : MicroVm) (m : M)
      → Spends vm.fuel (cost s) (step motor_ops gpio_ops gpio s vm m)
  unfolding exec_step
  step-Spends (VmStep.set_pwm channel speed) vm m = ground arith
  step-Spends (VmStep.delay ticks) vm m = ground arith
  step-Spends (VmStep.assert_or_yield pin expected) vm m = ground arith

  and_then-Spends :
      (before c d : ℕ) (r : Run M) (rest : MicroVm → M → Run M)
      → Spends before c r
      → (r.outcome ≡ Outcome.done → Spends r.vm.fuel d (rest r.vm r.motor))
      → Spends before (c + d) (and_then r rest)
  and_then-Spends before c d r rest first later =
      and_then_rule r rest (Spends before (c + d))
        (λ e. chain (first.exact e) (first.never_more) (later e))
        (λ ne. record {
          enough = λ le. first.enough (omega arith);
          exact = λ e. absurd (ne e);
          never_more = first.never_more;
          ends = first.ends;
        })
    where
      chain :
          {q : Run M}
          → r.vm.fuel ≡ before - c
          → r.vm.fuel ≤ before
          → Spends r.vm.fuel d q
          → Spends before (c + d) q
      chain e le q = record {
        enough = λ le. q.enough (omega arith);
        exact = λ f. omega (arith, q.exact f);
        never_more = omega (arith, q.never_more);
        ends = q.ends;
      }

  exec_steps-Spends :
      (steps : List VmStep) (vm : MicroVm) (m : M)
      → Spends vm.fuel (total_cost steps) (exec_steps motor_ops gpio_ops gpio steps vm m)
  unfolding exec_steps
  exec_steps-Spends [] vm m = ground arith
  exec_steps-Spends (s ∷ rest) vm m =
      let r = step motor_ops gpio_ops gpio s vm m in
      and_then-Spends vm.fuel (cost s) (total_cost rest) r (exec_steps motor_ops gpio_ops gpio rest)
        (step-Spends s vm m) (λ _. exec_steps-Spends rest r.vm r.motor)

-- `MicroVm::run` on a script that the viewer reads as `steps` always returns, never gains fuel,
-- does not run out of fuel when it starts with one unit for each step and one for each tick of
-- delay, and after a run without error has spent exactly that much (or all that it had).
pub run-Spends :
    {M G : Type 0} (motor_ops : Motor M) (gpio_ops : Gpio G) (gpio : G) (viewer : VmScriptViewer)
    (script : List ℕ) (steps : List VmStep) (vm : MicroVm) (m : M)
    → Decodes viewer script steps
    → Spends vm.fuel (total_cost steps) (run motor_ops gpio_ops viewer script gpio vm m)
run-Spends motor_ops gpio_ops gpio viewer script steps vm m d =
    rw (run-exec_steps motor_ops gpio_ops gpio viewer script steps vm m d)
      (exec_steps-Spends motor_ops gpio_ops gpio steps vm m)

-- A delay of at least the fuel that is left starves whatever follows it: the script traps for
-- want of fuel at its next step, however much it started with.
pub delay-starves :
    {M G : Type 0} (motor_ops : Motor M) (gpio_ops : Gpio G) (gpio : G) (viewer : VmScriptViewer)
    (script : List ℕ) (ticks : ℕ) (next : VmStep) (rest : List VmStep) (vm : MicroVm) (m : M)
    → Decodes viewer script (VmStep.delay ticks ∷ next ∷ rest)
    → vm.fuel ≤ suc ticks
    → (run motor_ops gpio_ops viewer script gpio vm m).outcome ≡ Outcome.trap VmError.out_of_fuel
unfolding exec_steps exec_step
delay-starves motor_ops gpio_ops gpio viewer script ticks next rest vm m d few =
    rw (run-exec_steps motor_ops gpio_ops gpio viewer script _ vm m d) (ground arith)
