-- ===== src/Vm/Traps.antt =====
-- crates/tiny-io-oi/src/vm.rs: what `MicroVm::run` leaves in `trap_reason`.
use tiny_io_oi.Prelude.{ℕ, zero, suc, List, Option, some, ◌≡◌, ◌≢◌, arith}
use tiny_io_oi.Traits.{Motor, Gpio}
use tiny_io_oi.Vm.{VmScriptViewer, MicroVm, Run, Outcome, VmError, round, run_from, run}
use tiny_io_oi.Vm.Sequence.{and_then_rule}

-- The errors of a run that started with the trap reason `old`.
pub record Reports {M : Type 0} (old : Option VmError) (r : Run M) : Type 0 where
  pub named :
      (e : VmError)
      → r.outcome ≡ Outcome.trap e
      → e ≢ VmError.buffer_overflow
      → r.vm.trap_reason ≡ some e
  pub truncated : r.outcome ≡ Outcome.trap VmError.buffer_overflow → r.vm.trap_reason ≡ old
  pub quiet : r.outcome ≡ Outcome.done → r.vm.trap_reason ≡ old

module _ {M G : Type 0} (motor_ops : Motor M) (gpio_ops : Gpio G) (viewer : VmScriptViewer)
    (script : List ℕ) (gpio : G) where
  round-Reports :
      (i : ℕ) (vm : MicroVm) (m : M)
      → Reports vm.trap_reason (round motor_ops gpio_ops viewer script gpio i vm m)
  unfolding round
  round-Reports i vm m = ground arith

  run_from-Reports :
      (n i : ℕ) (vm : MicroVm) (m : M)
      → Reports vm.trap_reason (run_from motor_ops gpio_ops viewer script gpio n i vm m)
  unfolding run_from
  run_from-Reports zero i vm m = ground arith
  run_from-Reports (suc n) i vm m =
      let r = round motor_ops gpio_ops viewer script gpio i vm m in
      let first : Reports vm.trap_reason r = round-Reports i vm m in
      and_then_rule r (run_from motor_ops gpio_ops viewer script gpio n (suc i))
        (Reports vm.trap_reason)
        (λ e. let later = run_from-Reports n (suc i) r.vm r.motor in rw (first.quiet e) at later)
        (λ _. first)

  -- Whatever the script, a run that returns an error leaves that error in `trap_reason`, but for
  -- a script that ends too early, whose error is returned and not recorded; a run without error
  -- leaves `trap_reason` as it was.
  pub run-Reports :
      (vm : MicroVm) (m : M)
      → Reports vm.trap_reason (run motor_ops gpio_ops viewer script gpio vm m)
  unfolding run
  run-Reports vm m = run_from-Reports (viewer.step_count script) 0 vm m
