-- ===== src/Vm/Steps.antt =====
-- crates/tiny-io-oi/src/vm.rs: `MicroVm::run` as a walk over the decoded steps.
use mathlib.Core.Path.{ap₂, fun_ext}
use tiny_io_oi.Prelude.{
  ℕ, suc, ◌+◌, List, [], ◌∷◌, some, ◌≡◌, refl, arith, length, get_elem?, ◌==◌, if◌then◌else◌,
}
use tiny_io_oi.Traits.{Motor, Gpio}
use tiny_io_oi.Vm.{
  VmStep, VmScriptViewer, MicroVm, Run, Outcome, VmError, burn, trapped, and_then, exec_step, round,
  run_from, run,
}
use tiny_io_oi.Vm.Viewer.{Decodes}

module _ {M G : Type 0} (motor_ops : Motor M) (gpio_ops : Gpio G) (gpio : G) where
  -- One step of the list, with the test of the fuel before it.
  abbrev pub step : VmStep → MicroVm → M → Run M
  step s vm m =
      if vm.fuel == 0
      then trapped vm m VmError.out_of_fuel
      else exec_step motor_ops gpio_ops s gpio (burn vm) m

  unfoldable pub exec_steps : List VmStep → MicroVm → M → Run M
  exec_steps [] vm m = record { vm = vm; motor = m; outcome = Outcome.done }
  exec_steps (s ∷ rest) vm m = and_then (step s vm m) (λ vm' m'. exec_steps rest vm' m')

  module _ (viewer : VmScriptViewer) (script : List ℕ) where
    round-step :
        (s : VmStep) (i : ℕ) (vm : MicroVm) (m : M)
        → viewer.get_step script i ≡ some s
        → round motor_ops gpio_ops viewer script gpio i vm m ≡ step s vm m
    unfolding round
    round-step s i vm m e = rw e refl

    run_from-exec_steps :
        (rest : List VmStep) (i : ℕ) (vm : MicroVm) (m : M)
        → ((j k : ℕ) → k ≡ i + j → viewer.get_step script k ≡ get_elem? rest j)
        → run_from motor_ops gpio_ops viewer script gpio (length rest) i vm m ≡ exec_steps rest vm m
    unfolding run_from exec_steps
    run_from-exec_steps [] i vm m at = refl
    run_from-exec_steps (s ∷ rest) i vm m at =
        ap₂ and_then (round-step s i vm m (at 0 i (omega arith))) (
          fun_ext λ vm'.
            fun_ext
              λ m'. run_from-exec_steps rest (suc i) vm' m' (λ j k e. at (suc j) k (omega arith)))

    pub run-exec_steps :
        (steps : List VmStep) (vm : MicroVm) (m : M)
        → Decodes viewer script steps
        → run motor_ops gpio_ops viewer script gpio vm m ≡ exec_steps steps vm m
    unfolding run
    run-exec_steps steps vm m d = rw d.counted (
        run_from-exec_steps steps 0 vm m
          (λ j k e. rw (let e' : k ≡ j = omega arith in e') (d.indexed j)))
