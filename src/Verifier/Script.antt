-- ===== src/Verifier/Script.antt =====
-- crates/tiny-io-oi/src/verifier/mod.rs: what a script that the verifier calls safe does when
-- `MicroVm::run` executes it.
use tiny_io_oi.Prelude.{
  ◌↔◌, refl, ℕ, suc, ◌+◌, ◌*◌, ◌^◌, ◌≤◌, ◌<◌, List, [], ◌∷◌, ◌≡◌, ◌≢◌, true, arith, length, All,
}
use tiny_io_oi.Prelude.Words.{IsByte}
use tiny_io_oi.Traits.{Motor, Gpio}
use tiny_io_oi.Drivers.{MockMotor, mock_motor}
use tiny_io_oi.Drivers.History.{work, sum-append_one}
use tiny_io_oi.Vm.{VmStep, VmScriptViewer, MicroVm, Outcome, VmError, exec_step, run}
use tiny_io_oi.Vm.Viewer.{Decodes}
use tiny_io_oi.Vm.Sequence.{and_then_rule}
use tiny_io_oi.Vm.Steps.{step, exec_steps, run-exec_steps}
use tiny_io_oi.Vm.Fuel.{delay-starves}
use tiny_io_oi.Verifier.{
  Scan, scan_new, Draw, draw_new, draw_more, scan_step, scan_steps, draw_steps, verify_vm_script,
}

-- A step that stays on the eight channels and the 32 pins.
abbrev pub InBounds : VmStep → Type 0
InBounds (VmStep.set_pwm channel speed) = channel < 8
InBounds (VmStep.delay ticks) = Unit
InBounds (VmStep.assert_or_yield pin expected) = pin < 32

scan_step-safe :
    (i : ℕ) (x : VmStep) (s : Scan)
    → ((scan_step i x s).safe ≡ true) ↔ ((s.safe ≡ true) × InBounds x)
unfolding scan_step
scan_step-safe i (VmStep.set_pwm channel speed) s = (λ h. ground arith, λ h. ground (arith, h))
scan_step-safe i (VmStep.delay ticks) s = (λ h. (h, tt), λ h. h.0)
scan_step-safe i (VmStep.assert_or_yield pin expected) s =
    (λ h. ground arith, λ h. ground (arith, h))

pub scan_steps-safe :
    (i : ℕ) (xs : List VmStep) (s : Scan)
    → ((scan_steps i xs s).safe ≡ true) ↔ ((s.safe ≡ true) × All InBounds xs)
unfolding scan_steps
scan_steps-safe i [] s = (λ h. (h, tt), λ h. h.0)
scan_steps-safe i (x ∷ xs) s =
    let later = scan_steps-safe (suc i) xs (scan_step i x s) in
    let now = scan_step-safe i x s in
    (
      λ h. ((now.0 (later.0 h).0).0, ((now.0 (later.0 h).0).1, (later.0 h).1)),
      λ h. later.1 (now.1 (h.0, h.1.0), h.1.1),
    )

-- The speeds of a script, added up, and their bound: a speed is a byte.
abbrev pub speed : VmStep → ℕ
speed (VmStep.set_pwm channel v) = v
speed (VmStep.delay ticks) = 0
speed (VmStep.assert_or_yield pin expected) = 0

abbrev pub speeds : List VmStep → ℕ
speeds [] = 0
speeds (x ∷ xs) = speed x + speeds xs

abbrev pub SpeedIsByte : VmStep → Type 0
SpeedIsByte x = IsByte (speed x)

speeds-le : (xs : List VmStep) → All SpeedIsByte xs → speeds xs ≤ 255 * length xs
speeds-le [] h = omega arith
speeds-le (x ∷ xs) h = omega (arith, h.0, speeds-le xs h.1)

-- No sum of the current loop wraps.
draw_steps-total :
    (xs : List VmStep) (d : Draw)
    → d.total + speeds xs < 2 ^ 32
    → (draw_steps xs d).total ≡ d.total + speeds xs
unfolding draw_steps
draw_steps-total [] d h = omega arith
draw_steps-total (VmStep.set_pwm channel v ∷ xs) d h =
    omega (arith, draw_steps-total xs (draw_more v d) (omega arith))
draw_steps-total (VmStep.delay ticks ∷ xs) d h = omega (arith, draw_steps-total xs d (omega arith))
draw_steps-total (VmStep.assert_or_yield pin expected ∷ xs) d h =
    omega (arith, draw_steps-total xs d (omega arith))

pub verify_vm_script-safe :
    (steps : List VmStep) (limit : ℕ)
    → ((verify_vm_script steps limit).safe ≡ true)
      ↔ (((draw_steps steps draw_new).total ≤ limit) × All InBounds steps)
unfolding verify_vm_script
verify_vm_script-safe steps limit =
    let scan = scan_steps-safe 0 steps scan_new in
    (λ h. (ground arith, (scan.0 (ground arith)).1), λ h. ground (arith, h.0, scan.1 (refl, h.1)))

module _ {M G : Type 0} (motor_ops : Motor M) (gpio_ops : Gpio G) (gpio : G) where
  step-authorized :
      (x : VmStep) (vm : MicroVm) (m : M)
      → InBounds x
      → (step motor_ops gpio_ops gpio x vm m).outcome ≢ Outcome.trap VmError.unauthorized_access
  unfolding exec_step
  step-authorized (VmStep.set_pwm channel v) vm m h o = ground arith
  step-authorized (VmStep.delay ticks) vm m h o = ground arith
  step-authorized (VmStep.assert_or_yield pin expected) vm m h o = ground arith

  exec_steps-authorized :
      (xs : List VmStep) (vm : MicroVm) (m : M)
      → All InBounds xs
      → (exec_steps motor_ops gpio_ops gpio xs vm m).outcome
        ≢ Outcome.trap VmError.unauthorized_access
  unfolding exec_steps
  exec_steps-authorized [] vm m h = λ o. cc
  exec_steps-authorized (x ∷ xs) vm m h =
      let r = step motor_ops gpio_ops gpio x vm m in
      and_then_rule r (exec_steps motor_ops gpio_ops gpio xs)
        (λ q. q.outcome ≢ Outcome.trap VmError.unauthorized_access)
        (λ _. exec_steps-authorized xs r.vm r.motor h.1) (λ _. step-authorized x vm m h.0)

module _ {G : Type 0} (gpio_ops : Gpio G) (gpio : G) where
  step-work :
      (x : VmStep) (vm : MicroVm) (m : MockMotor)
      → work (step mock_motor gpio_ops gpio x vm m).motor ≤ work m + speed x
  unfolding exec_step
  step-work (VmStep.set_pwm channel v) vm m = ground (arith, sum-append_one m.history v)
  step-work (VmStep.delay ticks) vm m = ground arith
  step-work (VmStep.assert_or_yield pin expected) vm m = ground arith

  exec_steps-work :
      (xs : List VmStep) (vm : MicroVm) (m : MockMotor)
      → work (exec_steps mock_motor gpio_ops gpio xs vm m).motor ≤ work m + speeds xs
  unfolding exec_steps
  exec_steps-work [] vm m = omega arith
  exec_steps-work (x ∷ xs) vm m =
      let r = step mock_motor gpio_ops gpio x vm m in
      and_then_rule r (exec_steps mock_motor gpio_ops gpio xs)
        (λ q. work q.motor ≤ work m + (speed x + speeds xs))
        (λ _. omega (arith, exec_steps-work xs r.vm r.motor, step-work x vm m))
        (λ _. omega (arith, step-work x vm m))

verify_vm_script-authorized :
    {M G : Type 0} (motor_ops : Motor M) (gpio_ops : Gpio G) (gpio : G) (viewer : VmScriptViewer)
    (script : List ℕ) (steps : List VmStep) (limit : ℕ) (vm : MicroVm) (m : M)
    → Decodes viewer script steps
    → (verify_vm_script steps limit).safe ≡ true
    → (run motor_ops gpio_ops viewer script gpio vm m).outcome
      ≢ Outcome.trap VmError.unauthorized_access
verify_vm_script-authorized motor_ops gpio_ops gpio viewer script steps limit vm m d safe =
    rw (run-exec_steps motor_ops gpio_ops gpio viewer script steps vm m d) (
      exec_steps-authorized motor_ops gpio_ops gpio steps vm m
        ((verify_vm_script-safe steps limit).0 safe).1)

-- A script that the verifier calls safe under a current limit never ends a run with
-- `UnauthorizedAccess`, whatever its fuel and the pins read, and the speeds that it sets add up to
-- at most the limit, if they are bytes and the script is short of 2^24 steps (so that the 32-bit
-- sum of the verifier does not wrap).
pub verify_vm_script-work :
    {G : Type 0} (gpio_ops : Gpio G) (gpio : G) (viewer : VmScriptViewer) (script : List ℕ)
    (steps : List VmStep) (limit : ℕ) (vm : MicroVm) (m : MockMotor)
    → Decodes viewer script steps
    → All SpeedIsByte steps
    → length steps < 2 ^ 24
    → (verify_vm_script steps limit).safe ≡ true
    → let r = run mock_motor gpio_ops viewer script gpio vm m in
      (r.outcome ≢ Outcome.trap VmError.unauthorized_access) × (work r.motor ≤ work m + limit)
verify_vm_script-work gpio_ops gpio viewer script steps limit vm m d bytes short safe = (
  verify_vm_script-authorized mock_motor gpio_ops gpio viewer script steps limit vm m d safe,
  rw (run-exec_steps mock_motor gpio_ops gpio viewer script steps vm m d) (
      omega (
        arith,
        exec_steps-work gpio_ops gpio steps vm m,
        ((verify_vm_script-safe steps limit).0 safe).0,
        draw_steps-total steps draw_new (omega (arith, speeds-le steps bytes)),
      )),
)

-- However much fuel a run is given, a delay in front of a script of at least one step keeps the
-- verdict of the verifier, and makes the run end out of fuel where the delay has as many ticks as
-- the fuel, less one, or more.
pub verify_vm_script-ignores_delay :
    {M G : Type 0} (motor_ops : Motor M) (gpio_ops : Gpio G) (gpio : G) (viewer : VmScriptViewer)
    (script : List ℕ) (ticks limit : ℕ) (next : VmStep) (rest : List VmStep) (vm : MicroVm) (m : M)
    → Decodes viewer script (VmStep.delay ticks ∷ next ∷ rest)
    → (verify_vm_script (next ∷ rest) limit).safe ≡ true
    → vm.fuel ≤ suc ticks
    → ((verify_vm_script (VmStep.delay ticks ∷ next ∷ rest) limit).safe ≡ true)
      × ((run motor_ops gpio_ops viewer script gpio vm m).outcome
          ≡ Outcome.trap VmError.out_of_fuel)
unfolding draw_steps
verify_vm_script-ignores_delay motor_ops gpio_ops gpio viewer script ticks limit next rest vm m d
      safe few =
    let without = (verify_vm_script-safe (next ∷ rest) limit).0 safe in
    (
      (verify_vm_script-safe (VmStep.delay ticks ∷ next ∷ rest) limit).1
          (without.0, (tt, without.1)),
      delay-starves motor_ops gpio_ops gpio viewer script ticks next rest vm m d few,
    )
