-- ===== src/Vm.antt =====
-- crates/tiny-io-oi/src/vm.rs: the fuel-limited interpreter of `VmScript`s, `MicroVm::run`. The
-- viewer that decodes a script (io_oi_core) is a parameter; `VmStep` is the type of that library's
-- that the source matches on, with the variants and fields that the match names. The standard
-- bytecode loop, `MicroVm::run_std`, is in Std.
pub mod Viewer
pub mod Sequence
pub mod Steps
pub mod Fuel
pub mod Traps
use tiny_io_oi.Prelude.{ℕ, zero, suc, ◌-◌, List, Option, none, some, leb, min, ◌==◌, if◌then◌else◌}
use tiny_io_oi.Traits.{Motor, Gpio}

pub data VmError : Type 0 where
  out_of_fuel : VmError
  assertion_failed : (pin expected actual : ℕ) → VmError
  vibration_hazard : (hz amplitude : ℕ) → VmError
  multi_band_spectrum_hazard acoustic_failure_detected envelope_violation : VmError
  invalid_std_op_code unauthorized_access sensor_fusion_hazard pid_hazard : VmError
  spatial_ranging_hazard buffer_overflow : VmError

-- What a run returns: `Ok(())`, an error, or, for the loops that wait for a clock, no result
-- within the number of readings that the model is given.
pub data Outcome : Type 0 where
  done : Outcome
  trap : VmError → Outcome
  waiting : Outcome

pub data VmStep : Type 0 where
  set_pwm : (channel speed : ℕ) → VmStep
  delay : (ticks : ℕ) → VmStep
  assert_or_yield : (pin expected : ℕ) → VmStep

-- `io_oi_core::embedded::VmScriptViewer`, over the bytes of a script.
pub record VmScriptViewer : Type 0 where
  pub step_count : List ℕ → ℕ
  pub get_step : List ℕ → ℕ → Option VmStep

pub record MicroVm : Type 0 where
  pub fuel : ℕ
  pub trap_reason : Option VmError

abbrev pub new : ℕ → MicroVm
new fuel = record { fuel = fuel; trap_reason = none }

-- The machine and the motor after a run, and what the run returned.
pub record Run (M : Type 0) : Type 0 where
  pub vm : MicroVm
  pub motor : M
  pub outcome : Outcome

-- `self.fuel -= 1`, after the test that it is not 0.
abbrev pub burn : MicroVm → MicroVm
burn vm = record vm { fuel = vm.fuel - 1 }

-- `self.trap_reason = Some(e); return Err(e)`.
abbrev pub trapped : {M : Type 0} → MicroVm → M → VmError → Run M
trapped vm m e = record {
  vm = record vm { trap_reason = some e };
  motor = m;
  outcome = Outcome.trap e;
}

-- The rest of a loop runs only after a step that returned no error.
abbrev pub and_then : {M : Type 0} → Run M → (MicroVm → M → Run M) → Run M
and_then r rest = elim r.outcome [
  | Outcome.done ↦ rest r.vm r.motor
  | Outcome.trap e ↦ r
  | Outcome.waiting ↦ r
]

module _ {M G : Type 0} (motor_ops : Motor M) (gpio_ops : Gpio G) where
  -- The `match step` of the loop body.
  unfoldable pub exec_step : VmStep → G → MicroVm → M → Run M
  exec_step (VmStep.set_pwm channel speed) gpio vm m =
      if leb 8 channel
      then trapped vm m VmError.unauthorized_access
      else record { vm = vm; motor = motor_ops.set_speed m speed; outcome = Outcome.done }
  exec_step (VmStep.delay ticks) gpio vm m = record {
    vm = record vm { fuel = vm.fuel - min ticks vm.fuel };
    motor = m;
    outcome = Outcome.done;
  }
  exec_step (VmStep.assert_or_yield pin expected) gpio vm m =
      let actual = gpio_ops.read_pin gpio pin in
      if leb 32 pin
      then trapped vm m VmError.unauthorized_access
      else (if actual == expected
          then record { vm = vm; motor = m; outcome = Outcome.done }
          else trapped vm m (VmError.assertion_failed pin expected actual))

  module _ (viewer : VmScriptViewer) (script : List ℕ) (gpio : G) where
    -- One round of the loop, at step `i`. `get_step(i).ok_or(BufferOverflow)?` returns without a
    -- trap reason.
    unfoldable pub round : ℕ → MicroVm → M → Run M
    unfolding exec_step
    round i vm m =
        if vm.fuel == 0 then trapped vm m VmError.out_of_fuel else elim (viewer.get_step script i) [
          | none ↦ record {
            vm = burn vm;
            motor = m;
            outcome = Outcome.trap VmError.buffer_overflow;
          }
          | some s ↦ exec_step s gpio (burn vm) m
        ]

    -- `for i in 0..count`, with `n` rounds left from step `i` on.
    unfoldable pub run_from : ℕ → ℕ → MicroVm → M → Run M
    run_from zero i vm m = record { vm = vm; motor = m; outcome = Outcome.done }
    run_from (suc n) i vm m = and_then (round i vm m) (λ vm' m'. run_from n (suc i) vm' m')

    -- `MicroVm::run`.
    unfoldable pub run : MicroVm → M → Run M
    run vm m = run_from (viewer.step_count script) 0 vm m
