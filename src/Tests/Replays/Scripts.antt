-- ===== src/Tests/Replays/Scripts.antt =====
-- crates/tiny-io-oi/src/lib.rs, vm.rs, verifier/mod.rs and ptp/mod.rs: the tests of the two machines,
-- of the expanded nodes, of the verifier and of the clock.
use Prim.Native.String.{String}
use package.text.Mathlib.Text.{find?}
use tiny_io_oi.Prelude.{
  ℕ, List, [], ◌∷◌, Option, none, some, Bool, true, false, not, ◌≡◌, refl, ◌==◌, if◌then◌else◌, ltb,
}
use tiny_io_oi.Prelude.Int.{ℤ, pos, negsuc}
use tiny_io_oi.Drivers.{
  MockMotor, MockGpio, mock_motor, mock_motor_new, mock_gpio, mock_gpio_new, set_pin,
}
use tiny_io_oi.Vm.{VmStep, new, run, run_from, round, exec_step}
use tiny_io_oi.Bytecode.{decode}
use tiny_io_oi.Clock.{wait_until}
use tiny_io_oi.Opcodes.{delay_until}
use tiny_io_oi.Std.{execute_step, run_instrs, run_std}
use tiny_io_oi.Ptp.{calculate_offset_and_delay}
use tiny_io_oi.ReportText.{text}
use tiny_io_oi.Verifier.{verify_vm_script, verify_std_bytecode}
use tiny_io_oi.Node.Handlers.{is_some}
use tiny_io_oi.MacroNode.{Field, Item, Bindings, Parts, expand, run_vm_script}
use tiny_io_oi.Tests.Boards.{mock_board}
use tiny_io_oi.Tests.Hosts.{encode_steps, script_viewer}
use tiny_io_oi.Tests.Replays.{all_of, is_ok, is_err, is_out_of_fuel}

abbrev test_zero_copy_vm_execution : Bool
test_zero_copy_vm_execution =
    let serialized = encode_steps (VmStep.set_pwm 0 120 ∷ VmStep.assert_or_yield 5 1 ∷ []) in
    let gpio = set_pin mock_gpio_new 5 1 in
    let r = run mock_motor mock_gpio script_viewer serialized gpio (new 10) mock_motor_new in
    all_of (is_ok r.outcome ∷ (r.motor.current_speed == 120) ∷ (r.vm.fuel == 8) ∷ [])

zero_copy_vm_execution_passes : test_zero_copy_vm_execution ≡ true
unfolding run run_from round exec_step
zero_copy_vm_execution_passes = refl

abbrev test_vm_out_of_fuel : Bool
test_vm_out_of_fuel =
    let serialized = encode_steps (VmStep.set_pwm 0 120 ∷ VmStep.set_pwm 0 130 ∷ []) in
    let r =
      run mock_motor mock_gpio script_viewer serialized mock_gpio_new (new 1) mock_motor_new in
    is_out_of_fuel r.outcome

vm_out_of_fuel_passes : test_vm_out_of_fuel ≡ true
unfolding run run_from round exec_step
vm_out_of_fuel_passes = refl

-- `#[bind(channel = .., strategy = "..")]` on a field.
abbrev bound_to : String → ℕ → String → Field
bound_to name channel strategy = record {
  name = name;
  attrs =
      record { is_bind = true; parsed = true; channel = some channel; strategy = some strategy }
      ∷ [];
}

abbrev no_bindings : Bindings
no_bindings = record { pwm = []; gpio = [] }

abbrev bindings_of : Option Bindings → Bindings
bindings_of none = no_bindings
bindings_of (some b) = b

abbrev fresh_parts : MockGpio → Parts MockMotor MockGpio
fresh_parts sensor = record { motors = λ name. mock_motor_new; inputs = λ name. sensor }

-- `struct MacroSoldier`.
abbrev macro_soldier : Item
macro_soldier = Item.named (bound_to "motor" 0 "PWM" ∷ bound_to "sensor" 5 "GPIO" ∷ [])

abbrev test_macro_compile_and_routing : Bool
test_macro_compile_and_routing =
    let serialized = encode_steps (VmStep.set_pwm 0 180 ∷ VmStep.assert_or_yield 5 1 ∷ []) in
    let r =
      run_vm_script mock_motor mock_gpio (bindings_of (expand macro_soldier)) script_viewer
        serialized 20 (fresh_parts (set_pin mock_gpio_new 5 1)) in
    all_of (is_ok r.outcome ∷ ((r.parts.motors "motor").current_speed == 180) ∷ (r.fuel == 18) ∷ [])

macro_compile_and_routing_passes : test_macro_compile_and_routing ≡ true
unfolding expand run_vm_script
macro_compile_and_routing_passes = refl

-- `struct MacroDualMotor`.
abbrev macro_dual_motor : Item
macro_dual_motor = Item.named (bound_to "left" 0 "PWM" ∷ bound_to "right" 1 "PWM" ∷ [])

abbrev test_multi_pwm_routing : Bool
test_multi_pwm_routing =
    let serialized = encode_steps (VmStep.set_pwm 0 100 ∷ VmStep.set_pwm 1 200 ∷ []) in
    let r =
      run_vm_script mock_motor mock_gpio (bindings_of (expand macro_dual_motor)) script_viewer
        serialized 10 (fresh_parts mock_gpio_new) in
    all_of (
      is_ok r.outcome
      ∷ ((r.parts.motors "left").current_speed == 100)
      ∷ ((r.parts.motors "right").current_speed == 200)
      ∷ [])

multi_pwm_routing_passes : test_multi_pwm_routing ≡ true
unfolding expand run_vm_script
multi_pwm_routing_passes = refl

-- `struct MacroSafeShutdown`.
abbrev macro_safe_shutdown : Item
macro_safe_shutdown =
    Item.named
      (bound_to "left" 0 "PWM" ∷ bound_to "right" 1 "PWM" ∷ bound_to "sensor" 5 "GPIO" ∷ [])

abbrev test_assert_or_yield_safe_shutdown : Bool
test_assert_or_yield_safe_shutdown =
    let serialized =
      encode_steps
        (VmStep.set_pwm 0 100 ∷ VmStep.set_pwm 1 200 ∷ VmStep.assert_or_yield 5 1 ∷ []) in
    let r =
      run_vm_script mock_motor mock_gpio (bindings_of (expand macro_safe_shutdown)) script_viewer
        serialized 10 (fresh_parts (set_pin mock_gpio_new 5 0)) in
    all_of (
      is_err r.outcome
      ∷ ((r.parts.motors "left").current_speed == 0)
      ∷ ((r.parts.motors "right").current_speed == 0)
      ∷ [])

assert_or_yield_safe_shutdown_passes : test_assert_or_yield_safe_shutdown ≡ true
unfolding expand run_vm_script
assert_or_yield_safe_shutdown_passes = refl

-- The thread that advances the time does it after a few readings.
abbrev test_ptp_clock_and_delay_until : Bool
test_ptp_clock_and_delay_until =
    let bytecode : List ℕ = 0x86 ∷ 0 ∷ 0 ∷ 0 ∷ 0x7E ∷ 4 ∷ 0 ∷ 0 ∷ [] in
    let clock : ℕ → ℕ = λ i. if ltb i 2 then 1100 else 1200 in
    let r =
      run_std mock_board bytecode mock_gpio_new (new 100)
        (record { motor = mock_motor_new; gossip = none; clock = clock }) in
    is_ok r.outcome

ptp_clock_and_delay_until_passes : test_ptp_clock_and_delay_until ≡ true
unfolding run_std run_instrs execute_step decode wait_until delay_until
ptp_clock_and_delay_until_passes = refl

-- Does a report contain some words?
abbrev contains : String → String → Bool
contains report words = is_some (find? report words)

abbrev test_verifier_vm_script_safety_proof : Bool
test_verifier_vm_script_safety_proof =
    let script = VmStep.set_pwm 2 200 ∷ VmStep.assert_or_yield 12 1 ∷ [] in
    let report = verify_vm_script script 500 in
    let report_unsafe_current = verify_vm_script script 100 in
    let report_bad = verify_vm_script (VmStep.assert_or_yield 45 1 ∷ []) 500 in
    all_of (
      report.safe
      ∷ contains (text report.report) "100% mathematically proven"
      ∷ not report_unsafe_current.safe
      ∷ contains (text report_unsafe_current.report) "Electrical Safety Failure"
      ∷ not report_bad.safe
      ∷ contains (text report_bad.report) "Boundary Violation"
      ∷ [])

verifier_vm_script_safety_proof_passes : test_verifier_vm_script_safety_proof ≡ true
unfolding verify_vm_script text
verifier_vm_script_safety_proof_passes = refl

abbrev test_verifier_std_bytecode_safety_proof : Bool
test_verifier_std_bytecode_safety_proof =
    let bytecode : ℕ → List ℕ = λ pin. 0x81 ∷ pin ∷ 100 ∷ 0 ∷ 0 ∷ 0 ∷ 3 ∷ 5 ∷ [] in
    let report = verify_std_bytecode (bytecode 5) 200 in
    let report_bad_pin = verify_std_bytecode (bytecode 40) 200 in
    all_of (
      report.safe
      ∷ contains (text report.report) "100% mathematically proven"
      ∷ not report_bad_pin.safe
      ∷ contains (text report_bad_pin.report) "Pin Boundary Violation"
      ∷ [])

verifier_std_bytecode_safety_proof_passes : test_verifier_std_bytecode_safety_proof ≡ true
unfolding verify_std_bytecode text decode
verifier_std_bytecode_safety_proof_passes = refl

abbrev is_pos : ℤ → ℕ → Bool
is_pos (pos n) k = n == k
is_pos (negsuc n) k = false

abbrev test_ptp_precision_offset_math : Bool
test_ptp_precision_offset_math =
    let (offset, delay) = calculate_offset_and_delay 1000 1050 2000 2030 in
    all_of (is_pos offset 10 ∷ (delay == 40) ∷ [])

ptp_precision_offset_math_passes : test_ptp_precision_offset_math ≡ true
unfolding calculate_offset_and_delay
ptp_precision_offset_math_passes = refl
