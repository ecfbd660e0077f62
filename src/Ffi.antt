-- ===== src/Ffi.antt =====
-- crates/tiny-io-oi-host/src/ffi.rs: the functions that the host library exports to C. A raw pointer
-- is an `Option`, null being `none`; a pointer that is only written through is the Boolean of its
-- being there, and what was written is in the result. The archive (rkyv) and the FFT (rustfft) are
-- parameters.
pub mod Heap
pub mod Builder
pub mod Answers
pub mod Verified
use Prim.Native.String.{String, len}
use tiny_io_oi.Prelude.{
  ℕ, zero, suc, ◌/◌, ◌%◌, ◌^◌, List, [], ◌∷◌, ◌++◌, Option, none, some, Bool, true, false, ◌&&◌,
  map, length, get_or, ltb, if◌then◌else◌,
}
use tiny_io_oi.Prelude.Int.{ℤ, pos, negsuc}
use tiny_io_oi.Floats.{Floats}
use tiny_io_oi.Spectrum.{Complex32}
use tiny_io_oi.Drivers.{
  MockMotor, MockNetwork, MockGpio, mock_motor, mock_motor_new, mock_set_speed, mock_gpio_new,
  set_pin, mock_adc, mock_network,
}
use tiny_io_oi.Vm.{VmStep, VmError, Outcome, new}
use tiny_io_oi.Board.{Board}
use tiny_io_oi.Std.{StdRun, run_std}
use tiny_io_oi.ReportText.{text}
use tiny_io_oi.Verifier.{VerificationReport, verify_vm_script, verify_std_bytecode}

pub record ScriptBuilder : Type 0 where
  pub steps : List VmStep

abbrev pub create_script_builder : Option ScriptBuilder
create_script_builder = some (record { steps = [] })

abbrev pub push_step : Option ScriptBuilder → VmStep → Option ScriptBuilder
push_step none s = none
push_step (some b) s = some (record { steps = b.steps ++ s ∷ [] })

abbrev pub script_builder_add_pwm : Option ScriptBuilder → ℕ → ℕ → Option ScriptBuilder
script_builder_add_pwm builder channel speed = push_step builder (VmStep.set_pwm channel speed)

abbrev pub script_builder_add_delay : Option ScriptBuilder → ℕ → Option ScriptBuilder
script_builder_add_delay builder ticks = push_step builder (VmStep.delay ticks)

abbrev pub script_builder_add_assert : Option ScriptBuilder → ℕ → ℕ → Option ScriptBuilder
script_builder_add_assert builder pin expected =
    push_step builder (VmStep.assert_or_yield pin expected)

-- The returned pointer, and what was written to `*out_len`.
pub record Serialized : Type 0 where
  pub bytes : Option (List ℕ)
  pub out_len : Option ℕ

-- `to_bytes` is rkyv's, for a `VmScript` with these steps.
abbrev pub script_builder_serialize :
    (List VmStep → Option (List ℕ)) → Option ScriptBuilder → Bool → Serialized
script_builder_serialize to_bytes none out = record { bytes = none; out_len = none }
script_builder_serialize to_bytes (some b) false = record { bytes = none; out_len = none }
script_builder_serialize to_bytes (some b) true = elim (to_bytes b.steps) [
  | none ↦ record { bytes = none; out_len = none }
  | some bytes ↦ record { bytes = some bytes; out_len = some (length bytes % 2 ^ 32) }
]

module _ (floats : Floats) where
  open floats use {F, lit, neg, mul, div, lt}

  -- The loop of `rust_fft` over `i` in `0..half_n`, `n` rounds left: the magnitudes, and the index of
  -- the peak.
  abbrev pub fft_peak :
      (Complex32 floats → F) → List (Complex32 floats) → ℕ → ℕ → F → ℕ → List F × ℕ
  fft_peak norm buffer zero i max_mag peak = ([], peak)
  fft_peak norm buffer (suc n) i max_mag peak =
      let mag = norm (get_or buffer i (record { re = lit 0; im = lit 0 })) in
      let above = ltb 0 i && lt max_mag mag in
      let rest =
        fft_peak norm buffer n (suc i) (if above then mag else max_mag)
          (if above then i else peak) in
      (mag ∷ rest.0, rest.1)

  -- `process` is the planned FFT of rustfft, `norm` its magnitude. The result is the peak frequency
  -- and what was written to the output buffer.
  abbrev pub rust_fft :
      (List (Complex32 floats) → List (Complex32 floats))
      → (Complex32 floats → F)
      → Option (List F)
      → F
      → Bool
      → F × List F
  rust_fft process norm none sample_rate out = (lit 0, [])
  rust_fft process norm (some []) sample_rate out = (lit 0, [])
  rust_fft process norm (some (x ∷ xs)) sample_rate false = (lit 0, [])
  rust_fft process norm (some (x ∷ xs)) sample_rate true =
      let n = length (x ∷ xs) in
      let buffer = process (map (λ v. record { re = v; im = lit 0 }) (x ∷ xs)) in
      let (magnitudes, peak) = fft_peak norm buffer (n / 2) 0 (neg (lit 1)) 0 in
      (mul (lit peak) (div sample_rate (lit n)), magnitudes)

  -- What `run_std` runs against here: the mock motor, and the mock inputs as the ADC.
  abbrev pub ffi_board : ℕ → Board
  ffi_board patience = record {
    M = MockMotor;
    A = MockGpio;
    N = MockNetwork;
    motor_ops = mock_motor;
    adc_ops = mock_adc floats;
    network_ops = mock_network;
    floats = floats;
    patience = patience;
    ptp = true;
  }

-- The result of `run_standard_bytecode`, if it returned, and what was written to
-- `*out_final_motor_speed`.
pub record Answer : Type 0 where
  pub code : Option ℤ
  pub final_speed : Option ℕ

abbrev pub error_code : VmError → ℤ
error_code VmError.out_of_fuel = pos 1
error_code (VmError.vibration_hazard hz amplitude) = pos 2
error_code VmError.multi_band_spectrum_hazard = pos 3
error_code VmError.acoustic_failure_detected = pos 4
error_code _ = pos 99

-- The `match` on the result.
abbrev pub answer : Outcome → ℕ → Answer
answer Outcome.done speed = record { code = some (pos 0); final_speed = some speed }
answer (Outcome.trap e) speed = record { code = some (error_code e); final_speed = some speed }
answer Outcome.waiting speed = record { code = none; final_speed = none }

abbrev pub no_answer : Answer
no_answer = record { code = some (negsuc 0); final_speed = none }

-- The motor and the inputs that a bytecode starts with.
abbrev pub ffi_motor : ℕ → MockMotor
ffi_motor initial_speed = mock_set_speed mock_motor_new initial_speed

abbrev pub ffi_gpio : ℕ → MockGpio
ffi_gpio sensor = set_pin (set_pin mock_gpio_new 3 sensor) 5 sensor

module _ (floats : Floats) (patience : ℕ) (clock : ℕ → ℕ) where
  abbrev pub ffi_run : List ℕ → ℕ → ℕ → ℕ → StdRun (ffi_board floats patience)
  ffi_run bytecode fuel initial_speed sensor =
      run_std (ffi_board floats patience) bytecode (ffi_gpio sensor) (new fuel)
        (record { motor = ffi_motor initial_speed; gossip = none; clock = clock })

  unfoldable pub run_standard_bytecode : Option (List ℕ) → ℕ → ℕ → ℕ → Bool → Answer
  run_standard_bytecode none fuel initial_speed sensor out = no_answer
  run_standard_bytecode (some []) fuel initial_speed sensor out = no_answer
  run_standard_bytecode (some (b ∷ bs)) fuel initial_speed sensor false = no_answer
  run_standard_bytecode (some (b ∷ bs)) fuel initial_speed sensor true =
      let r = ffi_run (b ∷ bs) fuel initial_speed sensor in
      answer r.outcome r.machine.motor.current_speed

-- What a verifying function writes to `*out_safe` and `*out_report_len`, and the text that it
-- returns a pointer to the UTF-8 of.
pub record Verdict : Type 0 where
  pub out_safe : Option Bool
  pub out_report_len : Option ℕ
  pub report : Option String

unfoldable pub verdict : VerificationReport → Verdict
unfolding text
verdict r =
    let report = text r.report in
    record {
      out_safe = some r.safe;
      out_report_len = some (len report % 2 ^ 32);
      report = some report;
    }

abbrev pub no_verdict : Verdict
no_verdict = record { out_safe = none; out_report_len = none; report = none }

-- `outs` is whether both output pointers are there.
unfoldable pub rust_verify_std_bytecode : Option (List ℕ) → ℕ → Bool → Verdict
rust_verify_std_bytecode none limit outs = no_verdict
rust_verify_std_bytecode (some []) limit outs = no_verdict
rust_verify_std_bytecode (some (b ∷ bs)) limit false = no_verdict
rust_verify_std_bytecode (some (b ∷ bs)) limit true = verdict (verify_std_bytecode (b ∷ bs) limit)

-- `check` is rkyv's `check_archived_root::<VmScript>`.
unfoldable pub rust_verify_vm_script_bytecode :
    (List ℕ → Option (List VmStep)) → Option (List ℕ) → ℕ → Bool → Verdict
rust_verify_vm_script_bytecode check none limit outs = no_verdict
rust_verify_vm_script_bytecode check (some []) limit outs = no_verdict
rust_verify_vm_script_bytecode check (some (b ∷ bs)) limit false = no_verdict
rust_verify_vm_script_bytecode check (some (b ∷ bs)) limit true = elim (check (b ∷ bs)) [
  | none ↦ record { out_safe = some false; out_report_len = some 0; report = none }
  | some steps ↦ verdict (verify_vm_script steps limit)
]
