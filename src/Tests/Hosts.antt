-- ===== src/Tests/Hosts.antt =====
-- Concrete inputs for the theorems on the C interface.
use tiny_io_oi.Prelude.{
  ℕ, ◌^◌, ◌-◌, ◌≤◌, List, [], ◌∷◌, ◌++◌, Option, none, some, true, ◌≡◌, ◌⊎◌, inl, refl, ap, sym,
  ◌∙◌, arith, length, get_elem?, ◌==◌, if◌then◌else◌,
}
use tiny_io_oi.Prelude.Int.{pos}
use tiny_io_oi.Floats.{Floats}
use tiny_io_oi.Drivers.{mock_motor, mock_gpio, mock_motor_new, mock_gpio_new}
use tiny_io_oi.Vm.{VmStep, VmScriptViewer, new, run}
use tiny_io_oi.Vm.Steps.{exec_steps}
use tiny_io_oi.Bytecode.{decode}
use tiny_io_oi.Spectrum.{local_fixed_fft}
use tiny_io_oi.Std.{execute_step, run_instrs, run_std}
use tiny_io_oi.Opcodes.{assert_vibration, hardware_fade}
use tiny_io_oi.Verifier.{verify_vm_script, verify_std_bytecode}
use tiny_io_oi.Ffi.{
  verdict, run_standard_bytecode, rust_verify_std_bytecode, rust_verify_vm_script_bytecode,
}
use tiny_io_oi.Ffi.Answers.{run_standard_bytecode-hazard}
use tiny_io_oi.Ffi.Verified.{run_standard_bytecode-verified}
use tiny_io_oi.Ffi.Heap.{Call, Keeps}
use tiny_io_oi.Ffi.Builder.{ArchiveLaws, script_builder_serialize-runs}
use tiny_io_oi.Tests.Boards.{whole_numbers, two_steps}

-- Numbers in place of floats, of which every cast gives a large integer.
abbrev loud_numbers : Floats
loud_numbers = record whole_numbers {
  to_u16 = λ a. 2 ^ 16 - 1;
  to_u32 = λ a. 2 ^ 16 - 1;
  to_u16-lt = λ a. omega arith;
  to_u32-lt = λ a. omega arith;
}

abbrev micros : ℕ → ℕ
micros i = i

-- AssertVibration on pin 3, with thresholds of 0.
abbrev vibration : List ℕ
vibration = 3 ∷ 0 ∷ 0 ∷ 0 ∷ 0 ∷ 0 ∷ 0 ∷ []

vibration_code :
    (run_standard_bytecode loud_numbers 4 micros (some (0x80 ∷ vibration)) 9 50 7 true).code
    ≡ some (pos 2)
unfolding run_standard_bytecode run_std run_instrs decode execute_step assert_vibration
    local_fixed_fft
vibration_code = refl

run_standard_bytecode-hazard_example :
    (run_standard_bytecode loud_numbers 4 micros (some (0x80 ∷ vibration)) 9 50 7 true).final_speed
    ≡ some 0
run_standard_bytecode-hazard_example =
    run_standard_bytecode-hazard loud_numbers 4 micros 0x80 vibration 9 50 7 (inl vibration_code)

-- A fade of channel 2 to the speed 40.
abbrev fade : List ℕ
fade = 2 ∷ 40 ∷ 0 ∷ 5 ∷ 0 ∷ 0 ∷ 0 ∷ []

fade_safe : (rust_verify_std_bytecode (some (0x88 ∷ fade)) 300 true).out_safe ≡ some true
unfolding rust_verify_std_bytecode verdict verify_std_bytecode decode
fade_safe = refl

fade_speed :
    (run_standard_bytecode whole_numbers 4 micros (some (0x88 ∷ fade)) 9 50 7 true).final_speed
    ≡ some 40
unfolding run_standard_bytecode run_std run_instrs decode execute_step hardware_fade
fade_speed = refl

run_standard_bytecode-verified_example : ◌≡◌ {A = ℕ} 40 50 ⊎ (40 ≤ 300)
run_standard_bytecode-verified_example =
    run_standard_bytecode-verified whole_numbers 4 micros 0x88 fade 300 9 50 7 40 fade_safe
      (omega arith) fade_speed

-- A coding of scripts: three numbers for each step.
abbrev encode_step : VmStep → List ℕ
encode_step (VmStep.set_pwm channel speed) = 1 ∷ channel ∷ speed ∷ []
encode_step (VmStep.delay ticks) = 2 ∷ ticks ∷ 0 ∷ []
encode_step (VmStep.assert_or_yield pin expected) = 3 ∷ pin ∷ expected ∷ []

abbrev pub encode_steps : List VmStep → List ℕ
encode_steps [] = []
encode_steps (s ∷ rest) = encode_step s ++ encode_steps rest

abbrev decode_step : ℕ → ℕ → ℕ → VmStep
decode_step tag a b =
    if tag == 1
    then VmStep.set_pwm a b
    else (if tag == 2 then VmStep.delay a else VmStep.assert_or_yield a b)

abbrev decode_steps : List ℕ → List VmStep
decode_steps (tag ∷ a ∷ b ∷ rest) = decode_step tag a b ∷ decode_steps rest
decode_steps _ = []

decode_steps-encode_steps : (steps : List VmStep) → decode_steps (encode_steps steps) ≡ steps
decode_steps-encode_steps [] = refl
decode_steps-encode_steps (VmStep.set_pwm a b ∷ rest) =
    ap (◌∷◌ (VmStep.set_pwm a b)) (decode_steps-encode_steps rest)
decode_steps-encode_steps (VmStep.delay a ∷ rest) =
    ap (◌∷◌ (VmStep.delay a)) (decode_steps-encode_steps rest)
decode_steps-encode_steps (VmStep.assert_or_yield a b ∷ rest) =
    ap (◌∷◌ (VmStep.assert_or_yield a b)) (decode_steps-encode_steps rest)

abbrev pub to_bytes : List VmStep → Option (List ℕ)
to_bytes steps = some (encode_steps steps)

abbrev pub check_script : List ℕ → Option (List VmStep)
check_script bytes = some (decode_steps bytes)

abbrev pub script_viewer : VmScriptViewer
script_viewer = record {
  step_count = λ bytes. length (decode_steps bytes);
  get_step = λ bytes i. get_elem? (decode_steps bytes) i;
}

abbrev steps_or_none : Option (List VmStep) → List VmStep
steps_or_none none = []
steps_or_none (some steps) = steps

abbrev bytes_or_none : Option (List ℕ) → List ℕ
bytes_or_none none = []
bytes_or_none (some bytes) = bytes

pub script_laws : ArchiveLaws to_bytes check_script script_viewer
script_laws = record {
  checked = λ steps bytes e.
      ap some (ap decode_steps (sym (ap bytes_or_none e)) ∙ decode_steps-encode_steps steps);
  viewed = λ steps bytes e.
      let same = ap steps_or_none e in
      record { counted = ap length same; indexed = λ i. ap (λ xs. get_elem? xs i) same };
}

-- Two builders that are filled in turns, of which the other one is freed.
abbrev pub two_builders : List Call
two_builders =
    Call.add_pwm (some 0) 1 90
    ∷ Call.create
    ∷ Call.add_pwm (some 1) 2 40
    ∷ Call.add_delay (some 2) 5
    ∷ Call.free (some 2)
    ∷ Call.add_delay (some 1) 7
    ∷ Call.free (some 0)
    ∷ Call.add_pwm none 3 10
    ∷ []

pub two_builders-Keeps : Keeps 1 two_builders
two_builders-Keeps = (
  (λ e. cc),
  ((λ e. cc), ((λ e. cc), ((λ e. cc), ((λ e. cc), ((λ e. cc), ((λ e. cc), ((λ e. cc), tt))))))),
)

script_builder_serialize-runs_example :
    (run mock_motor mock_gpio script_viewer
        (encode_steps two_steps)
        mock_gpio_new
        (new 20)
        mock_motor_new
      ≡ exec_steps mock_motor mock_gpio mock_gpio_new two_steps (new 20) mock_motor_new)
    × (rust_verify_vm_script_bytecode check_script (some (encode_steps two_steps)) 100 true
        ≡ verdict (verify_vm_script two_steps 100))
script_builder_serialize-runs_example =
    script_builder_serialize-runs to_bytes check_script script_viewer script_laws mock_motor
      mock_gpio mock_gpio_new (new 20) mock_motor_new (none ∷ []) two_builders 1
      (2 ∷ 40 ∷ 2 ∷ 7 ∷ 0 ∷ []) 100 two_builders-Keeps refl
