-- ===== src/Tests/Machines.antt =====
-- Concrete inputs for the theorems on the virtual machine, the standard library and the verifier.
use tiny_io_oi.Prelude.{
  ℕ, ◌+◌, ◌*◌, ◌≤◌, List, [], ◌∷◌, none, true, ◌≡◌, ◌≢◌, inl, refl, arith, All,
}
use tiny_io_oi.Prelude.Int.{ℤ, negsuc}
use tiny_io_oi.Drivers.{
  MockMotor, MockNetwork, mock_motor_new, mock_gpio_new, mock_motor, mock_gpio,
}
use tiny_io_oi.Drivers.History.{work}
use tiny_io_oi.Vm.{VmStep, VmError, Outcome, new, run}
use tiny_io_oi.Vm.Fuel.{Spends, run-Spends}
use tiny_io_oi.Vm.Traps.{Reports, run-Reports}
use tiny_io_oi.Bytecode.{Instr, decode}
use tiny_io_oi.Bytecode.Encoding.{program, decode-program}
use tiny_io_oi.Bytecode.Length.{InRange, decode-InRange}
use tiny_io_oi.Gossip.{count_neighbors}
use tiny_io_oi.Gossip.Quorum.{Quorum, count_neighbors-Quorum}
use tiny_io_oi.Ranging.{fill, median_rssi}
use tiny_io_oi.Ranging.Median.{HasRank, median_rssi-HasRank}
use tiny_io_oi.Board.{Machine}
use tiny_io_oi.Std.{execute_step, run_std}
use tiny_io_oi.Opcodes.Effect.{Effect, Waits}
use tiny_io_oi.Std.Effects.{execute_step-Effect}
use tiny_io_oi.Std.Loop.{run_std-fuel}
use tiny_io_oi.Verifier.{verify_vm_script, verify_std_bytecode}
use tiny_io_oi.Verifier.Script.{verify_vm_script-work, verify_vm_script-ignores_delay}
use tiny_io_oi.Verifier.Standard.{
  with_mock_motor, verify_std_bytecode-authorized, verify_std_bytecode-unhandled,
}
use tiny_io_oi.Tests.Boards.{mock_board, two_steps, late_steps, viewer_of, viewer_of-Decodes}

abbrev machine : Machine MockMotor MockNetwork
machine = record { motor = mock_motor_new; gossip = none; clock = λ i. 1000 * i }

-- A fade of channel 2 to the speed 40, in 5 milliseconds.
abbrev fade : List ℕ
fade = 0x88 ∷ 2 ∷ 40 ∷ 0 ∷ 5 ∷ 0 ∷ 0 ∷ 0 ∷ []

abbrev fade_instr : Instr
fade_instr = record { opcode = 0x88; pin = 2; param_a = 40; param_b = 5 }

fade_no_wait : All (λ i. ¬ Waits i) (decode fade)
unfolding decode
fade_no_wait = ground arith

run-Spends_example :
    Spends 9 9
      (run mock_motor mock_gpio (viewer_of two_steps) [] mock_gpio_new (new 9) mock_motor_new)
run-Spends_example =
    run-Spends mock_motor mock_gpio mock_gpio_new (viewer_of two_steps) [] two_steps (new 9)
      mock_motor_new (viewer_of-Decodes two_steps [])

run_trapped :
    Reports none
      (run mock_motor mock_gpio (viewer_of two_steps) [] mock_gpio_new (new 1) mock_motor_new)
run_trapped =
    run-Reports mock_motor mock_gpio (viewer_of two_steps) [] mock_gpio_new (new 1) mock_motor_new

two_steps_safe : (verify_vm_script two_steps 100).safe ≡ true
unfolding verify_vm_script
two_steps_safe = refl

late_steps_safe : (verify_vm_script late_steps 100).safe ≡ true
unfolding verify_vm_script
late_steps_safe = refl

verify_vm_script-work_example :
    let r =
      run mock_motor mock_gpio (viewer_of two_steps) [] mock_gpio_new (new 100) mock_motor_new in
    (r.outcome ≢ Outcome.trap VmError.unauthorized_access)
    × (work r.motor ≤ work mock_motor_new + 100)
verify_vm_script-work_example =
    verify_vm_script-work mock_gpio mock_gpio_new (viewer_of two_steps) [] two_steps 100 (new 100)
      mock_motor_new (viewer_of-Decodes two_steps []) (omega arith, (omega arith, tt)) (omega arith)
      two_steps_safe

verify_vm_script-ignores_delay_example :
    ((verify_vm_script late_steps 100).safe ≡ true)
    × ((run mock_motor mock_gpio
          (viewer_of late_steps)
          []
          mock_gpio_new
          (new 5)
          mock_motor_new).outcome
        ≡ Outcome.trap VmError.out_of_fuel)
unfolding verify_vm_script
verify_vm_script-ignores_delay_example =
    verify_vm_script-ignores_delay mock_motor mock_gpio mock_gpio_new (viewer_of late_steps) [] 7
      100 (VmStep.set_pwm 2 40) [] (new 5) mock_motor_new (viewer_of-Decodes late_steps [])
      late_steps_safe (omega arith)

fade_safe : (verify_std_bytecode fade 300).safe ≡ true
unfolding verify_std_bytecode decode
fade_safe = refl

verify_std_bytecode-authorized_example :
    let r = run_std (with_mock_motor mock_board) fade mock_gpio_new (new 5) machine in
    (r.outcome ≢ Outcome.trap VmError.unauthorized_access)
    × (work r.machine.motor ≤ work mock_motor_new + 300)
verify_std_bytecode-authorized_example =
    verify_std_bytecode-authorized mock_board fade 300 mock_gpio_new (new 5) machine fade_safe
      (omega arith)

verify_std_bytecode-unhandled_example :
    let bytecode : List ℕ = 0x82 ∷ 3 ∷ 0 ∷ 0 ∷ 0 ∷ 0 ∷ 0 ∷ 0 ∷ [] in
    ((verify_std_bytecode bytecode 0).safe ≡ true)
    × ((run_std mock_board bytecode mock_gpio_new (new 5) machine).outcome
        ≡ Outcome.trap VmError.invalid_std_op_code)
verify_std_bytecode-unhandled_example =
    verify_std_bytecode-unhandled mock_board 0x82 3 0 0 0 0 0 0 0 mock_gpio_new (new 5) machine
      (inl (inl refl)) (omega arith) (omega arith)

run_std-fuel_example :
    (run_std mock_board fade mock_gpio_new (new 1) machine).outcome
    ≢ Outcome.trap VmError.out_of_fuel
run_std-fuel_example =
    run_std-fuel mock_board fade mock_gpio_new (new 1) machine (omega arith) fade_no_wait

execute_step-Effect_example :
    Effect mock_board 255 fade_instr machine
      (execute_step mock_board fade_instr mock_gpio_new machine)
execute_step-Effect_example =
    execute_step-Effect mock_board 255 fade_instr mock_gpio_new machine (record {
      shift = λ op. omega arith;
      adapt = λ op. omega arith;
      fade = λ op. omega arith;
      control = λ op. omega arith;
    })

fields_fit : All InRange (decode fade)
fields_fit = decode-InRange fade (ground arith)

-- A fade, and a byte too many.
decode-program_example : decode (program (fade_instr ∷ []) (7 ∷ [])) ≡ fade_instr ∷ []
decode-program_example =
    decode-program (fade_instr ∷ []) (7 ∷ [])
      (
        record {
          opcode_u8 = omega arith;
          pin_u8 = omega arith;
          param_a_u16 = omega arith;
          param_b_u32 = omega arith;
        },
        tt,
      )
      (omega arith)

count_neighbors-Quorum_example :
    Quorum
      (1 ∷ [])
      2000
      1000
      5
      (record { sender_mac = 2 ∷ []; timestamp_us = 1500; hazard_score = 9 } ∷ [])
      (count_neighbors
        (1 ∷ [])
        2000
        1000
        5
        []
        (record { sender_mac = 2 ∷ []; timestamp_us = 1500; hazard_score = 9 } ∷ []))
count_neighbors-Quorum_example =
    count_neighbors-Quorum (1 ∷ []) 2000 1000 5
      (record { sender_mac = 2 ∷ []; timestamp_us = 1500; hazard_score = 9 } ∷ [])

abbrev readings : List ℤ
readings = negsuc 59 ∷ negsuc 79 ∷ negsuc 54 ∷ []

median_rssi-HasRank_example : HasRank (fill 3 readings) 1 (median_rssi 3 readings)
median_rssi-HasRank_example = median_rssi-HasRank 3 readings (omega arith) (omega arith)

abbrev slow_clock : ℕ → ℕ
slow_clock i = 100 * i
