-- ===== src/Std.antt =====
-- crates/tiny-io-oi/src/std_impl.rs, the `match` of `StdExecutor::execute_step`, and `MicroVm::run_std`
-- of vm.rs.
pub mod Sequence
pub mod Effects
pub mod Loop
use tiny_io_oi.Prelude.{ℕ, List, [], ◌∷◌, some, true, false, ◌&&◌, leb, ◌==◌, if◌then◌else◌}
use tiny_io_oi.Bytecode.{Instr, decode}
use tiny_io_oi.Vm.{VmError, Outcome, MicroVm, burn}
use tiny_io_oi.Board.{Board, Machine, Step, fail}
use tiny_io_oi.Opcodes.{
  assert_vibration, avoid_resonance, multi_band_assert, spectrum_adaptive, delay_until,
  spatial_consensus, hardware_fade, sensor_fusion, closed_loop_pid, sync_hibernate, spatial_ranging,
}

module _ (board : Board) where
  open board use {M, A, N, motor_ops, adc_ops, network_ops, ptp}

  -- `StdExecutor::execute_step`: the samples are read first, whatever the opcode.
  unfoldable pub execute_step : Instr → A → Machine M N → Step board
  execute_step i adc mc =
      let samples = adc_ops.read_adc_buffer adc i.pin 256 in
      if i.opcode == 0x80
      then assert_vibration board i.param_a i.param_b samples mc
      else (if i.opcode == 0x81
          then avoid_resonance board i.param_a i.param_b samples mc
          else (if i.opcode == 0x83
              then multi_band_assert board i.param_a i.param_b samples mc
              else (if i.opcode == 0x84
                  then spectrum_adaptive board i.param_a i.param_b samples mc
                  else (if i.opcode == 0x86 && ptp
                      then delay_until board i.param_a i.param_b mc
                      else (if i.opcode == 0x87
                          then spatial_consensus board i.param_a i.param_b samples mc
                          else (if i.opcode == 0x88
                              then hardware_fade board i.pin i.param_a i.param_b mc
                              else (if i.opcode == 0x89
                                  then sensor_fusion board i.param_a i.param_b samples mc
                                  else (if i.opcode == 0x8A
                                      then closed_loop_pid board i.param_a i.param_b samples mc
                                      else (if i.opcode == 0x8B && ptp
                                          then sync_hibernate board i.param_a i.param_b mc
                                          else (if i.opcode == 0x8C
                                              then spatial_ranging board i.param_a i.param_b samples
                                                  mc
                                              else fail board mc
                                                  VmError.invalid_std_op_code))))))))))

  -- The state of `run_std`: the virtual machine, and what its steps work on.
  pub record StdRun : Type 0 where
    pub vm : MicroVm
    pub machine : Machine M N
    pub outcome : Outcome

  abbrev pub std_trapped : MicroVm → Machine M N → VmError → StdRun
  std_trapped vm mc e = record {
    vm = record vm { trap_reason = some e };
    machine = mc;
    outcome = Outcome.trap e;
  }

  -- The loop of `run_std`. An error of a step is passed on by `?`, without a trap reason.
  unfoldable pub run_instrs : List Instr → A → MicroVm → Machine M N → StdRun
  run_instrs [] adc vm mc = record { vm = vm; machine = mc; outcome = Outcome.done }
  run_instrs (i ∷ rest) adc vm mc = elim (vm.fuel == 0) [
    | true ↦ std_trapped vm mc VmError.out_of_fuel
    | false ↦ elim (leb 32 i.pin) [
      | true ↦ std_trapped (burn vm) mc VmError.unauthorized_access
      | false ↦
          let r = execute_step i adc mc in
          elim r.1 [
            | Outcome.done ↦ run_instrs rest adc (burn vm) r.0
            | Outcome.trap e ↦ record { vm = burn vm; machine = r.0; outcome = Outcome.trap e }
            | Outcome.waiting ↦ record { vm = burn vm; machine = r.0; outcome = Outcome.waiting }
          ]
    ]
  ]

  -- `MicroVm::run_std`.
  unfoldable pub run_std : List ℕ → A → MicroVm → Machine M N → StdRun
  run_std bytecode adc vm mc = run_instrs (decode bytecode) adc vm mc
