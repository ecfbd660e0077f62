-- ===== src/Std/Effects.antt =====
-- crates/tiny-io-oi/src/std_impl.rs: what one step of `StdExecutor::execute_step` does to the motor.
use tiny_io_oi.Prelude.{ℕ, ◌≤◌, Bool-cases, inl, inr, refl, arith, ◌==◌, ◌&&◌, ==_iff}
use tiny_io_oi.Bytecode.{Instr}
use tiny_io_oi.Board.{Board, Machine, Step}
use tiny_io_oi.Std.{execute_step}
use tiny_io_oi.Opcodes.Effect.{Allows, Effect, kept, stopped, driven, faded}
use tiny_io_oi.Opcodes.Motion.{
  assert_vibration-Effect, multi_band_assert-Effect, sensor_fusion-Effect, spatial_ranging-Effect,
  avoid_resonance-Effect, spectrum_adaptive-Effect, closed_loop_pid-Effect,
  spatial_consensus-Effect, hardware_fade-Effect, delay_until-Effect, sync_hibernate-Effect,
}

module _ (board : Board) where
  open board use {A, M, N}

  weaken :
      {low high : ℕ} {i : Instr} {mc : Machine M N} {r : Step board}
      → low ≤ high
      → Effect board low i mc r
      → Effect board high i mc r
  weaken le (kept q e) = kept q e
  weaken le (stopped h e) = stopped h e
  weaken le (driven v b o e) = driven v (omega arith) o e
  weaken le (faded c d f b o e) = faded c d f (omega arith) o e

  -- A step of the standard library either leaves the motor alone, and then reports no measured
  -- hazard, and a denied access only for a channel of 8 or more, and a timeout only for an opcode
  -- that waits for the clock; or stops it, and then reports one; or sets it, or fades it, to a speed that its opcode
  -- allows, and then reports success, or for a wild control error `PidHazard`.
  pub execute_step-Effect :
      (limit : ℕ) (i : Instr) (adc : A) (mc : Machine M N)
      → Allows limit i.opcode
      → Effect board limit i mc (execute_step board i adc mc)
  unfolding execute_step
  execute_step-Effect limit i adc mc allows =
      let samples = board.adc_ops.read_adc_buffer adc i.pin 256 in
      elim (Bool-cases (i.opcode == 0x80)) [
        | inl t ↦ rw t (weaken (omega arith) (assert_vibration-Effect board i samples mc))
        | inr f ↦ rw f (elim (Bool-cases (i.opcode == 0x81)) [
          | inl t ↦ rw t (
              weaken (allows.shift ((==_iff i.opcode 0x81).0 t))
                (avoid_resonance-Effect board i samples mc ((==_iff _ _).0 t)))
          | inr f ↦ rw f (elim (Bool-cases (i.opcode == 0x83)) [
            | inl t ↦ rw t (weaken (omega arith) (multi_band_assert-Effect board i samples mc))
            | inr f ↦ rw f (elim (Bool-cases (i.opcode == 0x84)) [
              | inl t ↦ rw t (
                  weaken (allows.adapt ((==_iff i.opcode 0x84).0 t))
                    (spectrum_adaptive-Effect board i samples mc ((==_iff _ _).0 t)))
              | inr f ↦ rw f (elim (Bool-cases (i.opcode == 0x86 && board.ptp)) [
                | inl t ↦
                    rw t (weaken (omega arith) (delay_until-Effect board i mc (ground (arith, t))))
                | inr f ↦ rw f (elim (Bool-cases (i.opcode == 0x87)) [
                  | inl t ↦
                      rw t (weaken (omega arith) (spatial_consensus-Effect board i samples mc))
                  | inr f ↦ rw f (elim (Bool-cases (i.opcode == 0x88)) [
                    | inl t ↦ rw t (
                        weaken (allows.fade ((==_iff i.opcode 0x88).0 t))
                          (hardware_fade-Effect board i mc))
                    | inr f ↦ rw f (elim (Bool-cases (i.opcode == 0x89)) [
                      | inl t ↦
                          rw t (weaken (omega arith) (sensor_fusion-Effect board i samples mc))
                      | inr f ↦ rw f (elim (Bool-cases (i.opcode == 0x8A)) [
                        | inl t ↦ rw t (
                            weaken (allows.control ((==_iff i.opcode 0x8A).0 t))
                              (closed_loop_pid-Effect board i samples mc ((==_iff _ _).0 t)))
                        | inr f ↦ rw f (elim (Bool-cases (i.opcode == 0x8B && board.ptp)) [
                          | inl t ↦ rw t (
                              weaken (omega arith)
                                (sync_hibernate-Effect board i mc (ground (arith, t))))
                          | inr f ↦ rw f (elim (Bool-cases (i.opcode == 0x8C)) [
                            | inl t ↦
                                rw t
                                  (weaken (omega arith) (spatial_ranging-Effect board i samples mc))
                            | inr f ↦ rw f (kept tt refl)
                          ])
                        ])
                      ])
                    ])
                  ])
                ])
              ])
            ])
          ])
        ])
      ]
