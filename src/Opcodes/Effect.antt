-- ===== src/Opcodes/Effect.antt =====
-- crates/tiny-io-oi/src/std_impl.rs: what a step of the standard library may do to the motor, and with
-- which errors.
use tiny_io_oi.Prelude.{ℕ, zero, suc, ◌<◌, ◌-◌, ◌≤◌, Bool, true, false, ◌≡◌, ◌⊎◌, arith, ltb, leb}
use tiny_io_oi.Prelude.Int.{ℤ}
use tiny_io_oi.Prelude.Words.{low_bits, shr}
use tiny_io_oi.Vm.{VmError, Outcome}
use tiny_io_oi.Bytecode.{Instr}
use tiny_io_oi.Clock.{wait_until}
use tiny_io_oi.Board.{Board, Machine, Step}
use tiny_io_oi.Opcodes.{clamp_u8}

-- The errors of a measured hazard.
abbrev pub IsHazard : Outcome → Type 0
IsHazard (Outcome.trap (VmError.vibration_hazard hz amplitude)) = Unit
IsHazard (Outcome.trap VmError.multi_band_spectrum_hazard) = Unit
IsHazard (Outcome.trap VmError.acoustic_failure_detected) = Unit
IsHazard (Outcome.trap VmError.sensor_fusion_hazard) = Unit
IsHazard (Outcome.trap VmError.spatial_ranging_hazard) = Unit
IsHazard _ = ⊥

-- The opcodes that wait for the clock, and the channels that the three others name.
abbrev pub Waits : Instr → Type 0
Waits i = (i.opcode ≡ 0x86) ⊎ (i.opcode ≡ 0x8B)

pub record Granted (i : Instr) : Type 0 where
  pub resonance : i.opcode ≡ 0x81 → low_bits (shr i.param_b 16) 8 < 8
  pub adaptive : i.opcode ≡ 0x84 → low_bits (shr i.param_a 8) 8 < 8
  pub control : i.opcode ≡ 0x8A → low_bits i.param_b 8 < 8

-- No error, or one that says nothing of the hardware, with what it tells of the instruction.
abbrev pub IsQuiet : Instr → Outcome → Type 0
IsQuiet i Outcome.done = Unit
IsQuiet i Outcome.waiting = Waits i
IsQuiet i (Outcome.trap VmError.out_of_fuel) = Waits i
IsQuiet i (Outcome.trap VmError.invalid_std_op_code) = Unit
IsQuiet i (Outcome.trap VmError.unauthorized_access) = ¬ Granted i
IsQuiet i _ = ⊥

-- The speeds that the opcodes may set lie below `limit`.
pub record Allows (limit opcode : ℕ) : Type 0 where
  pub shift : opcode ≡ 0x81 → 110 ≤ limit
  pub adapt : opcode ≡ 0x84 → 115 ≤ limit
  pub fade : opcode ≡ 0x88 → 255 ≤ limit
  pub control : opcode ≡ 0x8A → 255 ≤ limit

pub clamp_u8-le : (z : ℤ) → clamp_u8 z ≤ 255
clamp_u8-le z = ground arith

pub wait_until-IsQuiet :
    (i : Instr) (fuel target_us start_us : ℕ) (clock : ℕ → ℕ)
    → Waits i
    → IsQuiet i (wait_until fuel target_us start_us clock).0
unfolding wait_until
wait_until-IsQuiet i zero target_us start_us clock w = w
wait_until-IsQuiet i (suc fuel) target_us start_us clock w =
    go (leb target_us (clock 0)) (ltb 10_000_000 (clock 0 - start_us)) _
      (wait_until-IsQuiet i fuel target_us start_us (λ j. clock (suc j)) w)
  where
    go :
        (reached late : Bool) (o : Outcome × (ℕ → ℕ))
        → IsQuiet i o.0
        → let r : Outcome × (ℕ → ℕ) = elim reached [
          | true ↦ (Outcome.done, λ j. clock (suc j))
          | false ↦ elim late [
            | true ↦ (Outcome.trap VmError.out_of_fuel, λ j. clock (suc j))
            | false ↦ o
          ]
        ] in
          IsQuiet i r.0
    go true late o h = tt
    go false true o h = w
    go false false o h = h

module _ (board : Board) where
  open board use {M, A, N, motor_ops}

  -- What a step has done to the motor of `mc`, when no speed above `limit` is allowed.
  pub data Effect (limit : ℕ) (i : Instr) (mc : Machine M N) (r : Step board) : Type 0 where
    kept : IsQuiet i r.1 → r.0.motor ≡ mc.motor → Effect limit i mc r
    stopped : IsHazard r.1 → r.0.motor ≡ motor_ops.stop mc.motor → Effect limit i mc r
    driven :
        (v : ℕ)
        → v ≤ limit
        → (r.1 ≡ Outcome.done) ⊎ (r.1 ≡ Outcome.trap VmError.pid_hazard)
        → r.0.motor ≡ motor_ops.set_speed mc.motor v
        → Effect limit i mc r
    faded :
        (channel duty fade_ms : ℕ)
        → duty ≤ limit
        → r.1 ≡ Outcome.done
        → r.0.motor ≡ motor_ops.fade_to mc.motor channel duty fade_ms
        → Effect limit i mc r
