-- ===== src/Opcodes/Motion.antt =====
-- crates/tiny-io-oi/src/std_impl.rs: what each opcode does to the motor.
use tiny_io_oi.Prelude.{
  ℕ, Bool, true, false, List, Option, none, some, ◌≡◌, inl, inr, refl, arith, if◌then◌else◌,
}
use tiny_io_oi.Prelude.Int.{ℤ, pos, ◌*ℤ◌, quot}
use tiny_io_oi.Prelude.Words.{low_bits, shr}
use tiny_io_oi.Vm.{VmError, Outcome}
use tiny_io_oi.Bytecode.{Instr}
use tiny_io_oi.Gossip.{GossipContext}
use tiny_io_oi.Board.{Board, Machine, fail, shut_down, drive}
use tiny_io_oi.Opcodes.{
  assert_vibration, avoid_resonance, multi_band_assert, spectrum_adaptive, delay_until,
  seek_consensus, spatial_consensus, hardware_fade, sensor_fusion, closed_loop_pid, sync_hibernate,
  spatial_ranging, clamp_u8, i32, pid_error,
}
use tiny_io_oi.Opcodes.Effect.{
  IsHazard, Granted, Effect, kept, stopped, driven, faded, clamp_u8-le, wait_until-IsQuiet,
}

module _ (board : Board) where
  open board use {M, A, N, motor_ops}

  module _ (i : Instr) (samples : List ℤ) (mc : Machine M N) where
    -- The test of an opcode that only watches.
    watch :
        (hazard : Bool) (e : VmError)
        → IsHazard (Outcome.trap e)
        → Effect board 0 i mc (if hazard then shut_down board mc e else (mc, Outcome.done))
    watch true e h = stopped h refl
    watch false e h = kept tt refl

    pub assert_vibration-Effect :
        Effect board 0 i mc (assert_vibration board i.param_a i.param_b samples mc)
    unfolding assert_vibration
    assert_vibration-Effect = watch _ (VmError.vibration_hazard _ _) tt

    pub multi_band_assert-Effect :
        Effect board 0 i mc (multi_band_assert board i.param_a i.param_b samples mc)
    unfolding multi_band_assert
    multi_band_assert-Effect = watch _ VmError.multi_band_spectrum_hazard tt

    pub sensor_fusion-Effect :
        Effect board 0 i mc (sensor_fusion board i.param_a i.param_b samples mc)
    unfolding sensor_fusion
    sensor_fusion-Effect = watch _ VmError.sensor_fusion_hazard tt

    pub spatial_ranging-Effect :
        Effect board 0 i mc (spatial_ranging board i.param_a i.param_b samples mc)
    unfolding spatial_ranging
    spatial_ranging-Effect = watch _ VmError.spatial_ranging_hazard tt

    resonance :
        (denied near : Bool)
        → (denied ≡ true → ¬ Granted i)
        → Effect board 110 i mc (
            if denied
            then fail board mc VmError.unauthorized_access
            else (if near then drive board mc 110 else (mc, Outcome.done)))
    resonance true near d = kept (d refl) refl
    resonance false true d = driven 110 (omega arith) (inl refl) refl
    resonance false false d = kept tt refl

    pub avoid_resonance-Effect :
        i.opcode ≡ 0x81
        → Effect board 110 i mc (avoid_resonance board i.param_a i.param_b samples mc)
    unfolding avoid_resonance
    avoid_resonance-Effect op = resonance _ _ (λ h g. ground (arith, g.resonance op))

    adaptive :
        (denied high mid low : Bool)
        → (denied ≡ true → ¬ Granted i)
        → Effect board 115 i mc (
            if denied
            then fail board mc VmError.unauthorized_access
            else (if high
                then shut_down board mc VmError.acoustic_failure_detected
                else (if mid
                    then drive board mc 115
                    else (if low then drive board mc 70 else (mc, Outcome.done)))))
    adaptive true high mid low d = kept (d refl) refl
    adaptive false true mid low d = stopped tt refl
    adaptive false false true low d = driven 115 (omega arith) (inl refl) refl
    adaptive false false false true d = driven 70 (omega arith) (inl refl) refl
    adaptive false false false false d = kept tt refl

    pub spectrum_adaptive-Effect :
        i.opcode ≡ 0x84
        → Effect board 115 i mc (spectrum_adaptive board i.param_a i.param_b samples mc)
    unfolding spectrum_adaptive
    spectrum_adaptive-Effect op = adaptive _ _ _ _ (λ h g. ground (arith, g.adaptive op))

    pid :
        (denied wild : Bool) (output : ℤ)
        → (denied ≡ true → ¬ Granted i)
        → let mc' = record mc { motor = motor_ops.set_speed mc.motor (clamp_u8 output) } in
          Effect board 255 i mc (
            if denied
            then fail board mc VmError.unauthorized_access
            else (if wild then fail board mc' VmError.pid_hazard else (mc', Outcome.done)))
    pid true wild output d = kept (d refl) refl
    pid false true output d = driven _ (clamp_u8-le output) (inr refl) refl
    pid false false output d = driven _ (clamp_u8-le output) (inl refl) refl

    pub closed_loop_pid-Effect :
        i.opcode ≡ 0x8A
        → Effect board 255 i mc (closed_loop_pid board i.param_a i.param_b samples mc)
    unfolding closed_loop_pid
    closed_loop_pid-Effect op =
        pid _ _ (quot (i32 (pos (shr i.param_b 24) *ℤ pid_error board i.param_a samples)) 100)
          (λ h g. ground (arith, g.control op))

    consensus :
        (quorum : Bool) (gossip : Option (GossipContext N))
        → let mc' = record mc { gossip = gossip } in
          Effect board 0 i mc (
            if quorum
            then shut_down board mc' VmError.multi_band_spectrum_hazard
            else (mc', Outcome.done))
    consensus true gossip = stopped tt refl
    consensus false gossip = kept tt refl

    pub seek_consensus-Effect :
        (local_hazard : ℕ) (ctx : GossipContext N)
        → Effect board 0 i mc (seek_consensus board i.param_b local_hazard mc ctx)
    unfolding seek_consensus
    seek_consensus-Effect local_hazard ctx = consensus _ _

    spatial :
        (over : Bool) (local_hazard : ℕ) (gossip : Option (GossipContext N))
        → Effect board 0 i mc (
            if over
            then (elim gossip [
              | none ↦ (mc, Outcome.done)
              | some ctx ↦ seek_consensus board i.param_b local_hazard mc ctx
            ])
            else (mc, Outcome.done))
    spatial true local_hazard none = kept tt refl
    spatial true local_hazard (some ctx) = seek_consensus-Effect local_hazard ctx
    spatial false local_hazard gossip = kept tt refl

    pub spatial_consensus-Effect :
        Effect board 0 i mc (spatial_consensus board i.param_a i.param_b samples mc)
    unfolding spatial_consensus
    spatial_consensus-Effect = spatial _ _ _

  module _ (i : Instr) (mc : Machine M N) where
    pub hardware_fade-Effect :
        Effect board 255 i mc (hardware_fade board i.pin i.param_a i.param_b mc)
    unfolding hardware_fade
    hardware_fade-Effect =
        faded i.pin (low_bits i.param_a 8) (low_bits i.param_b 16) (omega arith) refl refl

    pub delay_until-Effect :
        i.opcode ≡ 0x86 → Effect board 0 i mc (delay_until board i.param_a i.param_b mc)
    unfolding delay_until
    delay_until-Effect op = kept (wait_until-IsQuiet i board.patience _ _ _ (inl op)) refl

    pub sync_hibernate-Effect :
        i.opcode ≡ 0x8B → Effect board 0 i mc (sync_hibernate board i.param_a i.param_b mc)
    unfolding sync_hibernate
    sync_hibernate-Effect op = kept (wait_until-IsQuiet i board.patience _ _ _ (inr op)) refl
