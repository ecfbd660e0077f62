-- ===== src/Opcodes.antt =====
-- crates/tiny-io-oi/src/std_impl.rs: the opcodes of the standard library, one function for each, with
-- the features `std`, `ptp` and `verifier` (the default). The bit patterns of the parameters are taken
-- apart by `shr` and `low_bits`.
pub mod Effect
pub mod Motion
use tiny_io_oi.Prelude.{
  ℕ, zero, suc, ◌+◌, ◌*◌, ◌/◌, ◌%◌, ◌^◌, List, [], ◌∷◌, none, some, Bool, ◌&&◌, ◌||◌, leb, ltb,
  ◌==◌, if◌then◌else◌, get_or, length,
}
use tiny_io_oi.Prelude.Int.{ℤ, pos, ◌+ℤ◌, ◌-ℤ◌, ◌*ℤ◌, quot, ltb_ℤ, magnitude, bits, signed}
use tiny_io_oi.Prelude.Words.{shr, low_bits, saturating_add}
use tiny_io_oi.Protocol.{OpCode}
use tiny_io_oi.Spectrum.{heapless_fft_256, local_fixed_fft, calculate_band_energies}
use tiny_io_oi.Ranging.{clamp_window, median_rssi}
use tiny_io_oi.Gossip.{GossipContext, gossip_payload, count_neighbors}
use tiny_io_oi.Clock.{read_clock, wait_until, hibernate_target}
use tiny_io_oi.Vm.{VmError, Outcome}
use tiny_io_oi.Board.{Board, Machine, Step, fail, shut_down, drive}

-- i32 arithmetic.
abbrev pub i32 : ℤ → ℤ
i32 z = signed 32 (bits 32 z)

-- `for val in raw_samples { sum += val }`.
unfoldable pub sum_samples : ℤ → List ℤ → ℤ
sum_samples acc [] = acc
sum_samples acc (x ∷ xs) = sum_samples (i32 (acc +ℤ x)) xs

abbrev pub clamp_u8 : ℤ → ℕ
clamp_u8 z = if ltb_ℤ z (pos 0) then 0 else (if ltb_ℤ (pos 255) z then 255 else magnitude z)

-- `if b { count += 1; }`.
abbrev pub one_if : Bool → ℕ
one_if b = if b then 1 else 0

-- `mask & (1 << k) != 0`.
abbrev pub has_bit : ℕ → ℕ → Bool
has_bit mask k = low_bits (shr mask k) 1 == 1

module _ (board : Board) where
  open board use {M, A, N, motor_ops, adc_ops, network_ops, floats, patience}

  abbrev sample_rate : floats.F
  sample_rate = floats.lit 1000

  -- 0x80.
  unfoldable pub assert_vibration : ℕ → ℕ → List ℤ → Machine M N → Step board
  assert_vibration threshold_q15 max_hz samples mc =
      let (peak_hz, peak_amp) = local_fixed_fft floats samples sample_rate in
      if ltb max_hz peak_hz && ltb threshold_q15 peak_amp
      then shut_down board mc (VmError.vibration_hazard peak_hz peak_amp)
      else (mc, Outcome.done)

  -- 0x81. The difference of the frequencies is taken in i32 and cut to u16.
  unfoldable pub avoid_resonance : ℕ → ℕ → List ℤ → Machine M N → Step board
  avoid_resonance resonance_hz param_b samples mc =
      let (peak_hz, _) = local_fixed_fft floats samples sample_rate in
      let diff = magnitude (i32 (signed 32 peak_hz -ℤ pos resonance_hz)) % 2 ^ 16 in
      if leb 8 (low_bits (shr param_b 16) 8)
      then fail board mc VmError.unauthorized_access
      else (if leb diff (low_bits (shr param_b 24) 16)
          then drive board mc 110
          else (mc, Outcome.done))

  -- 0x83.
  unfoldable pub multi_band_hazard : ℕ → ℕ → ℕ × ℕ × ℕ → Bool
  multi_band_hazard param_a param_b (low, mid, high) =
      let logic_op = low_bits (shr param_a 8) 8 in
      let mask = low_bits param_a 8 in
      let low_mid_threshold = low_bits (shr param_b 16) 16 in
      let high_threshold = low_bits param_b 16 in
      let low_hit = has_bit mask 0 && ltb low_mid_threshold low in
      let mid_hit = has_bit mask 1 && ltb low_mid_threshold mid in
      let high_hit = has_bit mask 2 && ltb high_threshold high in
      let active = one_if (has_bit mask 0) + one_if (has_bit mask 1) + one_if (has_bit mask 2) in
      let hits = one_if low_hit + one_if mid_hit + one_if high_hit in
      if logic_op == 0 then ltb 0 active && hits == active else (low_hit || mid_hit || high_hit)

  unfoldable pub multi_band_assert : ℕ → ℕ → List ℤ → Machine M N → Step board
  unfolding multi_band_hazard
  multi_band_assert param_a param_b samples mc =
      if multi_band_hazard param_a param_b
        (calculate_band_energies floats (heapless_fft_256 floats samples) sample_rate)
      then shut_down board mc VmError.multi_band_spectrum_hazard
      else (mc, Outcome.done)

  -- 0x84.
  unfoldable pub spectrum_adaptive : ℕ → ℕ → List ℤ → Machine M N → Step board
  spectrum_adaptive param_a param_b samples mc =
      let (low, mid, high) =
        calculate_band_energies floats (heapless_fft_256 floats samples) sample_rate in
      if leb 8 (low_bits (shr param_a 8) 8)
      then fail board mc VmError.unauthorized_access
      else (if ltb 32768 high
          then shut_down board mc VmError.acoustic_failure_detected
          else (if ltb (low_bits param_b 16) mid
              then drive board mc 115
              else (if ltb (low_bits (shr param_b 16) 16) low
                  then drive board mc 70
                  else (mc, Outcome.done))))

  -- 0x86: the target is `(param_a << 32) | param_b`.
  unfoldable pub delay_until : ℕ → ℕ → Machine M N → Step board
  delay_until param_a param_b mc =
      let (start_us, clock) = read_clock mc.clock in
      let (o, clock') = wait_until patience (param_a * 2 ^ 32 + param_b) start_us clock in
      (record mc { clock = clock' }, o)

  -- 0x87, once the local score is over the threshold.
  unfoldable pub seek_consensus : ℕ → ℕ → Machine M N → GossipContext N → Step board
  unfolding gossip_payload count_neighbors
  seek_consensus param_b local_hazard mc ctx =
      let window_us = low_bits (shr param_b 16) 8 * 1000 in
      let (net, _) =
        network_ops.broadcast ctx.network OpCode.spatial_gossip
          (gossip_payload ctx.my_mac ctx.current_time_us local_hazard) in
      let mc' = record mc { gossip = some (record ctx { network = net }) } in
      let neighbors =
        count_neighbors ctx.my_mac ctx.current_time_us window_us (low_bits param_b 16) []
          ctx.recent_gossip in
      if leb (low_bits (shr param_b 24) 8) (length neighbors % 2 ^ 8)
      then shut_down board mc' VmError.multi_band_spectrum_hazard
      else (mc', Outcome.done)

  unfoldable pub spatial_consensus : ℕ → ℕ → List ℤ → Machine M N → Step board
  unfolding seek_consensus
  spatial_consensus threshold_q15 param_b samples mc =
      let (low, mid, _) =
        calculate_band_energies floats (heapless_fft_256 floats samples) sample_rate in
      let local_hazard = saturating_add 16 low mid in
      if ltb threshold_q15 local_hazard
      then elim mc.gossip [
        | none ↦ (mc, Outcome.done)
        | some ctx ↦ seek_consensus param_b local_hazard mc ctx
      ]
      else (mc, Outcome.done)

  -- 0x88.
  unfoldable pub hardware_fade : ℕ → ℕ → ℕ → Machine M N → Step board
  hardware_fade pin param_a param_b mc = (
    record mc { motor = motor_ops.fade_to mc.motor pin (low_bits param_a 8) (low_bits param_b 16) },
    Outcome.done,
  )

  -- 0x89: the complementary filter, `n` pairs of samples left from `i` on.
  fuse : List ℤ → ℕ → ℕ → ℕ → floats.F → floats.F
  fuse samples alpha_q15 zero i angle = angle
  fuse samples alpha_q15 (suc n) i angle =
      let accel = floats.div (floats.of_int (get_or samples i (pos 0))) (floats.lit 16384) in
      let gyro = floats.div (floats.of_int (get_or samples (i + 128) (pos 0))) (floats.lit 131) in
      let dt = floats.div (floats.lit 1) sample_rate in
      let accel_angle =
        floats.div (floats.mul (floats.atan2f accel (floats.lit 1)) (floats.lit 180)) floats.pi in
      let alpha = floats.div (floats.lit alpha_q15) (floats.lit 32768) in
      fuse samples alpha_q15 n (suc i) (
        floats.add (floats.mul alpha (floats.add angle (floats.mul gyro dt)))
          (floats.mul (floats.sub (floats.lit 1) alpha) accel_angle))

  unfoldable pub sensor_fusion : ℕ → ℕ → List ℤ → Machine M N → Step board
  unfolding fuse
  sensor_fusion alpha_q15 max_tilt samples mc =
      let angle = fuse samples alpha_q15 (length samples / 2) 0 (floats.lit 0) in
      if floats.lt (floats.lit max_tilt) (floats.fabsf angle)
      then shut_down board mc VmError.sensor_fusion_hazard
      else (mc, Outcome.done)

  -- 0x8A. The error is known before the motor is set, and is tested after it.
  unfoldable pub pid_error : ℕ → List ℤ → ℤ
  pid_error setpoint samples =
      i32 (pos setpoint -ℤ quot (sum_samples (pos 0) samples) (length samples))

  unfoldable pub closed_loop_pid : ℕ → ℕ → List ℤ → Machine M N → Step board
  unfolding pid_error
  closed_loop_pid setpoint param_b samples mc =
      let error = pid_error setpoint samples in
      let output = quot (i32 (pos (shr param_b 24) *ℤ error)) 100 in
      let mc' = record mc { motor = motor_ops.set_speed mc.motor (clamp_u8 output) } in
      if leb 8 (low_bits param_b 8)
      then fail board mc VmError.unauthorized_access
      else (if ltb 10000 (magnitude error)
          then fail board mc' VmError.pid_hazard
          else (mc', Outcome.done))

  -- 0x8B.
  unfoldable pub sync_hibernate : ℕ → ℕ → Machine M N → Step board
  unfolding hibernate_target
  sync_hibernate duration_ms align_ms mc =
      let (current_us, clock) = read_clock mc.clock in
      let (o, clock') =
        wait_until patience (hibernate_target duration_ms align_ms current_us) current_us clock in
      (record mc { clock = clock' }, o)

  -- 0x8C.
  unfoldable pub spatial_ranging : ℕ → ℕ → List ℤ → Machine M N → Step board
  spatial_ranging param_a param_b samples mc =
      if ltb_ℤ (signed 16 param_a) (median_rssi (clamp_window (low_bits param_b 8)) samples)
      then shut_down board mc VmError.spatial_ranging_hazard
      else (mc, Outcome.done)
