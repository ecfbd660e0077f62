-- ===== src/Router.antt =====
-- crates/tiny-io-oi/src/hardware.rs: the routing of waveform commands to the outputs of a board. The
-- archive of a `WaveformMatrix` (rkyv) is a parameter.
pub mod Channels
use tiny_io_oi.Prelude.{
  ℕ, List, [], ◌∷◌, Option, none, some, Bool, true, false, ltb, ◌==◌, if◌then◌else◌, replicate,
}

pub data Waveform : Type 0 where
  digital_out : (state : ℕ) → Waveform
  pwm_8bit : (duty_cycle : ℕ) → Waveform
  analog_out : (voltage_level : ℕ) → Waveform
  servo_angle : (angle : ℕ) → Waveform

pub record WaveformCmd : Type 0 where
  pub channel : ℕ
  pub waveform : Waveform

-- A routing table: each entry binds a channel to a device.
abbrev pub Table : Type 0 → Type 0
Table D = List (Option (ℕ × D))

-- `DigitalOutput` and `PwmOutput`.
pub record Outputs (D P : Type 0) : Type 0 where
  pub set_level : D → Bool → D
  pub set_duty : P → ℕ → P

pub record HardwareRouter (D P : Type 0) : Type 0 where
  pub digital_pins : Table D
  pub pwm_channels : Table P

abbrev pub new : {D P : Type 0} → ℕ → HardwareRouter D P
new size = record { digital_pins = replicate size none; pwm_channels = replicate size none }

-- The first empty entry is taken. The Boolean is whether there was one.
unfoldable pub bind : {D : Type 0} → ℕ → D → Table D → Table D × Bool
bind channel device [] = ([], false)
bind channel device (none ∷ xs) = (some (channel, device) ∷ xs, true)
bind channel device (some e ∷ xs) = let (later, ok) = bind channel device xs in (some e ∷ later, ok)

-- The first entry with the channel has its device set, and the loop breaks.
unfoldable pub route : {D : Type 0} → ℕ → (D → D) → Table D → Table D
route channel f [] = []
route channel f (none ∷ xs) = none ∷ route channel f xs
route channel f (some (ch, d) ∷ xs) =
    let later = route channel f xs in
    if ch == channel then some (ch, f d) ∷ xs else some (ch, d) ∷ later

module _ {D P : Type 0} (outputs : Outputs D P) where
  abbrev pub bind_digital : ℕ → D → HardwareRouter D P → HardwareRouter D P × Bool
  bind_digital channel pin r =
      let (table, ok) = bind channel pin r.digital_pins in (record r { digital_pins = table }, ok)

  abbrev pub bind_pwm : ℕ → P → HardwareRouter D P → HardwareRouter D P × Bool
  bind_pwm channel pwm r =
      let (table, ok) = bind channel pwm r.pwm_channels in (record r { pwm_channels = table }, ok)

  -- The `match` on a command; the two other waveforms are ignored.
  unfoldable pub apply_cmd : ℕ → Waveform → HardwareRouter D P → HardwareRouter D P
  apply_cmd channel (Waveform.digital_out state) r = record r {
    digital_pins = route channel (λ pin. outputs.set_level pin (ltb 0 state)) r.digital_pins;
  }
  apply_cmd channel (Waveform.pwm_8bit duty_cycle) r = record r {
    pwm_channels = route channel (λ pwm. outputs.set_duty pwm duty_cycle) r.pwm_channels;
  }
  apply_cmd channel _ r = r

  unfoldable pub apply_cmds : List WaveformCmd → HardwareRouter D P → HardwareRouter D P
  unfolding apply_cmd
  apply_cmds [] r = r
  apply_cmds (c ∷ cs) r = apply_cmds cs (apply_cmd c.channel c.waveform r)

  -- The Boolean is whether the payload was a matrix.
  unfoldable pub apply_waveforms :
      (List ℕ → Option (List WaveformCmd)) → List ℕ → HardwareRouter D P → HardwareRouter D P × Bool
  unfolding apply_cmds
  apply_waveforms check payload r = elim (check payload) [
    | none ↦ (r, false)
    | some cmds ↦ (apply_cmds cmds r, true)
  ]
