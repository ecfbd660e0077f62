-- ===== src/Router/Channels.antt =====
-- crates/tiny-io-oi/src/hardware.rs: what reaches the device of a channel.
use tiny_io_oi.Prelude.{
  ℕ, List, [], ◌∷◌, Option, none, some, ltb, ◌==◌, if◌then◌else◌, ◌≡◌, ◌∙◌, refl, sym, ap, arith,
  ==_iff,
}
use tiny_io_oi.Router.{
  Waveform, WaveformCmd, Table, Outputs, HardwareRouter, route, apply_cmd, apply_cmds,
}

-- The device of a channel: that of its first entry.
abbrev pub device : {D : Type 0} → Table D → ℕ → Option D
device [] channel = none
device (none ∷ xs) channel = device xs channel
device (some (ch, d) ∷ xs) channel =
    let later = device xs channel in if ch == channel then some d else later

abbrev pub update : {D : Type 0} → (D → D) → Option D → Option D
update f none = none
update f (some d) = some (f d)

-- A function of the device of one channel only.
abbrev on_channel : {D : Type 0} → ℕ → ℕ → (D → D) → D → D
on_channel channel other f d = if channel == other then f d else d

device-route :
    {D : Type 0} (table : Table D) (channel other : ℕ) (f : D → D)
    → device (route channel f table) other
      ≡ update (on_channel channel other f) (device table other)
unfolding route
device-route [] channel other f = refl
device-route (none ∷ xs) channel other f = device-route xs channel other f
device-route (some (ch, d) ∷ xs) channel other f = ground (
  arith,
  device-route xs channel other f,
  ==_iff ch channel,
  ==_iff ch other,
  ==_iff channel other,
)

update_same : {D : Type 0} (o : Option D) → update (λ d. d) o ≡ o
update_same none = refl
update_same (some d) = refl

update-update :
    {D : Type 0} (g f : D → D) (o : Option D) → update g (update f o) ≡ update (λ d. g (f d)) o
update-update g f none = refl
update-update g f (some d) = refl

module _ {D P : Type 0} (outputs : Outputs D P) where
  open outputs use {set_level, set_duty}

  -- What a command for channel `k` does to the two devices of a channel.
  abbrev pub level : ℕ → ℕ → Waveform → D → D
  level channel k (Waveform.digital_out state) d =
      if k == channel then set_level d (ltb 0 state) else d
  level channel k _ d = d

  abbrev pub duty : ℕ → ℕ → Waveform → P → P
  duty channel k (Waveform.pwm_8bit duty_cycle) d =
      if k == channel then set_duty d duty_cycle else d
  duty channel k _ d = d

  -- The commands of a matrix in their order.
  abbrev pub levels : ℕ → List WaveformCmd → D → D
  levels channel [] d = d
  levels channel (c ∷ cs) d = levels channel cs (level channel c.channel c.waveform d)

  abbrev pub duties : ℕ → List WaveformCmd → P → P
  duties channel [] d = d
  duties channel (c ∷ cs) d = duties channel cs (duty channel c.channel c.waveform d)

  apply_cmd-level :
      (channel k : ℕ) (w : Waveform) (r : HardwareRouter D P)
      → device (apply_cmd outputs k w r).digital_pins channel
        ≡ update (level channel k w) (device r.digital_pins channel)
  unfolding apply_cmd
  apply_cmd-level channel k (Waveform.digital_out state) r =
      device-route r.digital_pins k channel (λ pin. set_level pin (ltb 0 state))
  apply_cmd-level channel k (Waveform.pwm_8bit d) r =
      sym (update_same (device r.digital_pins channel))
  apply_cmd-level channel k (Waveform.analog_out v) r =
      sym (update_same (device r.digital_pins channel))
  apply_cmd-level channel k (Waveform.servo_angle v) r =
      sym (update_same (device r.digital_pins channel))

  apply_cmd-duty :
      (channel k : ℕ) (w : Waveform) (r : HardwareRouter D P)
      → device (apply_cmd outputs k w r).pwm_channels channel
        ≡ update (duty channel k w) (device r.pwm_channels channel)
  unfolding apply_cmd
  apply_cmd-duty channel k (Waveform.pwm_8bit d) r =
      device-route r.pwm_channels k channel (λ pwm. set_duty pwm d)
  apply_cmd-duty channel k (Waveform.digital_out v) r =
      sym (update_same (device r.pwm_channels channel))
  apply_cmd-duty channel k (Waveform.analog_out v) r =
      sym (update_same (device r.pwm_channels channel))
  apply_cmd-duty channel k (Waveform.servo_angle v) r =
      sym (update_same (device r.pwm_channels channel))

  -- The commands of a matrix reach the devices of a channel, the first that is bound to it, in the
  -- order of the matrix, and only those of the fitting waveform and that channel; no device is lost.
  pub apply_cmds-devices :
      (cmds : List WaveformCmd) (r : HardwareRouter D P) (channel : ℕ)
      → (device (apply_cmds outputs cmds r).digital_pins channel
          ≡ update (levels channel cmds) (device r.digital_pins channel))
        × (device (apply_cmds outputs cmds r).pwm_channels channel
            ≡ update (duties channel cmds) (device r.pwm_channels channel))
  unfolding apply_cmds
  apply_cmds-devices [] r channel = (
    sym (update_same (device r.digital_pins channel)),
    sym (update_same (device r.pwm_channels channel)),
  )
  apply_cmds-devices (c ∷ cs) r channel =
      let later = apply_cmds-devices cs (apply_cmd outputs c.channel c.waveform r) channel in
      (
        later.0
            ∙ ap (update (levels channel cs)) (apply_cmd-level channel c.channel c.waveform r)
            ∙ update-update (levels channel cs) (level channel c.channel c.waveform)
                (device r.digital_pins channel),
        later.1
            ∙ ap (update (duties channel cs)) (apply_cmd-duty channel c.channel c.waveform r)
            ∙ update-update (duties channel cs) (duty channel c.channel c.waveform)
                (device r.pwm_channels channel),
      )
