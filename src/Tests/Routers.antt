-- ===== src/Tests/Routers.antt =====
-- A concrete input for the theorem on the hardware router.
use tiny_io_oi.Prelude.{ℕ, List, [], ◌∷◌, none, some, Bool, false, ◌≡◌}
use tiny_io_oi.Router.{Waveform, WaveformCmd, Outputs, HardwareRouter, apply_cmds}
use tiny_io_oi.Router.Channels.{device, update, levels, duties, apply_cmds-devices}

-- Outputs that remember what they were set to last.
abbrev latches : Outputs Bool ℕ
latches = record { set_level = λ d high. high; set_duty = λ d duty. duty }

abbrev router : HardwareRouter Bool ℕ
router = record { digital_pins = some (3, false) ∷ none ∷ []; pwm_channels = some (4, 0) ∷ [] }

abbrev matrix : List WaveformCmd
matrix =
    record { channel = 3; waveform = Waveform.digital_out 1 }
    ∷ record { channel = 4; waveform = Waveform.pwm_8bit 90 }
    ∷ []

apply_cmds-devices_example :
    (device (apply_cmds latches matrix router).digital_pins 3
      ≡ update (levels latches 3 matrix) (device router.digital_pins 3))
    × (device (apply_cmds latches matrix router).pwm_channels 3
        ≡ update (duties latches 3 matrix) (device router.pwm_channels 3))
apply_cmds-devices_example = apply_cmds-devices latches matrix router 3
