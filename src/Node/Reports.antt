-- ===== src/Node/Reports.antt =====
-- crates/tiny-io-oi/src/node.rs: the five bytes that a node broadcasts after a trap.
use tiny_io_oi.Prelude.{ℕ, List, [], ◌∷◌}
use tiny_io_oi.Vm.{VmError}

-- `err_buf` after a run of a script.
unfoldable pub script_report : VmError → List ℕ
script_report VmError.out_of_fuel = 0xFF ∷ 0x01 ∷ 0 ∷ 0 ∷ 0 ∷ []
script_report (VmError.assertion_failed pin expected actual) =
    0xFF ∷ 0x02 ∷ pin ∷ expected ∷ actual ∷ []
script_report _ = 0xFF ∷ 0x03 ∷ 0 ∷ 0 ∷ 0 ∷ []

-- `err_buf` after a run of standard bytecode.
abbrev pub std_code : VmError → ℕ
std_code VmError.out_of_fuel = 0x01
std_code VmError.unauthorized_access = 0x05
std_code (VmError.vibration_hazard hz amplitude) = 0x02
std_code VmError.multi_band_spectrum_hazard = 0x03
std_code VmError.acoustic_failure_detected = 0x04
std_code _ = 0x99

unfoldable pub std_report : VmError → List ℕ
std_report e = 0xFF ∷ std_code e ∷ 0 ∷ 0 ∷ 0 ∷ []
