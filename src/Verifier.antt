-- ===== src/Verifier.antt =====
-- crates/tiny-io-oi/src/verifier/mod.rs: the static verifier of scripts and of standard bytecode. The
-- report is the list of the pieces that are pushed on it; `ReportText.text` is the string.
pub mod Named
pub mod Script
pub mod Summary
pub mod Standard
use tiny_io_oi.Prelude.{
  ℕ, suc, ◌+◌, ◌/◌, ◌%◌, ◌^◌, List, [], ◌∷◌, ◌++◌, Bool, true, false, ◌&&◌, ◌||◌, length, leb, ltb,
  ◌==◌, if◌then◌else◌,
}
use tiny_io_oi.Prelude.Words.{shr, low_bits}
use tiny_io_oi.Vm.{VmStep}
use tiny_io_oi.Bytecode.{Instr, decode}
use tiny_io_oi.ReportText.{Line, Violation}
use tiny_io_oi.ReportText.Script.{script_opening, script_boundary, script_current, script_summary}
use tiny_io_oi.ReportText.Bytecode.{std_title, std_opening, std_boundary, std_current, std_summary}

pub record VerificationReport : Type 0 where
  pub safe : Bool
  pub report : List Line

-- The variables of the boundary loops, and what they push on the report.
pub record Scan : Type 0 where
  pub safe : Bool
  pub pins : ℕ
  pub ops : ℕ
  pub report : List Line

abbrev pub scan_new : Scan
scan_new = record { safe = true; pins = 0; ops = 0; report = [] }

-- `safe = false; pin_violations += 1` and a line of the report, if the test says so; and the same for
-- `op_violations`.
abbrev pub pin_violation : Bool → Line → Scan → Scan
pin_violation bad line s =
    if bad
    then record { safe = false; pins = s.pins + 1; ops = s.ops; report = s.report ++ line ∷ [] }
    else s

abbrev pub op_violation : Bool → Line → Scan → Scan
op_violation bad line s =
    if bad
    then record { safe = false; pins = s.pins; ops = s.ops + 1; report = s.report ++ line ∷ [] }
    else s

-- The two variables of the current loops; the sum is a u32.
pub record Draw : Type 0 where
  pub peak : ℕ
  pub total : ℕ

abbrev pub draw_new : Draw
draw_new = record { peak = 0; total = 0 }

abbrev pub draw_more : ℕ → Draw → Draw
draw_more speed d = record {
  peak = if ltb d.peak speed then speed else d.peak;
  total = (d.total + speed) % 2 ^ 32;
}

-- The `match` on a step; `i` is its index.
unfoldable pub scan_step : ℕ → VmStep → Scan → Scan
scan_step i (VmStep.set_pwm channel speed) s =
    pin_violation (leb 8 channel) (Line.violation Violation.step_channel i channel) s
scan_step i (VmStep.delay ticks) s = s
scan_step i (VmStep.assert_or_yield pin expected) s =
    pin_violation (leb 32 pin) (Line.violation Violation.step_pin i pin) s

unfoldable pub scan_steps : ℕ → List VmStep → Scan → Scan
unfolding scan_step
scan_steps i [] s = s
scan_steps i (x ∷ xs) s = scan_steps (suc i) xs (scan_step i x s)

unfoldable pub draw_steps : List VmStep → Draw → Draw
draw_steps [] d = d
draw_steps (VmStep.set_pwm channel speed ∷ xs) d = draw_steps xs (draw_more speed d)
draw_steps (VmStep.delay ticks ∷ xs) d = draw_steps xs d
draw_steps (VmStep.assert_or_yield pin expected ∷ xs) d = draw_steps xs d

-- `StaticVerifier::verify_vm_script`, on the steps of the archived script; its
-- `channel_violations` stays 0.
unfoldable pub verify_vm_script : List VmStep → ℕ → VerificationReport
unfolding scan_steps draw_steps
verify_vm_script steps max_current_limit =
    let s = scan_steps 0 steps scan_new in
    let d = draw_steps steps draw_new in
    let safe = if ltb max_current_limit d.total then false else s.safe in
    record {
      safe = safe;
      report =
          script_opening (length steps)
          ++ s.report
          ++ script_boundary (s.pins == 0) ∷ script_current d.peak d.total max_current_limit
          ++ script_summary safe ∷ [];
    }

-- The checks of one instruction, in the order of the source; `step_idx` is its index.
unfoldable pub scan_instr : ℕ → Instr → Scan → Scan
scan_instr step_idx i s =
    let shift_channel = low_bits (shr i.param_b 16) 8 in
    let adapt_channel = low_bits (shr i.param_a 8) 8 in
    let control_channel = low_bits i.param_b 8 in
    let s1 =
      op_violation (ltb i.opcode 0x80 || ltb 0x8C i.opcode)
        (Line.violation Violation.unknown_opcode step_idx i.opcode) s in
    let s2 = pin_violation (leb 32 i.pin) (Line.violation Violation.instr_pin step_idx i.pin) s1 in
    let s3 =
      pin_violation (i.opcode == 0x81 && leb 8 shift_channel)
        (Line.violation Violation.instr_channel step_idx shift_channel) s2 in
    let s4 =
      pin_violation (i.opcode == 0x84 && leb 8 adapt_channel)
        (Line.violation Violation.instr_channel step_idx adapt_channel) s3 in
    pin_violation (i.opcode == 0x8A && leb 8 control_channel)
      (Line.violation Violation.instr_channel step_idx control_channel) s4

unfoldable pub scan_instrs : ℕ → List Instr → Scan → Scan
unfolding scan_instr
scan_instrs step_idx [] s = s
scan_instrs step_idx (i ∷ is) s = scan_instrs (suc step_idx) is (scan_instr step_idx i s)

-- The speed that an instruction is charged with.
unfoldable pub draw_instr : Instr → Draw → Draw
draw_instr i d =
    if i.opcode == 0x81
    then draw_more 110 d
    else (if i.opcode == 0x84
        then draw_more 115 d
        else (if i.opcode == 0x88
            then draw_more 255 d
            else (if i.opcode == 0x8A then draw_more 255 d else d)))

unfoldable pub draw_instrs : List Instr → Draw → Draw
unfolding draw_instr
draw_instrs [] d = d
draw_instrs (i ∷ is) d = draw_instrs is (draw_instr i d)

-- `StaticVerifier::verify_std_bytecode`: an unaligned bytecode is rejected before all else.
unfoldable pub verify_std_bytecode : List ℕ → ℕ → VerificationReport
unfolding scan_instrs draw_instrs
verify_std_bytecode bytecode max_current_limit =
    let is = decode bytecode in
    let s = scan_instrs 0 is scan_new in
    let d = draw_instrs is draw_new in
    let safe = if ltb max_current_limit d.total then false else s.safe in
    if length bytecode % 8 == 0
    then record {
      safe = safe;
      report =
          std_opening (length bytecode / 8)
          ++ s.report
          ++ std_boundary (s.pins == 0 && s.ops == 0) ∷ std_current d.peak d.total max_current_limit
          ++ std_summary safe ∷ [];
    }
    else record {
      safe = false;
      report =
          std_title
          ++ Line.literal
              "❌ Structural Safety: Instruction alignment violation! Bytecode size must be a multiple of 8.\n"
            ∷ [];
    }
