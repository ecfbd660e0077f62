-- ===== src/ReportText.antt =====
-- crates/tiny-io-oi/src/verifier/mod.rs: the pieces that the verifier pushes on its report, and the
-- text that they make.
pub mod Script
pub mod Bytecode
use Prim.Native.String.{String, ◌++◌ as append, slice}
use tiny_io_oi.Prelude.{ℕ, zero, suc, ◌/◌, ◌%◌, List, [], ◌∷◌, ◌≡◌, refl}

-- What the numbered lines on a step complain of.
pub data Violation : Type 0 where
  step_channel step_pin unknown_opcode instr_pin instr_channel : Violation

-- One `push_str`: a literal, a literal around one number, or a violation of a step.
pub data Line : Type 0 where
  literal : (text : String) → Line
  number : (before : String) (value : ℕ) (after : String) → Line
  violation : (kind : Violation) (step value : ℕ) → Line

abbrev pub title : String → List Line
title target =
    Line.literal "=== tiny_io_oi Static Formal Verification Report ===\n" ∷ Line.literal target ∷ []

digit : ℕ → String
digit d = slice "0123456789ABCDEF" d (suc d)

digits : ℕ → ℕ → String → String
unfolding digit
digits zero n out = out
digits (suc fuel) n out = elim (n / 10) [
  | zero ↦ append (digit n) out
  | suc m ↦ digits fuel (suc m) (append (digit (n % 10)) out)
]

-- `{}` of a number: it has no more digits than one more than its value.
unfoldable pub decimal : ℕ → String
unfolding digits
decimal n = digits (suc n) n ""

-- `{:02X}` of a byte.
unfoldable pub hex_byte : ℕ → String
unfolding digit
hex_byte b = append (digit (b / 16)) (digit (b % 16))

around_step : String → ℕ → String → String → String
unfolding decimal
around_step before step between value =
    append before (append (decimal step) (append between (append value "\n")))

unfoldable pub violation_text : Violation → ℕ → ℕ → String
unfolding around_step hex_byte
violation_text Violation.step_channel i v =
    around_step "❌ Boundary Violation: Step " i " attempts to write unmapped PWM channel "
      (decimal v)
violation_text Violation.step_pin i v =
    around_step "❌ Boundary Violation: Step " i " attempts to read unmapped GPIO pin " (decimal v)
violation_text Violation.unknown_opcode i v =
    around_step "❌ OpCode Violation: Step " i " contains unauthorized opcode 0x" (hex_byte v)
violation_text Violation.instr_pin i v =
    around_step "❌ Pin Boundary Violation: Step " i " accesses unauthorized GPIO pin " (decimal v)
violation_text Violation.instr_channel i v =
    around_step "❌ Channel Boundary Violation: Step " i " attempts to write unmapped PWM channel "
      (decimal v)

unfoldable pub line_text : Line → String
unfolding violation_text
line_text (Line.literal text) = text
line_text (Line.number before value after) = append before (append (decimal value) after)
line_text (Line.violation kind step value) = violation_text kind step value

-- The report as one string.
unfoldable pub text : List Line → String
unfolding line_text
text [] = ""
text (x ∷ xs) = append (line_text x) (text xs)

forty_two :
    text (Line.number "Fuel >= " 42 "\n" ∷ Line.violation Violation.unknown_opcode 10 0x8E ∷ [])
    ≡ "Fuel >= 42\n❌ OpCode Violation: Step 10 contains unauthorized opcode 0x8E\n"
unfolding text
forty_two = refl
