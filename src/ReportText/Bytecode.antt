-- ===== src/ReportText/Bytecode.antt =====
-- crates/tiny-io-oi/src/verifier/mod.rs: the lines of `verify_std_bytecode` that are always there.
use tiny_io_oi.Prelude.{ℕ, List, [], ◌∷◌, ◌++◌, Bool, ltb, if◌then◌else◌}
use tiny_io_oi.ReportText.{Line, title}

abbrev pub std_title : List Line
std_title = title "Target: Semantic Standard Library Bytecode\n\n"

-- The report up to the boundary loop.
abbrev pub std_opening : ℕ → List Line
std_opening steps =
    std_title
    ++ Line.number "✓ Bytecode alignment verified. Total instructions: " steps "\n"
      ∷ Line.literal "--- 1. MATHEMATICAL TERMINATION PROOF ---\n"
      ∷ Line.literal "Proof: Standard library bytecode steps are executed sequentially.\n"
      ∷ Line.literal
          "There are no branching jump instructions or loops within the bytecode stream.\n"
      ∷ Line.number "Therefore, execution is guaranteed to terminate in exactly " steps
          " instructions.\n"
      ∷ Line.number "Conclusion: Fuel >= " steps
          " is MATHEMATICALLY PROVEN to prevent OutOfFuel trap.\n\n"
      ∷ Line.literal "--- 2. HARDWARE BOUNDARY & ROUTING SAFETY ---\n"
      ∷ []

abbrev pub std_boundary : Bool → Line
std_boundary clean = Line.literal (
    if clean
    then "✓ All opcodes valid and all pins/channels reside within authorized hardware boundaries.\n\n"
    else "⚠\u{fe0f} Boundary Safety: VIOLATED due to out-of-bounds resources.\n\n")

abbrev pub std_current : ℕ → ℕ → ℕ → List Line
std_current peak total limit =
    Line.literal "--- 3. ELECTRICAL CURRENT DRAW BOUNDS ---\n"
    ∷ Line.number "- Est. Peak Motor Speed (Current proxy): " peak "\n"
    ∷ Line.number "- Est. Cumulative Speed (Total work proxy): " total "\n"
    ∷ Line.number "- Specified Current Threshold: " limit "\n"
    ∷ Line.literal (
        if ltb limit total
        then "❌ Electrical Safety Failure: Est. cumulative current draw exceeds maximum safe limit!\n\n"
        else "✓ Current draw safety verified within thermal tolerances.\n\n")
    ∷ []

abbrev pub std_summary : Bool → Line
std_summary safe = Line.literal (
    if safe
    then "🍀 FORMAL PROOF SUMMARY: The bytecode is 100% mathematically proven to be SAFE.\n"
    else "❌ FORMAL PROOF SUMMARY: SAFETY PROOF FAILED. Bytecode contains potential hazards.\n")
