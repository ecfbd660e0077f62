-- ===== src/ReportText/Script.antt =====
-- crates/tiny-io-oi/src/verifier/mod.rs: the lines of `verify_vm_script` that are always there.
use tiny_io_oi.Prelude.{ℕ, List, [], ◌∷◌, ◌++◌, Bool, ltb, if◌then◌else◌}
use tiny_io_oi.ReportText.{Line, title}

-- The report up to the boundary loop.
abbrev pub script_opening : ℕ → List Line
script_opening step_count =
    title "Target: Dynamic VmScript Bytecode (rkyv)\n\n"
    ++ Line.number "✓ Dynamic VM step count: " step_count "\n"
      ∷ Line.literal "--- 1. MATHEMATICAL TERMINATION PROOF ---\n"
      ∷ Line.literal "Proof: VmScript steps are executed strictly in a sequential queue.\n"
      ∷ Line.literal "There are no backward jumps, loop structures, or recursive calls.\n"
      ∷ Line.number "Therefore, execution is guaranteed to terminate in exactly " step_count
          " steps.\n"
      ∷ Line.number "Conclusion: Any VM allocation with Fuel >= " step_count
          " is MATHEMATICALLY PROVEN to terminate safely.\n\n"
      ∷ Line.literal "--- 2. HARDWARE BOUNDARY & ROUTING SAFETY ---\n"
      ∷ []

abbrev pub script_boundary : Bool → Line
script_boundary clean = Line.literal (
    if clean
    then "✓ All accessed pins (< 32) and channels (< 8) reside within authorized hardware boundaries.\n\n"
    else "⚠\u{fe0f} Boundary Safety: VIOLATED due to unauthorized/out-of-bounds pins or channels.\n\n")

abbrev pub script_current : ℕ → ℕ → ℕ → List Line
script_current peak total limit =
    Line.literal "--- 3. ELECTRICAL CURRENT DRAW BOUNDS ---\n"
    ∷ Line.number "- Peak Single-Step Speed (Current proxy): " peak "\n"
    ∷ Line.number "- Cumulative Speed (Total work proxy): " total "\n"
    ∷ Line.number "- Specified Current Threshold: " limit "\n"
    ∷ Line.literal (
        if ltb limit total
        then "❌ Electrical Safety Failure: Cumulative current draw index exceeds maximum safe limit!\n\n"
        else "✓ Cumulative and peak current bounds verified within electrical thermal margins.\n\n")
    ∷ []

abbrev pub script_summary : Bool → Line
script_summary safe = Line.literal (
    if safe
    then "🍀 FORMAL PROOF SUMMARY: The VmScript is 100% mathematically proven to be SAFE.\n"
    else "❌ FORMAL PROOF SUMMARY: SAFETY PROOF FAILED. Script contains critical hazards.\n")
