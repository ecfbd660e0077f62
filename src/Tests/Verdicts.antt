-- ===== src/Tests/Verdicts.antt =====
-- The reports of the static verifier on concrete input.
use package.text.Mathlib.TextBridge.{IsSuffix}
use tiny_io_oi.Prelude.{ℕ, List, [], ◌∷◌, true, ◌≡◌, ◌↔◌, refl, get_elem?}
use tiny_io_oi.Vm.{VmStep}
use tiny_io_oi.Bytecode.{decode}
use tiny_io_oi.ReportText.{Violation, text}
use tiny_io_oi.Verifier.{verify_vm_script, verify_std_bytecode}
use tiny_io_oi.Verifier.Named.{names, complains, at_entry, verify_std_bytecode-names}
use tiny_io_oi.Verifier.Summary.{script_safe, std_safe, report-summary}

-- The second instruction drives channel 9.
abbrev stray : List ℕ
stray = 0x86 ∷ 3 ∷ 0 ∷ 0 ∷ 0 ∷ 0 ∷ 0 ∷ 0 ∷ 0x81 ∷ 5 ∷ 100 ∷ 0 ∷ 0 ∷ 0 ∷ 9 ∷ 0 ∷ []

stray_complaint : at_entry (complains Violation.instr_channel 9) (get_elem? (decode stray) 1) ≡ true
unfolding decode
stray_complaint = refl

verify_std_bytecode-names_example :
    names Violation.instr_channel 1 9 (verify_std_bytecode stray 500).report
    ≡ at_entry (complains Violation.instr_channel 9) (get_elem? (decode stray) 1)
verify_std_bytecode-names_example =
    verify_std_bytecode-names Violation.instr_channel 1 9 stray 500 refl

abbrev loud : List VmStep
loud = VmStep.set_pwm 2 200 ∷ VmStep.assert_or_yield 45 1 ∷ []

printed_example :
    text (verify_vm_script loud 100).report
    ≡ "=== tiny_io_oi Static Formal Verification Report ===\nTarget: Dynamic VmScript Bytecode (rkyv)\n\n✓ Dynamic VM step count: 2\n--- 1. MATHEMATICAL TERMINATION PROOF ---\nProof: VmScript steps are executed strictly in a sequential queue.\nThere are no backward jumps, loop structures, or recursive calls.\nTherefore, execution is guaranteed to terminate in exactly 2 steps.\nConclusion: Any VM allocation with Fuel >= 2 is MATHEMATICALLY PROVEN to terminate safely.\n\n--- 2. HARDWARE BOUNDARY & ROUTING SAFETY ---\n❌ Boundary Violation: Step 1 attempts to read unmapped GPIO pin 45\n⚠\u{fe0f} Boundary Safety: VIOLATED due to unauthorized/out-of-bounds pins or channels.\n\n--- 3. ELECTRICAL CURRENT DRAW BOUNDS ---\n- Peak Single-Step Speed (Current proxy): 200\n- Cumulative Speed (Total work proxy): 200\n- Specified Current Threshold: 100\n❌ Electrical Safety Failure: Cumulative current draw index exceeds maximum safe limit!\n\n❌ FORMAL PROOF SUMMARY: SAFETY PROOF FAILED. Script contains critical hazards.\n"
unfolding verify_vm_script text
printed_example = refl

report-summary_example :
    (IsSuffix script_safe (text (verify_vm_script loud 100).report)
      ↔ ((verify_vm_script loud 100).safe ≡ true))
    × (IsSuffix std_safe (text (verify_std_bytecode stray 100).report)
        ↔ ((verify_std_bytecode stray 100).safe ≡ true))
report-summary_example = report-summary loud stray 100
