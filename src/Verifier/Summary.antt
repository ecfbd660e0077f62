-- ===== src/Verifier/Summary.antt =====
-- crates/tiny-io-oi/src/verifier/mod.rs: the last words of a report.
use Prim.Native.String.{String, ◌++◌ as append, count}
use package.text.Mathlib.Text.{◌==◌ as str_eq}
use package.text.Mathlib.TextEquality.{eq_iff}
use package.text.Mathlib.TextBridge.{IsSuffix}
use package.text.Mathlib.TextLemmas.{
  append_assoc, append-nil, nil-append, append_inj, length-append,
}
use tiny_io_oi.Prelude.{
  ltb, inl, inr, Bool-cases, ℕ, ◌/◌, ◌%◌, List, [], ◌∷◌, ◌++◌, Bool, true, false, ◌&&◌, ◌≡◌, ◌≢◌,
  ◌↔◌, refl, sym, ap, ◌∙◌, arith, ◌==◌, if◌then◌else◌, length,
}
use tiny_io_oi.Vm.{VmStep}
use tiny_io_oi.ReportText.{Line, line_text, text}
use tiny_io_oi.ReportText.Script.{script_opening, script_boundary, script_current}
use tiny_io_oi.ReportText.Bytecode.{std_title, std_opening, std_boundary, std_current}
use tiny_io_oi.Bytecode.{decode}
use tiny_io_oi.Verifier.{
  scan_new, draw_new, scan_steps, draw_steps, scan_instrs, draw_instrs, verify_vm_script,
  verify_std_bytecode,
}

text-append : (xs ys : List Line) → text (xs ++ ys) ≡ append (text xs) (text ys)
unfolding text
text-append [] ys = sym (nil-append (text ys))
text-append (x ∷ xs) ys =
    ap (append (line_text x)) (text-append xs ys)
    ∙ sym (append_assoc (line_text x) (text xs) (text ys))

-- Texts with different last words of the same length differ.
ends_apart :
    (u a x b y : String)
    → count x ≡ count y
    → str_eq x y ≡ false
    → append u (append a x) ≢ append b y
ends_apart u a x b y same differ e =
    let e' : append (append u a) x ≡ append b y = append_assoc u a x ∙ e in
    let sizes = length-append (append u a) x in
    let sizes' = length-append b y in
    let counts = ap count e' in
    let ends = (append_inj e' (omega (arith, sizes, sizes', counts, same))).1 in
    ground (arith, differ, (eq_iff x y).1 ends)

-- The text of a report ends with its last line.
text-last :
    (xs : List Line) (words : String)
    → text (xs ++ Line.literal words ∷ []) ≡ append (text xs) words
unfolding text
text-last xs words =
    text-append xs (Line.literal words ∷ []) ∙ ap (append (text xs)) (append-nil words)

-- A last line that is one of two is the first one exactly if the text ends with it.
module _ (a x b y : String) (same : count x ≡ count y) (differ : str_eq x y ≡ false) where
  ends_iff :
      (xs : List Line) (safe : Bool)
      → IsSuffix
          (append a x)
          (text (xs ++ Line.literal (if safe then append a x else append b y) ∷ []))
        ↔ (safe ≡ true)
  ends_iff xs true = (λ _. refl, λ _. (text xs, sym (text-last xs (append a x))))
  ends_iff xs false = (
    λ (u, e). absurd (
        ends_apart u a x (append (text xs) b) y same differ
          (e ∙ text-last xs (append b y) ∙ sym (append_assoc (text xs) b y))),
    λ h. absurd cc,
  )

abbrev pub script_safe : String
script_safe = "🍀 FORMAL PROOF SUMMARY: The VmScript is 100% mathematically proven to be SAFE.\n"

abbrev pub std_safe : String
std_safe = "🍀 FORMAL PROOF SUMMARY: The bytecode is 100% mathematically proven to be SAFE.\n"

script-summary :
    (steps : List VmStep) (limit : ℕ)
    → IsSuffix script_safe (text (verify_vm_script steps limit).report)
      ↔ ((verify_vm_script steps limit).safe ≡ true)
unfolding verify_vm_script
script-summary steps limit =
    let s = scan_steps 0 steps scan_new in
    let d = draw_steps steps draw_new in
    ends_iff "🍀 FORMAL PROOF SUMMARY: The VmScript is 100% mathematically proven to be " "SAFE.\n"
      "❌ FORMAL PROOF SUMMARY: SAFETY PROOF FAILED. Script contains critical haz" "ards.\n" refl
      refl
      (script_opening (length steps)
        ++ s.report
        ++ script_boundary (s.pins == 0) ∷ script_current d.peak d.total limit)
      (if ltb limit d.total then false else s.safe)

std-summary :
    (bytecode : List ℕ) (limit : ℕ)
    → IsSuffix std_safe (text (verify_std_bytecode bytecode limit).report)
      ↔ ((verify_std_bytecode bytecode limit).safe ≡ true)
unfolding verify_std_bytecode
std-summary bytecode limit = elim (Bool-cases (length bytecode % 8 == 0)) [
  | inl t ↦ rw t (
      let s = scan_instrs 0 (decode bytecode) scan_new in
      let d = draw_instrs (decode bytecode) draw_new in
      ends_iff "🍀 FORMAL PROOF SUMMARY: The bytecode is 100% mathematically proven to be " "SAFE.\n"
        "❌ FORMAL PROOF SUMMARY: SAFETY PROOF FAILED. Bytecode contains potential haz" "ards.\n"
        refl refl
        (std_opening (length bytecode / 8)
          ++ s.report
          ++ std_boundary (s.pins == 0 && s.ops == 0) ∷ std_current d.peak d.total limit)
        (if ltb limit d.total then false else s.safe))
  | inr f ↦ rw f (
      ends_iff "🍀 FORMAL PROOF SUMMARY: The bytecode is 100% mathematically proven to be " "SAFE.\n"
        "❌ Structural Safety: Instruction alignment violation! Bytecode size must be a multiple "
        "of 8.\n" refl refl std_title false)
]

-- The text of a report ends with the sentence that the script, or the bytecode, is proven to be
-- SAFE exactly if its verdict is that it is safe.
pub report-summary :
    (steps : List VmStep) (bytecode : List ℕ) (limit : ℕ)
    → (IsSuffix script_safe (text (verify_vm_script steps limit).report)
        ↔ ((verify_vm_script steps limit).safe ≡ true))
      × (IsSuffix std_safe (text (verify_std_bytecode bytecode limit).report)
          ↔ ((verify_std_bytecode bytecode limit).safe ≡ true))
report-summary steps bytecode limit = (script-summary steps limit, std-summary bytecode limit)
