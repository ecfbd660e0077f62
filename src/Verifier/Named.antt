-- ===== src/Verifier/Named.antt =====
-- crates/tiny-io-oi/src/verifier/mod.rs: the steps that a report complains of.
use tiny_io_oi.Prelude.{
  ℕ, zero, suc, ◌+◌, ◌%◌, List, [], ◌∷◌, ◌++◌, Option, none, some, Bool, true, false, ◌&&◌, ◌||◌,
  ◌<◌, ◌≡◌, refl, ap, ◌∙◌, arith, ◌==◌, length, leb, ltb, get_elem?,
}
use tiny_io_oi.Prelude.Words.{shr, low_bits}
use tiny_io_oi.Vm.{VmStep}
use tiny_io_oi.Bytecode.{Instr, decode}
use tiny_io_oi.ReportText.{Line, Violation}
use tiny_io_oi.Verifier.{
  Scan, scan_new, pin_violation, op_violation, scan_step, scan_steps, scan_instr, scan_instrs,
  verify_vm_script, verify_std_bytecode,
}

abbrev pub same_kind : Violation → Violation → Bool
same_kind Violation.step_channel Violation.step_channel = true
same_kind Violation.step_pin Violation.step_pin = true
same_kind Violation.unknown_opcode Violation.unknown_opcode = true
same_kind Violation.instr_pin Violation.instr_pin = true
same_kind Violation.instr_channel Violation.instr_channel = true
same_kind _ _ = false

abbrev pub is_line : Violation → ℕ → ℕ → Line → Bool
is_line kind n v (Line.literal text) = false
is_line kind n v (Line.number before value after) = false
is_line kind n v (Line.violation k m w) = same_kind kind k && (n == m && v == w)

-- Whether a report names step `n` for a violation of this kind with the value `v`.
abbrev pub names : Violation → ℕ → ℕ → List Line → Bool
names kind n v [] = false
names kind n v (x ∷ xs) = is_line kind n v x || names kind n v xs

-- What an instruction is rightly complained of for.
abbrev pub complains : Violation → ℕ → Instr → Bool
complains Violation.unknown_opcode v i = v == i.opcode && (ltb v 0x80 || ltb 0x8C v)
complains Violation.instr_pin v i = v == i.pin && leb 32 v
complains Violation.instr_channel v i =
    leb 8 v
    && ((i.opcode == 0x81 && v == low_bits (shr i.param_b 16) 8)
        || ((i.opcode == 0x84 && v == low_bits (shr i.param_a 8) 8)
            || (i.opcode == 0x8A && v == low_bits i.param_b 8)))
complains _ v i = false

abbrev pub step_complains : Violation → ℕ → VmStep → Bool
step_complains Violation.step_channel v (VmStep.set_pwm channel speed) = v == channel && leb 8 v
step_complains Violation.step_pin v (VmStep.assert_or_yield pin expected) = v == pin && leb 32 v
step_complains _ v x = false

-- The same of the entry at an index, if there is one.
abbrev pub at_entry : {A : Type 0} → (A → Bool) → Option A → Bool
at_entry f none = false
at_entry f (some a) = f a

-- Whether the entry with index `n` passes a test, if the first one has the index `k`.
abbrev from_index : {A : Type 0} → (A → Bool) → ℕ → ℕ → List A → Bool
from_index f n k [] = false
from_index f n k (x ∷ xs) = (n == k && f x) || from_index f n (suc k) xs

from_index-before :
    {A : Type 0} (f : A → Bool) (n k : ℕ) (xs : List A) → n < k → from_index f n k xs ≡ false
from_index-before f n k [] h = refl
from_index-before f n k (x ∷ xs) h = ground (arith, h, from_index-before f n (suc k) xs)

from_index-get_elem? :
    {A : Type 0} (f : A → Bool) (n k : ℕ) (xs : List A)
    → from_index f (k + n) k xs ≡ at_entry f (get_elem? xs n)
from_index-get_elem? f n k [] = refl
from_index-get_elem? f zero k (x ∷ xs) = ground (arith, from_index-before f (k + 0) (suc k) xs)
from_index-get_elem? f (suc n) k (x ∷ xs) =
    let shift : suc k + n ≡ k + suc n = omega arith in
    ground (arith, ap (λ m. from_index f m (suc k) xs) shift, from_index-get_elem? f n (suc k) xs)

from_start :
    {A : Type 0} (f : A → Bool) (n : ℕ) (xs : List A)
    → from_index f n 0 xs ≡ at_entry f (get_elem? xs n)
from_start f n xs =
    let start : n ≡ 0 + n = omega arith in
    ap (λ m. from_index f m 0 xs) start ∙ from_index-get_elem? f n 0 xs

or_assoc : (a b c : Bool) → ((a || b) || c) ≡ (a || (b || c))
or_assoc a b c = ground arith

or_quiet : (b : Bool) → ((b || false) || false) ≡ b
or_quiet b = ground arith

names-append :
    (kind : Violation) (n v : ℕ) (xs ys : List Line)
    → names kind n v (xs ++ ys) ≡ (names kind n v xs || names kind n v ys)
names-append kind n v [] ys = refl
names-append kind n v (x ∷ xs) ys = ground (arith, names-append kind n v xs ys)

pin_violation-names :
    (kind : Violation) (n v : ℕ) (bad : Bool) (line : Line) (s : Scan)
    → names kind n v (pin_violation bad line s).report
      ≡ (names kind n v s.report || (bad && is_line kind n v line))
pin_violation-names kind n v bad line s = ground (arith, names-append kind n v s.report (line ∷ []))

op_violation-names :
    (kind : Violation) (n v : ℕ) (bad : Bool) (line : Line) (s : Scan)
    → names kind n v (op_violation bad line s).report
      ≡ (names kind n v s.report || (bad && is_line kind n v line))
op_violation-names kind n v bad line s = ground (arith, names-append kind n v s.report (line ∷ []))

scan_step-names :
    (kind : Violation) (n v k : ℕ) (x : VmStep) (s : Scan)
    → names kind n v (scan_step k x s).report
      ≡ (names kind n v s.report || (n == k && step_complains kind v x))
unfolding scan_step
scan_step-names kind n v k (VmStep.set_pwm channel speed) s =
    pin_violation-names kind n v (leb 8 channel) (Line.violation Violation.step_channel k channel) s
    ∙ ap (◌||◌ (names kind n v s.report)) (by_kind kind)
  where
    by_kind :
        (kind : Violation)
        → (leb 8 channel && is_line kind n v (Line.violation Violation.step_channel k channel))
          ≡ (n == k && step_complains kind v (VmStep.set_pwm channel speed))
    by_kind Violation.step_channel = ground arith
    by_kind Violation.step_pin = ground arith
    by_kind Violation.unknown_opcode = ground arith
    by_kind Violation.instr_pin = ground arith
    by_kind Violation.instr_channel = ground arith
scan_step-names kind n v k (VmStep.delay ticks) s = by_kind kind
  where
    by_kind :
        (kind : Violation)
        → names kind n v s.report
          ≡ (names kind n v s.report || (n == k && step_complains kind v (VmStep.delay ticks)))
    by_kind Violation.step_channel = ground arith
    by_kind Violation.step_pin = ground arith
    by_kind Violation.unknown_opcode = ground arith
    by_kind Violation.instr_pin = ground arith
    by_kind Violation.instr_channel = ground arith
scan_step-names kind n v k (VmStep.assert_or_yield pin expected) s =
    pin_violation-names kind n v (leb 32 pin) (Line.violation Violation.step_pin k pin) s
    ∙ ap (◌||◌ (names kind n v s.report)) (by_kind kind)
  where
    by_kind :
        (kind : Violation)
        → (leb 32 pin && is_line kind n v (Line.violation Violation.step_pin k pin))
          ≡ (n == k && step_complains kind v (VmStep.assert_or_yield pin expected))
    by_kind Violation.step_channel = ground arith
    by_kind Violation.step_pin = ground arith
    by_kind Violation.unknown_opcode = ground arith
    by_kind Violation.instr_pin = ground arith
    by_kind Violation.instr_channel = ground arith

scan_instr-names :
    (kind : Violation) (n v k : ℕ) (i : Instr) (s : Scan)
    → names kind n v (scan_instr k i s).report
      ≡ (names kind n v s.report || (n == k && complains kind v i))
unfolding scan_instr
scan_instr-names kind n v k i s =
    rw
      (
        pin_violation-names, pin_violation-names, pin_violation-names, pin_violation-names,
        op_violation-names,
      )
      (by_kind kind)
  where
    by_kind :
        (kind : Violation)
        → (((((names kind n v s.report
                    || ((ltb i.opcode 0x80 || ltb 0x8C i.opcode)
                        && is_line kind n v (Line.violation Violation.unknown_opcode k i.opcode)))
                  || (leb 32 i.pin
                      && is_line kind n v (Line.violation Violation.instr_pin k i.pin)))
                || ((i.opcode == 0x81 && leb 8 (low_bits (shr i.param_b 16) 8))
                    && is_line kind n v
                        (Line.violation Violation.instr_channel k (low_bits (shr i.param_b 16) 8))))
              || ((i.opcode == 0x84 && leb 8 (low_bits (shr i.param_a 8) 8))
                  && is_line kind n v
                      (Line.violation Violation.instr_channel k (low_bits (shr i.param_a 8) 8))))
            || ((i.opcode == 0x8A && leb 8 (low_bits i.param_b 8))
                && is_line kind n v
                    (Line.violation Violation.instr_channel k (low_bits i.param_b 8))))
          ≡ (names kind n v s.report || (n == k && complains kind v i))
    by_kind Violation.step_channel = ground arith
    by_kind Violation.step_pin = ground arith
    by_kind Violation.unknown_opcode = ground arith
    by_kind Violation.instr_pin = ground arith
    by_kind Violation.instr_channel = ground arith

scan_steps-names :
    (kind : Violation) (n v k : ℕ) (xs : List VmStep) (s : Scan)
    → names kind n v (scan_steps k xs s).report
      ≡ (names kind n v s.report || from_index (step_complains kind v) n k xs)
unfolding scan_steps
scan_steps-names kind n v k [] s = ground arith
scan_steps-names kind n v k (x ∷ xs) s =
    scan_steps-names kind n v (suc k) xs (scan_step k x s)
    ∙ ap (λ b. b || from_index (step_complains kind v) n (suc k) xs)
        (scan_step-names kind n v k x s)
    ∙ or_assoc (names kind n v s.report) _ _

scan_instrs-names :
    (kind : Violation) (n v k : ℕ) (is : List Instr) (s : Scan)
    → names kind n v (scan_instrs k is s).report
      ≡ (names kind n v s.report || from_index (complains kind v) n k is)
unfolding scan_instrs
scan_instrs-names kind n v k [] s = ground arith
scan_instrs-names kind n v k (i ∷ is) s =
    scan_instrs-names kind n v (suc k) is (scan_instr k i s)
    ∙ ap (λ b. b || from_index (complains kind v) n (suc k) is) (scan_instr-names kind n v k i s)
    ∙ or_assoc (names kind n v s.report) _ _

-- The report on a script names a step for a violation exactly if there is one with its index that
-- is out of bounds, with that channel or pin.
pub verify_vm_script-names :
    (kind : Violation) (n v : ℕ) (steps : List VmStep) (limit : ℕ)
    → names kind n v (verify_vm_script steps limit).report
      ≡ at_entry (step_complains kind v) (get_elem? steps n)
unfolding verify_vm_script
verify_vm_script-names kind n v steps limit =
    rw (names-append, names-append, scan_steps-names kind n v 0 steps scan_new, from_start)
      (or_quiet (at_entry (step_complains kind v) (get_elem? steps n)))

-- The report on a bytecode of whole instructions names one for a violation exactly if the
-- instruction with that index has that opcode, pin or channel and it is out of range.
pub verify_std_bytecode-names :
    (kind : Violation) (n v : ℕ) (bytecode : List ℕ) (limit : ℕ)
    → length bytecode % 8 ≡ 0
    → names kind n v (verify_std_bytecode bytecode limit).report
      ≡ at_entry (complains kind v) (get_elem? (decode bytecode) n)
unfolding verify_std_bytecode
verify_std_bytecode-names kind n v bytecode limit whole =
    rw
      (
        whole,
        names-append,
        names-append,
        scan_instrs-names kind n v 0 (decode bytecode) scan_new,
        from_start,
      )
      (or_quiet (at_entry (complains kind v) (get_elem? (decode bytecode) n)))
