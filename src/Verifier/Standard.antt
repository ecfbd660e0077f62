-- ===== src/Verifier/Standard.antt =====
-- crates/tiny-io-oi/src/verifier/mod.rs: what a bytecode that the verifier calls safe does when
-- `MicroVm::run_std` executes it.
use tiny_io_oi.Prelude.{
  suc, ℕ, ◌+◌, ◌*◌, ◌^◌, ◌≤◌, ◌<◌, List, [], ◌∷◌, ◌≡◌, ◌≢◌, ◌⊎◌, inl, inr, true, false, Bool, arith,
  length, All, ◌==◌, if◌then◌else◌,
}
use tiny_io_oi.Drivers.{MockMotor, mock_motor}
use tiny_io_oi.Drivers.History.{work, sum-append_one}
use tiny_io_oi.Vm.{VmError, Outcome, MicroVm, burn}
use tiny_io_oi.Bytecode.{Instr, decode}
use tiny_io_oi.Bytecode.Length.{length-decode}
use tiny_io_oi.Board.{Board, Machine, Step}
use tiny_io_oi.Std.{execute_step, run_instrs, run_std}
use tiny_io_oi.Opcodes.Effect.{Granted, Allows, Effect, kept, stopped, driven, faded}
use tiny_io_oi.Std.Effects.{execute_step-Effect}
use tiny_io_oi.Std.Loop.{run_instrs-granted}
use tiny_io_oi.Verifier.{
  Scan, scan_new, Draw, draw_new, scan_instr, scan_instrs, draw_instr, draw_instrs,
  verify_std_bytecode,
}

scan_instr-safe :
    (k : ℕ) (i : Instr) (s : Scan)
    → (scan_instr k i s).safe ≡ true
    → (s.safe ≡ true) × (i.pin < 32) × Granted i
unfolding scan_instr
scan_instr-safe k i s h = (
  ground arith,
  ground arith,
  record {
    resonance = λ op. ground arith;
    adaptive = λ op. ground arith;
    control = λ op. ground arith;
  },
)

scan_instrs-safe :
    (k : ℕ) (is : List Instr) (s : Scan)
    → (scan_instrs k is s).safe ≡ true
    → (s.safe ≡ true) × All (λ i. (i.pin < 32) × Granted i) is
unfolding scan_instrs
scan_instrs-safe k [] s h = (h, tt)
scan_instrs-safe k (i ∷ is) s h =
    let later = scan_instrs-safe (suc k) is (scan_instr k i s) h in
    let now = scan_instr-safe k i s later.0 in (now.0, ((now.1, now.2), later.1))

verify_std_bytecode-inversion :
    (bytecode : List ℕ) (limit : ℕ)
    → (verify_std_bytecode bytecode limit).safe ≡ true
    → ((draw_instrs (decode bytecode) draw_new).total ≤ limit)
      × ((scan_instrs 0 (decode bytecode) scan_new).safe ≡ true)
unfolding verify_std_bytecode
verify_std_bytecode-inversion bytecode limit h = ground arith

-- What the verifier charges an opcode with.
abbrev pub charge : ℕ → ℕ
charge opcode =
    if opcode == 0x81
    then 110
    else (if opcode == 0x84
        then 115
        else (if opcode == 0x88 then 255 else (if opcode == 0x8A then 255 else 0)))

charge-Allows : (opcode : ℕ) → Allows (charge opcode) opcode
charge-Allows opcode = record {
  shift = λ op. ground arith;
  adapt = λ op. ground arith;
  fade = λ op. ground arith;
  control = λ op. ground arith;
}

abbrev charges : List Instr → ℕ
charges [] = 0
charges (i ∷ is) = charge i.opcode + charges is

charges-le : (is : List Instr) → charges is ≤ 255 * length is
charges-le [] = omega arith
charges-le (i ∷ is) = ground (arith, charges-le is)

draw_instr-total :
    (i : Instr) (d : Draw)
    → d.total + charge i.opcode < 2 ^ 32
    → (draw_instr i d).total ≡ d.total + charge i.opcode
unfolding draw_instr
draw_instr-total i d h = ground arith

draw_instrs-total :
    (is : List Instr) (d : Draw)
    → d.total + charges is < 2 ^ 32
    → (draw_instrs is d).total ≡ d.total + charges is
unfolding draw_instrs
draw_instrs-total [] d h = omega arith
draw_instrs-total (i ∷ is) d h =
    let now = draw_instr-total i d (omega arith) in
    omega (arith, now, draw_instrs-total is (draw_instr i d) (omega (arith, now)))

-- A board whose motor is the mock motor.
abbrev pub with_mock_motor : Board → Board
with_mock_motor board = record board { M = MockMotor; motor_ops = mock_motor }

module _ (board : Board) where
  open board use {A, N}

  Effect-work :
      {limit : ℕ} {i : Instr} {mc : Machine MockMotor N} {r : Step (with_mock_motor board)}
      → Effect (with_mock_motor board) limit i mc r
      → work r.0.motor ≤ work mc.motor + limit
  Effect-work (kept q e) = rw e (omega arith)
  Effect-work {mc = mc} (stopped h e) = rw e (omega (arith, sum-append_one mc.motor.history 0))
  Effect-work {mc = mc} (driven v le o e) = rw e (omega (arith, sum-append_one mc.motor.history v))
  Effect-work {mc = mc} (faded c v f le o e) =
      rw e (omega (arith, sum-append_one mc.motor.history v))

  run_instrs-work :
      (is : List Instr) (adc : A) (vm : MicroVm) (mc : Machine MockMotor N)
      → work (run_instrs (with_mock_motor board) is adc vm mc).machine.motor
        ≤ work mc.motor + charges is
  unfolding run_instrs
  run_instrs-work [] adc vm mc = omega arith
  run_instrs-work (i ∷ rest) adc vm mc =
      let r = execute_step (with_mock_motor board) i adc mc in
      ground (
        arith,
        Effect-work (
            execute_step-Effect (with_mock_motor board) (charge i.opcode) i adc mc
              (charge-Allows i.opcode)),
        run_instrs-work rest adc (burn vm) r.0,
      )

  -- A bytecode that the verifier calls safe under a current limit, of less than 2^24 bytes, never
  -- ends with `UnauthorizedAccess`, and the speeds that it sets add up to no more than the limit.
  pub verify_std_bytecode-authorized :
      (bytecode : List ℕ) (limit : ℕ) (adc : A) (vm : MicroVm) (mc : Machine MockMotor N)
      → (verify_std_bytecode bytecode limit).safe ≡ true
      → length bytecode < 2 ^ 24
      → let r = run_std (with_mock_motor board) bytecode adc vm mc in
        (r.outcome ≢ Outcome.trap VmError.unauthorized_access)
        × (work r.machine.motor ≤ work mc.motor + limit)
  unfolding run_std
  verify_std_bytecode-authorized bytecode limit adc vm mc safe short =
      let is = decode bytecode in
      let v = verify_std_bytecode-inversion bytecode limit safe in
      let drawn =
        draw_instrs-total is draw_new (omega (arith, charges-le is, length-decode bytecode)) in
      (
        run_instrs-granted (with_mock_motor board) is adc vm mc
            (scan_instrs-safe 0 is scan_new v.1).1,
        omega (arith, v.0, drawn, run_instrs-work is adc vm mc),
      )

-- The opcodes of the known range that the executor has no case for: two, and without the feature
-- `ptp` the two that wait for the clock.
abbrev pub IsUnhandled : Bool → ℕ → Type 0
IsUnhandled ptp opcode =
    ((opcode ≡ 0x82) ⊎ (opcode ≡ 0x85)) ⊎ ((ptp ≡ false) × ((opcode ≡ 0x86) ⊎ (opcode ≡ 0x8B)))

-- The verifier calls an instruction with opcode 0x82 or 0x85, or on a build without the feature
-- `ptp` with 0x86 or 0x8B, safe under every limit, on a pin of the board; a run with fuel ends at it with
-- `InvalidStdOpCode`.
pub verify_std_bytecode-unhandled :
    (board : Board) (opcode pin a0 a1 b0 b1 b2 b3 limit : ℕ) (adc : board.A) (vm : MicroVm)
    (mc : Machine board.M board.N)
    → IsUnhandled board.ptp opcode
    → pin < 32
    → 0 < vm.fuel
    → let bytecode = opcode ∷ pin ∷ a0 ∷ a1 ∷ b0 ∷ b1 ∷ b2 ∷ b3 ∷ [] in
      ((verify_std_bytecode bytecode limit).safe ≡ true)
      × ((run_std board bytecode adc vm mc).outcome ≡ Outcome.trap VmError.invalid_std_op_code)
unfolding verify_std_bytecode run_std run_instrs decode scan_instrs scan_instr draw_instrs
    draw_instr execute_step
verify_std_bytecode-unhandled board opcode pin a0 a1 b0 b1 b2 b3 limit adc vm mc (inl (inl e)) p f =
    rw e (ground arith, ground arith)
verify_std_bytecode-unhandled board opcode pin a0 a1 b0 b1 b2 b3 limit adc vm mc (inl (inr e)) p f =
    rw e (ground arith, ground arith)
verify_std_bytecode-unhandled board opcode pin a0 a1 b0 b1 b2 b3 limit adc vm mc (inr (off, inl e))
      p f =
    rw e (ground arith, ground (arith, off))
verify_std_bytecode-unhandled board opcode pin a0 a1 b0 b1 b2 b3 limit adc vm mc (inr (off, inr e))
      p f =
    rw e (ground arith, ground (arith, off))
