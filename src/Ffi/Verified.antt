-- ===== src/Ffi/Verified.antt =====
-- crates/tiny-io-oi-host/src/ffi.rs: a bytecode that was verified and is then run.
use tiny_io_oi.Prelude.{
  ℕ, ◌+◌, ◌^◌, ◌≤◌, ◌<◌, List, [], ◌∷◌, none, some, true, ◌≡◌, ◌⊎◌, inl, inr, refl, arith, length,
}
use tiny_io_oi.Floats.{Floats}
use tiny_io_oi.Drivers.{MockMotor}
use tiny_io_oi.Drivers.History.{work, sum-append_one}
use tiny_io_oi.Vm.{Outcome, MicroVm, burn, new}
use tiny_io_oi.Bytecode.{Instr, decode}
use tiny_io_oi.Board.{Board, Machine, Step}
use tiny_io_oi.Std.{execute_step, run_instrs, run_std}
use tiny_io_oi.Opcodes.Effect.{Effect, kept, stopped, driven, faded}
use tiny_io_oi.Std.Effects.{execute_step-Effect}
use tiny_io_oi.Std.Sequence.{run_instrs_rule}
use tiny_io_oi.Std.Loop.{Allows-all}
use tiny_io_oi.Verifier.Standard.{with_mock_motor, verify_std_bytecode-authorized}
use tiny_io_oi.Verifier.{VerificationReport, verify_std_bytecode}
use tiny_io_oi.Ffi.{
  verdict, answer, ffi_board, ffi_gpio, ffi_motor, ffi_run, run_standard_bytecode,
  rust_verify_std_bytecode,
}

pub verdict-safe : (r : VerificationReport) → (verdict r).out_safe ≡ some true → r.safe ≡ true
unfolding verdict
verdict-safe r h = ground (arith, h)

-- The motor has its old speed, or one that was added to its work since.
Moves : MockMotor → MockMotor → Type 0
Moves m m' =
    (work m ≤ work m')
    × ((m'.current_speed ≡ m.current_speed) ⊎ (work m + m'.current_speed ≤ work m'))

Moves-trans : (a b c : MockMotor) → Moves a b → Moves b c → Moves a c
unfolding Moves
Moves-trans a b c (le, inl e) (le', inl e') = (omega arith, inl (omega arith))
Moves-trans a b c (le, inr e) (le', inl e') = (omega arith, inr (omega arith))
Moves-trans a b c (le, w) (le', inr e') = (omega arith, inr (omega arith))

module _ (board : Board) where
  open board use {A, N}

  Effect-Moves :
      {limit : ℕ} {i : Instr} {mc : Machine MockMotor N} {r : Step (with_mock_motor board)}
      → Effect (with_mock_motor board) limit i mc r
      → Moves mc.motor r.0.motor
  unfolding Moves
  Effect-Moves (kept q e) = rw e (omega arith, inl refl)
  Effect-Moves {mc = mc} (stopped h e) =
      rw e (let s = sum-append_one mc.motor.history 0 in (omega (arith, s), inr (omega (arith, s))))
  Effect-Moves {mc = mc} (driven v le o e) =
      rw e (let s = sum-append_one mc.motor.history v in (omega (arith, s), inr (omega (arith, s))))
  Effect-Moves {mc = mc} (faded c v f le o e) =
      rw e (let s = sum-append_one mc.motor.history v in (omega (arith, s), inr (omega (arith, s))))

  run_instrs-Moves :
      (is : List Instr) (adc : A) (vm : MicroVm) (mc : Machine MockMotor N)
      → Moves mc.motor (run_instrs (with_mock_motor board) is adc vm mc).machine.motor
  unfolding run_instrs Moves
  run_instrs-Moves [] adc vm mc = (omega arith, inl refl)
  run_instrs-Moves (i ∷ rest) adc vm mc =
      let r = execute_step (with_mock_motor board) i adc mc in
      let now =
        Effect-Moves
          (execute_step-Effect (with_mock_motor board) 255 i adc mc (Allows-all i.opcode)) in
      run_instrs_rule (with_mock_motor board) (λ q. Moves mc.motor q.machine.motor) i rest adc vm mc
        (omega arith, inl refl) (omega arith, inl refl)
        (Moves-trans _ _ _ now (run_instrs-Moves rest adc (burn vm) r.0)) (λ o e ne. now)

answer-speed : (o : Outcome) (w v : ℕ) → (answer o w).final_speed ≡ some v → w ≡ v
answer-speed Outcome.done w v h = ground arith
answer-speed (Outcome.trap e) w v h = ground arith
answer-speed Outcome.waiting w v h = ground arith

module _ (floats : Floats) (patience : ℕ) (clock : ℕ → ℕ) where
  -- If `rust_verify_std_bytecode` writes that a bytecode of at least one and less than 2^24 bytes is
  -- safe under a current limit, then every final motor speed that `run_standard_bytecode` writes
  -- for it is the initial one or at most the limit.
  pub run_standard_bytecode-verified :
      (b : ℕ) (bs : List ℕ) (limit fuel initial_speed sensor v : ℕ)
      → (rust_verify_std_bytecode (some (b ∷ bs)) limit true).out_safe ≡ some true
      → length (b ∷ bs) < 2 ^ 24
      → (run_standard_bytecode floats patience clock
          (some (b ∷ bs))
          fuel
          initial_speed
          sensor
          true).final_speed
        ≡ some v
      → (v ≡ initial_speed) ⊎ (v ≤ limit)
  unfolding run_standard_bytecode rust_verify_std_bytecode run_std Moves
  run_standard_bytecode-verified b bs limit fuel initial_speed sensor v safe short wrote =
      let board = ffi_board floats patience in
      let mc : Machine MockMotor board.N = record {
        motor = ffi_motor initial_speed;
        gossip = none;
        clock = clock;
      } in
      let r = ffi_run floats patience clock (b ∷ bs) fuel initial_speed sensor in
      let same_speed = answer-speed r.outcome r.machine.motor.current_speed v wrote in
      let authorized =
        verify_std_bytecode-authorized board (b ∷ bs) limit (ffi_gpio sensor) (new fuel) mc
          (verdict-safe (verify_std_bytecode (b ∷ bs) limit) safe) short in
      elim (run_instrs-Moves board (decode (b ∷ bs)) (ffi_gpio sensor) (new fuel) mc).1 [
        | inl e ↦ inl (omega (arith, same_speed, e))
        | inr le ↦ inr (omega (arith, same_speed, le, authorized.1))
      ]
