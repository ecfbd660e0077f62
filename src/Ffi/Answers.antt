-- ===== src/Ffi/Answers.antt =====
-- crates/tiny-io-oi-host/src/ffi.rs: what the answers of `run_standard_bytecode` and of
-- `rust_verify_std_bytecode` mean.
use tiny_io_oi.Prelude.{
  sym, ℕ, ◌/◌, ◌≤◌, List, [], ◌∷◌, none, some, true, ◌≡◌, ◌≢◌, ◌⊎◌, inl, inr, refl, ap, subst, ◌∙◌,
  arith, length, All,
}
use tiny_io_oi.Prelude.Int.{ℤ, pos}
use tiny_io_oi.Floats.{Floats}
use tiny_io_oi.Drivers.{MockMotor}
use tiny_io_oi.Vm.{VmError, Outcome, MicroVm, burn, new}
use tiny_io_oi.Bytecode.{Instr, decode}
use tiny_io_oi.Board.{Board, Machine, Step}
use tiny_io_oi.Std.{execute_step, run_instrs, run_std}
use tiny_io_oi.Opcodes.Effect.{IsHazard, IsQuiet, Waits, Effect, kept, stopped, driven, faded}
use tiny_io_oi.Std.Effects.{execute_step-Effect}
use tiny_io_oi.Std.Sequence.{run_instrs_rule}
use tiny_io_oi.Std.Loop.{Allows-all, run_std-fuel}
use tiny_io_oi.Ffi.{
  answer, error_code, ffi_board, ffi_gpio, ffi_motor, ffi_run, run_standard_bytecode,
}

IsQuiet-clean : (i : Instr) (o : Outcome) → IsQuiet i o → ¬ IsHazard o
IsQuiet-clean i Outcome.done q h = h
IsQuiet-clean i Outcome.waiting q h = h
IsQuiet-clean i (Outcome.trap VmError.out_of_fuel) q h = h
IsQuiet-clean i (Outcome.trap (VmError.assertion_failed pin expected actual)) q h = q
IsQuiet-clean i (Outcome.trap (VmError.vibration_hazard hz amplitude)) q h = q
IsQuiet-clean i (Outcome.trap VmError.multi_band_spectrum_hazard) q h = q
IsQuiet-clean i (Outcome.trap VmError.acoustic_failure_detected) q h = q
IsQuiet-clean i (Outcome.trap VmError.envelope_violation) q h = q
IsQuiet-clean i (Outcome.trap VmError.invalid_std_op_code) q h = h
IsQuiet-clean i (Outcome.trap VmError.unauthorized_access) q h = h
IsQuiet-clean i (Outcome.trap VmError.sensor_fusion_hazard) q h = q
IsQuiet-clean i (Outcome.trap VmError.pid_hazard) q h = q
IsQuiet-clean i (Outcome.trap VmError.spatial_ranging_hazard) q h = q
IsQuiet-clean i (Outcome.trap VmError.buffer_overflow) q h = q

module _ (board : Board) where
  open board use {M, A, N, motor_ops}

  Effect-hazard :
      {limit : ℕ} {i : Instr} {mc : Machine M N} {r : Step board}
      → Effect board limit i mc r
      → IsHazard r.1
      → (m : M) × (r.0.motor ≡ motor_ops.stop m)
  Effect-hazard {mc = mc} (stopped h e) o = (mc.motor, e)
  Effect-hazard {i = i} {r = r} (kept q e) o = absurd (IsQuiet-clean i r.1 q o)
  Effect-hazard (driven v le (inl w) e) o = absurd (subst IsHazard w o)
  Effect-hazard (driven v le (inr w) e) o = absurd (subst IsHazard w o)
  Effect-hazard (faded c d f le w e) o = absurd (subst IsHazard w o)

  Effect-waiting :
      {limit : ℕ} {i : Instr} {mc : Machine M N} {r : Step board}
      → Effect board limit i mc r
      → r.1 ≡ Outcome.waiting
      → Waits i
  Effect-waiting {i = i} (kept q e) o = subst (IsQuiet i) o q
  Effect-waiting (stopped h e) o = absurd (subst IsHazard o h)
  Effect-waiting (driven v le w e) o = ground arith
  Effect-waiting (faded c d f le w e) o = cc

  -- A run that ends with a measured hazard has just stopped the motor.
  run_instrs-hazard :
      (is : List Instr) (adc : A) (vm : MicroVm) (mc : Machine M N)
      → IsHazard (run_instrs board is adc vm mc).outcome
      → (m : M) × ((run_instrs board is adc vm mc).machine.motor ≡ motor_ops.stop m)
  unfolding run_instrs
  run_instrs-hazard [] adc vm mc = λ h. absurd h
  run_instrs-hazard (i ∷ rest) adc vm mc =
      let r = execute_step board i adc mc in
      run_instrs_rule board
        (λ q. IsHazard q.outcome → (m : M) × (q.machine.motor ≡ motor_ops.stop m)) i rest adc vm mc
        (λ h. absurd h) (λ h. absurd h) (run_instrs-hazard rest adc (burn vm) r.0)
        (λ o e ne h.
          Effect-hazard (execute_step-Effect board 255 i adc mc (Allows-all i.opcode))
            (subst IsHazard (sym e) h))

  run_instrs-returns :
      (is : List Instr) (adc : A) (vm : MicroVm) (mc : Machine M N)
      → All (λ i. ¬ Waits i) is
      → (run_instrs board is adc vm mc).outcome ≢ Outcome.waiting
  unfolding run_instrs
  run_instrs-returns [] adc vm mc w o = cc
  run_instrs-returns (i ∷ rest) adc vm mc w o =
      let r = execute_step board i adc mc in
      ground (
        arith,
        Effect-waiting (execute_step-Effect board 255 i adc mc (Allows-all i.opcode)),
        w.0,
        run_instrs-returns rest adc (burn vm) r.0 w.1,
      )

answer-IsHazard :
    (o : Outcome) (v : ℕ)
    → let c = (answer o v).code in
      (c ≡ some (pos 2)) ⊎ (c ≡ some (pos 3)) ⊎ (c ≡ some (pos 4)) → IsHazard o
answer-IsHazard Outcome.done v h = ground arith
answer-IsHazard Outcome.waiting v h = ground arith
answer-IsHazard (Outcome.trap e) v h = ground arith

answered :
    (o : Outcome) (v : ℕ)
    → let a = answer o v in
      (a.code ≡ some (pos 2)) ⊎ (a.code ≡ some (pos 3)) ⊎ (a.code ≡ some (pos 4))
      → a.final_speed ≡ some v
answered Outcome.done v h = refl
answered (Outcome.trap e) v h = refl
answered Outcome.waiting v h = ground arith

error_code-starved : (e : VmError) → error_code e ≡ pos 1 → e ≡ VmError.out_of_fuel
error_code-starved e h = ground arith

answer-returned :
    (o : Outcome) (v : ℕ)
    → o ≢ Outcome.waiting
    → o ≢ Outcome.trap VmError.out_of_fuel
    → let a = answer o v in
      (c : ℤ) × (w : ℕ) × (a.code ≡ some c) × (a.final_speed ≡ some w) × (c ≢ pos 1)
answer-returned Outcome.done v ne full = (pos 0, v, refl, refl, λ h. ground arith)
answer-returned (Outcome.trap e) v ne full =
    (error_code e, v, refl, refl, λ h. full (ap Outcome.trap (error_code-starved e h)))
answer-returned Outcome.waiting v ne full = absurd (ne refl)

module _ (floats : Floats) (patience : ℕ) (clock : ℕ → ℕ) where
  -- When `run_standard_bytecode`, called with pointers and at least one byte of bytecode, answers one
  -- of the hazard codes 2, 3 and 4, the final motor speed that it writes is 0.
  pub run_standard_bytecode-hazard :
      (b : ℕ) (bs : List ℕ) (fuel initial_speed sensor : ℕ)
      → let a =
          run_standard_bytecode floats patience clock
            (some (b ∷ bs))
            fuel
            initial_speed
            sensor
            true in
        (a.code ≡ some (pos 2)) ⊎ (a.code ≡ some (pos 3)) ⊎ (a.code ≡ some (pos 4))
        → a.final_speed ≡ some 0
  unfolding run_standard_bytecode run_std
  run_standard_bytecode-hazard b bs fuel initial_speed sensor h =
      let board = ffi_board floats patience in
      let r = ffi_run floats patience clock (b ∷ bs) fuel initial_speed sensor in
      let (m, e) =
        run_instrs-hazard board (decode (b ∷ bs)) (ffi_gpio sensor) (new fuel)
          (record { motor = ffi_motor initial_speed; gossip = none; clock = clock })
          (answer-IsHazard r.outcome r.machine.motor.current_speed h) in
      answered r.outcome r.machine.motor.current_speed h ∙ ap (λ x. some x.current_speed) e

  -- Called with pointers, at least one byte of bytecode of which no instruction waits for the clock,
  -- and at least as much fuel as there are instructions, `run_standard_bytecode` returns a code, not
  -- that of `OutOfFuel`, and writes a speed.
  pub run_standard_bytecode-returns :
      (b : ℕ) (bs : List ℕ) (fuel initial_speed sensor : ℕ)
      → All (λ i. ¬ Waits i) (decode (b ∷ bs))
      → length (b ∷ bs) / 8 ≤ fuel
      → let a =
          run_standard_bytecode floats patience clock
            (some (b ∷ bs))
            fuel
            initial_speed
            sensor
            true in
        (c : ℤ) × (v : ℕ) × (a.code ≡ some c) × (a.final_speed ≡ some v) × (c ≢ pos 1)
  unfolding run_standard_bytecode run_std
  run_standard_bytecode-returns b bs fuel initial_speed sensor quick enough =
      let board = ffi_board floats patience in
      let mc : Machine MockMotor board.N = record {
        motor = ffi_motor initial_speed;
        gossip = none;
        clock = clock;
      } in
      let r = ffi_run floats patience clock (b ∷ bs) fuel initial_speed sensor in
      answer-returned r.outcome r.machine.motor.current_speed
        (run_instrs-returns board (decode (b ∷ bs)) (ffi_gpio sensor) (new fuel) mc quick)
        (run_std-fuel board (b ∷ bs) (ffi_gpio sensor) (new fuel) mc enough quick)
