-- ===== src/Std/Loop.antt =====
-- crates/tiny-io-oi/src/vm.rs: the errors of `MicroVm::run_std`.
use tiny_io_oi.Prelude.{ℕ, ◌/◌, ◌≤◌, ◌<◌, List, [], ◌∷◌, ◌≡◌, ◌≢◌, subst, arith, length, All}
use tiny_io_oi.Vm.{VmError, Outcome, MicroVm, burn}
use tiny_io_oi.Bytecode.{Instr, decode}
use tiny_io_oi.Bytecode.Length.{length-decode}
use tiny_io_oi.Board.{Board, Machine, Step}
use tiny_io_oi.Std.{execute_step, run_instrs, run_std}
use tiny_io_oi.Opcodes.Effect.{
  IsHazard, IsQuiet, Waits, Granted, Allows, Effect, kept, stopped, driven, faded,
}
use tiny_io_oi.Std.Effects.{execute_step-Effect}

pub Allows-all : (opcode : ℕ) → Allows 255 opcode
Allows-all opcode = omega arith

module _ (board : Board) where
  open board use {M, A, N}

  Effect-denied :
      {limit : ℕ} {i : Instr} {mc : Machine M N} {r : Step board}
      → Effect board limit i mc r
      → r.1 ≡ Outcome.trap VmError.unauthorized_access
      → ¬ Granted i
  Effect-denied {i = i} (kept q e) o = subst (IsQuiet i) o q
  Effect-denied (stopped h e) o = absurd (subst IsHazard o h)
  Effect-denied (driven v le w e) o = ground arith
  Effect-denied (faded c d f le w e) o = cc

  Effect-timeout :
      {limit : ℕ} {i : Instr} {mc : Machine M N} {r : Step board}
      → Effect board limit i mc r
      → r.1 ≡ Outcome.trap VmError.out_of_fuel
      → Waits i
  Effect-timeout {i = i} (kept q e) o = subst (IsQuiet i) o q
  Effect-timeout (stopped h e) o = absurd (subst IsHazard o h)
  Effect-timeout (driven v le w e) o = ground arith
  Effect-timeout (faded c d f le w e) o = cc

  -- An instruction that names pins and channels of the board only.
  abbrev pub IsGranted : Instr → Type 0
  IsGranted i = (i.pin < 32) × Granted i

  pub run_instrs-granted :
      (is : List Instr) (adc : A) (vm : MicroVm) (mc : Machine M N)
      → All IsGranted is
      → (run_instrs board is adc vm mc).outcome ≢ Outcome.trap VmError.unauthorized_access
  unfolding run_instrs
  run_instrs-granted [] adc vm mc g o = cc
  run_instrs-granted (i ∷ rest) adc vm mc g o =
      let r = execute_step board i adc mc in
      ground (
        arith,
        Effect-denied (execute_step-Effect board 255 i adc mc (Allows-all i.opcode)),
        g.0.1,
        run_instrs-granted rest adc (burn vm) r.0 g.1,
      )

  pub run_instrs-fuel :
      (is : List Instr) (adc : A) (vm : MicroVm) (mc : Machine M N)
      → length is ≤ vm.fuel
      → All (λ i. ¬ Waits i) is
      → (run_instrs board is adc vm mc).outcome ≢ Outcome.trap VmError.out_of_fuel
  unfolding run_instrs
  run_instrs-fuel [] adc vm mc le w o = cc
  run_instrs-fuel (i ∷ rest) adc vm mc le w o =
      let r = execute_step board i adc mc in
      ground (
        arith,
        Effect-timeout (execute_step-Effect board 255 i adc mc (Allows-all i.opcode)),
        w.0,
        run_instrs-fuel rest adc (burn vm) r.0 (omega arith) w.1,
      )

  -- With at least as much fuel as the bytecode has instructions, and no instruction among them that
  -- waits for the clock, a run does not end with `OutOfFuel`.
  pub run_std-fuel :
      (bytecode : List ℕ) (adc : A) (vm : MicroVm) (mc : Machine M N)
      → length bytecode / 8 ≤ vm.fuel
      → All (λ i. ¬ Waits i) (decode bytecode)
      → (run_std board bytecode adc vm mc).outcome ≢ Outcome.trap VmError.out_of_fuel
  unfolding run_std
  run_std-fuel bytecode adc vm mc le =
      run_instrs-fuel (decode bytecode) adc vm mc (omega (arith, le, length-decode bytecode))
