-- ===== src/Std/Sequence.antt =====
-- crates/tiny-io-oi/src/vm.rs: one round of the loop of `MicroVm::run_std`, as a proof rule.
use tiny_io_oi.Prelude.{List, ◌∷◌, Bool, true, false, ◌≡◌, ◌≢◌, refl, arith, ◌==◌, leb}
use tiny_io_oi.Vm.{VmError, Outcome, MicroVm, burn}
use tiny_io_oi.Bytecode.{Instr}
use tiny_io_oi.Board.{Board, Machine}
use tiny_io_oi.Std.{StdRun, std_trapped, execute_step, run_instrs}

module _ (board : Board) where
  open board use {M, A, N}

  -- A property of a run follows from the four ways in which its first round can end.
  pub run_instrs_rule :
      (P : StdRun board → Type 0) (i : Instr) (rest : List Instr) (adc : A) (vm : MicroVm)
      (mc : Machine M N)
      → P (std_trapped board vm mc VmError.out_of_fuel)
      → P (std_trapped board (burn vm) mc VmError.unauthorized_access)
      → P (run_instrs board rest adc (burn vm) (execute_step board i adc mc).0)
      → ((o : Outcome)
          → (execute_step board i adc mc).1 ≡ o
          → o ≢ Outcome.done
          → P (record { vm = burn vm; machine = (execute_step board i adc mc).0; outcome = o }))
      → P (run_instrs board (i ∷ rest) adc vm mc)
  unfolding run_instrs
  run_instrs_rule P i rest adc vm mc starved denied later ended =
      go (vm.fuel == 0) (leb 32 i.pin) r.1 refl
    where
      r : Machine M N × Outcome
      r = execute_step board i adc mc

      go :
          (empty far : Bool) (o : Outcome)
          → r.1 ≡ o
          → P (elim empty [
            | true ↦ std_trapped board vm mc VmError.out_of_fuel
            | false ↦ elim far [
              | true ↦ std_trapped board (burn vm) mc VmError.unauthorized_access
              | false ↦ elim o [
                | Outcome.done ↦ run_instrs board rest adc (burn vm) r.0
                | Outcome.trap e ↦ record { vm = burn vm; machine = r.0; outcome = Outcome.trap e }
                | Outcome.waiting ↦ record {
                  vm = burn vm;
                  machine = r.0;
                  outcome = Outcome.waiting;
                }
              ]
            ]
          ])
      go true far o e = starved
      go false true o e = denied
      go false false Outcome.done e = later
      go false false (Outcome.trap x) e = ended (Outcome.trap x) e (ground arith)
      go false false Outcome.waiting e = ended Outcome.waiting e (ground arith)
