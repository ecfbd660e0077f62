-- ===== src/Node/Failures.antt =====
-- crates/tiny-io-oi/src/node.rs: how the run of a dispatched payload ends.
use tiny_io_oi.Prelude.{ℕ, suc, List, ◌≡◌, ◌≢◌, refl, none, some, ◌⊎◌, inl, inr}
use tiny_io_oi.Vm.{VmError, Outcome, run}
use tiny_io_oi.Protocol.{OpCode}
use tiny_io_oi.Std.{StdRun, run_std}
use tiny_io_oi.Node.{Platform, Node}
use tiny_io_oi.Node.Reports.{script_report, std_report}
use tiny_io_oi.Node.Handlers.{returned, fail_safe, after_std, after_script, exec_std, exec_script}

module _ (platform : Platform) where
  open platform use {board, gpio_ops, viewer}

  -- The runs of a payload as bytecode, and as a script.
  abbrev pub std_run : (ℕ → ℕ) → List ℕ → board.M → Node platform → StdRun board
  std_run clock payload motor n =
      run_std board payload n.gpio (record { fuel = 100; trap_reason = none })
        (record {
          motor = motor;
          gossip = some (record {
            my_mac = n.id;
            network = n.network;
            recent_gossip = n.recent_gossip;
            current_time_us = clock 0;
          });
          clock = λ i. clock (suc i);
        })

  -- What a run that ended with this outcome, and left this motor and network, makes of the node: it
  -- ended, or a loop still waits for the clock, and these are the node's; or it failed with an error,
  -- and then the motor was stopped and the report of the error broadcast. Nothing else changes.
  pub data Finish (o : Outcome) (report : VmError → List ℕ) (motor : board.M) (network : board.N)
      (n n1 : Node platform) : Type 0 where
    ended :
        o ≡ Outcome.done
        → n1 ≡ record n { motor = motor; network = network }
        → Finish o report motor network n n1
    failed :
        (e : VmError)
        → o ≡ Outcome.trap e
        → n1 ≡ record n {
          motor = board.motor_ops.stop motor;
          network = (board.network_ops.broadcast network OpCode.exception (report e)).0;
        }
        → Finish o report motor network n n1
    waits :
        o ≡ Outcome.waiting
        → n1 ≡ record n { motor = motor; network = network }
        → Finish o report motor network n n1

  -- The node finishes as a run of the payload as bytecode on this motor does.
  abbrev pub StdFinish : (ℕ → ℕ) → List ℕ → board.M → Node platform → Node platform → Type 0
  StdFinish clock payload motor n n1 =
      let r = std_run clock payload motor n in
      Finish r.outcome std_report r.machine.motor (returned platform n.network r.machine.gossip) n
        n1

  after_std-Finish :
      (o : Outcome) (motor : board.M) (network : board.N) (n : Node platform)
      → Finish o std_report motor network n
          (after_std platform o (record n { motor = motor; network = network }))
  unfolding fail_safe
  after_std-Finish Outcome.done motor network n = ended refl refl
  after_std-Finish (Outcome.trap e) motor network n = failed e refl refl
  after_std-Finish Outcome.waiting motor network n = waits refl refl

  exec_std-Finish :
      (clock : ℕ → ℕ) (payload : List ℕ) (motor : board.M) (n : Node platform)
      → StdFinish clock payload motor n
          (exec_std platform clock payload (record n { motor = motor }))
  unfolding exec_std
  exec_std-Finish clock payload motor n =
      let r = std_run clock payload motor n in
      after_std-Finish r.outcome r.machine.motor (returned platform n.network r.machine.gossip) n

  -- A payload of which the run as a script ends with `BufferOverflow` is run as standard bytecode, on
  -- the motor that the script left, and the node finishes as that run does; with any other outcome of
  -- the script, the node finishes as the script does.
  pub exec_script-Finish :
      (clock : ℕ → ℕ) (payload : List ℕ) (n : Node platform)
      → let r =
          run board.motor_ops gpio_ops viewer payload n.gpio
            (record { fuel = 100; trap_reason = none })
            n.motor in
        let n1 = exec_script platform clock payload n in
        ((r.outcome ≡ Outcome.trap VmError.buffer_overflow) × StdFinish clock payload r.motor n n1)
        ⊎ ((r.outcome ≢ Outcome.trap VmError.buffer_overflow)
            × Finish r.outcome script_report r.motor n.network n n1)
  unfolding exec_script fail_safe
  exec_script-Finish clock payload n =
      let r =
        run board.motor_ops gpio_ops viewer payload n.gpio
          (record { fuel = 100; trap_reason = none }) n.motor in
      go r.motor r.outcome
    where
      go :
          (m : board.M) (o : Outcome)
          → let n1 = after_script platform clock payload o (record n { motor = m }) in
            ((o ≡ Outcome.trap VmError.buffer_overflow) × StdFinish clock payload m n n1)
            ⊎ ((o ≢ Outcome.trap VmError.buffer_overflow) × Finish o script_report m n.network n n1)
      go m Outcome.done = inr (λ e. cc, ended refl refl)
      go m (Outcome.trap VmError.buffer_overflow) = inl (refl, exec_std-Finish clock payload m n)
      go m (Outcome.trap e) = inr (λ q. cc, failed e refl refl)
      go m Outcome.waiting = inr (λ e. cc, waits refl refl)
