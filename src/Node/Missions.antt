-- ===== src/Node/Missions.antt =====
-- crates/tiny-io-oi/src/node.rs and vm.rs: the script of a message, from its receipt to the motor.
use tiny_io_oi.Prelude.{ℕ, List, [], ◌∷◌, some, false, ◌≡◌, ◌≢◌, refl, arith, if_rule}
use tiny_io_oi.Traits.{Motor, Gpio}
use tiny_io_oi.Protocol.{NodeId, OpCode}
use tiny_io_oi.Vm.{VmStep, MicroVm, Run, Outcome, VmError, new, exec_step}
use tiny_io_oi.Vm.Viewer.{Decodes}
use tiny_io_oi.Vm.Sequence.{and_then_rule}
use tiny_io_oi.Vm.Steps.{step, exec_steps, run-exec_steps}
use tiny_io_oi.Node.{Platform, Node}
use tiny_io_oi.Node.Reports.{script_report}
use tiny_io_oi.Node.Handlers.{is_id, fail_safe, after_script, exec_script, on_script, dispatch}
use tiny_io_oi.Node.Tick.{prepare, from_leader, double_signs, on_message}

-- Steps end, or with an error that is not of the decoding.
IsDecoded : Outcome → Type 0
IsDecoded o = (o ≢ Outcome.trap VmError.buffer_overflow) × (o ≢ Outcome.waiting)

module _ {M G : Type 0} (motor_ops : Motor M) (gpio_ops : Gpio G) (gpio : G) where
  step-IsDecoded :
      (x : VmStep) (vm : MicroVm) (m : M) → IsDecoded (step motor_ops gpio_ops gpio x vm m).outcome
  unfolding IsDecoded exec_step
  step-IsDecoded (VmStep.set_pwm channel v) vm m = (λ o. ground arith, λ o. ground arith)
  step-IsDecoded (VmStep.delay ticks) vm m = (λ o. ground arith, λ o. ground arith)
  step-IsDecoded (VmStep.assert_or_yield pin expected) vm m = (λ o. ground arith, λ o. ground arith)

  exec_steps-IsDecoded :
      (xs : List VmStep) (vm : MicroVm) (m : M)
      → IsDecoded (exec_steps motor_ops gpio_ops gpio xs vm m).outcome
  unfolding IsDecoded exec_steps
  exec_steps-IsDecoded [] vm m = (λ o. cc, λ o. cc)
  exec_steps-IsDecoded (x ∷ xs) vm m =
      let r = step motor_ops gpio_ops gpio x vm m in
      and_then_rule r (exec_steps motor_ops gpio_ops gpio xs) (λ q. IsDecoded q.outcome)
        (λ _. exec_steps-IsDecoded xs r.vm r.motor) (λ _. step-IsDecoded x vm m)

module _ (platform : Platform) where
  open platform use {board, gpio_ops, viewer}

  -- The motor and the network after a run: an error stops the motor and is broadcast.
  abbrev pub settled : Outcome → board.M → board.M
  settled Outcome.done motor = motor
  settled (Outcome.trap e) motor = board.motor_ops.stop motor
  settled Outcome.waiting motor = motor

  abbrev pub told : Outcome → board.N → board.N
  told Outcome.done network = network
  told (Outcome.trap e) network =
      (board.network_ops.broadcast network OpCode.exception (script_report e)).0
  told Outcome.waiting network = network

  -- The steps as the node runs them, with 100 units of fuel.
  abbrev pub mission : List VmStep → Node platform → Run board.M
  mission steps n = exec_steps board.motor_ops gpio_ops n.gpio steps (new 100) n.motor

  -- The node before its tick asks for a message, and with the network after that.
  abbrev pub listening : (ℕ → ℕ) → board.N → Node platform → Node platform
  listening clock network n = record (prepare platform (clock 0) n) { network = network }

  -- A node that accepts a script from a sender.
  pub record Accepts (sender : NodeId) (payload : List ℕ) (n : Node platform) : Type 0 where
    pub trusted : is_id n.disqualified_leader sender ≡ false
    pub single : double_signs platform sender OpCode.vm_script_dispatch payload n ≡ false
    pub ready : n.safe_mode ≡ false

  -- The node has run the steps.
  abbrev pub Ran : List VmStep → Node platform → Node platform → Type 0
  Ran steps n n1 =
      let r = mission steps n in
      (n1.motor ≡ settled r.outcome r.motor) × (n1.network ≡ told r.outcome n.network)

  after_script-Ran :
      (clock : ℕ → ℕ) (payload : List ℕ) (m : board.M) (o : Outcome) (n : Node platform)
      → IsDecoded o
      → let n1 = after_script platform clock payload o (record n { motor = m }) in
        (n1.motor ≡ settled o m) × (n1.network ≡ told o n.network)
  unfolding IsDecoded fail_safe
  after_script-Ran clock payload m Outcome.done n clean = (refl, refl)
  after_script-Ran clock payload m (Outcome.trap VmError.buffer_overflow) n clean =
      absurd (clean.0 refl)
  after_script-Ran clock payload m (Outcome.trap e) n clean = (refl, refl)
  after_script-Ran clock payload m Outcome.waiting n clean = (refl, refl)

  on_script-Ran :
      (clock : ℕ → ℕ) (payload : List ℕ) (steps : List VmStep) (n : Node platform)
      → Decodes viewer payload steps
      → n.safe_mode ≡ false
      → Ran steps n (on_script platform clock payload n)
  unfolding on_script exec_script
  on_script-Ran clock payload steps n d ready =
      if_rule (Ran steps n) n.safe_mode n (exec_script platform clock payload n) (λ t. absurd cc)
        (λ f.
          rw
            (run-exec_steps board.motor_ops gpio_ops n.gpio viewer payload steps (new 100) n.motor
              d)
            (let r = mission steps n in
              after_script-Ran clock payload r.motor r.outcome n
                (exec_steps-IsDecoded board.motor_ops gpio_ops n.gpio steps (new 100) n.motor)))

  -- A node that accepts a script from a sender runs the steps that the script decodes to, with 100
  -- units of fuel, and nothing else; if they end with an error, it stops its motor and broadcasts
  -- the exception.
  pub on_message-Ran :
      (clock : ℕ → ℕ) (sender : NodeId) (payload : List ℕ) (steps : List VmStep) (n : Node platform)
      → Accepts sender payload n
      → Decodes viewer payload steps
      → Ran steps n (on_message platform clock sender OpCode.vm_script_dispatch payload n)
  unfolding on_message dispatch
  on_message-Ran clock sender payload steps n accepts d =
      rw (accepts.trusted, accepts.single)
        (if_rule (λ n0. Ran steps n (on_script platform clock payload n0))
          (from_leader platform sender OpCode.vm_script_dispatch n)
          (record n { last_leader_msg = some (OpCode.vm_script_dispatch, payload) }) n
          (λ t.
            on_script-Ran clock payload steps
              (record n { last_leader_msg = some (OpCode.vm_script_dispatch, payload) }) d
              accepts.ready)
          (λ f. on_script-Ran clock payload steps n d accepts.ready))
