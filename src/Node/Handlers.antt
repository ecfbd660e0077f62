-- ===== src/Node/Handlers.antt =====
-- crates/tiny-io-oi/src/node.rs, `TinyNode::tick`.
use tiny_io_oi.Prelude.{
  ℕ, List, [], ◌∷◌, Option, none, some, Bool, true, false, if◌then◌else◌, same,
}
use tiny_io_oi.Protocol.{NodeId, OpCode, to_core_id}
use tiny_io_oi.Vm.{VmError, Outcome, run}
use tiny_io_oi.Gossip.{GossipContext}
use tiny_io_oi.Clock.{read_clock}
use tiny_io_oi.Std.{run_std}
use tiny_io_oi.Cache.{hear}
use tiny_io_oi.Node.{Platform, Node, log, update_score, get_leader}
use tiny_io_oi.Node.Reports.{script_report, std_report}

abbrev pub is_some : {A : Type 0} → Option A → Bool
is_some none = false
is_some (some a) = true

-- `option == Some(id)`.
abbrev pub is_id : Option NodeId → NodeId → Bool
is_id none id = false
is_id (some k) id = same k id

module _ (platform : Platform) where
  open platform use {board, S, W, state_ops, wal_ops, gpio_ops, viewer}

  abbrev report : List ℕ → Node platform → Node platform
  report err_buf n = record n {
    network = (board.network_ops.broadcast n.network OpCode.exception err_buf).0;
  }

  -- `motor.stop()`, and the broadcast of the report.
  unfoldable pub fail_safe : List ℕ → Node platform → Node platform
  fail_safe err_buf n = report err_buf (record n { motor = board.motor_ops.stop n.motor })

  -- Healing out of safe mode, when the leader is not the disqualified one.
  abbrev pub heal : Node platform → Node platform
  heal n = elim (get_leader platform n) [
    | none ↦ n
    | some leader_id ↦
        if is_id n.disqualified_leader leader_id then n else record n { safe_mode = false }
  ]

  unfoldable pub on_heartbeat : NodeId → Node platform → Node platform
  on_heartbeat sender n =
      let n1 = update_score platform (to_core_id sender) 100 n in
      if n1.safe_mode then heal n1 else n1

  unfoldable pub on_gossip : List ℕ → Node platform → Node platform
  on_gossip payload n = record n { recent_gossip = hear payload n.recent_gossip }

  unfoldable pub on_task : Node platform → Node platform
  on_task n = record n {
    motor = if n.safe_mode then n.motor else board.motor_ops.set_speed n.motor 255;
  }

  -- The delta is logged before it is applied.
  abbrev pub apply_first : List ℕ → Node platform → Node platform
  apply_first [] n = n
  apply_first (delta ∷ rest) n = record n {
    wal = log platform n.wal (wal_ops.delta_insert delta);
    state = state_ops.apply_delta n.state delta;
  }

  unfoldable pub on_state_update : List ℕ → Node platform → Node platform
  on_state_update payload n = if n.safe_mode then n else apply_first payload n

  -- The network that a run of standard bytecode gives back: it was lent to the gossip context.
  abbrev pub returned : board.N → Option (GossipContext board.N) → board.N
  returned network none = network
  returned network (some ctx) = ctx.network

  -- After the run: an error stops the motor and is reported.
  abbrev pub after_std : Outcome → Node platform → Node platform
  after_std Outcome.done n = n
  after_std (Outcome.trap e) n = fail_safe (std_report e) n
  after_std Outcome.waiting n = n

  -- The run of a payload as standard bytecode, with 100 units of fuel. The clock gives the readings
  -- to come, of which the gossip context takes the first.
  unfoldable pub exec_std : (ℕ → ℕ) → List ℕ → Node platform → Node platform
  exec_std clock payload n =
      let (now, later) = read_clock clock in
      let ctx : GossipContext board.N = record {
        my_mac = n.id;
        network = n.network;
        recent_gossip = n.recent_gossip;
        current_time_us = now;
      } in
      let r =
        run_std board payload n.gpio (record { fuel = 100; trap_reason = none })
          (record { motor = n.motor; gossip = some ctx; clock = later }) in
      after_std r.outcome
        (record n { motor = r.machine.motor; network = returned n.network r.machine.gossip })

  unfoldable pub on_std : (ℕ → ℕ) → List ℕ → Node platform → Node platform
  on_std clock payload n = if n.safe_mode then n else exec_std clock payload n

  -- After the run of a script: a payload that is no script is run as standard bytecode.
  abbrev pub after_script : (ℕ → ℕ) → List ℕ → Outcome → Node platform → Node platform
  after_script clock payload Outcome.done n = n
  after_script clock payload (Outcome.trap VmError.buffer_overflow) n = exec_std clock payload n
  after_script clock payload (Outcome.trap e) n = fail_safe (script_report e) n
  after_script clock payload Outcome.waiting n = n

  unfoldable pub exec_script : (ℕ → ℕ) → List ℕ → Node platform → Node platform
  exec_script clock payload n =
      let r =
        run board.motor_ops gpio_ops viewer payload n.gpio
          (record { fuel = 100; trap_reason = none }) n.motor in
      after_script clock payload r.outcome (record n { motor = r.motor })

  unfoldable pub on_script : (ℕ → ℕ) → List ℕ → Node platform → Node platform
  on_script clock payload n = if n.safe_mode then n else exec_script clock payload n

  -- The `match opcode` of `tick`.
  unfoldable pub dispatch : (ℕ → ℕ) → NodeId → OpCode → List ℕ → Node platform → Node platform
  dispatch clock sender OpCode.heartbeat payload n = on_heartbeat sender n
  dispatch clock sender OpCode.spatial_gossip payload n = on_gossip payload n
  dispatch clock sender OpCode.task_dispatch payload n = on_task n
  dispatch clock sender OpCode.state_update payload n = on_state_update payload n
  dispatch clock sender OpCode.vm_script_dispatch payload n = on_script clock payload n
  dispatch clock sender OpCode.std_bytecode_dispatch payload n = on_std clock payload n
  dispatch clock sender _ payload n = n
