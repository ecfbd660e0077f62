-- ===== src/Node/Tick.antt =====
-- crates/tiny-io-oi/src/node.rs, `TinyNode::tick`: the guards, and the tick as a whole. The clock
-- gives the readings of one tick in order.
pub mod Safety
pub mod Signing
pub mod Expelled
pub mod Stable
pub mod Sound
pub mod Resting
pub mod Durable
pub mod Silence
use tiny_io_oi.Prelude.{
  ℕ, List, Option, none, some, Bool, true, false, ◌&&◌, not, if◌then◌else◌, same,
}
use tiny_io_oi.Protocol.{NodeId, OpCode, same_opcode}
use tiny_io_oi.Clock.{read_clock}
use tiny_io_oi.Cache.{expire}
use tiny_io_oi.Log.{Reason}
use tiny_io_oi.Node.{Platform, Node, enter_safe_mode, decay_scores, get_leader}
use tiny_io_oi.Node.Handlers.{is_some, is_id, dispatch}

-- The opcodes of which a leader may not send two.
abbrev pub is_signed : OpCode → Bool
is_signed OpCode.state_update = true
is_signed OpCode.vm_script_dispatch = true
is_signed OpCode.task_dispatch = true
is_signed _ = false

-- Is this message another one with the opcode of the last, and a different payload?
abbrev pub conflicts : Option (OpCode × List ℕ) → OpCode → List ℕ → Bool
conflicts none opcode payload = false
conflicts (some (prev_op, prev_payload)) opcode payload =
    same_opcode prev_op opcode && not (same prev_payload payload)

module _ (platform : Platform) where
  open platform use {board}

  abbrev pub from_leader : NodeId → OpCode → Node platform → Bool
  from_leader sender opcode n = is_id (get_leader platform n) sender && is_signed opcode

  unfoldable pub double_signs : NodeId → OpCode → List ℕ → Node platform → Bool
  double_signs sender opcode payload n =
      from_leader sender opcode n && conflicts n.last_leader_msg opcode payload

  abbrev pub disqualify : NodeId → Node platform → Node platform
  disqualify sender n =
      enter_safe_mode platform Reason.double_sign (record n { disqualified_leader = some sender })

  abbrev pub note_message : NodeId → OpCode → List ℕ → Node platform → Node platform
  note_message sender opcode payload n =
      if from_leader sender opcode n
      then record n { last_leader_msg = some (opcode, payload) }
      else n

  -- The end of a tick that did not return early.
  abbrev pub mark_leader : Node platform → Node platform
  mark_leader n = record n {
    leader_active = if is_some (get_leader platform n) then true else n.leader_active;
  }

  -- A received message, to the end of the tick.
  unfoldable pub on_message : (ℕ → ℕ) → NodeId → OpCode → List ℕ → Node platform → Node platform
  unfolding double_signs
  on_message clock sender opcode payload n =
      if is_id n.disqualified_leader sender
      then n
      else (if double_signs sender opcode payload n
          then disqualify sender n
          else mark_leader (
              dispatch platform clock sender opcode payload (note_message sender opcode payload n)))

  -- A leader that was active and has decayed to nothing puts the node in safe mode.
  unfoldable pub check_heartbeat : Node platform → Node platform
  check_heartbeat n =
      if n.leader_active && not (is_some (get_leader platform n))
      then enter_safe_mode platform Reason.heartbeat_decay (record n { leader_active = false })
      else n

  -- What a tick does before it asks the network for a message.
  unfoldable pub prepare : ℕ → Node platform → Node platform
  unfolding check_heartbeat
  prepare now n =
      let n1 = decay_scores platform n in
      check_heartbeat (record n1 { recent_gossip = expire now n1.recent_gossip })

  abbrev pub deliver : (ℕ → ℕ) → Option (NodeId × OpCode × List ℕ) → Node platform → Node platform
  deliver clock none n = mark_leader n
  deliver clock (some (sender, opcode, payload)) n = on_message clock sender opcode payload n

  unfoldable pub tick : (ℕ → ℕ) → Node platform → Node platform
  unfolding prepare on_message
  tick clock n =
      let (now, later) = read_clock clock in
      let n1 = prepare now n in
      let (network, message) = board.network_ops.receive n1.network 256 in
      deliver later message (record n1 { network = network })
