-- ===== src/Node.antt =====
-- crates/tiny-io-oi/src/node.rs: `TinyNode`, its fields and the operations besides `tick`. The
-- functions on single fields are in Scores, Cache and Log.
pub mod Reports
pub mod Handlers
pub mod Failures
pub mod Missions
pub mod Tick
use tiny_io_oi.Prelude.{ℕ, List, [], ◌∷◌, Option, none, some, Bool, true, false, replicate}
use tiny_io_oi.Protocol.{NodeId, CoreNodeId, OpCode}
use tiny_io_oi.Traits.{Gpio, IoOiState}
use tiny_io_oi.Vm.{VmScriptViewer}
use tiny_io_oi.Gossip.{GossipAssertion}
use tiny_io_oi.Board.{Board}
use tiny_io_oi.Scores.{Entry, decay, update, leader}
use tiny_io_oi.Log.{Reason, Wal, recover}

pub record TinyNode (N M S G W : Type 0) : Type 0 where
  pub id : NodeId
  pub network : N
  pub motor : M
  pub state : S
  pub gpio : G
  pub scores : List Entry
  pub wal : Option W
  pub safe_mode : Bool
  pub disqualified_leader : Option NodeId
  pub last_leader_msg : Option (OpCode × List ℕ)
  pub leader_active : Bool
  pub recent_gossip : List GossipAssertion

-- What the type parameters of `TinyNode` and the libraries that it calls supply.
pub record Platform : Type 1 where
  pub board : Board
  pub S : Type 0
  pub W : Type 0
  pub C : Type 0
  pub gpio_ops : Gpio board.A
  pub state_ops : IoOiState S
  pub wal_ops : Wal W C
  pub viewer : VmScriptViewer

module _ (platform : Platform) where
  open platform use {board, S, W, state_ops, wal_ops}

  abbrev pub Node : Type 0
  Node = TinyNode board.N board.M S board.A W

  -- `TinyNode::new`.
  abbrev pub new : ℕ → NodeId → board.N → board.M → S → board.A → Node
  new cache_size id network motor state gpio = record {
    id = id;
    network = network;
    motor = motor;
    state = state;
    gpio = gpio;
    scores = replicate cache_size none;
    wal = none;
    safe_mode = false;
    disqualified_leader = none;
    last_leader_msg = none;
    leader_active = false;
    recent_gossip = [];
  }

  abbrev pub with_wal : Node → W → Node
  with_wal n wal = record n { wal = some wal }

  -- `let _ = WalProvider::append(..)`, on the log that the node may have: a failure is ignored.
  abbrev pub log : Option W → platform.C → Option W
  log none cmd = none
  log (some wal) cmd = some (wal_ops.append wal cmd).0

  unfoldable pub enter_safe_mode : Reason → Node → Node
  enter_safe_mode reason n = record n {
    safe_mode = true;
    motor = board.motor_ops.stop n.motor;
    wal = log n.wal (wal_ops.conflict reason);
  }

  unfoldable pub recover_from_wal : Node → Node
  recover_from_wal n = record n { state = recover wal_ops state_ops n.wal n.state }

  abbrev pub decay_scores : Node → Node
  decay_scores n = record n { scores = decay n.scores }

  abbrev pub update_score : CoreNodeId → ℕ → Node → Node
  update_score id score n = record n { scores = update n.scores id score }

  abbrev pub get_leader : Node → Option NodeId
  get_leader n = leader n.scores

  unfoldable pub check_and_heal : Node → Node
  check_and_heal n = elim (get_leader n) [
    | none ↦ record n {
      network = (board.network_ops.broadcast n.network OpCode.exception (0xFE ∷ [])).0;
    }
    | some id ↦ n
  ]
