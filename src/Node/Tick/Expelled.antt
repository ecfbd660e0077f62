-- ===== src/Node/Tick/Expelled.antt =====
-- crates/tiny-io-oi/src/node.rs: a node after it has caught its leader signing twice.
use tiny_io_oi.Prelude.{
  ℕ, zero, suc, List, Option, none, some, true, ◌&&◌, not, ◌≡◌, ◌≢◌, refl, sym, ap, ◌∙◌, if_rule,
}
use tiny_io_oi.Protocol.{NodeId, OpCode}
use tiny_io_oi.Scores.{decay}
use tiny_io_oi.Cache.{expire}
use tiny_io_oi.Node.{Platform, Node, enter_safe_mode, get_leader}
use tiny_io_oi.Node.Handlers.{is_some, is_id}
use tiny_io_oi.Node.Tick.{
  double_signs, disqualify, on_message, check_heartbeat, prepare, deliver, tick,
}
use tiny_io_oi.Node.Tick.Signing.{is_id_iff}
use tiny_io_oi.Node.Tick.Silence.{ticks}

-- The message, if there is one, comes from this sender.
abbrev pub IsFrom : NodeId → Option (NodeId × OpCode × List ℕ) → Type 0
IsFrom sender none = Unit
IsFrom sender (some (id, opcode, payload)) = id ≡ sender

module _ (platform : Platform) (Off : platform.board.M → Type 0)
    (stops : (m : platform.board.M) → Off (platform.board.motor_ops.stop m)) (sender : NodeId)
    (state : platform.S) where
  open platform use {board}

  -- The node is in safe mode with its motor off, has disqualified the sender, and is in this state.
  pub record Expelled (n : Node platform) : Type 0 where
    pub safe : n.safe_mode ≡ true
    pub disqualified : n.disqualified_leader ≡ some sender
    pub off : Off n.motor
    pub same_state : n.state ≡ state

  disqualify-Expelled :
      (n : Node platform) → n.state ≡ state → Expelled (disqualify platform sender n)
  unfolding enter_safe_mode
  disqualify-Expelled n e = record {
    safe = refl;
    disqualified = refl;
    off = stops n.motor;
    same_state = e;
  }

  prepare-Expelled : (now : ℕ) (n : Node platform) → Expelled n → Expelled (prepare platform now n)
  unfolding prepare check_heartbeat enter_safe_mode
  prepare-Expelled now n x =
      let p : Node platform = record n {
        scores = decay n.scores;
        recent_gossip = expire now n.recent_gossip;
      } in
      if_rule Expelled (n.leader_active && not (is_some (get_leader platform p))) _ p
        (λ t. record {
          safe = refl;
          disqualified = x.disqualified;
          off = stops n.motor;
          same_state = x.same_state;
        })
        (λ f. record {
          safe = x.safe;
          disqualified = x.disqualified;
          off = x.off;
          same_state = x.same_state;
        })

  deliver-Expelled :
      (clock : ℕ → ℕ) (message : Option (NodeId × OpCode × List ℕ)) (n : Node platform)
      → IsFrom sender message
      → Expelled n
      → Expelled (deliver platform clock message n)
  unfolding on_message
  deliver-Expelled clock none n from x = record {
    safe = x.safe;
    disqualified = x.disqualified;
    off = x.off;
    same_state = x.same_state;
  }
  deliver-Expelled clock (some (id, opcode, payload)) n from x =
      if_rule Expelled (is_id n.disqualified_leader id) n _ (λ t. x)
        (λ f.
          let t = (is_id_iff n.disqualified_leader id).1 (x.disqualified ∙ ap some (sym from)) in
          absurd cc)

  module _
      (delivers : (network : board.N)
        → IsFrom sender (board.network_ops.receive network 256).1) where
    tick-Expelled :
        (clock : ℕ → ℕ) (n : Node platform) → Expelled n → Expelled (tick platform clock n)
    unfolding tick
    tick-Expelled clock n x =
        let n1 = prepare platform (clock 0) n in
        let x1 = prepare-Expelled (clock 0) n x in
        let received = board.network_ops.receive n1.network 256 in
        deliver-Expelled (λ i. clock (suc i)) received.1 (record n1 { network = received.0 })
          (delivers n1.network)
          (record {
            safe = x1.safe;
            disqualified = x1.disqualified;
            off = x1.off;
            same_state = x1.same_state;
          })

    ticks-Expelled :
        (k : ℕ) (clocks : ℕ → ℕ → ℕ) (n : Node platform)
        → Expelled n
        → Expelled (ticks platform k clocks n)
    ticks-Expelled zero clocks n x = x
    ticks-Expelled (suc k) clocks n x =
        ticks-Expelled k (λ i. clocks (suc i)) (tick platform (clocks 0) n)
          (tick-Expelled (clocks 0) n x)

module _ (platform : Platform) (Off : platform.board.M → Type 0)
    (stops : (m : platform.board.M) → Off (platform.board.motor_ops.stop m)) where
  open platform use {board}

  -- If a stop turns the motor off, then a node that catches a double sign of a sender that is not
  -- disqualified yet, and that runs for any number of ticks on a network that delivers messages of that
  -- sender only, is in safe mode after them, with the motor off, the sender disqualified, and the state
  -- it had before the double sign, whatever these messages are.
  pub on_message-Expelled :
      (k : ℕ) (clock : ℕ → ℕ) (clocks : ℕ → ℕ → ℕ) (sender : NodeId) (opcode : OpCode)
      (payload : List ℕ) (n : Node platform)
      → double_signs platform sender opcode payload n ≡ true
      → n.disqualified_leader ≢ some sender
      → ((network : board.N) → IsFrom sender (board.network_ops.receive network 256).1)
      → Expelled platform Off stops sender n.state
          (ticks platform k clocks (on_message platform clock sender opcode payload n))
  unfolding on_message
  on_message-Expelled k clock clocks sender opcode payload n double fresh delivers =
      ticks-Expelled platform Off stops sender n.state delivers k clocks
        (on_message platform clock sender opcode payload n)
        (if_rule (Expelled platform Off stops sender n.state) (is_id n.disqualified_leader sender) n
          _ (λ t. absurd (fresh ((is_id_iff n.disqualified_leader sender).0 t)))
          (λ f.
            if_rule (Expelled platform Off stops sender n.state)
              (double_signs platform sender opcode payload n) _ _
              (λ t. disqualify-Expelled platform Off stops sender n.state n refl) (λ g. absurd cc)))
