-- ===== src/Node/Tick/Safety.antt =====
-- crates/tiny-io-oi/src/node.rs: what a tick may do to the motor and to the state in safe mode, and
-- how a node leaves it.
use tiny_io_oi.Prelude.{
  ℕ, suc, List, Option, none, some, true, false, ◌&&◌, not, ◌≡◌, ◌⊎◌, inl, inr, refl, if◌then◌else◌,
  if_rule,
}
use tiny_io_oi.Protocol.{NodeId, OpCode, to_core_id}
use tiny_io_oi.Scores.{decay}
use tiny_io_oi.Cache.{expire}
use tiny_io_oi.Node.{Platform, Node, enter_safe_mode, get_leader, update_score}
use tiny_io_oi.Node.Handlers.{
  is_some, is_id, heal, on_heartbeat, on_gossip, on_task, on_state_update, on_script, on_std,
  dispatch,
}
use tiny_io_oi.Node.Tick.{
  from_leader, double_signs, disqualify, mark_leader, on_message, check_heartbeat, prepare, deliver,
  tick,
}

module _ (platform : Platform) where
  open platform use {board, S, W}

  -- The motor after some stops, and nothing else.
  pub data Halted (m : board.M) : board.M → Type 0 where
    untouched : Halted m m
    stopped : (m' : board.M) → Halted m m' → Halted m (board.motor_ops.stop m')

  -- The motor of `n'` is that of `n`, or it was stopped; the state is the same.
  pub record Inert (n n' : Node platform) : Type 0 where
    pub motor : Halted n.motor n'.motor
    pub state : n'.state ≡ n.state

  -- Out of safe mode only under a leader that is not disqualified.
  abbrev pub MayLead : Node platform → Type 0
  MayLead n =
      (n.safe_mode ≡ true)
      ⊎ ((id : NodeId) × (get_leader platform n ≡ some id)
          × (is_id n.disqualified_leader id ≡ false))

  pub record Quiet (n n' : Node platform) : Type 0 where
    pub inert : Inert n n'
    pub leads : MayLead n'

  heal-Quiet :
      (n n0 : Node platform) → Inert n n0 → n0.safe_mode ≡ true → Quiet n (heal platform n0)
  heal-Quiet n n0 inert safe = go (get_leader platform n0) refl
    where
      go :
          (l : Option NodeId)
          → get_leader platform n0 ≡ l
          → let r : Node platform = elim l [
            | none ↦ n0
            | some leader_id ↦
                if is_id n0.disqualified_leader leader_id
                then n0
                else record n0 { safe_mode = false }
          ] in
            Quiet n r
      go none e = record { inert = inert; leads = inl safe }
      go (some id) e =
          if_rule (Quiet n) (is_id n0.disqualified_leader id) n0 (record n0 { safe_mode = false })
            (λ t. record { inert = inert; leads = inl safe })
            (λ f. record {
              inert = record { motor = inert.motor; state = inert.state };
              leads = inr (id, e, f);
            })

  module _ (n n0 : Node platform) (inert : Inert n n0) (safe : n0.safe_mode ≡ true) where
    same_node : Quiet n n0
    same_node = record { inert = inert; leads = inl safe }

    disqualify-Quiet : (sender : NodeId) → Quiet n (disqualify platform sender n0)
    unfolding enter_safe_mode
    disqualify-Quiet sender = record {
      inert = record { motor = stopped n0.motor inert.motor; state = inert.state };
      leads = inl refl;
    }

    on_heartbeat-Quiet : (sender : NodeId) → Quiet n (on_heartbeat platform sender n0)
    unfolding on_heartbeat
    on_heartbeat-Quiet sender =
        let n1 = update_score platform (to_core_id sender) 100 n0 in
        let inert1 : Inert n n1 = record { motor = inert.motor; state = inert.state } in
        if_rule (Quiet n) n0.safe_mode (heal platform n1) n1 (λ t. heal-Quiet n n1 inert1 safe)
          (λ f. record { inert = inert1; leads = inl safe })

    locked : (n1 : Node platform) → Quiet n (if n0.safe_mode then n0 else n1)
    locked n1 = if_rule (Quiet n) n0.safe_mode n0 n1 (λ t. same_node) (λ f. absurd cc)

    dispatch-Quiet :
        (clock : ℕ → ℕ) (sender : NodeId) (opcode : OpCode) (payload : List ℕ)
        → Quiet n (dispatch platform clock sender opcode payload n0)
    unfolding dispatch on_gossip on_task on_state_update on_script on_std
    dispatch-Quiet clock sender OpCode.heartbeat payload = on_heartbeat-Quiet sender
    dispatch-Quiet clock sender OpCode.spatial_gossip payload = record {
      inert = record { motor = inert.motor; state = inert.state };
      leads = inl safe;
    }
    dispatch-Quiet clock sender OpCode.task_dispatch payload =
        rw safe
          (record { inert = record { motor = inert.motor; state = inert.state }; leads = inl refl })
    dispatch-Quiet clock sender OpCode.state_update payload = locked _
    dispatch-Quiet clock sender OpCode.vm_script_dispatch payload = locked _
    dispatch-Quiet clock sender OpCode.std_bytecode_dispatch payload = locked _
    dispatch-Quiet clock sender _ payload = same_node

  mark_leader-Quiet : (n n0 : Node platform) → Quiet n n0 → Quiet n (mark_leader platform n0)
  mark_leader-Quiet n n0 q = record {
    inert = record { motor = q.inert.motor; state = q.inert.state };
    leads = q.leads;
  }

  on_message-Quiet :
      (n n0 : Node platform) (clock : ℕ → ℕ) (sender : NodeId) (opcode : OpCode) (payload : List ℕ)
      → Inert n n0
      → n0.safe_mode ≡ true
      → Quiet n (on_message platform clock sender opcode payload n0)
  unfolding on_message
  on_message-Quiet n n0 clock sender opcode payload inert safe =
      if_rule (Quiet n) (is_id n0.disqualified_leader sender) n0 _ (λ t. same_node n n0 inert safe)
        (λ f.
          if_rule (Quiet n) (double_signs platform sender opcode payload n0) _ _
            (λ t. disqualify-Quiet n n0 inert safe sender)
            (λ f.
              if_rule
                (λ n1.
                  Quiet n (mark_leader platform (dispatch platform clock sender opcode payload n1)))
                (from_leader platform sender opcode n0)
                (record n0 { last_leader_msg = some (opcode, payload) }) n0
                (λ t. mark_leader-Quiet n _ (
                  dispatch-Quiet n (record n0 { last_leader_msg = some (opcode, payload) })
                    (record { motor = inert.motor; state = inert.state }) safe clock sender opcode
                    payload))
                (λ f.
                  mark_leader-Quiet n _
                    (dispatch-Quiet n n0 inert safe clock sender opcode payload))))

  check_heartbeat-Inert :
      (n n0 : Node platform)
      → Inert n n0
      → n0.safe_mode ≡ true
      → Inert n (check_heartbeat platform n0) × ((check_heartbeat platform n0).safe_mode ≡ true)
  unfolding check_heartbeat enter_safe_mode
  check_heartbeat-Inert n n0 inert safe =
      if_rule (λ n1. Inert n n1 × (n1.safe_mode ≡ true))
        (n0.leader_active && not (is_some (get_leader platform n0))) _ n0
        (λ t. (record { motor = stopped n0.motor inert.motor; state = inert.state }, refl))
        (λ f. (inert, safe))

  deliver-Quiet :
      (n n0 : Node platform) (clock : ℕ → ℕ) (message : Option (NodeId × OpCode × List ℕ))
      → Inert n n0
      → n0.safe_mode ≡ true
      → Quiet n (deliver platform clock message n0)
  deliver-Quiet n n0 clock none inert safe =
      mark_leader-Quiet n n0 (record { inert = inert; leads = inl safe })
  deliver-Quiet n n0 clock (some (sender, opcode, payload)) inert safe =
      on_message-Quiet n n0 clock sender opcode payload inert safe

  -- In safe mode a tick, whatever message it receives, leaves the state as it is and does nothing to
  -- the motor but stop it; and afterwards the node is still in safe mode, or its leader is one
  -- that is not disqualified.
  pub tick-Quiet :
      (clock : ℕ → ℕ) (n : Node platform) → n.safe_mode ≡ true → Quiet n (tick platform clock n)
  unfolding tick prepare
  tick-Quiet clock n safe =
      let n1 = prepare platform (clock 0) n in
      let (inert, safe1) =
        check_heartbeat-Inert n
          (record n { scores = decay n.scores; recent_gossip = expire (clock 0) n.recent_gossip })
          (record { motor = untouched; state = refl }) safe in
      let received = board.network_ops.receive n1.network 256 in
      deliver-Quiet n (record n1 { network = received.0 }) (λ i. clock (suc i)) received.1
        (record { motor = inert.motor; state = inert.state }) safe1
