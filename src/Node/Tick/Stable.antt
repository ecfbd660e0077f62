-- ===== src/Node/Tick/Stable.antt =====
-- crates/tiny-io-oi/src/node.rs: the predicates of a node that a tick keeps, from what each of its
-- elementary changes keeps.
use tiny_io_oi.Prelude.{
  ℕ, suc, List, Option, none, some, Bool, false, ◌&&◌, not, if◌then◌else◌, if_rule,
}
use tiny_io_oi.Protocol.{NodeId, CoreNodeId, OpCode, to_core_id}
use tiny_io_oi.Scores.{decay}
use tiny_io_oi.Cache.{expire}
use tiny_io_oi.Log.{Reason}
use tiny_io_oi.Vm.{VmError, Outcome, run}
use tiny_io_oi.Node.{Platform, Node, enter_safe_mode, get_leader, update_score}
use tiny_io_oi.Node.Failures.{std_run}
use tiny_io_oi.Node.Handlers.{
  is_some, is_id, heal, fail_safe, after_std, after_script, exec_std, exec_script, on_heartbeat,
  on_gossip, on_task, on_state_update, apply_first, on_script, on_std, dispatch,
}
use tiny_io_oi.Node.Tick.{
  from_leader, double_signs, note_message, mark_leader, on_message, check_heartbeat, prepare,
  deliver, tick,
}

module _ (platform : Platform) where
  open platform use {board, gpio_ops, viewer}

  -- `P` outlasts every change of a field that a tick makes, on payloads that satisfy `Q`.
  pub record Stable (P : Node platform → Type 0) (Q : List ℕ → Type 0) : Type 0 where
    pub drives :
        (n : Node platform) (network : board.N) (motor : board.M)
        → P n
        → P (record n { network = network; motor = motor })
    pub flags :
        (n : Node platform) (safe active : Bool) (banned : Option NodeId)
        (last : Option (OpCode × List ℕ))
        → P n
        → P (record n {
          safe_mode = safe;
          leader_active = active;
          disqualified_leader = banned;
          last_leader_msg = last;
        })
    pub votes : (n : Node platform) (id : CoreNodeId) → P n → P (update_score platform id 100 n)
    pub hears : (n : Node platform) (payload : List ℕ) → P n → P (on_gossip platform payload n)
    pub applies :
        (n : Node platform) (payload : List ℕ)
        → Q payload
        → P n
        → P (apply_first platform payload n)
    pub ages :
        (n : Node platform) (now : ℕ)
        → P n
        → P (record n { scores = decay n.scores; recent_gossip = expire now n.recent_gossip })
    pub guards : (n : Node platform) (reason : Reason) → P n → P (enter_safe_mode platform reason n)

  -- The payload of a message, if there is one.
  abbrev pub Carries : (List ℕ → Type 0) → Option (NodeId × OpCode × List ℕ) → Type 0
  Carries Q none = Unit
  Carries Q (some (sender, opcode, payload)) = Q payload

  module _ (P : Node platform → Type 0) (Q : List ℕ → Type 0) (stable : Stable P Q) where
    fail_safe-keeps :
        (err_buf : List ℕ) (n : Node platform) → P n → P (fail_safe platform err_buf n)
    unfolding fail_safe
    fail_safe-keeps err_buf n p = stable.drives n _ (board.motor_ops.stop n.motor) p

    after_std-keeps : (o : Outcome) (n : Node platform) → P n → P (after_std platform o n)
    after_std-keeps Outcome.done n p = p
    after_std-keeps (Outcome.trap e) n p = fail_safe-keeps _ n p
    after_std-keeps Outcome.waiting n p = p

    exec_std-keeps :
        (clock : ℕ → ℕ) (payload : List ℕ) (n : Node platform)
        → P n
        → P (exec_std platform clock payload n)
    unfolding exec_std
    exec_std-keeps clock payload n p =
        after_std-keeps (std_run platform clock payload n.motor n).outcome _
          (stable.drives n _ (std_run platform clock payload n.motor n).machine.motor p)

    after_script-keeps :
        (clock : ℕ → ℕ) (payload : List ℕ) (o : Outcome) (n : Node platform)
        → P n
        → P (after_script platform clock payload o n)
    after_script-keeps clock payload Outcome.done n p = p
    after_script-keeps clock payload (Outcome.trap VmError.buffer_overflow) n p =
        exec_std-keeps clock payload n p
    after_script-keeps clock payload (Outcome.trap e) n p = fail_safe-keeps _ n p
    after_script-keeps clock payload Outcome.waiting n p = p

    exec_script-keeps :
        (clock : ℕ → ℕ) (payload : List ℕ) (n : Node platform)
        → P n
        → P (exec_script platform clock payload n)
    unfolding exec_script
    exec_script-keeps clock payload n p =
        let r =
          run board.motor_ops gpio_ops viewer payload n.gpio
            (record { fuel = 100; trap_reason = none }) n.motor in
        after_script-keeps clock payload r.outcome _ (stable.drives n n.network r.motor p)

    heal-keeps : (n : Node platform) → P n → P (heal platform n)
    heal-keeps n p = go (get_leader platform n)
      where
        go :
            (l : Option NodeId)
            → let r : Node platform = elim l [
              | none ↦ n
              | some leader_id ↦
                  if is_id n.disqualified_leader leader_id
                  then n
                  else record n { safe_mode = false }
            ] in
              P r
        go none = p
        go (some id) =
            if_rule P (is_id n.disqualified_leader id) n _ (λ t. p)
              (λ f. stable.flags n _ n.leader_active n.disqualified_leader n.last_leader_msg p)

    on_heartbeat-keeps :
        (sender : NodeId) (n : Node platform) → P n → P (on_heartbeat platform sender n)
    unfolding on_heartbeat
    on_heartbeat-keeps sender n p =
        let n1 = update_score platform (to_core_id sender) 100 n in
        let p1 = stable.votes n (to_core_id sender) p in
        if_rule P n.safe_mode (heal platform n1) n1 (λ t. heal-keeps n1 p1) (λ f. p1)

    dispatch-keeps :
        (clock : ℕ → ℕ) (sender : NodeId) (opcode : OpCode) (payload : List ℕ) (n : Node platform)
        → Q payload
        → P n
        → P (dispatch platform clock sender opcode payload n)
    unfolding dispatch on_task on_state_update on_script on_std
    dispatch-keeps clock sender OpCode.heartbeat payload n q p = on_heartbeat-keeps sender n p
    dispatch-keeps clock sender OpCode.spatial_gossip payload n q p = stable.hears n payload p
    dispatch-keeps clock sender OpCode.task_dispatch payload n q p = stable.drives n n.network _ p
    dispatch-keeps clock sender OpCode.state_update payload n q p =
        if_rule P n.safe_mode n _ (λ t. p) (λ f. stable.applies n payload q p)
    dispatch-keeps clock sender OpCode.vm_script_dispatch payload n q p =
        if_rule P n.safe_mode n _ (λ t. p) (λ f. exec_script-keeps clock payload n p)
    dispatch-keeps clock sender OpCode.std_bytecode_dispatch payload n q p =
        if_rule P n.safe_mode n _ (λ t. p) (λ f. exec_std-keeps clock payload n p)
    dispatch-keeps clock sender _ payload n q p = p

    mark_leader-keeps : (n : Node platform) → P n → P (mark_leader platform n)
    mark_leader-keeps n p = stable.flags n n.safe_mode _ n.disqualified_leader n.last_leader_msg p

    on_message-keeps :
        (clock : ℕ → ℕ) (sender : NodeId) (opcode : OpCode) (payload : List ℕ) (n : Node platform)
        → Q payload
        → P n
        → P (on_message platform clock sender opcode payload n)
    unfolding on_message
    on_message-keeps clock sender opcode payload n q p =
        let n1 = note_message platform sender opcode payload n in
        let p1 : P n1 =
          if_rule P (from_leader platform sender opcode n) _ n
            (λ t. stable.flags n n.safe_mode n.leader_active n.disqualified_leader _ p) (λ f. p) in
        if_rule P (is_id n.disqualified_leader sender) n _ (λ t. p)
          (λ f.
            if_rule P (double_signs platform sender opcode payload n) _ _
              (λ t.
                stable.guards _ Reason.double_sign
                  (stable.flags n n.safe_mode n.leader_active (some sender) n.last_leader_msg p))
              (λ f. mark_leader-keeps _ (dispatch-keeps clock sender opcode payload n1 q p1)))

    deliver-keeps :
        (clock : ℕ → ℕ) (message : Option (NodeId × OpCode × List ℕ)) (n : Node platform)
        → Carries Q message
        → P n
        → P (deliver platform clock message n)
    deliver-keeps clock none n q p = mark_leader-keeps n p
    deliver-keeps clock (some (sender, opcode, payload)) n q p =
        on_message-keeps clock sender opcode payload n q p

    check_heartbeat-keeps : (n : Node platform) → P n → P (check_heartbeat platform n)
    unfolding check_heartbeat
    check_heartbeat-keeps n p =
        if_rule P (n.leader_active && not (is_some (get_leader platform n))) _ n
          (λ t.
            stable.guards _ Reason.heartbeat_decay
              (stable.flags n n.safe_mode false n.disqualified_leader n.last_leader_msg p))
          (λ f. p)

    pub tick-keeps :
        (clock : ℕ → ℕ) (n : Node platform)
        → ((network : board.N) → Carries Q (board.network_ops.receive network 256).1)
        → P n
        → P (tick platform clock n)
    unfolding tick prepare
    tick-keeps clock n q p =
        let n1 = prepare platform (clock 0) n in
        let p1 = check_heartbeat-keeps _ (stable.ages n (clock 0) p) in
        let received = board.network_ops.receive n1.network 256 in
        deliver-keeps (λ i. clock (suc i)) received.1 (record n1 { network = received.0 })
          (q n1.network) (stable.drives n1 received.0 n1.motor p1)
