-- ===== src/Node/Tick/Resting.antt =====
-- crates/tiny-io-oi/src/node.rs: the motor of a node in safe mode.
use tiny_io_oi.Prelude.{
  ℕ, zero, suc, List, [], ◌∷◌, Option, none, some, true, false, ◌&&◌, not, ◌≡◌, refl, if◌then◌else◌,
  if_rule,
}
use tiny_io_oi.Protocol.{NodeId, OpCode, to_core_id}
use tiny_io_oi.Scores.{decay}
use tiny_io_oi.Cache.{expire}
use tiny_io_oi.Vm.{VmError, Outcome, run}
use tiny_io_oi.Node.{Platform, Node, enter_safe_mode, get_leader, update_score}
use tiny_io_oi.Node.Failures.{std_run}
use tiny_io_oi.Node.Handlers.{
  is_some, is_id, heal, fail_safe, after_std, after_script, exec_std, exec_script, on_heartbeat,
  on_gossip, on_task, on_state_update, apply_first, on_script, on_std, dispatch,
}
use tiny_io_oi.Node.Tick.{
  from_leader, double_signs, note_message, on_message, check_heartbeat, prepare, deliver, tick,
}
use tiny_io_oi.Node.Tick.Silence.{ticks}

module _ (platform : Platform) where
  open platform use {board, gpio_ops, viewer}

  -- A run of a payload does not touch the flag of the safe mode.
  after_std-safe_mode :
      (o : Outcome) (n : Node platform) → (after_std platform o n).safe_mode ≡ n.safe_mode
  unfolding fail_safe
  after_std-safe_mode Outcome.done n = refl
  after_std-safe_mode (Outcome.trap e) n = refl
  after_std-safe_mode Outcome.waiting n = refl

  exec_std-safe_mode :
      (clock : ℕ → ℕ) (payload : List ℕ) (n : Node platform)
      → (exec_std platform clock payload n).safe_mode ≡ n.safe_mode
  unfolding exec_std
  exec_std-safe_mode clock payload n =
      after_std-safe_mode (std_run platform clock payload n.motor n).outcome _

  after_script-safe_mode :
      (clock : ℕ → ℕ) (payload : List ℕ) (o : Outcome) (n : Node platform)
      → (after_script platform clock payload o n).safe_mode ≡ n.safe_mode
  unfolding fail_safe
  after_script-safe_mode clock payload Outcome.done n = refl
  after_script-safe_mode clock payload (Outcome.trap VmError.buffer_overflow) n =
      exec_std-safe_mode clock payload n
  after_script-safe_mode clock payload (Outcome.trap e) n = refl
  after_script-safe_mode clock payload Outcome.waiting n = refl

  exec_script-safe_mode :
      (clock : ℕ → ℕ) (payload : List ℕ) (n : Node platform)
      → (exec_script platform clock payload n).safe_mode ≡ n.safe_mode
  unfolding exec_script
  exec_script-safe_mode clock payload n =
      let r =
        run board.motor_ops gpio_ops viewer payload n.gpio
          (record { fuel = 100; trap_reason = none }) n.motor in
      after_script-safe_mode clock payload r.outcome _

  apply_first-same :
      (payload : List ℕ) (n : Node platform)
      → ((apply_first platform payload n).safe_mode ≡ n.safe_mode)
        × ((apply_first platform payload n).motor ≡ n.motor)
  apply_first-same [] n = (refl, refl)
  apply_first-same (delta ∷ rest) n = (refl, refl)

  -- `Off` is what a stop makes of the motor.
  module _ (Off : board.M → Type 0) (stops : (m : board.M) → Off (board.motor_ops.stop m)) where
    -- In safe mode the motor is off.
    abbrev pub IsResting : Node platform → Type 0
    IsResting n = n.safe_mode ≡ true → Off n.motor

    heal-IsResting : (n : Node platform) → IsResting n → IsResting (heal platform n)
    heal-IsResting n rests = go (get_leader platform n)
      where
        go :
            (l : Option NodeId)
            → let r : Node platform = elim l [
              | none ↦ n
              | some leader_id ↦
                  if is_id n.disqualified_leader leader_id
                  then n
                  else record n { safe_mode = false }
            ] in
              IsResting r
        go none = rests
        go (some id) =
            if_rule IsResting (is_id n.disqualified_leader id) n (record n { safe_mode = false })
              (λ t. rests) (λ f safe. absurd cc)

    locked-IsResting :
        (n n1 : Node platform)
        → n1.safe_mode ≡ n.safe_mode
        → IsResting n
        → IsResting (if n.safe_mode then n else n1)
    locked-IsResting n n1 same rests =
        if_rule IsResting n.safe_mode n n1 (λ t. rests) (λ f safe. absurd cc)

    dispatch-IsResting :
        (clock : ℕ → ℕ) (sender : NodeId) (opcode : OpCode) (payload : List ℕ) (n : Node platform)
        → IsResting n
        → IsResting (dispatch platform clock sender opcode payload n)
    unfolding dispatch on_heartbeat on_gossip on_task on_state_update on_script on_std
    dispatch-IsResting clock sender OpCode.heartbeat payload n rests =
        let n1 = update_score platform (to_core_id sender) 100 n in
        if_rule IsResting n.safe_mode (heal platform n1) n1 (λ t. heal-IsResting n1 rests)
          (λ f. rests)
    dispatch-IsResting clock sender OpCode.spatial_gossip payload n rests = rests
    dispatch-IsResting clock sender OpCode.task_dispatch payload n rests =
        λ safe. rw safe (rests safe)
    dispatch-IsResting clock sender OpCode.state_update payload n rests =
        locked-IsResting n _ (apply_first-same payload n).0 rests
    dispatch-IsResting clock sender OpCode.vm_script_dispatch payload n rests =
        locked-IsResting n _ (exec_script-safe_mode clock payload n) rests
    dispatch-IsResting clock sender OpCode.std_bytecode_dispatch payload n rests =
        locked-IsResting n _ (exec_std-safe_mode clock payload n) rests
    dispatch-IsResting clock sender _ payload n rests = rests

    on_message-IsResting :
        (clock : ℕ → ℕ) (sender : NodeId) (opcode : OpCode) (payload : List ℕ) (n : Node platform)
        → IsResting n
        → IsResting (on_message platform clock sender opcode payload n)
    unfolding on_message enter_safe_mode
    on_message-IsResting clock sender opcode payload n rests =
        if_rule IsResting (is_id n.disqualified_leader sender) n _ (λ t. rests)
          (λ f.
            if_rule IsResting (double_signs platform sender opcode payload n) _ _
              (λ t safe. stops n.motor)
              (λ f.
                dispatch-IsResting clock sender opcode payload
                  (note_message platform sender opcode payload n)
                  (if_rule IsResting (from_leader platform sender opcode n) _ n (λ t. rests)
                    (λ f. rests))))

    check_heartbeat-IsResting :
        (n : Node platform) → IsResting n → IsResting (check_heartbeat platform n)
    unfolding check_heartbeat enter_safe_mode
    check_heartbeat-IsResting n rests =
        if_rule IsResting (n.leader_active && not (is_some (get_leader platform n))) _ n
          (λ t safe. stops n.motor) (λ f. rests)

    deliver-IsResting :
        (clock : ℕ → ℕ) (message : Option (NodeId × OpCode × List ℕ)) (n : Node platform)
        → IsResting n
        → IsResting (deliver platform clock message n)
    deliver-IsResting clock none n rests = rests
    deliver-IsResting clock (some (sender, opcode, payload)) n rests =
        on_message-IsResting clock sender opcode payload n rests

    pub tick-IsResting :
        (clock : ℕ → ℕ) (n : Node platform) → IsResting n → IsResting (tick platform clock n)
    unfolding tick prepare
    tick-IsResting clock n rests =
        let n1 = prepare platform (clock 0) n in
        let received = board.network_ops.receive n1.network 256 in
        deliver-IsResting (λ i. clock (suc i)) received.1 (record n1 { network = received.0 })
          (check_heartbeat-IsResting
            (record n { scores = decay n.scores; recent_gossip = expire (clock 0) n.recent_gossip })
            rests)

    -- If a stop turns the motor off, then a node whose motor is off in safe mode has it off, after any
    -- number of ticks and whatever messages they receive, whenever it is in safe mode.
    pub ticks-Off :
        (k : ℕ) (clocks : ℕ → ℕ → ℕ) (n : Node platform)
        → (n.safe_mode ≡ true → Off n.motor)
        → (ticks platform k clocks n).safe_mode ≡ true
        → Off (ticks platform k clocks n).motor
    ticks-Off zero clocks n rests = rests
    ticks-Off (suc k) clocks n rests =
        ticks-Off k (λ i. clocks (suc i)) (tick platform (clocks 0) n)
          (tick-IsResting (clocks 0) n rests)
