-- ===== src/Tests/Replays/Soldiers.antt =====
-- crates/tiny-io-oi/src/lib.rs and examples/soldier_demo.rs: the tests of `TinyNode`, and the demo.
use tiny_io_oi.Prelude.{
  ℕ, zero, suc, List, [], ◌∷◌, Option, Bool, true, not, ◌≡◌, refl, ◌==◌, same, replicate,
}
use tiny_io_oi.Protocol.{NodeId, OpCode, to_core_id, from_core_id, same_opcode}
use tiny_io_oi.Drivers.{
  MockGpio, MockState, mock_network_new, mock_motor_new, mock_gpio_new, simulate_receive, set_pin,
  mock_gpio, mock_state,
}
use tiny_io_oi.Vm.{VmStep, run, run_from, round, exec_step}
use tiny_io_oi.Scores.{decay, update, leader}
use tiny_io_oi.Log.{recover, replay}
use tiny_io_oi.Node.Reports.{script_report}
use tiny_io_oi.Node.{
  Platform, Node, new, with_wal, enter_safe_mode, recover_from_wal, update_score, get_leader,
  check_and_heal,
}
use tiny_io_oi.Node.Handlers.{
  is_some, is_id, dispatch, on_heartbeat, on_state_update, on_task, on_script, exec_script,
  fail_safe,
}
use tiny_io_oi.Node.Tick.{on_message, double_signs, check_heartbeat, prepare, tick}
use tiny_io_oi.Tests.Boards.{mock_board}
use tiny_io_oi.Tests.Hosts.{encode_steps, script_viewer}
use tiny_io_oi.Tests.Soldiers.{delta_log}
use tiny_io_oi.Tests.Replays.{all_of, only_sent}

-- The mock drivers, with a log of cdDB and a viewer of scripts.
abbrev mocks : Platform
mocks = record {
  board = mock_board;
  S = MockState;
  W = List ℕ;
  C = Option ℕ;
  gpio_ops = mock_gpio;
  state_ops = mock_state;
  wal_ops = delta_log;
  viewer = script_viewer;
}

abbrev mac : ℕ → NodeId
mac n = replicate 6 n

-- `TinyNode::<_, _, MockState, MockGpio, 2>::new([0; 6], ..)`.
abbrev fresh : MockGpio → Node mocks
fresh gpio = new mocks 2 (mac 0) mock_network_new mock_motor_new (record { flags = 0 }) gpio

abbrev ticked : Node mocks → Node mocks
ticked n = tick mocks (λ i. 0) n

abbrev ticked_for : ℕ → Node mocks → Node mocks
ticked_for zero n = n
ticked_for (suc k) n = ticked_for k (ticked n)

-- `network.simulate_receive(..)`, and a tick.
abbrev heard : NodeId → OpCode → List ℕ → Node mocks → Node mocks
heard sender opcode payload n =
    ticked (record n { network = simulate_receive n.network sender opcode payload })

abbrev test_arena_scorecard_leader : Bool
test_arena_scorecard_leader =
    let n1 = update_score mocks (to_core_id (mac 1)) 50 (fresh mock_gpio_new) in
    let n2 = update_score mocks (to_core_id (mac 2)) 100 n1 in is_id (get_leader mocks n2) (mac 2)

arena_scorecard_leader_passes : test_arena_scorecard_leader ≡ true
unfolding update leader to_core_id from_core_id same
arena_scorecard_leader_passes = refl

abbrev test_bitmask_state_update : Bool
test_bitmask_state_update =
    let n = heard (mac 1) OpCode.state_update (1 ∷ []) (fresh mock_gpio_new) in n.state.flags == 1

bitmask_state_update_passes : test_bitmask_state_update ≡ true
unfolding tick prepare check_heartbeat on_message double_signs dispatch on_state_update decay leader
    to_core_id from_core_id same
bitmask_state_update_passes = refl

abbrev test_vm_assertion_failed_and_trap : Bool
test_vm_assertion_failed_and_trap =
    let serialized = encode_steps (VmStep.set_pwm 0 200 ∷ VmStep.assert_or_yield 2 1 ∷ []) in
    let n =
      heard (mac 1) OpCode.vm_script_dispatch serialized (fresh (set_pin mock_gpio_new 2 0)) in
    all_of (
      (n.motor.current_speed == 0)
      ∷ only_sent OpCode.exception (0xFF ∷ 2 ∷ 2 ∷ 1 ∷ 0 ∷ []) n.network.sent
      ∷ [])

vm_assertion_failed_and_trap_passes : test_vm_assertion_failed_and_trap ≡ true
unfolding tick prepare check_heartbeat on_message double_signs dispatch on_script exec_script
    fail_safe script_report run run_from round exec_step decay leader to_core_id from_core_id same
    same_opcode
vm_assertion_failed_and_trap_passes = refl

abbrev test_client_side_failover : Bool
test_client_side_failover =
    let n1 = heard (mac 1) OpCode.heartbeat [] (fresh mock_gpio_new) in
    let n2 = ticked_for 100 n1 in
    let n3 = check_and_heal mocks n2 in
    all_of (
      is_id (get_leader mocks n1) (mac 1)
      ∷ not (is_some (get_leader mocks n2))
      ∷ only_sent OpCode.exception (0xFE ∷ []) n3.network.sent
      ∷ [])

client_side_failover_passes : test_client_side_failover ≡ true
unfolding tick prepare check_heartbeat on_message double_signs dispatch on_heartbeat enter_safe_mode
    decay update leader to_core_id from_core_id same same_opcode check_and_heal
client_side_failover_passes = refl

-- Both nodes open the same file, so the second one starts with the bytes of the first one's log.
abbrev test_state_recovery_from_wal : Bool
test_state_recovery_from_wal =
    let n = heard (mac 1) OpCode.state_update (5 ∷ []) (with_wal mocks (fresh mock_gpio_new) []) in
    let node_restart = record (fresh mock_gpio_new) { wal = n.wal } in
    let recovered = recover_from_wal mocks node_restart in
    all_of
      ((n.state.flags == 5) ∷ (node_restart.state.flags == 0) ∷ (recovered.state.flags == 5) ∷ [])

state_recovery_from_wal_passes : test_state_recovery_from_wal ≡ true
unfolding tick prepare check_heartbeat on_message double_signs dispatch on_state_update decay leader
    to_core_id from_core_id same recover_from_wal recover replay
state_recovery_from_wal_passes = refl

abbrev test_failover_safe_mode_and_double_sign : Bool
test_failover_safe_mode_and_double_sign =
    let n1 = ticked (fresh mock_gpio_new) in
    let n2 = heard (mac 1) OpCode.heartbeat [] n1 in
    let n3 = ticked_for 100 n2 in
    let n4 = heard (mac 2) OpCode.heartbeat [] n3 in
    let n5 = heard (mac 2) OpCode.state_update (10 ∷ []) n4 in
    let n6 = heard (mac 2) OpCode.state_update (20 ∷ []) n5 in
    let n7 = heard (mac 2) OpCode.task_dispatch [] n6 in
    let n8 = ticked_for 5 (heard (mac 3) OpCode.heartbeat [] n7) in
    all_of (
      not n1.safe_mode
      ∷ not n2.safe_mode
      ∷ is_id (get_leader mocks n2) (mac 1)
      ∷ not (is_some (get_leader mocks n3))
      ∷ n3.safe_mode
      ∷ not n4.safe_mode
      ∷ is_id (get_leader mocks n4) (mac 2)
      ∷ not n5.safe_mode
      ∷ n6.safe_mode
      ∷ is_id n6.disqualified_leader (mac 2)
      ∷ (n7.motor.current_speed == 0)
      ∷ is_id (get_leader mocks n8) (mac 3)
      ∷ not n8.safe_mode
      ∷ [])

failover_safe_mode_and_double_sign_passes : test_failover_safe_mode_and_double_sign ≡ true
unfolding tick prepare check_heartbeat on_message double_signs dispatch on_heartbeat on_state_update
    on_task enter_safe_mode decay update leader to_core_id from_core_id same same_opcode
failover_safe_mode_and_double_sign_passes = refl

-- The demo: the node hears the three messages, one in each of three ticks.
abbrev leader_id : NodeId
leader_id = 1 ∷ 2 ∷ 3 ∷ 4 ∷ 5 ∷ 6 ∷ []

abbrev soldier_demo : Node mocks
soldier_demo =
    let network1 = simulate_receive mock_network_new leader_id OpCode.heartbeat [] in
    let network2 = simulate_receive network1 leader_id OpCode.task_dispatch [] in
    let network3 = simulate_receive network2 leader_id OpCode.state_update (1 ∷ []) in
    let my_id = 0xAA ∷ 0xBB ∷ 0xCC ∷ 0xDD ∷ 0xEE ∷ 0xFF ∷ [] in
    ticked_for 3 (new mocks 5 my_id network3 mock_motor_new (record { flags = 0 }) mock_gpio_new)

-- The motor is on, and the flags have changed.
soldier_demo_runs : (soldier_demo.motor.current_speed ≡ 255) × (soldier_demo.state.flags ≡ 1)
unfolding tick prepare check_heartbeat on_message double_signs dispatch on_heartbeat on_state_update
    on_task enter_safe_mode decay update leader to_core_id from_core_id same same_opcode
soldier_demo_runs = (refl, refl)
