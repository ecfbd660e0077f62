-- ===== src/Tests/Nodes.antt =====
-- Concrete inputs for the theorems on a node.
use tiny_io_oi.Prelude.{
  ℕ, List, [], ◌∷◌, none, some, true, false, ◌≡◌, ◌≢◌, ◌⊎◌, inl, inr, refl, arith, same, length,
  ◌↔◌,
}
use tiny_io_oi.Protocol.{NodeId, OpCode, to_core_id, from_core_id, same_opcode}
use tiny_io_oi.Drivers.{
  MockNetwork, MockMotor, MockGpio, MockState, mock_state, mock_network_new, simulate_receive,
  mock_motor_new, mock_gpio_new, mock_gpio, mock_motor,
}
use tiny_io_oi.Vm.{VmError, Outcome, run}
use tiny_io_oi.Scores.{Entry, has_entry, update, leader}
use tiny_io_oi.Scores.Leader.{Elects, leader-Elects}
use tiny_io_oi.Scores.Update.{score_of, update-score_of}
use tiny_io_oi.Node.{Platform, Node, new}
use tiny_io_oi.Node.Reports.{script_report}
use tiny_io_oi.Node.Handlers.{exec_script}
use tiny_io_oi.Node.Failures.{Finish, StdFinish, exec_script-Finish}
use tiny_io_oi.Node.Tick.{is_signed, double_signs, on_message, tick}
use tiny_io_oi.Node.Tick.Safety.{Quiet, tick-Quiet}
use tiny_io_oi.Node.Tick.Signing.{Clashes, double_signs_iff}
use tiny_io_oi.Node.Tick.Expelled.{Expelled, on_message-Expelled}
use tiny_io_oi.Node.Tick.Sound.{IsSound, tick-IsSound}
use tiny_io_oi.Node.Tick.Silence.{ticks, ticks-safe_mode}
use tiny_io_oi.Tests.Boards.{
  silent_platform, mock_platform, silent_adc, whole_numbers, byte_log, two_steps, viewer_of,
}

abbrev boss : NodeId
boss = 9 ∷ 9 ∷ 9 ∷ 9 ∷ 9 ∷ 9 ∷ []

abbrev soldier : Node mock_platform
soldier =
    new mock_platform 4 (1 ∷ 1 ∷ 1 ∷ 1 ∷ 1 ∷ 1 ∷ [])
      (simulate_receive mock_network_new boss OpCode.task_dispatch []) mock_motor_new
      (record { flags = 0 }) mock_gpio_new

abbrev safe_soldier : Node mock_platform
safe_soldier = record soldier { safe_mode = true }

-- A soldier that has a leader, and has had a state update from it.
abbrev led_soldier : Node mock_platform
led_soldier = record soldier {
  scores = some (to_core_id boss, 100) ∷ none ∷ [];
  last_leader_msg = some (OpCode.state_update, 1 ∷ []);
}

abbrev micros : ℕ → ℕ
micros i = i

tick-Quiet_example : Quiet mock_platform safe_soldier (tick mock_platform micros safe_soldier)
tick-Quiet_example = tick-Quiet mock_platform micros safe_soldier refl

tick-IsSound_example : IsSound mock_platform 4 (tick mock_platform micros soldier)
tick-IsSound_example =
    tick-IsSound mock_platform 4 micros soldier
      (record { table = refl; cache = record { bounded = omega arith; unique = tt } })

signs_twice : double_signs mock_platform boss OpCode.state_update (2 ∷ []) led_soldier ≡ true
unfolding double_signs leader from_core_id to_core_id same same_opcode
signs_twice = refl

double_signs_run :
    (double_signs mock_platform boss OpCode.state_update (2 ∷ []) led_soldier ≡ true) ↔ (
      (leader led_soldier.scores ≡ some boss)
      × (is_signed OpCode.state_update ≡ true)
      × Clashes led_soldier.last_leader_msg OpCode.state_update (2 ∷ []))
double_signs_run = double_signs_iff mock_platform boss OpCode.state_update (2 ∷ []) led_soldier

-- The same board, on a network that delivers a heartbeat of the leader whenever it is asked.
abbrev pestered : Platform
pestered = record {
  board = record {
    M = MockMotor;
    A = MockGpio;
    N = MockNetwork;
    motor_ops = mock_motor;
    adc_ops = silent_adc;
    network_ops = record {
      broadcast = λ n opcode payload. (n, true);
      receive = λ n size. (n, some (boss, OpCode.heartbeat, []));
    };
    floats = whole_numbers;
    patience = 4;
    ptp = true;
  };
  S = MockState;
  W = List ℕ;
  C = ℕ;
  gpio_ops = mock_gpio;
  state_ops = mock_state;
  wal_ops = byte_log;
  viewer = viewer_of two_steps;
}

abbrev pestered_soldier : Node pestered
pestered_soldier =
    record (new pestered 4 (1 ∷ 1 ∷ 1 ∷ 1 ∷ 1 ∷ 1 ∷ []) mock_network_new mock_motor_new
      (record { flags = 0 }) mock_gpio_new) {
        scores = some (to_core_id boss, 60) ∷ none ∷ [];
        last_leader_msg = some (OpCode.state_update, 1 ∷ []);
      }

pestered_signs : double_signs pestered boss OpCode.state_update (2 ∷ []) pestered_soldier ≡ true
unfolding double_signs leader from_core_id to_core_id same same_opcode
pestered_signs = refl

on_message-Expelled_example :
    Expelled pestered
      (λ m. m.current_speed ≡ 0)
      (λ m. refl)
      boss
      (record { flags = 0 })
      (ticks pestered 5
        (λ i. micros)
        (on_message pestered micros boss OpCode.state_update (2 ∷ []) pestered_soldier))
on_message-Expelled_example =
    on_message-Expelled pestered (λ m. m.current_speed ≡ 0) (λ m. refl) 5 micros (λ i. micros) boss
      OpCode.state_update (2 ∷ []) pestered_soldier pestered_signs (λ e. cc) (λ network. refl)

exec_script-Finish_example :
    let r =
      run mock_motor mock_gpio
        (viewer_of two_steps)
        []
        mock_gpio_new
        (record { fuel = 100; trap_reason = none })
        mock_motor_new in
    let n1 = exec_script mock_platform micros [] soldier in
    ((r.outcome ≡ Outcome.trap VmError.buffer_overflow)
      × StdFinish mock_platform micros [] r.motor soldier n1)
    ⊎ ((r.outcome ≢ Outcome.trap VmError.buffer_overflow)
        × Finish mock_platform r.outcome script_report r.motor soldier.network soldier n1)
exec_script-Finish_example = exec_script-Finish mock_platform micros [] soldier

abbrev table : List Entry
table = none ∷ some (7 ∷ [], 3) ∷ []

leader-Elects_example : Elects table (leader table)
leader-Elects_example = leader-Elects table

update-score_of_example :
    (score_of (update table (8 ∷ []) 100) (8 ∷ []) ≡ some 100)
    × (score_of (update table (8 ∷ []) 100) (7 ∷ []) ≡ score_of table (7 ∷ []))
    × (length (update table (8 ∷ []) 100) ≡ 2)
update-score_of_example = update-score_of table (8 ∷ []) (7 ∷ []) 100 (inr refl) (λ e. cc)

abbrev full : List Entry
full = some (7 ∷ [], 3) ∷ []

no_entry : has_entry full (8 ∷ []) ≡ false
unfolding same
no_entry = refl

-- A node that has lost its leader for all but two ticks.
abbrev lonely : Node silent_platform
lonely = record {
  id = boss;
  network = mock_network_new;
  motor = mock_motor_new;
  state = record { flags = 0 };
  gpio = mock_gpio_new;
  scores = none ∷ some (to_core_id boss, 2) ∷ [];
  wal = none;
  safe_mode = false;
  disqualified_leader = none;
  last_leader_msg = none;
  leader_active = true;
  recent_gossip = [];
}

ticks-safe_mode_example : (ticks silent_platform 2 (λ i j. 0) lonely).safe_mode ≡ true
ticks-safe_mode_example =
    ticks-safe_mode silent_platform (λ net. refl) 1 (λ i j. 0) lonely (inl refl)
      (tt, (omega arith, tt))
