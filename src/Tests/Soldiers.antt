-- ===== src/Tests/Soldiers.antt =====
-- Concrete inputs for the theorems on runs of a node.
use tiny_io_oi.Prelude.{
  ℕ, zero, suc, List, [], ◌∷◌, ◌++◌, Option, none, some, true, false, ◌≡◌, inl, refl, ap, arith,
  same, length, ◌<◌, ◌^◌,
}
use tiny_io_oi.Prelude.Words.{AreBytes}
use tiny_io_oi.Protocol.{NodeId, OpCode, opcode_from, to_core_id, from_core_id, same_opcode}
use tiny_io_oi.Traits.{Network}
use tiny_io_oi.Drivers.{
  MockMotor, MockState, MockGpio, mock_motor, mock_state, mock_gpio, mock_motor_new, mock_gpio_new,
}
use tiny_io_oi.Scores.{decay, update, leader}
use tiny_io_oi.Log.{Wal}
use tiny_io_oi.Log.Replay.{framed}
use tiny_io_oi.Log.Durable.{WalLaws}
use tiny_io_oi.Node.{Platform, Node, new, with_wal, enter_safe_mode, recover_from_wal}
use tiny_io_oi.Node.Handlers.{dispatch, on_heartbeat, on_state_update}
use tiny_io_oi.Node.Tick.{double_signs, on_message, check_heartbeat, prepare, tick}
use tiny_io_oi.Node.Tick.Stable.{Carries}
use tiny_io_oi.Node.Tick.Silence.{ticks}
use tiny_io_oi.Node.Tick.Resting.{ticks-Off}
use tiny_io_oi.Node.Tick.Durable.{IsDurable, ticks-recover, on_state_update-lost}
use tiny_io_oi.Firmware.{EspNow, esp_platform, boot, rounds}
use tiny_io_oi.Firmware.Rounds.{rounds-low}
use tiny_io_oi.Tests.Boards.{whole_numbers, byte_log, viewer_of, two_steps, silent_adc}

abbrev pub boss : NodeId
boss = 9 ∷ 9 ∷ 9 ∷ 9 ∷ 9 ∷ 9 ∷ []

-- A radio that holds what it is going to receive.
abbrev pub Air : Type 0
Air = List (NodeId × List ℕ)

abbrev pub next_of : Air → Air × Option (NodeId × List ℕ)
next_of [] = ([], none)
next_of (m ∷ rest) = (rest, some m)

abbrev pub air : EspNow Air
air = record {
  peer_exists = λ e mac. true;
  add_peer = λ e mac. e;
  send = λ e mac message. (e, true);
  receive = next_of;
}

-- A leader that signs two different updates.
abbrev two_faced : Air
two_faced = (boss, 0x04 ∷ []) ∷ (boss, 0x30 ∷ 1 ∷ []) ∷ (boss, 0x30 ∷ 2 ∷ []) ∷ []

abbrev stopped_clock : ℕ → ℕ → ℕ
stopped_clock k i = 0

abbrev esp : Platform
esp = esp_platform air whole_numbers byte_log (viewer_of two_steps) 4 (λ bytes. none)

abbrev booted : Node esp
booted = (boot air whole_numbers byte_log (viewer_of two_steps) 4 (λ bytes. none) two_faced).node

booted-safe_mode : (ticks esp 3 stopped_clock booted).safe_mode ≡ true
unfolding tick prepare check_heartbeat on_message double_signs dispatch on_heartbeat on_state_update
    enter_safe_mode decay update leader to_core_id from_core_id opcode_from same same_opcode
booted-safe_mode = refl

ticks-Off_example : (ticks esp 3 stopped_clock booted).motor ≡ false
ticks-Off_example =
    ticks-Off esp (λ led. led ≡ false) (λ led. refl) 3 stopped_clock booted (λ safe. refl)
      booted-safe_mode

rounds-low_example :
    (rounds air whole_numbers byte_log
      (viewer_of two_steps)
      4
      (λ bytes. none)
      3
      (boot air whole_numbers byte_log
        (viewer_of two_steps)
        4
        (λ bytes. none)
        two_faced)).node.motor
    ≡ false
rounds-low_example =
    rounds-low air whole_numbers byte_log (viewer_of two_steps) 4 (λ bytes. none) 3 two_faced
      booted-safe_mode

-- A log whose commands are a delta or a conflict.
abbrev encode : Option ℕ → List ℕ
encode none = []
encode (some delta) = delta ∷ []

abbrev decode : List ℕ → Option (Option ℕ)
decode [] = some none
decode (delta ∷ []) = some (some delta)
decode _ = none

abbrev pub delta_log : Wal (List ℕ) (Option ℕ)
delta_log = record {
  append = λ bytes cmd. (bytes ++ framed (encode cmd), true);
  read_all = λ bytes. some bytes;
  decode = decode;
  conflict = λ reason. none;
  delta_insert = λ delta. some delta;
  delta_of = λ cmd. cmd;
}

encode-short : (cmd : Option ℕ) → length (encode cmd) < 2 ^ 32
encode-short none = omega arith
encode-short (some delta) = omega arith

decode-encode : (cmd : Option ℕ) → decode (encode cmd) ≡ some cmd
decode-encode none = refl
decode-encode (some delta) = refl

delta_log-WalLaws : WalLaws delta_log
delta_log-WalLaws = record {
  encode = encode;
  encode-lt = encode-short;
  decode-encode = decode-encode;
  read_all-append = λ wal bytes cmd ok e. ap (grown cmd) e;
  delta_of-insert = λ delta. refl;
  delta_of-conflict = λ reason. refl;
}
  where
    grown : Option ℕ → Option (List ℕ) → Option (List ℕ)
    grown cmd none = none
    grown cmd (some bytes) = some (bytes ++ framed (encode cmd))

-- A network of which the n-th message is fixed: a heartbeat, an update, and then silence.
abbrev message : ℕ → Option (NodeId × OpCode × List ℕ)
message zero = some (boss, OpCode.heartbeat, [])
message (suc zero) = some (boss, OpCode.state_update, 5 ∷ [])
message (suc (suc k)) = none

abbrev numbered : Network ℕ
numbered = record {
  broadcast = λ k opcode payload. (k, true);
  receive = λ k size. (suc k, message k);
}

abbrev logging : Platform
logging = record {
  board = record {
    M = MockMotor;
    A = MockGpio;
    N = ℕ;
    motor_ops = mock_motor;
    adc_ops = silent_adc;
    network_ops = numbered;
    floats = whole_numbers;
    patience = 4;
    ptp = true;
  };
  S = MockState;
  W = List ℕ;
  C = Option ℕ;
  gpio_ops = mock_gpio;
  state_ops = mock_state;
  wal_ops = delta_log;
  viewer = viewer_of two_steps;
}

message-AreBytes : (k : ℕ) → Carries logging AreBytes (message k)
message-AreBytes zero = tt
message-AreBytes (suc zero) = (omega arith, tt)
message-AreBytes (suc (suc k)) = tt

abbrev fresh : List ℕ → Node logging
fresh wal =
    with_wal logging
      (new logging 2 soldier_id 0 mock_motor_new (record { flags = 0 }) mock_gpio_new) wal
  where
    soldier_id : NodeId
    soldier_id = 2 ∷ 2 ∷ 2 ∷ 2 ∷ 2 ∷ 2 ∷ []

fresh-IsDurable :
    IsDurable logging delta_log-WalLaws (λ wal cmd. refl) (record { flags = 0 }) (fresh [])
fresh-IsDurable = record {
  wal = [];
  has_wal = refl;
  holds = record { records = []; readable = refl; short = tt; leads = refl };
}

fresh-wal : (ticks logging 2 stopped_clock (fresh [])).wal ≡ some (1 ∷ 0 ∷ 0 ∷ 0 ∷ 5 ∷ [])
unfolding tick prepare check_heartbeat on_message double_signs dispatch on_heartbeat on_state_update
    enter_safe_mode decay update leader to_core_id from_core_id same same_opcode
fresh-wal = refl

ticks-recover_example :
    (recover_from_wal logging (fresh (1 ∷ 0 ∷ 0 ∷ 0 ∷ 5 ∷ 1 ∷ 0 ∷ []))).state
    ≡ (ticks logging 2 stopped_clock (fresh [])).state
ticks-recover_example =
    ticks-recover logging delta_log-WalLaws (λ wal cmd. refl) (record { flags = 0 }) 2 stopped_clock
      (fresh []) (fresh (1 ∷ 0 ∷ 0 ∷ 0 ∷ 5 ∷ 1 ∷ 0 ∷ [])) (1 ∷ 0 ∷ 0 ∷ 0 ∷ 5 ∷ [])
      (1 ∷ 0 ∷ 0 ∷ 0 ∷ 5 ∷ 1 ∷ 0 ∷ []) (1 ∷ 0 ∷ 0 ∷ 0 ∷ 5 ∷ []) (1 ∷ 0 ∷ [])
      (λ k. message-AreBytes k) fresh-IsDurable fresh-wal refl refl (inl (omega arith)) refl refl

-- The same platform with a log that refuses every append.
abbrev refusing : Platform
refusing = record {
  board = logging.board;
  S = MockState;
  W = List ℕ;
  C = Option ℕ;
  gpio_ops = mock_gpio;
  state_ops = mock_state;
  wal_ops = record delta_log { append = λ bytes cmd. (bytes, false) };
  viewer = viewer_of two_steps;
}

abbrev unlogged : Node refusing
unlogged =
    with_wal refusing (new refusing 2 boss 0 mock_motor_new (record { flags = 0 }) mock_gpio_new) []

unlogged_log : unlogged.wal ≡ (on_state_update refusing (5 ∷ []) unlogged).wal
unfolding on_state_update
unlogged_log = refl

on_state_update-lost_example :
    ((on_state_update refusing (5 ∷ []) unlogged).state ≡ record { flags = 5 })
    × ((recover_from_wal refusing unlogged).state ≡ record { flags = 0 })
on_state_update-lost_example =
    on_state_update-lost refusing (record { flags = 0 }) unlogged unlogged [] [] 5 [] []
      (record { records = []; readable = refl; short = tt; leads = refl }) refl refl refl refl
      (inl (omega arith)) unlogged_log refl
