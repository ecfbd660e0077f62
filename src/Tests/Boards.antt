-- ===== src/Tests/Boards.antt =====
-- A board with mock drivers, and numbers in place of floats, for the tests.
use tiny_io_oi.Prelude.{
  true, ℕ, ◌+◌, ◌-◌, ◌*◌, ◌/◌, ◌^◌, List, [], ◌∷◌, ◌++◌, Option, none, some, replicate, length,
  get_elem?, min, ltb, arith, refl,
}
use tiny_io_oi.Prelude.Int.{pos, magnitude}
use tiny_io_oi.Floats.{Floats}
use tiny_io_oi.Drivers.{
  MockMotor, MockNetwork, MockGpio, MockState, mock_motor, mock_network, mock_gpio, mock_state,
}
use tiny_io_oi.Traits.{Adc}
use tiny_io_oi.Vm.{VmStep, VmScriptViewer}
use tiny_io_oi.Vm.Viewer.{Decodes}
use tiny_io_oi.Board.{Board}
use tiny_io_oi.Log.{Wal}
use tiny_io_oi.Node.{Platform}

abbrev pub whole_numbers : Floats
whole_numbers = record {
  F = ℕ;
  lit = λ n. n;
  pi = 3;
  of_int = magnitude;
  add = λ a b. a + b;
  sub = λ a b. a - b;
  mul = λ a b. a * b;
  div = λ a b. a / b;
  neg = λ a. a;
  lt = ltb;
  min = min;
  sqrtf = λ a. a;
  cosf = λ a. 1;
  sinf = λ a. 0;
  atan2f = λ a b. a;
  fabsf = λ a. a;
  to_u16 = λ a. min a (2 ^ 16 - 1);
  to_u32 = λ a. min a (2 ^ 32 - 1);
  to_i16 = λ a. pos (min a (2 ^ 15 - 1));
  to_u16-lt = λ a. omega arith;
  to_u32-lt = λ a. omega arith;
}

abbrev pub silent_adc : Adc MockGpio
silent_adc = record { read_adc_buffer = λ g pin n. replicate n (pos 0) }

abbrev pub mock_board : Board
mock_board = record {
  M = MockMotor;
  A = MockGpio;
  N = MockNetwork;
  motor_ops = mock_motor;
  adc_ops = silent_adc;
  network_ops = mock_network;
  floats = whole_numbers;
  patience = 4;
  ptp = true;
}

-- A viewer that knows one script: it sets the speed 40 on channel 2 and then waits for 7 ticks.
abbrev pub two_steps : List VmStep
two_steps = VmStep.set_pwm 2 40 ∷ VmStep.delay 7 ∷ []

abbrev pub late_steps : List VmStep
late_steps = VmStep.delay 7 ∷ VmStep.set_pwm 2 40 ∷ []

abbrev pub viewer_of : List VmStep → VmScriptViewer
viewer_of steps = record {
  step_count = λ script. length steps;
  get_step = λ script i. get_elem? steps i;
}

pub viewer_of-Decodes :
    (steps : List VmStep) (script : List ℕ) → Decodes (viewer_of steps) script steps
viewer_of-Decodes steps script = record { counted = refl; indexed = λ i. refl }

-- A log that keeps the bytes, with the commands of one byte.
abbrev pub one_byte : List ℕ → Option ℕ
one_byte (b ∷ []) = some b
one_byte _ = none

abbrev pub byte_log : Wal (List ℕ) ℕ
byte_log = record {
  append = λ bytes cmd. (bytes ++ 1 ∷ 0 ∷ 0 ∷ 0 ∷ cmd ∷ [], true);
  read_all = λ bytes. some bytes;
  decode = one_byte;
  conflict = λ reason. 0;
  delta_insert = λ delta. delta;
  delta_of = λ cmd. some cmd;
}

abbrev pub mock_platform : Platform
mock_platform = record {
  board = mock_board;
  S = MockState;
  W = List ℕ;
  C = ℕ;
  gpio_ops = mock_gpio;
  state_ops = mock_state;
  wal_ops = byte_log;
  viewer = viewer_of two_steps;
}

-- The same platform with a network that delivers nothing.
abbrev pub silent_platform : Platform
silent_platform = record {
  board = record {
    M = MockMotor;
    A = MockGpio;
    N = MockNetwork;
    motor_ops = mock_motor;
    adc_ops = silent_adc;
    network_ops = record {
      broadcast = λ n opcode payload. (n, true);
      receive = λ n size. (n, none);
    };
    floats = whole_numbers;
    patience = 4;
    ptp = true;
  };
  S = MockState;
  W = List ℕ;
  C = ℕ;
  gpio_ops = mock_gpio;
  state_ops = mock_state;
  wal_ops = byte_log;
  viewer = viewer_of two_steps;
}
