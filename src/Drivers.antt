-- ===== src/Drivers.antt =====
-- crates/tiny-io-oi/src/drivers.rs: the mock drivers, which the host library runs bytecode against.
-- The `println!` lines are left out.
pub mod History
use Prim.Native.Nat.{bit_xor}
use tiny_io_oi.Prelude.{
  ℕ, zero, suc, List, [], ◌∷◌, ◌++◌, Option, none, some, true, min, length, take, get_or, set,
  replicate, ltb, ◌==◌, if◌then◌else◌,
}
use tiny_io_oi.Prelude.Int.{ℤ}
use tiny_io_oi.Floats.{Floats}
use tiny_io_oi.Protocol.{NodeId, OpCode}
use tiny_io_oi.Traits.{Network, Uart, Motor, default_fade_to, Gpio, Adc, IoOiState}

pub record MockNetwork : Type 0 where
  pub incoming : List (NodeId × OpCode × List ℕ)
  pub sent : List (OpCode × List ℕ)

abbrev pub mock_network_new : MockNetwork
mock_network_new = record { incoming = []; sent = [] }

abbrev pub simulate_receive : MockNetwork → NodeId → OpCode → List ℕ → MockNetwork
simulate_receive n sender opcode payload = record n {
  incoming = n.incoming ++ (sender, opcode, payload) ∷ [];
}

-- `pop_front`, with the payload cut at the length of the buffer.
abbrev receive_from :
    MockNetwork
    → List (NodeId × OpCode × List ℕ)
    → ℕ
    → MockNetwork × Option (NodeId × OpCode × List ℕ)
receive_from n [] size = (n, none)
receive_from n ((id, opcode, payload) ∷ rest) size =
    (record n { incoming = rest }, some (id, opcode, take (min (length payload) size) payload))

abbrev pub mock_network : Network MockNetwork
mock_network = record {
  broadcast = λ n opcode payload. (record n { sent = n.sent ++ (opcode, payload) ∷ [] }, true);
  receive = λ n size. receive_from n n.incoming size;
}

pub record MockMotor : Type 0 where
  pub current_speed : ℕ
  pub history : List ℕ

abbrev pub mock_motor_new : MockMotor
mock_motor_new = record { current_speed = 0; history = [] }

abbrev pub mock_set_speed : MockMotor → ℕ → MockMotor
mock_set_speed m speed = record { current_speed = speed; history = m.history ++ speed ∷ [] }

abbrev pub mock_motor : Motor MockMotor
mock_motor = record {
  set_speed = mock_set_speed;
  stop = λ m. record { current_speed = 0; history = m.history ++ 0 ∷ [] };
  fade_to = default_fade_to mock_set_speed;
}

pub record MockState : Type 0 where
  pub flags : ℕ

abbrev pub mock_state : IoOiState MockState
mock_state = record {
  to_bytes = λ s. s.flags ∷ [];
  apply_delta = λ s delta_mask. record { flags = bit_xor s.flags delta_mask };
}

pub record MockGpio : Type 0 where
  pub pins : List ℕ

abbrev pub mock_gpio_new : MockGpio
mock_gpio_new = record { pins = replicate 32 0 }

abbrev pub set_pin : MockGpio → ℕ → ℕ → MockGpio
set_pin g pin val = if ltb pin (length g.pins) then record { pins = set g.pins pin val } else g

abbrev pub mock_gpio : Gpio MockGpio
mock_gpio = record {
  read_pin = λ g pin. if ltb pin (length g.pins) then get_or g.pins pin 0 else 0;
}

-- `impl Adc for MockGpio`: a sine wave with the frequency of the pin, `n` samples left from `i` on.
abbrev pub mock_frequency : ℕ → ℕ
mock_frequency pin = if pin == 3 then 125 else (if pin == 5 then 45 else 10)

abbrev pub mock_amplitude : (floats : Floats) → MockGpio → ℕ → floats.F
mock_amplitude floats g pin =
    if ltb pin (length g.pins) then floats.lit (get_or g.pins pin 0) else floats.lit 1

abbrev pub mock_samples : Floats → MockGpio → ℕ → ℕ → ℕ → List ℤ
mock_samples floats g pin zero i = []
mock_samples floats g pin (suc n) i =
    let t = floats.div (floats.lit i) (floats.lit 1000) in
    let level =
      floats.mul (mock_amplitude floats g pin) (floats.div (floats.lit 3) (floats.lit 2)) in
    let turn = floats.mul (floats.lit 2) floats.pi in
    let phase = floats.mul (floats.mul turn (floats.lit (mock_frequency pin))) t in
    floats.to_i16 (floats.mul level (floats.sinf phase)) ∷ mock_samples floats g pin n (suc i)

abbrev pub mock_adc : Floats → Adc MockGpio
mock_adc floats = record { read_adc_buffer = λ g pin n. mock_samples floats g pin n 0 }

pub record MockUart : Type 0 where
  pub incoming : List ℕ
  pub written : List ℕ

abbrev read_from : MockUart → List ℕ → MockUart × Option ℕ
read_from u [] = (u, none)
read_from u (b ∷ rest) = (record u { incoming = rest }, some b)

abbrev pub mock_uart_new : MockUart
mock_uart_new = record { incoming = []; written = [] }

abbrev pub simulate_read : MockUart → List ℕ → MockUart
simulate_read u bytes = record u { incoming = u.incoming ++ bytes }

abbrev pub mock_uart : Uart MockUart
mock_uart = record {
  read = λ u. read_from u u.incoming;
  write = λ u bytes. (record u { written = u.written ++ bytes }, true);
}
