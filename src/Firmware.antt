-- ===== src/Firmware.antt =====
-- firmware/esp32/src/main.rs: the drivers of an ESP32 and the program of a soldier. What esp-wifi and
-- esp-hal do is a parameter: `EspNow` and the lines. An output pin is its level. The build here has
-- neither of the features `gateway` and `roadshow`; Firmware.Builds has those that have.
pub mod Radio
pub mod Delivery
pub mod Rounds
pub mod Mission
pub mod Builds
use tiny_io_oi.Router.{new as new_router}
use tiny_io_oi.Prelude.{
  ℕ, zero, suc, ◌+◌, List, [], ◌∷◌, Option, none, some, Bool, false, min, length, take, ltb,
  if◌then◌else◌,
}
use tiny_io_oi.Prelude.Int.{ℤ}
use tiny_io_oi.Floats.{Floats}
use tiny_io_oi.Protocol.{NodeId, OpCode, opcode_byte, opcode_from}
use tiny_io_oi.Traits.{Network, Uart, Motor, default_fade_to, Gpio, Adc, IoOiState}
use tiny_io_oi.Vm.{VmScriptViewer}
use tiny_io_oi.Log.{Wal}
use tiny_io_oi.Node.{Platform, Node, new}
use tiny_io_oi.Node.Tick.{tick}
use tiny_io_oi.Router.{WaveformCmd, Outputs, HardwareRouter, bind_digital, apply_waveforms}

-- `EspState` has no fields.
pub data EspState : Type 0 where
  esp_state : EspState

abbrev pub esp_state_ops : IoOiState EspState
esp_state_ops = record { to_bytes = λ s. []; apply_delta = λ s delta_mask. s }

pub data EspGpio : Type 0 where
  esp_gpio : EspGpio

abbrev pub esp_gpio_ops : Gpio EspGpio
esp_gpio_ops = record { read_pin = λ g pin. 1 }

-- The 20 Hz wave, `n` samples left from `i` on.
abbrev pub esp_samples : Floats → ℕ → ℕ → List ℤ
esp_samples floats zero i = []
esp_samples floats (suc n) i =
    let t = floats.div (floats.lit i) (floats.lit 1000) in
    let turn = floats.mul (floats.lit 2) floats.pi in
    let wave = floats.sinf (floats.mul (floats.mul turn (floats.lit 20)) t) in
    floats.to_i16 (floats.mul wave (floats.lit 5000)) ∷ esp_samples floats n (suc i)

abbrev pub esp_adc : Floats → Adc EspGpio
esp_adc floats = record { read_adc_buffer = λ g pin n. esp_samples floats n 0 }

-- The serial lines of esp-hal: is a byte ready, a read of one byte with what it returned in `Ok`, and
-- a write with whether it was `Ok`.
pub record SerialPort (L : Type 0) : Type 0 where
  pub read_ready : L → Bool
  pub read : L → L × Option (List ℕ)
  pub write : L → List ℕ → L × Bool

-- `Ok(1) => Some(buf[0]), _ => None`.
abbrev one_byte : Option (List ℕ) → Option ℕ
one_byte (some (b ∷ [])) = some b
one_byte _ = none

abbrev pub esp_uart : {L : Type 0} → SerialPort L → Uart L
esp_uart port = record {
  read = λ l. if port.read_ready l then ((port.read l).0, one_byte (port.read l).1) else (l, none);
  write = port.write;
}

-- The USB line gives one byte or an error.
pub record UsbSerialJtag (L : Type 0) : Type 0 where
  pub read_byte : L → L × Option ℕ
  pub write_all : L → List ℕ → L × Bool

abbrev pub esp_usb : {L : Type 0} → UsbSerialJtag L → Uart L
esp_usb usb = record { read = usb.read_byte; write = usb.write_all }

-- `esp_wifi::esp_now::EspNow`; `send` includes the wait for the transmission.
pub record EspNow (E : Type 0) : Type 0 where
  pub peer_exists : E → NodeId → Bool
  pub add_peer : E → NodeId → E
  pub send : E → NodeId → List ℕ → E × Bool
  pub receive : E → E × Option (NodeId × List ℕ)

abbrev pub broadcast_mac : NodeId
broadcast_mac = 0xFF ∷ 0xFF ∷ 0xFF ∷ 0xFF ∷ 0xFF ∷ 0xFF ∷ []

module _ {E : Type 0} (esp_now : EspNow E) where
  abbrev pub with_peer : E → E
  with_peer e = if esp_now.peer_exists e broadcast_mac then e else esp_now.add_peer e broadcast_mac

  -- `broadcast`: a message has at most 256 bytes, with the opcode.
  unfoldable pub esp_broadcast : E → OpCode → List ℕ → E × Bool
  esp_broadcast e opcode payload =
      if ltb 256 (length payload + 1)
      then (e, false)
      else esp_now.send (with_peer e) broadcast_mac (opcode_byte opcode ∷ payload)

  -- The `if let` of `receive`, on what was received; an empty message is dropped.
  abbrev pub unpack : Option (NodeId × List ℕ) → ℕ → Option (NodeId × OpCode × List ℕ)
  unpack none size = none
  unpack (some (src, [])) size = none
  unpack (some (src, b ∷ payload)) size =
      some (src, opcode_from b, take (min (length payload) size) payload)

  abbrev pub esp_network : Network E
  esp_network = record {
    broadcast = esp_broadcast;
    receive = λ e size. let (e', received) = esp_now.receive e in (e', unpack received size);
  }

-- `EspMotor`: the level of its LED.
abbrev pub esp_motor : Motor Bool
esp_motor = record {
  set_speed = λ led speed. ltb 0 speed;
  stop = λ led. false;
  fade_to = default_fade_to (λ led speed. ltb 0 speed);
}

-- The blinks of the boot: the LED goes high, and low again.
abbrev pub blink : ℕ → Bool → Bool
blink zero led = led
blink (suc n) led = blink n false

-- `EspPin` as a digital output, and `EspMotor` as a PWM output.
abbrev pub esp_outputs : Outputs Bool Bool
esp_outputs = record { set_level = λ pin high. high; set_duty = λ led duty. ltb 0 duty }

-- The crate is built without its feature `ptp`: `get_time_us` is 0.
abbrev pub no_clock : ℕ → ℕ
no_clock i = 0

module _ {E W C : Type 0} (esp_now : EspNow E) (floats : Floats) (wal_ops : Wal W C)
    (viewer : VmScriptViewer) (patience : ℕ)
    (check_matrix : List ℕ → Option (List WaveformCmd)) where
  -- The type parameters of the soldier's `TinyNode`. It has no log.
  abbrev pub esp_platform : Platform
  esp_platform = record {
    board = record {
      M = Bool;
      A = EspGpio;
      N = E;
      motor_ops = esp_motor;
      adc_ops = esp_adc floats;
      network_ops = esp_network esp_now;
      floats = floats;
      patience = patience;
      ptp = false;
    };
    S = EspState;
    W = W;
    C = C;
    gpio_ops = esp_gpio_ops;
    state_ops = esp_state_ops;
    wal_ops = wal_ops;
    viewer = viewer;
  }

  pub record Soldier : Type 0 where
    pub node : Node esp_platform
    pub router : HardwareRouter Bool Bool

  abbrev pub soldier_mac : NodeId
  soldier_mac = 2 ∷ 2 ∷ 2 ∷ 2 ∷ 2 ∷ 2 ∷ []

  -- `main` up to its loop.
  abbrev pub boot : E → Soldier
  boot network = record {
    node = new esp_platform 2 soldier_mac network (blink 5 false) esp_state esp_gpio;
    router = (bind_digital esp_outputs 3 false (new_router 2)).0;
  }

  -- One round of the loop.
  abbrev pub round : Soldier → Soldier
  round s = record {
    node = tick esp_platform no_clock s.node;
    router = (apply_waveforms esp_outputs check_matrix [] s.router).0;
  }

  -- The loop, after a number of rounds.
  abbrev pub rounds : ℕ → Soldier → Soldier
  rounds zero s = s
  rounds (suc k) s = rounds k (round s)
