-- ===== src/Tests/Links.antt =====
-- Concrete inputs for the theorems on the core's gateway, the radio of the firmware and the tools.
use tiny_io_oi.Prelude.{
  ℕ, ◌^◌, ◌-◌, List, [], ◌∷◌, Option, none, some, true, ◌≡◌, refl, arith, All, map,
}
use tiny_io_oi.Protocol.{OpCode, same_opcode}
use tiny_io_oi.Drivers.{
  MockNetwork, MockUart, mock_network, mock_uart, mock_network_new, mock_motor, mock_gpio,
  mock_motor_new, mock_gpio_new,
}
use tiny_io_oi.Vm.{VmError, Outcome, new, exec_step, round, run_from, run}
use tiny_io_oi.Verifier.{verify_vm_script}
use tiny_io_oi.Gateway.{Archive, write_frame}
use tiny_io_oi.Gateway.Delivery.{IsJunk}
use tiny_io_oi.CoreGateway.{CoreBridge, read_uart, receive_byte, tick}
use tiny_io_oi.CoreGateway.Outgoing.{delivery, ticks}
use tiny_io_oi.CoreGateway.Relay.{
  Message, frames_of, line_of, broadcast_all, waiting, IsArchived, read_uart-relays,
}
use tiny_io_oi.CoreGateway.HostParser.{host_decoder}
use tiny_io_oi.CoreGateway.HostDecoder.{host_decoder-DecoderLaws}
use tiny_io_oi.Tools.{listen, blink_script}
use tiny_io_oi.Tools.Geopin.{reported, bytes_of, listen-reported}
use tiny_io_oi.Tools.Alarm.{ticks-listen}
use tiny_io_oi.Tests.Boards.{viewer_of}

-- An archive that is the payload itself.
abbrev pub bare : Archive
bare = record { check = λ frame. some frame; to_bytes = λ sender payload. some payload }

abbrev update : Message
update = record {
  sender = 1 ∷ [];
  opcode = OpCode.state_update;
  payload = 6 ∷ [];
  serialized = 0x30 ∷ 6 ∷ [];
}

abbrev updates : List Message
updates =
    update
    ∷ record {
      sender = 1 ∷ [];
      opcode = OpCode.task_dispatch;
      payload = [];
      serialized = 0x20 ∷ [];
    }
    ∷ []

updates-IsArchived : All (IsArchived bare (2 ^ 16 - 1)) updates
updates-IsArchived = (
  record { written = refl; read = refl; short = omega arith },
  (record { written = refl; read = refl; short = omega arith }, tt),
)

read_uart-relays_example :
    (s : List ℕ) × IsJunk s
    × (read_uart mock_network mock_uart bare host_decoder 99
          (waiting (line_of updates) [] [] mock_network_new)
        ≡ waiting [] [] s (broadcast_all mock_network updates mock_network_new))
read_uart-relays_example =
    read_uart-relays mock_network bare host_decoder (2 ^ 16 - 1) IsJunk host_decoder-DecoderLaws
      updates [] 99 [] mock_network_new (record { noise = tt; short = omega arith })
      updates-IsArchived (omega arith)

-- A report after a read that failed.
abbrev reads : List (Option ℕ)
reads = some 0xDE ∷ none ∷ some 0xAD ∷ some 0 ∷ some 2 ∷ some 0xFF ∷ some 3 ∷ []

reads_reported :
    (listen bare reads []).exception_found
    ≡ reported bare (frames_of host_decoder (bytes_of bare reads) []).1
reads_reported = listen-reported bare reads []

-- A gateway whose radio delivers an update and an exception, while it reads a byte from its line.
abbrev alarm : List Message
alarm =
    update
    ∷ record {
      sender = 2 ∷ [];
      opcode = OpCode.exception;
      payload = 0xFF ∷ 3 ∷ [];
      serialized = 0xFF ∷ 0xFF ∷ 3 ∷ [];
    }
    ∷ []

abbrev relay : CoreBridge MockNetwork MockUart (List ℕ)
relay = record {
  network = record { incoming = map delivery alarm; sent = [] };
  uart = record { incoming = 7 ∷ []; written = [] };
  decoder = [];
}

abbrev alarm_reads : List (Option ℕ)
alarm_reads = none ∷ map (λ b. some b) (line_of alarm)

alarm-IsArchived : All (IsArchived bare (2 ^ 16 - 1)) alarm
alarm-IsArchived = (
  record { written = refl; read = refl; short = omega arith },
  (record { written = refl; read = refl; short = omega arith }, tt),
)

alarm_read : bytes_of bare alarm_reads ≡ (ticks bare host_decoder (4 ∷ 4 ∷ []) relay).uart.written
unfolding tick read_uart receive_byte write_frame
alarm_read = refl

ticks-listen_example : (listen bare alarm_reads []).exception_found ≡ true
unfolding same_opcode
ticks-listen_example =
    ticks-listen bare host_decoder alarm (4 ∷ 4 ∷ []) alarm_reads relay refl
      (record { delivers = refl; wrote = refl }) (omega arith, (omega arith, tt)) alarm-IsArchived
      alarm_read

-- The script of the tool is safe for the verifier, and more than a node's 100 units of fuel.
blink_script_starves :
    ((verify_vm_script blink_script 1000).safe ≡ true)
    × ((run mock_motor mock_gpio
          (viewer_of blink_script)
          []
          mock_gpio_new
          (new 100)
          mock_motor_new).outcome
        ≡ Outcome.trap VmError.out_of_fuel)
unfolding verify_vm_script run run_from round exec_step
blink_script_starves = (refl, refl)
