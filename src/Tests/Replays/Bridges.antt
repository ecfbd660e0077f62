-- ===== src/Tests/Replays/Bridges.antt =====
-- crates/tiny-io-oi/src/lib.rs: the tests of the gateway bridge and of the hardware router.
use tiny_io_oi.Prelude.{
  ℕ, ◌+◌, List, [], ◌∷◌, ◌++◌, Option, none, some, Bool, true, false, ◌≡◌, refl, ◌==◌, leb, length,
  get_or, drop, same,
}
use tiny_io_oi.Prelude.Words.{from_be16}
use tiny_io_oi.Protocol.{NodeId, OpCode, opcode_byte, opcode_from, same_opcode}
use tiny_io_oi.Drivers.{
  MockNetwork, MockUart, mock_network, mock_network_new, mock_uart, mock_uart_new, simulate_read,
  simulate_receive,
}
use tiny_io_oi.Gateway.{Archive, header, forward, write_frame}
use tiny_io_oi.CoreGateway.{CoreBridge, new, tick, read_uart, receive_byte}
use tiny_io_oi.CoreGateway.HostParser.{host_decoder}
use tiny_io_oi.Router.{
  Waveform, WaveformCmd, Outputs, HardwareRouter, Table, new as new_router, bind, bind_digital,
  bind_pwm, route, apply_cmd, apply_cmds, apply_waveforms,
}
use tiny_io_oi.Tests.Replays.{all_of, only_sent}

-- A `GatewayFrame` as its six bytes of address and its payload.
abbrev payload_of : List ℕ → Option (List ℕ)
payload_of (a ∷ b ∷ c ∷ d ∷ e ∷ f ∷ payload) = some payload
payload_of _ = none

abbrev frames : Archive
frames = record { check = payload_of; to_bytes = λ sender payload. some (sender ++ payload) }

abbrev ticked : CoreBridge MockNetwork MockUart (List ℕ) → CoreBridge MockNetwork MockUart (List ℕ)
ticked g = tick mock_network mock_uart frames host_decoder 99 g

abbrev is_payload : List ℕ → Option (List ℕ) → Bool
is_payload payload none = false
is_payload payload (some p) = same p payload

abbrev test_gateway_bridge_flow : Bool
test_gateway_bridge_flow =
    let mac : NodeId = 0x11 ∷ 0x22 ∷ 0x33 ∷ 0x44 ∷ 0x55 ∷ 0x66 ∷ [] in
    let serialized = mac ++ opcode_byte OpCode.task_dispatch ∷ 1 ∷ 2 ∷ [] in
    let line = header (length serialized) ++ serialized in
    let g1 = ticked (
      new mock_network mock_uart frames host_decoder mock_network_new
        (simulate_read mock_uart_new line)) in
    let sender : NodeId = 0xAA ∷ 0xBB ∷ 0xCC ∷ 0xDD ∷ 0xEE ∷ 0xFF ∷ [] in
    let g2 = ticked (record g1 {
      network = simulate_receive g1.network sender OpCode.exception (0xFF ∷ 2 ∷ []);
    }) in
    let written = g2.uart.written in
    let uart_len = from_be16 (get_or written 2 0) (get_or written 3 0) in
    all_of (
      only_sent OpCode.task_dispatch (1 ∷ 2 ∷ []) g1.network.sent
      ∷ leb 4 (length written)
      ∷ (get_or written 0 0 == 0xDE)
      ∷ (get_or written 1 0 == 0xAD)
      ∷ (length written == 4 + uart_len)
      ∷ is_payload (opcode_byte OpCode.exception ∷ 0xFF ∷ 2 ∷ []) (payload_of (drop 4 written))
      ∷ same (drop 4 written) (sender ++ opcode_byte OpCode.exception ∷ 0xFF ∷ 2 ∷ [])
      ∷ [])

gateway_bridge_flow_passes : test_gateway_bridge_flow ≡ true
unfolding tick read_uart receive_byte same forward write_frame same_opcode opcode_from
gateway_bridge_flow_passes = refl

-- `MockPin` and `MockPwm`: the level, and the duty.
abbrev mock_outputs : Outputs Bool ℕ
mock_outputs = record { set_level = λ pin high. high; set_duty = λ pwm duty. duty }

abbrev first_of : {D : Type 0} → D → Table D → D
first_of default (some (ch, d) ∷ rest) = d
first_of default _ = default

-- The matrix stands for its archive.
abbrev test_hardware_router : Bool
test_hardware_router =
    let empty : HardwareRouter Bool ℕ = new_router 2 in
    let (r1, bound1) = bind_digital mock_outputs 3 false empty in
    let (r2, bound2) = bind_pwm mock_outputs 5 0 r1 in
    let matrix : List WaveformCmd =
      record { channel = 3; waveform = Waveform.digital_out 1 }
      ∷ record { channel = 5; waveform = Waveform.pwm_8bit 128 }
      ∷ [] in
    let (r3, applied) = apply_waveforms mock_outputs (λ serialized. some matrix) [] r2 in
    all_of (
      bound1
      ∷ bound2
      ∷ applied
      ∷ first_of false r3.digital_pins
      ∷ (first_of 0 r3.pwm_channels == 128)
      ∷ [])

hardware_router_passes : test_hardware_router ≡ true
unfolding apply_waveforms apply_cmds apply_cmd bind route
hardware_router_passes = refl
