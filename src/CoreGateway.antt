-- ===== src/CoreGateway.antt =====
-- crates/tiny-io-oi/src/gateway.rs: the bridge of the core library. It differs from the host's in
-- that a frame decoder of io_oi_core, a parameter here, finds the frames in the bytes of the line.
pub mod Relay
pub mod HostParser
pub mod HostDecoder
pub mod Outgoing
use tiny_io_oi.Prelude.{ℕ, zero, suc, List, Option, none, some}
use tiny_io_oi.Protocol.{NodeId, OpCode}
use tiny_io_oi.Traits.{Network, Uart}
use tiny_io_oi.Gateway.{Archive, forward, write_frame}

-- `io_oi_core::embedded::FramingDecoder<0xDE, 0xAD, 256>`.
pub record FramingDecoder (D : Type 0) : Type 0 where
  pub fresh : D
  pub feed_byte : D → ℕ → D × Option (List ℕ)

pub record CoreBridge (N U D : Type 0) : Type 0 where
  pub network : N
  pub uart : U
  pub decoder : D

module _ {N U D : Type 0} (network_ops : Network N) (uart_ops : Uart U) (archive : Archive)
    (decoder_ops : FramingDecoder D) where
  abbrev pub new : N → U → CoreBridge N U D
  new network uart = record { network = network; uart = uart; decoder = decoder_ops.fresh }

  -- `check_archived_root` and the broadcast, if the decoder has completed a frame.
  abbrev pub forward_if : Option (List ℕ) → N → N
  forward_if none network = network
  forward_if (some frame) network = forward network_ops uart_ops archive frame network

  -- The body of the reading loop.
  unfoldable pub receive_byte : ℕ → CoreBridge N U D → CoreBridge N U D
  receive_byte b g =
      let (decoder, frame) = decoder_ops.feed_byte g.decoder b in
      record g { decoder = decoder; network = forward_if frame g.network }

  -- `while let Some(b) = self.uart.read()`, for at most `fuel` bytes.
  unfoldable pub read_uart : ℕ → CoreBridge N U D → CoreBridge N U D
  unfolding receive_byte
  read_uart zero g = g
  read_uart (suc fuel) g =
      let (uart, byte) = uart_ops.read g.uart in
      elim byte [
        | none ↦ record g { uart = uart }
        | some b ↦ read_uart fuel (receive_byte b (record g { uart = uart }))
      ]

  -- A radio message, packed and written as the host's bridge does.
  abbrev pub send_message : Option (NodeId × OpCode × List ℕ) → CoreBridge N U D → CoreBridge N U D
  send_message none g = g
  send_message (some (sender, opcode, payload)) g = record g {
    uart = write_frame network_ops uart_ops archive sender opcode payload g.uart;
  }

  unfoldable pub tick : ℕ → CoreBridge N U D → CoreBridge N U D
  unfolding read_uart
  tick fuel g =
      let g1 = read_uart fuel g in
      let (network, message) = network_ops.receive g1.network 256 in
      send_message message (record g1 { network = network })
