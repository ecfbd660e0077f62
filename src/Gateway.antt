-- ===== src/Gateway.antt =====
-- crates/tiny-io-oi-host/src/gateway.rs: the bridge between a serial line and the radio. The archive
-- format of a frame (rkyv) is a parameter.
pub mod Pending
pub mod Delivery
use tiny_io_oi.Prelude.{
  ℕ, zero, suc, ◌+◌, ◌/◌, ◌%◌, ◌^◌, List, [], ◌∷◌, ◌++◌, Option, none, some, Bool, ◌&&◌, leb, ◌==◌,
  if◌then◌else◌, length, get_or, take, drop,
}
use tiny_io_oi.Prelude.Words.{from_be16}
use tiny_io_oi.Protocol.{NodeId, OpCode, opcode_byte, opcode_from}
use tiny_io_oi.Traits.{Network, Uart}

-- `check_archived_root::<GatewayFrame>`, of which the payload is used, and `rkyv::to_bytes`.
pub record Archive : Type 0 where
  pub check : List ℕ → Option (List ℕ)
  pub to_bytes : NodeId → List ℕ → Option (List ℕ)

pub record GatewayBridge (N U : Type 0) : Type 0 where
  pub network : N
  pub uart : U
  pub rx_buf : List ℕ

abbrev pub new : {N U : Type 0} → N → U → GatewayBridge N U
new network uart = record { network = network; uart = uart; rx_buf = [] }

-- The two parts of a bridge that a received byte changes.
pub record Reception (N : Type 0) : Type 0 where
  pub radio : N
  pub buffer : List ℕ

abbrev pub has_magic : List ℕ → Bool
has_magic buf = get_or buf 0 0 == 0xDE && get_or buf 1 0 == 0xAD

abbrev pub announced : List ℕ → ℕ
announced buf = from_be16 (get_or buf 2 0) (get_or buf 3 0)

abbrev pub header : ℕ → List ℕ
header size = let len = size % 2 ^ 16 in 0xDE ∷ 0xAD ∷ len / 256 ∷ len % 256 ∷ []

module _ {N U : Type 0} (network_ops : Network N) (uart_ops : Uart U) (archive : Archive) where
  abbrev pub forward_payload : List ℕ → N → N
  forward_payload [] network = network
  forward_payload (b ∷ payload) network = (network_ops.broadcast network (opcode_from b) payload).0

  unfoldable pub forward : List ℕ → N → N
  forward frame network = elim (archive.check frame) [
    | none ↦ network
    | some payload ↦ forward_payload payload network
  ]

  -- The framing parser, on the buffer with the new byte in it.
  unfoldable pub parse : List ℕ → N → Reception N
  unfolding forward
  parse buf network =
      if leb 4 (length buf)
      then (if has_magic buf
          then (if leb (4 + announced buf) (length buf)
              then record {
                radio = forward (take (announced buf) (drop 4 buf)) network;
                buffer = drop (4 + announced buf) buf;
              }
              else record { radio = network; buffer = buf })
          else record { radio = network; buffer = drop 1 buf })
      else record { radio = network; buffer = buf }

  -- The body of the reading loop.
  unfoldable pub take_byte : ℕ → Reception N → Reception N
  unfolding parse
  take_byte b r = parse (r.buffer ++ b ∷ []) r.radio

  abbrev pub receive_byte : ℕ → GatewayBridge N U → GatewayBridge N U
  receive_byte b g =
      let r = take_byte b (record { radio = g.network; buffer = g.rx_buf }) in
      record g { network = r.radio; rx_buf = r.buffer }

  -- `while let Some(b) = self.uart.read()`, for at most `fuel` bytes.
  unfoldable pub read_uart : ℕ → GatewayBridge N U → GatewayBridge N U
  unfolding take_byte
  read_uart zero g = g
  read_uart (suc fuel) g =
      let (uart, byte) = uart_ops.read g.uart in
      elim byte [
        | none ↦ record g { uart = uart }
        | some b ↦ read_uart fuel (receive_byte b (record g { uart = uart }))
      ]

  -- A radio message, packed into a frame and written to the line.
  unfoldable pub write_frame : NodeId → OpCode → List ℕ → U → U
  write_frame sender opcode payload uart =
      elim (archive.to_bytes sender (opcode_byte opcode ∷ payload)) [
        | none ↦ uart
        | some serialized ↦
            let (uart1, _) = uart_ops.write uart (header (length serialized)) in
            (uart_ops.write uart1 serialized).0
      ]

  abbrev pub send_message :
      Option (NodeId × OpCode × List ℕ) → GatewayBridge N U → GatewayBridge N U
  send_message none g = g
  send_message (some (sender, opcode, payload)) g = record g {
    uart = write_frame sender opcode payload g.uart;
  }

  unfoldable pub tick : ℕ → GatewayBridge N U → GatewayBridge N U
  unfolding read_uart write_frame
  tick fuel g =
      let g1 = read_uart fuel g in
      let (network, message) = network_ops.receive g1.network 256 in
      send_message message (record g1 { network = network })
