-- ===== src/CoreGateway/Outgoing.antt =====
-- crates/tiny-io-oi/src/gateway.rs: what a bridge writes on its line of the messages that its radio
-- delivers.
use tiny_io_oi.Prelude.{
  ℕ, zero, suc, ◌≤◌, List, [], ◌∷◌, ◌++◌, Option, none, some, ◌≡◌, refl, sym, ap, ◌∙◌, arith,
  length, append_nil, append_assoc, take_all, min, take, All, map,
}
use tiny_io_oi.Protocol.{NodeId, OpCode, opcode_byte}
use tiny_io_oi.Drivers.{MockNetwork, MockUart, mock_network, mock_uart}
use tiny_io_oi.Gateway.{Archive, header, forward, forward_payload, write_frame}
use tiny_io_oi.CoreGateway.{
  FramingDecoder, CoreBridge, forward_if, receive_byte, read_uart, send_message, tick,
}
use tiny_io_oi.CoreGateway.Relay.{Message, IsArchived, line_of}

-- What a radio delivers.
abbrev pub delivery : Message → NodeId × OpCode × List ℕ
delivery m = (m.sender, m.opcode, m.payload)

-- The payload fits in the buffer of a bridge.
abbrev pub IsShort : Message → Type 0
IsShort m = length m.payload ≤ 256

module _ {D : Type 0} (archive : Archive) (decoder_ops : FramingDecoder D) where
  abbrev Bridge : Type 0
  Bridge = CoreBridge MockNetwork MockUart D

  -- These messages wait at the radio, and this has been written.
  pub record Holds (incoming : List (NodeId × OpCode × List ℕ)) (line : List ℕ) (g : Bridge)
      : Type 0 where
    pub delivers : g.network.incoming ≡ incoming
    pub wrote : g.uart.written ≡ line

  -- As many ticks as there are numbers, each of which is how many bytes a tick reads at most.
  abbrev pub ticks : List ℕ → Bridge → Bridge
  ticks [] g = g
  ticks (fuel ∷ fuels) g = ticks fuels (tick mock_network mock_uart archive decoder_ops fuel g)

  forward-incoming :
      (frame : List ℕ) (n : MockNetwork)
      → (forward mock_network mock_uart archive frame n).incoming ≡ n.incoming
  unfolding forward
  forward-incoming frame n = go (archive.check frame)
    where
      go :
          (o : Option (List ℕ))
          → let n1 : MockNetwork = elim o [
            | none ↦ n
            | some payload ↦ forward_payload mock_network mock_uart archive payload n
          ] in
            n1.incoming ≡ n.incoming
      go none = refl
      go (some []) = refl
      go (some (b ∷ payload)) = refl

  forward_if-incoming :
      (frame : Option (List ℕ)) (n : MockNetwork)
      → (forward_if mock_network mock_uart archive decoder_ops frame n).incoming ≡ n.incoming
  forward_if-incoming none n = refl
  forward_if-incoming (some frame) n = forward-incoming frame n

  read_uart-Holds :
      (fuel : ℕ) (bytes written : List ℕ) (n : MockNetwork) (d : D) (line : List ℕ)
      (incoming : List (NodeId × OpCode × List ℕ))
      → let uart : MockUart = record { incoming = bytes; written = written } in
        let g : Bridge = record { network = n; uart = uart; decoder = d } in
        Holds incoming line g
        → Holds incoming line (read_uart mock_network mock_uart archive decoder_ops fuel g)
  unfolding read_uart receive_byte
  read_uart-Holds zero bytes written n d line incoming holds = holds
  read_uart-Holds (suc fuel) [] written n d line incoming holds = holds
  read_uart-Holds (suc fuel) (b ∷ bytes) written n d line incoming holds =
      let (d', frame) = decoder_ops.feed_byte d b in
      read_uart-Holds fuel bytes written
        (forward_if mock_network mock_uart archive decoder_ops frame n) d' line incoming
        (record { delivers = forward_if-incoming frame n ∙ holds.delivers; wrote = holds.wrote })

  take_short : (m : Message) → IsShort m → take (min (length m.payload) 256) m.payload ≡ m.payload
  take_short m short =
      let e : min (length m.payload) 256 ≡ length m.payload = omega (arith, short) in
      rw e (take_all m.payload)

  write_frame-written :
      (m : Message) (u : MockUart)
      → archive.to_bytes m.sender (opcode_byte m.opcode ∷ m.payload) ≡ some m.serialized
      → (write_frame mock_network mock_uart archive m.sender m.opcode m.payload u).written
        ≡ u.written ++ (header (length m.serialized) ++ m.serialized)
  unfolding write_frame
  write_frame-written m u written =
      rw (write_frame, written) (append_assoc u.written (header (length m.serialized)) m.serialized)

  -- The second half of a tick, on a bridge whose radio delivers a message.
  sent-Holds :
      (line : List ℕ) (m : Message) (rest : List (NodeId × OpCode × List ℕ)) (g : Bridge)
      → Holds (delivery m ∷ rest) line g
      → IsShort m
      → archive.to_bytes m.sender (opcode_byte m.opcode ∷ m.payload) ≡ some m.serialized
      → let (network, message) = mock_network.receive g.network 256 in
        Holds rest (line ++ (header (length m.serialized) ++ m.serialized)) (
          send_message mock_network mock_uart archive decoder_ops message
            (record g { network = network }))
  sent-Holds line m rest g holds short written =
      rw (holds.delivers, take_short m short)
        (record {
          delivers = refl;
          wrote =
              write_frame-written m g.uart written
              ∙ ap (λ l. l ++ (header (length m.serialized) ++ m.serialized)) holds.wrote;
        })

  tick-Holds :
      (fuel : ℕ) (line : List ℕ) (m : Message) (rest : List (NodeId × OpCode × List ℕ)) (g : Bridge)
      → Holds (delivery m ∷ rest) line g
      → IsShort m
      → archive.to_bytes m.sender (opcode_byte m.opcode ∷ m.payload) ≡ some m.serialized
      → Holds rest
          (line ++ (header (length m.serialized) ++ m.serialized))
          (tick mock_network mock_uart archive decoder_ops fuel g)
  unfolding tick
  tick-Holds fuel line m rest g holds short written =
      sent-Holds line m rest (read_uart mock_network mock_uart archive decoder_ops fuel g)
        (read_uart-Holds fuel g.uart.incoming g.uart.written g.network g.decoder line
          (delivery m ∷ rest) holds)
        short written

  -- A bridge whose radio delivers messages of at most 256 bytes, each archived, writes their frames
  -- on its line in their order, one with each tick, whatever it reads from the line meanwhile.
  pub ticks-written :
      (capacity : ℕ) (ms : List Message) (fuels : List ℕ) (line : List ℕ) (g : Bridge)
      → length fuels ≡ length ms
      → Holds (map delivery ms) line g
      → All IsShort ms
      → All (IsArchived archive capacity) ms
      → (ticks fuels g).uart.written ≡ line ++ line_of ms
  ticks-written capacity [] [] line g e holds short archived = holds.wrote ∙ sym (append_nil line)
  ticks-written capacity [] (fuel ∷ fuels) line g e holds short archived = absurd (omega (arith, e))
  ticks-written capacity (m ∷ ms) [] line g e holds short archived = absurd (omega (arith, e))
  ticks-written capacity (m ∷ ms) (fuel ∷ fuels) line g e holds short archived =
      let frame = header (length m.serialized) ++ m.serialized in
      ticks-written capacity ms fuels (line ++ frame)
        (tick mock_network mock_uart archive decoder_ops fuel g) (omega (arith, e))
        (tick-Holds fuel line m (map delivery ms) g holds short.0 archived.0.written) short.1
        archived.1
      ∙ append_assoc line frame (line_of ms)
